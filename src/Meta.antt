-- ===== src/Meta.antt =====
-- libzerostash/src/meta/mod.rs: the header of a metadata object, its fields and their offsets.
-- Meta/Encoding.antt and Meta/Writer.antt are meta/writer.rs, Meta/Reader.antt is meta/reader.rs.
pub mod Offsets
pub mod Encoding
pub mod Writer
pub mod Reader
pub mod Frames
pub mod Fields
pub mod Headed
pub mod Reopened
use zerostash.Prelude.{ℕ, Bool, true, false, Option, none, some, List, [], ◌∷◌, if◌then◌else◌}
use zerostash.Prelude.Equality.{Eq, ◌=?◌}
use zerostash.Objects.{ObjectId}

-- `HEADER_SIZE`
abbrev pub header_size : ℕ
header_size = 512

pub data Field : Type 0 where
  chunks files : Field

field_dec : Discrete Field
field_dec = hlevel

instance unfoldable pub field_eq : Eq Field
unfolding field_dec
field_eq = record { dec = field_dec }

-- `FieldOffset::Chunks(offs)` and `FieldOffset::Files(offs)`, with a `u32`
pub data FieldOffset : Type 0 where
  chunks_at files_at : ℕ → FieldOffset

-- `From<&FieldOffset> for u32`
unfoldable pub to_u32 : FieldOffset → ℕ
to_u32 (chunks_at o) = o
to_u32 (files_at o) = o

unfoldable pub as_field : FieldOffset → Field
as_field (chunks_at _) = chunks
as_field (files_at _) = files

unfoldable pub as_offset : Field → ℕ → FieldOffset
as_offset chunks offs = chunks_at offs
as_offset files offs = files_at offs

-- `MetaObjectHeader::V1`
pub record MetaObjectHeader : Type 0 where
  pub next_object : Option ObjectId
  pub offsets : List FieldOffset
  pub end : ℕ

unfoldable pub offset_fields : List FieldOffset → List Field
offset_fields [] = []
offset_fields (fo ∷ offsets) = as_field fo ∷ offset_fields offsets

unfoldable pub fields : MetaObjectHeader → List Field
unfolding offset_fields
fields header = offset_fields header.offsets

-- The first offset of the field.
unfoldable pub find_offset : Field → List FieldOffset → Option ℕ
find_offset field [] = none
find_offset field (fo ∷ offsets) =
    if as_field fo =? field then some (to_u32 fo) else find_offset field offsets

unfoldable pub get_offset : Field → MetaObjectHeader → Option ℕ
unfolding find_offset
get_offset field header = find_offset field header.offsets

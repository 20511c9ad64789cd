-- ===== src/Files/Changed.antt =====
-- `FileStore::has_changed` and `push`.
use zerostash.Prelude.{
  ◌≡◌, ◌≢◌, refl, Bool, true, false, ◌&&◌, ◌∙◌, Option, [], ◌∷◌, ok, arith, if◌then◌else◌,
}
use zerostash.Prelude.Equality.{◌=?◌}
use zerostash.Prelude.Dict
use zerostash.Prelude.Dict.{lookup-insert}
use zerostash.Objects.{Bytes}
use zerostash.Files.{
  Entry, entry_eq, FileIndex, Metadata, from_file, has_changed, push, serialize, deserialize,
}

-- After a push exactly the pushed entry, and what had not changed before, has not changed.
pub has_changed-push :
    (e f : Entry) (index : FileIndex)
    → has_changed f (push e index) ≡ (if f =? e then false else has_changed f index)
unfolding has_changed push
has_changed-push e f index = ground (arith, lookup-insert f e tt index)

-- An entry as `from_file` makes it has no chunks.
pub chunks-from_file :
    (m : Metadata) (path : Option Bytes) (e : Entry) → from_file m path ≡ ok e → e.chunks ≡ []
unfolding from_file
chunks-from_file m path e h = ground arith

-- Storing a file with its chunks does not make it count as unchanged: the entry that `from_file`
-- makes of the same file has no chunks, and the comparison is of whole entries.
pub has_changed-after_push :
    (e stored : Entry) (index : FileIndex)
    → e.chunks ≡ []
    → stored.chunks ≢ []
    → has_changed e (push stored index) ≡ has_changed e index
unfolding has_changed push
has_changed-after_push e stored index none_yet some_chunks =
    ground (arith, lookup-insert e stored tt index, some_chunks)

has_changed-deserialize :
    (rest index : FileIndex) (f : Entry)
    → has_changed f (deserialize (serialize rest) index)
      ≡ (has_changed f rest && has_changed f index)
unfolding deserialize serialize has_changed Dict.lookup
has_changed-deserialize [] index f = refl
has_changed-deserialize ((e, u) ∷ rest) index f =
    ground
      (arith, lookup-insert f e tt index, has_changed-deserialize rest (Dict.insert e tt index) f)

and-true : (b : Bool) → (b && true) ≡ b
and-true true = refl
and-true false = refl

-- A file set that is written out and read into an empty store holds the same entries.
pub deserialize-serialize_files :
    (index : FileIndex) (f : Entry)
    → has_changed f (deserialize (serialize index) []) ≡ has_changed f index
unfolding has_changed Dict.lookup
deserialize-serialize_files index f =
    has_changed-deserialize index [] f ∙ and-true (has_changed f index)

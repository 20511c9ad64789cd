-- ===== src/Tests/Reopened.antt =====
-- A block with one field, sealed and opened, under a toy encoding of headers.
use zerostash.Prelude.{
  ℕ, zero, suc, ◌-◌, ◌<◌, ◌≡◌, ◌∙◌, refl, sym, length-append, ap, ap₂, Option, some, none, List, [],
  ◌∷◌, ◌++◌, length, take, drop, replicate, length-replicate, take-append, append_assoc, ok, arith,
}
use zerostash.Objects.{Bytes, ObjectId, Object, block_size}
use zerostash.Backends.{unconditional, in_memory, memory_write}
use zerostash.Backends.Memory.{in_memory-IsLawful}
use zerostash.Meta.{MetaObjectHeader, FieldOffset, files, files_at, chunks_at, header_size}
use zerostash.Meta.Encoding.{parked}
use zerostash.Meta.Writer.{Cbor, Writer, pad_object, header_of}
use zerostash.Meta.Reader.{Codec, Reader, open_object}
use zerostash.Crypto.Sealing.{IsBlock, IsSealing, object_operations-IsSealing}
use zerostash.Meta.Reopened.{Decodes, Reopens, pad_object-open_object}
use zerostash.Tests.Samples.{
  primitives, primitives-IsLawful, key, provider, provider-IsSound, sample_id,
}
use zerostash.Tests.Meta.{encoder}

abbrev pub coded_offsets : List FieldOffset → Bytes
coded_offsets [] = 0 ∷ []
coded_offsets (files_at n ∷ offsets) = 1 ∷ n ∷ coded_offsets offsets
coded_offsets (chunks_at n ∷ offsets) = 2 ∷ n ∷ coded_offsets offsets

abbrev pub coded_next : Option ObjectId → Bytes
coded_next none = 0 ∷ []
coded_next (some id) = 1 ∷ length id ∷ id

abbrev pub coded : MetaObjectHeader → Bytes
coded h = h.end ∷ coded_next h.next_object ++ coded_offsets h.offsets

abbrev pub offsets_in : Bytes → List FieldOffset
offsets_in [] = []
offsets_in (zero ∷ bs) = []
offsets_in (suc k ∷ []) = []
offsets_in (suc zero ∷ n ∷ bs) = files_at n ∷ offsets_in bs
offsets_in (suc (suc k) ∷ n ∷ bs) = chunks_at n ∷ offsets_in bs

abbrev pub header_in : ℕ → Bytes → MetaObjectHeader
header_in end [] = record { next_object = none; offsets = []; end = end }
header_in end (zero ∷ bs) = record { next_object = none; offsets = offsets_in bs; end = end }
header_in end (suc k ∷ []) = record { next_object = none; offsets = []; end = end }
header_in end (suc k ∷ n ∷ bs) = record {
  next_object = some (take n bs);
  offsets = offsets_in (drop n bs);
  end = end;
}

abbrev pub decoded : Bytes → Option (Option MetaObjectHeader)
decoded [] = none
decoded (end ∷ bs) = some (some (header_in end bs))

abbrev pub cbor : Cbor
cbor = record { encode_header = λ h. some (coded h) }

abbrev pub codec : Codec
codec = record { decode_header = decoded; destream = λ bs. ok [] }

offsets_in-coded :
    (offsets : List FieldOffset) (rest : Bytes)
    → offsets_in (coded_offsets offsets ++ rest) ≡ offsets
offsets_in-coded [] rest = refl
offsets_in-coded (files_at n ∷ offsets) rest =
    ap (λ fs. files_at n ∷ fs) (offsets_in-coded offsets rest)
offsets_in-coded (chunks_at n ∷ offsets) rest =
    ap (λ fs. chunks_at n ∷ fs) (offsets_in-coded offsets rest)

drop-past : (xs ys : Bytes) → drop (length xs) (xs ++ ys) ≡ ys
drop-past [] ys = refl
drop-past (x ∷ xs) ys = drop-past xs ys

header_in-coded :
    (end : ℕ) (next : Option ObjectId) (offsets : List FieldOffset) (rest : Bytes)
    → header_in end ((coded_next next ++ coded_offsets offsets) ++ rest)
      ≡ record { next_object = next; offsets = offsets; end = end }
header_in-coded end none offsets rest =
    ap (λ fs. record { next_object = none; offsets = fs; end = end })
      (offsets_in-coded offsets rest)
header_in-coded end (some id) offsets rest =
    ap (λ xs. header_in end (1 ∷ length id ∷ xs)) (append_assoc id (coded_offsets offsets) rest)
    ∙ ap₂ (λ i fs. record { next_object = some i; offsets = offsets_in fs; end = end })
        (take-append id (coded_offsets offsets ++ rest) (length id) refl)
        (drop-past id (coded_offsets offsets ++ rest))
    ∙ ap (λ fs. record { next_object = some id; offsets = fs; end = end })
        (offsets_in-coded offsets rest)

abbrev object : Object
object = record {
  id = sample_id;
  buffer = replicate block_size 0;
  capacity = block_size - 16;
  cursor = 530;
}

object-IsBlock : IsBlock object
object-IsBlock = record {
  id_size = refl;
  room = omega (arith, length-replicate {A = ℕ} block_size 0);
  whole = length-replicate {A = ℕ} block_size 0;
}

abbrev writing : Writer provider in_memory encoder
writing = record {
  objects = [];
  offsets = files_at 512 ∷ [];
  encoder = parked object;
  current_field = some files;
  source = 1;
  backend = [];
}

abbrev reader : Reader provider in_memory
reader = record { inner = object; header = none; backend = [] }

pub sealing : IsSealing provider
sealing = object_operations-IsSealing primitives key primitives-IsLawful refl

header_coded :
    (next : ObjectId)
    → length next ≡ 32
    → (bs : Bytes) × (cbor.encode_header
          (header_of provider in_memory encoder cbor writing next 530)
        ≡ some bs)
      × (length bs < header_size)
unfolding header_of
header_coded next long = (
  530 ∷ 1 ∷ length next ∷ (next ++ 1 ∷ 512 ∷ 0 ∷ []),
  refl,
  omega (arith, length-append next (1 ∷ 512 ∷ 0 ∷ [])),
)

some-injective : (a b : Bytes) → ◌≡◌ {A = Option Bytes} (some a) (some b) → a ≡ b
some-injective a b e = cc

pub codec-Decodes :
    Decodes provider in_memory encoder cbor provider-IsSound sealing
      (unconditional in_memory)
      in_memory-IsLawful
      codec
codec-Decodes h bs rest e =
    ap (λ xs. decoded (xs ++ rest)) (sym (some-injective (coded h) bs e))
    ∙ ap (λ x. some (some x)) (header_in-coded h.end h.next_object h.offsets rest)

taken : (x : Object) → length x.buffer ≡ block_size → (memory_write x []).0 ≡ ok tt
unfolding memory_write
taken x e = refl

pad_object-open_object_example :
    (w : Writer provider in_memory encoder) × (next : ObjectId) × (pad_object provider in_memory
        encoder cbor object writing
      ≡ (ok tt, w))
    × (r : Reader provider in_memory) × (open_object provider in_memory codec sample_id
          (record reader { backend = w.backend })
        ≡ (ok (header_of provider in_memory encoder cbor writing next 530), r))
    × Reopens provider in_memory encoder cbor provider-IsSound sealing
        (unconditional in_memory)
        in_memory-IsLawful
        codec
        object
        (header_of provider in_memory encoder cbor writing next 530)
        r
pad_object-open_object_example =
    pad_object-open_object provider in_memory encoder cbor provider-IsSound sealing
      (unconditional in_memory) in_memory-IsLawful codec object writing reader codec-Decodes
      object-IsBlock (omega (arith, length-replicate {A = ℕ} block_size 0)) header_coded tt tt taken
      (length-replicate {A = ℕ} block_size 0)

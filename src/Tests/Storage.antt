-- ===== src/Tests/Storage.antt =====
-- `Storage` at concrete inputs: an object of 16 bytes over the memory.
use zerostash.Prelude.{◌≡◌, ◌≢◌, refl, ap, get_or, [], ◌∷◌, ◌++◌, replicate, ok, panic, arith}
use zerostash.Prelude.Equality.{bytes_eq}
use zerostash.Prelude.Dict
use zerostash.Objects.{Bytes, Object, finalize_range, reset_cursor, set_id}
use zerostash.Chunks.Pointer.{ChunkPointer}
use zerostash.Compress.{block}
use zerostash.Crypto.{to_le_bytes, encrypt_chunk}
use zerostash.Backends.{unconditional, in_memory, memory_read, memory_write}
use zerostash.Backends.Memory.{in_memory-IsLawful}
use zerostash.Storage.{Storage, flush, store_chunk}
use zerostash.Storage.Flush.{IsValid, Flushed, flush-Flushed}
use zerostash.Storage.Place.{Holds}
use zerostash.Storage.Located.{Located, pending}
use zerostash.Storage.Keeps.{here, finish, others_read, Reach-keeps, IsReady}
use zerostash.Storage.Outcomes.{Ended, store_chunk-Ended, store_chunk_too_long}
use zerostash.Tests.Samples.{
  provider, provider-IsSound, lz4, lz4-IsLawful, key, sample_id, zero_tag,
}

abbrev plain : Bytes
plain = 1 ∷ 2 ∷ 3 ∷ []

abbrev pub packed : Bytes
packed = 3 ∷ 0 ∷ 0 ∷ 0 ∷ 1 ∷ 2 ∷ 3 ∷ []

pub packed-block : block lz4 plain ≡ ok packed
unfolding block to_le_bytes
packed-block = refl

-- One chunk is stored, one byte is left.
abbrev pub filled : Storage provider in_memory
filled = record {
  object = record { id = sample_id; buffer = packed ++ 0 ∷ []; capacity = 8; cursor = 7 };
  capacity = 8;
  source = 1;
  backend = [];
}

abbrev pub pointer : ChunkPointer
pointer = record { offs = 0; size = 7; file = sample_id; hash = key; tag = zero_tag }

filled-IsValid : IsValid filled
filled-IsValid = record {
  full = refl;
  whole = refl;
  cursor_in = omega arith;
  id_size = refl;
  addressable = omega arith;
}

-- Whatever starts with the chunk, under the object's id, holds it.
pub filled-Holds : Holds provider filled.object pointer key packed
unfolding encrypt_chunk
filled-Holds = record {
  sealer = filled.object;
  cipher = packed;
  tag = zero_tag;
  sealed = refl;
  sealed_for = refl;
  points = record {
    in_buffer = omega arith;
    sized = refl;
    stored = refl;
    same_hash = refl;
    same_tag = refl;
  };
}

abbrev flushed_state : Storage provider in_memory
flushed_state = (flush provider in_memory filled).1

filled-flush : flush provider in_memory filled ≡ (ok tt, flushed_state)
unfolding flush memory_write Dict.insert finalize_range
filled-flush = refl

fresh_first : get_or flushed_state.object.id 0 1 ≡ 2
unfolding flush memory_write Dict.insert finalize_range replicate reset_cursor set_id
fresh_first = refl

fresh_id : sample_id ≢ flushed_state.object.id
fresh_id e = omega (arith, ap (λ x. get_or x 0 1) e, fresh_first)

flush-Flushed_example : (o : Object) × Flushed filled flushed_state o
flush-Flushed_example =
    flush-Flushed provider in_memory provider-IsSound filled flushed_state filled-IsValid
      filled-flush

filled-IsReady : IsReady provider in_memory lz4 (unconditional in_memory) in_memory-IsLawful filled
filled-IsReady = record { valid = filled-IsValid; coherent = tt; accepted = tt }

-- A flush, and a read of another object.
Reach-keeps_example :
    IsReady provider in_memory lz4
      (unconditional in_memory)
      in_memory-IsLawful
      (record flushed_state { backend = (memory_read key flushed_state.backend).1 })
    × Located
        (record flushed_state { backend = (memory_read key flushed_state.backend).1 })
        pointer
        key
        packed
Reach-keeps_example =
    Reach-keeps provider in_memory lz4 (unconditional in_memory) in_memory-IsLawful provider-IsSound
      lz4-IsLawful key packed pointer (others_read key (finish here filled-flush fresh_id))
      filled-IsReady (pending refl (omega arith) filled-Holds)

store_chunk-Ended_example : Ended provider in_memory provider-IsSound lz4 key plain packed filled
store_chunk-Ended_example =
    store_chunk-Ended provider in_memory provider-IsSound lz4 key plain (unconditional in_memory)
      in_memory-IsLawful packed filled filled-IsValid packed-block (omega arith)

abbrev long_plain : Bytes
long_plain = 1 ∷ 2 ∷ 3 ∷ 4 ∷ 5 ∷ []

long-block : block lz4 long_plain ≡ ok (5 ∷ 0 ∷ 0 ∷ 0 ∷ long_plain)
unfolding block to_le_bytes
long-block = refl

store_chunk_too_long_example : (store_chunk provider in_memory lz4 key long_plain filled).0 ≡ panic
store_chunk_too_long_example =
    store_chunk_too_long provider in_memory provider-IsSound lz4 key long_plain
      (5 ∷ 0 ∷ 0 ∷ 0 ∷ long_plain) filled flushed_state filled-IsValid long-block (omega arith)
      (omega arith) filled-flush

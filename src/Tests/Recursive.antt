-- ===== src/Tests/Recursive.antt =====
-- A file of three bytes to store, and what is known of the indices before and after.
use zerostash.Prelude.{
  ℕ, ◌≡◌, ◌≢◌, ◌∙◌, sym, ap, false, some, [], ◌∷◌, get_or, replicate, suc, arith,
}
use zerostash.Prelude.Equality.{bytes_eq}
use zerostash.Prelude.Dict
use zerostash.Objects.{Bytes, CryptoDigest}
use zerostash.Chunks.Pointer.{ChunkPointer}
use zerostash.Backends.{unconditional, in_memory}
use zerostash.Backends.Memory.{in_memory-IsLawful}
use zerostash.Files.{Metadata, entry_eq}
use zerostash.Restore.{normal}
use zerostash.Store.{DirEntry}
use zerostash.Store.Queue.{Settled}
use zerostash.Tests.Samples.{provider, provider-IsSound, lz4, lz4-IsLawful, zero_tag}
use zerostash.Tests.Stored.{bytes, digest_of, contents, whole_file, storage-IsValid, worker}

abbrev pub metadata : Metadata
metadata = record {
  mtime = some (100, 5);
  mode = 420;
  uid = 1000;
  gid = 1000;
  len = 3;
  readonly = false;
}

abbrev pub file : DirEntry
file = record {
  path = normal (97 ∷ []) ∷ [];
  name = some (97 ∷ []);
  opened = some (metadata, some bytes);
}

pub worker-Settled :
    Settled provider in_memory lz4
      (unconditional in_memory)
      in_memory-IsLawful
      contents
      provider-IsSound
      lz4-IsLawful
      digest_of
      whole_file
      worker
unfolding Dict.lookup
worker-Settled = record {
  ready = record { valid = storage-IsValid; coherent = tt; accepted = tt };
  kept = λ hash p found. absurd (cc);
}

-- What the first worker stored.
abbrev pub pointer : ChunkPointer
pointer = record { offs = 0; size = 7; file = replicate 32 1; hash = bytes; tag = zero_tag }

-- Away from the object of that pointer.
pub away :
    (n : ℕ) (id : Bytes)
    → get_or id 0 1 ≡ suc (suc n)
    → (hash : CryptoDigest) (p : ChunkPointer) → Dict.lookup hash ((bytes, pointer) ∷ []) ≡ some p
    → p.file ≢ id
unfolding Dict.lookup replicate
away n id first hash p found same =
    let here : p ≡ pointer = ground (arith, found) in
    omega (arith, ap (λ i. get_or i 0 1) (sym (ap (λ q. q.file) here) ∙ same), first)

pub no_pointer :
    (id : Bytes) (hash : CryptoDigest) (p : ChunkPointer)
    → Dict.lookup hash [] ≡ some p
    → p.file ≢ id
unfolding Dict.lookup
no_pointer id hash p found = absurd (cc)

-- ===== src/Restore/Extract.antt =====
-- One chunk of a file, extracted from an object that holds it.
use zerostash.Prelude.{
  ℕ, ◌+◌, ◌≤◌, ◌<◌, ◌≡◌, ◌∙◌, refl, sym, true, length, drop, length-drop, leb, place_at, ok, arith,
}
use zerostash.Objects.{Bytes, CryptoDigest, Object}
use zerostash.Chunks.Pointer.{ChunkPointer}
use zerostash.Compress
use zerostash.Compress.{Lz4, block, max_input, in_bounds, decompress_into}
use zerostash.Compress.Blocks.{decompress_into-block}
use zerostash.Crypto.Provider.{CryptoProvider, IsSound}
use zerostash.Storage.Place.{Holds}
use zerostash.Restore.{done, Target, extract}

module _ (C : CryptoProvider) (Z : Lz4) (K : IsSound C) (L : Compress.IsLawful Z) where
  -- The extraction of a chunk that the object holds writes its plaintext at `start` and nothing
  -- else, without a panic or an overrun, where the file and the worker's buffer have room for it.
  pub extract-Holds :
      (object : Object) (p : ChunkPointer) (hash : CryptoDigest) (plain z : Bytes) (start : ℕ)
      (t : Target)
      → Holds C object p hash z
      → object.id ≡ p.file
      → block Z plain ≡ ok z
      → 0 < length plain
      → length plain ≤ max_input
      → length z + 16 ≤ length t.buffer
      → start + length plain ≤ length t.mmap
      → (buffer : Bytes) × (extract C Z object (start, p) t
          ≡ done (record { buffer = buffer; mmap = place_at t.mmap start plain }))
        × (length buffer ≡ length t.buffer)
  unfolding extract
  extract-Holds object p hash plain z start t h id packed pos small room fits =
      let (buffer, run, front, size) =
        K.decrypt-encrypt h.sealer object hash z h.cipher t.buffer h.tag p h.sealed
          (id ∙ sym h.sealed_for) h.points (L.compress-lt plain z (unfold block in packed)) room in
      let in_file : leb start (length t.mmap) ≡ true = ground (arith, fits) in
      let out =
        decompress_into-block Z L (drop start t.mmap) plain z packed pos small
          (omega (arith, length-drop start t.mmap)) in
      (buffer, rw (run, in_file, front, out) refl, size)

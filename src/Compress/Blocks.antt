-- ===== src/Compress/Blocks.antt =====
-- `decompress_into` after `block`.
use zerostash.Prelude.{
  ℕ, ◌+◌, ◌*◌, ◌%◌, ◌/◌, ◌^◌, ◌≤◌, ◌<◌, ◌≡◌, ◌∙◌, ap, refl, false, some, ◌++◌, length, splice, leb,
  ◌==◌, ◌||◌, ok, arith,
}
use zerostash.Objects.{Bytes}
use zerostash.Crypto.{to_le_bytes}
use zerostash.Compress.{
  Lz4, IsLawful, max_input, block, decompress_into, decoded, in_bounds, overrun,
}

module _ (Z : Lz4) (L : IsLawful Z) where
  decompress_prefixed :
      (dst src : Bytes) (n : ℕ)
      → 0 < n
      → n ≤ max_input
      → decompress_into Z dst (to_le_bytes n ++ src) ≡ decoded Z dst (Z.decompress_safe src n)
  unfolding decompress_into to_le_bytes
  decompress_prefixed dst src n pos small = rw (whole, not_negative, L.bound n small) refl
    where
      whole :
          n % 256
            + n / 256 % 256 * 2 ^ 8
            + n / 256 / 256 % 256 * 2 ^ 16
            + n / 256 / 256 / 256 % 256 * 2 ^ 24
          ≡ n
      whole = omega arith

      not_negative : (n == 0 || leb (2 ^ 31) n) ≡ false
      not_negative = ground arith

  -- A chunk of 1 to 0x7e000000 bytes that was compressed decompresses to the front of any slice
  -- that has room for it, and leaves the rest of the slice.
  pub decompress_into-block :
      (dst plain z : Bytes)
      → block Z plain ≡ ok z
      → 0 < length plain
      → length plain ≤ max_input
      → length plain ≤ length dst
      → decompress_into Z dst z ≡ ok (in_bounds (splice dst 0 plain))
  unfolding block
  decompress_into-block dst plain z e pos small room =
      let (src, shape, back) = L.compress-ok plain z e in
      ap (decompress_into Z dst) shape
      ∙ decompress_prefixed dst src (length plain) pos small
      ∙ ap (decoded Z dst) back
      ∙ fits
    where
      fits : decoded Z dst (some plain) ≡ ok (in_bounds (splice dst 0 plain))
      fits = ground arith

  -- A slice that is too short is not refused: the bytes are written past its end.
  pub decompress_into_overruns :
      (dst plain z : Bytes)
      → block Z plain ≡ ok z
      → length plain ≤ max_input
      → length dst < length plain
      → decompress_into Z dst z ≡ ok (overrun plain)
  unfolding block
  decompress_into_overruns dst plain z e small short =
      let (src, shape, back) = L.compress-ok plain z e in
      ap (decompress_into Z dst) shape
      ∙ decompress_prefixed dst src (length plain) (omega arith) small
      ∙ ap (decoded Z dst) back
      ∙ long
    where
      long : decoded Z dst (some plain) ≡ ok (overrun plain)
      long = ground arith

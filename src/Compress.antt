-- ===== src/Compress.antt =====
-- libzerostash/src/compress.rs. The functions of liblz4 and of the lz4 crate are the parameter
-- `Lz4`; the streams of the crate are that of Meta/Writer.antt.
pub mod Blocks
use zerostash.Prelude.{
  ℕ, ◌+◌, ◌*◌, ◌^◌, ◌≤◌, ◌<◌, ◌≡◌, Bool, true, Option, none, some, [], ◌∷◌, ◌++◌, length, splice,
  leb, ltb, ◌||◌, ◌==◌, if◌then◌else◌, Outcome, ok, err,
}
use zerostash.Objects.{Bytes, IoError, invalid_input, invalid_data}
use zerostash.Crypto.{to_le_bytes}

-- `STREAM_BLOCK_SIZE`
abbrev pub stream_block_size : ℕ
stream_block_size = 64 * 1024

-- `compress` is `lz4::block::compress` in the mode `FAST(BLOCK_LEVEL)` with `prepend_size`;
-- `bound_positive n` tells whether `LZ4_compressBound(n) > 0`; `decompress_safe src n` is what
-- `LZ4_decompress_safe` writes with room for `n` bytes, `none` where it returns a negative number.
pub record Lz4 : Type 0 where
  pub compress : Bytes → Outcome IoError Bytes
  pub bound_positive : ℕ → Bool
  pub decompress_safe : Bytes → ℕ → Option Bytes

-- `LZ4_MAX_INPUT_SIZE`
abbrev pub max_input : ℕ
max_input = 0x7e00_0000

-- Their documentation: the output is the input's length in four bytes and a block that decompresses
-- to the input; sizes are `int`s, so it stays below 2 ^ 32 bytes; the bound is positive up to `LZ4_MAX_INPUT_SIZE`.
pub record IsLawful (Z : Lz4) : Type 0 where
  pub compress-ok :
      (data_in z : Bytes)
      → Z.compress data_in ≡ ok z
      → (block : Bytes) × (z ≡ to_le_bytes (length data_in) ++ block)
        × (Z.decompress_safe block (length data_in) ≡ some data_in)
  pub compress-lt : (data_in z : Bytes) → Z.compress data_in ≡ ok z → length z < 2 ^ 32
  pub bound : (n : ℕ) → n ≤ max_input → Z.bound_positive n ≡ true
  pub safe : (src out : Bytes) (n : ℕ) → Z.decompress_safe src n ≡ some out → length out ≤ n

-- What the raw call leaves: the slice with the bytes at its front, or bytes written past its end,
-- which is undefined behaviour.
pub data Decompressed : Type 0 where
  in_bounds : Bytes → Decompressed
  overrun : Bytes → Decompressed

abbrev pub land : Bytes → Bytes → Decompressed
land dst out = if leb (length out) (length dst) then in_bounds (splice dst 0 out) else overrun out

module _ (Z : Lz4) where
  unfoldable pub block : Bytes → Outcome IoError Bytes
  block buf = Z.compress buf

  abbrev pub decoded : Bytes → Option Bytes → Outcome IoError Decompressed
  decoded dst none = err invalid_data
  decoded dst (some out) = ok (land dst out)

  -- The four bytes are a little-endian `i32`, whose `|` of disjoint bits is a sum: as an unsigned
  -- number it is `size <= 0` at 0 and from 2 ^ 31 on. The length of `dst` is not looked at.
  unfoldable pub decompress_into : Bytes → Bytes → Outcome IoError Decompressed
  decompress_into dst (b0 ∷ b1 ∷ b2 ∷ b3 ∷ src) =
      let size = b0 + b1 * 2 ^ 8 + b2 * 2 ^ 16 + b3 * 2 ^ 24 in
      if size == 0 || leb (2 ^ 31) size
      then err invalid_input
      else if Z.bound_positive size
      then decoded dst (Z.decompress_safe src size)
      else err invalid_input
  decompress_into dst _ = err invalid_input

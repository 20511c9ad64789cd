-- ===== src/Rollsum.antt =====
-- libzerostash/src/rollsum.rs: `SeaSplit` and `BupSplit`. The hasher of the seahash crate is the
-- parameter `Hasher`.
pub mod Offsets
pub mod Window
use zerostash.Prelude.{
  ℕ, zero, suc, ◌+◌, ◌-◌, ◌*◌, ◌/◌, ◌%◌, ◌^◌, ◌≤◌, ◌<◌, bit_and, Bool, Option, some, none, List, [],
  ◌∷◌, length, slice, get_or, set, replicate, leb, ◌==◌, if◌then◌else◌,
}
use zerostash.Objects.{Bytes}

abbrev pub rollsum_char_offset : ℕ
rollsum_char_offset = 31

abbrev pub blob_size : ℕ
blob_size = 2 ^ 13

abbrev pub window_size : ℕ
window_size = 2 ^ 6

-- The trait: `RS::new().find_offset(buf)`, the only use of it.
pub record Rollsum : Type 0 where
  pub find_offset : Bytes → ℕ

-- A split is never empty and lies inside the buffer.
pub record IsLawful (R : Rollsum) : Type 0 where
  pub positive : (buf : Bytes) → 0 < length buf → 0 < R.find_offset buf
  pub inside : (buf : Bytes) → R.find_offset buf ≤ length buf

-- `(output & (BLOBSIZE - 1)) == (BLOBSIZE - 1)`
abbrev pub at_boundary : ℕ → Bool
at_boundary output = bit_and output (blob_size - 1) == blob_size - 1

pub record Hasher : Type 1 where
  pub State : Type 0
  pub fresh : State
  pub write : Bytes → State → State
  pub finish : State → ℕ

module _ (H : Hasher) where
  -- The loop over `(0..buf.len()).step_by(16)`, by the rounds left.
  unfoldable pub sea_loop : Bytes → ℕ → H.State → ℕ → ℕ → ℕ
  sea_loop buf zero hasher last limit = length buf
  sea_loop buf (suc rounds) hasher last limit =
      let hasher' = H.write (slice buf last limit) hasher in
      let rest = sea_loop buf rounds hasher' limit (limit + 16) in
      if at_boundary (H.finish hasher') then limit + 1 else rest

  unfoldable pub sea_find_offset : Bytes → ℕ
  unfolding sea_loop
  sea_find_offset buf = sea_loop buf ((length buf + 15) / 16) H.fresh 0 0

  abbrev pub sea_split : Rollsum
  sea_split = record { find_offset = sea_find_offset }

-- `BupSplit`: the sums are `u32`, the window has 64 bytes.
pub record BupSplit : Type 0 where
  pub s1 : ℕ
  pub s2 : ℕ
  pub window : Bytes
  pub wofs : ℕ

abbrev pub u32_mod : ℕ
u32_mod = 2 ^ 32

-- `add`: the difference of the bytes wraps as a `u8` before it is widened.
unfoldable pub add : ℕ → ℕ → BupSplit → BupSplit
add drop_byte add_byte b =
    let s1' = (b.s1 + (add_byte + 256 - drop_byte) % 256) % u32_mod in
    record b {
      s1 = s1';
      s2 =
          (b.s2 + (s1' + u32_mod - window_size * (drop_byte + rollsum_char_offset)) % u32_mod)
          % u32_mod;
    }

-- `window[wofs]` is in range, since `wofs` stays below the window's size.
unfoldable pub roll : ℕ → BupSplit → BupSplit
unfolding add
roll ch b =
    let b' = add (get_or b.window b.wofs 0) ch b in
    record b' { window = set b.window b.wofs ch; wofs = (b.wofs + 1) % window_size }

-- `(s1 << 16) | (s2 & 0xffff)`: the fields do not overlap, so `|` is a sum.
unfoldable pub digest : BupSplit → ℕ
digest b = b.s1 * 2 ^ 16 % u32_mod + b.s2 % 2 ^ 16

unfoldable pub bup_new : BupSplit
bup_new = record {
  s1 = window_size * rollsum_char_offset;
  s2 = window_size * (window_size - 1) * rollsum_char_offset;
  window = replicate window_size 0;
  wofs = 0;
}

-- The loop over the bytes from index `i` on; it ends at `buf.len()`.
unfoldable pub bup_loop : Bytes → ℕ → BupSplit → ℕ
unfolding roll
bup_loop [] i b = i
bup_loop (v ∷ rest) i b =
    let b' = roll v b in
    let later = bup_loop rest (i + 1) b' in if at_boundary b'.s2 then i + 1 else later

unfoldable pub bup_find_offset : Bytes → ℕ
unfolding bup_loop bup_new
bup_find_offset buf = bup_loop buf 0 bup_new

abbrev pub bup_split : Rollsum
bup_split = record { find_offset = bup_find_offset }

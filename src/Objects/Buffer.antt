-- ===== src/Objects/Buffer.antt =====
-- `Write`, `Read` and the other accesses of `Object<T>` to its buffer.
use zerostash.Prelude.{
  ℕ, ◌+◌, ◌≤◌, ◌<◌, ◌≡◌, refl, some, length, take, slice, splice, ok, panic, arith, length-append,
  length-take, take-append, length-splice, slice-splice_self, take-splice,
}
use zerostash.Objects.{Bytes, Object, copy_range, write, read, finalize_with}

pub copy_range_lem :
    (xs : Bytes) (a b : ℕ) (ys : Bytes)
    → a + length ys ≡ b
    → b ≤ length xs
    → copy_range xs a b ys ≡ some (splice xs a ys)
unfolding copy_range
copy_range_lem xs a b ys e h = ground arith

pub write_lem :
    (bs : Bytes) (o : Object)
    → o.cursor + length bs ≤ length o.buffer
    → write bs o ≡ (
      ok (length bs),
      record o { buffer = splice o.buffer o.cursor bs; cursor = o.cursor + length bs },
    )
unfolding write
write_lem bs o h = ground arith

pub write_overflow :
    (bs : Bytes) (o : Object) → length o.buffer < o.cursor + length bs → write bs o ≡ (panic, o)
unfolding write
write_overflow bs o h = ground arith

-- `write` of bytes that fit keeps the buffer's size, puts exactly these bytes at the cursor, moves
-- the cursor behind them, and leaves everything below the old cursor as it was.
pub record Wrote (bs : Bytes) (o o' : Object) : Type 0 where
  pub result : write bs o ≡ (ok (length bs), o')
  pub same_length : length o'.buffer ≡ length o.buffer
  pub stored : slice o'.buffer o.cursor (o.cursor + length bs) ≡ bs
  pub below : take o.cursor o'.buffer ≡ take o.cursor o.buffer
  pub moved : o'.cursor ≡ o.cursor + length bs
  pub same_id : o'.id ≡ o.id
  pub same_capacity : o'.capacity ≡ o.capacity

pub write-Wrote :
    (bs : Bytes) (o : Object)
    → o.cursor + length bs ≤ length o.buffer
    → (o' : Object) × Wrote bs o o'
write-Wrote bs o h = (
  o',
  record {
    result = write_lem bs o h;
    same_length = length-splice o.buffer o.cursor bs h;
    stored = slice-splice_self o.buffer o.cursor bs (omega arith);
    below = take-splice o.buffer o.cursor o.cursor bs (omega arith) (omega arith);
    moved = refl;
    same_id = refl;
    same_capacity = refl;
  },
)
  where
    o' : Object
    o' = record o { buffer = splice o.buffer o.cursor bs; cursor = o.cursor + length bs }

-- Writing and then reading from the old cursor gives the bytes back.
pub read-write :
    (bs : Bytes) (o : Object)
    → o.cursor + length bs ≤ length o.buffer
    → (read (length bs) (record (write bs o).1 { cursor = o.cursor })).0 ≡ ok bs
unfolding read
read-write bs o h = rw (write_lem bs o h) (
    ground (
      arith,
      length-splice o.buffer o.cursor bs h,
      slice-splice_self o.buffer o.cursor bs (omega arith),
    ))

-- `finalize` keeps what was written, and the size.
pub finalize_keeps :
    (random : Bytes) (o : Object)
    → o.cursor + length random ≡ length o.buffer
    → (take o.cursor (finalize_with random o).buffer ≡ take o.cursor o.buffer)
      × (length (finalize_with random o).buffer ≡ length o.buffer)
unfolding finalize_with
finalize_keeps random o h = (
  take-append (take o.cursor o.buffer) random o.cursor
      (omega (arith, length-take o.cursor o.buffer)),
  omega (arith, length-append (take o.cursor o.buffer) random, length-take o.cursor o.buffer),
)

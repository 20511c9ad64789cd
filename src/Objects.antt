-- ===== src/Objects.antt =====
-- libzerostash/src/objects.rs, lines 16 to 356: object ids, buffers, and `Object<T>` with its
-- `Write`, `Read` and `Seek`. A buffer of either kind is its bytes. A slice access out of range,
-- which panics, is `none` or `panic`. `Storage` is in Storage.antt.
pub mod Buffer
pub mod Seek
pub mod Hex
use zerostash.Prelude.{
  ℕ, ◌+◌, ◌-◌, ◌*◌, ◌/◌, ◌%◌, Bool, ◌&&◌, Option, none, some, List, [], ◌∷◌, ◌++◌, length, take,
  drop, slice, splice, replicate, ltb, leb, ◌==◌, if◌then◌else◌, Outcome, ok, err, panic, Exec, map,
}
use zerostash.Prelude.Int.{ℤ, pos, negsuc, sub_ℕ, pos_part, neg_part}

abbrev pub Bytes : Type 0
Bytes = List ℕ

-- `CryptoDigest`, 32 bytes; `ObjectId` is a newtype of it. `Tag` has 16 bytes.
abbrev pub CryptoDigest : Type 0
CryptoDigest = Bytes

abbrev pub ObjectId : Type 0
ObjectId = Bytes

abbrev pub Tag : Type 0
Tag = Bytes

abbrev pub crypto_digest_size : ℕ
crypto_digest_size = 32

abbrev pub tag_size : ℕ
tag_size = 16

-- `BLOCK_SIZE` of lib.rs
abbrev pub block_size : ℕ
block_size = 4 * 1024 * 1024

-- The kinds of `io::Error` that the code makes itself, and those that the system returns.
pub data IoError : Type 0 where
  unexpected_eof invalid_input invalid_data other : IoError
  os : ℕ → IoError

unfoldable pub default_id : ObjectId
default_id = replicate crypto_digest_size 0

-- `from_bytes`: `copy_from_slice` wants exactly 32 bytes.
unfoldable pub from_bytes : Bytes → Option ObjectId
from_bytes bytes = if length bytes == crypto_digest_size then some bytes else none

-- `{:x}` of a digit
unfoldable pub hex_digit : ℕ → ℕ
hex_digit d = if ltb d 10 then 48 + d else 87 + d

-- `to_string`: `{:02x}` of each byte, as character codes
unfoldable pub to_string : ObjectId → List ℕ
unfolding hex_digit
to_string [] = []
to_string (b ∷ rest) = hex_digit (b / 16) ∷ hex_digit (b % 16) ∷ to_string rest

pub record Object : Type 0 where
  pub id : ObjectId
  pub buffer : Bytes
  pub capacity : ℕ
  pub cursor : ℕ

-- `BlockBuffer::default()`
unfoldable pub default_buffer : Bytes
default_buffer = replicate block_size 0

-- `Object::new`
unfoldable pub new : Bytes → Object
new buf = record { id = default_id; buffer = buf; capacity = block_size; cursor = 0 }

-- `Object::with_id`
unfoldable pub with_id : ObjectId → Bytes → Object
with_id id buf = record { id = id; buffer = buf; capacity = length buf; cursor = 0 }

-- `WriteObject::default()`
unfoldable pub default : Object
unfolding default_buffer
default = record {
  id = default_id;
  buffer = default_buffer;
  capacity = length default_buffer;
  cursor = 0;
}

unfoldable pub set_id : ObjectId → Object → Object
set_id id o = record o { id = id }

unfoldable pub reset_cursor : Object → Object
reset_cursor o = record o { cursor = 0 }

unfoldable pub reserve_tag : Object → Object
reserve_tag o = record o { capacity = block_size - tag_size }

-- `clear`: the whole buffer, the bytes behind the capacity too
unfoldable pub clear : Object → Object
clear o = record o { buffer = replicate (length o.buffer) 0 }

-- `xs[a..b].copy_from_slice(ys)`
unfoldable pub copy_range : Bytes → ℕ → ℕ → Bytes → Option Bytes
copy_range xs a b ys =
    if leb a b && (leb b (length xs) && (b - a == length ys)) then some (splice xs a ys) else none

abbrev with_buffer : Object → Option Bytes → Option Object
with_buffer o none = none
with_buffer o (some bs) = some (record o { buffer = bs })

unfoldable pub write_tag : Bytes → Object → Option Object
unfolding copy_range
write_tag tag o = with_buffer o (copy_range o.buffer o.capacity (length o.buffer) tag)

unfoldable pub write_head : Bytes → Object → Option Object
unfolding copy_range
write_head bs o = with_buffer o (copy_range o.buffer 0 (length bs) bs)

-- `finalize`, given the bytes that `random.fill` puts behind the cursor; `buffer[cursor..]` panics
-- where the cursor is past the end.
unfoldable pub finalize_range : Object → Option ℕ
finalize_range o =
    if leb o.cursor (length o.buffer) then some (length o.buffer - o.cursor) else none

unfoldable pub finalize_with : Bytes → Object → Object
finalize_with random o = record o { buffer = take o.cursor o.buffer ++ random }

abbrev written : Bytes → Object → Option Bytes → Outcome IoError ℕ × Object
written bs o none = (panic, o)
written bs o (some b) = (ok (length bs), record o { buffer = b; cursor = o.cursor + length bs })

-- `Write::write`: bounded by the buffer, not by the capacity
unfoldable pub write : Bytes → Exec Object IoError ℕ
unfolding copy_range
write bs o = written bs o (copy_range o.buffer o.cursor (o.cursor + length bs) bs)

-- `Read::read` into a slice of `n` bytes: the bytes read, none on an error
unfoldable pub read : ℕ → Exec Object IoError Bytes
read n o =
    let end = n + o.cursor in
    if ltb (length o.buffer) end
    then (err unexpected_eof, o)
    else (ok (slice o.buffer o.cursor end), record o { cursor = end })

pub data SeekFrom : Type 0 where
  start : ℕ → SeekFrom
  end current : ℤ → SeekFrom

-- A position at or below 0 and at or below `capacity as i64`, the guards that two arms share.
-- The sum `cursor as i64 + c` is exact here: where it would wrap, both give `InvalidInput`.
abbrev in_range : ℤ → ℕ → Option ℕ
in_range (negsuc _) max = none
in_range (pos p) max = if ltb max p then none else some p

abbrev moved : Object → Option ℕ → Outcome IoError ℕ × Object
moved o none = (err invalid_input, o)
moved o (some p) = (ok p, record o { cursor = p })

abbrev from_end : Object → Option ℕ → Outcome IoError ℕ × Object
from_end o none = (err invalid_input, o)
from_end o (some e) = (ok (o.capacity - e), record o { cursor = o.capacity - e })

unfoldable pub seek : SeekFrom → Exec Object IoError ℕ
seek (start s) o =
    if ltb o.capacity s then (err invalid_input, o) else (ok s, record o { cursor = s })
seek (end e) o = from_end o (in_range e o.capacity)
seek (current c) o = moved o (in_range (sub_ℕ (o.cursor + pos_part c) (neg_part c)) o.capacity)

-- `as_ref`: `buffer[..capacity]`
unfoldable pub as_ref : Object → Option Bytes
as_ref o = if leb o.capacity (length o.buffer) then some (take o.capacity o.buffer) else none

-- ===== src/Meta/Frames.antt =====
-- What libzerostash/src/meta/writer.rs and meta/reader.rs rely on of `compress::stream` and
-- `compress::destream`, which are the LZ4 frame encoder and decoder.
use zerostash.Prelude.{ℕ, ◌+◌, ◌≤◌, ◌≡◌, List, [], ◌∷◌, ◌++◌, ok, none, length, take, slice}
use zerostash.Objects.{Bytes, Object}
use zerostash.Meta.Encoding.{Encoder}
use zerostash.Meta.Reader.{Codec}

abbrev pub total : List Bytes → ℕ
total [] = 0
total (bs ∷ records) = length bs + total records

abbrev pub Each : (Bytes → Type 0) → List Bytes → Type 0
Each P [] = Unit
Each P (bs ∷ records) = P bs × Each P records

-- An encoder that was started on an object and has taken the records, in order.
pub data Stream (E : Encoder) (IsRecord : Bytes → Type 0) (o : Object)
    : List Bytes → E.State → Type 0 where
  begun : {s : E.State} → E.stream o ≡ ok s → Stream E IsRecord o [] s
  more :
      {records : List Bytes} {s s' : E.State} {bs : Bytes}
      → Stream E IsRecord o records s
      → IsRecord bs
      → E.write_all bs s ≡ ok s'
      → Stream E IsRecord o (records ++ bs ∷ []) s'

-- The object `o'` is `o` with a frame of at most `room` bytes written at its cursor, and the frame
-- is decoded to the records whatever stands behind it.
pub record Framed (X : Codec) (o o' : Object) (room : ℕ) (records : List Bytes) : Type 0 where
  pub same_id : o'.id ≡ o.id
  pub same_capacity : o'.capacity ≡ o.capacity
  pub same_length : length o'.buffer ≡ length o.buffer
  pub forward : o.cursor ≤ o'.cursor
  pub at_most : o'.cursor ≤ o.cursor + room
  pub below : take o.cursor o'.buffer ≡ take o.cursor o.buffer
  pub decoded :
      (rest : Bytes) → X.destream (slice o'.buffer o.cursor o'.cursor ++ rest) ≡ ok records

-- An encoder and a decoder of frames: a frame with `n` bytes of records takes at most `bound n`
-- bytes (`LZ4F_compressBound`), so that all goes well while the buffer has that room; before it is
-- finished, the object keeps its id and capacity and its cursor moves within the bound. The records
-- are what a CBOR stream tells apart.
pub record IsFrame (E : Encoder) (X : Codec) : Type 1 where
  pub IsRecord : Bytes → Type 0
  pub bound : ℕ → ℕ
  pub bound_mono : (m n : ℕ) → m ≤ n → bound m ≤ bound n
  pub started :
      (o : Object) → o.cursor + bound 0 ≤ length o.buffer → (s : E.State) × (E.stream o ≡ ok s)
  pub written :
      (o : Object) (records : List Bytes) (s : E.State) (bs : Bytes)
      → Stream E IsRecord o records s
      → IsRecord bs
      → o.cursor + bound (total records + length bs) ≤ length o.buffer
      → (s' : E.State) × (E.write_all bs s ≡ ok s')
  pub standing :
      (o : Object) (records : List Bytes) (s : E.State)
      → Stream E IsRecord o records s
      → ((E.writer s).id ≡ o.id)
        × ((E.writer s).capacity ≡ o.capacity)
        × (o.cursor ≤ (E.writer s).cursor)
        × ((E.writer s).cursor ≤ o.cursor + bound (total records))
  pub finished :
      (o : Object) (records : List Bytes) (s : E.State)
      → Stream E IsRecord o records s
      → o.cursor + bound (total records) ≤ length o.buffer
      → (o' : Object) × (E.finish s ≡ (o', none)) × Framed X o o' (bound (total records)) records

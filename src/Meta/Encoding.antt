-- ===== src/Meta/Encoding.antt =====
-- libzerostash/src/meta/writer.rs: `WriteState`, the state machine of the stream that a `Writer`
-- compresses into its object. The LZ4 frame encoder is the parameter `Encoder`.
use zerostash.Prelude.{Option, none, some, Outcome, ok, err, panic, Exec}
use zerostash.Objects.{Bytes, Object, IoError, other}

-- `compress::stream(w)`, which may write a frame header; `write` to it; `finish`, which writes what
-- is pending and gives the object back with the error, if any; `writer`, the object as it stands.
pub record Encoder : Type 1 where
  pub State : Type 0
  pub stream : Object → Outcome IoError State
  pub write_all : Bytes → State → Outcome IoError State
  pub finish : State → Object × Option IoError
  pub writer : State → Object

pub data WriteState (E : Encoder) : Type 0 where
  idle : WriteState E
  parked : Object → WriteState E
  encoding : E.State → WriteState E

module _ (E : Encoder) where
  -- `WriteState::start`: it is left idle where the encoder cannot be made.
  abbrev pub streamed : Outcome IoError E.State → Outcome IoError (Unit {0}) × WriteState E
  streamed (ok e) = (ok tt, encoding e)
  streamed (err x) = (err x, idle)
  streamed panic = (panic, idle)

  unfoldable pub start_encoding : Exec (WriteState E) IoError (Unit {0})
  start_encoding idle = (panic, idle)
  start_encoding (parked w) = streamed (E.stream w)
  start_encoding (encoding e) = (ok tt, encoding e)

  abbrev pub given_back : Object × Option IoError → Outcome IoError Object
  given_back (object, none) = ok object
  given_back (object, some e) = err e

  -- `WriteState::finish`: it leaves `Idle` behind.
  unfoldable pub finish : Exec (WriteState E) IoError Object
  finish idle = (panic, idle)
  finish (parked w) = (ok w, idle)
  finish (encoding e) = (given_back (E.finish e), idle)

  unfoldable pub writer : WriteState E → Outcome IoError Object
  writer idle = panic
  writer (parked w) = ok w
  writer (encoding e) = ok (E.writer e)

  abbrev pub wrote :
      WriteState E → Outcome IoError E.State → Outcome IoError (Unit {0}) × WriteState E
  wrote s (ok e) = (ok tt, encoding e)
  wrote s (err x) = (err x, s)
  wrote s panic = (panic, s)

  -- `Write for WriteState`
  unfoldable pub write_state : Bytes → Exec (WriteState E) IoError (Unit {0})
  write_state bs idle = (err other, idle)
  write_state bs (parked w) = (err other, parked w)
  write_state bs (encoding e) = wrote (encoding e) (E.write_all bs e)

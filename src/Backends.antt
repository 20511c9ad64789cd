-- ===== src/Backends.antt =====
-- libzerostash/src/backends.rs: the trait `Backend`, what its users rely on, and its simple
-- implementations `InMemoryBackend` and `NullBackend`. Behind `Arc<Mutex<…>>` the state is shared;
-- it is passed along here.
pub mod Memory
pub mod Directory
use zerostash.Prelude.{ℕ, length, ◌+◌, ◌≡◌, ◌≢◌, Option, none, some, Outcome, ok, err, panic, Exec}
use zerostash.Prelude.Equality.{bytes_eq}
use zerostash.Prelude.Dict
use zerostash.Prelude.Dict.{Dict}
use zerostash.Objects.{ObjectId, Object, IoError, with_id}

pub data BackendError : Type 0 where
  io : IoError → BackendError
  no_object_found create : BackendError

pub record Backend : Type 1 where
  pub State : Type 0
  pub write_object : Object → Exec State BackendError (Unit {0})
  pub read_object : ObjectId → Exec State BackendError Object

-- The states and the sizes of buffers for which a backend keeps its promises.
pub record Contract (B : Backend) : Type 1 where
  pub Coherent : B.State → Type 0
  pub Accepts : ℕ → Type 0

-- All of them.
abbrev pub unconditional : (B : Backend) → Contract B
unconditional B = record { Coherent = λ s. Unit; Accepts = λ n. Unit }

-- What users of a backend rely on, for states that are coherent and buffers of a size that is
-- accepted: a successful write is what a read of its id returns, and what could be read under other
-- ids still can; a read may change the state, as a cache does, and what could be read still can. A
-- write may fail, but does not panic.
pub record IsLawful (B : Backend) (D : Contract B) : Type 0 where
  pub write-Coherent :
      (o : Object) (s s' : B.State)
      → D.Coherent s
      → D.Accepts (length o.buffer)
      → B.write_object o s ≡ (ok tt, s')
      → D.Coherent s'
  pub read-Coherent :
      (id : ObjectId) (s : B.State) → D.Coherent s → D.Coherent (B.read_object id s).1
  pub read-write :
      (o : Object) (s s' : B.State)
      → D.Coherent s
      → D.Accepts (length o.buffer)
      → B.write_object o s ≡ (ok tt, s')
      → (B.read_object o.id s').0 ≡ ok (with_id o.id o.buffer)
  pub read-write_ne :
      (o r : Object) (id : ObjectId) (s s' : B.State)
      → D.Coherent s
      → D.Accepts (length o.buffer)
      → B.write_object o s ≡ (ok tt, s')
      → id ≢ o.id
      → (B.read_object id s).0 ≡ ok r
      → (B.read_object id s').0 ≡ ok r
  pub read-read :
      (i j : ObjectId) (r : Object) (s : B.State)
      → D.Coherent s
      → (B.read_object j s).0 ≡ ok r
      → (B.read_object j (B.read_object i s).1).0 ≡ ok r
  pub write_total : (o : Object) (s : B.State) → (B.write_object o s).0 ≢ panic

-- `InMemoryBackend`: `object.into()` keeps the id and clones the buffer.
abbrev pub Objects : Type 0
Objects = Dict ObjectId Object

unfoldable pub memory_write : Object → Exec Objects BackendError (Unit {0})
memory_write o m = (ok tt, Dict.insert o.id (with_id o.id o.buffer) m)

abbrev pub found : Option Object → Outcome BackendError Object
found none = err no_object_found
found (some o) = ok o

unfoldable pub memory_read : ObjectId → Exec Objects BackendError Object
memory_read id m = (found (Dict.lookup id m), m)

abbrev pub in_memory : Backend
in_memory = record { State = Objects; write_object = memory_write; read_object = memory_read }

-- `NullBackend` counts the writes; `read_object` is `unimplemented!()`.
unfoldable pub null_write : Object → Exec ℕ BackendError (Unit {0})
null_write o n = (ok tt, n + 1)

unfoldable pub null_read : ObjectId → Exec ℕ BackendError Object
null_read id n = (panic, n)

abbrev pub null_backend : Backend
null_backend = record { State = ℕ; write_object = null_write; read_object = null_read }

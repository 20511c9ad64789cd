-- ===== src/Backends/Memory.antt =====
-- `InMemoryBackend` meets what users of a backend rely on.
use zerostash.Prelude.{◌≡◌, ◌≢◌, ◌∙◌, ok, arith}
use zerostash.Prelude.Equality.{bytes_eq}
use zerostash.Prelude.Dict.{lookup-insert}
use zerostash.Objects.{ObjectId, Object, with_id}
use zerostash.Backends.{IsLawful, unconditional, in_memory, memory_write, memory_read, Objects}

read-write_self :
    (o : Object) (s s' : Objects)
    → memory_write o s ≡ (ok tt, s')
    → (memory_read o.id s').0 ≡ ok (with_id o.id o.buffer)
unfolding memory_write memory_read
read-write_self o s s' e = ground (arith, lookup-insert o.id o.id (with_id o.id o.buffer) s)

read-write_other :
    (o : Object) (id : ObjectId) (s s' : Objects)
    → memory_write o s ≡ (ok tt, s')
    → id ≢ o.id
    → (memory_read id s').0 ≡ (memory_read id s).0
unfolding memory_write memory_read
read-write_other o id s s' e ne = ground (arith, lookup-insert id o.id (with_id o.id o.buffer) s)

-- What is written to the in-memory backend is read back under its id, with the cursor at 0 and the
-- whole buffer as capacity, and no other id is affected; a write never panics. Every state is
-- coherent and every size accepted.
pub in_memory-IsLawful : IsLawful in_memory (unconditional in_memory)
unfolding memory_write memory_read
in_memory-IsLawful = record {
  write-Coherent = λ o s s' h a e. tt;
  read-Coherent = λ id s h. tt;
  read-write = λ o s s' h a e. read-write_self o s s' e;
  read-write_ne = λ o r id s s' h a e ne found. read-write_other o id s s' e ne ∙ found;
  read-read = λ i j r s h found. found;
  write_total = λ o s e. cc;
}

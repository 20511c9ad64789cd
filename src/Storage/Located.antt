-- ===== src/Storage/Located.antt =====
-- Where a stored chunk is: in the object that is being filled, or in the backend.
use zerostash.Prelude.{
  subst, ℕ, ◌+◌, ◌≤◌, ◌≡◌, ◌≢◌, ◌∙◌, sym, ap, length, take, slice-congr_prefix, ok, arith,
}
use zerostash.Objects.{Bytes, CryptoDigest, Object, with_id}
use zerostash.Chunks.Pointer.{ChunkPointer}
use zerostash.Crypto.Provider.{CryptoProvider, IsSound}
use zerostash.Backends
use zerostash.Backends.{Contract, Backend}
use zerostash.Storage.{Storage}
use zerostash.Storage.Flush.{Flushed}
use zerostash.Storage.Place.{Holds, Placed}

pub data Located {C : CryptoProvider} {B : Backend} (s : Storage C B) (p : ChunkPointer)
    (hash : CryptoDigest) (z : Bytes) : Type 0 where
  pending :
      p.file ≡ s.object.id
      → p.offs + p.size ≤ s.object.cursor
      → Holds C s.object p hash z
      → Located s p hash z
  flushed :
      p.file ≢ s.object.id
      → (r : Object) → (B.read_object p.file s.backend).0 ≡ ok r
      → r.id ≡ p.file
      → Holds C r p hash z
      → Located s p hash z

-- A buffer of the same size that agrees up to the chunk's end holds the chunk too.
pub Holds-prefix :
    (C : CryptoProvider) (r r' : Object) (p : ChunkPointer) (hash : CryptoDigest) (z : Bytes)
    (n : ℕ)
    → Holds C r p hash z
    → p.offs + p.size ≤ n
    → take n r'.buffer ≡ take n r.buffer
    → length r'.buffer ≡ length r.buffer
    → Holds C r' p hash z
Holds-prefix C r r' p hash z n h below same size = record {
  sealer = h.sealer;
  cipher = h.cipher;
  tag = h.tag;
  sealed = h.sealed;
  sealed_for = h.sealed_for;
  points = record {
    in_buffer = omega (arith, h.points.in_buffer);
    sized = h.points.sized;
    stored =
        slice-congr_prefix r'.buffer r.buffer p.offs (p.offs + p.size) n (omega arith) below same
        ∙ h.points.stored;
    same_hash = h.points.same_hash;
    same_tag = h.points.same_tag;
  };
}

module _ (C : CryptoProvider) (B : Backend) (K : IsSound C) where
  pub Placed-Located :
      (hash : CryptoDigest) (z : Bytes) (s s' : Storage C B) (p : ChunkPointer)
      → Placed hash z s s' p
      → Located s' p hash z
  Placed-Located hash z s s' p h =
      pending (h.same_file ∙ sym h.same_id) (omega (arith, h.at_cursor, h.sized, h.advanced)) h.held

  -- What is placed later stands above.
  pub Placed-keeps :
      (hash h : CryptoDigest) (z w : Bytes) (s s' : Storage C B) (p q : ChunkPointer)
      → Placed hash z s s' p
      → Located s q h w
      → Located s' q h w
  Placed-keeps hash h z w s s' p q d (pending file below held) =
      pending (file ∙ sym d.same_id) (omega (arith, d.advanced))
        (Holds-prefix C s.object s'.object q h w s.object.cursor held below d.below d.size)
  Placed-keeps hash h z w s s' p q d (flushed other r read id held) =
      flushed (λ e. other (e ∙ d.same_id)) r
        (ap (λ b. (B.read_object q.file b).0) d.same_backend ∙ read) id held

  -- A flush moves what was pending to the backend and leaves what was there, as long as the new id
  -- is not that of the chunk's object.
  pub Flushed-keeps :
      (D : Contract B) (W : Backends.IsLawful B D) (h : CryptoDigest) (w : Bytes)
      (s s' : Storage C B) (q : ChunkPointer) (o : Object)
      → D.Coherent s.backend
      → D.Accepts (length s.object.buffer)
      → Flushed s s' o
      → q.file ≢ s'.object.id
      → Located s q h w
      → Located s' q h w
  unfolding with_id
  Flushed-keeps D W h w s s' q o co acc f fresh (pending file below held) =
      flushed fresh (with_id o.id o.buffer)
        (ap (λ id. (B.read_object id s'.backend).0) (file ∙ sym f.same_id)
          ∙ W.read-write o s.backend s'.backend co (subst D.Accepts (sym f.size) acc) f.stored)
        (f.same_id ∙ sym file)
        (Holds-prefix C s.object (with_id o.id o.buffer) q h w s.object.cursor held below f.kept
          f.size)
  Flushed-keeps D W h w s s' q o co acc f fresh (flushed other r read id held) =
      flushed fresh r
        (W.read-write_ne o r q.file s.backend s'.backend co (subst D.Accepts (sym f.size) acc)
          f.stored (λ e. other (e ∙ f.same_id)) read)
        id held

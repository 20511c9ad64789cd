-- ===== src/Stash/Contents.antt =====
-- libzerostash/src/stash/mod.rs: reading an object that holds both fields.
use zerostash.Prelude.{
  ℕ, ◌≤◌, ◌≡◌, ◌∙◌, refl, sym, ap, true, List, [], ◌∷◌, ◌++◌, length, take, slice, leb, some, none,
  ok, arith, slice-congr_prefix, take-congr_prefix, slice-split,
}
use zerostash.Objects.{Bytes, ObjectId, Object, as_ref}
use zerostash.Crypto.Provider.{CryptoProvider, IsSound}
use zerostash.Crypto.Sealing.{IsSealing}
use zerostash.Backends
use zerostash.Backends.{Backend, Contract}
use zerostash.Meta.{
  Field, files, chunks, files_at, chunks_at, as_field, to_u32, field_eq, MetaObjectHeader,
  header_size, fields, offset_fields, find_offset, get_offset,
}
use zerostash.Meta.Encoding.{Encoder}
use zerostash.Meta.Reader
use zerostash.Meta.Reader.{Reader, ReadError, Codec, read_into, open_object}
use zerostash.Meta.Writer.{Cbor, Writer}
use zerostash.Meta.Frames.{total, Framed, IsFrame}
use zerostash.Meta.Reopened.{Reopens}
use zerostash.Stash.Written.{BothWritten}
use zerostash.Stash.{Records, read_fields, read_chain}

module _ (C : CryptoProvider) (B : Backend) (E : Encoder) (S : Cbor) (K : IsSound C)
    (Q : IsSealing C) (D : Contract B) (W : Backends.IsLawful B D) (X : Codec) where
  -- A frame that stands in the contents is decoded, whatever was written behind it.
  destream-Framed :
      (contents last : Bytes) (o o' : Object) (room end : ℕ) (records : List Bytes)
      → Framed X o o' room records
      → o'.cursor ≤ end
      → take o'.cursor last ≡ take o'.cursor o'.buffer
      → slice contents o.cursor end ≡ slice last o.cursor end
      → X.destream (slice contents o.cursor end) ≡ ok records
  destream-Framed contents last o o' room end records f behind kept same =
      ap X.destream (
        same
        ∙ slice-split last o.cursor o'.cursor end f.forward behind
        ∙ ap (λ xs. xs ++ slice last o'.cursor end)
            (slice-congr_prefix last o'.buffer o.cursor o'.cursor o'.cursor f.forward (omega arith)
              kept))
      ∙ f.decoded (slice last o'.cursor end)

  read_into_lem :
      (f : Field) (h : MetaObjectHeader) (at : ℕ) (contents : Bytes) (records : List Bytes)
      (r : Reader C B)
      → r.header ≡ some h
      → as_ref r.inner ≡ some contents
      → get_offset f h ≡ some at
      → at ≤ h.end
      → h.end ≤ length contents
      → X.destream (slice contents at h.end) ≡ ok records
      → read_into C B X f r ≡ (ok records, r)
  unfolding read_into
  read_into_lem f h at contents records r remembered readable found before inside decoded =
      let before' : leb at h.end ≡ true = ground (arith, before) in
      let inside' : leb h.end (length contents) ≡ true = ground (arith, inside) in
      rw (remembered, found, readable, Reader.frame_of, Reader.frame, before', inside', decoded)
        refl

  -- The header that the root object gets.
  abbrev pub root_header : ℕ → ℕ → MetaObjectHeader
  root_header at end = record {
    next_object = none;
    offsets = files_at header_size ∷ chunks_at at ∷ [];
    end = end;
  }

  module _ (F : IsFrame E X) where
    -- The loop over the header's fields reads both, in order.
    pub read_fields-both :
        (file_records chunk_records : List Bytes) (o : Object) (w w' : Writer C B E)
        (v : BothWritten C B E S X F file_records chunk_records o w w') (r : Reader C B)
        → o.cursor ≡ header_size
        → Reopens C B E S K Q D W X v.last (root_header v.between.cursor v.last.cursor) r
        → read_fields C B X (fields (root_header v.between.cursor v.last.cursor)) [] r
          ≡ (ok ((files, file_records) ∷ (chunks, chunk_records) ∷ []), r)
    unfolding read_fields fields offset_fields get_offset find_offset as_field field_eq to_u32
    read_fields-both file_records chunk_records o w w' v r at opened =
        let end : ℕ = v.last.cursor in
        let inside : end ≤ length opened.contents =
          omega (arith, opened.size, v.same_capacity, v.within) in
        let same : (a : ℕ)
            → header_size ≤ a
            → a ≤ end
            → slice opened.contents a end ≡ slice v.last.buffer a end =
          λ a behind before.
            opened.same a end behind before (omega arith)
              (omega (arith, v.same_capacity, v.within)) in
        let kept : take v.files_end.cursor v.last.buffer
            ≡ take v.files_end.cursor v.files_end.buffer =
          ap (take v.files_end.cursor) v.chunks_kept
          ∙ take-congr_prefix v.chunks_end.buffer v.between.buffer v.files_end.cursor
              v.between.cursor v.files_behind v.chunks_frame.below
          ∙ ap (take v.files_end.cursor) v.files_kept in
        let behind : v.between.cursor ≤ end =
          omega (arith, v.chunks_frame.forward, v.chunks_behind) in
        let h : MetaObjectHeader = root_header v.between.cursor end in
        let read_files =
          read_into_lem files h o.cursor opened.contents file_records r opened.remembered
            opened.readable (ap some (sym at))
            (omega (arith, v.files_frame.forward, v.files_behind, behind)) inside
            (destream-Framed opened.contents v.last.buffer o v.files_end
              (F.bound (total file_records)) end file_records v.files_frame
              (omega (arith, v.files_behind, behind)) kept
              (same o.cursor (omega (arith, at))
                (omega (arith, v.files_frame.forward, v.files_behind, behind)))) in
        let read_chunks =
          read_into_lem chunks h v.between.cursor opened.contents chunk_records r opened.remembered
            opened.readable refl behind inside
            (destream-Framed opened.contents v.last.buffer v.between v.chunks_end
              (F.bound (total chunk_records)) end chunk_records v.chunks_frame v.chunks_behind
              (ap (take v.chunks_end.cursor) v.chunks_kept)
              (same v.between.cursor (omega (arith, at, v.files_frame.forward, v.files_behind))
                behind)) in
        rw (read_files, read_chunks) refl

    -- A chain of one object.
    pub read_chain-one :
        (at end : ℕ) (id : ObjectId) (records : Records) (r r' : Reader C B)
        → open_object C B X id r ≡ (ok (root_header at end), r')
        → read_fields C B X (fields (root_header at end)) [] r' ≡ (ok records, r')
        → read_chain C B X 1 (some id) [] r ≡ some (ok records, r')
    unfolding read_chain
    read_chain-one at end id records r r' opens reads =
        rw (read_chain, ap (λ x. x.0) opens, ap (λ x. x.1) opens, reads)
          (ap (λ x. some (ok records, (read_fields C B X (fields (root_header at end)) [] x).1))
              (ap (λ x. x.1) opens)
            ∙ ap (λ x. some (ok records, x.1)) reads)

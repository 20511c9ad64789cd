-- ===== src/Restore/Queue/Sending.antt =====
-- What `from_iter` sends to its workers.
use zerostash.Prelude.{
  ◌≡◌, ◌⊎◌, ◌∙◌, inl, inr, refl, sym, ap, List, [], ◌∷◌, ◌++◌, append_assoc, append-nil, Option,
  none, some, ok, panic,
}
use zerostash.Objects.{Bytes, IoError}
use zerostash.Files.{Entry}
use zerostash.Restore.{get_path}
use zerostash.Restore.Queue.{PathBuf, ThreadWork, Host, parent, unwrapped, create_parent, send_all}

module _ (H : Host) (components : Bytes → PathBuf) where
  -- Each file goes under the target, at its path without the root.
  abbrev pub destinations : PathBuf → List Entry → List ThreadWork
  destinations target [] = []
  destinations target (md ∷ mds) =
      (target ++ get_path (components md.name), md) ∷ destinations target mds

  -- The directory that the parent of a file's path is, under the target, cannot be created.
  abbrev pub Refused : PathBuf → Entry → H.State → Type 0
  Refused target md h =
      (create_parent H components target (parent (get_path (components md.name))) h).0 ≡ panic

  -- `sent` were sent, and the loop stopped in front of `rest`: at the end, or in the state that the
  -- files of `sent` left, in which the directory of the next file cannot be created.
  pub record Split (target : PathBuf) (mds : List Entry) (h : H.State) (queue : List ThreadWork)
      : Type 0 where
    pub sent : List Entry
    pub rest : List Entry
    pub whole : mds ≡ sent ++ rest
    pub in_order :
        (send_all H components target mds (h, queue)).1.1 ≡ queue ++ destinations target sent
    pub ends :
        (((send_all H components target mds (h, queue)).0 ≡ ok tt) × (rest ≡ []))
        ⊎ (((send_all H components target mds (h, queue)).0 ≡ panic)
            × ((md : Entry) × (more : List Entry) × (h' : H.State) × (rest ≡ md ∷ more)
                × ((send_all H components target sent (h, queue)).1.0 ≡ h')
                × Refused target md h'))

  made_or_not :
      (r : (IoError ⊎ Unit {0}) × H.State)
      → ((unwrapped H components r).0 ≡ ok tt) ⊎ ((unwrapped H components r).0 ≡ panic)
  made_or_not (inl e, h) = inr refl
  made_or_not (inr u, h) = inl refl

  created_or_not :
      (target : PathBuf) (p : Option PathBuf) (h : H.State)
      → ((create_parent H components target p h).0 ≡ ok tt)
        ⊎ ((create_parent H components target p h).0 ≡ panic)
  created_or_not target none h = inl refl
  created_or_not target (some p) h = made_or_not (H.create_dir_all (target ++ p) h)

  pub send_all-Split :
      (target : PathBuf) (mds : List Entry) (h : H.State) (queue : List ThreadWork)
      → Split target mds h queue
  unfolding send_all
  send_all-Split target [] h queue = record {
    sent = [];
    rest = [];
    whole = refl;
    in_order = sym (append-nil queue);
    ends = inl (refl, refl);
  }
  send_all-Split target (md ∷ mds) h queue =
      let path = get_path (components md.name) in
      let h1 = (create_parent H components target (parent path) h).1 in
      elim (created_or_not target (parent path) h) [
        | inl made ↦
            let s = send_all-Split target mds h1 (queue ++ (target ++ path, md) ∷ []) in
            record {
              sent = md ∷ s.sent;
              rest = s.rest;
              whole = ap (λ xs. md ∷ xs) s.whole;
              in_order = rw made (
                  s.in_order
                  ∙ append_assoc queue ((target ++ path, md) ∷ []) (destinations target s.sent));
              ends = rw made s.ends;
            }
        | inr refused ↦ record {
          sent = [];
          rest = md ∷ mds;
          whole = refl;
          in_order = rw refused (sym (append-nil queue));
          ends = inr (rw refused refl, (md, mds, h, refl, refl, refused));
        }
      ]

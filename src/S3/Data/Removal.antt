-- ===== src/S3/Data/Removal.antt =====
-- What the removal of parts asks for (src/s3/data.go).
use mathlib.Core.List.{append_assoc, append-nil}
use swifty.Base.{
  ℕ, ◌≡◌, inl, inr, refl, ap, ◌∙◌, Bool, true, Option, none, some, Option-cases, List, [], ◌∷◌,
  ◌++◌, map, arith, is_none,
}
use swifty.Effects.{Env, Trace}
use swifty.S3.Store.{
  Conf, Part, Call, remove_chunk, rados_delete, remove_inactive_part, set_inactive_part, find_parts,
}
use swifty.S3.Data.{
  Failed, delete_loop, delete_chunks, delete_data, remove_row, delete_part, delete_each,
  delete_parts,
}

-- A request to remove a chunk, whatever it answers; the removal of a part's data from Ceph, and of its document.
pub data Release : Type 0 where
  chunk : ℕ → Release
  pool_data : Release
  row : Part → Release

unfoldable pub released : Trace Call → List Release
released [] = []
released ((remove_chunk id, _) ∷ t) = released t ++ chunk id ∷ []
released ((rados_delete, true) ∷ t) = released t ++ pool_data ∷ []
released ((remove_inactive_part p, true) ∷ t) = released t ++ row p ∷ []
released (_ ∷ t) = released t

-- Where the data of a part is: in its document, in Ceph, or in chunks.
abbrev pub data_of : Option (List ℕ) → List ℕ → List Release
data_of (some d) chs = []
data_of none [] = pool_data ∷ []
data_of none (c ∷ cs) = map chunk (c ∷ cs)

-- All that some parts have, in order.
abbrev pub all_of : List Part → List Release
all_of [] = []
all_of (p ∷ ps) = (data_of p.inline p.chunks ++ row p ∷ []) ++ all_of ps

module _ (conf : Conf) (env : Env Call) where
  delete_loop-releases :
      (chs : List ℕ) (t : Trace Call)
      → released (delete_loop conf env none chs t).1 ≡ released t ++ map chunk chs
  unfolding delete_loop released
  delete_loop-releases [] t = rw append-nil
  delete_loop-releases (c ∷ cs) t =
      let b : Bool = is_none (env t (remove_chunk c)) in
      delete_loop-releases cs ((remove_chunk c, b) ∷ t)
      ∙ append_assoc (released t) (chunk c ∷ []) (map chunk cs)

  delete_data-releases :
      (own : Option (List ℕ)) (chs : List ℕ) (t : Trace Call)
      → let (e, t') = delete_data conf env own chs t in
        e ≡ none → released t' ≡ released t ++ data_of own chs
  unfolding delete_data released
  delete_data-releases (some d) chs t e = rw append-nil
  delete_data-releases none [] t e = rw e refl
  delete_data-releases none (c ∷ cs) t e = delete_loop-releases (c ∷ cs) t

  remove_row-releases :
      (p : Part) (d : Failed) (t : Trace Call)
      → let (e, t') = remove_row conf env p d t in
        e ≡ none → (d ≡ none) × (released t' ≡ released t ++ row p ∷ [])
  unfolding remove_row released
  remove_row-releases p (some d) t e = absurd (ground (arith, e))
  remove_row-releases p none t e = (refl, rw e refl)

  delete_part-releases :
      (p : Part) (t : Trace Call)
      → let (e, t') = delete_part conf env p t in
        e ≡ none → released t' ≡ released t ++ (data_of p.inline p.chunks ++ row p ∷ [])
  unfolding delete_part delete_chunks released
  delete_part-releases p t = elim (Option-cases (env t (set_inactive_part p))) [
    | inr (x, q) ↦ rw (q, delete_part) (λ e. absurd (ground (arith, e)))
    | inl q ↦
        let t0 : Trace Call = (set_inactive_part p, true) ∷ t in
        let (d, t1) = delete_data conf env p.inline p.chunks t0 in
        rw (q, delete_part)
          (λ e.
            let (z, l) = remove_row-releases p d t1 e in
            l
            ∙ ap (λ r. r ++ row p ∷ []) (delete_data-releases p.inline p.chunks t0 z)
            ∙ append_assoc (released t) (data_of p.inline p.chunks) (row p ∷ []))
  ]

  delete_each-releases :
      (ps : List Part) (t : Trace Call)
      → let (e, t') = delete_each conf env ps t in e ≡ none → released t' ≡ released t ++ all_of ps
  unfolding delete_each
  delete_each-releases [] t = λ e. rw append-nil
  delete_each-releases (p ∷ ps) t = elim (Option-cases (delete_part conf env p t).0) [
    | inr (x, q) ↦ rw (q, delete_each) (λ e. absurd (ground (arith, e)))
    | inl q ↦
        rw (q, delete_each)
          (λ e.
            delete_each-releases ps (delete_part conf env p t).1 e
            ∙ ap (λ r. r ++ all_of ps) (delete_part-releases p t q)
            ∙ append_assoc (released t) (data_of p.inline p.chunks ++ row p ∷ []) (all_of ps))
  ]

  pub delete_parts-releases :
      (ps : List Part) (t : Trace Call)
      → let (e, t') = delete_parts conf env ps t in e ≡ none → released t' ≡ released t ++ all_of ps
  unfolding delete_parts released
  delete_parts-releases ps t = elim (Option-cases (env t find_parts)) [
    | inr (x, q) ↦ rw (q, delete_parts) (λ e. absurd (ground (arith, e)))
    | inl q ↦ rw (q, delete_parts) (λ e. delete_each-releases ps ((find_parts, true) ∷ t) e)
  ]

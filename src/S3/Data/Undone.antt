-- ===== src/S3/Data/Undone.antt =====
-- What an AddPart that fails, and a DeletePart, leave of a part (src/s3/data.go).
use mathlib.Core.List.{append_assoc, append-nil}
use swifty.Base.{
  ℕ, ◌≡◌, ◌≢◌, ◌⊎◌, inl, inr, refl, sym, ◌∙◌, Bool, true, false, Option, none, some, Option-cases,
  Bool-cases, List, [], ◌∷◌, ◌++◌, arith, is_none,
}
use mathlib.Core.Path.{subst}
use swifty.Effects.{Error, Env, Trace}
use swifty.S3.Store.{
  Conf, Part, Call, insert_part, remove_part, remove_inactive_part, set_inactive_part, remove_chunk,
  rados_write, rados_delete,
}
use swifty.S3.Data.{
  Failed, delete_loop, delete_chunks, delete_data, add_out, remove_row, delete_part,
}
use swifty.S3.Data.Chunks.{stored, removed}

-- Whether a part's document is there, and whether its data is in Ceph.
unfoldable pub has_row : Trace Call → Bool
has_row [] = false
has_row ((insert_part p, true) ∷ t) = true
has_row ((remove_part p, true) ∷ t) = false
has_row ((remove_inactive_part p, true) ∷ t) = false
has_row (_ ∷ t) = has_row t

unfoldable pub in_pool : Trace Call → Bool
in_pool [] = false
in_pool ((rados_write, true) ∷ t) = true
in_pool ((rados_delete, true) ∷ t) = false
in_pool (_ ∷ t) = in_pool t

-- Whether a removal failed, of a part's document (also when it could not be set inactive first) or of its data in Ceph.
unfoldable pub stuck : Trace Call → Bool
stuck [] = false
stuck ((remove_part p, false) ∷ t) = true
stuck ((set_inactive_part p, false) ∷ t) = true
stuck ((remove_inactive_part p, false) ∷ t) = true
stuck ((rados_delete, false) ∷ t) = true
stuck (_ ∷ t) = stuck t

pub data Among (n : ℕ) : List ℕ → Type 0 where
  first : {ns : List ℕ} → Among n (n ∷ ns)
  later : {m : ℕ} {ns : List ℕ} → Among n ns → Among n (m ∷ ns)

-- Every chunk stored is asked to be removed.
abbrev pub Asked : Trace Call → Type 0
Asked t = (id : ℕ) → Among id (stored t) → Among id (removed t)

-- Nothing of a part is left, or a removal failed.
abbrev pub Undone : Trace Call → Type 0
Undone t = (has_row t ≡ false) × (in_pool t ≡ false) × Asked t ⊎ (stuck t ≡ true)

-- A part tells where its data is.
pub record Tells (p : Part) (t : Trace Call) : Type 0 where
  pub chunks_are : p.inline ≡ none → p.chunks ≡ stored t
  pub own : (d : List ℕ) → p.inline ≡ some d → stored t ≡ []
  pub pool_is : in_pool t ≡ true → (p.inline ≡ none) × (p.chunks ≡ [])

among-append : (n : ℕ) (xs ys : List ℕ) → Among n ys → Among n (xs ++ ys)
among-append n [] ys a = a
among-append n (x ∷ xs) ys a = later (among-append n xs ys a)

none_among : (n : ℕ) → Among n [] → ⊥
none_among n a = elim a [ ]

pub none_stored : (t : Trace Call) → stored t ≡ [] → Asked t
none_stored t e id a = absurd (none_among id (subst (Among id) e a))

pub asked :
    (t t' : Trace Call) (xs : List ℕ) → stored t' ≡ xs → removed t' ≡ removed t ++ xs → Asked t'
asked t t' xs s r id a =
    subst (Among id) (sym r) (among-append id (removed t) xs (subst (Among id) s a))

-- What the removal of chunks changes.
pub record Asks (chs : List ℕ) (t : Trace Call) (t' : Trace Call) : Type 0 where
  pub removed_are : removed t' ≡ removed t ++ chs
  pub stored_are : stored t' ≡ stored t
  pub row_is : has_row t' ≡ has_row t
  pub pool_is : in_pool t' ≡ in_pool t

module _ (conf : Conf) (env : Env Call) where
  pub delete_loop-Asks :
      (chs : List ℕ) (t : Trace Call)
      → let (e, t') = delete_loop conf env none chs t in (e ≡ none) × Asks chs t t'
  unfolding delete_loop removed stored has_row in_pool
  delete_loop-Asks [] t = (
    refl,
    record { removed_are = rw append-nil; stored_are = refl; row_is = refl; pool_is = refl },
  )
  delete_loop-Asks (c ∷ cs) t =
      let b : Bool = is_none (env t (remove_chunk c)) in
      let (e, a) = delete_loop-Asks cs ((remove_chunk c, b) ∷ t) in
      (
        e,
        record {
          removed_are = a.removed_are ∙ append_assoc (removed t) (c ∷ []) cs;
          stored_are = a.stored_are;
          row_is = a.row_is;
          pool_is = a.pool_is;
        },
      )

  -- DeleteChunks of a part that tells where its data is.
  delete_data-Asked :
      (p : Part) (own : Option (List ℕ)) (chs : List ℕ) (t : Trace Call)
      → p.inline ≡ own
      → p.chunks ≡ chs
      → Tells p t
      → let (e, t') = delete_data conf env own chs t in
        Asked t' × ((in_pool t' ≡ false) × (e ≡ none) ⊎ (stuck t' ≡ true))
  unfolding delete_data stored removed in_pool stuck
  delete_data-Asked p (some d) chs t i c k = (
    none_stored t (k.own d i),
    inl (
      elim (Bool-cases (in_pool t)) [
        | inr e ↦ e
        | inl e ↦ absurd (ground (arith, sym i ∙ (k.pool_is e).0))
      ],
      refl,
    ),
  )
  delete_data-Asked p none [] t i c k = elim (Option-cases (env t rados_delete)) [
    | inl q ↦ rw q (none_stored t (sym (k.chunks_are i) ∙ c), inl (refl, refl))
    | inr (x, q) ↦ rw q (none_stored t (sym (k.chunks_are i) ∙ c), inr refl)
  ]
  delete_data-Asked p none (h ∷ hs) t i c k =
      let (e, a) = delete_loop-Asks (h ∷ hs) t in
      let t' = (delete_loop conf env none (h ∷ hs) t).1 in
      (
        asked t t' (h ∷ hs) (a.stored_are ∙ sym (k.chunks_are i) ∙ c) a.removed_are,
        inl (
          a.pool_is ∙ elim (Bool-cases (in_pool t)) [
            | inr z ↦ z
            | inl z ↦ absurd (ground (arith, sym c ∙ (k.pool_is z).1))
          ],
          e,
        ),
      )

  pub delete_chunks-Asked :
      (p : Part) (t : Trace Call)
      → Tells p t
      → let (e, t') = delete_chunks conf env p t in
        Asked t' × ((in_pool t' ≡ false) × (e ≡ none) ⊎ (stuck t' ≡ true))
  unfolding delete_chunks
  delete_chunks-Asked p t k = delete_data-Asked p p.inline p.chunks t refl refl k

  pub delete_part-Undone :
      (p : Part) (t : Trace Call) → Tells p t → Undone (delete_part conf env p t).1
  unfolding delete_part remove_row stored removed has_row in_pool stuck
  delete_part-Undone p t k = elim (Option-cases (env t (set_inactive_part p))) [
    | inr (x, q) ↦ rw (q, delete_part) (inr refl)
    | inl q ↦
        let t0 : Trace Call = (set_inactive_part p, true) ∷ t in
        let tells : Tells p t0 = record {
          chunks_are = k.chunks_are;
          own = k.own;
          pool_is = k.pool_is;
        } in
        let (a, s) = delete_chunks-Asked p t0 tells in
        rw (q, delete_part)
          (removal p (delete_chunks conf env p t0).0 (delete_chunks conf env p t0).1 a s)
  ]
    where
      removal :
          (p : Part) (d : Failed) (t : Trace Call)
          → Asked t
          → (in_pool t ≡ false) × (d ≡ none) ⊎ (stuck t ≡ true)
          → Undone (remove_row conf env p d t).1
      removal p (some e) t a (inl (z, n)) = absurd (ground (arith, n))
      removal p (some e) t a (inr s) = inr s
      removal p none t a s = elim (Option-cases (env t (remove_inactive_part p))) [
        | inr (x, q) ↦ rw q (inr refl)
        | inl q ↦ rw q (elim s [ inl (z, n) ↦ inl (refl, z, a) | inr s ↦ inr s ])
      ]

  pub add_out-Undone :
      (p : Part) (e : Error) (t : Trace Call)
      → Asked t
      → (in_pool t ≡ false) ⊎ (stuck t ≡ true)
      → let (w, t') = add_out conf env p e t in (w.2 ≢ none) × Undone t'
  unfolding add_out stored removed has_row in_pool stuck
  add_out-Undone p e t a s = elim (Option-cases (env t (remove_part p))) [
    | inr (x, q) ↦ rw q (λ k. ground (arith, k), inr refl)
    | inl q ↦ rw q (λ k. ground (arith, k), elim s [ inl z ↦ inl (refl, z, a) | inr s ↦ inr s ])
  ]

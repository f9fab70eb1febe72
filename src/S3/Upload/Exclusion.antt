-- ===== src/S3/Upload/Exclusion.antt =====
-- While an upload is completed or aborted, no part is added to it, and nobody else completes it.
use mathlib.Core.Path.{subst}
use swifty.Base.{
  ℕ, suc, ◌≤◌, ◌<◌, ◌≡◌, ◌⊎◌, inl, inr, refl, sym, Bool, true, false, ◌&&◌, Option, none, some,
  arith, Bool-cases,
}
use swifty.Base.Ints.{ℤ, pos, ◌+ℤ◌}
use swifty.S3.Collection.{Collection}
use swifty.S3.Upload.{
  State, active, Upload, is_inactive, is_zero, db_lock, db_unlock, db_ref_inc, db_ref_dec,
  deactivate, remove,
}

-- The document; the calls of s3UploadPart that are past dbRefInc and not past dbRefDec; and the calls of
-- s3UploadFini and s3UploadAbort that are past dbLock and not past dbUnlock or the removal.
pub record System : Type 0 where
  pub doc : Option Upload
  pub adding : ℕ
  pub holding : ℕ

abbrev gained : Bool → ℕ → ℕ
gained true n = suc n
gained false n = n

module _ (uploads : Collection Upload) where
  -- The steps of the calls.
  unfoldable pub add_begins : System → System
  add_begins s =
      let (d, ok) = db_ref_inc uploads s.doc in record s { doc = d; adding = gained ok s.adding }

  unfoldable pub add_ends : System → ℕ → System
  add_ends s n = record s { doc = (db_ref_dec uploads s.doc).0; adding = n }

  unfoldable pub locks : System → System
  locks s =
      let (d, ok) = db_lock uploads s.doc in record s { doc = d; holding = gained ok s.holding }

  unfoldable pub unlocks : System → ℕ → System
  unlocks s n = record s { doc = (db_unlock uploads s.doc).0; holding = n }

  unfoldable pub deactivates : System → System
  deactivates s = record s { doc = (deactivate uploads s.doc).0 }

  unfoldable pub removes : System → ℕ → System
  removes s n = record s { doc = (remove uploads s.doc).0; holding = n }

  -- One step of one of the calls: only those that have begun end, and only those that hold the lock
  -- deactivate, remove or unlock.
  pub data Step (s : System) : System → Type 0 where
    step_adds : Step s (add_begins s)
    step_added : (n : ℕ) → s.adding ≡ suc n → Step s (add_ends s n)
    step_locks : Step s (locks s)
    step_unlocks : (n : ℕ) → s.holding ≡ suc n → Step s (unlocks s n)
    step_deactivates : (n : ℕ) → s.holding ≡ suc n → Step s (deactivates s)
    step_removes : (n : ℕ) → s.holding ≡ suc n → Step s (removes s n)

  pub data Reach (s : System) : System → Type 0 where
    start : Reach s s
    after : {s' s'' : System} → Reach s s' → Step s' s'' → Reach s s''

-- The document of an active upload counts the calls that add, and its lock keeps them out and all
-- other holders; one that is not active, or gone, has no call that adds.
abbrev pub Counts : State → ℤ → ℕ → ℕ → ℕ → Type 0
Counts active ref lock a h = (ref ≡ pos a) × (h ≤ lock) × ((lock ≡ 0) ⊎ (lock ≡ 1) × (a ≡ 0))
Counts _ ref lock a h = (a ≡ 0) × (h ≤ 1)

abbrev pub IsSound : System → Type 0
IsSound s = elim s.doc [
  | none ↦ (s.adding ≡ 0) × (s.holding ≤ 1)
  | some u ↦ Counts u.state u.ref u.lock s.adding s.holding
]

module _ (uploads : Collection Upload) where
  -- A request finds the document, or it does not.
  update_cases :
      (q : Upload → Bool) (f : Upload → Upload) (u : Upload) (P : Option Upload × Bool → Type 0)
      → (q u ≡ true → P (some (f u), true))
      → (q u ≡ false → P (some u, false))
      → P (uploads.update q f (some u))
  update_cases q f u P y n = elim (Bool-cases (q u)) [
    | inl e ↦ subst P (sym (uploads.update_found q f u e)) (y e)
    | inr e ↦ subst P (sym (uploads.update_missed q f u e)) (n e)
  ]

  add_begins-IsSound : (s : System) → IsSound s → IsSound (add_begins uploads s)
  unfolding add_begins db_ref_inc ◌+ℤ◌
  add_begins-IsSound s v = go s.doc v
    where
      go :
          (d : Option Upload)
          → IsSound (record s { doc = d })
          → IsSound (add_begins uploads (record s { doc = d }))
      go none v = rw uploads.update_absent v
      go (some u) v =
          update_cases _ _ u (λ r. IsSound (record s { doc = r.0; adding = gained r.1 s.adding }))
            (λ e. ground arith) (λ e. v)

  add_ends-IsSound :
      (s : System) (n : ℕ) → s.adding ≡ suc n → IsSound s → IsSound (add_ends uploads s n)
  unfolding add_ends db_ref_dec ◌+ℤ◌
  add_ends-IsSound s n k v = go s.doc v
    where
      go :
          (d : Option Upload)
          → IsSound (record s { doc = d })
          → IsSound (add_ends uploads (record s { doc = d }) n)
      go none v = rw uploads.update_absent (ground arith)
      go (some u) v =
          update_cases _ _ u (λ r. IsSound (record s { doc = r.0; adding = n })) (λ e. ground arith)
            (λ e. ground arith)

  locks-IsSound : (s : System) → IsSound s → IsSound (locks uploads s)
  unfolding locks db_lock
  locks-IsSound s v = go s.doc v
    where
      go :
          (d : Option Upload)
          → IsSound (record s { doc = d })
          → IsSound (locks uploads (record s { doc = d }))
      go none v = rw uploads.update_absent v
      go (some u) v =
          update_cases _ _ u (λ r. IsSound (record s { doc = r.0; holding = gained r.1 s.holding }))
            (λ e. ground arith) (λ e. v)

  unlocks-IsSound :
      (s : System) (n : ℕ) → s.holding ≡ suc n → IsSound s → IsSound (unlocks uploads s n)
  unfolding unlocks db_unlock
  unlocks-IsSound s n k v = go s.doc v
    where
      go :
          (d : Option Upload)
          → IsSound (record s { doc = d })
          → IsSound (unlocks uploads (record s { doc = d }) n)
      go none v = rw uploads.update_absent (ground arith)
      go (some u) v =
          update_cases _ _ u (λ r. IsSound (record s { doc = r.0; holding = n }))
            (λ e. ground arith) (λ e. ground arith)

  deactivates-IsSound :
      (s : System) (n : ℕ) → s.holding ≡ suc n → IsSound s → IsSound (deactivates uploads s)
  unfolding deactivates deactivate
  deactivates-IsSound s n k v = go s.doc v
    where
      go :
          (d : Option Upload)
          → IsSound (record s { doc = d })
          → IsSound (deactivates uploads (record s { doc = d }))
      go none v = rw uploads.update_absent v
      go (some u) v =
          update_cases _ _ u (λ r. IsSound (record s { doc = r.0 })) (λ e. ground arith) (λ e. v)

  removes-IsSound :
      (s : System) (n : ℕ) → s.holding ≡ suc n → IsSound s → IsSound (removes uploads s n)
  unfolding removes remove
  removes-IsSound s n k v = go s.doc v
    where
      go :
          (d : Option Upload)
          → IsSound (record s { doc = d })
          → IsSound (removes uploads (record s { doc = d }) n)
      go none v = rw uploads.remove_absent (ground arith)
      go (some u) v = elim (Bool-cases (is_zero u.ref && is_inactive u.state)) [
        | inl e ↦
            subst (λ r. IsSound (record s { doc = r.0; holding = n }))
              (sym (uploads.remove_found _ u e)) (ground arith)
        | inr e ↦
            subst (λ r. IsSound (record s { doc = r.0; holding = n }))
              (sym (uploads.remove_missed _ u e)) (ground arith)
      ]

  Step-IsSound : (s s' : System) → IsSound s → Step uploads s s' → IsSound s'
  Step-IsSound s _ v step_adds = add_begins-IsSound s v
  Step-IsSound s _ v (step_added n e) = add_ends-IsSound s n e v
  Step-IsSound s _ v step_locks = locks-IsSound s v
  Step-IsSound s _ v (step_unlocks n e) = unlocks-IsSound s n e v
  Step-IsSound s _ v (step_deactivates n e) = deactivates-IsSound s n e v
  Step-IsSound s _ v (step_removes n e) = removes-IsSound s n e v

  reach-IsSound' : (s s' : System) → IsSound s → Reach uploads s s' → IsSound s'
  reach-IsSound' s _ v start = v
  reach-IsSound' s s'' v (after {s'} r st) = Step-IsSound s' s'' (reach-IsSound' s s' v r) st

-- The upload that s3UploadInit makes.
abbrev pub fresh : System
fresh = record {
  doc = some (record { state = active; ref = pos 0; lock = 0 });
  adding = 0;
  holding = 0;
}

excludes : (s : System) → IsSound s → (s.holding ≤ 1) × (0 < s.holding → s.adding ≡ 0)
excludes s v = go s.doc v
  where
    go :
        (d : Option Upload)
        → IsSound (record s { doc = d })
        → (s.holding ≤ 1) × (0 < s.holding → s.adding ≡ 0)
    go none v = ground arith
    go (some u) v = ground arith

-- Over any collection that changes a document in one step, and in whatever order the steps of the calls
-- of s3UploadPart, s3UploadFini and s3UploadAbort on a new upload come: at most one call holds the lock,
-- and while one does, no call is adding a part.
pub reach-excludes :
    (uploads : Collection Upload) (s : System)
    → Reach uploads fresh s
    → (s.holding ≤ 1) × (0 < s.holding → s.adding ≡ 0)
reach-excludes uploads s r =
    excludes s (reach-IsSound' uploads fresh s (refl, omega arith, inl refl) r)

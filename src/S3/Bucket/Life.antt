-- ===== src/S3/Bucket/Life.antt =====
-- What becomes of a bucket's document and pool (src/s3/bucket.go).
use swifty.Base.{
  ◌≡◌, ◌≢◌, refl, ◌⊎◌, inl, inr, true, false, ◌&&◌, Option, none, some, Option-cases, Bool-cases,
  ◌==◌, arith, ◌<◌, ℕ,
}
use swifty.Effects.{Error, not_found, duplicate, failure}
use swifty.S3.Upload.{active, inactive, is_active, is_inactive}
use swifty.S3.Collection.{Collection}
use swifty.S3.Bucket.{
  Bucket, new_bucket, Outcome, remove, lookup_account, found, Place, Request, bucket_not_empty,
  internal_error, set_inactive, remove_from_db, s3_insert_bucket, find_bucket, s3_delete_bucket,
  s3_repair_bucket_inactive,
}

-- A place with another document.
abbrev pub with_row : Place → Option Bucket → Place
with_row w row = record w { row = row }

abbrev pub emptied : Place
emptied = record { row = none; pool = false }

abbrev pub active_bucket : ℕ → Bucket
active_bucket id = record (new_bucket id) { state = active }

-- A document in state none: a repair that can remove it does, and until then no insertion succeeds.
abbrev pub Left : Collection Bucket → ℕ → Place → Type 0
Left buckets id w =
    (w.row ≡ some (new_bucket id))
    × ((faults : Request → Option Error)
        → faults remove ≡ none
        → (s3_repair_bucket_inactive buckets faults w).0.row ≡ none)
    × ((faults : Request → Option Error) (other : ℕ)
        → let (w', e) = s3_insert_bucket buckets faults other w in
          (w'.row ≡ some (new_bucket id)) × (e ≢ none))

-- How s3InsertBucket at `w` ends, with what can then be done about the document that it may leave.
abbrev Ends : ℕ → Place → Outcome → Type 0
Ends id w (w', none) = (w.row ≡ none) × (w' ≡ record { row = some (active_bucket id); pool = true })
Ends id w (w', some e) = (w' ≡ w) ⊎ ((w.row ≡ none) × (w'.row ≡ some (new_bucket id)))

abbrev pub Inserted : Collection Bucket → ℕ → Place → Outcome → Type 0
Inserted buckets id w (w', none) =
    (w.row ≡ none) × (w' ≡ record { row = some (active_bucket id); pool = true })
Inserted buckets id w (w', some e) = (w' ≡ w) ⊎ ((w.row ≡ none) × Left buckets id w')

-- The document `b` is set inactive: it is the one that was read, by its ObjID, and has no objects.
abbrev pub Emptied : Option Bucket → Place → Bucket → Type 0
Emptied seen w b =
    ((s : Bucket) × (seen ≡ some s) × (s.id ≡ b.id))
    × (w.row ≡ some b)
    × (b.state ≡ active)
    × (b.cnt_objects ≡ 0)

-- How s3DeleteBucket ends, when it read `seen` and the place is `w` at the time that the document is to be
-- set inactive.
pub data Deleted (seen : Option Bucket) (w : Place) (r : Outcome) : Type 0 where
  gone :
      (b : Bucket)
      → Emptied seen w b
      → r.0.row ≡ none
      → r.0.pool ≡ false
      → r.1 ≡ none
      → Deleted seen w r
  kept :
      r.0 ≡ w
      → r.1 ≢ none
      → (r.1 ≡ some bucket_not_empty → (b : Bucket) × (seen ≡ some b) × (0 < b.cnt_objects))
      → Deleted seen w r
  half_done :
      (b : Bucket)
      → Emptied seen w b
      → r.0.row ≡ some (record b { state = inactive })
      → r.1 ≡ some internal_error
      → Deleted seen w r

module _ (buckets : Collection Bucket) (faults : Request → Option Error) where
  set_inactive_cases :
      (id : ℕ) (row : Option Bucket)
      → ((b : Bucket) × (row ≡ some b)
          × (b.state ≡ active)
          × (b.cnt_objects ≡ 0)
          × (id ≡ b.id)
          × (set_inactive buckets faults id row ≡ (some (record b { state = inactive }), none)))
        ⊎ (set_inactive buckets faults id row ≡ (row, some not_found))
  unfolding set_inactive
  set_inactive_cases id none = inr (
      rw (
        buckets.update_absent (λ b. b.id == id && (b.cnt_objects == 0) && is_active b.state)
          (λ b. record b { state = inactive })))
  set_inactive_cases id (some b) =
      elim (Bool-cases (b.id == id && (b.cnt_objects == 0) && is_active b.state)) [
        | inl p ↦ inl (
          b,
          refl,
          ground arith,
          ground arith,
          ground arith,
          rw (
              buckets.update_found (λ b. b.id == id && (b.cnt_objects == 0) && is_active b.state)
                (λ b. record b { state = inactive }) b p),
        )
        | inr p ↦ inr (
            rw (
              buckets.update_missed (λ b. b.id == id && (b.cnt_objects == 0) && is_active b.state)
                (λ b. record b { state = inactive }) b p))
      ]

  -- The three ways when the document can be set inactive, and the one when it cannot.
  set-then :
      (seen b : Bucket) (w : Place)
      → b.cnt_objects ≡ 0
      → seen.id ≡ b.id
      → set_inactive buckets faults seen.id w.row ≡ (some (record b { state = inactive }), none)
      → let (w', e) = found buckets faults w (some seen, none) in
        ((w'.row ≡ none) × (w'.pool ≡ false) × (e ≡ none))
        ⊎ ((w' ≡ w) × (e ≢ none) × (e ≡ some bucket_not_empty → 0 < seen.cnt_objects))
        ⊎ ((w'.row ≡ some (record b { state = inactive })) × (e ≡ some internal_error))
  unfolding found remove_from_db
  set-then seen b w z i set = ground (
    arith,
    buckets.remove_found (λ b. b.id == seen.id && (b.cnt_objects == 0) && is_inactive b.state)
        (record b { state = inactive }) (ground (arith, z, i)),
  )

  missed-then :
      (seen : Bucket) (w : Place)
      → set_inactive buckets faults seen.id w.row ≡ (w.row, some not_found)
      → let (w', e) = found buckets faults w (some seen, none) in
        (w' ≡ w) × (e ≢ none) × (e ≡ some bucket_not_empty → 0 < seen.cnt_objects)
  unfolding found
  missed-then seen w set = ground arith

  found-Deleted :
      (b : Bucket) (w : Place) → Deleted (some b) w (found buckets faults w (some b, none))
  found-Deleted b w = elim (set_inactive_cases b.id w.row) [
    | inr miss ↦ let (same, e, full) = missed-then b w miss in kept same e (λ k. (b, refl, full k))
    | inl (d, h, a, z, i, set) ↦ elim (set-then b d w z i set) [
      | inl (n, p, e) ↦ gone d ((b, refl, i), h, a, z) n p e
      | inr (inl (same, e, full)) ↦ kept same e (λ k. (b, refl, full k))
      | inr (inr (row, e)) ↦ half_done d ((b, refl, i), h, a, z) row e
    ]
  ]

  not_found-Deleted :
      (seen : Option Bucket) (w : Place) (e : Error) (b : Option Bucket)
      → Deleted seen w (found buckets faults w (b, some e))
  unfolding found
  not_found-Deleted seen w not_found b = kept refl (λ k. ground arith) (λ k. absurd (ground arith))
  not_found-Deleted seen w duplicate b = kept refl (λ k. ground arith) (λ k. absurd (ground arith))
  not_found-Deleted seen w (failure s) b =
      kept refl (λ k. ground arith) (λ k. absurd (ground arith))

  -- Whatever fails, and whatever others did to the document between its read by s3DeleteBucket and the request that sets it
  -- inactive (none changes it after that): without an error the document and the pool are gone; with one, nothing is
  -- changed, or the document is inactive. Only the document that was read, by its ObjID, is changed, and only
  -- when it was active and had no objects at that request. That the bucket is not empty is answered only when it
  -- had objects when it was read.
  pub s3_delete_bucket-Deleted :
      (seen : Option Bucket) (w : Place) → Deleted seen w (s3_delete_bucket buckets faults seen w)
  unfolding s3_delete_bucket
  s3_delete_bucket-Deleted none w = elim (Option-cases (faults lookup_account)) [
    | inr (e, p) ↦ rw (p, find_bucket) (not_found-Deleted none w e none)
    | inl p ↦ rw (p, find_bucket) (not_found-Deleted none w not_found none)
  ]
  s3_delete_bucket-Deleted (some b) w = elim (Option-cases (faults lookup_account)) [
    | inr (e, p) ↦ rw (p, find_bucket) (not_found-Deleted (some b) w e none)
    | inl p ↦ elim (Bool-cases (is_active b.state)) [
      | inl q ↦ rw (p, find_bucket, q) (found-Deleted b w)
      | inr q ↦ rw (p, find_bucket, q) (not_found-Deleted (some b) w not_found none)
    ]
  ]

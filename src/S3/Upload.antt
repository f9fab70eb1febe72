-- ===== src/S3/Upload.antt =====
-- src/s3/upload.go: the lock and the reference count of an upload's document, over any collection that
-- keeps the laws of S3/Collection. (A request that fails before it reaches the database is one that is
-- not made.)
pub mod Exclusion
pub mod Handlers
use swifty.Base.{ℕ, zero, suc, ◌+◌, ◌-◌, Bool, true, false, ◌&&◌, Option, none, some, ◌==◌}
use swifty.Base.Ints.{ℤ, pos, negsuc, ◌+ℤ◌}
use swifty.S3.Collection.{Collection}

-- S3State*.
pub data State : Type 0 where
  nascent active inactive : State

-- S3Upload, as far as it is locked; Lock is a uint32, which `$inc` does not wrap.
pub record Upload : Type 0 where
  pub state : State
  pub ref : ℤ
  pub lock : ℕ

abbrev pub is_active : State → Bool
is_active active = true
is_active _ = false

abbrev pub is_inactive : State → Bool
is_inactive inactive = true
is_inactive _ = false

abbrev pub is_zero : ℤ → Bool
is_zero (pos zero) = true
is_zero _ = false

module _ (uploads : Collection Upload) where
  -- dbLock.
  unfoldable pub db_lock : Option Upload → Option Upload × Bool
  db_lock =
      uploads.update (λ u. is_active u.state && (u.lock == 0) && is_zero u.ref)
        (λ u. record u { lock = u.lock + 1 })

  -- dbUnlock.
  unfoldable pub db_unlock : Option Upload → Option Upload × Bool
  db_unlock =
      uploads.update (λ u. is_active u.state && (u.lock == 1) && is_zero u.ref)
        (λ u. record u { lock = u.lock - 1 })

  -- dbRefInc.
  unfoldable pub db_ref_inc : Option Upload → Option Upload × Bool
  db_ref_inc =
      uploads.update (λ u. is_active u.state && (u.lock == 0))
        (λ u. record u { ref = u.ref +ℤ pos 1 })

  -- dbRefDec.
  unfoldable pub db_ref_dec : Option Upload → Option Upload × Bool
  db_ref_dec =
      uploads.update (λ u. is_active u.state && (u.lock == 0))
        (λ u. record u { ref = u.ref +ℤ negsuc 0 })

  -- dbS3SetState to S3StateInactive, of s3UploadRemoveLocked.
  unfoldable pub deactivate : Option Upload → Option Upload × Bool
  deactivate = uploads.update (λ u. is_active u.state) (λ u. record u { state = inactive })

  -- dbS3RemoveOnState, of s3UploadRemoveLocked.
  unfoldable pub remove : Option Upload → Option Upload × Bool
  remove = uploads.remove (λ u. is_zero u.ref && is_inactive u.state)

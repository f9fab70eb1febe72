-- ===== src/S3/Upload/Handlers/Ends.antt =====
-- What the handlers of uploads leave of an upload (src/s3/upload.go).
use mathlib.Core.Path.{subst}
use mathlib.Core.List.{append-nil}
use swifty.Base.{
  ◌≡◌, ◌≢◌, ◌⊎◌, inl, inr, refl, sym, ap, ◌∙◌, Bool, true, false, Option, none, some, String, [],
  ◌∷◌, ◌++◌, arith, Option-cases,
}
use swifty.Effects.{Error, Env, Trace}
use swifty.S3.Store.{Conf, Call}
use swifty.S3.Acct.{AcctStats}
use swifty.S3.Object.{Bucket, upload_to_object}
use swifty.S3.Object.Cleanup.{Made, held, alarmed, upload_to_object-Made}
use swifty.S3.Upload.Handlers.{
  UploadCall, find_upload, lock_upload, unlock_upload, set_inactive_upload, remove_inactive_upload,
  store, embed, within, finished, s3_upload_fini, s3_upload_remove_locked, delete_all,
}

-- An upload's document: whether it is there, active, locked.
pub record Kept : Type 0 where
  pub row : Bool
  pub active : Bool
  pub locked : Bool

abbrev pub open_upload : Kept
open_upload = record { row = true; active = true; locked = false }

abbrev after : Kept → UploadCall × Bool → Kept
after k (lock_upload, true) = record k { locked = true }
after k (unlock_upload, true) = record k { locked = false }
after k (set_inactive_upload, true) = record k { active = false }
after k (remove_inactive_upload, true) = record k { row = false }
after k _ = k

unfoldable pub kept : Trace UploadCall → Kept
kept [] = open_upload
kept (c ∷ t) = after (kept t) c

-- The calls about parts and objects.
unfoldable pub stored : Trace UploadCall → Trace Call
stored [] = []
stored ((store c, ok) ∷ t) = (c, ok) ∷ stored t
stored (_ ∷ t) = stored t

-- Whether a request to release the upload failed: to unlock, to deactivate or to remove it.
unfoldable pub not_released : Trace UploadCall → Bool
not_released [] = false
not_released ((unlock_upload, false) ∷ t) = true
not_released ((set_inactive_upload, false) ∷ t) = true
not_released ((remove_inactive_upload, false) ∷ t) = true
not_released (_ ∷ t) = not_released t

kept-embed : (s : Trace Call) (t : Trace UploadCall) → kept (embed s ++ t) ≡ kept t
unfolding kept embed
kept-embed [] t = refl
kept-embed ((c, ok) ∷ s) t = kept-embed s t

stored-embed : (s : Trace Call) (t : Trace UploadCall) → stored (embed s ++ t) ≡ s ++ stored t
unfolding stored embed
stored-embed [] t = refl
stored-embed ((c, ok) ∷ s) t = ap (λ l. (c, ok) ∷ l) (stored-embed s t)

not_released-embed :
    (s : Trace Call) (t : Trace UploadCall) → not_released (embed s ++ t) ≡ not_released t
unfolding not_released embed
not_released-embed [] t = refl
not_released-embed ((c, ok) ∷ s) t = not_released-embed s t

module _ (conf : Conf) (env : Env UploadCall) (bucket : Bucket) where
  abbrev pub Ended : Option Error → Trace UploadCall → Type 0
  Ended r t =
      Made r (stored t)
      × (((r ≡ none) × (((kept t).row ≡ false) ⊎ (not_released t ≡ true)))
          ⊎ ((r ≢ none) × ((kept t ≡ open_upload) ⊎ (not_released t ≡ true))))

  finished-Ended :
      (o : Option Error) (t : Trace UploadCall)
      → Made o (stored t)
      → kept t ≡ record open_upload { locked = true }
      → let (r, t') = finished conf env bucket o t in Ended r t'
  unfolding finished s3_upload_remove_locked kept stored not_released delete_all
  finished-Ended (some e) t made h = ground arith
  finished-Ended none t made h = ground arith

  -- s3UploadFini of an upload that is there and not locked, whatever its calls answer: without an error the object
  -- is active and counted, with nothing pending; with one, nothing of the object is left, or a removal failed or
  -- a consistency check was asked for. The upload is gone, respectively as before, or a request to unlock, to
  -- deactivate or to remove it failed.
  pub s3_upload_fini-Ended :
      (st : AcctStats) (sums : Error ⊎ String)
      → let (r, t) = s3_upload_fini conf env bucket st sums [] in Ended r t
  unfolding s3_upload_fini within kept stored not_released held alarmed
  s3_upload_fini-Ended st sums = elim (Option-cases (env [] find_upload)) [
    | inr (e, q) ↦ rw (q, s3_upload_fini) (ground arith)
    | inl q ↦
        let t1 : Trace UploadCall = (find_upload, true) ∷ [] in
        elim (Option-cases (env t1 lock_upload)) [
          | inr (e, l) ↦ rw (q, l, s3_upload_fini) (ground arith)
          | inl l ↦
              let t2 : Trace UploadCall = (lock_upload, true) ∷ t1 in
              let env' : Env Call = λ h c. env (embed h ++ t2) (store c) in
              let (o, s) = upload_to_object conf env' bucket st sums [] in
              let made : Made o (stored (embed s ++ t2)) =
                subst (Made o) (sym (append-nil s) ∙ sym (stored-embed s t2))
                  (upload_to_object-Made conf env' bucket st sums) in
              rw (q, l, s3_upload_fini) (finished-Ended o (embed s ++ t2) made (kept-embed s t2))
        ]
  ]

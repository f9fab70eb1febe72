-- ===== src/S3/Upload/Handlers.antt =====
-- src/s3/upload.go: the handlers of uploads in parts, over the requests about an upload's document (what they do to
-- it is in the parent module) and over the parts and objects (S3/Data, S3/Object).
pub mod Ends
use swifty.Base.{
  ℕ, Bool, true, false, Option, none, some, String, List, [], ◌∷◌, ◌++◌, ◌⊎◌, inl, inr,
  if◌then◌else◌,
}
use swifty.Effects.{Error, not_found, failure, Env, Trace, M, pure, call, ◌>>=◌, ◌>>◌}
use swifty.S3.Store.{Conf, Part, Call, Next}
use swifty.S3.Data.{Failed, Written, add_part, delete_each}
use swifty.S3.Acct.{AcctStats}
use swifty.S3.Object.{Bucket, upload_to_object}

pub data UploadCall : Type 0 where
  insert_upload find_upload lock_upload unlock_upload : UploadCall
  ref_inc_upload ref_dec_upload set_inactive_upload remove_inactive_upload : UploadCall
  find_parts_of_upload : UploadCall
  store : Call → UploadCall

pub embed : Trace Call → Trace UploadCall
embed [] = []
embed ((c, ok) ∷ s) = (store c, ok) ∷ embed s

module _ (conf : Conf) (env : Env UploadCall) (bucket : Bucket) where
  -- What the code of parts and objects does, among the calls here.
  pub within : {A : Type 0} → (Env Call → M Call A) → M UploadCall A
  unfolding embed
  within m t = let (a, s) = m (λ h c. env (embed h ++ t) (store c)) [] in (a, embed s ++ t)

  mismatch : Error
  mismatch = failure "uploadId mismatch"

  delete_found : List Part → Option Error → M UploadCall Failed
  unfolding within
  delete_found parts none = within (λ e. delete_each conf e parts)
  delete_found parts (some not_found) = pure none
  delete_found parts (some e) = pure (some e)

  -- The parts of an upload, when they are to be removed.
  delete_all : Bool → List Part → M UploadCall Failed
  unfolding delete_found
  delete_all false parts = pure none
  delete_all true parts = do f ← call env find_parts_of_upload; delete_found parts f

  -- s3UploadRemoveLocked, of an upload with the given parts.
  pub s3_upload_remove_locked : Bool → List Part → M UploadCall Failed
  unfolding delete_all
  s3_upload_remove_locked with_parts parts = do
    r ← call env set_inactive_upload
    elim r [
      | some e ↦ pure (some e)
      | none ↦ do
        d ← delete_all with_parts parts
        elim d [ some e ↦ pure (some e) | none ↦ call env remove_inactive_upload ]
    ]

  -- s3UploadInit.
  pub s3_upload_init : M UploadCall Failed
  s3_upload_init = do r ← call env insert_upload; pure r

  stored_part : Written → M UploadCall (String × Failed)
  stored_part (part, etag, some e) = do _ ← call env ref_dec_upload; pure ("", some e)
  stored_part (part, etag, none) = do _ ← call env ref_dec_upload; pure (etag, none)

  -- s3UploadPart, of data of the given size; `verified` is what VerifyUploadUID finds.
  pub s3_upload_part : Bool → ℕ → List Next → M UploadCall (String × Failed)
  unfolding within stored_part mismatch
  s3_upload_part false size s = pure ("", some mismatch)
  s3_upload_part true size s = do
    f ← call env find_upload
    elim f [
      | some e ↦ pure ("", some e)
      | none ↦ do
        i ← call env ref_inc_upload
        elim i [
          | some e ↦ pure ("", some e)
          | none ↦ do a ← within (λ e. add_part conf e size s); stored_part a
        ]
    ]

  finished : Option Error → M UploadCall Failed
  unfolding s3_upload_remove_locked
  finished (some e) = do _ ← call env unlock_upload; pure (some e)
  finished none = do _ ← s3_upload_remove_locked false []; pure none

  -- s3UploadFini; `sums` is what ResumParts returns.
  pub s3_upload_fini : AcctStats → Error ⊎ String → M UploadCall Failed
  unfolding within finished
  s3_upload_fini st sums = do
    f ← call env find_upload
    elim f [
      | some e ↦ pure (some e)
      | none ↦ do
        l ← call env lock_upload
        elim l [
          | some e ↦ pure (some e)
          | none ↦ do o ← within (λ e. upload_to_object conf e bucket st sums); finished o
        ]
    ]

  aborted : Option Error → M UploadCall Failed
  aborted none = pure none
  aborted (some e) = do _ ← call env unlock_upload; pure (some e)

  -- s3UploadAbort.
  pub s3_upload_abort : Bool → List Part → M UploadCall Failed
  unfolding s3_upload_remove_locked aborted mismatch
  s3_upload_abort false parts = pure (some mismatch)
  s3_upload_abort true parts = do
    f ← call env find_upload
    elim f [
      | some e ↦ pure none
      | none ↦ do
        l ← call env lock_upload
        elim l [
          | some e ↦ pure (some e)
          | none ↦ do r ← s3_upload_remove_locked true parts; aborted r
        ]
    ]

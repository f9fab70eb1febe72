-- ===== src/S3/Object.antt =====
-- src/s3/object.go: the making and the removal of an object, over its parts (S3/Data) and the counters
-- (S3/Acct).
pub mod Cleanup
pub mod Copying
pub mod Undoing
use swifty.Base.{ℕ, Bool, true, false, Option, none, some, String, List, [], ◌∷◌, ◌⊎◌, inl, inr}
use swifty.Effects.{Error, not_found, failure, Env, M, pure, call, note, ◌>>=◌, ◌>>◌}
use swifty.S3.Store.{
  Conf, Part, Call, Next, insert_object, remove_object, set_inactive_object, remove_inactive_object,
  set_active_object, find_object, observe, gc_old_versions, notify, end_of_parts,
}
use swifty.S3.Data.{Written, add_part, delete_part, delete_parts}
use swifty.S3.Acct.{AcctStats, acct_obj, unacct_obj, commit_obj}

-- What the handlers below read of a bucket: whether BasicNotify asks for a note on put, and on delete.
pub record Bucket : Type 0 where
  pub notify_put : Bool
  pub notify_delete : Bool

module _ (conf : Conf) (env : Env Call) (bucket : Bucket) where
  -- Activate.
  activate : String → M Call (Option Error)
  unfolding commit_obj
  activate etag = do
    r ← call env (set_active_object etag)
    elim r [
      | some e ↦ pure (some e)
      | none ↦ do
        c ← commit_obj env
        elim c [ some e ↦ pure (some e) | none ↦ do note observe; note gc_old_versions; pure none ]
    ]

  -- createObjectPre.
  pub create_object_pre : AcctStats → M Call (Option Error)
  unfolding acct_obj
  create_object_pre st = do
    r ← call env insert_object
    elim r [
      | some e ↦ pure (some e)
      | none ↦ do
        a ← acct_obj env st
        elim a [ none ↦ pure none | some e ↦ do _ ← call env remove_object; pure (some e) ]
    ]

  -- createObjectPost.
  pub create_object_post : String → M Call (Option Error)
  unfolding activate
  create_object_post etag = do
    r ← activate etag
    elim r [
      | some e ↦ pure (some e)
      | none ↦ elim bucket.notify_put [ false ↦ pure none | true ↦ do note notify; pure none ]
    ]

  -- The label `out_acc` of AddObject and of UploadToObject.
  pub out_acc : Error → M Call (Option Error)
  unfolding unacct_obj
  out_acc e = do _ ← unacct_obj env true; _ ← call env remove_object; pure (some e)

  -- The label `out_parts` of AddObject.
  out_parts : Part → Error → M Call (Option Error)
  unfolding out_acc
  out_parts part e = do _ ← delete_part conf env part; out_acc e

  -- AddObject, once its part is added.
  finish_object : Written → M Call (Option Error)
  unfolding create_object_post out_parts out_acc
  finish_object (part, etag, some e) = out_acc e
  finish_object (part, etag, none) = do
    p ← create_object_post etag
    elim p [ some e ↦ out_parts part e | none ↦ pure none ]

  -- AddObject, of data of the given size.
  pub add_object : AcctStats → ℕ → List Next → M Call (Option Error)
  unfolding create_object_pre finish_object
  add_object st size s = do
    r ← create_object_pre st
    elim r [ some e ↦ pure (some e) | none ↦ do a ← add_part conf env size s; finish_object a ]

  -- UploadToObject; `parts` is what ResumParts returns, its error or the object's ETag.
  pub upload_to_object : AcctStats → Error ⊎ String → M Call (Option Error)
  unfolding create_object_pre create_object_post out_acc
  upload_to_object st (inl e) = pure (some e)
  upload_to_object st (inr etag) = do
    r ← create_object_pre st
    elim r [
      | some e ↦ pure (some e)
      | none ↦ do p ← create_object_post etag; elim p [ some e ↦ out_acc e | none ↦ pure none ]
    ]

  -- DropObject, once its parts are deleted.
  drop_rest : Option Error → M Call (Option Error)
  unfolding unacct_obj
  drop_rest (some e) = pure (some e)
  drop_rest none = do
    u ← unacct_obj env false
    elim u [ some e ↦ pure (some e) | none ↦ call env remove_inactive_object ]

  -- DropObject, of an object with the given parts.
  pub drop_object : List Part → M Call (Option Error)
  unfolding drop_rest
  drop_object parts = do
    r ← call env set_inactive_object
    elim r [ some e ↦ pure (some e) | none ↦ do d ← delete_parts conf env parts; drop_rest d ]

  -- What s3DeleteObject makes of an error: an object that is not there is not an error.
  forgive : Error → Option Error
  forgive not_found = none
  forgive e = some e

  -- s3DeleteObject.
  pub delete_object : List Part → M Call (Option Error)
  unfolding drop_object forgive
  delete_object parts = do
    f ← call env find_object
    elim f [
      | some e ↦ pure (forgive e)
      | none ↦ do
        d ← drop_object parts
        elim d [
          | some e ↦ pure (forgive e)
          | none ↦ elim bucket.notify_delete [
            | false ↦ pure none
            | true ↦ do note notify; pure none
          ]
        ]
    ]

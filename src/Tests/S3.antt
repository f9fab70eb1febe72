-- ===== src/Tests/S3.antt =====
-- The S3 service (src/s3): objects, uploads, chunks and policies.
use swifty.Base.{
  ◌≡◌, ◌≢◌, ◌≤◌, ◌<◌, inr, refl, ap, Bool, true, false, Option, none, some, List, [], ◌∷◌, arith,
  ◌^◌, length, if◌then◌else◌,
}
use swifty.Effects.{failure, Env}
use swifty.S3.Store.{Conf, Part, Call, Next, more, bucket_commit}
use swifty.S3.Data.{write_chunks}
use swifty.S3.Data.Chunks.{Ended, write_chunks-Ended}
use swifty.S3.Acct.{AcctStats}
use swifty.S3.Object.{Bucket, drop_object}
use swifty.S3.Data.Undone.{Undone}
use swifty.S3.Object.Cleanup.{Dropped, drop_object-keeps}
use swifty.S3.Upload.Handlers.{UploadCall, store, s3_upload_fini}
use swifty.S3.Upload.Handlers.Ends as Ends
use swifty.S3.Collection.{Collection}
use swifty.S3.Upload.{Upload, db_ref_inc}
use swifty.S3.Upload.Exclusion.{
  System, fresh, start, after, add_begins, add_ends, locks, step_adds, step_added, step_locks,
  reach-excludes,
}
use swifty.S3.Policy.{to_mgo, to_swy, resource_any}
use swifty.S3.Policy.Codec.{to_swy-to_mgo}
use text.Mathlib.Text.{◌==◌ as str_eq}

-- Ids are given in order; the checksum is of no account.
abbrev conf : Conf
conf = record {
  rados_disabled = true;
  inline_data_size = 2;
  max_chunk_size = 4;
  new_id = λ chunks. length chunks;
  md5 = λ b. "sum";
  rados_sum = "";
}

-- A database whose counters of a bucket cannot be committed.
abbrev flaky : Env Call
flaky t bucket_commit = some (failure "timeout")
flaky t _ = none

abbrev body : List Next
body = more (1 ∷ 2 ∷ []) ∷ more (3 ∷ []) ∷ []

abbrev stats : AcctStats
stats = record { cnt_bytes = 0; lim = none }

abbrev bucket : Bucket
bucket = record { notify_put = true; notify_delete = true }

-- The same failure when an upload is finished.
abbrev flaky_uploads : Env UploadCall
flaky_uploads t (store bucket_commit) = some (failure "timeout")
flaky_uploads t _ = none

s3_upload_fini-Ended_example :
    let (r, t) = s3_upload_fini conf flaky_uploads bucket stats (inr "sum") [] in
    Ends.Ended conf flaky_uploads bucket r t
s3_upload_fini-Ended_example = Ends.s3_upload_fini-Ended conf flaky_uploads bucket stats (inr "sum")

abbrev chunked : Part
chunked = record { size = 3; inline = none; chunks = 7 ∷ 8 ∷ [] }

drop_object-keeps_example :
    let (r, t) = drop_object conf flaky bucket (chunked ∷ []) [] in Dropped (chunked ∷ []) r t
drop_object-keeps_example = drop_object-keeps conf flaky bucket (chunked ∷ [])

abbrev empty_part : Part
empty_part = record { size = 3; inline = none; chunks = [] }

write_chunks-Ended_example :
    let (w, t) = write_chunks conf flaky empty_part body [] in Ended conf flaky body w t
write_chunks-Ended_example = write_chunks-Ended conf flaky empty_part body refl refl refl

-- A collection of one document.
abbrev one_update : (Upload → Bool) → (Upload → Upload) → Option Upload → Option Upload × Bool
one_update q f none = (none, false)
one_update q f (some d) = if q d then (some (f d), true) else (some d, false)

abbrev one_remove : (Upload → Bool) → Option Upload → Option Upload × Bool
one_remove q none = (none, false)
one_remove q (some d) = if q d then (none, true) else (some d, false)

abbrev one_document : Collection Upload
one_document = record {
  update = one_update;
  remove = one_remove;
  update_found = λ q f d h. rw h refl;
  update_missed = λ q f d h. rw h refl;
  update_absent = λ q f. refl;
  remove_found = λ q d h. rw h refl;
  remove_missed = λ q d h. rw h refl;
  remove_absent = λ q. refl;
}

-- A part is added, and then the upload is locked.
abbrev locked : System
locked = locks one_document (add_ends one_document (add_begins one_document fresh) 0)

one_adds : (add_begins one_document fresh).adding ≡ 1
unfolding add_begins db_ref_inc
one_adds = refl

reach-excludes_example : (locked.holding ≤ 1) × (0 < locked.holding → locked.adding ≡ 0)
reach-excludes_example =
    reach-excludes one_document locked
      (after (after (after start step_adds) (step_added 0 one_adds)) step_locks)

to_swy-to_mgo_example :
    to_swy (to_mgo (record { low = 5; high = 2 ^ 63 })) ≡ record { low = 5; high = 2 ^ 63 }
to_swy-to_mgo_example =
    to_swy-to_mgo (record { low = 5; high = 2 ^ 63 }) (omega arith) (omega arith)

images-any : "images" ≢ resource_any
images-any h = false_true (ap (λ s. str_eq s resource_any) h)
  where
    false_true : false ≢ true
    false_true e = ground arith

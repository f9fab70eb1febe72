-- ===== src/S3/Bucket.antt =====
-- src/s3/bucket.go: how a bucket is made, deleted and repaired. Its document is in a collection that keeps the
-- laws of S3/Collection; `faults` says which requests fail before they reach the database or the cluster
-- (each function makes a request of a kind once).
pub mod Life
use swifty.Base.{
  ℕ, ◌+◌, Bool, true, false, ◌&&◌, ◌||◌, not, Option, none, some, List, [], ◌∷◌, ltb, ◌==◌, length,
  if◌then◌else◌,
}
use swifty.Effects.{Error, not_found, duplicate, failure, Env, M, pure, call, ◌>>=◌, ◌>>◌}
use swifty.S3.Upload.{State, nascent, active, inactive, is_active, is_inactive}
use swifty.S3.Collection.{Collection}

-- s3mgo.Bucket, its ObjID and what changes of it: its state, its counters, and the number of objects that are not
-- committed yet.
pub record Bucket : Type 0 where
  pub id : ℕ
  pub state : State
  pub cnt_objects : ℕ
  pub cnt_bytes : ℕ
  pub ref : ℕ

abbrev pub new_bucket : ℕ → Bucket
new_bucket id = record { id = id; state = nascent; cnt_objects = 0; cnt_bytes = 0; ref = 0 }

-- The document of a name, and whether it has a pool in Ceph.
pub record Place : Type 0 where
  pub row : Option Bucket
  pub pool : Bool

pub data Request : Type 0 where
  lookup_account insert create_pool activate deactivate delete_pool remove : Request

pub data S3Error : Type 0 where
  no_such_bucket bucket_not_empty internal_error : S3Error

abbrev pub Outcome : Type 0
Outcome = Place × Option S3Error

abbrev pub is_nascent : State → Bool
is_nascent nascent = true
is_nascent _ = false

-- dbS3Insert: the index of names is unique.
unfoldable pub insert_row : Option Bucket → Bucket → Option Bucket × Option Error
insert_row none b = (some b, none)
insert_row (some old) b = (some old, some duplicate)

abbrev pub answer : {A : Type 0} → A × Bool → A × Option Error
answer (a, true) = (a, none)
answer (a, false) = (a, some not_found)

module _ (buckets : Collection Bucket) (faults : Request → Option Error) where
  abbrev attempt :
      Request → Place → (Option Bucket → Option Bucket × Option Error) → Place × Option Error
  attempt rq w f = elim (faults rq) [
    | some e ↦ (w, some e)
    | none ↦ let (row, e) = f w.row in (record w { row = row }, e)
  ]

  -- dbS3SetState to S3StateActive, and to S3StateInactive with the query that there are no objects; both ask
  -- for the ObjID of the bucket that they are given.
  unfoldable pub set_active : ℕ → Option Bucket → Option Bucket × Option Error
  set_active id row = answer (
      buckets.update (λ b. b.id == id && is_nascent b.state) (λ b. record b { state = active }) row)

  unfoldable pub set_inactive : ℕ → Option Bucket → Option Bucket × Option Error
  set_inactive id row = answer (
      buckets.update (λ b. b.id == id && (b.cnt_objects == 0) && is_active b.state)
        (λ b. record b { state = inactive }) row)

  -- RemoveFromDB.
  unfoldable pub remove_from_db : ℕ → Place → Place × Option Error
  remove_from_db id w = attempt remove w (λ row.
      answer (buckets.remove (λ b. b.id == id && (b.cnt_objects == 0) && is_inactive b.state) row))

  -- radosDeletePool and radosCreatePool.
  rados_delete_pool : Place → Place × Option Error
  rados_delete_pool w = elim (faults delete_pool) [
    | some e ↦ (w, some e)
    | none ↦ (record w { pool = false }, none)
  ]

  rados_create_pool : Place → Place × Option Error
  rados_create_pool w = elim (faults create_pool) [
    | some e ↦ (w, some e)
    | none ↦ (record w { pool = true }, none)
  ]

  -- The labels `out_nopool` and `out` of s3InsertBucket.
  out_nopool : ℕ → Place → Outcome
  unfolding remove_from_db
  out_nopool id w = let (w', e) = remove_from_db id w in (w', some internal_error)

  out : ℕ → Place → Outcome
  unfolding rados_delete_pool out_nopool
  out id w = let (w', e) = rados_delete_pool w in out_nopool id w'

  activated : ℕ → Place × Option Error → Outcome
  unfolding out
  activated id (w, some e) = out id w
  activated id (w, none) = (w, none)

  with_pool : ℕ → Place × Option Error → Outcome
  unfolding activated out_nopool set_active
  with_pool id (w, some e) = out_nopool id w
  with_pool id (w, none) = activated id (attempt activate w (set_active id))

  inserted : ℕ → Place × Option Error → Outcome
  unfolding with_pool rados_create_pool
  inserted id (w, some e) = (w, some internal_error)
  inserted id (w, none) = with_pool id (rados_create_pool w)

  no_account : Error → S3Error
  no_account not_found = no_such_bucket
  no_account _ = internal_error

  -- s3InsertBucket; `id` is the ObjID that bson.NewObjectId gives.
  unfoldable pub s3_insert_bucket : ℕ → Place → Outcome
  unfolding inserted no_account insert_row
  s3_insert_bucket id w = elim (faults lookup_account) [
    | some e ↦ (w, some (no_account e))
    | none ↦ inserted id (attempt insert w (λ row. insert_row row (new_bucket id)))
  ]

  -- FindBucket: the document in state active, after the account's.
  unfoldable pub find_bucket : Option Bucket → Option Bucket × Option Error
  find_bucket row = elim (faults lookup_account) [
    | some e ↦ (none, some e)
    | none ↦ elim row [
      | none ↦ (none, some not_found)
      | some b ↦ if is_active b.state then (some b, none) else (none, some not_found)
    ]
  ]

  removed : Place × Option Error → Outcome
  removed (w, some e) = (w, some internal_error)
  removed (w, none) = (w, none)

  pool_deleted : ℕ → Place × Option Error → Outcome
  unfolding removed remove_from_db
  pool_deleted id (w, some e) = (w, some internal_error)
  pool_deleted id (w, none) = removed (remove_from_db id w)

  not_deactivated : Bucket → Error → S3Error
  not_deactivated bucket not_found =
      if ltb 0 bucket.cnt_objects then bucket_not_empty else internal_error
  not_deactivated bucket _ = internal_error

  deactivated : Bucket → Place × Option Error → Outcome
  unfolding not_deactivated pool_deleted rados_delete_pool
  deactivated bucket (w, some e) = (w, some (not_deactivated bucket e))
  deactivated bucket (w, none) = pool_deleted bucket.id (rados_delete_pool w)

  found : Place → Option Bucket × Option Error → Outcome
  unfolding deactivated set_inactive no_account
  found w (b, some e) = (w, some (no_account e))
  found w (none, none) = (w, some internal_error)
  found w (some bucket, none) = deactivated bucket (attempt deactivate w (set_inactive bucket.id))

  -- s3DeleteBucket, of the document `seen` that FindBucket reads: others may change or replace it until it
  -- is set inactive, when the place is `w`; from then on it is not changed by others.
  unfoldable pub s3_delete_bucket : Option Bucket → Place → Outcome
  unfolding found find_bucket
  s3_delete_bucket seen w = found w (find_bucket seen)

  -- The loop of s3RepairBucketInactive, on one document: those in state none and inactive are removed.
  unfoldable pub s3_repair_bucket_inactive : Place → Place × Option Error
  unfolding rados_delete_pool
  s3_repair_bucket_inactive w = elim w.row [
    | none ↦ (w, none)
    | some b ↦
        if is_active b.state
        then (w, none)
        else let (w', e) = rados_delete_pool w in
          attempt remove w' (λ row. answer (buckets.remove (λ d. true) row))
  ]

  -- s3DirtifyBucket.
  unfoldable pub s3_dirtify_bucket : Option Bucket → Option Bucket × Option Error
  s3_dirtify_bucket row = answer (buckets.update (λ b. b.ref == 0) (λ b. record b { ref = 1 }) row)

sum : List ℕ → ℕ
sum [] = 0
sum (n ∷ ns) = n + sum ns

recount : Bucket → List ℕ → Bucket
unfolding sum
recount b sizes = record b { cnt_objects = length sizes; cnt_bytes = sum sizes; ref = 0 }

-- s3RepairBucketReference, with the sizes of the active objects that are found, or an error.
unfoldable pub s3_repair_bucket_reference :
    Collection Bucket
    → Option Error
    → List ℕ
    → Option Error
    → Option Bucket
    → Option Bucket × Option Error
unfolding recount
s3_repair_bucket_reference buckets none sizes (some e) row = (row, some e)
s3_repair_bucket_reference buckets none sizes none row =
    answer (buckets.update (λ b. true) (λ b. recount b sizes) row)
s3_repair_bucket_reference buckets (some not_found) sizes (some e) row = (row, some e)
s3_repair_bucket_reference buckets (some not_found) sizes none row =
    answer (buckets.update (λ b. true) (λ b. recount b []) row)
s3_repair_bucket_reference buckets (some duplicate) sizes fault row = (row, some duplicate)
s3_repair_bucket_reference buckets (some (failure s)) sizes fault row = (row, some (failure s))

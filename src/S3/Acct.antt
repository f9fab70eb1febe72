-- ===== src/S3/Acct.antt =====
-- src/s3/acct.go: an object's size in the counters of its namespace and of its bucket.
use swifty.Base.{ℕ, Bool, Option, none, some, ltb, ◌==◌, not, ◌&&◌, if◌then◌else◌}
use swifty.Effects.{Error, failure, Env, M, pure, call, note, ◌>>=◌, ◌>>◌}
use swifty.S3.Store.{
  Call, stats_add, stats_sub, bucket_add, bucket_sub, bucket_sub_ref, bucket_commit, request_fsck,
}

-- s3mgo.AcctStats as rsLimited reads it: the counter of bytes, and the limit on it (Lim, if any).
pub record AcctStats : Type 0 where
  pub cnt_bytes : ℕ
  pub lim : Option ℕ

-- rsLimited.
pub rs_limited : AcctStats → Option Error
rs_limited st = elim st.lim [
  | none ↦ none
  | some l ↦
      if not (l == 0) && ltb l st.cnt_bytes
      then some (failure "Objects total size exceeded")
      else none
]

module _ (env : Env Call) where
  -- commitObj.
  unfoldable pub commit_obj : M Call (Option Error)
  commit_obj = call env bucket_commit

  -- The label `er1` of acctObj and of unacctObj.
  er1 : Error → M Call (Option Error)
  er1 err = do note request_fsck; pure (some err)

  -- acctObj, when StatsAcct comes back with `st`.
  unfoldable pub acct_obj : AcctStats → M Call (Option Error)
  unfolding rs_limited er1
  acct_obj st = do
    r ← call env stats_add
    elim r [
      | some err ↦ er1 err
      | none ↦ elim (rs_limited st) [
        | some err ↦ do
          eru ← call env stats_sub
          elim eru [ some _ ↦ er1 err | none ↦ pure (some err) ]
        | none ↦ do
          b ← call env bucket_add
          elim b [ none ↦ pure none | some err ↦ do _ ← call env stats_sub; er1 err ]
      ]
    ]

  -- unacctObj.
  unfoldable pub unacct_obj : Bool → M Call (Option Error)
  unfolding er1
  unacct_obj dropref = do
    b ← call env (if dropref then bucket_sub_ref else bucket_sub)
    elim b [
      | some err ↦ er1 err
      | none ↦ do s ← call env stats_sub; elim s [ some err ↦ er1 err | none ↦ pure none ]
    ]

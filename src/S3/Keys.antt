-- ===== src/S3/Keys.antt =====
-- src/s3/keys.go and src/s3/iam.go: access keys, the identities (Iam) that they stand for, and accounts. The
-- database answers through `env`; what its documents hold, random keys and their encryption are given.
pub mod Grants
use text.Mathlib.Text.{◌==◌ as str_eq}
use swifty.Base.{
  ℕ, ◌+◌, ◌⊎◌, inl, inr, Bool, true, false, ◌&&◌, not, Option, none, some, String, List, [], ◌∷◌,
  ltb, ◌==◌, if◌then◌else◌,
}
use swifty.Effects.{Error, not_found, failure, Env, M, pure, call, ◌>>=◌, ◌>>◌}
use swifty.S3.Policy.{Policy, same_bytes, root_policy, bucket_policy}

-- s3mgo.AccessKey, less its own id and state.
pub record AccessKey : Type 0 where
  pub account : ℕ
  pub iam : ℕ
  pub created : ℕ
  pub expires : ℕ
  pub key_id : String
  pub secret : String

abbrev pub time_stamp_max : ℕ
time_stamp_max = 0x7fffffffffffffff

pub data KeyCall : Type 0 where
  upsert_account : String → KeyCall
  inactivate_account remove_account : ℕ → KeyCall
  insert_iam : ℕ → Policy → KeyCall
  find_iam inactivate_iam remove_iam : ℕ → KeyCall
  find_endless_keys : ℕ → KeyCall
  insert_key remove_key : AccessKey → KeyCall
  find_key : String → KeyCall

-- The documents that searches give, the ids of new ones, the texts that genKey returns, and the clock.
pub record KeyDb : Type 0 where
  pub account_of : String → ℕ
  pub endless_keys : ℕ → List AccessKey
  pub policy_of : ℕ → Policy
  pub key_of : String → AccessKey
  pub new_iam : ℕ
  pub new_id : String
  pub new_secret : String
  pub encrypt : String → Error ⊎ String
  pub now : ℕ

unfoldable pub same_texts : List String → List String → Bool
same_texts [] [] = true
same_texts (x ∷ xs) (y ∷ ys) = str_eq x y && same_texts xs ys
same_texts _ _ = false

-- Policy.Equal.
unfoldable pub equal : Policy → Policy → Bool
unfolding same_texts
equal p q =
    str_eq p.effect q.effect && (same_bytes p.action q.action && same_texts p.resource q.resource)

-- The policy that a key for a bucket, or for all (the empty name), is to have.
unfoldable pub wanted : String → Policy
wanted bname = if not (str_eq bname "") then bucket_policy bname else root_policy

-- AccessKey.Expired.
unfoldable pub expired : ℕ → AccessKey → Bool
expired now akey = if ltb akey.expires time_stamp_max then ltb akey.expires now else false

module _ (db : KeyDb) (env : Env KeyCall) where
  -- s3AccountInsert.
  pub s3_account_insert : String → M KeyCall (Error ⊎ ℕ)
  s3_account_insert namespace =
      if str_eq namespace "" then pure (inl (failure "s3: Empty namespace")) else do
        r ← call env (upsert_account namespace)
        elim r [ some e ↦ pure (inl e) | none ↦ pure (inr (db.account_of namespace)) ]

  abbrev unless_missing : Error → Option Error
  unless_missing not_found = none
  unless_missing e = some e

  -- s3AccountDelete.
  pub s3_account_delete : ℕ → M KeyCall (Option Error)
  s3_account_delete account = do
    r ← call env (inactivate_account account)
    elim r [
      | some e ↦ pure (unless_missing e)
      | none ↦ do _ ← call env (remove_account account); pure none
    ]

  -- s3IamDelete.
  pub s3_iam_delete : ℕ → M KeyCall (Option Error)
  s3_iam_delete iam = do
    r ← call env (inactivate_iam iam)
    elim r [ some e ↦ pure (unless_missing e) | none ↦ do _ ← call env (remove_iam iam); pure none ]

  -- The loop of getEndlessKey.
  pub endless_loop : Policy → List AccessKey → M KeyCall (Error ⊎ AccessKey)
  unfolding equal
  endless_loop policy [] = pure (inl (failure "Not found"))
  endless_loop policy (key ∷ keys) = do
    r ← call env (find_iam key.iam)
    let rest = endless_loop policy keys
    elim r [
      | some e ↦ rest
      | none ↦ if equal policy (db.policy_of key.iam) then pure (inr key) else rest
    ]

  -- getEndlessKey.
  pub get_endless_key : ℕ → Policy → M KeyCall (Error ⊎ AccessKey)
  unfolding endless_loop
  get_endless_key account policy = do
    r ← call env (find_endless_keys account)
    elim r [ some e ↦ pure (inl e) | none ↦ endless_loop policy (db.endless_keys account) ]

  -- The labels `out_1` and `out_2` of genNewAccessKey.
  out_1 : ℕ → Error → M KeyCall (Error ⊎ AccessKey)
  unfolding s3_account_delete
  out_1 account e = do _ ← s3_account_delete account; pure (inl e)

  out_2 : ℕ → Error → M KeyCall (Error ⊎ AccessKey)
  unfolding s3_iam_delete out_1
  out_2 account e = do _ ← s3_iam_delete db.new_iam; out_1 account e

  encrypted : ℕ → ℕ → Error ⊎ String → M KeyCall (Error ⊎ AccessKey)
  unfolding out_2
  encrypted account expired_when (inl e) = out_2 account e
  encrypted account expired_when (inr secret) = do
    let akey : AccessKey = record {
      account = account;
      iam = db.new_iam;
      created = db.now;
      expires = expired_when;
      key_id = db.new_id;
      secret = secret;
    }
    r ← call env (insert_key akey)
    elim r [ some e ↦ out_2 account e | none ↦ pure (inr akey) ]

  -- genNewAccessKey, from the new identity on.
  pub make_key : ℕ → Policy → ℕ → M KeyCall (Error ⊎ AccessKey)
  unfolding out_1 out_2 encrypted
  make_key account policy expired_when = do
    r ← call env (insert_iam db.new_iam policy)
    elim r [
      | some e ↦ out_1 account e
      | none ↦
          if str_eq db.new_id ""
          then out_2 account (failure "s3: Can't generate keys")
          else if str_eq db.new_secret ""
          then out_2 account (failure "s3: Can't generate keys")
          else encrypted account expired_when (db.encrypt db.new_secret)
    ]

  or_make : ℕ → Policy → Error ⊎ AccessKey → M KeyCall (Error ⊎ AccessKey)
  unfolding make_key
  or_make account policy (inr akey) = pure (inr akey)
  or_make account policy (inl e) = make_key account policy time_stamp_max

  with_account : Policy → ℕ → Error ⊎ ℕ → M KeyCall (Error ⊎ AccessKey)
  unfolding get_endless_key make_key or_make
  with_account policy lifetime (inl e) = pure (inl e)
  with_account policy lifetime (inr account) =
      if not (lifetime == 0)
      then make_key account policy (db.now + lifetime)
      else do r ← get_endless_key account policy; or_make account policy r

  -- genNewAccessKey.
  pub gen_new_access_key : String → String → ℕ → M KeyCall (Error ⊎ AccessKey)
  unfolding s3_account_insert with_account
  gen_new_access_key namespace bname lifetime = do
    r ← s3_account_insert namespace
    with_account (wanted bname) lifetime r

  -- dbLookupAccessKey.
  unfoldable pub db_lookup_access_key : String → M KeyCall (Error ⊎ AccessKey)
  db_lookup_access_key key_id = do
    r ← call env (find_key key_id)
    elim r [ some e ↦ pure (inl e) | none ↦ pure (inr (db.key_of key_id)) ]

  unless_expired : Error ⊎ AccessKey → Error ⊎ AccessKey
  unless_expired (inl e) = inl e
  unless_expired (inr akey) = if expired db.now akey then inl (failure "Expired key") else inr akey

  -- LookupAccessKey.
  unfoldable pub lookup_access_key : String → M KeyCall (Error ⊎ AccessKey)
  unfolding db_lookup_access_key unless_expired
  lookup_access_key key_id = do r ← db_lookup_access_key key_id; pure (unless_expired r)

  drop_key : AccessKey → M KeyCall (Option Error)
  unfolding s3_iam_delete
  drop_key akey = do
    r ← call env (find_iam akey.iam)
    elim r [
      | some e ↦ call env (remove_key akey)
      | none ↦ do _ ← s3_iam_delete akey.iam; call env (remove_key akey)
    ]

  drop_found : Error ⊎ AccessKey → M KeyCall (Option Error)
  unfolding drop_key
  drop_found (inl e) = pure (some e)
  drop_found (inr akey) = drop_key akey

  -- dbRemoveAccessKey.
  unfoldable pub db_remove_access_key : String → M KeyCall (Option Error)
  unfolding db_lookup_access_key drop_found
  db_remove_access_key key_id = do r ← db_lookup_access_key key_id; drop_found r

  -- The loop of gc_keys, over the keys that have expired.
  unfoldable pub gc_keys : List AccessKey → M KeyCall (Unit {0})
  unfolding drop_key
  gc_keys [] = pure tt
  gc_keys (akey ∷ akeys) = do _ ← drop_key akey; gc_keys akeys

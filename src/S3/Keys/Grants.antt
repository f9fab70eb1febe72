-- ===== src/S3/Keys/Grants.antt =====
-- What a new access key grants, and what is left when it cannot be made (src/s3/keys.go).
use swifty.Base.{
  ℕ, ◌+◌, ◌≡◌, refl, ◌∙◌, ◌⊎◌, inl, inr, Bool, true, false, ◌||◌, Option, none, some, Option-cases,
  Bool-cases, String, List, [], ◌∷◌, ◌==◌, if◌then◌else◌, is_none, arith,
}
use text.Mathlib.Text.{◌==◌ as str_eq}
use swifty.Effects.{Error, Env, Trace}
use swifty.S3.Policy.{Policy}
use swifty.S3.Keys.{
  AccessKey, KeyCall, KeyDb, upsert_account, inactivate_account, insert_iam, find_iam,
  inactivate_iam, find_endless_keys, insert_key, equal, wanted, time_stamp_max, s3_account_insert,
  endless_loop, get_endless_key, make_key, or_make, with_account, gen_new_access_key,
}

-- The key stored.
unfoldable pub kept : Trace KeyCall → Option AccessKey
kept [] = none
kept ((insert_key k, true) ∷ t) = some k
kept (_ ∷ t) = kept t

-- The policy of the identity that is there and active.
unfoldable pub granted : Trace KeyCall → Option Policy
granted [] = none
granted ((insert_iam i p, true) ∷ t) = some p
granted ((inactivate_iam i, true) ∷ t) = none
granted (_ ∷ t) = granted t

-- Whether the database refused to take the identity back.
unfoldable pub refused_back : Trace KeyCall → Bool
refused_back [] = false
refused_back ((inactivate_iam i, false) ∷ t) = true
refused_back (_ ∷ t) = refused_back t

-- Whether the account was put in or found, and whether it was asked to be set inactive.
unfoldable pub has_account : Trace KeyCall → Bool
has_account [] = false
has_account ((upsert_account n, true) ∷ t) = true
has_account (_ ∷ t) = has_account t

unfoldable pub account_dropped : Trace KeyCall → Bool
account_dropped [] = false
account_dropped ((inactivate_account a, b) ∷ t) = true
account_dropped (_ ∷ t) = account_dropped t

module _ (db : KeyDb) (env : Env KeyCall) where
  abbrev Made : Policy → ℕ → Error ⊎ AccessKey → Trace KeyCall → Type 0
  Made policy when (inr key) t =
      (kept t ≡ some key)
      × (granted t ≡ some policy)
      × (key.iam ≡ db.new_iam)
      × (key.expires ≡ when)
      × (account_dropped t ≡ false)
  Made policy when (inl e) t =
      (kept t ≡ none)
      × ((is_none (granted t) || refused_back t) ≡ true)
      × (account_dropped t ≡ true)

  -- Nothing is there but the account.
  record Begun (t : Trace KeyCall) : Type 0 where
    kept_none : kept t ≡ none
    granted_none : granted t ≡ none
    not_dropped : account_dropped t ≡ false
    account_there : has_account t ≡ true

  make_key-Made :
      (account : ℕ) (policy : Policy) (when : ℕ) (t : Trace KeyCall)
      → Begun t
      → let (r, t') = make_key db env account policy when t in
        Made policy when r t' × (has_account t' ≡ true)
  unfolding make_key kept granted refused_back account_dropped has_account
  make_key-Made account policy when t b = ground arith

  pub data Listed (key : AccessKey) : List AccessKey → Type 0 where
    first : {keys : List AccessKey} → Listed key (key ∷ keys)
    later : {k : AccessKey} {keys : List AccessKey} → Listed key keys → Listed key (k ∷ keys)

  -- What a search among the endless keys finds.
  abbrev Searched : Policy → List AccessKey → Error ⊎ AccessKey → Type 0
  Searched policy keys (inl e) = Unit
  Searched policy keys (inr key) = Listed key keys × (equal policy (db.policy_of key.iam) ≡ true)

  Searched-later :
      (policy : Policy) (k : AccessKey) (keys : List AccessKey) (r : Error ⊎ AccessKey)
      → Searched policy keys r
      → Searched policy (k ∷ keys) r
  Searched-later policy k keys (inl e) s = tt
  Searched-later policy k keys (inr key) (l, e) = (later l, e)

  endless_loop-Searched :
      (policy : Policy) (keys : List AccessKey) (t : Trace KeyCall)
      → Begun t
      → let (r, t') = endless_loop db env policy keys t in Searched policy keys r × Begun t'
  unfolding endless_loop kept granted account_dropped has_account
  endless_loop-Searched policy [] t b = (tt, b)
  endless_loop-Searched policy (key ∷ keys) t b =
      let again : (ok : Bool) → Begun ((find_iam key.iam, ok) ∷ t) = λ ok. ground arith in
      elim (Option-cases (env t (find_iam key.iam))) [
        | inr (e, p) ↦
            let (s, b') =
              endless_loop-Searched policy keys ((find_iam key.iam, false) ∷ t) (again false) in
            rw (p, endless_loop) (Searched-later policy key keys _ s, b')
        | inl p ↦ elim (Bool-cases (equal policy (db.policy_of key.iam))) [
          | inl q ↦ rw (p, endless_loop, q) ((first, q), again true)
          | inr q ↦
              let (s, b') =
                endless_loop-Searched policy keys ((find_iam key.iam, true) ∷ t) (again true) in
              rw (p, endless_loop, q) (Searched-later policy key keys _ s, b')
        ]
      ]

  get_endless_key-Searched :
      (account : ℕ) (policy : Policy) (t : Trace KeyCall)
      → Begun t
      → let (r, t') = get_endless_key db env account policy t in
        Searched policy (db.endless_keys account) r × Begun t'
  unfolding get_endless_key kept granted account_dropped has_account
  get_endless_key-Searched account policy t b =
      elim (Option-cases (env t (find_endless_keys account))) [
        | inr (e, p) ↦ rw (p, get_endless_key) (tt, ground arith)
        | inl p ↦
            rw (p, get_endless_key)
              (endless_loop-Searched policy (db.endless_keys account)
                ((find_endless_keys account, true) ∷ t) (ground arith))
      ]

  -- When a key with a lifetime ends; a key without one is endless.
  abbrev pub deadline : ℕ → ℕ
  deadline lifetime = if lifetime == 0 then time_stamp_max else db.now + lifetime

  -- How genNewAccessKey ends.
  pub data Generated (namespace bname : String) (lifetime : ℕ)
      : Error ⊎ AccessKey → Trace KeyCall → Type 0 where
    -- There is no account, and nothing is left.
    no_account :
        {e : Error} {t : Trace KeyCall}
        → kept t ≡ none
        → granted t ≡ none
        → has_account t ≡ false
        → account_dropped t ≡ false
        → Generated namespace bname lifetime (inl e) t
    -- An endless key of the account with the policy wanted, and nothing is changed.
    reused :
        {key : AccessKey} {t : Trace KeyCall}
        → lifetime ≡ 0
        → Listed key (db.endless_keys (db.account_of namespace))
        → equal (wanted bname) (db.policy_of key.iam) ≡ true
        → kept t ≡ none
        → granted t ≡ none
        → account_dropped t ≡ false
        → Generated namespace bname lifetime (inr key) t
    -- A new key, for a new identity with the policy wanted.
    made :
        {key : AccessKey} {t : Trace KeyCall}
        → kept t ≡ some key
        → granted t ≡ some (wanted bname)
        → key.iam ≡ db.new_iam
        → key.expires ≡ deadline lifetime
        → account_dropped t ≡ false
        → Generated namespace bname lifetime (inr key) t
    -- No key: the identity is taken back, or the database refused that; and the account, which may have
    -- been there before, is asked to be set inactive.
    taken_back :
        {e : Error} {t : Trace KeyCall}
        → kept t ≡ none
        → (is_none (granted t) || refused_back t) ≡ true
        → has_account t ≡ true
        → account_dropped t ≡ true
        → Generated namespace bname lifetime (inl e) t

  Made-Generated :
      (namespace bname : String) (lifetime when : ℕ) (r : Error ⊎ AccessKey) (t : Trace KeyCall)
      → when ≡ deadline lifetime
      → Made (wanted bname) when r t × (has_account t ≡ true)
      → Generated namespace bname lifetime r t
  Made-Generated namespace bname lifetime when (inl e) t w ((k, g, d), h) = taken_back k g h d
  Made-Generated namespace bname lifetime when (inr key) t w ((k, g, i, x, d), h) =
      made k g i (x ∙ w) d

  or_make-Generated :
      (namespace bname : String) (lifetime : ℕ) (r : Error ⊎ AccessKey) (t : Trace KeyCall)
      → Begun t
      → (lifetime == 0) ≡ true
      → Searched (wanted bname) (db.endless_keys (db.account_of namespace)) r
      → let (r', t') = or_make db env (db.account_of namespace) (wanted bname) r t in
        Generated namespace bname lifetime r' t'
  unfolding or_make
  or_make-Generated namespace bname lifetime (inr key) t b z (l, e) =
      reused (ground arith) l e b.kept_none b.granted_none b.not_dropped
  or_make-Generated namespace bname lifetime (inl e) t b z s =
      Made-Generated namespace bname lifetime time_stamp_max _ _ (rw z)
        (make_key-Made (db.account_of namespace) (wanted bname) time_stamp_max t b)

  with_account-Generated :
      (namespace bname : String) (lifetime : ℕ) (t : Trace KeyCall)
      → Begun t
      → let (r, t') =
          with_account db env (wanted bname) lifetime (inr (db.account_of namespace)) t in
        Generated namespace bname lifetime r t'
  unfolding with_account
  with_account-Generated namespace bname lifetime t b =
      let account : ℕ = db.account_of namespace in
      let (r, t') = get_endless_key db env account (wanted bname) t in
      let (s, b') = get_endless_key-Searched account (wanted bname) t b in
      elim (Bool-cases (lifetime == 0)) [
        | inl z ↦ rw z (or_make-Generated namespace bname lifetime r t' b' z s)
        | inr z ↦ rw z (
            Made-Generated namespace bname lifetime (db.now + lifetime) _ _ (rw z)
              (make_key-Made account (wanted bname) (db.now + lifetime) t b))
      ]

  -- Whatever the database answers, genNewAccessKey ends in one of four ways: it has no account, and an
  -- error; for no lifetime, it returns an endless key that the account has, with a policy equal to the one
  -- for the bucket (or, for no bucket, for all), and changes nothing; it returns a new key, which is stored,
  -- for a new active identity with that policy, and which ends when the lifetime says; or it has an error
  -- and stores no key, and the identity is not active any more unless the database refused that. In the
  -- last case the account is asked to be set inactive, new or not.
  pub gen_new_access_key-Generated :
      (namespace bname : String) (lifetime : ℕ)
      → let (r, t) = gen_new_access_key db env namespace bname lifetime [] in
        Generated namespace bname lifetime r t
  unfolding gen_new_access_key s3_account_insert with_account kept granted has_account
      account_dropped
  gen_new_access_key-Generated namespace bname lifetime = elim (Bool-cases (str_eq namespace "")) [
    | inl p ↦ rw p (no_account refl refl refl refl)
    | inr p ↦ elim (Option-cases (env [] (upsert_account namespace))) [
      | inr (e, q) ↦ rw (p, q) (no_account refl refl refl refl)
      | inl q ↦
          rw (p, q)
            (with_account-Generated namespace bname lifetime ((upsert_account namespace, true) ∷ [])
              (ground arith))
    ]
  ]

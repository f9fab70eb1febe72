-- ===== src/S3/Policy/Access.antt =====
-- What each of the canned policies lets its holder do.
use text.Mathlib.Text.{◌==◌ as str_eq}
use text.Mathlib.TextEquality.{eq_iff}
use swifty.Base.{
  ℕ, zero, suc, ◌<◌, ◌≡◌, ◌≢◌, refl, Bool, true, false, not, ◌&&◌, ◌||◌, some, String, List, [],
  ◌∷◌, ◌==◌, arith, if◌then◌else◌,
}
use swifty.S3.Policy.Actions.{
  Action, code, list_all_my_buckets, create_bucket, delete_bucket, delete_bucket_policy,
  object_owner_override_to_bucket_owner, get_object,
}
use swifty.S3.Policy.{
  Policy, is_canned, resource_any, root_policy, bucket_policy, web_policy, is_root, may_access,
  first_is_any, allowed, all_set, to_mgo, same_bytes,
}

-- Every action's bit number is within the two words.
code-lt : (a : Action) → code a < 128
unfolding code
code-lt a = ground arith

-- A test that each bit number passes, from the top one down.
every_bit : (ℕ → Bool) → ℕ → Bool
every_bit test zero = true
every_bit test (suc top) = if test top then every_bit test top else false

every_bit-at :
    (test : ℕ → Bool) (top bit : ℕ) → bit < top → every_bit test top ≡ true → test bit ≡ true
unfolding every_bit
every_bit-at test zero bit l passed = ground arith
every_bit-at test (suc top) bit l passed = ground (arith, every_bit-at test top bit)

abbrev bool_eq : Bool → Bool → Bool
bool_eq true b = b
bool_eq false b = not b

bool_eq_sound : (a b : Bool) → bool_eq a b ≡ true → a ≡ b
bool_eq_sound a b h = ground arith

-- The actions on an account or on who owns what: a bucket's own key has none of them.
pub is_account_action : ℕ → Bool
unfolding code
is_account_action n =
    n == code list_all_my_buckets
    || n == code create_bucket
    || n == code delete_bucket
    || n == code delete_bucket_policy
    || n == code object_owner_override_to_bucket_owner

root_table : every_bit (λ n. allowed root_policy n) 128 ≡ true
unfolding every_bit allowed root_policy
root_table = refl

bucket_table :
    (b : String)
    → every_bit (λ n. bool_eq (allowed (bucket_policy b) n) (not (is_account_action n))) 128 ≡ true
unfolding every_bit allowed bucket_policy is_account_action
bucket_table b = refl

web_table :
    (b : String)
    → every_bit (λ n. bool_eq (allowed (web_policy b) n) (n == code get_object)) 128 ≡ true
unfolding every_bit allowed web_policy code
web_table b = refl

same_bytes_sound : (xs ys : List ℕ) → same_bytes xs ys ≡ true → xs ≡ ys
unfolding same_bytes
same_bytes_sound [] [] h = refl
same_bytes_sound [] (y ∷ ys) h = cc
same_bytes_sound (x ∷ xs) [] h = cc
same_bytes_sound (x ∷ xs) (y ∷ ys) h = ground (arith, same_bytes_sound xs ys)

ne-any : (b : String) → b ≢ resource_any → str_eq b resource_any ≡ false
ne-any b h = ground (arith, eq_iff b resource_any)

and_true : (a b : Bool) → a && b ≡ true → (a ≡ true) × (b ≡ true)
and_true a b h = ground arith

allowed-action : (p q : Policy) (n : ℕ) → p.action ≡ q.action → allowed p n ≡ allowed q n
unfolding allowed
allowed-action p q n h = rw h

-- A policy that isRoot accepts allows every action on every resource.
is_root-grants :
    (p : Policy) (a : Action) (r : String)
    → is_root p ≡ true
    → (allowed p (code a) ≡ true) × (may_access p r ≡ true)
unfolding is_root may_access
is_root-grants p a r h = (
  rw (allowed-action p root_policy (code a) same)
      (every_bit-at _ 128 (code a) (code-lt a) root_table),
  rw (any, may_access),
)
  where
    both : (same_bytes p.action (to_mgo all_set) ≡ true) × (first_is_any p.resource ≡ true)
    both =
        and_true (same_bytes p.action (to_mgo all_set)) (first_is_any p.resource)
          (and_true (is_canned (some p))
            (same_bytes p.action (to_mgo all_set) && first_is_any p.resource) h).1

    any : first_is_any p.resource ≡ true
    any = both.1

    same : p.action ≡ root_policy.action
    same = unfold root_policy in same_bytes_sound p.action (to_mgo all_set) both.0

pub root_policy-is_root : is_root root_policy ≡ true
unfolding is_root root_policy
root_policy-is_root = refl

-- The key of a bucket that is not called "*" reaches that bucket alone, may do there all but the five
-- actions on accounts and owners, and is not taken for a root key.
pub bucket_policy-grants :
    (b r : String) (a : Action)
    → b ≢ resource_any
    → (allowed (bucket_policy b) (code a) ≡ not (is_account_action (code a)))
      × (may_access (bucket_policy b) r ≡ str_eq b r)
      × (is_root (bucket_policy b) ≡ false)
unfolding may_access is_root bucket_policy
bucket_policy-grants b r a h = (
  bool_eq_sound _ _ (every_bit-at _ 128 (code a) (code-lt a) (bucket_table b)),
  ground (arith, ne-any b h),
  refl,
)

-- A web site's reader may get objects and do nothing else, on that bucket alone.
web_policy-grants :
    (b r : String) (a : Action)
    → b ≢ resource_any
    → (allowed (web_policy b) (code a) ≡ (code a == code get_object))
      × (may_access (web_policy b) r ≡ str_eq b r)
unfolding may_access web_policy
web_policy-grants b r a h = (
  bool_eq_sound _ _ (every_bit-at _ 128 (code a) (code-lt a) (web_table b)),
  ground (arith, ne-any b h),
)

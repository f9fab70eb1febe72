-- ===== src/S3/Policy.antt =====
-- src/s3/policy.go and src/s3/mgo/bits.go: what an account, a bucket key or a web site may do.
pub mod Actions
pub mod Access
pub mod Codec
use Prim.Native.Nat.{bit_and, bit_xor}
use text.Mathlib.Text.{◌==◌ as str_eq}
use swifty.Base.{
  ℕ, zero, suc, ◌+◌, ◌-◌, ◌*◌, ◌/◌, ◌%◌, ◌^◌, Bool, true, false, not, ◌&&◌, ◌||◌, Option, none,
  some, String, List, [], ◌∷◌, ◌++◌, ltb, ◌==◌, if◌then◌else◌,
}
use Actions.{
  Action, code, list_all_my_buckets, create_bucket, delete_bucket, delete_bucket_policy,
  object_owner_override_to_bucket_owner, get_object,
}

-- ActionBits, two words of 64 bits.
pub record ActionBits : Type 0 where
  pub low : ℕ
  pub high : ℕ

-- ActionBitsMgo: 16 bytes.
abbrev pub ActionBitsMgo : Type 0
ActionBitsMgo = List ℕ

-- binary.LittleEndian.PutUint64 and Uint64, over `n` bytes.
unfoldable pub put_bytes : ℕ → ℕ → List ℕ
put_bytes zero v = []
put_bytes (suc n) v = v % 256 ∷ put_bytes n (v / 256)

unfoldable pub get_bytes : ℕ → List ℕ → ℕ × List ℕ
get_bytes zero bs = (0, bs)
get_bytes (suc n) [] = (0, [])
get_bytes (suc n) (b ∷ bs) = let (v, rest) = get_bytes n bs in (b + 256 * v, rest)

unfoldable pub to_mgo : ActionBits → ActionBitsMgo
to_mgo v = put_bytes 8 v.low ++ put_bytes 8 v.high

unfoldable pub to_swy : ActionBitsMgo → ActionBits
to_swy b =
    let (low, rest) = get_bytes 8 b in
    let (high, end) = get_bytes 8 rest in record { low = low; high = high }

pub record Policy : Type 0 where
  pub effect : String
  pub action : ActionBitsMgo
  pub resource : List String

abbrev pub policy_allow : String
policy_allow = "Allow"

abbrev pub resource_any : String
resource_any = "*"

abbrev full_word : ℕ
full_word = 0xffffffffffffffff

-- `1 << n` in a word of 64 bits.
unfoldable pub shl_one : ℕ → ℕ
shl_one n = if ltb n 64 then 2 ^ n else 0

unfoldable pub all_set : ActionBits
all_set = record { low = full_word; high = full_word }

-- The constants are or-ed together; they are different bits, so their sum is the same word.
unfoldable pub per_bucket : ActionBits
unfolding shl_one code
per_bucket = record {
  low = bit_xor full_word (shl_one (code list_all_my_buckets));
  high = bit_xor full_word (
      shl_one (code create_bucket - 64)
      + shl_one (code delete_bucket - 64)
      + shl_one (code delete_bucket_policy - 64)
      + shl_one (code object_owner_override_to_bucket_owner - 64));
}

unfoldable pub web : ActionBits
unfolding shl_one code
web = record { low = shl_one (code get_object); high = 0 }

unfoldable pub root_policy : Policy
unfolding to_mgo put_bytes all_set
root_policy = record {
  effect = policy_allow;
  action = to_mgo all_set;
  resource = resource_any ∷ [];
}

unfoldable pub bucket_policy : String → Policy
unfolding to_mgo put_bytes per_bucket
bucket_policy bname = record {
  effect = policy_allow;
  action = to_mgo per_bucket;
  resource = bname ∷ [];
}

unfoldable pub web_policy : String → Policy
unfolding to_mgo put_bytes web
web_policy bname = record { effect = policy_allow; action = to_mgo web; resource = bname ∷ [] }

abbrev is_empty : List String → Bool
is_empty [] = true
is_empty (x ∷ xs) = false

unfoldable pub is_canned : Option Policy → Bool
is_canned none = false
is_canned (some p) = str_eq p.effect policy_allow && not (is_empty p.resource)

unfoldable pub same_bytes : List ℕ → List ℕ → Bool
same_bytes [] [] = true
same_bytes (x ∷ xs) (y ∷ ys) = x == y && same_bytes xs ys
same_bytes _ _ = false

abbrev pub first_is_any : List String → Bool
first_is_any [] = false
first_is_any (x ∷ xs) = str_eq x resource_any

-- isRoot on a policy that is there.
unfoldable pub is_root : Policy → Bool
unfolding is_canned same_bytes to_mgo put_bytes all_set
is_root p = is_canned (some p) && (same_bytes p.action (to_mgo all_set) && first_is_any p.resource)

unfoldable pub listed : String → List String → Bool
listed r [] = false
listed r (x ∷ xs) = str_eq x r || listed r xs

unfoldable pub may_access : Policy → String → Bool
unfolding listed
may_access p r = first_is_any p.resource || listed r p.resource

unfoldable pub allowed : Policy → ℕ → Bool
unfolding to_swy get_bytes shl_one
allowed p action =
    let bits = to_swy p.action in
    if ltb action 64
    then not (bit_and bits.low (shl_one action) == 0)
    else not (bit_and bits.high (shl_one (action - 64)) == 0)

-- ===== src/Common/Bitmask.antt =====
-- src/common/bitmask.go: sets of small numbers in a word of 32 bits.
use Prim.Native.Nat.{bit_and, bit_or}
use swifty.Base.{
  ℕ, ◌≡◌, ◌∙◌, ap, sym, ◌^◌, ◌<◌, Bool, true, false, not, ltb, ◌==◌, if◌then◌else◌, arith, zero,
  suc, refl, ltb→lt, Bool-cases, inl, inr,
}
use swifty.Base.Bits.{digit, digit-lt, digit-bit_or, digit-pow, digit-zero, mask_iff}

abbrev pub Bitmask : Type 0
Bitmask = ℕ

-- `1 << bit` in 32 bits.
unfoldable pub b2m : ℕ → Bitmask
b2m bit = if ltb bit 32 then 2 ^ bit else 0

-- Bitmask.Set.
unfoldable pub set : Bitmask → ℕ → Bitmask
unfolding b2m
set b bit = bit_or b (b2m bit)

-- Bitmask.Test.
unfoldable pub test : Bitmask → ℕ → Bool
unfolding b2m
test b bit = not (bit_and b (b2m bit) == 0)

-- Bitmask.Fill.
unfoldable pub fill : Bitmask
fill = 0xFFFFFFFF

test-digit : (b j : ℕ) → ltb j 32 ≡ true → test b j ≡ not (digit b j == 0)
unfolding test
test-digit b j h = rw h (ap not (mask_iff b j))

pub test-set :
    (b i j : ℕ)
    → ltb i 32 ≡ true
    → ltb j 32 ≡ true
    → test (set b i) j ≡ (if i == j then true else test b j)
unfolding set
test-set b i j h k =
    rw (test-digit (set b i) j k, test-digit b j k)
      (ground (arith, h, digit-bit_or b (2 ^ i) j, digit-pow i j, digit-lt b j))

pub test-empty : (j : ℕ) → ltb j 32 ≡ true → test 0 j ≡ false
test-empty j h = rw (test-digit 0 j h) (ground (arith, digit-zero j))

all_set : ℕ → Bool
all_set zero = true
all_set (suc n) = if test fill n then all_set n else false

all_set-test : (n j : ℕ) → all_set n ≡ true → j < n → test fill j ≡ true
unfolding all_set
all_set-test zero j h k = absurd (omega arith)
all_set-test (suc n) j h k = elim (Bool-cases (j == n)) [
  | inl e ↦ let same : n ≡ j = ground arith in ap (λ i. test fill i) (sym same) ∙ ground arith
  | inr e ↦ all_set-test n j (ground arith) (ground arith)
]

word_set : all_set 32 ≡ true
unfolding all_set test fill
word_set = refl

pub test-fill : (j : ℕ) → ltb j 32 ≡ true → test fill j ≡ true
test-fill j h = all_set-test 32 j word_set (ltb→lt j 32 h)

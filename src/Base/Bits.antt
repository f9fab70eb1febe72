-- ===== src/Base/Bits.antt =====
-- The binary digits of native numbers, and what `bit_or` and `bit_and` do to each.
use Prim.Native.Nat.{
  ℕ, zero, suc, ◌+◌, ◌*◌, ◌/◌, ◌%◌, ◌^◌, ◌≤◌, ◌<◌, min, max, bit_and, bit_or, digits,
  bit_and-bitwise, bit_or-bitwise,
}
use mathlib.Core.Path.{◌≡◌, refl, sym, ap, ◌∙◌}
use mathlib.Core.Logic.{inl, inr}
use native.Mathlib.Omega.{arith}
use native.Mathlib.Nat.{two-pow-succ}
use swifty.Base.Tests.{◌==◌, if◌then◌else◌, Bool-cases}

-- The digit at a place, the lowest at 0.
pub digit : ℕ → ℕ → ℕ
digit m zero = m % 2
digit m (suc j) = digit (m / 2) j

pub digit-zero : (j : ℕ) → digit 0 j ≡ 0
unfolding digit
digit-zero zero = refl
digit-zero (suc j) = digit-zero j

pub digit-lt : (m j : ℕ) → digit m j < 2
unfolding digit
digit-lt m zero = omega arith
digit-lt m (suc j) = digit-lt (m / 2) j

-- A number is 0 when all its digits are.
zero_of_digits : (n m : ℕ) → m ≤ n → ((j : ℕ) → digit m j ≡ 0) → m ≡ 0
unfolding digit
zero_of_digits zero m h d = omega arith
zero_of_digits (suc n) zero h d = refl
zero_of_digits (suc n) (suc m) h d =
    omega (arith, d 0, zero_of_digits n (suc m / 2) (omega arith) (λ j. d (suc j)))

module _ (z : ℕ → ℕ) (f : ℕ → ℕ → ℕ) (small : (x y : ℕ) → x < 2 → y < 2 → f x y < 2)
    (rest : (b j : ℕ) → digit (z b) j ≡ f 0 (digit b j)) where
  -- The operation of each digit.
  digit-digits : (n a b j : ℕ) → a ≤ n → digit (digits z f n a b) j ≡ f (digit a j) (digit b j)
  unfolding digit
  digit-digits zero zero b j h = rest b j ∙ ap (λ x. f x (digit b j)) (sym (digit-zero j))
  digit-digits zero (suc a) b j h = absurd (omega arith)
  digit-digits (suc n) zero b j h = rest b j ∙ ap (λ x. f x (digit b j)) (sym (digit-zero j))
  digit-digits (suc n) (suc a) b zero h =
      omega (arith, small (suc a % 2) (b % 2) (omega arith) (omega arith))
  digit-digits (suc n) (suc a) b (suc j) h =
      let d : f (suc a % 2) (b % 2) < 2 = small (suc a % 2) (b % 2) (omega arith) (omega arith) in
      let x : ℕ = digits z f n (suc a / 2) (b / 2) in
      let half : (x * 2 + f (suc a % 2) (b % 2)) / 2 ≡ x = omega arith in
      ap (λ y. digit y j) half ∙ digit-digits n (suc a / 2) (b / 2) j (omega arith)

pub digit-bit_or : (a b j : ℕ) → digit (bit_or a b) j ≡ max (digit a j) (digit b j)
digit-bit_or a b j =
    ap (λ x. digit x j) (bit_or-bitwise a b)
    ∙ digit-digits (λ x. x) max (λ x y p q. omega arith) (λ b j. omega arith) a a b j (omega arith)

digit-bit_and : (a b j : ℕ) → digit (bit_and a b) j ≡ min (digit a j) (digit b j)
digit-bit_and a b j =
    ap (λ x. digit x j) (bit_and-bitwise a b)
    ∙ digit-digits (λ x. 0) min (λ x y p q. omega arith) (λ b j. omega (arith, digit-zero j)) a a b
        j (omega arith)

pub digit-pow : (i j : ℕ) → digit (2 ^ i) j ≡ (if i == j then 1 else 0)
unfolding digit
digit-pow zero zero = refl
digit-pow zero (suc j) = digit-zero j ∙ ground arith
digit-pow (suc i) zero = ground (arith, two-pow-succ i)
digit-pow (suc i) (suc j) =
    let half : 2 ^ suc i / 2 ≡ 2 ^ i = omega (arith, two-pow-succ i) in
    ap (λ y. digit y j) half ∙ digit-pow i j ∙ ground arith

off_at : (m j k : ℕ) → digit m j ≡ 0 → min (digit m k) (digit (2 ^ j) k) ≡ 0
off_at m j k off = elim (Bool-cases (j == k)) [
  | inl e ↦
      let same : j ≡ k = ground arith in
      let there : digit m k ≡ 0 = ap (λ x. digit m x) (sym same) ∙ off in omega arith
  | inr e ↦ let none_there : digit (2 ^ j) k ≡ 0 = digit-pow j k ∙ rw e in omega arith
]

-- A mask of one place leaves 0 just where the digit there is 0.
pub mask_iff : (m j : ℕ) → (bit_and m (2 ^ j) == 0) ≡ (digit m j == 0)
mask_iff m j = elim (Bool-cases (digit m j == 0)) [
  | inl p ↦
      let off : digit m j ≡ 0 = ground arith in
      let gone : bit_and m (2 ^ j) ≡ 0 =
        zero_of_digits (bit_and m (2 ^ j)) (bit_and m (2 ^ j)) (omega arith)
          (λ k. digit-bit_and m (2 ^ j) k ∙ off_at m j k off) in
      ground arith
  | inr p ↦
      let at : digit (bit_and m (2 ^ j)) j ≡ min (digit m j) (digit (2 ^ j) j) =
        digit-bit_and m (2 ^ j) j in
      let one : digit (2 ^ j) j ≡ 1 = digit-pow j j ∙ ground arith in
      elim (Bool-cases (bit_and m (2 ^ j) == 0)) [
        | inl q ↦
            let gone : bit_and m (2 ^ j) ≡ 0 = ground arith in
            absurd (ground (arith, ap (λ x. digit x j) gone, digit-zero j))
        | inr q ↦ ground arith
      ]
]

-- ===== src/Base/Bytes.antt =====
-- Texts as lists of bytes: equality, the order of strings, and strings.Index.
use Prim.Native.Nat.{ℕ, suc}
use mathlib.Core.Path.{◌≡◌, refl, ap}
use mathlib.Core.Logic.{◌↔◌}
use mathlib.Core.Bool.{Bool, true, false, ◌&&◌, ◌||◌}
use mathlib.Core.List.{List, [], ◌∷◌, ◌++◌}
use mathlib.Core.Option.{Option, none, some}
use native.Mathlib.Omega.{arith}
use swifty.Base.Tests.{◌==◌, ltb, if◌then◌else◌}

abbrev pub Bytes : Type 0
Bytes = List ℕ

unfoldable pub same : Bytes → Bytes → Bool
same [] [] = true
same [] (b ∷ bs) = false
same (a ∷ as_) [] = false
same (a ∷ as_) (b ∷ bs) = a == b && same as_ bs

-- a <= b, byte by byte.
unfoldable pub le_bytes : Bytes → Bytes → Bool
le_bytes [] bs = true
le_bytes (a ∷ as_) [] = false
le_bytes (a ∷ as_) (b ∷ bs) = ltb a b || (a == b && le_bytes as_ bs)

-- strings.HasPrefix.
unfoldable pub has_prefix : Bytes → Bytes → Bool
has_prefix s [] = true
has_prefix [] (b ∷ p) = false
has_prefix (a ∷ s) (b ∷ p) = a == b && has_prefix s p

abbrev later : Option ℕ → Option ℕ
later none = none
later (some n) = some (suc n)

-- strings.Index.
unfoldable pub index : Bytes → Bytes → Option ℕ
unfolding has_prefix
index [] t = if has_prefix [] t then some 0 else none
index (a ∷ s) t = let rest = index s t in if has_prefix (a ∷ s) t then some 0 else later rest

pub same_iff : (a b : Bytes) → (same a b ≡ true) ↔ (a ≡ b)
unfolding same
same_iff [] [] = grind arith
same_iff [] (y ∷ b) = grind arith
same_iff (x ∷ a) [] = grind arith
same_iff (x ∷ a) (y ∷ b) = let (f, g) = same_iff a b in grind (arith, f, g)

pub same_refl : (a : Bytes) → same a a ≡ true
same_refl a = let (f, g) = same_iff a a in g refl

pub same_left : (a b c : Bytes) → same a b ≡ true → same a c ≡ same b c
same_left a b c h = let (f, g) = same_iff a b in ap (λ x. same x c) (f h)

pub same_right : (a b c : Bytes) → same b c ≡ true → same a b ≡ same a c
same_right a b c h = let (f, g) = same_iff b c in ap (same a) (f h)

pub same_sym : (a b : Bytes) → same a b ≡ same b a
unfolding same
same_sym [] [] = refl
same_sym [] (y ∷ b) = refl
same_sym (x ∷ a) [] = refl
same_sym (x ∷ a) (y ∷ b) = ground (arith, same_sym a b)

pub le_bytes_antisymm : (a b : Bytes) → le_bytes a b ≡ true → le_bytes b a ≡ true → a ≡ b
unfolding le_bytes
le_bytes_antisymm [] [] h k = refl
le_bytes_antisymm [] (y ∷ b) h k = ground arith
le_bytes_antisymm (x ∷ a) [] h k = ground arith
le_bytes_antisymm (x ∷ a) (y ∷ b) h k = ground (arith, le_bytes_antisymm a b)

pub le_bytes_total : (a b : Bytes) → le_bytes a b ≡ false → le_bytes b a ≡ true
unfolding le_bytes
le_bytes_total [] b h = ground arith
le_bytes_total (x ∷ a) [] h = refl
le_bytes_total (x ∷ a) (y ∷ b) h = ground (arith, le_bytes_total a b)

pub le_bytes_trans :
    (a b c : Bytes) → le_bytes a b ≡ true → le_bytes b c ≡ true → le_bytes a c ≡ true
unfolding le_bytes
le_bytes_trans [] b c h k = refl
le_bytes_trans (x ∷ a) [] c h k = ground arith
le_bytes_trans (x ∷ a) (y ∷ b) [] h k = ground arith
le_bytes_trans (x ∷ a) (y ∷ b) (z ∷ c) h k = ground (arith, le_bytes_trans a b c)

-- strings.SplitN at a byte, in two: what follows the first one, if there is one.
pub split_2 : ℕ → Bytes → Bytes × Option Bytes
split_2 c [] = ([], none)
split_2 c (b ∷ s) =
    let (first, rest) = split_2 c s in if b == c then ([], some s) else (b ∷ first, rest)

unfoldable pub has_byte : ℕ → Bytes → Bool
has_byte c [] = false
has_byte c (b ∷ s) = b == c || has_byte c s

pub split_2-found :
    (c : ℕ) (a s : Bytes) → has_byte c a ≡ false → split_2 c (a ++ (c ∷ s)) ≡ (a, some s)
unfolding split_2 has_byte
split_2-found c [] s h = ground arith
split_2-found c (b ∷ a) s h = ground (arith, split_2-found c a s)

pub split_2-missing : (c : ℕ) (a : Bytes) → has_byte c a ≡ false → split_2 c a ≡ (a, none)
unfolding split_2 has_byte
split_2-missing c [] h = refl
split_2-missing c (b ∷ a) h = ground (arith, split_2-missing c a)

abbrev pub join_2 : ℕ → Bytes × Option Bytes → Bytes
join_2 c (a, none) = a
join_2 c (a, some s) = a ++ (c ∷ s)

pub split_2-joins : (c : ℕ) (s : Bytes) → join_2 c (split_2 c s) ≡ s
unfolding split_2
split_2-joins c [] = refl
split_2-joins c (b ∷ s) = ground (arith, split_2-joins c s)

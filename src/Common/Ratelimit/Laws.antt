-- ===== src/Common/Ratelimit/Laws.antt =====
-- The bucket's invariant, kept by every operation, and what each operation does to the level.
use swifty.Base.{ℕ, ◌+◌, ◌^◌, ◌≤◌, ◌<◌, ◌≡◌, List, [], ◌∷◌, arith}
use swifty.Common.Ratelimit.{Rl, put, get, update, make_rl_base}

pub record IsValid (rl : Rl) : Type 0 where
  pub capped : rl.bts ≤ rl.burst
  pub room : 0 < rl.burst
  pub word : rl.burst < 2 ^ 64

-- One call of the package, with the arguments that it takes and what the clock says.
pub data Op : Type 0 where
  puts : Op
  gets : ℕ → Op
  updates : ℕ → ℕ → ℕ → Op

pub apply : Rl → Op → Rl
apply rl puts = put rl
apply rl (gets now) = (get rl now).0
apply rl (updates now burst eps) = update rl now burst eps

pub run : Rl → List Op → Rl
run rl [] = rl
run rl (o ∷ os) = run (apply rl o) os

-- The bursts that are configured leave room for the `+ 1`.
abbrev pub Fits : List Op → Type 0
Fits [] = Unit {0}
Fits (puts ∷ os) = Fits os
Fits (gets now ∷ os) = Fits os
Fits (updates now burst eps ∷ os) = (burst + 1 < 2 ^ 64) × Fits os

pub get-IsValid : (rl : Rl) (now : ℕ) → IsValid rl → IsValid (get rl now).0
unfolding get
get-IsValid rl now v = ground arith

pub put-IsValid : (rl : Rl) → IsValid rl → IsValid (put rl)
unfolding put
put-IsValid rl v = ground arith

update-IsValid :
    (rl : Rl) (now burst eps : ℕ) → burst + 1 < 2 ^ 64 → IsValid (update rl now burst eps)
unfolding update
update-IsValid rl now burst eps h = ground arith

run-IsValid' : (rl : Rl) (os : List Op) → Fits os → IsValid rl → IsValid (run rl os)
unfolding run apply
run-IsValid' rl [] f v = v
run-IsValid' rl (puts ∷ os) f v = run-IsValid' (put rl) os f (put-IsValid rl v)
run-IsValid' rl (gets now ∷ os) f v = run-IsValid' (get rl now).0 os f (get-IsValid rl now v)
run-IsValid' rl (updates now burst eps ∷ os) f v =
    run-IsValid' (update rl now burst eps) os f.1 (update-IsValid rl now burst eps f.0)

-- A bucket made by MakeRLBase holds at most `burst` tokens, and its capacity is not 0, after any
-- calls of Put, Get and Update whose bursts leave room for the `+ 1` that the package adds.
pub run-IsValid :
    (now burst eps base : ℕ) (os : List Op)
    → burst + 1 < 2 ^ 64
    → Fits os
    → IsValid (run (make_rl_base now burst eps base) os)
run-IsValid now burst eps base os h f =
    run-IsValid' (make_rl_base now burst eps base) os f (unfold make_rl_base in ground arith)

-- A Put after a Get that found tokens restores the bucket.
pub put-get : (rl : Rl) (now : ℕ) → IsValid rl → 0 < rl.bts → put (get rl now).0 ≡ rl
unfolding put get
put-get rl now v h = ground arith

-- ===== src/Common/Ratelimit/Rate.antt =====
-- How many tokens a run of Get can hand out.
use native.Mathlib.Nat.{div-add-mod, mod-lt, mul-div-le, div-le_of_le-mul}
use swifty.Base.{
  ℕ, ◌+◌, ◌-◌, ◌*◌, ◌/◌, ◌^◌, ◌≤◌, ◌<◌, ◌≡◌, refl, ap, Bool, true, false, List, [], ◌∷◌, arith, ltb,
  if◌then◌else◌,
}
use swifty.Common.Ratelimit.{Rl, get, advance}
use swifty.Common.Ratelimit.Laws.{IsValid}

abbrev pub count : Bool → ℕ
count true = 1
count false = 0

-- How many of the calls are granted, made at the times given.
unfoldable pub grants : Rl → List ℕ → ℕ
grants rl [] = 0
grants rl (now ∷ later) = count (get rl now).1 + grants (get rl now).0 later

pub record IsSteady (rl : Rl) : Type 0 where
  pub valid : IsValid rl
  pub slow : rl.burst ≤ rl.eps
  pub some_time : 0 < rl.base
  pub no_wrap : rl.base * rl.eps < 2 ^ 63

div_bound : (n m : ℕ) → 0 < m → n < m * (n / m) + m
div_bound n m h = omega (arith, div-add-mod n m, mod-lt n h)

-- The numbers of a partial refill: `d` is the time since the last one.
refill_numbers :
    (d eps base : ℕ)
    → 0 < base
    → 0 < eps
    → let nb = d * eps / base in
      (base * nb ≤ d * eps) × (base * nb / eps ≤ d) × (base * nb < eps * (base * nb / eps) + eps)
refill_numbers d eps base b e = (
  mul-div-le (d * eps) base,
  div-le_of_le-mul eps (omega (arith, mul-div-le (d * eps) base)),
  div_bound (base * (d * eps / base)) eps e,
)

-- What one Get at `now` leaves, from a bucket whose last refill is not ahead of the clock.
pub record Paid (rl : Rl) (now : ℕ) (r : Rl × Bool) : Type 0 where
  pub paid :
      rl.base * r.0.bts + rl.eps * (now - r.0.t) + rl.base * count r.1
      ≤ rl.base * rl.bts + rl.eps * (now - rl.t) + rl.eps * count r.1
  pub past : r.0.t ≤ now
  pub same_base : r.0.base ≡ rl.base
  pub same_eps : r.0.eps ≡ rl.eps
  pub same_burst : r.0.burst ≡ rl.burst

-- The four ways in which Get ends, for a bucket that meets the bounds.
get_token :
    (rl : Rl) (now : ℕ)
    → IsSteady rl
    → 0 < rl.bts
    → get rl now ≡ (record rl { bts = rl.bts - 1 }, true)
unfolding get
get_token rl now s h = ground arith

get_reset :
    (rl : Rl) (now : ℕ)
    → IsSteady rl
    → rl.bts ≡ 0
    → rl.base ≤ now - rl.t
    → get rl now ≡ (record rl { bts = rl.burst - 1; t = now }, true)
unfolding get
get_reset rl now s z h = ground arith

abbrev pub tokens : Rl → ℕ → ℕ
tokens rl now = (now - rl.t) * rl.eps / rl.base

wraps_not :
    (rl : Rl) (now : ℕ) → IsSteady rl → now - rl.t < rl.base → (now - rl.t) * rl.eps < 2 ^ 63
wraps_not rl now s h = grind arith

get_denied :
    (rl : Rl) (now : ℕ)
    → IsSteady rl
    → rl.bts ≡ 0
    → now - rl.t < rl.base
    → tokens rl now ≡ 0
    → get rl now ≡ (rl, false)
unfolding get
get_denied rl now s z h e = ground (arith, wraps_not rl now s h)

get_refilled :
    (rl : Rl) (now : ℕ)
    → IsSteady rl
    → rl.bts ≡ 0
    → now - rl.t < rl.base
    → 0 < tokens rl now
    → get rl now ≡ (
      record rl {
        bts = (if ltb rl.burst (tokens rl now) then rl.burst else tokens rl now) - 1;
        t = rl.t + rl.base * tokens rl now / rl.eps;
      },
      true,
    )
unfolding get advance
get_refilled rl now s z h e =
    ground (arith, wraps_not rl now s h, mul-div-le ((now - rl.t) * rl.eps) rl.base)

mul-le-mul : (a : ℕ) {b c : ℕ} → b ≤ c → a * b ≤ a * c
mul-le-mul a h = grind arith

pub mul_split : (a x y z : ℕ) → x + y ≡ z → a * x + a * y ≡ a * z
mul_split a x y z h = omega (arith, ap (λ (n : ℕ). a * n) h)

-- One token fewer is one `base` of credit less.
one_fewer : (base bts : ℕ) → 0 < bts → base * (bts - 1) + base ≡ base * bts
one_fewer base bts h = omega (arith, mul_split base (bts - 1) 1 bts (omega arith))

pub get_token-Paid :
    (rl : Rl) (now : ℕ) → IsSteady rl → rl.t ≤ now → 0 < rl.bts → Paid rl now (get rl now)
get_token-Paid rl now s p h = rw (get_token rl now s h) (record {
  paid = omega (arith, one_fewer rl.base rl.bts h);
  past = p;
  same_base = refl;
  same_eps = refl;
  same_burst = refl;
})

pub get_reset-Paid :
    (rl : Rl) (now : ℕ)
    → IsSteady rl
    → rl.t ≤ now
    → rl.bts ≡ 0
    → rl.base ≤ now - rl.t
    → Paid rl now (get rl now)
get_reset-Paid rl now s p z h = rw (get_reset rl now s z h) (record {
  paid = omega (
    arith,
    one_fewer rl.base rl.burst s.valid.room,
    mul-le-mul rl.base s.slow,
    mul-le-mul rl.eps h,
    mul-le-mul rl.eps {b = now - now} {c = 0} (omega arith),
  );
  past = omega arith;
  same_base = refl;
  same_eps = refl;
  same_burst = refl;
})

pub get_denied-Paid :
    (rl : Rl) (now : ℕ)
    → IsSteady rl
    → rl.t ≤ now
    → rl.bts ≡ 0
    → now - rl.t < rl.base
    → tokens rl now ≡ 0
    → Paid rl now (get rl now)
get_denied-Paid rl now s p z h e =
    rw (get_denied rl now s z h e) (record {
      paid = omega arith;
      past = p;
      same_base = refl;
      same_eps = refl;
      same_burst = refl;
    })

pub get_refilled-Paid :
    (rl : Rl) (now : ℕ)
    → IsSteady rl
    → rl.t ≤ now
    → rl.bts ≡ 0
    → now - rl.t < rl.base
    → 0 < tokens rl now
    → Paid rl now (get rl now)
get_refilled-Paid rl now s p z h e = rw (get_refilled rl now s z h e) (record {
  paid = omega (
    arith,
    numbers,
    one_fewer rl.base level some_level,
    mul-le-mul rl.base {b = level} {c = tokens rl now} (ground arith),
    mul_split rl.eps (now - (rl.t + later)) later (now - rl.t) (omega (arith, numbers)),
    ap (λ (n : ℕ). rl.base * n) z,
  );
  past = omega (arith, numbers);
  same_base = refl;
  same_eps = refl;
  same_burst = refl;
})
  where
    level : ℕ
    level = if ltb rl.burst (tokens rl now) then rl.burst else tokens rl now

    later : ℕ
    later = rl.base * tokens rl now / rl.eps

    some_level : 0 < level
    some_level = ground arith

    numbers :
        (rl.base * tokens rl now ≤ (now - rl.t) * rl.eps)
        × (later ≤ now - rl.t)
        × (rl.base * tokens rl now < rl.eps * later + rl.eps)
    numbers =
        refill_numbers (now - rl.t) rl.eps rl.base s.some_time (omega (arith, s.slow, s.valid.room))

-- ===== src/Gate/Limits/Refusal.antt =====
-- When a call is not let through (src/gate/fdmdat.go).
use swifty.Base.{
  ℕ, ◌+◌, ◌-◌, ◌*◌, ◌%◌, ◌^◌, ◌<◌, ◌≡◌, ◌≢◌, ◌⊎◌, ◌↔◌, inl, inr, refl, true, false, Option, none,
  some, arith, Bool-cases,
}
use swifty.Base.Floats.{Floats}
use swifty.Common.Ratelimit.{Rl, get}
use swifty.Gate.Stats.{gbs_of, sub64}
use swifty.Gate.Limits.{Buckets, passes, ratelimited, Usage, rslimited}

-- A bucket is there and has no token, or it has one, or there is no bucket.
abbrev pub Refuses : Option Rl → ℕ → Type 0
Refuses o now = (rl : Rl) × (o ≡ some rl) × ((get rl now).1 ≡ false)

abbrev pub Grants : Option Rl → ℕ → Type 0
Grants none now = Unit {0}
Grants (some rl) now = (get rl now).1 ≡ true

passes_cases :
    (o : Option Rl) (now : ℕ)
    → ((passes o now).1 ≡ true) × Grants o now ⊎ ((passes o now).1 ≡ false) × Refuses o now
passes_cases none now = inl (refl, tt)
passes_cases (some rl) now = elim (Bool-cases (get rl now).1) [
  | inl g ↦ inl (g, g)
  | inr g ↦ inr (g, (rl, refl, g))
]

-- One of the buckets has no token, or none of them.
abbrev pub TooMany : Buckets → ℕ × ℕ × ℕ → Type 0
TooMany b clock = Refuses b.own clock.0 ⊎ (Refuses b.tenant clock.1 ⊎ Refuses b.common clock.2)

abbrev pub Granted : Buckets → ℕ × ℕ × ℕ → Type 0
Granted b clock = Grants b.own clock.0 × Grants b.tenant clock.1 × Grants b.common clock.2

pub ratelimited_cases :
    (b : Buckets) (clock : ℕ × ℕ × ℕ)
    → let (b', limited) = ratelimited b clock.0 clock.1 clock.2 in
      (limited ≡ true) × TooMany b clock ⊎ (limited ≡ false) × Granted b clock
unfolding ratelimited
ratelimited_cases b clock = elim (passes_cases b.own clock.0) [
  | inr (e, r) ↦ rw e (inl (refl, inl r))
  | inl (e, g) ↦ elim (passes_cases b.tenant clock.1) [
    | inr (e', r) ↦ rw (e, e') (inl (refl, inr (inl r)))
    | inl (e', g') ↦ elim (passes_cases b.common clock.2) [
      | inr (e'', r) ↦ rw (e, e', e'') (inl (refl, inr (inr r)))
      | inl (e'', g'') ↦ rw (e, e', e'') (inr (refl, (g, g', g'')))
    ]
  ]
]

module _ (fl : Floats) where
  -- A limit is set and the use since its offset is above it: of GB*seconds, as float64s, or of bytes, mod 2^64.
  abbrev pub Exhausted : Usage fl → Type 0
  Exhausted u =
      (fl.differs u.gbs_limit (fl.of_uint64 0) ≡ true)
        × (fl.above
              (fl.minus (fl.quotient (fl.of_uint64 u.run_cost) (fl.of_uint64 (1024 * 1000000000)))
                u.gbs_off)
              u.gbs_limit
            ≡ true)
      ⊎ (u.bytes_limit ≢ 0) × (u.bytes_limit < (u.bytes_out + (2 ^ 64 - u.bytes_off)) % 2 ^ 64)

  pub rslimited_iff : (u : Usage fl) → (rslimited fl u ≡ true) ↔ Exhausted u
  unfolding rslimited sub64 gbs_of
  rslimited_iff u = ground arith

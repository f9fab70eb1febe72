-- ===== src/Common/Ratelimit.antt =====
-- src/common/ratelimit/rl.go: the token bucket. Times and durations are nanoseconds; the clock's
-- reading is an argument of each operation that asks for it. Each operation runs under the mutex.
pub mod Laws
pub mod Rate
pub mod Bound
use swifty.Base.{ℕ, ◌+◌, ◌-◌, ◌*◌, ◌/◌, ◌%◌, ◌^◌, Bool, true, false, ltb, leb, ◌==◌, if◌then◌else◌}

-- type RL, less its mutex. `eps` is how many tokens come in each `base`.
pub record Rl : Type 0 where
  pub bts : ℕ
  pub t : ℕ
  pub eps : ℕ
  pub burst : ℕ
  pub base : ℕ

abbrev pub u64 : ℕ → ℕ
u64 n = n % 2 ^ 64

-- `x--` of a uint.
abbrev pub dec64 : ℕ → ℕ
dec64 n = u64 (n + (2 ^ 64 - 1))

-- `rl.t.Add(base * Duration(nb) / Duration(eps))`: the product is an int64, which wraps to a negative
-- number, and the division rounds towards zero. (`eps` is below 2 ^ 63.)
pub advance : ℕ → ℕ → ℕ → ℕ
advance t prod eps = if ltb prod (2 ^ 63) then t + prod / eps else t - (2 ^ 64 - prod) / eps

unfoldable pub put : Rl → Rl
put rl = if ltb rl.bts rl.burst then record rl { bts = u64 (rl.bts + 1) } else rl

-- The `else` branch of an empty bucket: `nb` tokens have come since `rl.t`.
pub refill_some : Rl → ℕ → Rl × Bool
refill_some rl nb = if nb == 0 then (rl, false) else (
  record rl {
    bts = dec64 (if ltb rl.burst nb then rl.burst else nb);
    t = advance rl.t (u64 (rl.base * nb)) rl.eps;
  },
  true,
)

-- `now` is time.Now(); a duration is not negative, since the clock is monotonic.
unfoldable pub get : Rl → ℕ → Rl × Bool
unfolding refill_some
get rl now =
    if rl.bts == 0
    then (if leb rl.base (now - rl.t)
        then (record rl { bts = dec64 rl.burst; t = now }, true)
        else refill_some rl (u64 ((now - rl.t) * rl.eps) / rl.base))
    else (record rl { bts = dec64 rl.bts }, true)

unfoldable pub update : Rl → ℕ → ℕ → ℕ → Rl
update rl now burst eps = record rl {
  burst = u64 (burst + 1);
  bts = u64 (burst + 1);
  eps = eps;
  t = now;
}

unfoldable pub make_rl_base : ℕ → ℕ → ℕ → ℕ → Rl
make_rl_base now burst eps base = record {
  bts = u64 (burst + 1);
  t = now;
  eps = eps;
  burst = u64 (burst + 1);
  base = base;
}

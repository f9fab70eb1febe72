-- ===== src/Common/Ratelimit/Bound.antt =====
-- The rate that a run of Get calls cannot exceed.
use native.Mathlib.Decide.{dec_le}
use swifty.Base.{ℕ, zero, suc, ◌+◌, ◌-◌, ◌*◌, ◌≤◌, ◌≡◌, refl, List, [], ◌∷◌, arith}
use swifty.Common.Ratelimit.{Rl, get}
use swifty.Common.Ratelimit.Laws.{get-IsValid}
use swifty.Common.Ratelimit.Rate.{
  IsSteady, Paid, mul_split, grants, count, tokens, get_token-Paid, get_reset-Paid, get_denied-Paid,
  get_refilled-Paid,
}

-- The times do not fall, the last refill is not ahead of them, and none is past `last`.
abbrev pub Rising : ℕ → List ℕ → ℕ → Type 0
Rising t [] last = t ≤ last
Rising t (now ∷ later) last = (t ≤ now) × Rising now later last

Rising-weaken : {s t : ℕ} (ts : List ℕ) (last : ℕ) → s ≤ t → Rising t ts last → Rising s ts last
Rising-weaken [] last h r = omega arith
Rising-weaken (now ∷ ts) last h r = (omega arith, r.1)

Rising-le : (t : ℕ) (ts : List ℕ) (last : ℕ) → Rising t ts last → t ≤ last
Rising-le t [] last r = r
Rising-le t (now ∷ ts) last r = omega (arith, Rising-le now ts last r.1)

-- The four ways are all there are.
get-Paid : (rl : Rl) (now : ℕ) → IsSteady rl → rl.t ≤ now → Paid rl now (get rl now)
get-Paid rl now s p = go rl.bts refl (dec_le rl.base (now - rl.t)) (tokens rl now) refl
  where
    go :
        (b : ℕ)
        → rl.bts ≡ b
        → Dec (rl.base ≤ now - rl.t)
        → (n : ℕ) → tokens rl now ≡ n
        → Paid rl now (get rl now)
    go (suc b) e d n k = get_token-Paid rl now s p (omega arith)
    go zero e (yes d) n k = get_reset-Paid rl now s p e d
    go zero e (no d) zero k = get_denied-Paid rl now s p e (omega arith) k
    go zero e (no d) (suc n) k = get_refilled-Paid rl now s p e (omega arith) (omega arith)

IsSteady-get :
    (rl : Rl) (now : ℕ) → IsSteady rl → Paid rl now (get rl now) → IsSteady (get rl now).0
IsSteady-get rl now s p = record {
  valid = get-IsValid rl now s.valid;
  slow = omega (arith, p.same_burst, p.same_eps, s.slow);
  some_time = omega (arith, p.same_base, s.some_time);
  no_wrap = omega (arith, s.no_wrap, same);
}
  where
    same : (get rl now).0.base * (get rl now).0.eps ≡ rl.base * rl.eps
    same = cc (p.same_base, p.same_eps)

combine :
    (base eps b b' t t' now last c g : ℕ)
    → t ≤ now
    → t' ≤ now
    → now ≤ last
    → base * b' + eps * (now - t') + base * c ≤ base * b + eps * (now - t) + eps * c
    → base * g ≤ base * b' + eps * (last - t') + eps * g
    → base * (c + g) ≤ base * b + eps * (last - t) + eps * (c + g)
combine base eps b b' t t' now last c g h h' l paid ih = omega (
  arith,
  mul_split eps (now - t) (last - now) (last - t) (omega arith),
  mul_split eps (now - t') (last - now) (last - t') (omega arith),
)

-- Over the calls of Get made at the times `ts`, none after `last`, a bucket whose capacity is at most
-- `eps` and whose product base * eps is below 2 ^ 63 grants no more than its tokens and the time pay
-- for: base * grants ≤ base * tokens + eps * (elapsed time + grants), in token-nanoseconds. (The last
-- term is the rounding of `rl.t`, a nanosecond for each grant.)
pub grants-bound :
    (rl : Rl) (ts : List ℕ) (last : ℕ)
    → IsSteady rl
    → Rising rl.t ts last
    → rl.base * grants rl ts ≤ rl.base * rl.bts + rl.eps * (last - rl.t) + rl.eps * grants rl ts
unfolding grants
grants-bound rl [] last s r = omega arith
grants-bound rl (now ∷ ts) last s r =
    combine rl.base rl.eps rl.bts (get rl now).0.bts rl.t (get rl now).0.t now last
      (count (get rl now).1) (grants (get rl now).0 ts) r.0 p.past (Rising-le now ts last r.1)
      p.paid
      (rw p.same_base at (
        rw p.same_eps at (
          grants-bound (get rl now).0 ts last (IsSteady-get rl now s p)
            (Rising-weaken ts last p.past r.1))))
  where
    p : Paid rl now (get rl now)
    p = get-Paid rl now s r.0

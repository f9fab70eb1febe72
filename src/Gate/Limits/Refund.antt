-- ===== src/Gate/Limits/Refund.antt =====
-- A call that is not let through costs nothing.
use swifty.Base.{ℕ, ◌<◌, ◌≡◌, refl, ap, true, not, Option, none, some, arith}
use swifty.Common.Ratelimit.{Rl, get}
use swifty.Common.Ratelimit.Laws.{IsValid, put-get}
use swifty.Gate.Limits.{Buckets, passes, put_back, ratelimited}

-- A bucket that has a token, or none at all.
abbrev pub HasToken : Option Rl → Type 0
HasToken none = Unit {0}
HasToken (some rl) = IsValid rl × (0 < rl.bts)

restored : (o : Option Rl) (now : ℕ) → HasToken o → put_back (passes o now).0 ≡ o
restored none now h = refl
restored (some rl) now (v, h) = ap some (put-get rl now v h)

let_through : (o : Option Rl) (now : ℕ) → HasToken o → (passes o now).1 ≡ true
unfolding get
let_through none now h = refl
let_through (some rl) now (v, h) = ground arith

-- When the function's bucket and its tenant's have tokens, a call is refused only by the daemon's
-- bucket, and then both of the former are as they were.
pub ratelimited-refunds :
    (b : Buckets) (t1 t2 t3 : ℕ)
    → HasToken b.own
    → HasToken b.tenant
    → let (b', refused) = ratelimited b t1 t2 t3 in
      (refused ≡ not (passes b.common t3).1)
      × (refused ≡ true → (b'.own ≡ b.own) × (b'.tenant ≡ b.tenant))
unfolding ratelimited
ratelimited-refunds b t1 t2 t3 ho ht =
    let r1 = restored b.own t1 ho in
    let r2 = restored b.tenant t2 ht in
    let p1 = let_through b.own t1 ho in
    let p2 = let_through b.tenant t2 ht in rw (p1, p2) (ground arith)

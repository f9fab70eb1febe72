-- ===== src/Tests/Common.antt =====
-- The shared packages (src/common): runs of the token bucket and of the message queue.
use swifty.Base.{ℕ, ◌+◌, ◌-◌, ◌*◌, ◌≤◌, ◌≡◌, refl, Option, none, List, [], ◌∷◌, ◌++◌, map, arith}
use swifty.Common.Ratelimit.{Rl, get}
use swifty.Common.Ratelimit.Rate.{IsSteady, grants}
use swifty.Common.Ratelimit.Bound.{grants-bound}
use swifty.Common.Xqueue.{packet, eof, ok, send_bytes, recv_bytes}
use swifty.Common.Xqueue.Roundtrip.{received, recv-send}

-- Two tokens, at ten a second.
abbrev bucket : Rl
bucket = record { bts = 2; t = 0; eps = 10; burst = 2; base = 1000000000 }

bucket-IsSteady : IsSteady bucket
bucket-IsSteady = record {
  valid = record { capped = omega arith; room = omega arith; word = omega arith };
  slow = omega arith;
  some_time = omega arith;
  no_wrap = omega arith;
}

-- Five calls at once, and one a tenth of a second later.
abbrev times : List ℕ
times = 1 ∷ 1 ∷ 1 ∷ 1 ∷ 1 ∷ 100000001 ∷ []

three_granted : grants bucket times ≡ 3
unfolding grants get
three_granted = refl

grants-bound_example :
    1000000000 * grants bucket times
    ≤ 1000000000 * 2 + 10 * (100000001 - 0) + 10 * grants bucket times
grants-bound_example = grants-bound bucket times 100000001 bucket-IsSteady (
  omega arith,
  (omega arith, (omega arith, (omega arith, (omega arith, (omega arith, omega arith))))),
)

abbrev socket : List (List ℕ) → List ℕ → Option ℕ
socket past ch = none

recv-send_example :
    ((send_bytes socket (1 ∷ 2 ∷ 3 ∷ [])).1 ≡ none)
    × (recv_bytes (map packet (send_bytes socket (1 ∷ 2 ∷ 3 ∷ [])).0 ++ eof ∷ [])
        ≡ (ok (received (1 ∷ 2 ∷ 3 ∷ [])), eof ∷ []))
recv-send_example = recv-send socket (1 ∷ 2 ∷ 3 ∷ []) (eof ∷ []) (λ past ch. refl)

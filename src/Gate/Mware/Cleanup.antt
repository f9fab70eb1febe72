-- ===== src/Gate/Mware/Cleanup.antt =====
-- What Add and Del leave behind.
use swifty.Base.{ℕ, zero, suc, Bool, true, false, not, ◌||◌, [], ◌∷◌}
use swifty.Effects.{Trace}
use swifty.Gate.Mware.{
  MwareState, stl, Call, insert, remove, init, fini, secret_add, secret_remove, gauge_inc,
  gauge_dec, set_state,
}

-- What an item holds after the calls made: its document, what its handler set up, its secret, and its
-- share of the gauge. `stray` is a release of what was not held.
pub record Held : Type 0 where
  pub row : Bool
  pub inited : Bool
  pub secret : Bool
  pub gauge : ℕ
  pub stray : Bool
  pub marked : Bool

abbrev pub nothing : Held
nothing = record {
  row = false;
  inited = false;
  secret = false;
  gauge = 0;
  stray = false;
  marked = false;
}

abbrev drop_gauge : Held → ℕ → Held
drop_gauge h zero = record h { stray = true }
drop_gauge h (suc n) = record h { gauge = n }

abbrev after : Held → Call × Bool → Held
after h (insert, true) = record h { row = true }
after h (remove, true) = record h { row = false; stray = h.stray || not h.row }
after h (init, true) = record h { inited = true }
after h (fini, true) = record h { inited = false; stray = h.stray || not h.inited }
after h (secret_add, true) = record h { secret = true }
after h (secret_remove, true) = record h { secret = false; stray = h.stray || not h.secret }
after h (gauge_inc, true) = record h { gauge = suc h.gauge }
after h (gauge_dec, true) = drop_gauge h h.gauge
after h (set_state stl from, _) = record h { marked = true }
after h _ = h

-- From `start` on.
pub held : Held → Trace Call → Held
held start [] = start
held start (c ∷ t) = after (held start t) c

abbrev pub registered : Held
registered = record nothing { row = true; inited = true; secret = true; gauge = 1 }

-- The state that the document has, after the calls made since it was `start`.
pub doc : MwareState → Trace Call → MwareState
doc start [] = start
doc start ((set_state st from, true) ∷ t) = st
doc start (_ ∷ t) = doc start t

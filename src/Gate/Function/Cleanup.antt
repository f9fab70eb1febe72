-- ===== src/Gate/Function/Cleanup.antt =====
-- What Add and Del of a function leave behind.
use swifty.Base.{ℕ, suc, ◌≡◌, ◌≢◌, ◌⊎◌, Bool, true, false, not, ◌||◌, none, some, [], ◌∷◌, arith}
use swifty.Effects.{Env, Trace}
use swifty.Gate.Errors.{gate_err_c, gate_limit_hit}
use swifty.Gate.Function.{
  FunctionDesc, FuncState, ini, trm, stl, dea, gone, Call, insert, remove, put_sources,
  remove_sources, k8s_run, k8s_remove, gauge_inc, gauge_dec, set_state, add, del,
}

-- What the calls made come to: the document, the sources, the deployment in the cluster, how often the
-- gauge was raised and lowered. `stray` is a removal of what was not there, `marked` an attempt to
-- mark the function as stalled.
pub record Held : Type 0 where
  pub row : Bool
  pub sources : Bool
  pub deployed : Bool
  pub incs : ℕ
  pub decs : ℕ
  pub stray : Bool
  pub marked : Bool

abbrev pub nothing : Held
nothing = record {
  row = false;
  sources = false;
  deployed = false;
  incs = 0;
  decs = 0;
  stray = false;
  marked = false;
}

abbrev pub after : Held → Call × Bool → Held
after h (insert, true) = record h { row = true }
after h (remove, true) = record h { row = false; stray = h.stray || not h.row }
after h (put_sources, true) = record h { sources = true }
after h (remove_sources, true) = record h { sources = false; stray = h.stray || not h.sources }
after h (k8s_run, true) = record h { deployed = true }
after h (k8s_remove, true) = record h { deployed = false; stray = h.stray || not h.deployed }
after h (gauge_inc, true) = record h { incs = suc h.incs }
after h (gauge_dec, true) = record h { decs = suc h.decs }
after h (set_state stl from, _) = record h { marked = true }
after h _ = h

-- From `start` on.
unfoldable pub held : Held → Trace Call → Held
held start [] = start
held start (c ∷ t) = after (held start t) c

-- When Add reports that the limit on functions is hit, and its clean-up has removed the document, it
-- has lowered the gauge that it had not raised.
add_limit-gauge :
    (env : Env Call) (fn : FunctionDesc)
    → (add env fn []).0.1 ≡ some (gate_err_c gate_limit_hit)
    → (held nothing (add env fn []).1).row ≡ false
    → ((held nothing (add env fn []).1).incs ≡ 0) × ((held nothing (add env fn []).1).decs ≡ 1)
unfolding add held
add_limit-gauge env fn h g = ground arith

abbrev pub is_deployed : FuncState → Bool
is_deployed dea = false
is_deployed ini = false
is_deployed _ = true

abbrev pub registered : Bool → Held
registered d = record nothing { row = true; sources = true; deployed = d; incs = 1 }

-- Del of a function that is not yet terminating, and has a deployment unless it is deactivated or
-- initializing: if it reports no error, the document, the sources and the deployment are gone, the
-- gauge is down by one, and the function was not initializing; if it reports one, the document is
-- still there, and either nothing is changed or the function is Terminating. It never removes what is
-- not there.
pub del-cleans_function :
    (env : Env Call) (fn : FunctionDesc)
    → fn.state ≢ trm
    → fn.state ≢ gone
    → let (r, t) = del env fn [] in
      let start = registered (is_deployed fn.state) in
      let h = held start t in
      (h.stray ≡ false)
      × ((r.1 ≡ none) × (h ≡ record nothing { incs = 1; decs = 1 }) × (fn.state ≢ ini)
          ⊎ (r.1 ≢ none) × (h.row ≡ true) × (((h ≡ start) × (r.0 ≡ fn)) ⊎ (r.0.state ≡ trm)))
unfolding del held
del-cleans_function env fn n g = ground arith

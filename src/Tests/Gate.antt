-- ===== src/Tests/Gate.antt =====
-- The gate (src/gate): functions, middleware, deployments, scaling and limits.
use swifty.Base.Floats.{Floats}
use swifty.Base.{
  ℕ, ◌-◌, ◌/◌, ltb, not, ◌==◌, ◌≡◌, ◌≢◌, ◌||◌, ◌⊎◌, ◌+◌, ◌%◌, ◌^◌, inl, refl, Bool, true, false,
  none, some, String, List, [], ◌∷◌, arith,
}
use swifty.Effects.{failure, Env}
use swifty.Common.Ratelimit.{Rl}
use swifty.Gate.Mware
use swifty.Gate.Mware.Cleanup as MwareCleanup
use swifty.Gate.Function
use swifty.Gate.Function.Cleanup as FunctionCleanup
use swifty.Gate.Function.States.{SourcesChanged, a_write_failed, change_sources-keeps}
use swifty.Gate.Function.Size.{FunctionSize, Limits, fix_size}
use swifty.Gate.Function.Resize.{Sized, FnMem, set_size, Fits, set_size-Fits}
use swifty.Gate.Deploy
use swifty.Gate.Deploy.{DeployDesc, ini, start_items}
use swifty.Gate.Deploy.Items.{ended}
use swifty.Gate.Deploy.Removal.{del-stops}
use swifty.Gate.Deploy.Rollback.{Ends, start_items-Ends}
use swifty.Base.Ints.{pos}
use swifty.Gate.Event
use swifty.Gate.Event.{EventCall, start_event}
use swifty.Gate.Event.Life as EventLife
use swifty.Gate.Call.{FnMemData, Around, handle_call}
use swifty.Gate.Call.Answers.{Answered, in_progress, left_open, handle_call-Answered}
use swifty.Gate.Limits.{Buckets, Usage}
use swifty.Gate.Scaler.{Place, Scaler, scaler_set_goal, scaler_init}
use swifty.Gate.Scaler.Steps
use swifty.Gate.Scaler.Steps.{
  Reach, start, after, set_goal, at_rest, rovers, reach-IsSound, reach-IsServed, Follows, grown,
  get_conn_any-counts,
}

-- Middleware.
abbrev mw_flaky : Env Mware.Call
mw_flaky t Mware.secret_add = some (failure "forbidden")
mw_flaky t _ = none

abbrev mw : Mware.MwareDesc
mw = record { mware_type = "mongo"; state = Mware.prp; encrypted = false }

abbrev handler : Mware.MwareOps
handler = record { disabled = false; lite_ok = true }

abbrev no_limits : Mware.Limits
no_limits = record { tendat = none; number = none; count = 0; count_err = none }

-- Functions.
abbrev at_limit : Env Function.Call
at_limit t Function.check_fn_count = some (failure "Too many functions")
at_limit t _ = none

abbrev no_row : Env Function.Call
no_row t Function.remove = some (failure "timeout")
no_row t _ = none

abbrev fine : Env Function.Call
fine t c = none

abbrev fn_in : Function.FuncState → Function.FunctionDesc
fn_in st = record { state = st; replicas = 1; src = 3 }

del-cleans_function_example :
    let (r, t) = Function.del no_row (fn_in Function.rdy) [] in
    let start = FunctionCleanup.registered (FunctionCleanup.is_deployed Function.rdy) in
    let h = FunctionCleanup.held start t in
    (h.stray ≡ false)
    × ((r.1 ≡ none)
          × (h ≡ record FunctionCleanup.nothing { incs = 1; decs = 1 })
          × (Function.rdy ≢ Function.ini)
        ⊎ (r.1 ≢ none)
          × (h.row ≡ true)
          × (((h ≡ start) × (r.0 ≡ fn_in Function.rdy)) ⊎ (r.0.state ≡ Function.trm)))
del-cleans_function_example =
    FunctionCleanup.del-cleans_function no_row (fn_in Function.rdy) (λ h. ground arith)
      (λ h. ground arith)

change_sources-keeps_example :
    let (r, t) = Function.change_sources no_row (fn_in Function.stl) [] in
    (r.1 ≡ none) × SourcesChanged (fn_in Function.stl) r.0 t
    ⊎ (r.1 ≢ none)
      × ((r.0.state ≡ Function.stl)
          ⊎ (Function.stl ≡ Function.stl) × (r.0.state ≡ Function.str) × (a_write_failed t ≡ true))
      × ((r.0.src ≡ 3) ⊎ (r.0.src ≡ 4))
change_sources-keeps_example = change_sources-keeps no_row (fn_in Function.stl)

abbrev sizes : Limits
sizes = record {
  tmo_def = 1;
  tmo_max = 60;
  mem_def = 128;
  mem_min = 64;
  mem_max = 1024;
  lite = false;
}

abbrev asked : FunctionSize
asked = record { timeout = 0; memory = 256; rate = 5; burst = 10 }

abbrev given : FunctionSize
given = record asked { timeout = 1000 }

abbrev sized : Sized
sized = record { state = Function.rdy; size = record given { rate = 0 } }

abbrev in_memory : FnMem
in_memory = record { mem = 256; crl = none }

set_size-Fits_example :
    let r = (set_size fine sizes 7 sized (some in_memory) asked []).0 in
    (fix_size sizes asked ≡ inl r.0.size) × Fits r.0.size r.1
unfolding set_size fix_size
set_size-Fits_example =
    set_size-Fits fine sizes 7 sized (some in_memory) asked (omega arith) (refl, refl) refl

-- Deployments.
abbrev dep : DeployDesc
dep = record {
  state = ini;
  functions = "f" ∷ "g" ∷ [];
  mwares = "db" ∷ "queue" ∷ [];
  routers = "r" ∷ [];
}

abbrev dep_flaky : Env Deploy.Call
dep_flaky t (Deploy.start Deploy.router x) = some (failure "busy")
dep_flaky t _ = none

start_items-Ends_example : let (d, t) = start_items dep_flaky dep [] in Ends dep t d
start_items-Ends_example = start_items-Ends dep_flaky dep

abbrev calm : Env Deploy.Call
calm t c = none

del-stops_example :
    let t = (Deploy.del calm dep []).1 in
    (ended Deploy.router t ≡ dep.routers)
    × (ended Deploy.function t ≡ dep.functions)
    × (ended Deploy.mware t ≡ dep.mwares)
    × (calm [] (Deploy.set_state Deploy.trm) ≡ none)
    × (calm (Deploy.stop_items calm dep ((Deploy.set_state Deploy.trm, true) ∷ [])).1 Deploy.remove
        ≡ none)
unfolding Deploy.del Deploy.stop_items Deploy.stop_loop
del-stops_example = del-stops calm dep refl

-- Limits.
abbrev full : Rl
full = record { bts = 3; t = 0; eps = 10; burst = 3; base = 1000000000 }

abbrev buckets : Buckets
buckets = record {
  own = some full;
  tenant = some full;
  common = some (record full { bts = 0; eps = 0 });
}

-- Whole numbers in the place of floats.
abbrev whole_numbers : Floats
whole_numbers = record {
  Float64 = ℕ;
  of_uint64 = λ n. n;
  minus = λ a b. a - b;
  quotient = λ a b. a / b;
  above = λ a b. ltb b a;
  differs = λ a b. not (a == b);
}

abbrev usage : Usage whole_numbers
usage = record {
  run_cost = 9;
  gbs_off = 4;
  gbs_limit = 4;
  bytes_out = 7;
  bytes_off = 0;
  bytes_limit = 0;
}

-- Scaling.
abbrev three_wanted : Scaler
three_wanted = scaler_set_goal 5 3 at_rest

three_wanted-Reach : (stops : Bool) → Reach 5 stops at_rest three_wanted
three_wanted-Reach stops = after start (set_goal stops at_rest 3)

reach-IsSound_example : Steps.IsSound 5 three_wanted
reach-IsSound_example =
    reach-IsSound 5 at_rest three_wanted
      (record { bounded = omega arith; one = omega arith; woken = λ h. (refl, omega arith) })
      (three_wanted-Reach true)

-- After scalerInit for three pods, when four are wanted.
abbrev four_wanted : Scaler
four_wanted = scaler_set_goal 5 4 (scaler_init 3 at_rest)

reach-IsServed_example :
    (p : Place) × (four_wanted.running ≡ p ∷ []) × ((have : ℕ) → Follows four_wanted p have)
unfolding scaler_set_goal scaler_init
reach-IsServed_example =
    reach-IsServed 5 (scaler_init 3 at_rest) four_wanted (grown 3 (omega arith))
      (after start (set_goal false (scaler_init 3 at_rest) 4)) (omega arith)

abbrev pods : List String
pods = "a" ∷ "b" ∷ []

-- A call on two pods, whose common bucket is empty.
abbrev around : Around whole_numbers
around = record {
  clock = (5, 6, 7);
  usage = usage;
  pods_found = some (3 ∷ 4 ∷ []);
  claims_given = false;
  claims_asked = true;
  verify = none;
  runs = λ pod. some (record { code = pos 0; has_then = true });
}

abbrev before_call : FnMemData
before_call = record { buckets = buckets; rover = record { came = 7; ended = 5 }; pods = [] }

handle_call-Answered_example :
    let (fmd', a) = handle_call whole_numbers around before_call in
    Answered whole_numbers around before_call a
    × (in_progress fmd' ≡ (in_progress before_call + left_open a) % 2 ^ 32)
handle_call-Answered_example =
    handle_call-Answered whole_numbers around before_call (omega arith) (omega arith)

-- A handler that cannot start the event.
abbrev no_start : Env EventCall
no_start t (start_event ed) = some (failure "Bad crontab")
no_start t c = none

add-cleans_event_example :
    let (r, t) = Event.add no_start 3 [] in
    ((r ≡ none)
      × ((EventLife.held EventLife.nothing t).row ≡ true)
      × ((EventLife.held EventLife.nothing t).key ≡ true)
      × (((EventLife.held EventLife.nothing t).started || EventLife.not_started t) ≡ true))
    ⊎ ((r ≢ none)
        × ((EventLife.held EventLife.nothing t ≡ EventLife.nothing)
            ⊎ (EventLife.not_cleaned t ≡ true)))
add-cleans_event_example = EventLife.add-cleans_event no_start 3

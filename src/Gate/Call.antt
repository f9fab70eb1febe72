-- ===== src/Gate/Call.antt =====
-- src/gate/url.go: the call of a function by its URL (FnMemData.Handle), with the limits of Gate/Limits and the
-- rovers of Gate/Scaler. What the pods, the claims and the run give is an argument.
pub mod Answers
use swifty.Base.{
  ℕ, zero, suc, ◌+◌, ◌-◌, ◌%◌, ◌^◌, ◌<◌, Bool, true, false, not, ◌&&◌, Option, none, some, List, [],
  ◌∷◌, length, get_elem?, ltb, ◌==◌, if◌then◌else◌, is_none,
}
use swifty.Base.Ints.{ℤ, pos, negsuc}
use swifty.Base.Floats.{Floats}
use swifty.Effects.{Error}
use swifty.Gate.Limits.{Buckets, ratelimited, Usage, rslimited}
use swifty.Gate.Scaler.{Rover, get_conn_any, put_conn}

-- FnMemData, as far as a call reads and changes it: the buckets, the rovers, and the pods known.
pub record FnMemData : Type 0 where
  pub buckets : Buckets
  pub rover : Rover
  pub pods : List ℕ

-- swyapi.WdogFunctionRunResult: the code, negative for a failed call, and whether there is a `Then`.
pub record Result : Type 0 where
  pub code : ℤ
  pub has_then : Bool

-- What surrounds a call: the clock at the three buckets, what is used, the pods that podsFindAll finds (none
-- for nil, which an empty slice is not), whether the request came with claims, whether the function asks for them, the error of
-- their check, and what the run on a pod gives.
pub record Around (fl : Floats) : Type 0 where
  pub clock : ℕ × ℕ × ℕ
  pub usage : Usage fl
  pub pods_found : Option (List ℕ)
  pub claims_given : Bool
  pub claims_asked : Bool
  pub verify : Option Error
  pub runs : ℕ → Option Result

pub data Answer : Type 0 where
  -- `goto out` with a code, before the run and after one that failed.
  turned_away : ℕ → Answer
  run_failed : ℕ → ℕ → Answer
  -- The run on a pod, the code answered, and whether what is to be called next was noted.
  ran : ℕ → ℕ → Bool → Answer
  -- The division by the number of pods, when there are none.
  panic : Answer

-- balancerGetConnAny: the pods found are kept, when none are known.
unfoldable pub known_pods : List ℕ → Option (List ℕ) → Option (List ℕ)
known_pods [] found = found
known_pods (p ∷ ps) found = some (p ∷ ps)

-- What the run's code is answered with.
unfoldable pub by_code : ℕ → Bool → ℤ → Answer
by_code pod has_then (pos c) = ran pod (if c == 0 then 200 else c) has_then
by_code pod has_then (negsuc c) = ran pod (suc c) false

unfoldable pub answered : ℕ → Result → Answer
unfolding by_code
answered pod r = by_code pod r.has_then r.code

module _ (fl : Floats) (w : Around fl) where
  run_on : ℕ → Option Result → Answer
  unfolding answered
  run_on pod none = run_failed pod 500
  run_on pod (some r) = answered pod r

  verified : ℕ → Option Error → Answer
  unfolding run_on
  verified pod (some e) = turned_away 401
  verified pod none = run_on pod (w.runs pod)

  -- With a connection, from the check of the claims on.
  with_conn : ℕ → Answer
  unfolding run_on verified
  with_conn pod =
      if not w.claims_given && w.claims_asked
      then verified pod w.verify
      else run_on pod (w.runs pod)

  -- The connection is put back at the end, when there is one.
  connected : FnMemData → Rover → Option ℕ → FnMemData × Answer
  unfolding with_conn
  connected fmd rover none = (record fmd { rover = rover }, panic)
  connected fmd rover (some pod) = (record fmd { rover = put_conn rover }, with_conn pod)

  -- From balancerGetConnAny on.
  connect : FnMemData → Option (List ℕ) → FnMemData × Answer
  unfolding connected
  connect fmd none = (fmd, turned_away 500)
  connect fmd (some pods) =
      let (rover, conn, goal) = get_conn_any pods fmd.rover in
      connected (record fmd { pods = pods }) rover conn

  within_limits : FnMemData × Bool → FnMemData × Answer
  unfolding connect known_pods
  within_limits (fmd, true) = (fmd, turned_away 429)
  within_limits (fmd, false) =
      if rslimited fl w.usage
      then (fmd, turned_away 423)
      else connect fmd (known_pods fmd.pods w.pods_found)

  -- FnMemData.Handle.
  unfoldable pub handle_call : FnMemData → FnMemData × Answer
  unfolding within_limits
  handle_call fmd =
      let (buckets, limited) = ratelimited fmd.buckets w.clock.0 w.clock.1 w.clock.2 in
      within_limits (record fmd { buckets = buckets }, limited)

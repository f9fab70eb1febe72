-- ===== src/Gate/Scaler.antt =====
-- src/gate/scaler.go and src/gate/balancer.go: how many pods a function wants, and the goroutine that
-- follows the number. A scaler runs from lock to lock, so it is a sequence of steps; between them it is
-- in a call of the cluster, or waits (condWaitTmo), and others may take the lock.
pub mod Steps
use swifty.Base.{
  ℕ, zero, suc, ◌+◌, ◌-◌, ◌%◌, ◌^◌, Bool, true, false, Option, none, some, List, [], ◌∷◌, ltb, leb,
  ◌==◌, if◌then◌else◌, length, get_elem?,
}

-- Where a goroutine of balancerFnScaler is: in k8sDepScaleUp, in one of the two waits, with the number
-- that the cluster had come to (its variable `goal`), or in k8sDepScaleDown.
pub data Place : Type 0 where
  up down : Place
  relax step : ℕ → Place

-- BalancerDat's goal and wakeup (whether it is set), and the goroutines that run.
pub record Scaler : Type 0 where
  pub goal : ℕ
  pub wakeup : Bool
  pub running : List Place

-- What a goroutine does up to its next stop, with what it leaves: nowhere when it has ended.
abbrev pub Move : Type 0
Move = ℕ × Bool × Option Place

-- From the label `down`.
pub at_down : ℕ → Bool → ℕ → Move
at_down goal wakeup have =
    if leb goal 1
    then (goal, false, none)
    else if ltb have goal
    then (goal, wakeup, some up)
    else (goal - 1, wakeup, some (step have))

-- After k8sDepScaleUp has come back with `have`.
pub after_up : ℕ → Bool → ℕ → Move
after_up goal wakeup have =
    if goal == 0
    then (goal, wakeup, none)
    else if ltb have goal
    then (goal, wakeup, some up)
    else (goal, wakeup, some (relax have))

-- After the wait of a step down.
pub after_step : ℕ → Bool → ℕ → Move
after_step goal wakeup have =
    if goal == 0
    then (goal, wakeup, none)
    else if goal == have
    then (goal, wakeup, some (relax have))
    else if ltb have goal
    then (goal, wakeup, some up)
    else (goal, wakeup, some down)

-- A goroutine goes on; `have` is what the cluster says when it was asked.
pub advance : ℕ → Bool → Place → ℕ → Move
unfolding at_down after_up after_step
advance goal wakeup up have = after_up goal wakeup have
advance goal wakeup down have = at_down goal wakeup have
advance goal wakeup (relax old) have = at_down goal wakeup old
advance goal wakeup (step old) have = after_step goal wakeup old

-- scalerStop.
pub scaler_stop : Scaler → Scaler
scaler_stop s = if s.wakeup then record s { goal = 0 } else s

-- scalerSetGoal; `max` is conf.Runtime.MaxReplicas.
unfoldable pub scaler_set_goal : ℕ → ℕ → Scaler → Scaler
scaler_set_goal max goal s =
    if leb goal s.goal
    then s
    else if ltb max goal
    then s
    else if s.wakeup
    then record s { goal = goal }
    else record s { goal = goal; wakeup = true; running = up ∷ s.running }

-- scalerInit.
unfoldable pub scaler_init : ℕ → Scaler → Scaler
scaler_init tgt s = record s { goal = tgt; wakeup = true; running = up ∷ s.running }

-- BalancerDat's rovers: the calls that came, and those that ended, as uint32s.
pub record Rover : Type 0 where
  pub came : ℕ
  pub ended : ℕ

-- balancerGetConnAny, on the pods known: the pod, and the goal that it asks for.
unfoldable pub get_conn_any : {A : Type 0} → List A → Rover → Rover × Option A × ℕ
get_conn_any pods r =
    let sc = (r.came + 1) % 2 ^ 32 in
    (record r { came = sc }, get_elem? pods (sc % length pods), (sc + (2 ^ 32 - r.ended)) % 2 ^ 32)

-- balancerPutConn.
unfoldable pub put_conn : Rover → Rover
put_conn r = record r { ended = (r.ended + 1) % 2 ^ 32 }

-- ===== src/Gate/Scaler/Steps.antt =====
-- The scaler's goroutines beside the calls that set the goal: at most one runs, and when it does.
use mathlib.Core.Path.{subst}
use native.Mathlib.Nat.{mod-lt}
use swifty.Base.{
  ℕ, ◌+◌, ◌-◌, ◌%◌, ◌^◌, ◌≤◌, ◌<◌, ◌≡◌, ◌≢◌, refl, Bool, true, false, Option, none, some, List, [],
  ◌∷◌, length, arith, ap, ◌↔◌, ltb, ◌==◌, Bool-cases, inl, inr, get_elem?, zero, suc,
}
use swifty.Gate.Scaler.{
  Place, up, down, relax, step, Scaler, scaler_init, advance, at_down, after_up, after_step,
  scaler_stop, scaler_set_goal, Rover, get_conn_any, put_conn,
}

-- The goroutine that has gone on.
abbrev back : Option Place → List Place → List Place
back none ps = ps
back (some p) ps = p ∷ ps

pub go_on : Scaler → Place → List Place → ℕ → Scaler
unfolding advance
go_on s p ps have =
    let (g, w, p') = advance s.goal s.wakeup p have in
    record { goal = g; wakeup = w; running = back p' ps }

-- A goroutine's move, or a call; scalerStop is called only if `stops`.
pub data Step (max : ℕ) : Bool → Scaler → Scaler → Type 0 where
  moves :
      (stops : Bool) (s : Scaler) (p : Place) (ps : List Place) (have : ℕ)
      → s.running ≡ p ∷ ps
      → Step max stops s (go_on s p ps have)
  set_goal : (stops : Bool) (s : Scaler) (goal : ℕ) → Step max stops s (scaler_set_goal max goal s)
  stop : (s : Scaler) → Step max true s (scaler_stop s)

pub data Reach (max : ℕ) (stops : Bool) (s : Scaler) : Scaler → Type 0 where
  start : Reach max stops s s
  after : {s' s'' : Scaler} → Reach max stops s s' → Step max stops s' s'' → Reach max stops s s''

-- A function with no pod wanted.
abbrev pub at_rest : Scaler
at_rest = record { goal = 0; wakeup = false; running = [] }

-- The goal is within the limit, no two goroutines run, and when wakeup is not set none runs and at
-- most one pod is wanted.
pub record IsSound (max : ℕ) (s : Scaler) : Type 0 where
  pub bounded : s.goal ≤ max
  pub one : length s.running ≤ 1
  pub woken : s.wakeup ≡ false → (s.running ≡ []) × (s.goal ≤ 1)

moves-IsSound :
    (max : ℕ) (s : Scaler) (p : Place) (ps : List Place) (have : ℕ)
    → s.running ≡ p ∷ ps
    → IsSound max s
    → IsSound max (go_on s p ps have)
unfolding go_on advance at_down after_up after_step
moves-IsSound max s p ps have e h = ground arith

set_goal-IsSound :
    (max goal : ℕ) (s : Scaler) → IsSound max s → IsSound max (scaler_set_goal max goal s)
unfolding scaler_set_goal
set_goal-IsSound max goal s h = ground arith

stop-IsSound : (max : ℕ) (s : Scaler) → IsSound max s → IsSound max (scaler_stop s)
unfolding scaler_stop
stop-IsSound max s h = ground arith

Step-IsSound :
    (max : ℕ) (stops : Bool) (s s' : Scaler) → IsSound max s → Step max stops s s' → IsSound max s'
Step-IsSound max stops s _ h (moves _ _ p ps have e) = moves-IsSound max s p ps have e h
Step-IsSound max stops s _ h (set_goal _ _ goal) = set_goal-IsSound max goal s h
Step-IsSound max _ s _ h (stop _) = stop-IsSound max s h

-- In whatever order the goroutine's moves, scalerSetGoal and scalerStop come, the goal stays within
-- the limit of replicas, no second goroutine is started, and once wakeup is nil none runs and at most
-- one pod is wanted.
pub reach-IsSound : (max : ℕ) (s s' : Scaler) → IsSound max s → Reach max true s s' → IsSound max s'
reach-IsSound max s _ h start = h
reach-IsSound max s s'' h (after {s'} r st) =
    Step-IsSound max true s' s'' (reach-IsSound max s s' h r) st

-- A goroutine runs if a pod is wanted beyond the first.
pub record IsServed (s : Scaler) : Type 0 where
  pub awake : s.wakeup ≡ true → (0 < s.goal) × (length s.running ≡ 1)
  pub asleep : s.wakeup ≡ false → (s.running ≡ []) × (s.goal ≤ 1)

moves-IsServed :
    (s : Scaler) (p : Place) (ps : List Place) (have : ℕ)
    → s.running ≡ p ∷ ps
    → IsServed s
    → IsServed (go_on s p ps have)
unfolding go_on advance at_down after_up after_step
moves-IsServed s p ps have e h = ground arith

set_goal-IsServed : (max goal : ℕ) (s : Scaler) → IsServed s → IsServed (scaler_set_goal max goal s)
unfolding scaler_set_goal
set_goal-IsServed max goal s h = ground arith

Step-IsServed : (max : ℕ) (s s' : Scaler) → IsServed s → Step max false s s' → IsServed s'
Step-IsServed max s _ h (moves _ _ p ps have e) = moves-IsServed s p ps have e h
Step-IsServed max s _ h (set_goal _ _ goal) = set_goal-IsServed max goal s h

reach-IsServed' : (max : ℕ) (s s' : Scaler) → IsServed s → Reach max false s s' → IsServed s'
reach-IsServed' max s _ h start = h
reach-IsServed' max s s'' h (after {s'} r st) =
    Step-IsServed max s' s'' (reach-IsServed' max s s' h r) st

-- The number of pods that a goroutine judges by, when the cluster says `have`.
abbrev pub known : Place → ℕ → ℕ
known (relax old) have = old
known (step old) have = old
known _ have = have

-- The goroutine at `p` goes on, scales up next exactly when more pods are wanted than it knows of, and
-- down only when fewer are.
abbrev pub Follows : Scaler → Place → ℕ → Type 0
Follows s p have =
    (q : Place) × ((go_on s p [] have).running ≡ q ∷ [])
    × ((q ≡ up) ↔ (known p have < s.goal))
    × (q ≡ down → s.goal < known p have)

only_one : (ps : List Place) → length ps ≡ 1 → (p : Place) × (ps ≡ p ∷ [])
only_one [] e = absurd (omega arith)
only_one (p ∷ []) e = (p, refl)
only_one (p ∷ q ∷ ps) e = absurd (omega arith)

single : (s : Scaler) → IsServed s → 1 < s.goal → (p : Place) × (s.running ≡ p ∷ [])
single s served g = only_one s.running (ground arith)

follows : (s : Scaler) (p : Place) (have : ℕ) → 1 < s.goal → Follows s p have
unfolding go_on advance at_down after_up after_step
follows s up have g = elim (Bool-cases (ltb have s.goal)) [
  | inl e ↦ rw e (up, ground arith, ground arith, ground arith)
  | inr e ↦ rw e (relax have, ground arith, ground arith, ground arith)
]
follows s down have g = elim (Bool-cases (ltb have s.goal)) [
  | inl e ↦ rw e (up, ground arith, ground arith, ground arith)
  | inr e ↦ rw e (step have, ground arith, ground arith, ground arith)
]
follows s (relax old) have g = elim (Bool-cases (ltb old s.goal)) [
  | inl e ↦ rw e (up, ground arith, ground arith, ground arith)
  | inr e ↦ rw e (step old, ground arith, ground arith, ground arith)
]
follows s (step old) have g = elim (Bool-cases (ltb old s.goal)) [
  | inl e ↦ rw e (up, ground arith, ground arith, ground arith)
  | inr e ↦ elim (Bool-cases (s.goal == old)) [
    | inl i ↦ rw (e, i) (relax old, ground arith, ground arith, ground arith)
    | inr i ↦ rw (e, i) (down, ground arith, ground arith, ground arith)
  ]
]

-- Where the gate starts from: no pod wanted, or after scalerInit for a deployment that has grown.
pub data Start : Scaler → Type 0 where
  resting : Start at_rest
  grown : (n : ℕ) → 1 < n → Start (scaler_init n at_rest)

Start-IsServed : (s : Scaler) → Start s → IsServed s
unfolding scaler_init
Start-IsServed _ resting = record { awake = λ h. ground arith; asleep = λ h. (refl, omega arith) }
Start-IsServed _ (grown n h) = record {
  awake = λ e. (omega arith, refl);
  asleep = λ e. ground arith;
}

-- From rest, or from scalerInit, and as long as scalerStop is not called: whenever more than one pod is wanted, exactly
-- one goroutine runs, and when it goes on it runs still, scales up next exactly when more pods are wanted than it
-- knows of, and down only when fewer are.
pub reach-IsServed :
    (max : ℕ) (s₀ s : Scaler)
    → Start s₀
    → Reach max false s₀ s
    → 1 < s.goal
    → (p : Place) × (s.running ≡ p ∷ []) × ((have : ℕ) → Follows s p have)
reach-IsServed max s₀ s b r g =
    let (p, e) = single s (reach-IsServed' max s₀ s (Start-IsServed s₀ b) r) g in
    (p, e, λ have. follows s p have g)

-- After scalerStop, the goroutine ends but leaves wakeup set: each later scalerSetGoal then signals to
-- nobody. So every goal within the limit can be reached with no goroutine running.
pub stop-Reach :
    (max goal : ℕ)
    → 0 < goal
    → goal ≤ max
    → Reach max true at_rest (record { goal = goal; wakeup = true; running = [] })
unfolding scaler_set_goal scaler_stop go_on advance after_up
stop-Reach max goal p l =
    let raised = scaler_set_goal max goal at_rest in
    let stopped = scaler_stop raised in
    let ended = go_on stopped up [] 0 in
    let runs : stopped.running ≡ up ∷ [] = ground arith in
    let again : scaler_set_goal max goal ended
        ≡ record { goal = goal; wakeup = true; running = [] } =
      ground arith in
    subst (Reach max true at_rest) again (
      after
        (after (after (after start (set_goal true at_rest goal)) (stop raised))
          (moves true stopped up [] 0 runs))
        (set_goal true ended goal))

get_elem?-some : {A : Type 0} (xs : List A) (i : ℕ) → i < length xs → get_elem? xs i ≢ none
get_elem?-some [] i h e = omega arith
get_elem?-some (x ∷ xs) zero h e = ground arith
get_elem?-some (x ∷ xs) (suc i) h e = get_elem?-some xs i (omega arith) e

mod_below : {A : Type 0} (n : ℕ) (xs : List A) → xs ≢ [] → n % length xs < length xs
mod_below n [] h = elim (h refl) [ ]
mod_below n (x ∷ xs) h = mod-lt n (omega arith)

-- The rovers after the given numbers of calls that came and that ended.
abbrev pub rovers : ℕ → ℕ → Rover
rovers came ended = record { came = came % 2 ^ 32; ended = ended % 2 ^ 32 }

-- A call's goal is the number of calls that it makes to be in progress, also when the rovers have
-- wrapped around, as long as that number is a uint32; it gets a pod, if there is any, and the rovers
-- count it.
pub get_conn_any-counts :
    {A : Type 0} (pods : List A) (came ended : ℕ)
    → ended ≤ came
    → came + 1 - ended < 2 ^ 32
    → pods ≢ []
    → let (r, pod, goal) = get_conn_any pods (rovers came ended) in
      (r ≡ rovers (came + 1) ended) × (pod ≢ none) × (goal ≡ came + 1 - ended)
unfolding get_conn_any
get_conn_any-counts pods came ended h f n = (
  ap (λ c. record { came = c; ended = ended % 2 ^ 32 }) (omega arith),
  get_elem?-some pods _ (mod_below _ pods n),
  omega arith,
)

-- A call that ends is counted too.
put_conn-counts : (came ended : ℕ) → put_conn (rovers came ended) ≡ rovers came (ended + 1)
unfolding put_conn
put_conn-counts came ended = ground arith

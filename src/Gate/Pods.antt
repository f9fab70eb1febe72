-- ===== src/Gate/Pods.antt =====
-- src/gate/pods.go: the pods of one function, between the calls that look for them and those that add and delete
-- them. A set of pods may be replaced by another, so what a call has loaded can be out of date when it has
-- the lock. Ids and versions are numbers, as they are only compared; the order of a map is that of a list.
pub mod Runs
mod Sound
pub mod Agreement
use swifty.Base.{ℕ, suc, Bool, true, false, Option, none, some, List, [], ◌∷◌, ◌==◌, if◌then◌else◌}

-- k8sPod, as far as it matters here.
pub record Pod : Type 0 where
  pub uid : ℕ
  pub version : ℕ

pub record FnPods : Type 0 where
  pub pods : List Pod
  pub dead : Bool

-- fnPodsStore at the function's id, and the sets made so far.
pub record Store : Type 0 where
  pub current : Option ℕ
  pub objects : ℕ → FnPods
  pub made : ℕ

unfoldable pub put {ℓ} : {A : Type ℓ} → ℕ → A → (ℕ → A) → ℕ → A
put k x f i = if i == k then x else f i

-- delete(fnp.pods, uid).
unfoldable pub delete : ℕ → List Pod → List Pod
delete uid [] = []
delete uid (p ∷ ps) = let rest = delete uid ps in if p.uid == uid then rest else p ∷ rest

-- fnp.pods[pod.UID] = pod.
unfoldable pub assign : Pod → List Pod → List Pod
unfolding delete
assign p ps = p ∷ delete p.uid ps

abbrev pub is_empty : List Pod → Bool
is_empty [] = true
is_empty (p ∷ ps) = false

-- makeFnPods.
abbrev pub make_fn_pods : FnPods
make_fn_pods = record { pods = []; dead = false }

-- podsAdd, up to the lock: what is loaded, or stored when there is nothing.
unfoldable pub load_or : Option ℕ → Store → Store × ℕ
unfolding put
load_or (some k) s = (s, k)
load_or none s = (
  record s {
    current = some s.made;
    objects = put s.made make_fn_pods s.objects;
    made = suc s.made;
  },
  s.made,
)

-- podsAdd, under the lock of a set that is not dead.
unfoldable pub add_locked : Pod → ℕ → Store → Store
unfolding put assign
add_locked p k s =
    let o = s.objects k in
    record s { objects = put k (record o { pods = assign p o.pods }) s.objects }

-- podsDel, under the lock.
unfoldable pub del_locked : ℕ → ℕ → Store → Store
unfolding put delete
del_locked uid k s =
    let left = delete uid (s.objects k).pods in
    if is_empty left
    then record s { current = none; objects = put k (record { pods = []; dead = true }) s.objects }
    else record s { objects = put k (record (s.objects k) { pods = left }) s.objects }

-- The rest of podsFindAll, of what findFnPods gave.
unfoldable pub read : Store → Option ℕ → Option (List Pod)
read s none = none
read s (some k) = some (s.objects k).pods

unfoldable pub pods_find_all : Store → Option (List Pod)
unfolding read
pods_find_all s = read s s.current

-- The search of podsFindExact.
unfoldable pub with_version : ℕ → List Pod → Option Pod
with_version v [] = none
with_version v (p ∷ ps) = let rest = with_version v ps in if p.version == v then some p else rest

abbrev pub found_with : ℕ → Option (List Pod) → Option Pod
found_with v none = none
found_with v (some ps) = with_version v ps

unfoldable pub pods_find_exact : ℕ → Store → Option Pod
unfolding pods_find_all with_version
pods_find_exact v s = found_with v (pods_find_all s)

-- ===== src/Gate/Pods/Runs.antt =====
-- The calls of podsAdd, one in a goroutine for each pod, and of podsDel, which podEventLoop makes one by one
-- (src/gate/pods.go, src/gate/k8s.go), in steps from lock to lock.
use swifty.Base.{ℕ, ◌≡◌, Option, none, some, List, [], ◌∷◌, if◌then◌else◌}
use swifty.Gate.Pods.{
  Pod, Store, put, delete, assign, make_fn_pods, load_or, add_locked, del_locked,
}

pub data Change : Type 0 where
  added : Pod → Change
  deleted : ℕ → Change

-- The pods after some changes, the last of them first.
unfoldable pub replay : List Change → List Pod
unfolding assign delete
replay [] = []
replay (added p ∷ h) = assign p (replay h)
replay (deleted uid ∷ h) = delete uid (replay h)

-- The store; the pod and the set of each goroutine that waits for the lock in podsAdd, those of podsDel; and
-- the changes made.
pub record System : Type 0 where
  pub store : Store
  pub adders : ℕ → Option (Pod × ℕ)
  pub deleter : Option (ℕ × ℕ)
  pub history : List Change

unfoldable pub add_loads : ℕ → Pod → System → System
unfolding load_or put
add_loads g p s =
    let (store, k) = load_or s.store.current s.store in
    record s { store = store; adders = put g (some (p, k)) s.adders }

-- With the lock: `goto again` when the set is dead.
unfoldable pub add_locks : ℕ → Pod → ℕ → System → System
unfolding add_loads add_locked put
add_locks g p k s = if (s.store.objects k).dead then add_loads g p s else record s {
  store = add_locked p k s.store;
  adders = put g none s.adders;
  history = added p ∷ s.history;
}

unfoldable pub del_found : ℕ → Option ℕ → System → System
del_found uid none s = record s { history = deleted uid ∷ s.history }
del_found uid (some k) s = record s { deleter = some (uid, k) }

unfoldable pub del_locks : ℕ → ℕ → System → System
unfolding del_locked
del_locks uid k s = record s {
  store = del_locked uid k s.store;
  deleter = none;
  history = deleted uid ∷ s.history;
}

pub data Step (s : System) : System → Type 0 where
  loads : (g : ℕ) (p : Pod) → s.adders g ≡ none → Step s (add_loads g p s)
  locks : (g : ℕ) (p : Pod) (k : ℕ) → s.adders g ≡ some (p, k) → Step s (add_locks g p k s)
  finds : (uid : ℕ) → s.deleter ≡ none → Step s (del_found uid s.store.current s)
  deletes : (uid k : ℕ) → s.deleter ≡ some (uid, k) → Step s (del_locks uid k s)

-- Before any pod.
abbrev pub initial : System
initial = record {
  store = record { current = none; objects = λ k. make_fn_pods; made = 0 };
  adders = λ g. none;
  deleter = none;
  history = [];
}

pub data Reach : System → Type 0 where
  start : Reach initial
  next : {s s' : System} → Reach s → Step s s' → Reach s'

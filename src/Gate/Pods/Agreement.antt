-- ===== src/Gate/Pods/Agreement.antt =====
-- What is found among the pods of a function (src/gate/pods.go).
use swifty.Base.{
  ℕ, ◌<◌, ◌≡◌, ◌≢◌, ◌==◌, ==_iff, arith, ◌∷◌, ◌⊎◌, inl, inr, refl, ap, Option, none, some, List, [],
  Bool-cases,
}
use swifty.Gate.Pods.{Pod, read, pods_find_all, with_version, found_with, pods_find_exact}
use swifty.Gate.Pods.Runs.{replay, System, Reach}
use swifty.Gate.Pods.Sound.{IsSound, reach-IsSound}

-- What podsFindAll finds, by the pods that there are.
abbrev pub Finds : List Pod → Option (List Pod) → Type 0
Finds ps none = ps ≡ []
Finds ps (some found) = found ≡ ps

-- A pod in a list.
pub data Among (p : Pod) : List Pod → Type 0 where
  first : {ps : List Pod} → Among p (p ∷ ps)
  later : {q : Pod} {ps : List Pod} → Among p ps → Among p (q ∷ ps)

-- What podsFindExact finds: a pod of the version, or nothing when no pod is of it.
abbrev pub FindsExact : ℕ → List Pod → Option Pod → Type 0
FindsExact v ps none = (p : Pod) → Among p ps → p.version ≢ v
FindsExact v ps (some p) = Among p ps × (p.version ≡ v)

among_skip :
    (v : ℕ) (q : Pod) (ps : List Pod)
    → q.version ≢ v
    → ((p : Pod) → Among p ps → p.version ≢ v)
    → (p : Pod) → Among p (q ∷ ps)
    → p.version ≢ v
among_skip v q ps n h p first = n
among_skip v q ps n h p (later a) = h p a

with_version-FindsExact : (v : ℕ) (ps : List Pod) → FindsExact v ps (with_version v ps)
unfolding with_version
with_version-FindsExact v [] = λ p a. elim a [ ]
with_version-FindsExact v (q ∷ ps) = elim (Bool-cases (q.version == v)) [
  | inl e ↦ rw e (first, (==_iff q.version v).0 e)
  | inr e ↦
      rw e (skip (with_version v ps) (λ k. ground (arith, k, e)) (with_version-FindsExact v ps))
]
  where
    skip : (o : Option Pod) → q.version ≢ v → FindsExact v ps o → FindsExact v (q ∷ ps) o
    skip none n h = among_skip v q ps n h
    skip (some p) n h = (later h.0, h.1)

abbrev pub Agrees : System → Type 0
Agrees s =
    Finds (replay s.history) (pods_find_all s.store)
    × ((v : ℕ) → FindsExact v (replay s.history) (pods_find_exact v s.store))
    × ((k : ℕ)
        → k < s.store.made
        → (read s.store (some k) ≡ some (replay s.history)) ⊎ (read s.store (some k) ≡ some []))

found-Agrees :
    (s : System) (o : Option ℕ)
    → s.store.current ≡ o
    → IsSound s
    → Finds (replay s.history) (read s.store o)
      × ((v : ℕ) → FindsExact v (replay s.history) (found_with v (read s.store o)))
unfolding read with_version
found-Agrees s none e v = (v.gone e, λ n. rw (v.gone e) (with_version-FindsExact n []))
found-Agrees s (some k) e v =
    ((v.here k e).2, λ n. rw (v.here k e).2 (with_version-FindsExact n (replay s.history)))

-- However the steps of any number of podsAdd and of one podsDel at a time interleave: podsFindAll
-- finds the pods that were added and not deleted since, the changes taken in the order in which the
-- calls had the lock (or found no set to delete from), and nothing when there are none; podsFindExact
-- finds a pod of the version among them, and nothing only when none is of it; a reader that has loaded a set earlier finds these pods or
-- none.
pub reach-Agrees : {s : System} → Reach s → Agrees s
unfolding pods_find_all pods_find_exact read
reach-Agrees {s} r =
    let v = reach-IsSound r in
    let (all, exact) = found-Agrees s s.store.current refl v in
    (
      all,
      exact,
      λ k h. elim (Bool-cases (s.store.objects k).dead) [
        | inl d ↦ inr (ap some (v.dead_empty k d))
        | inr d ↦ inl (ap some (v.here k (v.alive k h d)).2)
      ],
    )

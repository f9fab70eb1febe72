-- ===== src/Gate/Pods/Sound.antt =====
-- One set of pods of a function is alive at a time, and it holds what was added and not deleted (src/gate/pods.go).
use swifty.Base.{
  ℕ, suc, ◌<◌, ◌≡◌, inl, inr, refl, sym, ap, ◌∙◌, true, false, Option, none, some, List, [], ◌∷◌,
  ◌==◌, arith, Bool-cases, ==_iff,
}
use swifty.Gate.Pods.{
  Pod, FnPods, put, delete, assign, is_empty, make_fn_pods, load_or, add_locked, del_locked,
}
use swifty.Gate.Pods.Runs.{
  replay, System, add_loads, add_locks, del_found, del_locks, Step, loads, locks, finds, deletes,
  initial, Reach, start, next,
}

-- Only the current set is alive, it has the pods, and all others are empty.
pub record IsSound (s : System) : Type 0 where
  pub alive :
      (k : ℕ) → k < s.store.made → (s.store.objects k).dead ≡ false → s.store.current ≡ some k
  pub dead_empty : (k : ℕ) → (s.store.objects k).dead ≡ true → (s.store.objects k).pods ≡ []
  pub here :
      (k : ℕ)
      → s.store.current ≡ some k
      → (k < s.store.made)
        × ((s.store.objects k).dead ≡ false)
        × ((s.store.objects k).pods ≡ replay s.history)
  pub gone : s.store.current ≡ none → replay s.history ≡ []
  pub adding : (g : ℕ) (p : Pod) (k : ℕ) → s.adders g ≡ some (p, k) → k < s.store.made
  pub deleting : (uid k : ℕ) → s.deleter ≡ some (uid, k) → s.store.current ≡ some k

put_cases {ℓ} :
    {A : Type ℓ} (k : ℕ) (x : A) (f : ℕ → A) (i : ℕ) (P : A → Type 0)
    → (i ≡ k → P x)
    → (((i == k) ≡ false) → P (f i))
    → P (put k x f i)
unfolding put
put_cases k x f i P y n = elim (Bool-cases (i == k)) [
  | inl e ↦ rw e (y ((==_iff i k).0 e))
  | inr e ↦ rw e (n e)
]

some-injective {ℓ} : {A : Type ℓ} {a b : A} → some a ≡ some b → a ≡ b
some-injective {a} e = ap (λ o. elim o [ none ↦ a | some x ↦ x ]) e

initial-IsSound : IsSound initial
unfolding replay
initial-IsSound = record {
  alive = λ k h d. absurd (omega arith);
  dead_empty = λ k d. refl;
  here = λ k e. ground arith;
  gone = λ e. refl;
  adding = λ g p k e. ground arith;
  deleting = λ uid k e. ground arith;
}

loaded-IsSound :
    (g : ℕ) (p : Pod) (s : System) (o : Option ℕ)
    → s.store.current ≡ o
    → IsSound s
    → let (store, k) = load_or o s.store in
      IsSound (record s { store = store; adders = put g (some (p, k)) s.adders })
unfolding load_or
loaded-IsSound g p s (some k) e v = record {
  alive = v.alive;
  dead_empty = v.dead_empty;
  here = v.here;
  gone = v.gone;
  adding = λ g' p' k' q.
      put_cases g (some (p, k)) s.adders g' (λ o. o ≡ some (p', k') → k' < s.store.made)
        (λ h r.
          let same : k ≡ k' = ap (λ x. x.1) (some-injective r) in
          let within : k < s.store.made = (v.here k e).0 in omega arith)
        (λ h. v.adding g' p' k') q;
  deleting = v.deleting;
}
loaded-IsSound g p s none e v = record {
  alive = λ k h d.
      put_cases s.store.made make_fn_pods s.store.objects k
        (λ x. x.dead ≡ false → some s.store.made ≡ some k) (λ i d. ap some (sym i))
        (λ i d.
          let older : k < s.store.made = ground (arith, i, h) in
          absurd (ground (arith, v.alive k older d, e)))
        d;
  dead_empty = λ k d.
      put_cases s.store.made make_fn_pods s.store.objects k (λ x. x.dead ≡ true → x.pods ≡ [])
        (λ i d. refl) (λ i d. v.dead_empty k d) d;
  here = λ k q.
      put_cases s.store.made make_fn_pods s.store.objects k
        (λ x. (k < suc s.store.made) × (x.dead ≡ false) × (x.pods ≡ replay s.history))
        (λ i. (omega arith, refl, sym (v.gone e)))
        (λ i. absurd (ground (arith, i, some-injective q)));
  gone = λ q. absurd (ground (arith, q));
  adding = λ g' p' k' q.
      put_cases g (some (p, s.store.made)) s.adders g'
        (λ o. o ≡ some (p', k') → k' < suc s.store.made)
        (λ h r. let same : s.store.made ≡ k' = ap (λ x. x.1) (some-injective r) in omega arith)
        (λ h r. let older : k' < s.store.made = v.adding g' p' k' r in omega arith) q;
  deleting = λ uid k q. absurd (ground (arith, v.deleting uid k q, e));
}

add_locks-IsSound :
    (g : ℕ) (p : Pod) (k : ℕ) (s : System)
    → s.adders g ≡ some (p, k)
    → IsSound s
    → IsSound (add_locks g p k s)
unfolding add_locks add_loads add_locked replay
add_locks-IsSound g p k s q v = elim (Bool-cases (s.store.objects k).dead) [
  | inl d ↦ rw d (loaded-IsSound g p s s.store.current refl v)
  | inr d ↦
      let within : k < s.store.made = v.adding g p k q in
      let current : s.store.current ≡ some k = v.alive k within d in
      let set : FnPods = record { pods = assign p (s.store.objects k).pods; dead = false } in
      rw d (record {
        alive = λ j h c.
            put_cases k set s.store.objects j (λ x. x.dead ≡ false → s.store.current ≡ some j)
              (λ i c. current ∙ ap some (sym i)) (λ i c. v.alive j h c) c;
        dead_empty = λ j c.
            put_cases k set s.store.objects j (λ x. x.dead ≡ true → x.pods ≡ [])
              (λ i c. absurd (ground (arith, c))) (λ i c. v.dead_empty j c) c;
        here = λ j c.
            put_cases k set s.store.objects j
              (λ x. (j < s.store.made) × (x.dead ≡ false) × (x.pods ≡ assign p (replay s.history)))
              (λ i. (omega arith, refl, ap (assign p) (v.here k current).2))
              (λ i. absurd (ground (arith, i, some-injective (sym current ∙ c))));
        gone = λ c. absurd (ground (arith, sym current ∙ c));
        adding = λ g' p' k' r.
            put_cases g none s.adders g' (λ o. o ≡ some (p', k') → k' < s.store.made)
              (λ i r. absurd (ground (arith, r))) (λ i. v.adding g' p' k') r;
        deleting = v.deleting;
      })
]

is_empty→[] : (ps : List Pod) → is_empty ps ≡ true → ps ≡ []
is_empty→[] [] e = refl
is_empty→[] (p ∷ ps) e = absurd (ground (arith, e))

del_found-IsSound :
    (uid : ℕ) (s : System) (o : Option ℕ)
    → s.store.current ≡ o
    → IsSound s
    → IsSound (del_found uid o s)
unfolding del_found replay delete
del_found-IsSound uid s none e v = record {
  alive = v.alive;
  dead_empty = v.dead_empty;
  here = λ k c. absurd (ground (arith, sym e ∙ c));
  gone = λ c. ap (delete uid) (v.gone e);
  adding = v.adding;
  deleting = v.deleting;
}
del_found-IsSound uid s (some k) e v = record {
  alive = v.alive;
  dead_empty = v.dead_empty;
  here = v.here;
  gone = v.gone;
  adding = v.adding;
  deleting = λ u j c. e ∙ ap some (ap (λ x. x.1) (some-injective c));
}

del_locks-IsSound :
    (uid k : ℕ) (s : System) → s.deleter ≡ some (uid, k) → IsSound s → IsSound (del_locks uid k s)
unfolding del_locks del_locked replay
del_locks-IsSound uid k s q v =
    let current : s.store.current ≡ some k = v.deleting uid k q in
    let left : List Pod = delete uid (s.store.objects k).pods in
    let is_left : left ≡ delete uid (replay s.history) = ap (delete uid) (v.here k current).2 in
    elim (Bool-cases (is_empty left)) [
      | inl e ↦ rw e (record {
        alive = λ j h c.
            put_cases k (record { pods = []; dead = true }) s.store.objects j
              (λ x. x.dead ≡ false → none ≡ some j) (λ i c. absurd (ground (arith, c)))
              (λ i c. absurd (ground (arith, i, some-injective (sym current ∙ v.alive j h c)))) c;
        dead_empty = λ j c.
            put_cases k (record { pods = []; dead = true }) s.store.objects j
              (λ x. x.dead ≡ true → x.pods ≡ []) (λ i c. refl) (λ i c. v.dead_empty j c) c;
        here = λ j c. absurd (ground (arith, c));
        gone = λ c. sym is_left ∙ is_empty→[] left e;
        adding = v.adding;
        deleting = λ u j c. absurd (ground (arith, c));
      })
      | inr e ↦
          let set : FnPods = record (s.store.objects k) { pods = left } in
          rw e (record {
            alive = λ j h c.
                put_cases k set s.store.objects j (λ x. x.dead ≡ false → s.store.current ≡ some j)
                  (λ i c. current ∙ ap some (sym i)) (λ i c. v.alive j h c) c;
            dead_empty = λ j c.
                put_cases k set s.store.objects j (λ x. x.dead ≡ true → x.pods ≡ [])
                  (λ i c. absurd (ground (arith, c, (v.here k current).1)))
                  (λ i c. v.dead_empty j c) c;
            here = λ j c.
                put_cases k set s.store.objects j
                  (λ x.
                    (j < s.store.made)
                    × (x.dead ≡ false)
                    × (x.pods ≡ delete uid (replay s.history)))
                  (λ i.
                    let within : k < s.store.made = (v.here k current).0 in
                    (omega arith, (v.here k current).1, is_left))
                  (λ i. absurd (ground (arith, i, some-injective (sym current ∙ c))));
            gone = λ c. absurd (ground (arith, sym current ∙ c));
            adding = v.adding;
            deleting = λ u j c. absurd (ground (arith, c));
          })
    ]

step-IsSound : (s s' : System) → Step s s' → IsSound s → IsSound s'
unfolding add_loads
step-IsSound s _ (loads g p q) v = loaded-IsSound g p s s.store.current refl v
step-IsSound s _ (locks g p k q) v = add_locks-IsSound g p k s q v
step-IsSound s _ (finds uid q) v = del_found-IsSound uid s s.store.current refl v
step-IsSound s _ (deletes uid k q) v = del_locks-IsSound uid k s q v

pub reach-IsSound : {s : System} → Reach s → IsSound s
reach-IsSound start = initial-IsSound
reach-IsSound (next {s} {s'} r t) = step-IsSound s s' t (reach-IsSound r)

-- ===== src/Gate/Stats/Runs.antt =====
-- The runs of a tenant's counters and their flushing (src/gate/stats.go).
use mathlib.Core.Path.{subst}
use swifty.Base.{
  ℕ, ◌≡◌, ◌≢◌, ◌⊎◌, ◌<◌, ◌^◌, inl, inr, refl, sym, ap, ◌∙◌, true, false, Option, none, some, arith,
  Bool-cases, if◌then◌else◌,
}
use swifty.Effects.{Error}
use swifty.Gate.Stats.{
  TenStatValues, no_calls, add64, sub64, add, sub, Phase, waiting, requested, over, writing,
  TenStats, init, count, mark_dirty, tick, begin_write, end_write, stop, add_other,
}

add64_assoc : (a b c : ℕ) → add64 (add64 a b) c ≡ add64 a (add64 b c)
unfolding add64
add64_assoc a b c = omega arith

add64-sub64 : (a b c : ℕ) → a < 2 ^ 64 → add64 (add64 a b) (sub64 c a) ≡ add64 c b
unfolding add64 sub64
add64-sub64 a b c h = omega arith

Values-path :
    (a b : TenStatValues)
    → a.called ≡ b.called
    → a.run_cost ≡ b.run_cost
    → a.bytes_in ≡ b.bytes_in
    → a.bytes_out ≡ b.bytes_out
    → a ≡ b
Values-path a b c r i o =
    λ k. record { called = c k; run_cost = r k; bytes_in = i k; bytes_out = o k }

abbrev pub IsSmall : TenStatValues → Type 0
IsSmall v =
    (v.called < 2 ^ 64) × (v.run_cost < 2 ^ 64) × (v.bytes_in < 2 ^ 64) × (v.bytes_out < 2 ^ 64)

add_assoc : (a b c : TenStatValues) → add (add a b) c ≡ add a (add b c)
unfolding add
add_assoc a b c =
    Values-path (add (add a b) c) (add a (add b c)) (add64_assoc a.called b.called c.called)
      (add64_assoc a.run_cost b.run_cost c.run_cost) (add64_assoc a.bytes_in b.bytes_in c.bytes_in)
      (add64_assoc a.bytes_out b.bytes_out c.bytes_out)

add-sub : (a b c : TenStatValues) → IsSmall a → add (add a b) (sub c a) ≡ add c b
unfolding add sub
add-sub a b c h =
    Values-path (add (add a b) (sub c a)) (add c b) (add64-sub64 a.called b.called c.called h.0)
      (add64-sub64 a.run_cost b.run_cost c.run_cost h.1)
      (add64-sub64 a.bytes_in b.bytes_in c.bytes_in h.2)
      (add64-sub64 a.bytes_out b.bytes_out c.bytes_out h.3)

add-zero : (a : TenStatValues) → IsSmall a → add a no_calls ≡ a
unfolding add add64
add-zero a h =
    Values-path (add a no_calls) a (omega (arith, h.0)) (omega (arith, h.1)) (omega (arith, h.2))
      (omega (arith, h.3))

add-IsSmall : (a b : TenStatValues) → IsSmall (add a b)
unfolding add add64
add-IsSmall a b = (omega arith, omega arith, omega arith, omega arith)

-- What can happen next, to counters that began with `start`.
pub data Step (s : TenStats) : TenStats → Type 0 where
  counts : (v : TenStatValues) → Step s (count v s)
  marks : s.unmarked ≢ 0 → Step s (mark_dirty s)
  ticks : s.phase ≡ waiting → Step s (tick s)
  begins : s.phase ≡ requested → Step s (begin_write s)
  ends :
      (now : TenStatValues) (e : Option Error) → s.phase ≡ writing now → Step s (end_write now e s)
  stops : s.phase ≡ waiting → Step s (stop s)
  adds : (v : TenStatValues) → Step s (add_other v s)

pub data Reach (start : TenStatValues) : TenStats → Type 0 where
  new : Reach start (init start)
  next : {s u : TenStats} → Reach start s → Step s u → Reach start u

-- What is in memory is on the disk, or is about to be noticed.
abbrev Covered : TenStatValues → TenStats → Type 0
Covered now s = (s.values ≡ now) ⊎ ((s.dirty ≡ true) ⊎ (s.unmarked ≢ 0))

abbrev IsCovered : Phase → TenStats → Type 0
IsCovered waiting s = Covered s.on_disk s ⊎ (s.failed ≡ true)
IsCovered over s = Covered s.on_disk s ⊎ (s.failed ≡ true)
IsCovered requested s = Unit
IsCovered (writing now) s = Covered now s

abbrev IsSmallAt : Phase → Type 0
IsSmallAt (writing now) = IsSmall now
IsSmallAt _ = Unit

record IsSound (start : TenStatValues) (s : TenStats) : Type 0 where
  total : s.values ≡ add start s.counted
  account : s.document ≡ add s.on_disk s.others
  small : IsSmall s.values
  small_disk : IsSmall s.on_disk
  small_now : IsSmallAt s.phase
  covered : IsCovered s.phase s

init-IsSound : (start : TenStatValues) → IsSmall start → IsSound start (init start)
unfolding init
init-IsSound start h = record {
  total = sym (add-zero start h);
  account = sym (add-zero start h);
  small = h;
  small_disk = h;
  small_now = tt;
  covered = inl (inl refl);
}

-- Once a call is not marked yet, or the counters are dirty, nothing is missed.
noticed : (p : Phase) (s : TenStats) → (s.dirty ≡ true) ⊎ (s.unmarked ≢ 0) → IsCovered p s
noticed waiting s h = inl (inr h)
noticed over s h = inl (inr h)
noticed requested s h = tt
noticed (writing now) s h = inr h

others-IsCovered :
    (p : Phase) (s : TenStats) (v : TenStatValues) → IsCovered p s → IsCovered p (add_other v s)
unfolding add_other
others-IsCovered waiting s v c = c
others-IsCovered over s v c = c
others-IsCovered requested s v c = c
others-IsCovered (writing now) s v c = c

tick-dirty :
    (s : TenStats) → s.dirty ≡ true → tick s ≡ record s { dirty = false; phase = requested }
unfolding tick
tick-dirty s h = ap (λ b. if b then record s { dirty = false; phase = requested } else s) h

tick-clean : (s : TenStats) → s.dirty ≡ false → tick s ≡ s
unfolding tick
tick-clean s h = ap (λ b. if b then record s { dirty = false; phase = requested } else s) h

end-IsSound :
    (start now : TenStatValues) (e : Option Error) (s : TenStats)
    → s.phase ≡ writing now
    → IsSound start s
    → IsSound start (end_write now e s)
unfolding end_write
end-IsSound start now (some e) s h k = record {
  total = k.total;
  account = k.account;
  small = k.small;
  small_disk = k.small_disk;
  small_now = tt;
  covered = inr refl;
}
end-IsSound start now none s h k = record {
  total = k.total;
  account =
      ap (λ d. add d (sub now s.on_disk)) k.account ∙ add-sub s.on_disk s.others now k.small_disk;
  small = k.small;
  small_disk = subst IsSmallAt h k.small_now;
  small_now = tt;
  covered = inl (subst (λ p. IsCovered p s) h k.covered);
}

Step-IsSound :
    (start : TenStatValues) {s u : TenStats} → Step s u → IsSound start s → IsSound start u
unfolding count mark_dirty begin_write stop add_other
Step-IsSound start {s} (counts v) k = record {
  total = ap (λ t. add t v) k.total ∙ add_assoc start s.counted v;
  account = k.account;
  small = add-IsSmall s.values v;
  small_disk = k.small_disk;
  small_now = k.small_now;
  covered = noticed s.phase (count v s) (inr (omega arith));
}
Step-IsSound start {s} (marks h) k = record {
  total = k.total;
  account = k.account;
  small = k.small;
  small_disk = k.small_disk;
  small_now = k.small_now;
  covered = noticed s.phase (mark_dirty s) (inl refl);
}
Step-IsSound start {s} (ticks h) k = elim (Bool-cases s.dirty) [
  | inl d ↦ subst (IsSound start) (sym (tick-dirty s d)) (record {
    total = k.total;
    account = k.account;
    small = k.small;
    small_disk = k.small_disk;
    small_now = tt;
    covered = tt;
  })
  | inr d ↦ subst (IsSound start) (sym (tick-clean s d)) k
]
Step-IsSound start {s} (begins h) k = record {
  total = k.total;
  account = k.account;
  small = k.small;
  small_disk = k.small_disk;
  small_now = k.small;
  covered = inl refl;
}
Step-IsSound start {s} (ends now e h) k = end-IsSound start now e s h k
Step-IsSound start {s} (stops h) k = record {
  total = k.total;
  account = k.account;
  small = k.small;
  small_disk = k.small_disk;
  small_now = tt;
  covered = subst (λ p. IsCovered p s) h k.covered;
}
Step-IsSound start {s} (adds v) k = record {
  total = k.total;
  account = ap (λ t. add t v) k.account ∙ add_assoc s.on_disk s.others v;
  small = k.small;
  small_disk = k.small_disk;
  small_now = k.small_now;
  covered = others-IsCovered s.phase s v k.covered;
}

Reach-IsSound :
    {start : TenStatValues} {s : TenStats} → IsSmall start → Reach start s → IsSound start s
Reach-IsSound {start} h new = init-IsSound start h
Reach-IsSound {start} h (next r st) = Step-IsSound start st (Reach-IsSound h r)

-- When the goroutine is in its select or at its end, nothing is dirty, every count is marked, and the last Write has
-- not failed.
pub record IsFlushed (s : TenStats) : Type 0 where
  pub at_rest : (s.phase ≡ waiting) ⊎ (s.phase ≡ over)
  pub clean : s.dirty ≡ false
  pub marked : s.unmarked ≡ 0
  pub written : s.failed ≡ false

covered-rest : (s : TenStats) → IsFlushed s → IsCovered s.phase s → s.values ≡ s.on_disk
covered-rest s f c =
    let rest : Covered s.on_disk s ⊎ (s.failed ≡ true) = elim f.at_rest [
      | inl q ↦ subst (λ p. IsCovered p s) q c
      | inr q ↦ subst (λ p. IsCovered p s) q c
    ] in
    let clean = f.clean in
    let marked = f.marked in let written = f.written in ground (arith, rest, clean, marked, written)

-- In any order of calls, ticks, writes that fail or not, and writes of other gates: when the counters are flushed,
-- the document has what it began with and all that this gate and the others have counted, mod 2^64.
pub reach-flushed :
    {start : TenStatValues} {s : TenStats}
    → IsSmall start
    → Reach start s
    → IsFlushed s
    → s.document ≡ add (add start s.counted) s.others
reach-flushed {start} {s} h r f =
    let k = Reach-IsSound h r in
    k.account ∙ ap (λ v. add v s.others) (sym (covered-rest s f k.covered) ∙ k.total)

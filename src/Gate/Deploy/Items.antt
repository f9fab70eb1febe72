-- ===== src/Gate/Deploy/Items.antt =====
-- What the loops over the items start and stop.
use mathlib.Core.List.{append_assoc, append-nil}
use swifty.Base.{
  ℕ, zero, suc, ◌+◌, ◌<◌, ◌≡◌, ◌⊎◌, inl, inr, refl, ◌∙◌, Bool, true, false, Option, String, List,
  [], ◌∷◌, ◌++◌, length, take, arith, Option-cases, is_none,
}
use swifty.Effects.{Error, Env, Trace}
use swifty.Gate.Deploy.{
  Kind, mware, function, router, Call, start, stop, start_loop, stop_loop, keep_error,
}

abbrev pub same_kind : Kind → Kind → Bool
same_kind mware mware = true
same_kind function function = true
same_kind router router = true
same_kind _ _ = false

abbrev add_if : Bool → String → List String → List String
add_if true x xs = xs ++ x ∷ []
add_if false x xs = xs

-- The items of the kind that were started, oldest first.
unfoldable pub begun : Kind → Trace Call → List String
begun k [] = []
begun k ((start j x, true) ∷ t) = add_if (same_kind k j) x (begun k t)
begun k (_ ∷ t) = begun k t

-- The items of the kind that were asked to stop, oldest first.
unfoldable pub ended : Kind → Trace Call → List String
ended k [] = []
ended k ((stop j x, _) ∷ t) = add_if (same_kind k j) x (ended k t)
ended k (_ ∷ t) = ended k t

-- The loop variable after a full pass over the list.
abbrev pub left_with : ℕ → ℕ → List String → ℕ
left_with i last [] = last
left_with i last (x ∷ xs) = left_with (suc i) i xs

same_kind_self : (k : Kind) → same_kind k k ≡ true
same_kind_self k = ground arith

one_more :
    (k : Kind) (x : String) (t : Trace Call) (ys : List String)
    → begun k ((start k x, true) ∷ t) ++ ys ≡ begun k t ++ x ∷ ys
unfolding begun
one_more k x t ys = rw (same_kind_self k) (append_assoc (begun k t) (x ∷ []) ys)

other_kind :
    (j k : Kind) (x : String) (t : Trace Call)
    → same_kind j k ≡ false
    → begun j ((start k x, true) ∷ t) ≡ begun j t
unfolding begun
other_kind j k x t h = rw h

one_more_stop :
    (k : Kind) (x : String) (b : Bool) (t : Trace Call) (ys : List String)
    → ended k ((stop k x, b) ∷ t) ++ ys ≡ ended k t ++ x ∷ ys
unfolding ended
one_more_stop k x b t ys = rw (same_kind_self k) (append_assoc (ended k t) (x ∷ []) ys)

other_kind_stop :
    (j k : Kind) (x : String) (b : Bool) (t : Trace Call)
    → same_kind j k ≡ false
    → ended j ((stop k x, b) ∷ t) ≡ ended j t
unfolding ended
other_kind_stop j k x b t h = rw h

abbrev pub Outcome : ℕ → ℕ → List String → ℕ → ℕ × Bool → Type 0
Outcome i last xs n r =
    (r.1 ≡ false) × (r.0 ≡ i + n) × (n < length xs)
    ⊎ (r.1 ≡ true) × (n ≡ length xs) × (r.0 ≡ left_with i last xs)

Outcome-suc :
    (i last : ℕ) (x : String) (xs : List String) (n : ℕ) (r : ℕ × Bool)
    → Outcome (suc i) i xs n r
    → Outcome i last (x ∷ xs) (suc n) r
Outcome-suc i last x xs n r (inl (f, e, l)) = inl (f, omega arith, omega arith)
Outcome-suc i last x xs n r (inr (f, e, l)) = inr (f, omega arith, l)

module _ (env : Env Call) where
  -- `n` items were started.
  pub record Ran (k : Kind) (i last : ℕ) (xs : List String) (t : Trace Call)
      (r : (ℕ × Bool) × Trace Call) : Type 0 where
    pub n : ℕ
    pub own : begun k r.1 ≡ begun k t ++ take n xs
    pub others : (j : Kind) → same_kind j k ≡ false → begun j r.1 ≡ begun j t
    pub stops : (j : Kind) → ended j r.1 ≡ ended j t
    pub outcome : Outcome i last xs n r.0

  pub start_loop-Ran :
      (k : Kind) (i last : ℕ) (xs : List String) (t : Trace Call)
      → Ran k i last xs t (start_loop env k i last xs t)
  unfolding start_loop begun ended
  start_loop-Ran k i last [] t = record {
    n = 0;
    own = rw append-nil;
    others = λ j h. refl;
    stops = λ j. refl;
    outcome = inr (refl, refl, refl);
  }
  start_loop-Ran k i last (x ∷ xs) t = elim (Option-cases (env t (start k x))) [
    | inr (e, p) ↦
        rw (p, start_loop)
          (record {
            n = 0;
            own = rw append-nil;
            others = λ j h. refl;
            stops = λ j. refl;
            outcome = inl (refl, omega arith, omega arith);
          })
    | inl p ↦
        let t' : Trace Call = (start k x, true) ∷ t in
        let ih : Ran k (suc i) i xs t' (start_loop env k (suc i) i xs t') =
          start_loop-Ran k (suc i) i xs t' in
        rw (p, start_loop)
          (record {
            n = suc ih.n;
            own = ih.own ∙ one_more k x t (take ih.n xs);
            others = λ j h. ih.others j h ∙ other_kind j k x t h;
            stops = λ j. ih.stops j;
            outcome = Outcome-suc i last x xs ih.n _ ih.outcome;
          })
  ]

  -- Every item up to `till` is asked to stop, whatever the others answer, and no item is started.
  pub stop_loop-ended :
      (k : Kind) (till : ℕ) (xs : List String) (err : Option Error) (t : Trace Call)
      → let t' = (stop_loop env k till xs err t).1 in
        (ended k t' ≡ ended k t ++ take till xs)
        × ((j : Kind) → same_kind j k ≡ false → ended j t' ≡ ended j t)
        × ((j : Kind) → begun j t' ≡ begun j t)
  unfolding stop_loop ended begun
  stop_loop-ended k zero [] err t = (rw append-nil, λ j h. refl, λ j. refl)
  stop_loop-ended k (suc till) [] err t = (rw append-nil, λ j h. refl, λ j. refl)
  stop_loop-ended k zero (x ∷ xs) err t = (rw append-nil, λ j h. refl, λ j. refl)
  stop_loop-ended k (suc till) (x ∷ xs) err t =
      let b : Bool = is_none (env t (stop k x)) in
      let (own, others, starts) =
        stop_loop-ended k till xs (keep_error env err (env t (stop k x))) ((stop k x, b) ∷ t) in
      (
        own ∙ one_more_stop k x b t (take till xs),
        (λ j h. others j h ∙ other_kind_stop j k x b t h),
        starts,
      )

-- ===== src/S3/Listing/Scan.antt =====
-- The walk of s3ListBucket over the sorted objects (src/s3/bucket.go): what it skips, and where it stops.
use swifty.Base.{
  ℕ, ◌≡◌, inl, inr, refl, true, false, Option, none, some, List, [], ◌∷◌, ◌++◌, map, arith,
  Bool-cases,
}
use swifty.Base.Bytes.{Bytes, same, same_iff, same_sym, le_bytes, le_bytes_antisymm}
use swifty.S3.Listing.{Object, Iam, Params, Walk, Step, go, stop, slice_panic, visit, walk, has}

-- The newest version of each key that is not `pkey`, in an order by keys.
unfoldable pub firsts : Bytes → List Object → List Object
firsts pkey [] = []
firsts pkey (o ∷ os) = elim (same o.key pkey) [
  | true ↦ firsts pkey os
  | false ↦ o ∷ firsts o.key os
]

firsts-same :
    (pkey : Bytes) (o : Object) (os : List Object)
    → same o.key pkey ≡ true
    → firsts pkey (o ∷ os) ≡ firsts pkey os
unfolding firsts
firsts-same pkey o os e = rw (e, firsts) refl

firsts-new :
    (pkey : Bytes) (o : Object) (os : List Object)
    → same o.key pkey ≡ false
    → firsts pkey (o ∷ os) ≡ o ∷ firsts o.key os
unfolding firsts
firsts-new pkey o os e = rw (e, firsts) refl

abbrev pub keys : List Object → List Bytes
keys os = map (λ o. o.key) os

abbrev pub Each : (Object → Type 0) → List Object → Type 0
Each P [] = Unit
Each P (o ∷ os) = P o × Each P os

pub Each-firsts :
    (P : Object → Type 0) (pkey : Bytes) (os : List Object) → Each P os → Each P (firsts pkey os)
unfolding firsts
Each-firsts P pkey [] h = h
Each-firsts P pkey (o ∷ os) h = elim (Bool-cases (same o.key pkey)) [
  | inl e ↦ rw (firsts-same pkey o os e) (Each-firsts P pkey os h.1)
  | inr e ↦ rw (firsts-new pkey o os e) (h.0, Each-firsts P o.key os h.1)
]

pub Each-suffix : (P : Object → Type 0) (a b : List Object) → Each P (a ++ b) → Each P b
Each-suffix P [] b h = h
Each-suffix P (o ∷ a) b h = Each-suffix P a b h.1

-- The order in which the database gives the objects.
abbrev pub Sorted : List Object → Type 0
Sorted [] = Unit
Sorted (o ∷ os) = Each (λ u. le_bytes o.key u.key ≡ true) os × Sorted os

abbrev pub Distinct : List Object → Type 0
Distinct [] = Unit
Distinct (o ∷ os) = (has (keys os) o.key ≡ false) × Distinct os

-- A text below some keys is not among them.
firsts-above :
    (t k pkey : Bytes) (os : List Object)
    → le_bytes t k ≡ true
    → same k t ≡ false
    → Each (λ u. le_bytes k u.key ≡ true) os
    → has (keys (firsts pkey os)) t ≡ false
unfolding firsts
firsts-above t k pkey [] le ne h = refl
firsts-above t k pkey (o ∷ os) le ne h = elim (Bool-cases (same o.key pkey)) [
  | inl e ↦ rw (firsts-same pkey o os e) (firsts-above t k pkey os le ne h.1)
  | inr e ↦
      let (f, g) = same_iff o.key t in
      let (f', g') = same_iff k t in
      let ih = firsts-above t k o.key os le ne h.1 in
      let anti = le_bytes_antisymm t k in
      let low = h.0 in rw (firsts-new pkey o os e) (grind (arith, f, g', ih, anti, low))
]

-- What is left for a key is above it.
pub firsts-fresh :
    (pkey : Bytes) (os : List Object)
    → Each (λ u. le_bytes pkey u.key ≡ true) os
    → Sorted os
    → has (keys (firsts pkey os)) pkey ≡ false
unfolding firsts
firsts-fresh pkey [] h s = refl
firsts-fresh pkey (o ∷ os) h s = elim (Bool-cases (same o.key pkey)) [
  | inl e ↦ rw (firsts-same pkey o os e) (firsts-fresh pkey os h.1 s.1)
  | inr e ↦ rw (firsts-new pkey o os e, e) (firsts-above pkey o.key o.key os h.0 e s.0)
]

pub firsts-Distinct : (pkey : Bytes) (os : List Object) → Sorted os → Distinct (firsts pkey os)
unfolding firsts
firsts-Distinct pkey [] h = h
firsts-Distinct pkey (o ∷ os) h = elim (Bool-cases (same o.key pkey)) [
  | inl e ↦ rw (firsts-same pkey o os e) (firsts-Distinct pkey os h.1)
  | inr e ↦
      rw (firsts-new pkey o os e) (firsts-fresh o.key os h.0 h.1, firsts-Distinct o.key os h.1)
]

module _ (p : Params) (iam : Iam) where
  -- The walk over objects of different keys.
  pub scan : ℕ → List Object → Walk → Option Walk
  scan max [] w = some w
  scan max (o ∷ os) w = elim (visit p iam max w o) [
    | go w' ↦ scan max os w'
    | stop w' ↦ some w'
    | slice_panic ↦ none
  ]

  pub scan-nil : (max : ℕ) (w : Walk) → scan max [] w ≡ some w
  unfolding scan
  scan-nil max w = refl

  pub scan-go :
      (max : ℕ) (o : Object) (os : List Object) (w w' : Walk)
      → visit p iam max w o ≡ go w'
      → scan max (o ∷ os) w ≡ scan max os w'
  unfolding scan
  scan-go max o os w w' e = rw (e, scan) refl

  pub scan-stop :
      (max : ℕ) (o : Object) (os : List Object) (w w' : Walk)
      → visit p iam max w o ≡ stop w'
      → scan max (o ∷ os) w ≡ some w'
  unfolding scan
  scan-stop max o os w w' e = rw (e, scan) refl

  abbrev rest_of_walk : ℕ → Object → List Object → Step → Option Walk
  rest_of_walk max o os (go w') = walk p iam max o.key os w'
  rest_of_walk max o os (stop w') = some w'
  rest_of_walk max o os slice_panic = none

  abbrev rest_of_scan : ℕ → List Object → Step → Option Walk
  rest_of_scan max os (go w') = scan max os w'
  rest_of_scan max os (stop w') = some w'
  rest_of_scan max os slice_panic = none

  pub walk-scan :
      (max : ℕ) (pkey : Bytes) (os : List Object) (w : Walk)
      → walk p iam max pkey os w ≡ scan max (firsts pkey os) w
  unfolding walk scan firsts
  walk-scan max pkey [] w = refl
  walk-scan max pkey (o ∷ os) w = elim (Bool-cases (same o.key pkey)) [
    | inl e ↦ rw (firsts-same pkey o os e, e, walk) (walk-scan max pkey os w)
    | inr e ↦
        let v = visit p iam max w o in
        rw (firsts-new pkey o os e, e, walk)
          (elim v as (λ s. rest_of_walk max o os s ≡ rest_of_scan max (firsts o.key os) s) [
            | go w' ↦ walk-scan max o.key os w'
            | stop w' ↦ refl
            | slice_panic ↦ refl
          ])
  ]

pub absent-middle :
    (a : List Object) (o : Object) (b : List Object) (x : Bytes)
    → has (keys (a ++ o ∷ b)) x ≡ false
    → same o.key x ≡ false
absent-middle [] o b x h = ground arith
absent-middle (u ∷ a) o b x h = absent-middle a o b x (ground arith)

pub Distinct-split :
    (a : List Object) (o : Object) (b : List Object)
    → Distinct (a ++ o ∷ b)
    → has (keys a) o.key ≡ false
Distinct-split [] o b h = refl
Distinct-split (x ∷ a) o b h =
    let ih = Distinct-split a o b h.1 in
    ground (arith, ih, absent-middle a o b x.key h.0, same_sym o.key x.key)

-- ===== src/S3/Listing/Pages.antt =====
-- The pages of s3ListBucket, one after the other (src/s3/bucket.go).
use mathlib.Core.List.{append_assoc, append-nil}
use swifty.Base.{
  ℕ, ◌≡◌, ◌⊎◌, inl, inr, refl, sym, ap, ◌∙◌, Bool, true, false, not, ◌||◌, none, some, List, [],
  ◌∷◌, ◌++◌, length, take, drop, ltb, leb, ◌+◌, ◌==◌, if◌then◌else◌, arith, Bool-cases,
  Option-cases,
}
use swifty.Base.Bytes.{Bytes, same, same_iff, index}
use swifty.S3.Listing.{
  Object, Iam, Params, Entry, Walk, go, stop, visit, has, given, grouped, add_content, add_prefix,
  entry,
}
use swifty.S3.Listing.Scan.{scan, scan-go, scan-stop, scan-nil, keys, Each}

-- Whether a key is listed by itself: no delimiter is asked for, or none follows the prefix in it.
shown_by : Bytes → Bytes → Object → Bool
shown_by delimiter prefix o =
    if given delimiter
    then elim (index (drop (length prefix) o.key) delimiter) [
      | none ↦ true
      | some at ↦ not (leb (at + length prefix + length delimiter) (length o.key))
    ]
    else true

pub shown : Params → Object → Bool
unfolding shown_by
shown p o = shown_by p.delimiter p.prefix o

or_false : (a b : Bool) → (a || b) ≡ false → a ≡ false
or_false a b h = ground arith

module _ (p : Params) (iam : Iam) where
  -- The entries of the objects that are listed by themselves.
  pub entries : List Object → List Entry
  unfolding shown
  entries [] = []
  entries (o ∷ os) = let rest = entries os in if shown p o then entry p iam o ∷ rest else rest

  pub entries-append : (a b : List Object) → entries (a ++ b) ≡ entries a ++ entries b
  unfolding entries
  entries-append [] b = refl
  entries-append (o ∷ a) b = ground (arith, entries-append a b)

  abbrev pub IsLong : Object → Type 0
  IsLong o = ltb (length o.key) (length p.prefix) ≡ false

  abbrev pub IsWalking : Walk → Type 0
  IsWalking w = (w.starting ≡ false) × (w.continuing ≡ false) × (w.truncated ≡ none)

  visit-walks :
      (max : ℕ) (w : Walk) (o : Object)
      → IsWalking w
      → visit p iam max w o
        ≡ (if given p.delimiter then grouped p iam max w o else add_content p iam max w o)
  unfolding visit
  visit-walks max w o h = ground arith

  -- A visit of a key lists it or counts it for a common prefix.
  visit-cases :
      (max : ℕ) (w : Walk) (o : Object)
      → IsWalking w
      → IsLong o
      → ((shown p o ≡ true) × (visit p iam max w o ≡ add_content p iam max w o))
        ⊎ ((w' : Walk) × (shown p o ≡ false)
            × (visit p iam max w o ≡ go w')
            × (w'.contents ≡ w.contents)
            × IsWalking w')
  unfolding grouped add_prefix shown shown_by
  visit-cases max w o h long = elim (Bool-cases (given p.delimiter)) [
    | inr e ↦ inl (rw e refl, visit-walks max w o h ∙ rw e refl)
    | inl e ↦ elim (Option-cases (index (drop (length p.prefix) o.key) p.delimiter)) [
      | inl none_found ↦
          inl (
            rw (e, none_found) refl,
            visit-walks max w o h ∙ rw (e, grouped, long, none_found) refl,
          )
      | inr (at, found) ↦
          elim (Bool-cases (leb (at + length p.prefix + length p.delimiter) (length o.key))) [
            | inr over ↦ inl (
              rw (e, found, over) refl,
              visit-walks max w o h ∙ rw (e, grouped, long, found, over) refl,
            )
            | inl within ↦ elim (Bool-cases (at == 0)) [
              | inl z ↦ inr (
                w,
                rw (e, found, within) refl,
                visit-walks max w o h ∙ rw (e, grouped, long, found, within, z) refl,
                refl,
                h,
              )
              | inr z ↦
                  let t = take (length p.prefix + at + length p.delimiter) o.key in
                  inr (
                    add_prefix p iam w t,
                    rw (e, found, within) refl,
                    visit-walks max w o h ∙ rw (e, grouped, long, found, within, z) refl,
                    ground arith,
                    (ground arith, ground arith, ground arith),
                  )
            ]
          ]
    ]
  ]

  visit-skips :
      (max : ℕ) (w : Walk) (o : Object)
      → w.starting ≡ false
      → w.continuing ≡ true
      → visit p iam max w o
        ≡ go (if same o.key p.cont_token_decoded then record w { continuing = false } else w)
  unfolding visit
  visit-skips max w o s c = ground arith

  -- The keys up to the marker are skipped.
  pub scan-skip :
      (max : ℕ) (a : List Object) (o : Object) (b : List Object) (w : Walk)
      → w.starting ≡ false
      → w.continuing ≡ true
      → o.key ≡ p.cont_token_decoded
      → has (keys a) o.key ≡ false
      → scan p iam max (a ++ o ∷ b) w ≡ scan p iam max b (record w { continuing = false })
  scan-skip max [] o b w s c e h =
      let found : same o.key p.cont_token_decoded ≡ true =
        (same_iff o.key p.cont_token_decoded).1 e in
      scan-go p iam max o b w (record w { continuing = false })
        (visit-skips max w o s c ∙ rw found refl)
  scan-skip max (x ∷ a) o b w s c e h =
      let other : same x.key p.cont_token_decoded ≡ false =
        ap (same x.key) (sym e) ∙ or_false (same x.key o.key) (has (keys a) o.key) h in
      scan-go p iam max x (a ++ o ∷ b) w w (visit-skips max w x s c ∙ rw other refl)
      ∙ scan-skip max a o b w s c e (ground arith)

  abbrev pub Filled : Walk → Walk → List Object → Type 0
  Filled w w' os = w'.contents ≡ w.contents ++ entries os

  -- A walk ends with all objects, or at one that fills the page, and is listed.
  pub scan-page :
      (max : ℕ) (os : List Object) (w : Walk)
      → IsWalking w
      → Each IsLong os
      → (w' : Walk) × (scan p iam max os w ≡ some w')
        × (((w'.truncated ≡ none) × Filled w w' os)
            ⊎ ((a b : List Object) × (o : Object) × (os ≡ a ++ o ∷ b)
                × (w'.truncated ≡ some o.key)
                × Filled w w' (a ++ o ∷ [])))
  unfolding entries add_content
  scan-page max [] w h long = (w, scan-nil p iam max w, inl (h.2, sym (append-nil w.contents)))
  scan-page max (o ∷ os) w h long = elim (visit-cases max w o h long.0) [
    | inr (w1, hidden, e, same_contents, h1) ↦
        let (w', r, d) = scan-page max os w1 h1 long.1 in
        (
          w',
          scan-go p iam max o os w w1 e ∙ r,
          elim d [
            | inl (end, filled) ↦
                inl (end, rw hidden (filled ∙ ap (λ c. c ++ entries os) same_contents))
            | inr (a, b, last, split, cut, filled) ↦ inr (
              o ∷ a,
              b,
              last,
              ap (λ l. o ∷ l) split,
              cut,
              rw hidden (filled ∙ ap (λ c. c ++ entries (a ++ last ∷ [])) same_contents),
            )
          ],
        )
    | inl (listed, e) ↦
        let w1 : Walk = record w { contents = w.contents ++ entry p iam o ∷ [] } in
        elim (Bool-cases (leb max (length w1.contents))) [
          | inl full ↦
              let e' : visit p iam max w o ≡ stop (record w1 { truncated = some o.key }) =
                e ∙ rw full refl in
              (
                record w1 { truncated = some o.key },
                scan-stop p iam max o os w (record w1 { truncated = some o.key }) e',
                inr ([], os, o, refl, refl, rw listed refl),
              )
          | inr room ↦
              let e' : visit p iam max w o ≡ go w1 = e ∙ rw room refl in
              let (w', r, d) = scan-page max os w1 h long.1 in
              (
                w',
                scan-go p iam max o os w w1 e' ∙ r,
                elim d [
                  | inl (end, filled) ↦ inl (
                    end,
                    rw listed (filled ∙ append_assoc w.contents (entry p iam o ∷ []) (entries os)),
                  )
                  | inr (a, b, last, split, cut, filled) ↦ inr (
                    o ∷ a,
                    b,
                    last,
                    ap (λ l. o ∷ l) split,
                    cut,
                    rw listed (
                        filled
                        ∙ append_assoc w.contents (entry p iam o ∷ []) (entries (a ++ last ∷ []))),
                  )
                ],
              )
        ]
  ]

-- The marker and the number of keys do not change what is listed.
pub entries-same :
    (p q : Params) (iam : Iam) (os : List Object)
    → p.delimiter ≡ q.delimiter
    → p.prefix ≡ q.prefix
    → p.fetch_owner ≡ q.fetch_owner
    → entries p iam os ≡ entries q iam os
unfolding entries shown entry
entries-same p q iam [] d x f = refl
entries-same p q iam (o ∷ os) d x f =
    let s : shown p o ≡ shown q o = λ i. shown_by (d i) (x i) o in
    ground (arith, s, f, entries-same p q iam os d x f)

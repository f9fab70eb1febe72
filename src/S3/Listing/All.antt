-- ===== src/S3/Listing/All.antt =====
-- All pages of a listing: a client that asks for the next page by the last one's NextMarker.
use mathlib.Core.List.{append_assoc}
use mathlib.Core.Path.{subst}
use swifty.Base.{
  ℕ, zero, suc, ◌≡◌, ◌⊎◌, inl, inr, refl, sym, ap, ◌∙◌, true, false, Option, none, some, List, [],
  ◌∷◌, ◌++◌, length, ltb, ◌==◌, ◌||◌, Option-cases, ◌<◌, if◌then◌else◌, arith, length-append,
}
use swifty.Base.Ints.{ℤ, pos, negsuc}
use swifty.Base.Bytes.{Bytes, same, le_bytes}
use swifty.S3.Listing.{
  Object, Iam, Params, Entry, Walk, Codec, Listing, listed, request, validate, decode_token,
  use_marker, check_max_keys, unless_long, bad_text, first_walk, of_walk, list_found, list_bucket,
  walk, natural, max_objects, has, given, page,
}
use swifty.S3.Listing.Scan.{
  firsts, scan, walk-scan, keys, Each, Each-suffix, Each-firsts, Sorted, Distinct, Distinct-split,
  firsts-Distinct, firsts-fresh, absent-middle,
}
use swifty.S3.Listing.Pages.{entries, entries-same, entries-append, IsLong, scan-skip, scan-page}

above-nothing : (os : List Object) → Each (λ u. le_bytes [] u.key ≡ true) os
unfolding le_bytes
above-nothing [] = tt
above-nothing (o ∷ os) = (refl, above-nothing os)

not_empty : (t : Bytes) → same t [] ≡ false → given t ≡ true
unfolding same
not_empty [] h = ground arith
not_empty (b ∷ t) h = refl

after : Option (List Entry) → List Entry → Option (List Entry)
after none es = none
after (some rest) es = some (es ++ rest)

module _ (codec : Codec) (iam : Iam) (objects : Bytes → List Object) where
  -- The contents of the pages from a marker on.
  pub all_pages : ℕ → Bytes → Bytes → ℤ → Bytes → Option (List Entry)
  unfolding after
  all_pages zero prefix delimiter max_keys m = none
  all_pages (suc n) prefix delimiter max_keys m =
      elim (list_bucket codec iam objects (request prefix delimiter max_keys m) none) [
        | listed l ↦
            let rest = all_pages n prefix delimiter max_keys l.next_marker in
            if l.is_truncated then after rest l.contents else some l.contents
        | _ ↦ none
      ]

  all_pages-step :
      (n : ℕ) (prefix delimiter : Bytes) (max_keys : ℤ) (m : Bytes) (l : Listing)
      → list_bucket codec iam objects (request prefix delimiter max_keys m) none ≡ listed l
      → all_pages (suc n) prefix delimiter max_keys m ≡ (
          if l.is_truncated
          then after (all_pages n prefix delimiter max_keys l.next_marker) l.contents
          else some l.contents)
  unfolding all_pages
  all_pages-step n prefix delimiter max_keys m l e = rw (e, all_pages) refl

module _ (codec : Codec) (prefix delimiter : Bytes) (max_keys : ℤ) where
  -- The parameters that Validate makes of a request.
  abbrev accepted : ℤ → Bytes → Params
  accepted k m = record (request prefix delimiter max_keys m) {
    max_keys = k;
    cont_token_decoded = m;
  }

  -- Only the number of keys is changed otherwise, and the marker is not looked at.
  limit : Option ℤ
  unfolding bad_text
  limit =
      if bad_text codec delimiter || bad_text codec prefix || ltb 1 (length delimiter)
      then none
      else elim max_keys [
        | negsuc n ↦ some (pos codec.default_list_objects)
        | pos n ↦
            if n == 0
            then some (pos codec.default_list_objects)
            else if ltb max_objects n
            then none
            else some (pos n)
      ]

  accept : Bytes → Option ℤ → Option Params
  accept m none = none
  accept m (some k) = some (accepted k m)

  validate-request :
      (m : Bytes) → validate codec (request prefix delimiter max_keys m) ≡ accept m limit
  unfolding validate request decode_token use_marker unless_long check_max_keys limit accept
  validate-request [] = ground arith
  validate-request (b ∷ m) = ground arith

  -- What is listed does not depend on the marker.
  abbrev listed_entries : Iam → List Object → List Entry
  listed_entries iam os = entries (request prefix delimiter max_keys []) iam os

  entries-accepted :
      (iam : Iam) (k : ℤ) (m : Bytes) (os : List Object)
      → entries (accepted k m) iam os ≡ listed_entries iam os
  unfolding request
  entries-accepted iam k m os =
      entries-same (accepted k m) (request prefix delimiter max_keys []) iam os refl refl refl

  -- The marker after the objects of the pages before.
  abbrev IsAfter : Bytes → List Object → Type 0
  IsAfter m pre =
      ((m ≡ []) × (pre ≡ []))
      ⊎ ((a : List Object) × (o : Object) × (m ≡ o.key) × (pre ≡ a ++ o ∷ []))

  abbrev fresh : Walk
  fresh = record {
    starting = false;
    continuing = false;
    prefixes = [];
    contents = [];
    truncated = none;
  }

  module _ (iam : Iam) (k : ℤ) (vis : List Object) (distinct : Distinct vis)
      (named : has (keys vis) [] ≡ false) where
    scan-after :
        (m : Bytes) (pre rest : List Object)
        → vis ≡ pre ++ rest
        → IsAfter m pre
        → scan (accepted k m) iam (natural k) vis (first_walk (accepted k m))
          ≡ scan (accepted k m) iam (natural k) rest fresh
    unfolding first_walk request
    scan-after m pre rest e (inl (m0, p0)) = rw (e, p0, m0) refl
    scan-after m pre rest e (inr (a, o, mo, po)) =
        let split : vis ≡ a ++ o ∷ rest =
          e ∙ ap (λ l. l ++ rest) po ∙ append_assoc a (o ∷ []) rest in
        let d : Distinct (a ++ o ∷ rest) = subst Distinct split distinct in
        let n : same o.key [] ≡ false =
          absent-middle a o rest [] (subst (λ l. has (keys l) [] ≡ false) split named) in
        let g : given m ≡ true = rw mo (not_empty o.key n) in
        ap (λ l. scan (accepted k m) iam (natural k) l (first_walk (accepted k m))) split
        ∙ scan-skip (accepted k m) iam (natural k) a o rest (first_walk (accepted k m)) refl g
            (sym mo) (Distinct-split a o rest d)

    -- One page: it lists what is left, or what is left up to its NextMarker.
    page-after :
        (objects : Bytes → List Object) (m : Bytes) (pre rest : List Object)
        → limit ≡ some k
        → firsts [] (objects prefix) ≡ vis
        → vis ≡ pre ++ rest
        → IsAfter m pre
        → Each (IsLong (request prefix delimiter max_keys []) iam) rest
        → (l : Listing) × (list_bucket codec iam objects (request prefix delimiter max_keys m) none
            ≡ listed l)
          × (((l.is_truncated ≡ false) × (l.contents ≡ listed_entries iam rest))
              ⊎ ((a b : List Object) × (o : Object) × (rest ≡ a ++ o ∷ b)
                  × (l.is_truncated ≡ true)
                  × (l.next_marker ≡ o.key)
                  × (l.contents ≡ listed_entries iam (a ++ o ∷ []))))
    unfolding list_bucket list_found of_walk page accept request
    page-after objects m pre rest lim seen split at long =
        let p = accepted k m in
        let (w, r, d) = scan-page p iam (natural k) rest fresh (refl, refl, refl) long in
        let walked : walk p iam (natural k) [] (objects prefix) (first_walk p) ≡ some w =
          walk-scan p iam (natural k) [] (objects prefix) (first_walk p)
          ∙ ap (λ l. scan p iam (natural k) l (first_walk p)) seen
          ∙ scan-after m pre rest split at
          ∙ r in
        let ran : list_bucket codec iam objects (request prefix delimiter max_keys m) none
            ≡ listed (page codec iam objects p w) =
          rw (validate-request m, lim, walked) refl in
        (
          page codec iam objects p w,
          ran,
          elim d [
            | inl (end, filled) ↦ inl (rw end refl, filled ∙ entries-accepted iam k m rest)
            | inr (a, b, o, cut, stopped, filled) ↦ inr (
              a,
              b,
              o,
              cut,
              rw stopped refl,
              rw stopped refl,
              filled ∙ entries-accepted iam k m (a ++ o ∷ []),
            )
          ],
        )

    pages-after :
        (objects : Bytes → List Object) (n : ℕ) (m : Bytes) (pre rest : List Object)
        → limit ≡ some k
        → firsts [] (objects prefix) ≡ vis
        → vis ≡ pre ++ rest
        → IsAfter m pre
        → Each (IsLong (request prefix delimiter max_keys []) iam) rest
        → length rest < n
        → all_pages codec iam objects n prefix delimiter max_keys m ≡ some (listed_entries iam rest)
    unfolding after
    pages-after objects zero m pre rest lim seen split at long room = absurd (omega arith)
    pages-after objects (suc n) m pre rest lim seen split at long room =
        let (l, ran, d) = page-after objects m pre rest lim seen split at long in
        let step = all_pages-step codec iam objects n prefix delimiter max_keys m l ran in
        elim d [
          | inl (end, all) ↦ step ∙ rw end (ap some all)
          | inr (a, b, o, cut, more, next, some_of) ↦
              let pre' = pre ++ (a ++ o ∷ []) in
              let joined : (a ++ o ∷ []) ++ b ≡ rest = append_assoc a (o ∷ []) b ∙ sym cut in
              let shorter : length b < n =
                omega (arith, room, ap length cut, length-append a (o ∷ b)) in
              let ih =
                pages-after objects n o.key pre' b lim seen
                  (split ∙ ap (λ r. pre ++ r) (sym joined) ∙ sym (append_assoc pre (a ++ o ∷ []) b))
                  (inr (pre ++ a, o, refl, sym (append_assoc pre a (o ∷ []))))
                  (Each-suffix (IsLong (request prefix delimiter max_keys []) iam) (a ++ o ∷ []) b (
                    subst (Each (IsLong (request prefix delimiter max_keys []) iam)) (sym joined)
                      long))
                  shorter in
              step
              ∙ rw (more, next, ih)
                  (ap some (
                    ap (λ c. c ++ listed_entries iam b) some_of
                    ∙ sym
                        (entries-append (request prefix delimiter max_keys []) iam (a ++ o ∷ []) b)
                    ∙ ap (listed_entries iam) joined))
        ]

  accept-limit : (q : Params) → accept [] limit ≡ some q → (k : ℤ) × (limit ≡ some k)
  unfolding accept
  accept-limit q h = elim (Option-cases limit) [
    | inl e ↦ absurd (grind (arith, h, e))
    | inr (k, e) ↦ (k, e)
  ]

  -- A client that asks for pages without list-type, each from the last one's NextMarker, gets to one that is not
  -- truncated, after at most one page more than there are keys, and has then been given, in order and once each,
  -- the newest version of every key that has no delimiter after the prefix. (The request is valid, the objects
  -- found are sorted by key, they do not change between the pages, and their keys are not shorter than the prefix.)
  pub all_pages_complete :
      (iam : Iam) (objects : Bytes → List Object) (q : Params)
      → validate codec (request prefix delimiter max_keys []) ≡ some q
      → Sorted (objects prefix)
      → Each (IsLong (request prefix delimiter max_keys []) iam) (objects prefix)
      → let newest = firsts [] (objects prefix) in
        all_pages codec iam objects (suc (length newest)) prefix delimiter max_keys []
        ≡ some (entries (request prefix delimiter max_keys []) iam newest)
  all_pages_complete iam objects q valid sorted long =
      let found = objects prefix in
      let (k, lim) = accept-limit q (sym (validate-request []) ∙ valid) in
      pages-after iam k (firsts [] found) (firsts-Distinct [] found sorted)
        (firsts-fresh [] found (above-nothing found) sorted) objects
        (suc (length (firsts [] found))) [] [] (firsts [] found) lim refl refl (inl (refl, refl))
        (Each-firsts (IsLong (request prefix delimiter max_keys []) iam) [] found long)
        (omega arith)

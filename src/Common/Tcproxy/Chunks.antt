-- ===== src/Common/Tcproxy/Chunks.antt =====
-- What is forwarded does not depend on how the bytes are cut into reads (src/common/tcproxy/proxy.go).
use mathlib.Core.Path.{subst}
use mathlib.Core.List.{append_assoc, append-nil}
use swifty.Base.{
  ℕ, zero, suc, ◌≡◌, ◌≢◌, ◌⊎◌, inl, inr, refl, sym, ap, ◌∙◌, ◌≤◌, ◌<◌, true, false, Option, none,
  some, List, [], ◌∷◌, ◌++◌, length, take, drop, ◌==◌, arith, length-drop, Option-cases,
}
use swifty.Base.Bytes.{Bytes}
use swifty.Common.Tcproxy.{
  Stop, Tried, Consumer, Writer, Sent, send, Collector, taken, drain, data_ready, forward,
}

-- What the collector relies on: a consumer takes no more than there is, its answer stays the same when more
-- bytes follow, and it keeps nothing when it waits for more.
pub record IsConsumer {S : Type 0} (consumer : Consumer S) : Type 0 where
  pub within : (s : S) (b : Bytes) → (consumer s b).len ≤ length b
  pub steady :
      (s : S) (b more : Bytes)
      → ((consumer s b).len ≢ 0) ⊎ ((consumer s b).err ≢ none)
      → consumer s (b ++ more) ≡ consumer s b
  pub idle :
      (s : S) (b : Bytes)
      → (consumer s b).len ≡ 0
      → (consumer s b).err ≡ none
      → (consumer s b).state ≡ s

unfoldable pub concat : List Bytes → Bytes
concat [] = []
concat (c ∷ cs) = c ++ concat cs

zero-cases : (n : ℕ) → (n ≡ 0) ⊎ (n ≢ 0)
zero-cases zero = inl refl
zero-cases (suc n) = inr (omega arith)

pub drop-append : (n : ℕ) (a b : Bytes) → n ≤ length a → drop n (a ++ b) ≡ drop n a ++ b
drop-append zero a b h = refl
drop-append (suc n) [] b h = absurd (omega arith)
drop-append (suc n) (x ∷ a) b h = drop-append n a b (omega arith)

pub take-prefix : (n : ℕ) (a b : Bytes) → n ≤ length a → take n (a ++ b) ≡ take n a
take-prefix zero a b h = refl
take-prefix (suc n) [] b h = absurd (omega arith)
take-prefix (suc n) (x ∷ a) b h = ap (λ l. x ∷ l) (take-prefix n a b (omega arith))

abbrev pub with_more : {S : Type 0} → Collector S → Bytes → Collector S
with_more f more = record f { collected = f.collected ++ more }

-- What can be seen of a run: what was written, and how it stopped.
abbrev pub seen : {S : Type 0} → Collector S × Option Stop → Bytes × Option Stop
seen (f, e) = (f.out, e)

module _ {S : Type 0} (consumer : Consumer S) (write : Writer) (ok : IsConsumer consumer) where
  abbrev tried : Collector S → Tried S
  tried f = consumer f.state f.collected

  abbrev sent_of : Collector S → Sent
  sent_of f = let cons = take (tried f).len f.collected in send write (suc (length cons)) f.out cons

  -- The steps of the loop: it waits or is refused, its write fails, or it goes on.
  drain-waits :
      (n : ℕ) (f : Collector S)
      → (tried f).len ≡ 0
      → drain consumer write (suc n) f ≡ (record f { state = (tried f).state }, (tried f).err)
  unfolding drain
  drain-waits n f h = let z : ((tried f).len == 0) ≡ true = ground arith in rw (z, drain) refl

  drain-fails :
      (n : ℕ) (f : Collector S) (e : Stop)
      → (tried f).len ≢ 0
      → (sent_of f).err ≡ some e
      → drain consumer write (suc n) f ≡ (taken consumer write f (tried f) (sent_of f).out, some e)
  unfolding drain
  drain-fails n f e h q =
      let z : ((tried f).len == 0) ≡ false = ground arith in rw (z, q, drain) refl

  drain-goes :
      (n : ℕ) (f : Collector S)
      → (tried f).len ≢ 0
      → (sent_of f).err ≡ none
      → drain consumer write (suc n) f
        ≡ drain consumer write n (taken consumer write f (tried f) (sent_of f).out)
  unfolding drain
  drain-goes n f h q = let z : ((tried f).len == 0) ≡ false = ground arith in rw (z, q, drain) refl

  shrinks :
      (f : Collector S) (n : ℕ)
      → (tried f).len ≢ 0
      → length f.collected < suc n
      → length (drop (tried f).len f.collected) < n
  shrinks f n h l =
      omega (arith, h, l, length-drop (tried f).len f.collected, ok.within f.state f.collected)

  -- Any fuel above the length will do.
  drain-fuel :
      (n m : ℕ) (f : Collector S)
      → length f.collected < n
      → length f.collected < m
      → drain consumer write n f ≡ drain consumer write m f
  drain-fuel zero m f hn hm = absurd (omega arith)
  drain-fuel (suc n) zero f hn hm = absurd (omega arith)
  drain-fuel (suc n) (suc m) f hn hm = elim (zero-cases (tried f).len) [
    | inl z ↦ drain-waits n f z ∙ sym (drain-waits m f z)
    | inr z ↦ elim (Option-cases (sent_of f).err) [
      | inr (e, q) ↦ drain-fails n f e z q ∙ sym (drain-fails m f e z q)
      | inl q ↦
          drain-goes n f z q
          ∙ drain-fuel n m (taken consumer write f (tried f) (sent_of f).out) (shrinks f n z hn)
              (shrinks f m z hm)
          ∙ sym (drain-goes m f z q)
    ]
  ]

  -- The loop with all the fuel that it needs.
  abbrev settle : Collector S → Collector S × Option Stop
  settle f = drain consumer write (suc (length f.collected)) f

  -- The answer of the consumer does not change by more bytes, nor does what is sent.
  module _ (f : Collector S) (more : Bytes)
      (firm : ((tried f).len ≢ 0) ⊎ ((tried f).err ≢ none)) where
    tried-more : tried (with_more f more) ≡ tried f
    tried-more = ok.steady f.state f.collected more firm

    sent-more : sent_of (with_more f more) ≡ sent_of f
    sent-more =
        ap (λ c. send write (suc (length c)) f.out c)
          (ap (λ (t : Tried S). take t.len (f.collected ++ more)) tried-more
            ∙ take-prefix (tried f).len f.collected more (ok.within f.state f.collected))

    taken-more :
        taken consumer write
          (with_more f more)
          (tried (with_more f more))
          (sent_of (with_more f more)).out
        ≡ with_more (taken consumer write f (tried f) (sent_of f).out) more
    taken-more =
        (λ i. taken consumer write (with_more f more) (tried-more i) (sent-more i).out)
        ∙ ap (λ c. record { collected = c; out = (sent_of f).out; state = (tried f).state })
            (drop-append (tried f).len f.collected more (ok.within f.state f.collected))

    settle-goes :
        (tried f).len ≢ 0
        → (sent_of f).err ≡ none
        → settle (with_more f more)
          ≡ settle (with_more (taken consumer write f (tried f) (sent_of f).out) more)
    settle-goes z q =
        let g = with_more f more in
        let z' : (tried g).len ≢ 0 = λ h. z (sym (ap (λ (t : Tried S). t.len) tried-more) ∙ h) in
        drain-goes (length g.collected) g z' (ap (λ (x : Sent). x.err) sent-more ∙ q)
        ∙ drain-fuel (length g.collected) (suc (length (drop (tried g).len g.collected)))
            (taken consumer write g (tried g) (sent_of g).out)
            (shrinks g (length g.collected) z' (omega arith)) (omega arith)
        ∙ ap settle taken-more

  -- More bytes after those of a loop that has ended.
  abbrev Continues : Collector S → Bytes → Collector S × Option Stop → Type 0
  Continues f more r =
      ((r.1 ≡ none) × (settle (with_more f more) ≡ settle (with_more r.0 more)))
      ⊎ ((r.1 ≢ none) × (seen (settle (with_more f more)) ≡ seen r))

  some_no : (e : Stop) (o : Option Stop) → o ≡ some e → o ≢ none
  some_no e o h k = absurd (grind (arith, h, k))

  drain-Continues :
      (n : ℕ) (f : Collector S) (more : Bytes)
      → length f.collected < n
      → Continues f more (drain consumer write n f)
  drain-Continues zero f more h = absurd (omega arith)
  drain-Continues (suc n) f more h =
      let g = with_more f more in
      elim (zero-cases (tried f).len) [
        | inl z ↦
            subst (Continues f more) (sym (drain-waits n f z)) (elim (Option-cases (tried f).err) [
              | inl q ↦ inl (
                q,
                ap (λ s. settle (with_more (record f { state = s }) more))
                    (sym (ok.idle f.state f.collected z q)),
              )
              | inr (e, q) ↦
                  let firm : ((tried f).len ≢ 0) ⊎ ((tried f).err ≢ none) =
                    inr (some_no e (tried f).err q) in
                  let st = tried-more f more firm in
                  inr (
                    some_no e (tried f).err q,
                    ap seen
                          (drain-waits (length g.collected) g (ap (λ (t : Tried S). t.len) st ∙ z))
                        ∙ ap (λ (t : Tried S). (f.out, t.err)) st,
                  )
            ])
        | inr z ↦ elim (Option-cases (sent_of f).err) [
          | inr (e, q) ↦ subst (Continues f more) (sym (drain-fails n f e z q)) (
              let st = tried-more f more (inl z) in
              let sn = sent-more f more (inl z) in
              let z' : (tried g).len ≢ 0 = λ h. z (sym (ap (λ (t : Tried S). t.len) st) ∙ h) in
              inr (
                some_no e (some e) refl,
                ap seen (drain-fails (length g.collected) g e z' (ap (λ (x : Sent). x.err) sn ∙ q))
                    ∙ ap (λ (x : Sent). (x.out, some e)) sn,
              ))
          | inl q ↦
              let f1 = taken consumer write f (tried f) (sent_of f).out in
              let go = settle-goes f more (inl z) z q in
              subst (Continues f more) (sym (drain-goes n f z q))
                (elim (drain-Continues n f1 more (shrinks f n z h)) [
                  | inl (a, b) ↦ inl (a, go ∙ b)
                  | inr (a, b) ↦ inr (a, ap seen go ∙ b)
                ])
        ]
      ]

  ready : (f : Collector S) (c : Bytes) → data_ready consumer write f c ≡ settle (with_more f c)
  unfolding data_ready
  ready f c = refl

  forward-nil : (f : Collector S) → forward consumer write f [] ≡ (f, none)
  unfolding forward
  forward-nil f = refl

  forward-stops :
      (f : Collector S) (c : Bytes) (cs : List Bytes)
      → (data_ready consumer write f c).1 ≢ none
      → forward consumer write f (c ∷ cs) ≡ data_ready consumer write f c
  unfolding forward
  forward-stops f c cs h = elim (Option-cases (data_ready consumer write f c).1) [
    | inl q ↦ absurd (h q)
    | inr (e, q) ↦ rw (q, forward) (λ i. ((data_ready consumer write f c).0, sym q i))
  ]

  forward-goes :
      (f : Collector S) (c : Bytes) (cs : List Bytes)
      → (data_ready consumer write f c).1 ≡ none
      → forward consumer write f (c ∷ cs)
        ≡ forward consumer write (data_ready consumer write f c).0 cs
  unfolding forward
  forward-goes f c cs q = rw (q, forward) refl

  -- A client's bytes, in whatever reads they come, are forwarded in the same way, and the connection ends in the
  -- same way, as when they come in one read.
  pub forward-chunks :
      (f : Collector S) (c : Bytes) (cs : List Bytes)
      → seen (forward consumer write f (c ∷ cs))
        ≡ seen (data_ready consumer write f (c ++ concat cs))
  unfolding concat
  forward-chunks f c [] =
      (elim (Option-cases (data_ready consumer write f c).1) [
        | inr (e, q) ↦
            ap seen (forward-stops f c [] (some_no e (data_ready consumer write f c).1 q))
        | inl q ↦
            ap seen (forward-goes f c [] q ∙ forward-nil (data_ready consumer write f c).0)
            ∙ (λ i. ((data_ready consumer write f c).0.out, sym q i))
      ])
      ∙ ap (λ l. seen (data_ready consumer write f l)) (sym (append-nil c))
  forward-chunks f c (d ∷ cs) =
      let more = d ++ concat cs in
      let r = data_ready consumer write f c in
      let joined : settle (with_more (with_more f c) more)
          ≡ data_ready consumer write f (c ++ more) =
        ap (λ l. settle (record f { collected = l })) (append_assoc f.collected c more)
        ∙ sym (ready f (c ++ more)) in
      let step : Continues (with_more f c) more r =
        subst (Continues (with_more f c) more) (sym (ready f c))
          (drain-Continues (suc (length (f.collected ++ c))) (with_more f c) more (omega arith)) in
      elim step [
        | inr (stopped, same_end) ↦
            ap seen (forward-stops f c (d ∷ cs) stopped) ∙ sym same_end ∙ ap seen joined
        | inl (goes, same_rest) ↦
            ap seen (forward-goes f c (d ∷ cs) goes)
            ∙ forward-chunks r.0 d cs
            ∙ ap seen (ready r.0 more ∙ sym same_rest ∙ joined)
      ]

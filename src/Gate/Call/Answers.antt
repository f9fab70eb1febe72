-- ===== src/Gate/Call/Answers.antt =====
-- How a call is answered (src/gate/url.go).
use swifty.Base.{
  ℕ, zero, suc, ◌+◌, ◌-◌, ◌%◌, ◌^◌, ◌<◌, ◌≡◌, ◌≢◌, inl, inr, refl, ap, sym, ◌∙◌, Bool, true, false,
  not, ◌&&◌, Option, none, some, List, [], ◌∷◌, length, get_elem?, arith, Bool-cases, ==_iff, ◌==◌,
}
use swifty.Base.Ints.{ℤ, pos, negsuc}
use swifty.Effects.{Error}
use swifty.Base.Floats.{Floats}
use mathlib.Core.Path.{subst}
use swifty.Gate.Limits.{ratelimited, rslimited}
use swifty.Gate.Limits.Refusal.{TooMany, Granted, Exhausted, ratelimited_cases, rslimited_iff}
use swifty.Gate.Scaler.{get_conn_any, put_conn}
use swifty.Gate.Call.{
  FnMemData, Result, Around, Answer, turned_away, run_failed, handle_call, within_limits, connect,
  panic, with_conn, connected, known_pods, run_on, verified, by_code, answered, ran,
}

get_elem?-in {ℓ} :
    {A : Type ℓ} (xs : List A) (i : ℕ) → i < length xs → (x : A) × (get_elem? xs i ≡ some x)
get_elem?-in [] i h = absurd (omega arith)
get_elem?-in (x ∷ xs) zero h = (x, refl)
get_elem?-in (x ∷ xs) (suc i) h = get_elem?-in xs i (omega arith)

-- The calls in progress, by the rovers.
abbrev pub in_progress : FnMemData → ℕ
in_progress fmd = (fmd.rover.came + (2 ^ 32 - fmd.rover.ended)) % 2 ^ 32

-- The connections that an answer leaves without balancerPutConn.
abbrev pub left_open : Answer → ℕ
left_open panic = 1
left_open a = 0

by_code-closes : (pod : ℕ) (b : Bool) (c : ℤ) → left_open (by_code pod b c) ≡ 0
unfolding by_code
by_code-closes pod b (pos c) = refl
by_code-closes pod b (negsuc c) = refl

module _ (fl : Floats) (w : Around fl) where
  run_on-closes : (pod : ℕ) (o : Option Result) → left_open (run_on fl w pod o) ≡ 0
  unfolding run_on answered
  run_on-closes pod none = refl
  run_on-closes pod (some r) = by_code-closes pod r.has_then r.code

  verified-closes : (pod : ℕ) (o : Option Error) → left_open (verified fl w pod o) ≡ 0
  unfolding verified
  verified-closes pod none = run_on-closes pod (w.runs pod)
  verified-closes pod (some e) = refl

  with_conn-closes : (pod : ℕ) → left_open (with_conn fl w pod) ≡ 0
  unfolding with_conn
  with_conn-closes pod = elim (Bool-cases (not w.claims_given && w.claims_asked)) [
    | inr u ↦ rw u (run_on-closes pod (w.runs pod))
    | inl u ↦ rw u (verified-closes pod w.verify)
  ]

-- How the code of a result is answered, on a pod: as it is, with 200 for 0, and without its sign when it is
-- negative; what is to be called next is noted unless it is.
pub data Says (pod : ℕ) (r : Result) : Answer → Type 0 where
  zero_code : r.code ≡ pos 0 → Says pod r (ran pod 200 r.has_then)
  a_code : (c : ℕ) → c ≢ 0 → r.code ≡ pos c → Says pod r (ran pod c r.has_then)
  failed_code : (c : ℕ) → r.code ≡ negsuc c → Says pod r (ran pod (suc c) false)

by_code-Says : (pod : ℕ) (r : Result) (c : ℤ) → r.code ≡ c → Says pod r (by_code pod r.has_then c)
unfolding by_code
by_code-Says pod r (pos c) e = elim (Bool-cases (c == 0)) [
  | inl z ↦ rw z (zero_code (e ∙ ap pos ((==_iff c 0).0 z)))
  | inr z ↦ rw z (a_code c (λ k. ground (arith, k, z)) e)
]
by_code-Says pod r (negsuc c) e = failed_code c e

module _ (fl : Floats) (w : Around fl) (fmd : FnMemData) where
  abbrev pub unchecked : Bool
  unchecked = not w.claims_given && w.claims_asked

  -- A call that neither limit stops.
  abbrev pub LetIn : Type 0
  LetIn = Granted fmd.buckets w.clock × ¬ Exhausted fl w.usage

  -- Where the pods come from.
  pub data Pods : Option (List ℕ) → Type 0 where
    kept : fmd.pods ≢ [] → Pods (some fmd.pods)
    looked_up : fmd.pods ≡ [] → Pods w.pods_found

  -- Why a call is answered as it is.
  pub data Answered : Answer → Type 0 where
    too_many : TooMany fmd.buckets w.clock → Answered (turned_away 429)
    locked : Granted fmd.buckets w.clock → Exhausted fl w.usage → Answered (turned_away 423)
    no_pod : LetIn → Pods none → Answered (turned_away 500)
    none_left : LetIn → Pods (some []) → Answered panic
    unauthorized :
        (e : Error) (ps : List ℕ)
        → LetIn
        → Pods (some ps)
        → ps ≢ []
        → unchecked ≡ true
        → w.verify ≡ some e
        → Answered (turned_away 401)
    failed :
        (i pod : ℕ) (ps : List ℕ)
        → LetIn
        → Pods (some ps)
        → get_elem? ps i ≡ some pod
        → (unchecked ≡ true → w.verify ≡ none)
        → w.runs pod ≡ none
        → Answered (run_failed pod 500)
    done :
        (i pod : ℕ) (r : Result) (ps : List ℕ) {a : Answer}
        → LetIn
        → Pods (some ps)
        → get_elem? ps i ≡ some pod
        → (unchecked ≡ true → w.verify ≡ none)
        → w.runs pod ≡ some r
        → Says pod r a
        → Answered a

  known_pods-Pods : (ps : List ℕ) → fmd.pods ≡ ps → Pods (known_pods ps w.pods_found)
  unfolding known_pods
  known_pods-Pods [] e = looked_up e
  known_pods-Pods (p ∷ ps) e = subst (λ l. Pods (some l)) e (kept (λ k. ground (arith, sym e ∙ k)))

  run_on-Answered :
      (i pod : ℕ) (ps : List ℕ)
      → LetIn
      → Pods (some ps)
      → get_elem? ps i ≡ some pod
      → (unchecked ≡ true → w.verify ≡ none)
      → (o : Option Result) → w.runs pod ≡ o
      → Answered (run_on fl w pod o)
  unfolding run_on answered
  run_on-Answered i pod ps l p g v none q = failed i pod ps l p g v q
  run_on-Answered i pod ps l p g v (some r) q =
      done i pod r ps l p g v q (by_code-Says pod r r.code refl)

  verified-Answered :
      (i pod : ℕ) (ps : List ℕ)
      → LetIn
      → Pods (some ps)
      → get_elem? ps i ≡ some pod
      → ps ≢ []
      → unchecked ≡ true
      → (o : Option Error) → w.verify ≡ o
      → Answered (verified fl w pod o)
  unfolding verified
  verified-Answered i pod ps l p g ne u none v =
      run_on-Answered i pod ps l p g (λ _. v) (w.runs pod) refl
  verified-Answered i pod ps l p g ne u (some e) v = unauthorized e ps l p ne u v

  with_conn-Answered :
      (i pod : ℕ) (ps : List ℕ)
      → LetIn
      → Pods (some ps)
      → get_elem? ps i ≡ some pod
      → ps ≢ []
      → Answered (with_conn fl w pod)
  unfolding with_conn
  with_conn-Answered i pod ps l p g ne = elim (Bool-cases unchecked) [
    | inr u ↦ rw u (run_on-Answered i pod ps l p g (λ k. ground arith) (w.runs pod) refl)
    | inl u ↦ rw u (verified-Answered i pod ps l p g ne u w.verify refl)
  ]

  connect-Answered :
      (m : FnMemData) (o : Option (List ℕ))
      → m.rover ≡ fmd.rover
      → fmd.rover.came < 2 ^ 32
      → fmd.rover.ended < 2 ^ 32
      → Pods o
      → LetIn
      → let (m', a) = connect fl w m o in
        Answered a × (in_progress m' ≡ (in_progress fmd + left_open a) % 2 ^ 32)
  unfolding connect connected get_conn_any put_conn
  connect-Answered m none e c d p l =
      let came : m.rover.came ≡ fmd.rover.came = ap (λ r. r.came) e in
      let ended : m.rover.ended ≡ fmd.rover.ended = ap (λ r. r.ended) e in (no_pod l p, omega arith)
  connect-Answered m (some []) e c d p l =
      let came : m.rover.came ≡ fmd.rover.came = ap (λ r. r.came) e in
      let ended : m.rover.ended ≡ fmd.rover.ended = ap (λ r. r.ended) e in
      (none_left l p, omega arith)
  connect-Answered m (some (x ∷ xs)) e c d p l =
      let j : ℕ = (m.rover.came + 1) % 2 ^ 32 % suc (length xs) in
      let within : j < suc (length xs) = omega arith in
      let (pod, g) = get_elem?-in (x ∷ xs) j within in
      let came : m.rover.came ≡ fmd.rover.came = ap (λ r. r.came) e in
      let ended : m.rover.ended ≡ fmd.rover.ended = ap (λ r. r.ended) e in
      let closes : left_open (with_conn fl w pod) ≡ 0 = with_conn-closes fl w pod in
      rw g (with_conn-Answered j pod (x ∷ xs) l p g (λ k. ground (arith, k)), omega arith)

  -- Each call is answered for one reason: one of the buckets refuses it, the tenant's resources are exhausted, no pod, refused
  -- claims, a run that failed, or a run on one of the pods, whose code is answered (200 for 0, and without its
  -- sign when it is negative). The pods are those known, or those found when none are; it panics only when the
  -- latter are an empty slice. The run is made only of a call that all buckets let in, whose tenant's resources are not
  -- exhausted, and whose claims, if asked for and not given, are checked. By the rovers as many calls are in
  -- progress afterwards as before, one more after a panic.
  pub handle_call-Answered :
      fmd.rover.came < 2 ^ 32
      → fmd.rover.ended < 2 ^ 32
      → let (fmd', a) = handle_call fl w fmd in
        Answered a × (in_progress fmd' ≡ (in_progress fmd + left_open a) % 2 ^ 32)
  unfolding handle_call within_limits
  handle_call-Answered c d = elim (ratelimited_cases fmd.buckets w.clock) [
    | inl (q, many) ↦ rw q (too_many many, omega arith)
    | inr (q, granted) ↦ elim (Bool-cases (rslimited fl w.usage)) [
      | inl u ↦ rw (q, u) (locked granted ((rslimited_iff fl w.usage).0 u), omega arith)
      | inr u ↦
          let m : FnMemData = record fmd {
            buckets = (ratelimited fmd.buckets w.clock.0 w.clock.1 w.clock.2).0;
          } in
          rw (q, u)
            (connect-Answered m (known_pods fmd.pods w.pods_found) refl c d
              (known_pods-Pods fmd.pods refl)
              (granted, λ x. ground (arith, (rslimited_iff fl w.usage).1 x, u)))
    ]
  ]

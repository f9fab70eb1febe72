-- ===== src/Proxies/Mgo/Steady.antt =====
-- The proxy before MongoDB keeps the laws that the forwarding relies on.
use swifty.Base.{
  ℕ, ◌≡◌, ◌≢◌, ◌⊎◌, inl, inr, refl, sym, ap, ◌∙◌, ◌≤◌, ◌+◌, true, false, Option, none, List, [],
  ◌∷◌, ◌++◌, ltb, length, take, drop, arith, length-append, length-drop, Bool-cases, Option-cases,
  ltb→le, ltb→lt, ◌<◌,
}
use swifty.Base.Bytes.{Bytes}
use swifty.Effects.{Error}
use swifty.Common.Tcproxy.{Tried}
use swifty.Common.Tcproxy.Chunks.{IsConsumer, drop-append, take-prefix}
use swifty.Proxies.Mgo.{
  Document, Ops, Req, Body, of_body, Decoded, decoded, panics, uint32, complete, decode_mongo_req,
  tried, try,
}

uint32-append : (a b : Bytes) → 4 ≤ length a → uint32 (a ++ b) ≡ uint32 a
unfolding uint32
uint32-append [] b h = absurd (omega arith)
uint32-append (w ∷ []) b h = absurd (omega arith)
uint32-append (w ∷ x ∷ []) b h = absurd (omega arith)
uint32-append (w ∷ x ∷ y ∷ []) b h = absurd (omega arith)
uint32-append (w ∷ x ∷ y ∷ z ∷ a) b h = refl

uint32-drop-append :
    (k : ℕ) (a b : Bytes) → k + 4 ≤ length a → uint32 (drop k (a ++ b)) ≡ uint32 (drop k a)
uint32-drop-append k a b h =
    ap uint32 (drop-append k a b (omega arith))
    ∙ uint32-append (drop k a) b (omega (arith, length-drop k a))

module _ (unmarshal : Bytes → Option Document) (ops : Ops) where
  decode-short :
      (b : Bytes) → ltb (length b) 16 ≡ true → decode_mongo_req unmarshal ops b ≡ decoded none
  unfolding decode_mongo_req
  decode-short b h = rw (h, decode_mongo_req) refl

  decode-partial :
      (b : Bytes)
      → ltb (length b) 16 ≡ false
      → ltb (length b) (uint32 b) ≡ true
      → decode_mongo_req unmarshal ops b ≡ decoded none
  unfolding decode_mongo_req
  decode-partial b h k = rw (h, k, decode_mongo_req) refl

  decode-whole :
      (b : Bytes)
      → ltb (length b) 16 ≡ false
      → ltb (length b) (uint32 b) ≡ false
      → decode_mongo_req unmarshal ops b
        ≡ complete unmarshal ops
            (uint32 b)
            (uint32 (drop 4 b))
            (uint32 (drop 8 b))
            (uint32 (drop 12 b))
            (take (uint32 b) b)
  unfolding decode_mongo_req
  decode-whole b h k = rw (h, k, decode_mongo_req) refl

  long_enough : (n : ℕ) (a b : Bytes) → n ≤ length a → ltb (length (a ++ b)) n ≡ false
  long_enough n a b h = ground (arith, length-append a b)

  decode-append :
      (b more : Bytes)
      → ltb (length b) 16 ≡ false
      → ltb (length b) (uint32 b) ≡ false
      → decode_mongo_req unmarshal ops (b ++ more) ≡ decode_mongo_req unmarshal ops b
  decode-append b more h k =
      let l : 16 ≤ length b = ground arith in
      let r : uint32 b ≤ length b = ground arith in
      let e = uint32-append b more (omega arith) in
      let cut : take (uint32 (b ++ more)) (b ++ more) ≡ take (uint32 b) b =
        ap (λ n. take n (b ++ more)) e ∙ take-prefix (uint32 b) b more r in
      decode-whole (b ++ more) (long_enough 16 b more l)
        (ap (ltb (length (b ++ more))) e ∙ long_enough (uint32 b) b more r)
      ∙ (λ i.
          complete unmarshal ops (e i) (uint32-drop-append 4 b more (omega arith) i)
            (uint32-drop-append 8 b more (omega arith) i)
            (uint32-drop-append 12 b more (omega arith) i) (cut i))
      ∙ sym (decode-whole b h k)

  module _ (pipeline_run : List Req → Req → Option Error) where
    abbrev consumer : List Req → Bytes → Tried (List Req)
    consumer = try unmarshal ops pipeline_run

    waits :
        (s : List Req) (b : Bytes)
        → decode_mongo_req unmarshal ops b ≡ decoded none
        → ((consumer s b).len ≢ 0) ⊎ ((consumer s b).err ≢ none)
        → ⊥
    unfolding try tried
    waits s b e = rw e (λ h. ground arith)

    pub try-steady :
        (s : List Req) (b more : Bytes)
        → ((consumer s b).len ≢ 0) ⊎ ((consumer s b).err ≢ none)
        → consumer s (b ++ more) ≡ consumer s b
    unfolding try
    try-steady s b more firm = elim (Bool-cases (ltb (length b) 16)) [
      | inl h ↦ absurd (waits s b (decode-short b h) firm)
      | inr h ↦ elim (Bool-cases (ltb (length b) (uint32 b))) [
        | inl k ↦ absurd (waits s b (decode-partial b h k) firm)
        | inr k ↦ ap (tried unmarshal ops pipeline_run s) (decode-append b more h k)
      ]
    ]

    -- The modules were given a request that says 0 bytes, and let it through.
    abbrev pub Passed : List Req → Tried (List Req) → Type 0
    Passed s t = (rq : Req) × (rq.rlen ≡ 0) × (pipeline_run s rq ≡ none) × (t.state ≡ rq ∷ s)

    -- When nothing is taken and there is no error: the request is not whole yet, and nothing has seen it; or it is
    -- whole, and says that it has no bytes at all.
    abbrev pub Idle : List Req → Bytes → Tried (List Req) → Type 0
    Idle s b t =
        (t.state ≡ s) × ((length b < 16) ⊎ (length b < uint32 b)) ⊎ (uint32 b ≡ 0) × Passed s t

    tried-of_body :
        (s : List Req) (n : ℕ) (k : Body → Req) (d : Decoded Body)
        → ((b : Body) → (k b).rlen ≡ n)
        → let t = tried unmarshal ops pipeline_run s (of_body unmarshal ops k d) in
          t.len ≡ 0 → t.err ≡ none → (n ≡ 0) × Passed s t
    unfolding tried of_body
    tried-of_body s n k panics h = λ l e. absurd (ground (arith, e))
    tried-of_body s n k (decoded b) h = elim (Option-cases (pipeline_run s (k b))) [
      | inl q ↦ rw q (λ l e. (omega (arith, h b, l), (k b, l, q, refl)))
      | inr (x, q) ↦ rw q (λ l e. absurd (ground (arith, e)))
    ]

    complete-idle :
        (s : List Req) (rlen reqid respto opcode : ℕ) (bytes : Bytes)
        → let t =
            tried unmarshal ops pipeline_run s
              (complete unmarshal ops rlen reqid respto opcode bytes) in
          t.len ≡ 0 → t.err ≡ none → (rlen ≡ 0) × Passed s t
    unfolding complete
    complete-idle s rlen reqid respto opcode bytes = tried-of_body s rlen _ _ (λ b. refl)

    try-Idle :
        (s : List Req) (b : Bytes) → let t = consumer s b in t.len ≡ 0 → t.err ≡ none → Idle s b t
    unfolding try
    try-Idle s b = elim (Bool-cases (ltb (length b) 16)) [
      | inl h ↦ rw (decode-short b h, tried) (λ l e. inl (refl, inl (ltb→lt (length b) 16 h)))
      | inr h ↦ elim (Bool-cases (ltb (length b) (uint32 b))) [
        | inl k ↦
            rw (decode-partial b h k, tried)
              (λ l e. inl (refl, inr (ltb→lt (length b) (uint32 b) k)))
        | inr k ↦ rw (decode-whole b h k) (λ l e. inr (
            complete-idle s (uint32 b) (uint32 (drop 4 b)) (uint32 (drop 8 b)) (uint32 (drop 12 b))
              (take (uint32 b) b) l e))
      ]
    ]

    tried-len :
        (s : List Req) (n : ℕ) (k : Body → Req) (d : Decoded Body)
        → ((b : Body) → (k b).rlen ≡ n)
        → (tried unmarshal ops pipeline_run s (of_body unmarshal ops k d)).len ≤ n
    unfolding tried of_body
    tried-len s n k panics h = omega arith
    tried-len s n k (decoded b) h = elim (Option-cases (pipeline_run s (k b))) [
      | inl q ↦ rw q (omega (arith, h b))
      | inr (e, q) ↦ rw q (omega arith)
    ]

    complete-len :
        (s : List Req) (rlen reqid respto opcode : ℕ) (bytes : Bytes)
        → (tried unmarshal ops pipeline_run s
            (complete unmarshal ops rlen reqid respto opcode bytes)).len
          ≤ rlen
    unfolding complete
    complete-len s rlen reqid respto opcode bytes = tried-len s rlen _ _ (λ b. refl)

    try-within : (s : List Req) (b : Bytes) → (consumer s b).len ≤ length b
    unfolding try
    try-within s b = elim (Bool-cases (ltb (length b) 16)) [
      | inl h ↦ rw (decode-short b h, tried) (omega arith)
      | inr h ↦ elim (Bool-cases (ltb (length b) (uint32 b))) [
        | inl k ↦ rw (decode-partial b h k, tried) (omega arith)
        | inr k ↦ rw (decode-whole b h k) (
            omega (
              arith,
              ltb→le (length b) (uint32 b) k,
              complete-len s (uint32 b) (uint32 (drop 4 b)) (uint32 (drop 8 b)) (uint32 (drop 12 b))
                  (take (uint32 b) b),
            ))
      ]
    ]

    -- What is asked of a consumer before the forwarding (`IsConsumer`), but for requests that say 0 bytes.
    pub record Consumes : Type 0 where
      pub within : (s : List Req) (b : Bytes) → (consumer s b).len ≤ length b
      pub steady :
          (s : List Req) (b more : Bytes)
          → ((consumer s b).len ≢ 0) ⊎ ((consumer s b).err ≢ none)
          → consumer s (b ++ more) ≡ consumer s b
      pub idle :
          (s : List Req) (b : Bytes)
          → (consumer s b).len ≡ 0
          → (consumer s b).err ≡ none
          → Idle s b (consumer s b)

    -- What Try of the proxy before MongoDB answers, whatever its modules answer, is within the bytes it is given, and
    -- stays the same when more bytes follow, unless it takes nothing and has no error. Then the request is not
    -- whole yet and the modules have not seen it; or it says that it has 0 bytes, and they have.
    pub try-Consumes : Consumes
    try-Consumes = record { within = try-within; steady = try-steady; idle = try-Idle }

    -- So it is such a consumer when the modules refuse the requests that say 0 bytes.
    pub try-IsConsumer :
        ((s : List Req) (rq : Req) → rq.rlen ≡ 0 → pipeline_run s rq ≢ none) → IsConsumer consumer
    try-IsConsumer refuses = record {
      within = try-within;
      steady = try-steady;
      idle = λ s b l e. elim (try-Idle s b l e) [
        | inl (same, w) ↦ same
        | inr (z, (rq, n, q, m)) ↦ absurd (refuses s rq n q)
      ];
    }

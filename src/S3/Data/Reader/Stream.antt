-- ===== src/S3/Data/Reader/Stream.antt =====
-- The pieces that the loop of WriteChunks gets from ChunkReader.Next (src/s3/data.go).
use mathlib.Core.List.{append-nil}
use swifty.Base.{
  ℕ, zero, suc, ◌+◌, ◌-◌, ◌≤◌, ◌<◌, ◌≡◌, refl, sym, ap, ◌∙◌, inl, inr, Bool, true, false, Option,
  none, some, List, [], ◌∷◌, ◌++◌, length, take, replicate, ltb, length-append, take-append, arith,
  Bool-cases, ltb→lt,
}
use swifty.Effects.{Error}
use swifty.S3.Store.{Next, fail, more}
use swifty.S3.Data.Chunks.{payload}
use swifty.S3.Data.Reader.{
  Source, ChunkReader, Pulled, Served, room, next-Served, buffer, round, stream,
}

-- Whether no call failed.
unfoldable pub whole : List Next → Bool
whole [] = true
whole (fail e ∷ s) = false
whole (more b ∷ s) = whole s

module _ {S : Type 0} (src : Source S) where
  -- The pieces of a reader whose source holds all that it is to give.
  abbrev pub Exact : ChunkReader S → List Next → Type 0
  Exact cr s =
      whole s ≡ true
      → cr.size - cr.read ≤ length (src.rest cr.r)
      → payload s ≡ take (cr.size - cr.read) (src.rest cr.r)

  -- While the source lasts, a call without an error fills the room there is.
  got-eq-room :
      (cr : ChunkReader S) (max : ℕ) (r : Pulled src) (d : Served src cr (room src cr max) r)
      → r.1 ≡ none
      → cr.size - cr.read ≤ length (src.rest cr.r)
      → length d.got ≡ room src cr max
  got-eq-room cr max r d e k = elim (Bool-cases (ltb (length d.got) (room src cr max))) [
    | inr full ↦ ground (arith, d.within)
    | inl short ↦
        let none_left : src.rest r.2.r ≡ [] = d.full e (ltb→lt _ _ short) in
        let all : length (src.rest cr.r) ≡ length d.got =
          ap length (d.in_order ∙ ap (λ l. d.got ++ l) none_left ∙ append-nil d.got) in
        ground (arith, all)
  ]

  -- A call that fails, one that returns nil, and one that returns a piece before the pieces `s`.
  failed-Exact : (cr : ChunkReader S) (e : Error) → Exact cr (fail e ∷ [])
  unfolding whole
  failed-Exact cr e w k = ground arith

  nil-Exact :
      (cr : ChunkReader S) (max : ℕ) (r : Pulled src) (d : Served src cr (room src cr max) r)
      → 0 < max
      → r.1 ≡ none
      → d.got ≡ []
      → Exact cr []
  unfolding payload
  nil-Exact cr max r d m e g w k =
      let none_got : length d.got ≡ 0 = ap length g in
      let left : cr.size - cr.read ≡ 0 = ground (arith, got-eq-room cr max r d e k, none_got) in
      rw left

  piece-Exact :
      (cr : ChunkReader S) (max : ℕ) (r : Pulled src) (d : Served src cr (room src cr max) r)
      → 0 < max
      → r.1 ≡ none
      → (b : ℕ) (bs : List ℕ) → d.got ≡ b ∷ bs
      → (s : List Next) → Exact r.2 s
      → Exact cr (more (b ∷ bs ++ replicate (room src cr max - length (b ∷ bs)) 0) ∷ s)
  unfolding payload whole
  piece-Exact cr max r d m e b bs g s ih w k =
      let len : length d.got ≡ suc (length bs) = ap length g in
      let all : suc (length bs) ≡ room src cr max = sym len ∙ got-eq-room cr max r d e k in
      let pad : room src cr max - suc (length bs) ≡ 0 = omega arith in
      let order : src.rest cr.r ≡ (b ∷ bs) ++ src.rest r.2.r =
        d.in_order ∙ ap (λ l. l ++ src.rest r.2.r) g in
      let total : length (src.rest cr.r) ≡ suc (length bs) + length (src.rest r.2.r) =
        ap length order ∙ length-append (b ∷ bs) (src.rest r.2.r) in
      let left : r.2.size - r.2.read ≡ cr.size - cr.read - suc (length bs) =
        omega (arith, d.size_is, d.counted) in
      let later : payload s ≡ take (cr.size - cr.read - suc (length bs)) (src.rest r.2.r) =
        ih w (omega arith) ∙ ap (λ j. take j (src.rest r.2.r)) left in
      let fits : suc (length bs) ≤ cr.size - cr.read = ground arith in
      rw (pad, append-nil, later, order)
        (sym (take-append (cr.size - cr.read) (b ∷ bs) (src.rest r.2.r) fits))

  -- The rest of a stream when a call returned `r`, told apart by the call's error and what it read.
  rounds :
      (f : ℕ) (cr : ChunkReader S) (max : ℕ) (r : Pulled src)
      (d : Served src cr (room src cr max) r)
      → 0 < max
      → cr.size - cr.read < suc f
      → ((r.2.size - r.2.read < f)
          → (s : List Next) × (stream src f r.2 max ≡ some s) × Exact r.2 s)
      → (err : Option Error) (got : List ℕ) → r.1 ≡ err
      → d.got ≡ got
      → (s : List Next) × (round src r.0 r.1 (stream src f r.2 max) ≡ some s) × Exact cr s
  unfolding round buffer
  rounds f cr max r d m h ih (some e) got p q = (fail e ∷ [], rw p, failed-Exact cr e)
  rounds f cr max r d m h ih none [] p q = ([], rw (p, d.buffered, q), nil-Exact cr max r d m p q)
  rounds f cr max r d m h ih none (b ∷ bs) p q =
      let len : length d.got ≡ suc (length bs) = ap length q in
      let fewer : r.2.size - r.2.read < f = ground (arith, d.within, d.counted, d.size_is, len) in
      let (s, e, x) = ih fewer in
      (
        more (b ∷ bs ++ replicate (room src cr max - length (b ∷ bs)) 0) ∷ s,
        rw (p, d.buffered, q, e),
        piece-Exact cr max r d m p b bs q s x,
      )

  -- The calls of Next that WriteChunks makes end, when it may make one more than there are bytes left,
  -- and each of them ends: when none fails, and the body has all the bytes that are left, the pieces put
  -- together are just these bytes, in order.
  pub stream-Exact :
      (f : ℕ) (cr : ChunkReader S) (max : ℕ)
      → 0 < max
      → cr.size - cr.read < f
      → (s : List Next) × (stream src f cr max ≡ some s)
        × (whole s ≡ true
            → cr.size - cr.read ≤ length (src.rest cr.r)
            → payload s ≡ take (cr.size - cr.read) (src.rest cr.r))
  unfolding stream
  stream-Exact zero cr max m h = elim h [ ]
  stream-Exact (suc f) cr max m h =
      let (r, e, d) = next-Served src cr max in
      rw (e, stream) (rounds f cr max r d m h (stream-Exact f r.2 max m) r.1 d.got refl refl)

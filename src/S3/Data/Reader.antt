-- ===== src/S3/Data/Reader.antt =====
-- src/s3/data.go: ChunkReader, which cuts the body of a request into pieces. The body is an io.Reader, which
-- is not the program's: a `Source` is what its documentation promises.
pub mod Stream
use swifty.Base.{
  ℕ, zero, suc, ◌+◌, ◌-◌, ◌≤◌, ◌<◌, ◌≡◌, ◌≢◌, refl, sym, ap, ◌∙◌, ◌⊎◌, inl, inr, Bool, true, false,
  Option, none, some, List, [], ◌∷◌, ◌++◌, length, take, drop, replicate, ltb, ◌==◌, if◌then◌else◌,
  arith, length-append, Bool-cases,
}
use mathlib.Core.List.{append_assoc, append-nil}
use mathlib.Core.Option
use mathlib.Core.Path.{subst}
use swifty.Effects.{Error}
use swifty.S3.Store.{Next, fail, more}

pub data Stop : Type 0 where
  eof : Stop
  broken : Error → Stop

-- A reader in one of the states `S`, with the bytes that are still to come from it: Read returns bytes
-- that come next, at most as many as there is room for, and none at all only at the end, with an error,
-- or where there is no room.
pub record Source (S : Type 0) : Type 0 where
  pub pull : S → ℕ → (List ℕ × Option Stop) × S
  pub rest : S → List ℕ
  pub fits : (s : S) (n : ℕ) → length (pull s n).0.0 ≤ n
  pub follows : (s : S) (n : ℕ) → rest s ≡ (pull s n).0.0 ++ rest (pull s n).1
  pub ends :
      (s : S) (n : ℕ)
      → (pull s n).0.0 ≡ []
      → 0 < n
      → ((e : Error) → (pull s n).0.1 ≢ some (broken e))
      → rest s ≡ []

pub record ChunkReader (S : Type 0) : Type 0 where
  pub size : ℕ
  pub read : ℕ
  pub r : S

-- What is left of an error when io.EOF is none.
unfoldable pub as_error : Option Stop → Option Error
as_error none = none
as_error (some eof) = none
as_error (some (broken e)) = some e

-- Next's `ret`: the buffer as a whole, or nil when nothing was read.
unfoldable pub buffer : ℕ → List ℕ → Option (List ℕ)
buffer max [] = none
buffer max (b ∷ bs) = some (b ∷ bs ++ replicate (max - length (b ∷ bs)) 0)

module _ {S : Type 0} (src : Source S) where
  -- The loop of Next, when `got` is read: what is read in the end, and the error.
  pub fill : ℕ → S → List ℕ → ℕ → Option (List ℕ × Option Error × S)
  unfolding as_error
  fill zero s got max = none
  fill (suc f) s got max =
      let ((ln, stop), s') = src.pull s (max - length got) in
      elim ln [ [] ↦ some (got, as_error stop, s') | b ∷ bs ↦ fill f s' (got ++ b ∷ bs) max ]

  abbrev pub Pulled : Type 0
  Pulled = Option (List ℕ) × Option Error × ChunkReader S

  pub next_read : ChunkReader S → ℕ → List ℕ × Option Error × S → Pulled
  unfolding buffer
  next_read cr max (got, e, s) =
      (buffer max got, e, record cr { read = cr.read + length got; r = s })

  pub next_fill : ℕ → ChunkReader S → ℕ → Option Pulled
  unfolding fill next_read
  next_fill f cr max = Option.map (next_read cr max) (fill f cr.r [] max)

  -- ChunkReader.Next.
  pub next : ℕ → ChunkReader S → ℕ → Option Pulled
  unfolding next_fill
  next f cr max =
      if ltb (cr.size - cr.read) max
      then (if (cr.size - cr.read) == 0
          then some (none, none, cr)
          else next_fill f cr (cr.size - cr.read))
      else next_fill f cr max

  -- One round of a loop that calls Next until it fails or returns nil.
  pub round : Option (List ℕ) → Option Error → Option (List Next) → Option (List Next)
  round b (some e) later = some (fail e ∷ [])
  round none none later = some []
  round (some b) none later = Option.map (λ s. more b ∷ s) later

  -- What Next returns to the loop of WriteChunks.
  pub stream : ℕ → ChunkReader S → ℕ → Option (List Next)
  unfolding round
  stream zero cr max = none
  stream (suc f) cr max = elim (next (suc max) cr max) [
    | none ↦ none
    | some (b, e, cr') ↦ round b e (stream f cr' max)
  ]

  -- The loop of Next ends, when it may go on for one round more than there is room, and reads what the
  -- source gives next; short of the room only at an error or the source's end.
  pub record Filled (s : S) (got : List ℕ) (max : ℕ) (r : List ℕ × Option Error × S) : Type 0 where
    pub within : length r.0 ≤ max
    pub in_order : got ++ src.rest s ≡ r.0 ++ src.rest r.2
    pub full : r.1 ≡ none → length r.0 < max → src.rest r.2 ≡ []

  as_error-none : (o : Option Stop) → as_error o ≡ none → (e : Error) → o ≢ some (broken e)
  unfolding as_error
  as_error-none none h e k = cc
  as_error-none (some eof) h e k = cc
  as_error-none (some (broken e')) h e k = cc

  List-cases : (l : List ℕ) → (l ≡ []) ⊎ ((b : ℕ) × (bs : List ℕ) × (l ≡ b ∷ bs))
  List-cases [] = inl refl
  List-cases (b ∷ bs) = inr (b, bs, refl)

  pub fill-Filled :
      (f : ℕ) (s : S) (got : List ℕ) (max : ℕ)
      → length got ≤ max
      → max - length got < f
      → (r : List ℕ × Option Error × S) × (fill f s got max ≡ some r) × Filled s got max r
  unfolding fill
  fill-Filled zero s got max w h = elim h [ ]
  fill-Filled (suc f) s got max w h =
      let n : ℕ = max - length got in
      let ((ln, stop), s') = src.pull s n in
      elim (List-cases ln) [
        | inl p ↦ (
          (got, as_error stop, s'),
          rw (p, fill),
          record {
            within = w;
            in_order = ap (λ l. got ++ l) (src.follows s n ∙ ap (λ l. l ++ src.rest s') p);
            full = λ q lt.
                sym (src.follows s n ∙ ap (λ l. l ++ src.rest s') p)
                ∙ src.ends s n p (omega arith) (as_error-none stop q);
          },
        )
        | inr (b, bs, p) ↦
            let fit : length (b ∷ bs) ≤ n = subst (λ l. length l ≤ n) p (src.fits s n) in
            let (r, e, done) =
              fill-Filled f s' (got ++ b ∷ bs) max (omega (arith, length-append got (b ∷ bs)))
                (omega (arith, length-append got (b ∷ bs))) in
            (
              r,
              rw (p, fill) e,
              record {
                within = done.within;
                in_order =
                    ap (λ l. got ++ l) (src.follows s n ∙ ap (λ l. l ++ src.rest s') p)
                    ∙ sym (append_assoc got (b ∷ bs) (src.rest s'))
                    ∙ done.in_order;
                full = done.full;
              },
            )
      ]

  -- What one call of Next gives of the `n` bytes there is room for: the bytes read, `got`, in a buffer
  -- that has them first.
  pub record Served (cr : ChunkReader S) (n : ℕ) (r : Pulled) : Type 0 where
    pub got : List ℕ
    pub in_order : src.rest cr.r ≡ got ++ src.rest r.2.r
    pub counted : r.2.read ≡ cr.read + length got
    pub size_is : r.2.size ≡ cr.size
    pub within : length got ≤ n
    pub buffered : r.0 ≡ buffer n got
    pub full : r.1 ≡ none → length got < n → src.rest r.2.r ≡ []

  next_fill-Served :
      (f : ℕ) (cr : ChunkReader S) (max : ℕ)
      → max < f
      → (r : Pulled) × (next_fill f cr max ≡ some r) × Served cr max r
  unfolding next_fill
  next_fill-Served f cr max h =
      let (r, e, d) = fill-Filled f cr.r [] max (omega arith) (omega arith) in
      (
        next_read cr max r,
        rw e,
        record {
          got = r.0;
          in_order = d.in_order;
          counted = refl;
          size_is = refl;
          within = d.within;
          buffered = refl;
          full = d.full;
        },
      )

  -- The room of a call: what is left of the size, at most `max`.
  abbrev pub room : ChunkReader S → ℕ → ℕ
  room cr max = if ltb (cr.size - cr.read) max then cr.size - cr.read else max

  pub next-Served :
      (cr : ChunkReader S) (max : ℕ)
      → (r : Pulled) × (next (suc max) cr max ≡ some r) × Served cr (room cr max) r
  unfolding next
  next-Served cr max = elim (Bool-cases (ltb (cr.size - cr.read) max)) [
    | inr p ↦ rw p (next_fill-Served (suc max) cr max (omega arith))
    | inl p ↦ elim (Bool-cases ((cr.size - cr.read) == 0)) [
      | inr q ↦ rw (p, q) (next_fill-Served (suc max) cr (cr.size - cr.read) (ground arith))
      | inl q ↦
          rw (p, q)
            (
              (none, none, cr),
              refl,
              record {
                got = [];
                in_order = refl;
                counted = omega arith;
                size_is = refl;
                within = omega arith;
                buffered = refl;
                full = λ _ k. ground arith;
              },
            )
    ]
  ]

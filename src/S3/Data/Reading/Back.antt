-- ===== src/S3/Data/Reading/Back.antt =====
-- What is read back of the chunks of a part that was written or copied.
use mathlib.Core.List.{append_assoc, append-nil}
use swifty.Base.{
  ℕ, ◌≡◌, ◌≢◌, inl, inr, refl, ap, sym, ◌∙◌, Bool, true, false, Option, none, some, Option-cases,
  List, [], ◌∷◌, ◌++◌, ltb, not, ◌&&◌, ◌||◌, ◌==◌, if◌then◌else◌, arith, Bool-cases,
}
use swifty.Effects.{Env, Trace}
use swifty.S3.Store.{Conf, Part, Call, Next, fail, more, insert_chunk, set_chunks}
use swifty.S3.Data.{write_loop, save_chunks, write_chunks}
use swifty.S3.Data.Chunks.{payload, write_loop-Looped}
use swifty.S3.Data.Reading.{found, Chunks, read_loop, read_data, read_chunks}

-- Whether a chunk's id is among some.
unfoldable pub has : ℕ → List ℕ → Bool
has id [] = false
has id (c ∷ cs) = c == id || has id cs

-- New ids are none that the part has already (bson.NewObjectId).
abbrev pub Fresh : Conf → Type 0
Fresh conf = (cs : List ℕ) → has (conf.new_id cs) cs ≡ false

-- The bytes of the document that was last inserted for a chunk.
unfoldable pub document : Trace Call → ℕ → Option (List ℕ)
document [] id = none
document ((insert_chunk j b, true) ∷ t) id = if j == id then some b else document t id
document (_ ∷ t) id = document t id

-- A search for a chunk finds the document that was inserted.
abbrev pub Answers : Chunks → Trace Call → Type 0
Answers db t = (id : ℕ) (b : List ℕ) → document t id ≡ some b → db.find id ≡ found b

then_gather : Option (List ℕ) → Option (List ℕ) → Option (List ℕ)
then_gather (some b) (some bs) = some (b ++ bs)
then_gather _ _ = none

-- The bytes of the documents of some chunks, put together.
unfoldable pub gather : (ℕ → Option (List ℕ)) → List ℕ → Option (List ℕ)
unfolding then_gather
gather find [] = some []
gather find (c ∷ cs) = then_gather (find c) (gather find cs)

document-gather :
    (id : ℕ) (b : List ℕ) (t : Trace Call) (cs : List ℕ)
    → has id cs ≡ false
    → gather (document ((insert_chunk id b, true) ∷ t)) cs ≡ gather (document t) cs
unfolding has gather document
document-gather id b t [] h = refl
document-gather id b t (c ∷ cs) h =
    let rest = document-gather id b t cs in
    elim (Bool-cases (id == c)) [ inl p ↦ ground arith | inr p ↦ rw (p, rest (ground arith)) ]

some-inj : {xs ys : List ℕ} → some xs ≡ some ys → xs ≡ ys
some-inj h = cc

-- The parts of bytes put together.
split :
    (x y : Option (List ℕ)) (bs : List ℕ)
    → then_gather x y ≡ some bs
    → (u v : List ℕ) × (x ≡ some u) × (y ≡ some v) × (bs ≡ u ++ v)
unfolding then_gather
split (some u) (some v) bs h = (u, v, refl, refl, sym (some-inj h))
split (some u) none bs h = ground arith
split none y bs h = ground arith

pub gather-append :
    (find : ℕ → Option (List ℕ)) (cs : List ℕ) (id : ℕ) (bs b : List ℕ)
    → gather find cs ≡ some bs
    → find id ≡ some b
    → gather find (cs ++ id ∷ []) ≡ some (bs ++ b)
unfolding gather
gather-append find [] id bs b p q = rw (q, append-nil) (ap (λ l. some (l ++ b)) (some-inj p))
gather-append find (c ∷ cs) id bs b p q =
    let (u, v, x, y, e) = split (find c) (gather find cs) bs p in
    rw (x, gather-append find cs id v b y q, e) (ap some (sym (append_assoc u v b)))

document_self :
    (id : ℕ) (b : List ℕ) (t : Trace Call) → document ((insert_chunk id b, true) ∷ t) id ≡ some b
unfolding document
document_self id b t = ground arith

module _ (db : Chunks) (t : Trace Call) (ans : Answers db t) where
  gather-read_loop :
      (res cs bs : List ℕ)
      → gather (document t) cs ≡ some bs
      → read_loop db res cs ≡ found (res ++ bs)
  unfolding gather read_loop
  gather-read_loop res [] bs p = rw (← some-inj p, append-nil)
  gather-read_loop res (c ∷ cs) bs p =
      let (u, v, x, y, e) = split (document t c) (gather (document t) cs) bs p in
      rw (ans c u x, read_loop)
        (gather-read_loop (res ++ u) cs v y
          ∙ ap found (append_assoc res u v ∙ ap (λ l. res ++ l) (sym e)))

module _ (conf : Conf) (env : Env Call) (fresh : Fresh conf) where
  -- One more chunk.
  pub gather-insert :
      (part : Part) (hashed b : List ℕ) (t : Trace Call)
      → gather (document t) part.chunks ≡ some hashed
      → let id : ℕ = conf.new_id part.chunks in
        gather (document ((insert_chunk id b, true) ∷ t)) (part.chunks ++ id ∷ [])
        ≡ some (hashed ++ b)
  gather-insert part hashed b t g =
      let id : ℕ = conf.new_id part.chunks in
      gather-append (document ((insert_chunk id b, true) ∷ t)) part.chunks id hashed b
        (document-gather id b t part.chunks (fresh part.chunks) ∙ g) (document_self id b t)

  write_loop-gather :
      (part : Part) (hashed : List ℕ) (s : List Next) (t : Trace Call)
      → gather (document t) part.chunks ≡ some hashed
      → let ((p, h, done), t') = write_loop conf env part hashed s t in
        done ≡ true → gather (document t') p.chunks ≡ some (hashed ++ payload s)
  unfolding write_loop payload
  write_loop-gather part hashed [] t g = λ d. rw append-nil g
  write_loop-gather part hashed (fail e ∷ s) t g = λ d. ground arith
  write_loop-gather part hashed (more b ∷ s) t g =
      elim (Option-cases (env t (insert_chunk (conf.new_id part.chunks) b))) [
        | inr (e, p) ↦ rw (p, write_loop) (λ d. ground arith)
        | inl p ↦
            let id : ℕ = conf.new_id part.chunks in
            let part' : Part = record part { chunks = part.chunks ++ id ∷ [] } in
            let t' : Trace Call = (insert_chunk id b, true) ∷ t in
            let ih = write_loop-gather part' (hashed ++ b) s t' (gather-insert part hashed b t g) in
            rw (p, write_loop) (λ d. ih d ∙ ap some (append_assoc hashed b (payload s)))
      ]

  gather-read_data :
      (db : Chunks) (t : Trace Call) (part : Part) (own : Option (List ℕ)) (cs bs : List ℕ)
      → Answers db t
      → own ≡ none
      → bs ≢ []
      → gather (document t) cs ≡ some bs
      → read_data db part own cs ≡ found bs
  unfolding read_data gather
  gather-read_data db t part (some d) cs bs ans o ne g = ground arith
  gather-read_data db t part none [] bs ans o ne g = absurd (ne (sym (some-inj g)))
  gather-read_data db t part none (c ∷ cs) bs ans o ne g =
      gather-read_loop db t ans [] (c ∷ cs) bs g

  pub gather-read_chunks :
      (db : Chunks) (t : Trace Call) (part : Part) (bs : List ℕ)
      → Answers db t
      → part.inline ≡ none
      → bs ≢ []
      → gather (document t) part.chunks ≡ some bs
      → read_chunks db part ≡ found bs
  unfolding read_chunks
  gather-read_chunks db t part bs = gather-read_data db t part part.inline part.chunks bs

  save_chunks-read :
      (db : Chunks) (s : List Next) (p : Part) (h : List ℕ) (done : Bool) (t : Trace Call)
      → p.inline ≡ none
      → (done ≡ true → gather (document t) p.chunks ≡ some (payload s))
      → payload s ≢ []
      → let ((p', csum, e), t') = save_chunks conf env (p, h, done) t in
        csum ≢ "" → e ≡ none → Answers db t' → read_chunks db p' ≡ found (payload s)
  unfolding save_chunks document
  save_chunks-read db s p h false t i g ne = λ c e ans. absurd (c refl)
  save_chunks-read db s p h true t i g ne = elim (Option-cases (env t (set_chunks p.chunks))) [
    | inr (e, q) ↦ rw (q, save_chunks) (λ c e ans. absurd (c refl))
    | inl q ↦
        rw (q, save_chunks)
          (λ c e ans.
            gather-read_chunks db ((set_chunks p.chunks, true) ∷ t) p (payload s) ans i ne (g refl))
  ]

  -- When WriteChunks of a part that has no data yet and goes to the database returns a checksum and no
  -- error, and a search for a chunk finds the document inserted for it, then ReadChunks of the part gives
  -- back all bytes of the stream, in order (the stream has some, and new ids are new to the part).
  pub write_chunks-read_chunks :
      (db : Chunks) (part : Part) (s : List Next)
      → part.inline ≡ none
      → part.chunks ≡ []
      → (not conf.rados_disabled && ltb conf.max_chunk_size part.size) ≡ false
      → payload s ≢ []
      → let ((p, csum, e), t) = write_chunks conf env part s [] in
        csum ≢ "" → e ≡ none → Answers db t → read_chunks db p ≡ found (payload s)
  unfolding write_chunks gather
  write_chunks-read_chunks db part s i c small ne =
      let ran = write_loop-Looped conf env part [] s [] in
      let ((p, h, done), t) = write_loop conf env part [] s [] in
      let g = write_loop-gather part [] s [] (rw (c, gather) refl) in
      rw (small, write_chunks) (save_chunks-read db s p h done t (ran.inline_is ∙ i) g ne)

-- ===== src/S3/Data/Reading/Copy.antt =====
-- What is read back of a part that was copied.
use swifty.Base.{
  ℕ, ◌≡◌, ◌≢◌, inl, inr, refl, sym, ◌∙◌, true, false, Option, none, some, Option-cases, String,
  List, [], ◌∷◌, ◌++◌, ltb, not, ◌&&◌, arith,
}
use swifty.Effects.{Error, Env, Trace}
use swifty.S3.Store.{Conf, Part, Call, insert_chunk, set_chunks, insert_part, set_active_part}
use swifty.S3.Data.{Failed, drop_chunks}
use swifty.S3.Data.Chunks.{some-no}
use swifty.S3.Data.Reading.{
  Found-cases, found, missed, Chunks, read_loop, read_chunks, read_data, Copied, all_copied,
  copy_loop, copy_end, copy_chunks, copy_bytes, activate_copy, copy_part, Outcome,
}
use swifty.S3.Data.Reading.Back.{
  Fresh, Answers, document, gather, gather-insert, gather-read_chunks,
}

-- The database stores every chunk.
abbrev pub Stores : Env Call → Type 0
Stores env = (t : Trace Call) (id : ℕ) (b : List ℕ) → env t (insert_chunk id b) ≡ none

drop_chunks-keeps :
    (conf : Conf) (env : Env Call) (part : Part) (chs : List ℕ) (err : Failed) (t : Trace Call)
    → (drop_chunks conf env part chs err t).0 ≡ err
unfolding drop_chunks
drop_chunks-keeps conf env part [] err t = refl
drop_chunks-keeps conf env part (c ∷ cs) err t = refl

read_loop-found :
    (db : Chunks) (got : List ℕ) (c : ℕ) (cs b : List ℕ)
    → db.find c ≡ found b
    → read_loop db got (c ∷ cs) ≡ read_loop db (got ++ b) cs
unfolding read_loop
read_loop-found db got c cs b q = rw (q, read_loop)

read_loop-missed :
    (db : Chunks) (got : List ℕ) (c : ℕ) (cs : List ℕ) (e : Error)
    → db.find c ≡ missed e
    → (bs : List ℕ) → read_loop db got (c ∷ cs) ≢ found bs
unfolding read_loop
read_loop-missed db got c cs e q bs r = ground arith

read_data-loop :
    (db : Chunks) (part : Part) (own : Option (List ℕ)) (cs bs : List ℕ)
    → own ≡ none
    → cs ≢ []
    → read_data db part own cs ≡ found bs
    → read_loop db [] cs ≡ found bs
unfolding read_data
read_data-loop db part (some d) cs bs o c r = ground arith
read_data-loop db part none [] bs o c r = absurd (c refl)
read_data-loop db part none (x ∷ cs) bs o c r = r

read_chunks-loop :
    (db : Chunks) (part : Part) (bs : List ℕ)
    → part.inline ≡ none
    → part.chunks ≢ []
    → read_chunks db part ≡ found bs
    → read_loop db [] part.chunks ≡ found bs
unfolding read_chunks
read_chunks-loop db part bs = read_data-loop db part part.inline part.chunks bs

module _ (conf : Conf) (before after : Chunks) (env : Env Call) (fresh : Fresh conf)
    (stores : Stores env) where
  -- A run that leaves the part and the error `o` and the trace `t` has put the bytes `bs` in the part.
  abbrev Reads : List ℕ → Outcome × Trace Call → Type 0
  Reads bs (o, t) = o.1 ≡ none → Answers after t → read_chunks after o.0 ≡ found bs

  copy_loop-gather :
      (part : Part) (cs got bs : List ℕ) (t : Trace Call)
      → part.inline ≡ none
      → gather (document t) part.chunks ≡ some got
      → read_loop before got cs ≡ found bs
      → (p : Part) × (t' : Trace Call) × (copy_loop conf before env part cs t ≡ (all_copied p, t'))
        × (p.inline ≡ none)
        × (gather (document t') p.chunks ≡ some bs)
  unfolding copy_loop read_loop
  copy_loop-gather part [] got bs t i g r = (part, t, refl, i, ground arith)
  copy_loop-gather part (c ∷ cs) got bs t i g r = elim (Found-cases (before.find c)) [
    | inr (e, q) ↦ absurd (read_loop-missed before got c cs e q bs r)
    | inl (b, q) ↦
        let id : ℕ = conf.new_id part.chunks in
        let part' : Part = record part { chunks = part.chunks ++ id ∷ [] } in
        rw (q, stores t id b, copy_loop)
          (copy_loop-gather part' cs (got ++ b) bs ((insert_chunk id b, true) ∷ t) i
            (gather-insert conf env fresh part got b t g)
            (sym (read_loop-found before got c cs b q) ∙ r))
  ]

  activate_copy-Reads :
      (etag : String) (p : Part) (bs : List ℕ) (t : Trace Call)
      → p.inline ≡ none
      → bs ≢ []
      → gather (document t) p.chunks ≡ some bs
      → Reads bs (activate_copy conf before env etag (p, none) t)
  unfolding activate_copy document
  activate_copy-Reads etag p bs t i ne g = elim (Option-cases (env t (set_active_part p etag))) [
    | inr (e, q) ↦ rw (q, activate_copy) (λ k. absurd (some-no e k))
    | inl q ↦
        rw (q, activate_copy)
          (λ k ans.
            gather-read_chunks conf env fresh after ((set_active_part p etag, true) ∷ t) p bs ans i
              ne g)
  ]

  -- CopyChunks after its loop, and what CopyPart does then.
  copy_tail : String → Copied → Trace Call → Outcome × Trace Call
  copy_tail etag r t =
      let (o, t') = copy_end conf before env r t in activate_copy conf before env etag o t'

  failed-Reads :
      (etag : String) (bs : List ℕ) (p : Part) (o : Failed) (e : Error) (t : Trace Call)
      → o ≡ some e
      → Reads bs (activate_copy conf before env etag (p, o) t)
  unfolding activate_copy
  failed-Reads etag bs p none e t h = absurd (some-no e (sym h))
  failed-Reads etag bs p (some e') e t h = λ k. absurd (some-no e' k)

  copy_tail-Reads :
      (etag : String) (p : Part) (bs : List ℕ) (t : Trace Call)
      → p.inline ≡ none
      → bs ≢ []
      → gather (document t) p.chunks ≡ some bs
      → Reads bs (copy_tail etag (all_copied p) t)
  unfolding copy_tail copy_end document
  copy_tail-Reads etag p bs t i ne g = elim (Option-cases (env t (set_chunks p.chunks))) [
    | inl q ↦
        rw (q, copy_end) (activate_copy-Reads etag p bs ((set_chunks p.chunks, true) ∷ t) i ne g)
    | inr (e, q) ↦
        let t' : Trace Call = (set_chunks p.chunks, false) ∷ t in
        let (o, u) = drop_chunks conf env p p.chunks (some e) t' in
        rw (q, copy_end)
          (failed-Reads etag bs p o e u (drop_chunks-keeps conf env p p.chunks (some e) t'))
  ]

  copy_bytes-Reads :
      (etag : String) (p source : Part) (own : Option (List ℕ)) (bs : List ℕ) (t : Trace Call)
      → (not conf.rados_disabled && ltb conf.max_chunk_size p.size) ≡ false
      → own ≡ none
      → p.inline ≡ none
      → p.chunks ≡ []
      → bs ≢ []
      → read_loop before [] source.chunks ≡ found bs
      → Reads bs (copy_bytes conf before env etag p source own t)
  unfolding copy_bytes copy_chunks copy_tail gather
  copy_bytes-Reads etag p source (some d) bs t small o i c ne r = ground arith
  copy_bytes-Reads etag p source none bs t small o i c ne r =
      let (p', t', q, i', g) = copy_loop-gather p source.chunks [] bs t i (rw (c, gather) refl) r in
      let tail : Reads bs (copy_tail etag (all_copied p') t') =
        copy_tail-Reads etag p' bs t' i' ne g in
      rw (small, q) tail

  -- When the database stores every chunk, and CopyPart of a part that has its data in chunks reports no
  -- error, then ReadChunks of the copy gives the same bytes as ReadChunks of the source gave (some
  -- bytes; the part is not kept in Ceph, a search finds the documents inserted, and new ids are new).
  pub copy_part-reads :
      (etag : String) (source : Part) (bs : List ℕ)
      → (not conf.rados_disabled && ltb conf.max_chunk_size source.size) ≡ false
      → source.inline ≡ none
      → source.chunks ≢ []
      → bs ≢ []
      → read_chunks before source ≡ found bs
      → let ((p, e), t) = copy_part conf before env etag source [] in
        e ≡ none → Answers after t → read_chunks after p ≡ found bs
  unfolding copy_part
  copy_part-reads etag source bs small i c ne r =
      let part : Part = record { size = source.size; inline = source.inline; chunks = [] } in
      elim (Option-cases (env [] (insert_part part))) [
        | inr (e, q) ↦ rw (q, copy_part) (λ k. absurd (some-no e k))
        | inl q ↦
            rw (q, copy_part)
              (copy_bytes-Reads etag part source source.inline bs ((insert_part part, true) ∷ [])
                small i i refl ne (read_chunks-loop before source bs i c r))
      ]

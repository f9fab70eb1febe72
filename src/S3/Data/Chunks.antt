-- ===== src/S3/Data/Chunks.antt =====
-- What is stored and removed of a part's chunks.
use mathlib.Core.List.{append_assoc, append-nil}
use swifty.Base.{
  ℕ, ◌≡◌, ◌≢◌, inl, inr, refl, ap, sym, ◌∙◌, Bool, true, false, Option, none, some, Option-cases,
  List, [], leb, ◌∷◌, ◌++◌, ltb, not, ◌&&◌, arith, is_none,
}
use swifty.Effects.{Error, failure, Env, Trace}
use swifty.S3.Store.{
  Conf, Part, Call, Next, fail, more, insert_chunk, remove_chunk, set_chunks, set_active_part,
}
use swifty.S3.Data.{
  Failed, Written, write_loop, save_chunks, write_chunks, delete_loop, delete_chunks, drop_chunks,
  delete_data, out, add_part,
}

-- The chunks stored, oldest first.
unfoldable pub stored : Trace Call → List ℕ
stored [] = []
stored ((insert_chunk id b, true) ∷ t) = stored t ++ id ∷ []
stored (_ ∷ t) = stored t

-- The bytes stored.
unfoldable pub bytes : Trace Call → List ℕ
bytes [] = []
bytes ((insert_chunk id b, true) ∷ t) = bytes t ++ b
bytes (_ ∷ t) = bytes t

-- The chunks asked to be removed, oldest first.
unfoldable pub removed : Trace Call → List ℕ
removed [] = []
removed ((remove_chunk id, _) ∷ t) = removed t ++ id ∷ []
removed (_ ∷ t) = removed t

-- Whether the update of the part with its chunks failed.
unfoldable pub unsaved : Trace Call → Bool
unsaved [] = false
unsaved ((set_chunks chs, false) ∷ t) = true
unsaved (_ ∷ t) = unsaved t

-- Whether the part's last change of state was to active.
abbrev pub active : Trace Call → Bool
active [] = false
active ((set_active_part p csum, b) ∷ t) = b
active (_ ∷ t) = false

-- All the data that a stream carries.
unfoldable pub payload : List Next → List ℕ
payload [] = []
payload (fail e ∷ s) = payload s
payload (more b ∷ s) = b ++ payload s

pub some-no : (e : Error) → some e ≢ none
some-no e h = ground arith

module _ (conf : Conf) (env : Env Call) where
  -- A loop of WriteChunks from the part `part`, when `hashed` is hashed.
  pub record Looped (part : Part) (hashed : List ℕ) (s : List Next) (t : Trace Call)
      (r : (Part × List ℕ × Bool) × Trace Call) : Type 0 where
    pub new : List ℕ
    pub chunks_are : r.0.0.chunks ≡ part.chunks ++ new
    pub size_is : r.0.0.size ≡ part.size
    pub inline_is : r.0.0.inline ≡ part.inline
    pub stored_are : stored r.1 ≡ stored t ++ new
    pub removed_are : removed r.1 ≡ removed t
    pub unsaved_are : unsaved r.1 ≡ unsaved t
    pub whole : r.0.2 ≡ true → (r.0.1 ≡ hashed ++ payload s) × (bytes r.1 ≡ bytes t ++ payload s)

  pub write_loop-Looped :
      (part : Part) (hashed : List ℕ) (s : List Next) (t : Trace Call)
      → Looped part hashed s t (write_loop conf env part hashed s t)
  unfolding write_loop stored removed bytes payload unsaved
  write_loop-Looped part hashed [] t = record {
    new = [];
    chunks_are = rw append-nil;
    size_is = refl;
    inline_is = refl;
    stored_are = rw append-nil;
    removed_are = refl;
    unsaved_are = refl;
    whole = λ _. (rw append-nil, rw append-nil);
  }
  write_loop-Looped part hashed (fail e ∷ s) t = record {
    new = [];
    chunks_are = rw append-nil;
    size_is = refl;
    inline_is = refl;
    stored_are = rw append-nil;
    removed_are = refl;
    unsaved_are = refl;
    whole = λ h. ground arith;
  }
  write_loop-Looped part hashed (more b ∷ s) t =
      elim (Option-cases (env t (insert_chunk (conf.new_id part.chunks) b))) [
        | inr (e, p) ↦
            rw (p, write_loop)
              (record {
                new = [];
                chunks_are = rw append-nil;
                size_is = refl;
                inline_is = refl;
                stored_are = rw append-nil;
                removed_are = refl;
                unsaved_are = refl;
                whole = λ h. ground arith;
              })
        | inl p ↦
            let id : ℕ = conf.new_id part.chunks in
            let part' : Part = record part { chunks = part.chunks ++ id ∷ [] } in
            let t' : Trace Call = (insert_chunk id b, true) ∷ t in
            let ih : Looped part' (hashed ++ b) s t'
                (write_loop conf env part' (hashed ++ b) s t') =
              write_loop-Looped part' (hashed ++ b) s t' in
            rw (p, write_loop)
              (record {
                new = id ∷ ih.new;
                chunks_are = ih.chunks_are ∙ append_assoc part.chunks (id ∷ []) ih.new;
                size_is = ih.size_is;
                inline_is = ih.inline_is;
                stored_are = ih.stored_are ∙ append_assoc (stored t) (id ∷ []) ih.new;
                removed_are = ih.removed_are;
                unsaved_are = ih.unsaved_are;
                whole = λ h.
                    let (u, v) = ih.whole h in
                    (
                      u ∙ append_assoc hashed b (payload s),
                      v ∙ append_assoc (bytes t) b (payload s),
                    );
              })
      ]

  -- A loop of DeleteChunks that starts with no error.
  delete_loop-asks :
      (chs : List ℕ) (t : Trace Call)
      → let (e, t') = delete_loop conf env none chs t in
        (e ≡ none)
        × (removed t' ≡ removed t ++ chs)
        × (stored t' ≡ stored t)
        × (unsaved t' ≡ unsaved t)
  unfolding delete_loop removed stored unsaved
  delete_loop-asks [] t = (refl, rw append-nil, refl, refl)
  delete_loop-asks (c ∷ cs) t =
      let b : Bool = is_none (env t (remove_chunk c)) in
      let (e, r, s, u) = delete_loop-asks cs ((remove_chunk c, b) ∷ t) in
      (e, r ∙ append_assoc (removed t) (c ∷ []) cs, s, u)

  delete_data-asks :
      (own : Option (List ℕ)) (chs : List ℕ) (t : Trace Call)
      → own ≡ none
      → chs ≢ []
      → let (e, t') = delete_data conf env own chs t in
        (e ≡ none)
        × (removed t' ≡ removed t ++ chs)
        × (stored t' ≡ stored t)
        × (unsaved t' ≡ unsaved t)
  unfolding delete_data
  delete_data-asks (some d) chs t h k = ground arith
  delete_data-asks none [] t h k = ground arith
  delete_data-asks none (c ∷ cs) t h k = delete_loop-asks (c ∷ cs) t

  -- DeleteChunks of a part with chunks asks for the removal of each, in order, and reports no error,
  -- whatever the database answers.
  delete_chunks-asks :
      (part : Part) (t : Trace Call)
      → part.inline ≡ none
      → part.chunks ≢ []
      → let (e, t') = delete_chunks conf env part t in
        (e ≡ none)
        × (removed t' ≡ removed t ++ part.chunks)
        × (stored t' ≡ stored t)
        × (unsaved t' ≡ unsaved t)
  unfolding delete_chunks
  delete_chunks-asks part t i c = delete_data-asks part.inline part.chunks t i c

  -- The error of a part's clean-up is the one given, and every chunk of the part is asked to be removed.
  drop_chunks-asks :
      (part : Part) (chs : List ℕ) (err : Failed) (t : Trace Call)
      → part.inline ≡ none
      → chs ≡ part.chunks
      → let (e, t') = drop_chunks conf env part chs err t in
        (e ≡ err)
        × (removed t' ≡ removed t ++ part.chunks)
        × (stored t' ≡ stored t)
        × (unsaved t' ≡ unsaved t)
  unfolding drop_chunks
  drop_chunks-asks part [] err t i h = (refl, rw (sym h, append-nil), refl, refl)
  drop_chunks-asks part (c ∷ cs) err t i h =
      let (e, r, s, u) = delete_chunks-asks part t i (λ k. ground arith) in (refl, r, s, u)

  -- The ways in which WriteChunks ends on an empty part that goes to the database.
  pub data Ended (s : List Next) (w : Written) (t : Trace Call) : Type 0 where
    -- All data is stored, and the part's chunks are those stored.
    all_stored :
        w.2 ≡ none
        → w.1 ≡ conf.md5 (payload s)
        → bytes t ≡ payload s
        → w.0.chunks ≡ stored t
        → removed t ≡ []
        → Ended s w t
    -- The part could not be updated: every chunk stored is asked to be removed.
    not_saved : w.2 ≢ none → unsaved t ≡ true → removed t ≡ stored t → Ended s w t
    -- The data could not be read or stored: the same, but no error is reported.
    lost : w.2 ≡ none → unsaved t ≡ false → w.1 ≡ "" → removed t ≡ stored t → Ended s w t

  out-removes :
      (part : Part) (err : Failed) (t : Trace Call)
      → part.inline ≡ none
      → part.chunks ≡ stored t
      → removed t ≡ []
      → let ((p, c, e), t') = out conf env part err t in
        (e ≡ err) × (c ≡ "") × (removed t' ≡ stored t') × (unsaved t' ≡ unsaved t)
  unfolding out
  out-removes part err t i c r =
      let (e, r', s', u) = drop_chunks-asks part part.chunks err t i refl in (e, refl, cc, u)

  save_chunks-Ended :
      (s : List Next) (p : Part) (h : List ℕ) (b : Bool) (t : Trace Call)
      → p.inline ≡ none
      → p.chunks ≡ stored t
      → removed t ≡ []
      → unsaved t ≡ false
      → (b ≡ true → (h ≡ payload s) × (bytes t ≡ payload s))
      → let (w, t') = save_chunks conf env (p, h, b) t in Ended s w t'
  unfolding save_chunks stored removed bytes unsaved
  save_chunks-Ended s p h false t i c r n w =
      let (e, m, a, u) = out-removes p none t i c r in lost e (u ∙ n) m a
  save_chunks-Ended s p h true t i c r n w = elim (Option-cases (env t (set_chunks p.chunks))) [
    | inl q ↦ let (u, v) = w refl in rw (q, save_chunks) (all_stored refl (ap conf.md5 u) v c r)
    | inr (e, q) ↦
        let (e', m, a, u) = out-removes p (some e) ((set_chunks p.chunks, false) ∷ t) i c r in
        rw (q, save_chunks) (not_saved (λ k. some-no e (sym e' ∙ k)) u a)
  ]

  -- Whatever the database answers, WriteChunks of a part that has no data yet and goes to the database
  -- either stores the whole stream in the part's chunks, in order, and returns its checksum, or asks
  -- for the removal of every chunk that it stored. In the latter case it reports an error exactly when it
  -- was the part that could not be updated.
  pub write_chunks-Ended :
      (part : Part) (s : List Next)
      → part.inline ≡ none
      → part.chunks ≡ []
      → (not conf.rados_disabled && ltb conf.max_chunk_size part.size) ≡ false
      → let (w, t) = write_chunks conf env part s [] in Ended s w t
  unfolding write_chunks stored removed bytes unsaved
  write_chunks-Ended part s i c small =
      let ran = write_loop-Looped part [] s [] in
      let ((p, h, b), t) = write_loop conf env part [] s [] in
      rw (small, write_chunks)
        (save_chunks-Ended s p h b t (ran.inline_is ∙ i)
          (ran.chunks_are ∙ ap (λ l. l ++ ran.new) c ∙ sym ran.stored_are) ran.removed_are
          ran.unsaved_are ran.whole)

-- A database that refuses every chunk, and nothing else.
abbrev pub no_room : Env Call
no_room t (insert_chunk id b) = some (failure "No space left")
no_room t _ = none

-- When the database refuses the first chunk, AddPart of data to be kept in chunks makes the part active
-- and reports no error, although no byte is stored.
pub add_part-hides :
    (conf : Conf) (size : ℕ) (b : List ℕ) (s : List Next)
    → leb size conf.inline_data_size ≡ false
    → (not conf.rados_disabled && ltb conf.max_chunk_size size) ≡ false
    → let ((p, csum, e), t) = add_part conf no_room size (more b ∷ s) [] in
      (e ≡ none) × (bytes t ≡ []) × (stored t ≡ []) × (active t ≡ true)
unfolding add_part bytes stored write_loop
add_part-hides conf size b s i c = rw (i, c) (refl, refl, refl, refl)

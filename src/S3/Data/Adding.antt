-- ===== src/S3/Data/Adding.antt =====
-- AddPart either has a part that tells where its data is, or leaves nothing (src/s3/data.go).
use mathlib.Core.List.{append-nil}
use swifty.Base.{
  ℕ, ◌≡◌, ◌≢◌, ◌⊎◌, inl, inr, refl, ap, sym, ◌∙◌, Bool, true, false, not, ◌&&◌, Option, none, some,
  String, Option-cases, Bool-cases, List, [], ◌∷◌, ◌++◌, ltb, leb, arith,
}
use swifty.Effects.{Env, Trace}
use swifty.S3.Store.{
  Conf, Part, Call, Next, fail, more, insert_part, set_active_part, set_chunks, insert_chunk,
  rados_write,
}
use swifty.S3.Data.{
  Failed, Written, delete_chunks, delete_data, drop_chunks, out, save_chunks, write_loop,
  write_chunks, activate_part, fill, insert_then, add_inline, add_part,
}
use swifty.S3.Data.Chunks.{stored, removed, write_loop-Looped}
use swifty.S3.Data.Undone.{
  has_row, in_pool, stuck, Asked, Undone, Tells, none_stored, asked, Asks, delete_loop-Asks,
  delete_chunks-Asked, add_out-Undone,
}

-- The end of WriteChunks, and of AddPart.
abbrev pub Wrote : Written → Trace Call → Type 0
Wrote w t = (w.2 ≡ none) × Tells w.0 t ⊎ (w.2 ≢ none) × Asked t × (in_pool t ≡ false)

abbrev pub Added : Written → Trace Call → Type 0
Added w t = (w.2 ≡ none) × Tells w.0 t ⊎ (w.2 ≢ none) × Undone t

-- No data has been written.
abbrev pub Fresh : Trace Call → Type 0
Fresh t = (stored t ≡ []) × (removed t ≡ []) × (in_pool t ≡ false)

module _ (conf : Conf) (env : Env Call) where
  delete_data-Asks :
      (own : Option (List ℕ)) (chs : List ℕ) (t : Trace Call)
      → own ≡ none
      → chs ≢ []
      → Asks chs t (delete_data conf env own chs t).1
  unfolding delete_data
  delete_data-Asks (some d) chs t h k = absurd (ground (arith, h))
  delete_data-Asks none [] t h k = absurd (k refl)
  delete_data-Asks none (c ∷ cs) t h k = (delete_loop-Asks conf env (c ∷ cs) t).1

  drop_chunks-Asks :
      (p : Part) (chs : List ℕ) (err : Failed) (t : Trace Call)
      → p.inline ≡ none
      → chs ≡ p.chunks
      → let (e, t') = drop_chunks conf env p chs err t in (e ≡ err) × Asks p.chunks t t'
  unfolding drop_chunks delete_chunks
  drop_chunks-Asks p [] err t i h = (
    refl,
    record {
      removed_are = rw (sym h, append-nil) refl;
      stored_are = refl;
      row_is = refl;
      pool_is = refl;
    },
  )
  drop_chunks-Asks p (c ∷ cs) err t i h =
      (refl, delete_data-Asks p.inline p.chunks t i (λ k. ground (arith, h, k)))

  out-Wrote :
      (p : Part) (err : Failed) (t : Trace Call)
      → p.inline ≡ none
      → p.chunks ≡ stored t
      → in_pool t ≡ false
      → let (w, t') = out conf env p err t in Wrote w t'
  unfolding out
  out-Wrote p err t i c z =
      let (e, a) = drop_chunks-Asks p p.chunks err t i refl in
      let t' = (drop_chunks conf env p p.chunks err t).1 in
      elim (Option-cases err) [
        | inl n ↦ inl (
          e ∙ n,
          record {
            chunks_are = λ k. c ∙ sym a.stored_are;
            own = λ d k. absurd (ground (arith, sym i ∙ k));
            pool_is = λ k. absurd (ground (arith, sym k ∙ a.pool_is ∙ z));
          },
        )
        | inr (x, n) ↦ inr (
          λ k. ground (arith, sym n ∙ sym e ∙ k),
          asked t t' p.chunks (a.stored_are ∙ sym c) a.removed_are,
          a.pool_is ∙ z,
        )
      ]

  save_chunks-Wrote :
      (p : Part) (h : List ℕ) (b : Bool) (t : Trace Call)
      → p.inline ≡ none
      → p.chunks ≡ stored t
      → in_pool t ≡ false
      → let (w, t') = save_chunks conf env (p, h, b) t in Wrote w t'
  unfolding save_chunks stored in_pool
  save_chunks-Wrote p h false t i c z = out-Wrote p none t i c z
  save_chunks-Wrote p h true t i c z = elim (Option-cases (env t (set_chunks p.chunks))) [
    | inl q ↦
        rw (q, save_chunks)
          (inl (
            refl,
            record {
              chunks_are = λ k. c;
              own = λ d k. absurd (ground (arith, sym i ∙ k));
              pool_is = λ k. absurd (ground (arith, sym k ∙ z));
            },
          ))
    | inr (e, q) ↦
        rw (q, save_chunks) (out-Wrote p (some e) ((set_chunks p.chunks, false) ∷ t) i c z)
  ]

  write_loop-pool :
      (s : List Next) (p : Part) (h : List ℕ) (t : Trace Call)
      → in_pool (write_loop conf env p h s t).1 ≡ in_pool t
  unfolding write_loop in_pool
  write_loop-pool [] p h t = refl
  write_loop-pool (fail e ∷ s) p h t = refl
  write_loop-pool (more b ∷ s) p h t =
      elim (Option-cases (env t (insert_chunk (conf.new_id p.chunks) b))) [
        | inl q ↦ rw (q, write_loop) (write_loop-pool s _ _ _)
        | inr (e, q) ↦ rw (q, write_loop) refl
      ]

  write_chunks-Wrote :
      (p : Part) (s : List Next) (t : Trace Call)
      → p.inline ≡ none
      → p.chunks ≡ []
      → Fresh t
      → let (w, t') = write_chunks conf env p s t in Wrote w t'
  unfolding write_chunks stored in_pool removed
  write_chunks-Wrote p s t i c (st, re, z) =
      elim (Bool-cases (not conf.rados_disabled && ltb conf.max_chunk_size p.size)) [
        | inl big ↦ elim (Option-cases (env t rados_write)) [
          | inl q ↦
              rw (big, q)
                (inl (
                  refl,
                  record { chunks_are = λ k. c ∙ sym st; own = λ d k. st; pool_is = λ k. (i, c) },
                ))
          | inr (e, q) ↦ rw (big, q) (inr (λ k. ground (arith, k), none_stored t st, z))
        ]
        | inr small ↦
            let ran = write_loop-Looped conf env p [] s t in
            let ((p', h, b), t') = write_loop conf env p [] s t in
            rw small (
              save_chunks-Wrote p' h b t' (ran.inline_is ∙ i)
                (ran.chunks_are ∙ ap (λ l. l ++ ran.new) (c ∙ sym st) ∙ sym ran.stored_are)
                (write_loop-pool s p [] t ∙ z))
      ]

  activate_part-Added :
      (w : Written) (t : Trace Call)
      → Wrote w t
      → let (w', t') = activate_part conf env w t in Added w' t'
  unfolding activate_part stored removed has_row in_pool stuck
  activate_part-Added (p, csum, some e) t (inl (n, k)) = absurd (ground (arith, n))
  activate_part-Added (p, csum, some e) t (inr (n, a, z)) =
      inr (add_out-Undone conf env p e t a (inl z))
  activate_part-Added (p, csum, none) t (inr (n, a, z)) = absurd (n refl)
  activate_part-Added (p, csum, none) t (inl (n, k)) =
      elim (Option-cases (env t (set_active_part p csum))) [
        | inl q ↦
            rw (q, activate_part)
              (inl (refl, record { chunks_are = k.chunks_are; own = k.own; pool_is = k.pool_is }))
        | inr (e, q) ↦
            let t0 : Trace Call = (set_active_part p csum, false) ∷ t in
            let tells : Tells p t0 = record {
              chunks_are = k.chunks_are;
              own = k.own;
              pool_is = k.pool_is;
            } in
            let (a, s) = delete_chunks-Asked conf env p t0 tells in
            rw (q, activate_part)
              (inr (
                add_out-Undone conf env p e (delete_chunks conf env p t0).1 a
                  (elim s [ inl (z, m) ↦ inl z | inr x ↦ inr x ])))
      ]

  fill-Added :
      (p : Part) (own : Option (List ℕ)) (csum : String) (s : List Next) (t : Trace Call)
      → p.inline ≡ own
      → p.chunks ≡ []
      → Fresh t
      → let (w, t') = fill conf env p own csum s t in Added w t'
  unfolding fill
  fill-Added p (some d) csum s t i c (st, re, z) =
      activate_part-Added (p, csum, none) t
        (inl (
          refl,
          record {
            chunks_are = λ k. c ∙ sym st;
            own = λ d k. st;
            pool_is = λ k. absurd (ground (arith, sym k ∙ z));
          },
        ))
  fill-Added p none csum s t i c f =
      activate_part-Added (write_chunks conf env p s t).0 (write_chunks conf env p s t).1
        (write_chunks-Wrote p s t i c f)

  insert_then-Added :
      (p : Part) (csum : String) (s : List Next) (t : Trace Call)
      → p.chunks ≡ []
      → Fresh t
      → let (w, t') = insert_then conf env p csum s t in Added w t'
  unfolding insert_then stored removed in_pool
  insert_then-Added p csum s t c f = elim (Option-cases (env t (insert_part p))) [
    | inl q ↦
        rw (q, insert_then) (fill-Added p p.inline csum s ((insert_part p, true) ∷ t) refl c f)
    | inr (e, q) ↦
        rw (q, insert_then)
          (inr (
            add_out-Undone conf env p e ((insert_part p, false) ∷ t)
              (none_stored ((insert_part p, false) ∷ t) f.0) (inl f.2)))
  ]

  add_inline-Added :
      (size : ℕ) (s : List Next) (t : Trace Call)
      → Fresh t
      → let (w, t') = add_inline conf env size s t in Added w t'
  unfolding add_inline
  add_inline-Added size [] t f = insert_then-Added _ (conf.md5 []) [] t refl f
  add_inline-Added size (fail e ∷ s) t f =
      inr (add_out-Undone conf env _ e t (none_stored t f.0) (inl f.2))
  add_inline-Added size (more b ∷ s) t f = insert_then-Added _ (conf.md5 b) s t refl f

  pub add_part-Added :
      (size : ℕ) (s : List Next) (t : Trace Call)
      → Fresh t
      → let (w, t') = add_part conf env size s t in Added w t'
  unfolding add_part
  add_part-Added size s t f = elim (Bool-cases (leb size conf.inline_data_size)) [
    | inl q ↦ rw q (add_inline-Added size s t f)
    | inr q ↦ rw q (insert_then-Added _ "" s t refl f)
  ]

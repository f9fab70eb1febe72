-- ===== src/S3/Data/Reading/Calls.antt =====
-- The calls that the copying of a part makes are about data only.
use swifty.Base.{
  ℕ, inl, inr, Option-cases, Bool-cases, refl, Option, none, some, String, List, [], ◌∷◌, ltb, not,
  ◌&&◌,
}
use swifty.Effects.{Env, Trace}
use swifty.S3.Store.{Conf, Part, Call, set_active_part, set_chunks, insert_chunk, insert_part}
use swifty.S3.Data.{Failed}
use swifty.S3.Data.Quiet.{Quiet, same, first, Quiet-trans, drop_chunks-Quiet, delete_chunks-Quiet}
use swifty.S3.Data.Reading.{
  Found-cases, Chunks, Copied, all_copied, jumped, returned, Outcome, copy_loop, copy_out, copy_end,
  copy_chunks, abandon, activate_copy, copy_bytes, copy_part,
}

module _ (conf : Conf) (db : Chunks) (env : Env Call) where
  copy_loop-Quiet :
      (cs : List ℕ) (p : Part) (t : Trace Call) → Quiet t (copy_loop conf db env p cs t).1
  unfolding copy_loop
  copy_loop-Quiet [] p t = same
  copy_loop-Quiet (c ∷ cs) p t = elim (Found-cases (db.find c)) [
    | inr (e, p') ↦ rw (p', copy_loop) same
    | inl (b, p') ↦ elim (Option-cases (env t (insert_chunk (conf.new_id p.chunks) b))) [
      | inl q ↦ rw (p', q, copy_loop) (first refl (copy_loop-Quiet cs _ _))
      | inr (e, q) ↦ rw (p', q, copy_loop) (first refl same)
    ]
  ]

  copy_out-Quiet : (p : Part) (e : Failed) (t : Trace Call) → Quiet t (copy_out conf db env p e t).1
  unfolding copy_out
  copy_out-Quiet p e t = drop_chunks-Quiet conf env p p.chunks e t

  copy_end-Quiet : (r : Copied) (t : Trace Call) → Quiet t (copy_end conf db env r t).1
  unfolding copy_end
  copy_end-Quiet (returned p e) t = same
  copy_end-Quiet (jumped p) t = copy_out-Quiet p none t
  copy_end-Quiet (all_copied p) t = elim (Option-cases (env t (set_chunks p.chunks))) [
    | inl q ↦ rw (q, copy_end) (first refl same)
    | inr (e, q) ↦ rw (q, copy_end) (first refl (copy_out-Quiet p (some e) _))
  ]

  copy_chunks-Quiet : (p s : Part) (t : Trace Call) → Quiet t (copy_chunks conf db env p s t).1
  unfolding copy_chunks
  copy_chunks-Quiet p s t =
      elim (Bool-cases (not conf.rados_disabled && ltb conf.max_chunk_size p.size)) [
        | inl q ↦ rw (q, copy_chunks) same
        | inr q ↦
            rw (q, copy_chunks) (Quiet-trans (copy_loop-Quiet s.chunks p t) (copy_end-Quiet _ _))
      ]

  activate_copy-Quiet :
      (etag : String) (o : Outcome) (t : Trace Call)
      → Quiet t (activate_copy conf db env etag o t).1
  unfolding activate_copy abandon
  activate_copy-Quiet etag (p, some e) t = first refl same
  activate_copy-Quiet etag (p, none) t = elim (Option-cases (env t (set_active_part p etag))) [
    | inl q ↦ rw (q, activate_copy) (first refl same)
    | inr (e, q) ↦
        rw (q, activate_copy)
          (first refl (Quiet-trans (delete_chunks-Quiet conf env p _) (first refl same)))
  ]

  copy_bytes-Quiet :
      (etag : String) (p s : Part) (own : Option (List ℕ)) (t : Trace Call)
      → Quiet t (copy_bytes conf db env etag p s own t).1
  unfolding copy_bytes
  copy_bytes-Quiet etag p s (some d) t = activate_copy-Quiet etag (p, none) t
  copy_bytes-Quiet etag p s none t =
      Quiet-trans (copy_chunks-Quiet p s t) (activate_copy-Quiet etag _ _)

  pub copy_part-Quiet :
      (etag : String) (s : Part) (t : Trace Call) → Quiet t (copy_part conf db env etag s t).1
  unfolding copy_part abandon
  copy_part-Quiet etag s t =
      let p : Part = record { size = s.size; inline = s.inline; chunks = [] } in
      elim (Option-cases (env t (insert_part p))) [
        | inl q ↦ rw (q, copy_part) (first refl (copy_bytes-Quiet etag p s s.inline _))
        | inr (e, q) ↦ rw (q, copy_part) (first refl (first refl same))
      ]

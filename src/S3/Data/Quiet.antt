-- ===== src/S3/Data/Quiet.antt =====
-- The calls that the work on an object's data makes: none of them is about the object itself.
use swifty.Base.{
  ℕ, ◌≡◌, inl, inr, Option-cases, Bool-cases, refl, Bool, true, false, Option, none, some, String,
  List, [], ◌∷◌, ltb, leb, not, ◌&&◌,
}
use swifty.Effects.{Env, Trace}
use swifty.S3.Store.{
  Conf, Part, Call, Next, fail, more, insert_part, remove_part, remove_inactive_part,
  set_inactive_part, set_active_part, set_chunks, insert_chunk, remove_chunk, find_parts,
  end_of_parts, rados_write, rados_delete,
}
use swifty.S3.Data.{
  Failed, Written, delete_loop, delete_data, delete_chunks, write_loop, drop_chunks, out,
  save_chunks, write_chunks, add_out, activate_part, fill, remove_row, insert_then, add_inline,
  add_part, delete_part, delete_each, delete_parts,
}

abbrev pub is_data : Call → Bool
is_data (insert_part p) = true
is_data (remove_part p) = true
is_data (remove_inactive_part p) = true
is_data (set_inactive_part p) = true
is_data (set_active_part p csum) = true
is_data (set_chunks chs) = true
is_data (insert_chunk id b) = true
is_data (remove_chunk id) = true
is_data find_parts = true
is_data end_of_parts = true
is_data rados_write = true
is_data rados_delete = true
is_data _ = false

-- Only calls about data lead from `t` to the second trace.
pub data Quiet (t : Trace Call) : Trace Call → Type 0 where
  same : Quiet t t
  one_more :
      (c : Call) (b : Bool) (t' : Trace Call)
      → is_data c ≡ true
      → Quiet t t'
      → Quiet t ((c, b) ∷ t')

pub Quiet-trans : {t t' t'' : Trace Call} → Quiet t t' → Quiet t' t'' → Quiet t t''
Quiet-trans p same = p
Quiet-trans p (one_more c b t' h q) = one_more c b t' h (Quiet-trans p q)

-- A call about data, and then the rest.
pub first :
    {t t' : Trace Call} {c : Call} {b : Bool}
    → is_data c ≡ true
    → Quiet ((c, b) ∷ t) t'
    → Quiet t t'
first h q = Quiet-trans (one_more _ _ _ h same) q

module _ (conf : Conf) (env : Env Call) where
  delete_loop-Quiet :
      (chs : List ℕ) (err : Failed) (t : Trace Call) → Quiet t (delete_loop conf env err chs t).1
  unfolding delete_loop
  delete_loop-Quiet [] err t = same
  delete_loop-Quiet (c ∷ cs) err t = first refl (delete_loop-Quiet cs _ _)

  delete_data-Quiet :
      (own : Option (List ℕ)) (chs : List ℕ) (t : Trace Call)
      → Quiet t (delete_data conf env own chs t).1
  unfolding delete_data
  delete_data-Quiet (some d) chs t = same
  delete_data-Quiet none [] t = first refl same
  delete_data-Quiet none (c ∷ cs) t = delete_loop-Quiet (c ∷ cs) none t

  pub delete_chunks-Quiet : (p : Part) (t : Trace Call) → Quiet t (delete_chunks conf env p t).1
  unfolding delete_chunks
  delete_chunks-Quiet p t = delete_data-Quiet p.inline p.chunks t

  write_loop-Quiet :
      (s : List Next) (p : Part) (h : List ℕ) (t : Trace Call)
      → Quiet t (write_loop conf env p h s t).1
  unfolding write_loop
  write_loop-Quiet [] p h t = same
  write_loop-Quiet (fail e ∷ s) p h t = same
  write_loop-Quiet (more b ∷ s) p h t =
      elim (Option-cases (env t (insert_chunk (conf.new_id p.chunks) b))) [
        | inl q ↦ rw (q, write_loop) (first refl (write_loop-Quiet s _ _ _))
        | inr (e, q) ↦ rw (q, write_loop) (first refl same)
      ]

  pub drop_chunks-Quiet :
      (p : Part) (chs : List ℕ) (err : Failed) (t : Trace Call)
      → Quiet t (drop_chunks conf env p chs err t).1
  unfolding drop_chunks
  drop_chunks-Quiet p [] err t = same
  drop_chunks-Quiet p (c ∷ cs) err t = delete_chunks-Quiet p t

  save_chunks-Quiet :
      (r : Part × List ℕ × Bool) (t : Trace Call) → Quiet t (save_chunks conf env r t).1
  unfolding save_chunks out
  save_chunks-Quiet (p, h, false) t = drop_chunks-Quiet p p.chunks none t
  save_chunks-Quiet (p, h, true) t = elim (Option-cases (env t (set_chunks p.chunks))) [
    | inl q ↦ rw (q, save_chunks) (first refl same)
    | inr (e, q) ↦ rw (q, save_chunks) (first refl (drop_chunks-Quiet p p.chunks (some e) _))
  ]

  write_chunks-Quiet :
      (p : Part) (s : List Next) (t : Trace Call) → Quiet t (write_chunks conf env p s t).1
  unfolding write_chunks
  write_chunks-Quiet p s t =
      elim (Bool-cases (not conf.rados_disabled && ltb conf.max_chunk_size p.size)) [
        | inl q ↦ rw (q, write_chunks) (first refl same)
        | inr q ↦
            rw (q, write_chunks)
              (Quiet-trans (write_loop-Quiet s p [] t)
                (save_chunks-Quiet (write_loop conf env p [] s t).0 _))
      ]

  activate_part-Quiet : (w : Written) (t : Trace Call) → Quiet t (activate_part conf env w t).1
  unfolding activate_part add_out
  activate_part-Quiet (p, csum, some e) t = first refl same
  activate_part-Quiet (p, csum, none) t = elim (Option-cases (env t (set_active_part p csum))) [
    | inl q ↦ rw (q, activate_part) (first refl same)
    | inr (e, q) ↦
        rw (q, activate_part) (first refl (Quiet-trans (delete_chunks-Quiet p _) (first refl same)))
  ]

  fill-Quiet :
      (p : Part) (own : Option (List ℕ)) (csum : String) (s : List Next) (t : Trace Call)
      → Quiet t (fill conf env p own csum s t).1
  unfolding fill
  fill-Quiet p (some b) csum s t = activate_part-Quiet (p, csum, none) t
  fill-Quiet p none csum s t =
      Quiet-trans (write_chunks-Quiet p s t) (activate_part-Quiet (write_chunks conf env p s t).0 _)

  insert_then-Quiet :
      (p : Part) (csum : String) (s : List Next) (t : Trace Call)
      → Quiet t (insert_then conf env p csum s t).1
  unfolding insert_then add_out
  insert_then-Quiet p csum s t = elim (Option-cases (env t (insert_part p))) [
    | inl q ↦ rw (q, insert_then) (first refl (fill-Quiet p p.inline csum s _))
    | inr (e, q) ↦ rw (q, insert_then) (first refl (first refl same))
  ]

  add_inline-Quiet :
      (size : ℕ) (s : List Next) (t : Trace Call) → Quiet t (add_inline conf env size s t).1
  unfolding add_inline add_out
  add_inline-Quiet size [] t = insert_then-Quiet _ (conf.md5 []) [] t
  add_inline-Quiet size (fail e ∷ s) t = first refl same
  add_inline-Quiet size (more b ∷ s) t = insert_then-Quiet _ (conf.md5 b) s t

  -- AddPart is about data only.
  pub add_part-Quiet :
      (size : ℕ) (s : List Next) (t : Trace Call) → Quiet t (add_part conf env size s t).1
  unfolding add_part
  add_part-Quiet size s t = elim (Bool-cases (leb size conf.inline_data_size)) [
    | inl q ↦ rw (q, add_part) (add_inline-Quiet size s t)
    | inr q ↦ rw (q, add_part) (insert_then-Quiet _ "" s t)
  ]

  removal-Quiet : (p : Part) (d : Failed) (t : Trace Call) → Quiet t (remove_row conf env p d t).1
  unfolding remove_row
  removal-Quiet p (some e) t = same
  removal-Quiet p none t = first refl same

  -- DeletePart is about data only.
  pub delete_part-Quiet : (p : Part) (t : Trace Call) → Quiet t (delete_part conf env p t).1
  unfolding delete_part
  delete_part-Quiet p t = elim (Option-cases (env t (set_inactive_part p))) [
    | inl q ↦
        rw (q, delete_part)
          (first refl (Quiet-trans (delete_chunks-Quiet p _) (removal-Quiet p _ _)))
    | inr (e, q) ↦ rw (q, delete_part) (first refl same)
  ]

  delete_each-Quiet : (ps : List Part) (t : Trace Call) → Quiet t (delete_each conf env ps t).1
  unfolding delete_each
  delete_each-Quiet [] t = same
  delete_each-Quiet (p ∷ ps) t = elim (Option-cases (delete_part conf env p t).0) [
    | inl q ↦ rw (q, delete_each) (Quiet-trans (delete_part-Quiet p t) (delete_each-Quiet ps _))
    | inr (e, q) ↦ rw (q, delete_each) (delete_part-Quiet p t)
  ]

  -- DeleteParts is about data only.
  pub delete_parts-Quiet :
      (ps : List Part) (t : Trace Call) → Quiet t (delete_parts conf env ps t).1
  unfolding delete_parts
  delete_parts-Quiet ps t = elim (Option-cases (env t find_parts)) [
    | inl q ↦ rw (q, delete_parts) (first refl (delete_each-Quiet ps _))
    | inr (e, q) ↦ rw (q, delete_parts) (first refl same)
  ]

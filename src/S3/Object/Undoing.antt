-- ===== src/S3/Object/Undoing.antt =====
-- An AddObject that fails leaves no data (src/s3/object.go).
use swifty.Base.{
  ℕ, ◌≡◌, ◌≢◌, inl, inr, refl, sym, ◌∙◌, false, none, some, String, List, [], arith, Option-cases,
}
use swifty.Effects.{Error, Env, Trace}
use swifty.S3.Store.{Conf, Part, Call, Next}
use swifty.S3.Data.{Written, add_part, delete_part}
use swifty.S3.Data.Chunks.{stored, removed}
use swifty.S3.Data.Undone.{has_row, in_pool, stuck, Undone, Tells, none_stored, delete_part-Undone}
use swifty.S3.Data.Adding.{Added, Fresh, add_part-Added}
use swifty.S3.Acct.{AcctStats}
use swifty.S3.Object.{
  create_object_pre, create_object_post, Bucket, add_object, finish_object, out_acc, out_parts,
}

-- The second trace says the same about data.
abbrev Same : Trace Call → Trace Call → Type 0
Same t t' =
    (stored t' ≡ stored t)
    × (removed t' ≡ removed t)
    × (has_row t' ≡ has_row t)
    × (in_pool t' ≡ in_pool t)
    × (stuck t' ≡ stuck t)

Undone-Same : (t t' : Trace Call) → Same t t' → Undone t → Undone t'
Undone-Same t t' (s, r, h, p, x) (inl (a, b, c)) =
    inl (h ∙ a, p ∙ b, λ id k. rw r (c id (rw (sym s) k)))
Undone-Same t t' (s, r, h, p, x) (inr k) = inr (x ∙ k)

Tells-Same : (part : Part) (t t' : Trace Call) → Same t t' → Tells part t → Tells part t'
Tells-Same part t t' (s, r, h, p, x) k = record {
  chunks_are = λ i. k.chunks_are i ∙ sym s;
  own = λ d i. s ∙ k.own d i;
  pool_is = λ z. k.pool_is (sym p ∙ z);
}

module _ (conf : Conf) (env : Env Call) (bucket : Bucket) where
  out_acc-Same : (e : Error) (t : Trace Call) → Same t (out_acc conf env bucket e t).1
  unfolding out_acc stored removed has_row in_pool stuck
  out_acc-Same e t = ground arith

  post-Same :
      (etag : String) (t : Trace Call) → Same t (create_object_post conf env bucket etag t).1
  unfolding create_object_post stored removed has_row in_pool stuck
  post-Same etag t = ground arith

  pre-Fresh :
      (st : AcctStats)
      → let t = (create_object_pre conf env bucket st []).1 in Fresh t × (has_row t ≡ false)
  unfolding create_object_pre stored removed has_row in_pool
  pre-Fresh st = ground arith

  out_acc-Undone : (e : Error) (t : Trace Call) → Undone t → Undone (out_acc conf env bucket e t).1
  out_acc-Undone e t u = Undone-Same t _ (out_acc-Same e t) u

  finish_object-Undone :
      (w : Written) (t : Trace Call)
      → Added w t
      → let (r, t') = finish_object conf env bucket w t in r ≢ none → Undone t'
  unfolding finish_object out_parts
  finish_object-Undone (p, etag, some e) t (inl (n, k)) = λ f. absurd (ground (arith, n))
  finish_object-Undone (p, etag, some e) t (inr (n, u)) = λ f. out_acc-Undone e t u
  finish_object-Undone (p, etag, none) t (inr (n, u)) = λ f. absurd (n refl)
  finish_object-Undone (p, etag, none) t (inl (n, k)) =
      let t1 : Trace Call = (create_object_post conf env bucket etag t).1 in
      elim (Option-cases (create_object_post conf env bucket etag t).0) [
        | inl q ↦ rw (q, finish_object) (λ f. absurd (f refl))
        | inr (e, q) ↦
            rw (q, finish_object)
              (λ f.
                out_acc-Undone e (delete_part conf env p t1).1
                  (delete_part-Undone conf env p t1 (Tells-Same p t t1 (post-Same etag t) k)))
      ]

  pub add_object-Undone :
      (st : AcctStats) (size : ℕ) (s : List Next)
      → let (r, t) = add_object conf env bucket st size s [] in r ≢ none → Undone t
  unfolding add_object
  add_object-Undone st size s =
      let (fresh, no_row) = pre-Fresh st in
      let t = (create_object_pre conf env bucket st []).1 in
      elim (Option-cases (create_object_pre conf env bucket st []).0) [
        | inr (e, q) ↦ rw (q, add_object) (λ f. inl (no_row, fresh.2, none_stored t fresh.0))
        | inl q ↦
            rw (q, add_object)
              (finish_object-Undone (add_part conf env size s t).0 (add_part conf env size s t).1
                (add_part-Added conf env size s t fresh))
      ]

-- ===== src/S3/Object/Copying.antt =====
-- src/s3/object.go: the copying of an object, part by part (CopyObject).
use swifty.Base.{
  ◌≡◌, ◌≢◌, ◌⊎◌, inl, inr, refl, ap, sym, ◌∙◌, true, Option, none, some, String, List, [], ◌∷◌,
  ◌++◌, Option-cases,
}
use swifty.Effects.{Error, Env, Trace, M, pure, call, ◌>>=◌}
use swifty.S3.Store.{Conf, Part, Call, end_of_parts}
use swifty.S3.Data.{delete_parts}
use swifty.S3.Data.Quiet.{Quiet, same, first, Quiet-trans, delete_parts-Quiet}
use swifty.S3.Data.Reading.{Chunks, copy_part}
use swifty.S3.Data.Reading.Calls.{copy_part-Quiet}
use swifty.S3.Acct.{AcctStats}
use swifty.S3.Object.{Bucket, create_object_pre, create_object_post, out_acc}
use swifty.S3.Object.Cleanup.{
  Made, held, nothing, accounted, alarmed, Quiet-held, some_no, out_acc-Made,
  create_object_pre-Made, create_object_post-holds,
}

-- The object to be copied: its ETag, and its active parts, each with its own.
pub record Source : Type 0 where
  pub etag : String
  pub parts : List (Part × String)

module _ (conf : Conf) (db : Chunks) (env : Env Call) (bucket : Bucket) where
  -- IterParts with CopyPart, and the parts made.
  iter_copy : List Part → List (Part × String) → M Call (List Part × Option Error)
  iter_copy made [] = do r ← call env end_of_parts; pure (made, r)
  iter_copy made ((p, etag) ∷ ps) = do
    r ← copy_part conf db env etag p
    elim r.1 [ some e ↦ pure (made, some e) | none ↦ iter_copy (made ++ r.0 ∷ []) ps ]

  -- The labels `out_parts` and `out_acc` of CopyObject.
  copy_out_parts : List Part → Error → M Call (Option Error)
  unfolding out_acc
  copy_out_parts made e = do _ ← delete_parts conf env made; out_acc conf env bucket e

  finish_copy : String → List Part × Option Error → M Call (Option Error)
  unfolding create_object_post copy_out_parts out_acc
  finish_copy etag (made, some e) = out_acc conf env bucket e
  finish_copy etag (made, none) = do
    r ← create_object_post conf env bucket etag
    elim r [ some e ↦ copy_out_parts made e | none ↦ pure none ]

  -- CopyObject, of what FindCurObject finds.
  pub copy_object : AcctStats → Error ⊎ Source → M Call (Option Error)
  unfolding create_object_pre iter_copy finish_copy
  copy_object st (inl e) = pure (some e)
  copy_object st (inr source) = do
    r ← create_object_pre conf env bucket st
    elim r [
      | some e ↦ pure (some e)
      | none ↦ do c ← iter_copy [] source.parts; finish_copy source.etag c
    ]

  iter_copy-Quiet :
      (ps : List (Part × String)) (made : List Part) (t : Trace Call)
      → Quiet t (iter_copy made ps t).1
  unfolding iter_copy copy_part
  iter_copy-Quiet [] made t = first refl same
  iter_copy-Quiet ((p, etag) ∷ ps) made t =
      let q = copy_part-Quiet conf db env etag p t in
      elim (Option-cases (copy_part conf db env etag p t).0.1) [
        | inl k ↦ rw (k, iter_copy) (Quiet-trans q (iter_copy-Quiet ps _ _))
        | inr (e, k) ↦ rw (k, iter_copy) q
      ]

  copy_out_parts-Made :
      (made : List Part) (e : Error) (t : Trace Call)
      → (held nothing t).in_stats ≡ true
      → (held nothing t).in_bucket ≡ true
      → let (r, t') = copy_out_parts made e t in
        (r ≢ none) × ((held nothing t' ≡ nothing) ⊎ (alarmed t' ≡ true))
  unfolding copy_out_parts
  copy_out_parts-Made made e t s b =
      let q = Quiet-held (delete_parts-Quiet conf env made t) nothing in
      out_acc-Made conf env bucket e _ (ap (λ h. h.in_stats) q ∙ s) (ap (λ h. h.in_bucket) q ∙ b)

  finish_copy-Made :
      (etag : String) (made : List Part) (err : Option Error) (t : Trace Call)
      → held nothing t ≡ accounted
      → let (r, t') = finish_copy etag (made, err) t in Made r t'
  unfolding finish_copy
  finish_copy-Made etag made (some e) t h =
      inr (out_acc-Made conf env bucket e t (ap (λ h. h.in_stats) h) (ap (λ h. h.in_bucket) h))
  finish_copy-Made etag made none t h =
      let (w, s, b) = create_object_post-holds conf env bucket etag t h in
      elim (Option-cases (create_object_post conf env bucket etag t).0) [
        | inl q ↦ rw (q, finish_copy) (inl (refl, w q))
        | inr (e, q) ↦ rw (q, finish_copy) (inr (copy_out_parts-Made made e _ s b))
      ]

  -- CopyObject of an object that is found: if it reports no error, the copy is active and counted in its
  -- namespace and in its bucket, with nothing pending; if it reports one, then neither a document nor a
  -- count of the copy is left, or a removal failed or a consistency check was asked for.
  pub copy_object-Made :
      (st : AcctStats) (source : Source) → let (r, t) = copy_object st (inr source) [] in Made r t
  unfolding copy_object
  copy_object-Made st source =
      let (made, failed) = create_object_pre-Made conf env bucket st in
      let t = (create_object_pre conf env bucket st []).1 in
      let ((parts, err), t') = iter_copy [] source.parts t in
      elim (Option-cases (create_object_pre conf env bucket st []).0) [
        | inl q ↦
            rw (q, copy_object)
              (finish_copy-Made source.etag parts err t'
                (Quiet-held (iter_copy-Quiet source.parts [] t) nothing ∙ made q))
        | inr (e, q) ↦
            rw (q, copy_object)
              (inr
                (some_no e, elim failed [ inl z ↦ elim (some_no e (sym q ∙ z)) [ ] | inr f ↦ f ]))
      ]

-- ===== src/S3/Object/Cleanup.antt =====
-- What the making and the removal of an object leave behind.
use swifty.Base.{
  ◌≡◌, ◌≢◌, ◌⊎◌, inl, inr, refl, ◌∙◌, Bool, true, false, Option, none, some, String, List, [], ◌∷◌,
  arith, Option-cases,
}
use swifty.Effects.{Error, Env, Trace}
use swifty.S3.Store.{
  Conf, Part, Call, insert_object, remove_object, set_inactive_object, remove_inactive_object,
  set_active_object, stats_add, stats_sub, bucket_add, bucket_sub, bucket_sub_ref, bucket_commit,
  request_fsck,
}
use swifty.S3.Data.{delete_parts}
use swifty.S3.Data.Quiet.{is_data, Quiet, same, one_more, delete_parts-Quiet}
use swifty.S3.Data.Removal.{released, all_of, delete_parts-releases}
use swifty.S3.Data.Undone.{Undone}
use swifty.S3.Acct.{AcctStats}
use swifty.S3.Object.{
  create_object_pre, create_object_post, Bucket, out_acc, upload_to_object, drop_object, drop_rest,
}

-- What an object holds: its document, and whether it is active; its size in the counters of the
-- namespace and of the bucket; its share of the bucket's uncommitted objects.
pub record Held : Type 0 where
  pub row : Bool
  pub active : Bool
  pub in_stats : Bool
  pub in_bucket : Bool
  pub pending : Bool

abbrev pub nothing : Held
nothing = record {
  row = false;
  active = false;
  in_stats = false;
  in_bucket = false;
  pending = false;
}

abbrev pub whole : Held
whole = record { row = true; active = true; in_stats = true; in_bucket = true; pending = false }

abbrev pub accounted : Held
accounted = record { row = true; active = false; in_stats = true; in_bucket = true; pending = true }

abbrev after : Held → Call × Bool → Held
after h (insert_object, true) = record h { row = true }
after h (remove_object, true) = record h { row = false; active = false }
after h (remove_inactive_object, true) = record h { row = false }
after h (set_active_object etag, true) = record h { active = true }
after h (set_inactive_object, true) = record h { active = false }
after h (stats_add, true) = record h { in_stats = true }
after h (stats_sub, true) = record h { in_stats = false }
after h (bucket_add, true) = record h { in_bucket = true; pending = true }
after h (bucket_sub, true) = record h { in_bucket = false }
after h (bucket_sub_ref, true) = record h { in_bucket = false; pending = false }
after h (bucket_commit, true) = record h { pending = false }
after h _ = h

-- From `start` on.
unfoldable pub held : Held → Trace Call → Held
held start [] = start
held start (c ∷ t) = after (held start t) c

-- A consistency check was asked for, or a document could not be removed.
unfoldable pub alarmed : Trace Call → Bool
alarmed [] = false
alarmed ((request_fsck, _) ∷ t) = true
alarmed ((remove_object, false) ∷ t) = true
alarmed (_ ∷ t) = alarmed t

-- Calls about data change neither.
pub Quiet-held : {t t' : Trace Call} → Quiet t t' → (start : Held) → held start t' ≡ held start t
unfolding held
Quiet-held same start = refl
Quiet-held (one_more c b t' h q) start = data_call c b _ h ∙ Quiet-held q start
  where
    data_call : (c : Call) (b : Bool) (k : Held) → is_data c ≡ true → after k (c, b) ≡ k
    data_call c b k h = ground arith

Quiet-alarmed : {t t' : Trace Call} → Quiet t t' → alarmed t' ≡ alarmed t
unfolding alarmed
Quiet-alarmed same = refl
Quiet-alarmed (one_more c b t' h q) = data_call c b t' h ∙ Quiet-alarmed q
  where
    data_call :
        (c : Call) (b : Bool) (t : Trace Call) → is_data c ≡ true → alarmed ((c, b) ∷ t) ≡ alarmed t
    data_call c b k h = ground arith

pub some_no : (e : Error) → some e ≢ none
some_no e h = ground arith

-- How the making of an object ends.
abbrev pub Made : Option Error → Trace Call → Type 0
Made r t =
    (r ≡ none) × (held nothing t ≡ whole)
    ⊎ ((r ≢ none) × ((held nothing t ≡ nothing) ⊎ (alarmed t ≡ true)))

-- How the removal of an object with some parts ends.
abbrev pub Dropped : List Part → Option Error → Trace Call → Type 0
Dropped parts r t =
    (r ≡ none) × (held whole t ≡ nothing) × (released t ≡ all_of parts)
    ⊎ ((r ≢ none) × ((held whole t).row ≡ true))

module _ (conf : Conf) (env : Env Call) (bucket : Bucket) where
  -- From a trace after which the object is in the counters, and perhaps committed already.
  pub out_acc-Made :
      (e : Error) (t : Trace Call)
      → (held nothing t).in_stats ≡ true
      → (held nothing t).in_bucket ≡ true
      → let (r, t') = out_acc conf env bucket e t in
        (r ≢ none) × ((held nothing t' ≡ nothing) ⊎ (alarmed t' ≡ true))
  unfolding out_acc held alarmed
  out_acc-Made e t s b = ground arith

  pub create_object_post-holds :
      (etag : String) (t : Trace Call)
      → held nothing t ≡ accounted
      → let (r, t') = create_object_post conf env bucket etag t in
        ((r ≡ none) → held nothing t' ≡ whole)
        × ((held nothing t').in_stats ≡ true)
        × ((held nothing t').in_bucket ≡ true)
  unfolding create_object_post held
  create_object_post-holds etag t h = ground arith

  pub create_object_pre-Made :
      (st : AcctStats)
      → let (r, t) = create_object_pre conf env bucket st [] in
        ((r ≡ none) → held nothing t ≡ accounted)
        × ((r ≡ none) ⊎ ((held nothing t ≡ nothing) ⊎ (alarmed t ≡ true)))
  unfolding create_object_pre held alarmed
  create_object_pre-Made st = ground arith

  -- UploadToObject, whatever ResumParts returns: if it reports no error, the object is active and
  -- counted in its namespace and in its bucket, with nothing pending; if it reports one, then nothing of
  -- the object is left, or a removal failed or a consistency check was asked for.
  pub upload_to_object-Made :
      (st : AcctStats) (parts : Error ⊎ String)
      → let (r, t) = upload_to_object conf env bucket st parts [] in Made r t
  unfolding upload_to_object held alarmed
  upload_to_object-Made st parts = ground arith

  drop_rest-keeps :
      (parts : List Part) (d : Option Error) (t : Trace Call)
      → held whole t ≡ record whole { active = false }
      → (d ≡ none → released t ≡ all_of parts)
      → let (r, t') = drop_rest conf env bucket d t in Dropped parts r t'
  unfolding drop_rest held released
  drop_rest-keeps parts d t h k = ground arith

  -- DropObject, of an active object with the parts found: if it reports no error, the object's document is gone and it is
  -- not counted any more, and part by part, in order, its data was asked to be removed (each chunk, whatever came of
  -- that) and its document is gone; if it reports one, the object's document is still there.
  pub drop_object-keeps :
      (parts : List Part) → let (r, t) = drop_object conf env bucket parts [] in Dropped parts r t
  unfolding drop_object held released
  drop_object-keeps parts = elim (Option-cases (env [] set_inactive_object)) [
    | inl q ↦
        let t : Trace Call = (set_inactive_object, true) ∷ [] in
        rw (q, drop_object)
          (drop_rest-keeps parts _ (delete_parts conf env parts t).1
            (Quiet-held (delete_parts-Quiet conf env parts t) whole)
            (delete_parts-releases conf env parts t))
    | inr (e, q) ↦ rw (q, drop_object) (inr (some_no e, refl))
  ]

-- ===== src/S3/Data/Reading.antt =====
-- src/s3/data.go: how the data of parts is read back, and how it is copied.
pub mod Back
pub mod Calls
pub mod Copy
pub mod Sums
use swifty.Base.{
  ℕ, ◌≡◌, ◌⊎◌, inl, inr, refl, Bool, true, false, not, ◌&&◌, Option, none, some, String, List, [],
  ◌∷◌, ◌++◌, ltb, if◌then◌else◌, ◌+◌,
}
use swifty.Effects.{Error, failure, Env, M, pure, call, ◌>>=◌, ◌>>◌}
use swifty.S3.Store.{
  Conf, Part, Call, insert_part, remove_part, set_active_part, set_chunks, insert_chunk,
}
use swifty.S3.Data.{Failed, delete_chunks, drop_chunks}

-- What a search gives.
pub data Found (A : Type 0) : Type 0 where
  found : A → Found A
  missed : Error → Found A

pub Found-cases :
    (r : Found (List ℕ)) → ((b : List ℕ) × (r ≡ found b)) ⊎ ((e : Error) × (r ≡ missed e))
Found-cases (found b) = inl (b, refl)
Found-cases (missed e) = inr (e, refl)

-- The database and Ceph as they stand when the data is read: the bytes of a chunk's document, and those
-- of a part's object in Ceph.
pub record Chunks : Type 0 where
  pub find : ℕ → Found (List ℕ)
  pub rados_read : Part → Found (List ℕ)

module _ (db : Chunks) where
  -- The loop of ReadChunks, with what is read so far.
  pub read_loop : List ℕ → List ℕ → Found (List ℕ)
  read_loop res [] = found res
  read_loop res (cid ∷ cids) = elim (db.find cid) [
    | missed e ↦ missed e
    | found b ↦ read_loop (res ++ b) cids
  ]

  pub read_data : Part → Option (List ℕ) → List ℕ → Found (List ℕ)
  unfolding read_loop
  read_data part (some d) cids = found d
  read_data part none [] = db.rados_read part
  read_data part none (c ∷ cs) = read_loop [] (c ∷ cs)

  -- ReadChunks.
  unfoldable pub read_chunks : Part → Found (List ℕ)
  unfolding read_data
  read_chunks part = read_data part part.inline part.chunks

  pub read_parts_loop : List ℕ → List Part → Found (List ℕ)
  read_parts_loop res [] = found res
  read_parts_loop res (od ∷ objp) = elim (read_chunks od) [
    | missed e ↦ missed e
    | found x ↦ read_parts_loop (res ++ x) objp
  ]

  -- ReadParts.
  unfoldable pub read_parts : List Part → Found (List ℕ)
  unfolding read_parts_loop
  read_parts objp = read_parts_loop [] objp

  -- IterChunks: `fn` is called with the bytes of one chunk after the other, and stops at an error.
  iter_loop : {C : Type 0} → (List ℕ → M C Failed) → List ℕ → M C Failed
  iter_loop fn [] = pure none
  iter_loop fn (cid ∷ cids) = elim (db.find cid) [
    | missed e ↦ pure (some e)
    | found b ↦ do r ← fn b; elim r [ some e ↦ pure (some e) | none ↦ iter_loop fn cids ]
  ]

  iter_data : {C : Type 0} → (List ℕ → M C Failed) → Option (List ℕ) → List ℕ → M C Failed
  unfolding iter_loop
  iter_data fn (some d) cids = fn d
  iter_data fn none [] = pure (some (failure "Rados cannot iter chunks yet"))
  iter_data fn none (c ∷ cs) = iter_loop fn (c ∷ cs)

  unfoldable pub iter_chunks : {C : Type 0} → Part → (List ℕ → M C Failed) → M C Failed
  unfolding iter_data
  iter_chunks part fn = iter_data fn part.inline part.chunks

-- The loop of CopyChunks ends at the end of the source's chunks, at `goto out`, or by its `return err`.
pub data Copied : Type 0 where
  all_copied jumped : Part → Copied
  returned : Part → Error → Copied

abbrev pub Outcome : Type 0
Outcome = Part × Failed

module _ (conf : Conf) (db : Chunks) (env : Env Call) where
  abbrev grown : Part → Part
  grown part = record part { chunks = part.chunks ++ conf.new_id part.chunks ∷ [] }

  unfoldable pub copy_loop : Part → List ℕ → M Call Copied
  copy_loop part [] = pure (all_copied part)
  copy_loop part (cid ∷ cids) = elim (db.find cid) [
    | missed e ↦ pure (returned part e)
    | found b ↦ do
      r ← call env (insert_chunk (conf.new_id part.chunks) b)
      elim r [ some e ↦ pure (jumped part) | none ↦ copy_loop (grown part) cids ]
  ]

  copy_out : Part → Failed → M Call Outcome
  copy_out part err = do e ← drop_chunks conf env part part.chunks err; pure (part, e)

  -- The end of CopyChunks, after its loop: the `err` that `goto out` finds is the function's, and not
  -- the loop's own.
  unfoldable pub copy_end : Copied → M Call Outcome
  unfolding copy_out
  copy_end (returned part e) = pure (part, some e)
  copy_end (jumped part) = copy_out part none
  copy_end (all_copied part) = do
    r ← call env (set_chunks part.chunks)
    elim r [ some e ↦ copy_out part (some e) | none ↦ pure (part, none) ]

  -- CopyChunks.
  unfoldable pub copy_chunks : Part → Part → M Call Outcome
  unfolding copy_loop copy_end
  copy_chunks part source =
      if not conf.rados_disabled && ltb conf.max_chunk_size part.size
      then pure (part, some (failure "Raos doesn't copy chunks"))
      else (do r ← copy_loop part source.chunks; copy_end r)

  -- The label `out` of CopyPart.
  abandon : Part → Error → M Call Outcome
  abandon part e = do _ ← call env (remove_part part); pure (part, some e)

  activate_copy : String → Outcome → M Call Outcome
  unfolding abandon
  activate_copy etag (part, some e) = abandon part e
  activate_copy etag (part, none) = do
    r ← call env (set_active_part part etag)
    elim r [
      | none ↦ pure (part, none)
      | some e ↦ do _ ← delete_chunks conf env part; abandon part e
    ]

  copy_bytes : String → Part → Part → Option (List ℕ) → M Call Outcome
  unfolding activate_copy
  copy_bytes etag part source (some d) = activate_copy etag (part, none)
  copy_bytes etag part source none = do r ← copy_chunks part source; activate_copy etag r

  -- CopyPart of a part with the checksum `etag`.
  unfoldable pub copy_part : String → Part → M Call Outcome
  unfolding copy_bytes
  copy_part etag source =
      let part : Part = record { size = source.size; inline = source.inline; chunks = [] } in
      do
        r ← call env (insert_part part)
        elim r [ some e ↦ abandon part e | none ↦ copy_bytes etag part source source.inline ]

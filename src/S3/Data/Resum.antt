-- ===== src/S3/Data/Resum.antt =====
-- src/s3/data.go: ResumParts, which sums an upload's parts up when it is completed.
use swifty.Base.{
  ℕ, ◌+◌, ◌⊎◌, inl, inr, Bool, Option, none, some, String, List, [], ◌∷◌, ◌++◌, if◌then◌else◌,
}
use swifty.Effects.{Error, failure}
use swifty.S3.Store.{Conf, Part}
use swifty.S3.Data.Reading.{Found, found, missed, Chunks}

-- A part's document in an upload, and whether it is active.
pub record UploadPart : Type 0 where
  pub part : Part
  pub active : Bool

module _ (conf : Conf) (db : Chunks) where
  -- The loop over the chunks of a part, with what is hashed so far.
  unfoldable pub hash_loop : List ℕ → List ℕ → Found (List ℕ)
  hash_loop hashed [] = found hashed
  hash_loop hashed (cid ∷ cids) = elim (db.find cid) [
    | missed e ↦ missed e
    | found b ↦ hash_loop (hashed ++ b) cids
  ]

  unfoldable pub hash_part : List ℕ → Option (List ℕ) → List ℕ → Found (List ℕ)
  unfolding hash_loop
  hash_part hashed (some d) cids = found (hashed ++ d)
  hash_part hashed none [] = missed (failure "Can't finish upload")
  hash_part hashed none (c ∷ cs) = hash_loop hashed (c ∷ cs)

  -- The loop over the parts, in the order of their numbers.
  unfoldable pub resum_loop : List ℕ → ℕ → List UploadPart → Error ⊎ (ℕ × List ℕ)
  unfolding hash_part
  resum_loop hashed size [] = inr (size, hashed)
  resum_loop hashed size (p ∷ ps) =
      let skipped = resum_loop hashed size ps in
      if p.active
      then (elim (hash_part hashed p.part.inline p.part.chunks) [
        | missed e ↦ inl e
        | found h ↦ resum_loop h (size + p.part.size) ps
      ])
      else skipped

  unfoldable pub closed : Option Error → Error ⊎ (ℕ × List ℕ) → Error ⊎ (ℕ × String)
  closed err (inl e) = inl e
  closed (some e) (inr r) = inl e
  closed none (inr (size, hashed)) = inr (size, conf.md5 hashed)

  -- ResumParts, with the error of the iterator's end.
  unfoldable pub resum_parts : Option Error → List UploadPart → Error ⊎ (ℕ × String)
  unfolding resum_loop closed
  resum_parts close ps = closed close (resum_loop [] 0 ps)

-- ===== src/S3/Data.antt =====
-- src/s3/data.go: the data of an object's part, inline, in chunks, or in Ceph: how it is written and how it
-- is deleted.
pub mod Chunks
pub mod Quiet
pub mod Reader
pub mod Reading
pub mod Removal
pub mod Undone
pub mod Adding
pub mod Resum
use swifty.Base.{
  ℕ, Bool, true, false, not, ◌&&◌, Option, none, some, String, List, [], ◌∷◌, ◌++◌, ltb, leb,
  if◌then◌else◌, is_none,
}
use swifty.Effects.{Error, failure, Env, M, pure, call, note, ◌>>=◌, ◌>>◌}
use swifty.S3.Store.{
  Conf, Part, Call, Next, fail, more, insert_part, remove_part, remove_inactive_part,
  set_inactive_part, set_active_part, set_chunks, insert_chunk, find_chunk, remove_chunk,
  find_parts, end_of_parts, rados_write, rados_delete,
}

abbrev pub Failed : Type 0
Failed = Option Error

abbrev pub Written : Type 0
Written = Part × String × Failed

module _ (conf : Conf) (env : Env Call) where
  -- The loop of DeleteChunks: the result of a removal is `er`, and `err` is what it is tested by.
  pub delete_loop : Failed → List ℕ → M Call Failed
  delete_loop err [] = pure err
  delete_loop err (ch ∷ chs) = do
    er ← call env (remove_chunk ch)
    delete_loop (if is_none err then err else er) chs

  delete_data : Option (List ℕ) → List ℕ → M Call Failed
  unfolding delete_loop
  delete_data (some d) chs = pure none
  delete_data none [] = call env rados_delete
  delete_data none (c ∷ cs) = delete_loop none (c ∷ cs)

  -- DeleteChunks.
  pub delete_chunks : Part → M Call Failed
  unfolding delete_data
  delete_chunks part = delete_data part.inline part.chunks

  abbrev with_chunk : Part → ℕ → Part
  with_chunk part id = record part { chunks = part.chunks ++ id ∷ [] }

  -- The loop of WriteChunks: the part with the chunks it got, the bytes hashed, and whether the loop
  -- ended at the data's end (and not at `goto out`, whose error stays in the loop's own `err`).
  unfoldable pub write_loop : Part → List ℕ → List Next → M Call (Part × List ℕ × Bool)
  write_loop part hashed [] = pure (part, hashed, true)
  write_loop part hashed (fail e ∷ s) = pure (part, hashed, false)
  write_loop part hashed (more b ∷ s) = do
    r ← call env (insert_chunk (conf.new_id part.chunks) b)
    elim r [
      | some _ ↦ pure (part, hashed ++ b, false)
      | none ↦ write_loop (with_chunk part (conf.new_id part.chunks)) (hashed ++ b) s
    ]

  -- The label `out` of WriteChunks and of CopyChunks, with the error of the function.
  pub drop_chunks : Part → List ℕ → Failed → M Call Failed
  unfolding delete_chunks
  drop_chunks part [] err = pure err
  drop_chunks part (c ∷ cs) err = do _ ← delete_chunks part; pure err

  out : Part → Failed → M Call Written
  unfolding drop_chunks
  out part err = do e ← drop_chunks part part.chunks err; pure (part, "", e)

  -- The end of WriteChunks, after its loop.
  save_chunks : Part × List ℕ × Bool → M Call Written
  unfolding out
  save_chunks (part, hashed, false) = out part none
  save_chunks (part, hashed, true) = do
    r ← call env (set_chunks part.chunks)
    elim r [ some e ↦ out part (some e) | none ↦ pure (part, conf.md5 hashed, none) ]

  -- WriteChunks.
  unfoldable pub write_chunks : Part → List Next → M Call Written
  unfolding save_chunks
  write_chunks part s =
      if not conf.rados_disabled && ltb conf.max_chunk_size part.size
      then (do r ← call env rados_write; pure (part, conf.rados_sum, r))
      else (do r ← write_loop part [] s; save_chunks r)

  -- The label `out` of AddPart.
  pub add_out : Part → Error → M Call Written
  add_out part e = do _ ← call env (remove_part part); pure (part, "", some e)

  -- From the activation of the part on.
  activate_part : Part × String × Failed → M Call Written
  unfolding add_out delete_chunks
  activate_part (part, csum, some e) = add_out part e
  activate_part (part, csum, none) = do
    r ← call env (set_active_part part csum)
    elim r [ none ↦ pure (part, csum, none) | some e ↦ do _ ← delete_chunks part; add_out part e ]

  -- AddPart, once the part's document is there.
  fill : Part → Option (List ℕ) → String → List Next → M Call Written
  unfolding activate_part write_chunks
  fill part (some b) csum s = activate_part (part, csum, none)
  fill part none csum s = do w ← write_chunks part s; activate_part w

  -- From the insertion of the part's document on.
  insert_then : Part → String → List Next → M Call Written
  unfolding fill add_out
  insert_then part csum s = do
    r ← call env (insert_part part)
    elim r [ some e ↦ add_out part e | none ↦ fill part part.inline csum s ]

  -- The part that AddPart starts with.
  abbrev new_part : ℕ → Part
  new_part size = record { size = size; inline = none; chunks = [] }

  -- What is read of the data of a part that holds its data itself.
  add_inline : ℕ → List Next → M Call Written
  unfolding insert_then
  add_inline size [] = insert_then (new_part size) (conf.md5 []) []
  add_inline size (fail e ∷ s) = add_out (new_part size) e
  add_inline size (more b ∷ s) =
      insert_then (record (new_part size) { inline = some b }) (conf.md5 b) s

  -- AddPart, of data of the given size; the stream is what Next returns when it is called for at most
  -- the size of a part that holds its data itself, and else for at most the size of a chunk.
  pub add_part : ℕ → List Next → M Call Written
  unfolding add_inline insert_then
  add_part size s =
      if leb size conf.inline_data_size then add_inline size s else insert_then (new_part size) "" s

  remove_row : Part → Failed → M Call Failed
  remove_row part (some e) = pure (some e)
  remove_row part none = call env (remove_inactive_part part)

  -- DeletePart.
  pub delete_part : Part → M Call Failed
  unfolding delete_chunks remove_row
  delete_part part = do
    r ← call env (set_inactive_part part)
    elim r [ some e ↦ pure (some e) | none ↦ do d ← delete_chunks part; remove_row part d ]

  pub delete_each : List Part → M Call Failed
  unfolding delete_part
  delete_each [] = pure none
  delete_each (p ∷ ps) = do
    r ← delete_part p
    elim r [ some e ↦ pure (some e) | none ↦ delete_each ps ]

  -- DeleteParts, of the parts that PartsFind finds.
  pub delete_parts : List Part → M Call Failed
  unfolding delete_each
  delete_parts parts = do
    r ← call env find_parts
    elim r [ some e ↦ pure (some e) | none ↦ delete_each parts ]

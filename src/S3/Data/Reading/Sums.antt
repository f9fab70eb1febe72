-- ===== src/S3/Data/Reading/Sums.antt =====
-- What ResumParts sums up is what ReadParts reads (src/s3/data.go).
use mathlib.Core.List.{append_assoc, append-nil}
use swifty.Base.{
  ℕ, ◌+◌, ◌≡◌, ◌≢◌, refl, sym, ap, ◌∙◌, ◌⊎◌, inl, inr, true, false, Option, none, some, String,
  List, [], ◌∷◌, ◌++◌, if◌then◌else◌, Bool-cases, arith,
}
use swifty.Effects.{Error}
use swifty.S3.Store.{Conf, Part}
use swifty.S3.Data.Reading.{
  Found-cases, found, missed, Chunks, read_loop, read_data, read_chunks, read_parts_loop,
  read_parts,
}
use swifty.S3.Data.Resum.{UploadPart, hash_loop, hash_part, resum_loop, closed, resum_parts}

-- The active parts, and their sizes put together.
pub actives : List UploadPart → List Part
actives [] = []
actives (p ∷ ps) = let rest = actives ps in if p.active then p.part ∷ rest else rest

pub total : List Part → ℕ
total [] = 0
total (p ∷ ps) = p.size + total ps

found-inj : {x y : List ℕ} → found x ≡ found y → x ≡ y
found-inj h = cc

missed-no : (e : Error) (x : List ℕ) → missed e ≢ found x
missed-no e x h = ground arith

module _ (conf : Conf) (db : Chunks) where
  hash_loop-found :
      (h : List ℕ) (c : ℕ) (cs b : List ℕ)
      → db.find c ≡ found b
      → hash_loop conf db h (c ∷ cs) ≡ hash_loop conf db (h ++ b) cs
  unfolding hash_loop
  hash_loop-found h c cs b q = rw (q, hash_loop)

  hash_loop-missed :
      (h : List ℕ) (c : ℕ) (cs : List ℕ) (e : Error)
      → db.find c ≡ missed e
      → hash_loop conf db h (c ∷ cs) ≡ missed e
  unfolding hash_loop
  hash_loop-missed h c cs e q = rw (q, hash_loop)

  -- What is hashed of chunks is what is read of them.
  hash_loop-reads :
      (h r : List ℕ) (cs : List ℕ) {out : List ℕ}
      → hash_loop conf db h cs ≡ found out
      → (x : List ℕ) × (out ≡ h ++ x) × (read_loop db r cs ≡ found (r ++ x))
  unfolding hash_loop read_loop
  hash_loop-reads h r [] e =
      ([], sym (found-inj e) ∙ sym (append-nil h), ap found (sym (append-nil r)))
  hash_loop-reads h r (c ∷ cs) {out} e = elim (Found-cases (db.find c)) [
    | inr (er, q) ↦ absurd (missed-no er out (sym (hash_loop-missed h c cs er q) ∙ e))
    | inl (b, q) ↦
        let (x, o, g) =
          hash_loop-reads (h ++ b) (r ++ b) cs (sym (hash_loop-found h c cs b q) ∙ e) in
        (b ++ x, o ∙ append_assoc h b x, rw (q, read_loop) (g ∙ ap found (append_assoc r b x)))
  ]

  hash_part-reads :
      (h : List ℕ) (p : Part) (own : Option (List ℕ)) (cs : List ℕ) {out : List ℕ}
      → hash_part conf db h own cs ≡ found out
      → (x : List ℕ) × (out ≡ h ++ x) × (read_data db p own cs ≡ found x)
  unfolding hash_part read_data
  hash_part-reads h p (some d) cs e = (d, sym (found-inj e), refl)
  hash_part-reads h p none [] {out} e = absurd (missed-no _ out e)
  hash_part-reads h p none (c ∷ cs) e = hash_loop-reads h [] (c ∷ cs) e

  pair_inj :
      (a : ℕ) (b : List ℕ) (c : ℕ) (d : List ℕ)
      → ◌≡◌ {A = Error ⊎ (ℕ × List ℕ)} (inr (a, b)) (inr (c, d))
      → (a ≡ c) × (b ≡ d)
  pair_inj a b c d h = ground arith

  -- The sum that a loop over the parts returns.
  record Summed (h : List ℕ) (size : ℕ) (r : List ℕ) (ps : List UploadPart) (s : ℕ) (out : List ℕ)
      : Type 0 where
    bytes : List ℕ
    hashed : out ≡ h ++ bytes
    sized : s ≡ size + total (actives ps)
    reads : read_parts_loop db r (actives ps) ≡ found (r ++ bytes)

  resum_loop-skips :
      (h : List ℕ) (size : ℕ) (p : UploadPart) (ps : List UploadPart)
      → p.active ≡ false
      → resum_loop conf db h size (p ∷ ps) ≡ resum_loop conf db h size ps
  unfolding resum_loop
  resum_loop-skips h size p ps q = rw q refl

  resum_loop-takes :
      (h : List ℕ) (size : ℕ) (p : UploadPart) (ps : List UploadPart) (out : List ℕ)
      → p.active ≡ true
      → hash_part conf db h p.part.inline p.part.chunks ≡ found out
      → resum_loop conf db h size (p ∷ ps) ≡ resum_loop conf db out (size + p.part.size) ps
  unfolding resum_loop
  resum_loop-takes h size p ps out q e = rw (q, e) refl

  resum_loop-fails :
      (h : List ℕ) (size : ℕ) (p : UploadPart) (ps : List UploadPart) (er : Error) (r : ℕ × List ℕ)
      → p.active ≡ true
      → hash_part conf db h p.part.inline p.part.chunks ≡ missed er
      → resum_loop conf db h size (p ∷ ps) ≢ inr r
  unfolding resum_loop
  resum_loop-fails h size p ps er r q e k = ground arith

  read_parts_loop-found :
      (r : List ℕ) (p : Part) (ps : List Part) (x : List ℕ)
      → read_chunks db p ≡ found x
      → read_parts_loop db r (p ∷ ps) ≡ read_parts_loop db (r ++ x) ps
  unfolding read_parts_loop
  read_parts_loop-found r p ps x g = rw (g, read_parts_loop)

  read_chunks-data :
      (p : Part) (x : List ℕ)
      → read_data db p p.inline p.chunks ≡ found x
      → read_chunks db p ≡ found x
  unfolding read_chunks
  read_chunks-data p x g = g

  -- A part in front of a sum.
  Summed-takes :
      (h : List ℕ) (size : ℕ) (r : List ℕ) (p : UploadPart) (ps : List UploadPart) (s : ℕ)
      (x out : List ℕ)
      → p.active ≡ true
      → read_chunks db p.part ≡ found x
      → Summed (h ++ x) (size + p.part.size) (r ++ x) ps s out
      → Summed h size r (p ∷ ps) s out
  unfolding actives total read_parts_loop
  Summed-takes h size r p ps s x out q g d = record {
    bytes = x ++ d.bytes;
    hashed = d.hashed ∙ append_assoc h x d.bytes;
    sized = d.sized ∙ rw q (omega arith);
    reads = rw q (
        read_parts_loop-found r p.part (actives ps) x g
        ∙ d.reads
        ∙ ap found (append_assoc r x d.bytes));
  }

  Summed-skips :
      (h : List ℕ) (size : ℕ) (r : List ℕ) (p : UploadPart) (ps : List UploadPart) (s : ℕ)
      (out : List ℕ)
      → p.active ≡ false
      → Summed h size r ps s out
      → Summed h size r (p ∷ ps) s out
  unfolding actives
  Summed-skips h size r p ps s out q d = record {
    bytes = d.bytes;
    hashed = d.hashed;
    sized = d.sized ∙ rw q refl;
    reads = rw q d.reads;
  }

  resum_loop-Summed :
      (h : List ℕ) (size : ℕ) (r : List ℕ) (ps : List UploadPart) (s : ℕ) (out : List ℕ)
      → resum_loop conf db h size ps ≡ inr (s, out)
      → Summed h size r ps s out
  unfolding resum_loop actives total read_parts_loop
  resum_loop-Summed h size r [] s out e = record {
    bytes = [];
    hashed = sym (pair_inj size h s out e).1 ∙ sym (append-nil h);
    sized = sym (pair_inj size h s out e).0 ∙ omega arith;
    reads = ap found (sym (append-nil r));
  }
  resum_loop-Summed h size r (p ∷ ps) s out e = elim (Bool-cases p.active) [
    | inr q ↦
        Summed-skips h size r p ps s out q
          (resum_loop-Summed h size r ps s out (sym (resum_loop-skips h size p ps q) ∙ e))
    | inl q ↦ elim (Found-cases (hash_part conf db h p.part.inline p.part.chunks)) [
      | inr (er, k) ↦ absurd (resum_loop-fails h size p ps er (s, out) q k e)
      | inl (h', k) ↦
          let (x, o, g) = hash_part-reads h p.part p.part.inline p.part.chunks k in
          Summed-takes h size r p ps s x out q (read_chunks-data p.part x g) (
            resum_loop-Summed (h ++ x) (size + p.part.size) (r ++ x) ps s out (
              ap (λ l. resum_loop conf db l (size + p.part.size) ps) (sym o)
              ∙ sym (resum_loop-takes h size p ps h' q k)
              ∙ e))
    ]
  ]

  closed-ok :
      (close : Option Error) (r : Error ⊎ (ℕ × List ℕ)) (size : ℕ) (csum : String)
      → closed conf db close r ≡ inr (size, csum)
      → (out : List ℕ) × (r ≡ inr (size, out)) × (csum ≡ conf.md5 out)
  unfolding closed
  closed-ok close (inl e) size csum h = absurd (ground arith)
  closed-ok (some e) (inr r) size csum h = absurd (ground arith)
  closed-ok none (inr (s, out)) size csum h = (out, ground arith, ground arith)

  -- When ResumParts gives a size and a checksum, then ReadParts of the upload's active parts, in the same
  -- order, gives bytes with that checksum, and the size is the sum of the sizes of these parts.
  pub resum_parts-read_parts :
      (close : Option Error) (ps : List UploadPart) (size : ℕ) (csum : String)
      → resum_parts conf db close ps ≡ inr (size, csum)
      → (bytes : List ℕ) × (read_parts db (actives ps) ≡ found bytes)
        × (csum ≡ conf.md5 bytes)
        × (size ≡ total (actives ps))
  unfolding resum_parts read_parts
  resum_parts-read_parts close ps size csum h =
      let (out, e, c) = closed-ok close (resum_loop conf db [] 0 ps) size csum h in
      let s = resum_loop-Summed [] 0 [] ps size out e in
      (s.bytes, s.reads, c ∙ ap conf.md5 s.hashed, s.sized ∙ omega arith)

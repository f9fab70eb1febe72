-- ===== src/S3/Collection.antt =====
-- A MongoDB collection as the S3 service uses it on one document: Find(query).Apply(change), which
-- finds and changes, or removes, the document in one step. (The driver and the database are not the
-- repository's.)
use swifty.Base.{Bool, true, false, Option, none, some, ◌≡◌}

pub record Collection (D : Type 0) : Type 0 where
  -- Apply with an update, and with Remove, and whether they found the document.
  pub update : (D → Bool) → (D → D) → Option D → Option D × Bool
  pub remove : (D → Bool) → Option D → Option D × Bool
  pub update_found :
      (q : D → Bool) (f : D → D) (d : D) → q d ≡ true → update q f (some d) ≡ (some (f d), true)
  pub update_missed :
      (q : D → Bool) (f : D → D) (d : D) → q d ≡ false → update q f (some d) ≡ (some d, false)
  pub update_absent : (q : D → Bool) (f : D → D) → update q f none ≡ (none, false)
  pub remove_found : (q : D → Bool) (d : D) → q d ≡ true → remove q (some d) ≡ (none, true)
  pub remove_missed : (q : D → Bool) (d : D) → q d ≡ false → remove q (some d) ≡ (some d, false)
  pub remove_absent : (q : D → Bool) → remove q none ≡ (none, false)

-- ===== src/Tests/Storage.antt =====
-- The S3 service (src/s3): the data of parts, keys and buckets.
use swifty.Base.{
  ℕ, zero, suc, ◌+◌, ◌≡◌, ◌≢◌, ◌≤◌, ◌<◌, inr, refl, ap, sym, Bool, true, false, Option, none, some,
  String, List, [], ◌∷◌, ◌++◌, arith, ◌==◌, length, if◌then◌else◌, take, drop, length-take,
  take-append-drop,
}
use swifty.Effects.{Error, not_found, failure, Env, Trace}
use swifty.S3.Store.{Conf, Part, Call, Next, more}
use text.Mathlib.TextEquality.{eq_iff}
use swifty.S3.Data.{write_chunks, write_loop}
use swifty.S3.Data.Chunks.{payload}
use swifty.S3.Data.Reader.{Stop, eof, broken, Source, ChunkReader, stream}
use swifty.S3.Data.Reader.Stream.{whole, stream-Exact}
use swifty.S3.Data.Resum.{UploadPart, resum_parts}
use swifty.S3.Data.Reading.Sums.{actives, total, resum_parts-read_parts}
use swifty.S3.Data.Reading.{
  read_parts, Found, found, missed, Chunks, read_chunks, copy_chunks, copy_part,
}
use swifty.S3.Data.Reading.Back.{has, Fresh, document, Answers, write_chunks-read_chunks}
use swifty.S3.Data.Reading.Copy.{copy_part-reads}
use swifty.S3.Policy.{root_policy}
use swifty.S3.Keys.{AccessKey, KeyCall, KeyDb, insert_iam, gen_new_access_key}
use swifty.S3.Keys.Grants.{Generated, gen_new_access_key-Generated}
use swifty.S3.Collection.{Collection}
use swifty.S3.Upload.{active}
use swifty.S3.Bucket.{Bucket, Place, Request, create_pool, s3_delete_bucket}
use swifty.S3.Bucket.Life.{Deleted, s3_delete_bucket-Deleted}

-- A reader of bytes that are at hand.
abbrev pull : List ℕ → ℕ → (List ℕ × Option Stop) × List ℕ
pull [] n = (([], some eof), [])
pull (x ∷ xs) n = ((take n (x ∷ xs), none), drop n (x ∷ xs))

pull-fits : (s : List ℕ) (n : ℕ) → length (pull s n).0.0 ≤ n
pull-fits [] n = omega arith
pull-fits (x ∷ xs) n = omega (arith, length-take n (x ∷ xs))

pull-follows : (s : List ℕ) (n : ℕ) → s ≡ (pull s n).0.0 ++ (pull s n).1
pull-follows [] n = refl
pull-follows (x ∷ xs) n = sym (take-append-drop n (x ∷ xs))

pull-ends :
    (s : List ℕ) (n : ℕ)
    → (pull s n).0.0 ≡ []
    → 0 < n
    → ((e : Error) → (pull s n).0.1 ≢ some (broken e))
    → s ≡ []
pull-ends [] n h k e = refl
pull-ends (x ∷ xs) zero h k e = absurd (omega arith)
pull-ends (x ∷ xs) (suc n) h k e = ground arith

abbrev bytes_at_hand : Source (List ℕ)
bytes_at_hand = record {
  pull = pull;
  rest = λ s. s;
  fits = pull-fits;
  follows = pull-follows;
  ends = pull-ends;
}

abbrev five : ChunkReader (List ℕ)
five = record { size = 5; read = 0; r = 1 ∷ 2 ∷ 3 ∷ 4 ∷ 5 ∷ 6 ∷ [] }

stream-Exact_example :
    (s : List Next) × (stream bytes_at_hand 6 five 2 ≡ some s)
    × (whole s ≡ true → 5 ≤ 6 → payload s ≡ 1 ∷ 2 ∷ 3 ∷ 4 ∷ 5 ∷ [])
stream-Exact_example = stream-Exact bytes_at_hand 6 five 2 (omega arith) (omega arith)

-- Ids that are given in order are new.
abbrev next_id : List ℕ → ℕ
next_id [] = 0
next_id (c ∷ cs) = c + 1 + next_id cs

has-above : (cs : List ℕ) (id : ℕ) → next_id cs ≤ id → has id cs ≡ false
unfolding has
has-above [] id h = refl
has-above (c ∷ cs) id h = ground (arith, has-above cs id)

abbrev conf : Conf
conf = record {
  rados_disabled = true;
  inline_data_size = 2;
  max_chunk_size = 4;
  new_id = next_id;
  md5 = λ b. "sum";
  rados_sum = "";
}

conf-Fresh : Fresh conf
conf-Fresh cs = has-above cs (next_id cs) (omega arith)

abbrev answering : {C : Type 0} → Env C
answering t c = none

abbrev empty_part : Part
empty_part = record { size = 3; inline = none; chunks = [] }

abbrev body : List Next
body = more (1 ∷ 2 ∷ []) ∷ more (3 ∷ []) ∷ []

abbrev found_or : Option (List ℕ) → Found (List ℕ)
found_or none = missed not_found
found_or (some b) = found b

-- A database in which the chunks are that a run stored.
abbrev holding : Trace Call → Chunks
holding t = record { find = λ id. found_or (document t id); rados_read = λ p. missed not_found }

holding-Answers : (t : Trace Call) → Answers (holding t) t
holding-Answers t id b h = ap found_or h

abbrev written : (Part × String × Option Error) × Trace Call
written = write_chunks conf answering empty_part body []

sum-no-empty : written.0.1 ≢ ""
unfolding write_chunks write_loop
sum-no-empty h = ground (arith, eq_iff "sum" "")

body-some : payload body ≢ []
unfolding payload
body-some h = ground arith

no_error : written.0.2 ≡ none
unfolding write_chunks write_loop
no_error = refl

write_chunks-read_chunks_example :
    read_chunks (holding written.1) written.0.0 ≡ found (payload body)
write_chunks-read_chunks_example =
    write_chunks-read_chunks conf answering conf-Fresh (holding written.1) empty_part body refl refl
      refl body-some sum-no-empty no_error (holding-Answers written.1)

-- A part in two chunks, in a database that has their bytes.
abbrev chunked : Part
chunked = record { size = 3; inline = none; chunks = 7 ∷ 8 ∷ [] }

abbrev two_chunks : Chunks
two_chunks = record {
  find = λ id. if id == 7 then found (1 ∷ 2 ∷ []) else found (3 ∷ []);
  rados_read = λ p. missed not_found;
}

abbrev copied : (Part × Option Error) × Trace Call
copied = copy_part conf two_chunks answering "sum" chunked []

chunked-reads : read_chunks two_chunks chunked ≡ found (1 ∷ 2 ∷ 3 ∷ [])
unfolding read_chunks
chunked-reads = refl

copied-no_error : copied.0.1 ≡ none
unfolding copy_part copy_chunks
copied-no_error = refl

copy_part-reads_example : read_chunks (holding copied.1) copied.0.0 ≡ found (1 ∷ 2 ∷ 3 ∷ [])
copy_part-reads_example =
    copy_part-reads conf two_chunks (holding copied.1) answering conf-Fresh (λ t id b. refl) "sum"
      chunked (1 ∷ 2 ∷ 3 ∷ []) refl refl (λ h. ground arith) (λ h. ground arith) chunked-reads
      copied-no_error (holding-Answers copied.1)

-- An upload of a part in chunks, one that is not active, and one that holds its data itself.
abbrev uploaded : List UploadPart
uploaded =
    record { part = chunked; active = true }
    ∷ record { part = record { size = 9; inline = none; chunks = [] }; active = false }
    ∷ record { part = record { size = 1; inline = some (4 ∷ []); chunks = [] }; active = true }
    ∷ []

uploaded-sums : resum_parts conf two_chunks none uploaded ≡ inr (4, "sum")
unfolding resum_parts
uploaded-sums = refl

resum_parts-read_parts_example :
    (bytes : List ℕ) × (read_parts two_chunks (actives uploaded) ≡ found bytes)
    × ("sum" ≡ conf.md5 bytes)
    × (4 ≡ total (actives uploaded))
resum_parts-read_parts_example =
    resum_parts-read_parts conf two_chunks none uploaded 4 "sum" uploaded-sums

abbrev old_key : AccessKey
old_key = record {
  account = 1;
  iam = 4;
  created = 0;
  expires = 0x7fffffffffffffff;
  key_id = "OLD";
  secret = "s";
}

abbrev key_db : KeyDb
key_db = record {
  account_of = λ n. 1;
  endless_keys = λ a. old_key ∷ [];
  policy_of = λ i. root_policy;
  key_of = λ i. old_key;
  new_iam = 5;
  new_id = "NEW";
  new_secret = "t";
  encrypt = inr;
  now = 100;
}

abbrev no_iam : Env KeyCall
no_iam t (insert_iam i p) = some (failure "timeout")
no_iam t c = none

-- The identity of a key for an hour cannot be stored.
gen_new_access_key-Generated_example :
    let (r, t) = gen_new_access_key key_db no_iam "team" "images" 3600 [] in
    Generated key_db no_iam "team" "images" 3600 r t
gen_new_access_key-Generated_example =
    gen_new_access_key-Generated key_db no_iam "team" "images" 3600

abbrev bucket_update : (Bucket → Bool) → (Bucket → Bucket) → Option Bucket → Option Bucket × Bool
bucket_update q f none = (none, false)
bucket_update q f (some d) = if q d then (some (f d), true) else (some d, false)

abbrev bucket_remove : (Bucket → Bool) → Option Bucket → Option Bucket × Bool
bucket_remove q none = (none, false)
bucket_remove q (some d) = if q d then (none, true) else (some d, false)

abbrev one_bucket : Collection Bucket
one_bucket = record {
  update = bucket_update;
  remove = bucket_remove;
  update_found = λ q f d h. rw h refl;
  update_missed = λ q f d h. rw h refl;
  update_absent = λ q f. refl;
  remove_found = λ q d h. rw h refl;
  remove_missed = λ q d h. rw h refl;
  remove_absent = λ q. refl;
}

abbrev no_pool : Request → Option Error
no_pool create_pool = some (failure "no Ceph")
no_pool _ = none

abbrev full_bucket : Bucket
full_bucket = record { id = 7; state = active; cnt_objects = 2; cnt_bytes = 10; ref = 0 }

abbrev full_place : Place
full_place = record { row = some full_bucket; pool = true }

s3_delete_bucket-Deleted_example :
    Deleted
      (some full_bucket)
      full_place
      (s3_delete_bucket one_bucket no_pool (some full_bucket) full_place)
s3_delete_bucket-Deleted_example =
    s3_delete_bucket-Deleted one_bucket no_pool (some full_bucket) full_place

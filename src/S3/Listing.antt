-- ===== src/S3/Listing.antt =====
-- src/s3/bucket.go: s3ListBucket, the objects of a bucket by pages. Texts are lists of bytes. The bucket's search
-- and the database's answers are arguments: `objects` gives, for a prefix, what the pipeline yields, which
-- is sorted by key, and the newest version of a key first.
pub mod Scan
pub mod Pages
pub mod All
use swifty.Base.{
  ℕ, suc, ◌+◌, Bool, true, false, not, ◌&&◌, ◌||◌, Option, none, some, List, [], ◌∷◌, ◌++◌, map,
  ltb, leb, length, take, drop, if◌then◌else◌, ◌==◌,
}
use swifty.Base.Ints.{ℤ, pos, negsuc}
use swifty.Base.Bytes.{Bytes, same, le_bytes, index}
use swifty.Effects.{Error, not_found}

-- s3mgo.Object, as far as it is listed, and the identity that asks.
pub record Object : Type 0 where
  pub key : Bytes
  pub size : ℕ
  pub creation_time : Bytes
  pub etag : Bytes

pub record Iam : Type 0 where
  pub user : Bytes
  pub aws_id : Bytes

-- S3ListObjectsRP.
pub record Params : Type 0 where
  pub delimiter : Bytes
  pub max_keys : ℤ
  pub prefix : Bytes
  pub cont_token : Bytes
  pub fetch_owner : Bool
  pub start_after : Bytes
  pub marker : Bytes
  pub cont_token_decoded : Bytes
  pub v2 : Bool

-- The parameters that handleListObjects makes of a request without list-type.
unfoldable pub request : Bytes → Bytes → ℤ → Bytes → Params
request prefix delimiter max_keys marker = record {
  delimiter = delimiter;
  max_keys = max_keys;
  prefix = prefix;
  cont_token = [];
  fetch_owner = false;
  start_after = [];
  marker = marker;
  cont_token_decoded = [];
  v2 = false;
}

-- swys3api.S3Object and S3Bucket, less the names that are constants.
pub record Entry : Type 0 where
  pub key : Bytes
  pub size : ℕ
  pub last_modified : Bytes
  pub etag : Bytes
  pub owner : Option Iam

pub record Listing : Type 0 where
  pub contents : List Entry
  pub key_count : ℕ
  pub max_keys : ℕ
  pub is_truncated : Bool
  pub continuation_token : Bytes
  pub next_continuation_token : Bytes
  pub marker : Bytes
  pub next_marker : Bytes
  pub common_prefixes : List Bytes

pub data Outcome : Type 0 where
  listed : Listing → Outcome
  invalid_argument no_such_bucket internal_error panicked : Outcome

-- A text that is set.
abbrev pub given : Bytes → Bool
given [] = false
given (b ∷ bs) = true

-- S3StorageMaxObjects.
abbrev pub max_objects : ℕ
max_objects = 10000

-- MatchString of S3ObjectName_Letter, base64, whose decoding may give nil, and the sysctl
-- S3StorageDefaultListObjects.
pub record Codec : Type 0 where
  pub default_list_objects : ℕ
  pub matches : Bytes → Bool
  pub base64_encode : Bytes → Bytes
  pub base64_decode : Bytes → Option Bytes

module _ (codec : Codec) where
  decode_token : Params → Option Params
  decode_token p =
      if not (given p.cont_token) then some p else elim (codec.base64_decode p.cont_token) [
        | none ↦ none
        | some token ↦
            if codec.matches token then some (record p { cont_token_decoded = token }) else none
      ]

  -- From the marker on.
  use_marker : Params → Params
  use_marker p = if given p.marker then record p { cont_token_decoded = p.marker } else p

  check_max_keys : Params → Option Params
  check_max_keys p = elim p.max_keys [
    | negsuc n ↦ some (record p { max_keys = pos codec.default_list_objects })
    | pos n ↦
        if n == 0
        then some (record p { max_keys = pos codec.default_list_objects })
        else if ltb max_objects n
        then none
        else some p
  ]

  unless_long : Params → Option Params
  unfolding check_max_keys
  unless_long p = if ltb 1 (length p.delimiter) then none else check_max_keys p

  bad_text : Bytes → Bool
  bad_text t = given t && not (codec.matches t)

  -- Validate, which also fills in what is left out.
  unfoldable pub validate : Params → Option Params
  unfolding decode_token use_marker unless_long bad_text
  validate p =
      if bad_text p.delimiter || bad_text p.prefix || bad_text p.start_after
      then none
      else elim (decode_token p) [ none ↦ none | some p' ↦ unless_long (use_marker p') ]

-- The variables of the loop of s3ListBucket, less `pkey`; a map of prefixes is a list of them.
pub record Walk : Type 0 where
  pub starting : Bool
  pub continuing : Bool
  pub prefixes : List Bytes
  pub contents : List Entry
  pub truncated : Option Bytes

pub data Step : Type 0 where
  go stop : Walk → Step
  slice_panic : Step

abbrev pub has : List Bytes → Bytes → Bool
has [] t = false
has (k ∷ ks) t = same k t || has ks t

module _ (p : Params) (iam : Iam) where
  pub entry : Object → Entry
  entry o = record {
    key = o.key;
    size = o.size;
    last_modified = o.creation_time;
    etag = o.etag;
    owner = if p.fetch_owner then some iam else none;
  }

  -- `o` joins the contents, and ends the page when it is full.
  pub add_content : ℕ → Walk → Object → Step
  unfolding entry
  add_content max w o =
      let w' : Walk = record w { contents = w.contents ++ entry o ∷ [] } in
      if leb max (length w'.contents) then stop (record w' { truncated = some o.key }) else go w'

  pub add_prefix : Walk → Bytes → Walk
  add_prefix w t = if has w.prefixes t then w else record w { prefixes = w.prefixes ++ t ∷ [] }

  -- The common prefix of a key: strings.Index of the delimiter in what follows the prefix.
  pub grouped : ℕ → Walk → Object → Step
  unfolding add_content add_prefix
  grouped max w o =
      let len_pfx = length p.prefix in
      let len_dlm = length p.delimiter in
      if ltb (length o.key) len_pfx
      then slice_panic
      else elim (index (drop len_pfx o.key) p.delimiter) [
        | none ↦ add_content max w o
        | some at ↦
            if leb (at + len_pfx + len_dlm) (length o.key)
            then (if at == 0 then go w else go (add_prefix w (take (len_pfx + at + len_dlm) o.key)))
            else add_content max w o
      ]

  -- The body of the loop, for a key that is not the last one's.
  pub visit : ℕ → Walk → Object → Step
  unfolding grouped add_content
  visit max w o =
      if w.starting
      then go (if same o.key p.start_after then record w { starting = false } else w)
      else if w.continuing
      then go (if same o.key p.cont_token_decoded then record w { continuing = false } else w)
      else if given p.delimiter
      then grouped max w o
      else add_content max w o

  pub walk : ℕ → Bytes → List Object → Walk → Option Walk
  unfolding visit
  walk max pkey [] w = some w
  walk max pkey (o ∷ os) w = elim (same o.key pkey) [
    | true ↦ walk max pkey os w
    | false ↦ elim (visit max w o) [
      | go w' ↦ walk max o.key os w'
      | stop w' ↦ some w'
      | slice_panic ↦ none
    ]
  ]

-- sort.Strings, of texts that are all different.
pub insert : Bytes → List Bytes → List Bytes
insert t [] = t ∷ []
insert t (k ∷ ks) = if le_bytes t k then t ∷ k ∷ ks else k ∷ insert t ks

unfoldable pub sort_strings : List Bytes → List Bytes
unfolding insert
sort_strings [] = []
sort_strings (t ∷ ts) = insert t (sort_strings ts)

abbrev pub or_empty : Option Bytes → Bytes
or_empty none = []
or_empty (some t) = t

abbrev pub is_some : Option Bytes → Bool
is_some none = false
is_some (some t) = true

abbrev pub natural : ℤ → ℕ
natural (pos n) = n
natural (negsuc n) = 0

pub first_walk : Params → Walk
first_walk p = record {
  starting = given p.start_after && not (given p.cont_token_decoded);
  continuing = given p.cont_token_decoded;
  prefixes = [];
  contents = [];
  truncated = none;
}

module _ (codec : Codec) (iam : Iam) (objects : Bytes → List Object) where
  -- The listing that the walk has filled.
  pub page : Params → Walk → Listing
  unfolding sort_strings
  page p w =
      let cut = is_some w.truncated in
      let last = or_empty w.truncated in
      record {
        contents = w.contents;
        key_count = length w.contents;
        max_keys = natural p.max_keys;
        is_truncated = cut;
        continuation_token = if cut && p.v2 then p.cont_token else [];
        next_continuation_token = if cut && p.v2 then codec.base64_encode last else [];
        marker = if cut && not p.v2 then p.marker else [];
        next_marker = if cut && not p.v2 then last else [];
        common_prefixes = sort_strings w.prefixes;
      }

  pub of_walk : Params → Option Walk → Outcome
  unfolding page
  of_walk p none = panicked
  of_walk p (some w) = listed (page p w)

  pub list_found : Params → Outcome
  unfolding walk first_walk of_walk
  list_found p = of_walk p (walk p iam (natural p.max_keys) [] (objects p.prefix) (first_walk p))

  -- s3ListBucket, of what FindBucket answers.
  unfoldable pub list_bucket : Params → Option Error → Outcome
  unfolding validate list_found
  list_bucket params found = elim (validate codec params) [
    | none ↦ invalid_argument
    | some p ↦ elim found [
      | some not_found ↦ no_such_bucket
      | some e ↦ internal_error
      | none ↦ list_found p
    ]
  ]

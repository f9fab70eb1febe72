-- ===== src/Tests/Listing.antt =====
-- The listing of a bucket (src/s3/bucket.go).
use swifty.Base.{ℕ, ◌≡◌, refl, true, some, List, [], ◌∷◌}
use swifty.Base.Ints.{pos}
use swifty.Base.Bytes.{Bytes, same, le_bytes}
use swifty.S3.Listing.{Object, Iam, Codec, Params, request, validate}
use swifty.S3.Listing.Scan.{firsts}
use swifty.S3.Listing.Pages.{entries}
use swifty.S3.Listing.All as ListingAll

abbrev codec : Codec
codec = record {
  default_list_objects = 1000;
  matches = λ t. true;
  base64_encode = λ t. t;
  base64_decode = λ t. some t;
}

abbrev iam : Iam
iam = record { user = b'u' ∷ []; aws_id = b'i' ∷ [] }

abbrev object : Bytes → ℕ → Object
object key size = record { key = key; size = size; creation_time = []; etag = [] }

-- "a" in two versions, "b/c" and "d".
abbrev stored : Bytes → List Object
stored prefix =
    object (b'a' ∷ []) 2
    ∷ object (b'a' ∷ []) 1
    ∷ object (b'b' ∷ b'/' ∷ b'c' ∷ []) 3
    ∷ object (b'd' ∷ []) 4
    ∷ []

abbrev accepted : Params
accepted = record (request [] (b'/' ∷ []) (pos 1) []) { max_keys = pos 1 }

valid : validate codec (request [] (b'/' ∷ []) (pos 1) []) ≡ some accepted
unfolding validate request
valid = refl

-- Two pages of one key, and an empty one.
all_pages_complete_example :
    ListingAll.all_pages codec iam stored 4 [] (b'/' ∷ []) (pos 1) []
    ≡ some (entries (request [] (b'/' ∷ []) (pos 1) []) iam (firsts [] (stored [])))
unfolding firsts same le_bytes request
all_pages_complete_example =
    ListingAll.all_pages_complete codec [] (b'/' ∷ []) (pos 1) iam stored accepted valid
      ((refl, (refl, (refl, tt))), ((refl, (refl, tt)), ((refl, tt), (tt, tt))))
      (refl, (refl, (refl, (refl, tt))))

-- ===== src/Tests/Routing.antt =====
-- The routers of the gateway and the cache of URLs (src/gate/router.go, src/gate/url.go).
use swifty.Base.{◌≡◌, refl, false, none, some, String, List, [], ◌∷◌, if◌then◌else◌}
use text.Mathlib.Text.{◌==◌ as str_eq}
use swifty.Effects.{failure, not_found}
use swifty.Common.Bitmask.{set, test}
use swifty.Gate.Router.{
  Row, Names, Callee, Table, Got, got, refused, make_router_url, http_error, run, handle, method_nr,
}
use swifty.Gate.Url.{UrlId, World, Url, router_url, url, Urls, load, url_create, url_find}
use swifty.Gate.Url.Cache.{Op, store, clean, stores, cleans, url_find-lasts}
use swifty.Gate.Url.Cache as UrlCache
use swifty.Gate.Router.Table.{reference, handle-eq-reference}

abbrev split_fields : String → List String
split_fields s = if str_eq s "GET PUT" then "GET" ∷ "PUT" ∷ [] else s ∷ []

abbrev names : Names String
names = record { cookie = λ n. n; fields = split_fields; auth_ctx_get = λ n a. got a }

abbrev callee : Callee String String String
callee = record {
  verify = λ a. if str_eq a "open" then got "guest" else refused (failure "No claims");
  memd_get = λ c. got (some c);
}

abbrev row : String → String → String → String → Row
row method path call auth_ctx = record {
  method = method;
  path = path;
  call = call;
  key = "k";
  auth_ctx = auth_ctx;
}

-- The second row for "/a" replaces the first.
abbrev rows : List Row
rows =
    row "*" "/a" "old" "" ∷ row "GET PUT" "/a" "new" "open" ∷ row "POST" "/b" "other" "closed" ∷ []

abbrev empty_table : Table String
empty_table p = none

abbrev or_empty : Got (Table String) → Table String
or_empty (refused e) = empty_table
or_empty (got t) = t

abbrev table : Table String
table = or_empty (make_router_url names (got rows))

table-made : make_router_url names (got rows) ≡ got table
unfolding make_router_url
table-made = refl

handle-eq-reference_example :
    handle callee table "/a" "PUT" ≡ reference names callee rows "/a" "PUT"
handle-eq-reference_example = handle-eq-reference names callee rows table table-made "/a" "PUT"

-- The first row would have admitted the method.
not_allowed : handle callee table "/a" "POST" ≡ http_error 405
unfolding handle make_router_url test set method_nr
not_allowed = refl

given_claims : handle callee table "/a" "PUT" ≡ run "new" "/a" "k" (some "guest")
unfolding handle make_router_url test set method_nr
given_claims = refl

-- The router "1": its id in a URL is "r1".
abbrev router_id : UrlId
router_id = 114 ∷ 49 ∷ []

abbrev world : List Row → World String
world tbl = record {
  find_router = λ c. got tbl;
  find_event = λ k. refused not_found;
  memd_get = λ c. got (some "fn");
}

abbrev no_urls : Urls (Url String String)
no_urls = []

abbrev cleaned : List (Op (Url String String))
cleaned = clean router_id ∷ []

absent : load router_id no_urls ≡ none
unfolding load
absent = refl

router_made : url_create names (world rows) router_id ≡ url (router_url table)
unfolding url_create make_router_url
router_made = refl

not_stored : stores router_id cleaned ≡ false
unfolding stores
not_stored = refl

not_cleaned : cleans {U = Url String String} router_id [] ≡ false
unfolding cleans
not_cleaned = refl

-- The table is set to no rows, and the cache is cleaned, after urlFind has read the old rows: it stores
-- them, and the next urlFind still returns them.
url_find-lasts_example :
    let (r, us) = url_find names (world rows) (UrlCache.run cleaned) router_id no_urls in
    (r ≡ url (router_url table))
    × (url_find names (world []) (UrlCache.run []) router_id (UrlCache.run [] us)
        ≡ (url (router_url table), UrlCache.run [] (UrlCache.run [] us)))
url_find-lasts_example =
    url_find-lasts names (world rows) (world []) router_id no_urls (router_url table) cleaned [] []
      absent router_made not_stored not_cleaned

-- ===== src/Gate/Url.antt =====
-- src/gate/url.go: the cache of the URLs that calls come by (`urls`), and what urlFind makes of an id that is not
-- there. Ids are lists of bytes. What the database and the functions in memory answer is the argument `world`.
pub mod Cache
use swifty.Base.{
  ℕ, Bool, true, false, Option, none, some, List, [], ◌∷◌, ◌++◌, if◌then◌else◌, ◌==◌, ◌&&◌,
}
use swifty.Base.Bytes.{Bytes, same}
use swifty.Effects.{Error}
use swifty.Gate.Router.{Row, Got, got, refused, Names, Table, make_router_url}

abbrev pub UrlId : Type 0
UrlId = Bytes

-- URLRouter, and the key of a URL's event: "r", and "url:" before the id.
abbrev pub url_router : ℕ
url_router = 114

url_key : UrlId → UrlId
url_key fnid = 117 ∷ 114 ∷ 108 ∷ 58 ∷ fnid

-- RouterURL, and FnURL with what memdGet returned.
pub data Url (Auth Fn : Type 0) : Type 0 where
  router_url : Table Auth → Url Auth Fn
  fn_url : Option Fn → Url Auth Fn

-- dbFind of a router by its cookie, dbFind of an event by its key (its FnId), and memdGet.
pub record World (Fn : Type 0) : Type 0 where
  pub find_router : UrlId → Got (List Row)
  pub find_event : UrlId → Got UrlId
  pub memd_get : UrlId → Got (Option Fn)

pub data Outcome (U : Type 0) : Type 0 where
  url : U → Outcome U
  failed : Error → Outcome U
  panicked : Outcome U

abbrev pub Urls : Type 0 → Type 0
Urls U = List (UrlId × U)

module _ {U : Type 0} where
  -- sync.Map: Load, LoadOrStore and Delete.
  unfoldable pub load : UrlId → Urls U → Option U
  load id [] = none
  load id ((k, u) ∷ us) = if same k id then some u else load id us

  pub load_or_store : UrlId → U → Urls U → U × Urls U
  unfolding load
  load_or_store id u us = elim (load id us) [ some res ↦ (res, us) | none ↦ (u, (id, u) ∷ us) ]

  pub delete : UrlId → Urls U → Urls U
  delete id [] = []
  delete id ((k, u) ∷ us) = let rest = delete id us in if same k id then rest else (k, u) ∷ rest

  -- urlClean.
  url_clean : UrlId → UrlId → Urls U → Urls U
  unfolding delete
  url_clean typ urlid us = delete (typ ++ urlid) us

module _ {Auth Fn : Type 0} (names : Names Auth) where
  of_router : Got (Table Auth) → Outcome (Url Auth Fn)
  of_router (got table) = url (router_url table)
  of_router (refused err) = failed err

  of_memory : Got (Option Fn) → Outcome (Url Auth Fn)
  of_memory (got fdm) = url (fn_url fdm)
  of_memory (refused err) = failed err

  -- makeFnURL, with urlEvFind.
  make_fn_url : World Fn → UrlId → Outcome (Url Auth Fn)
  unfolding of_memory url_key
  make_fn_url world urlid = elim (world.find_event (url_key urlid)) [
    | refused err ↦ failed err
    | got fnid ↦ of_memory (world.memd_get fnid)
  ]

  -- urlCreate: the first byte is read of an empty id too.
  unfoldable pub url_create : World Fn → UrlId → Outcome (Url Auth Fn)
  unfolding of_router make_fn_url
  url_create world [] = panicked
  url_create world (b ∷ urlid) =
      if b == url_router
      then of_router (make_router_url names (world.find_router urlid))
      else make_fn_url world (b ∷ urlid)

  pub stored :
      UrlId
      → Urls (Url Auth Fn)
      → Outcome (Url Auth Fn)
      → Outcome (Url Auth Fn) × Urls (Url Auth Fn)
  unfolding load_or_store
  stored urlid us (url u) = let (res, us') = load_or_store urlid u us in (url res, us')
  stored urlid us (failed err) = (failed err, us)
  stored urlid us panicked = (panicked, us)

  -- urlFind, in which others may change the cache, by `others`, between its Load and its LoadOrStore.
  pub url_find :
      World Fn
      → (Urls (Url Auth Fn) → Urls (Url Auth Fn))
      → UrlId
      → Urls (Url Auth Fn)
      → Outcome (Url Auth Fn) × Urls (Url Auth Fn)
  unfolding load stored url_create
  url_find world others urlid us = elim (load urlid us) [
    | some res ↦ (url res, others us)
    | none ↦ stored urlid (others us) (url_create world urlid)
  ]

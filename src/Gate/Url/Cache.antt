-- ===== src/Gate/Url/Cache.antt =====
-- How long a URL stays in the cache (src/gate/url.go).
use swifty.Base.{◌≡◌, refl, ◌∙◌, Bool, false, ◌||◌, if◌then◌else◌, none, some, List, [], ◌∷◌, arith}
use swifty.Base.Bytes.{same, same_iff, same_left, same_right}
use swifty.Gate.Router.{Names}
use swifty.Gate.Url.{
  UrlId, Url, World, url, Urls, load, load_or_store, delete, url_create, url_find, stored,
}

-- What others do to the cache: a LoadOrStore, or a Delete.
pub data Op (U : Type 0) : Type 0 where
  store : UrlId → U → Op U
  clean : UrlId → Op U

module _ {U : Type 0} where
  step : Op U → Urls U → Urls U
  unfolding load_or_store delete
  step (store k u) us = (load_or_store k u us).1
  step (clean k) us = delete k us

  -- The operations in the order in which they are made.
  pub run : List (Op U) → Urls U → Urls U
  unfolding step
  run [] us = us
  run (o ∷ ops) us = run ops (step o us)

  unfoldable pub stores : UrlId → List (Op U) → Bool
  stores id [] = false
  stores id (store k u ∷ ops) = same k id || stores id ops
  stores id (clean k ∷ ops) = stores id ops

  unfoldable pub cleans : UrlId → List (Op U) → Bool
  cleans id [] = false
  cleans id (store k u ∷ ops) = cleans id ops
  cleans id (clean k ∷ ops) = same k id || cleans id ops

  load-delete :
      (id k : UrlId) (us : Urls U)
      → load id (delete k us) ≡ (if same k id then none else load id us)
  unfolding load delete
  load-delete id k [] = grind arith
  load-delete id k ((k', u) ∷ us) =
      let ih = load-delete id k us in ground (arith, ih, same_left k' k id, same_right k' k id)

  load-store_other :
      (id k : UrlId) (u : U) (us : Urls U)
      → same k id ≡ false
      → load id ((load_or_store k u us).1) ≡ load id us
  unfolding load load_or_store
  load-store_other id k u us h = ground arith

  load-store_keeps :
      (id k : UrlId) (u v : U) (us : Urls U)
      → load id us ≡ some v
      → load id ((load_or_store k u us).1) ≡ some v
  unfolding load load_or_store
  load-store_keeps id k u v us h = ground (arith, same_iff k id)

  load-store_first :
      (id : UrlId) (u : U) (us : Urls U)
      → load id us ≡ none
      → (load_or_store id u us ≡ (u, (id, u) ∷ us)) × (load id ((id, u) ∷ us) ≡ some u)
  unfolding load load_or_store
  load-store_first id u us h =
      let (f, g) = same_iff id id in (rw (h, load_or_store) refl, rw (g refl) refl)

  -- An id that is not there stays away until something is stored for it; one that is there stays until it
  -- is cleaned.
  run-none :
      (id : UrlId) (ops : List (Op U)) (us : Urls U)
      → stores id ops ≡ false
      → load id us ≡ none
      → load id (run ops us) ≡ none
  unfolding run stores step
  run-none id [] us h n = n
  run-none id (store k u ∷ ops) us h n =
      let other : same k id ≡ false = ground arith in
      run-none id ops (step (store k u) us) (ground arith) (load-store_other id k u us other ∙ n)
  run-none id (clean k ∷ ops) us h n =
      run-none id ops (step (clean k) us) h (ground (arith, load-delete id k us))

  run-some :
      (id : UrlId) (ops : List (Op U)) (us : Urls U) (v : U)
      → cleans id ops ≡ false
      → load id us ≡ some v
      → load id (run ops us) ≡ some v
  unfolding run cleans step
  run-some id [] us v h n = n
  run-some id (store k u ∷ ops) us v h n =
      run-some id ops (step (store k u) us) v h (load-store_keeps id k u v us n)
  run-some id (clean k ∷ ops) us v h n =
      let other : same k id ≡ false = ground arith in
      run-some id ops (step (clean k) us) v (ground arith)
        (ground (arith, load-delete id k us, same_iff id k, same_iff k id))

module _ {Auth Fn : Type 0} (names : Names Auth) where
  -- urlFind of an id that is not in the cache returns the URL that urlCreate makes of what the world says at
  -- its start, when nobody stores one for the id in between (others may have cleaned it); and each later
  -- urlFind returns this URL, whatever the world says by then, until the id is cleaned.
  pub url_find-lasts :
      (w w' : World Fn) (id : UrlId) (us : Urls (Url Auth Fn)) (u : Url Auth Fn)
      → (during later meanwhile : List (Op (Url Auth Fn))) → load id us ≡ none
      → url_create names w id ≡ url u
      → stores id during ≡ false
      → cleans id later ≡ false
      → let (r, us1) = url_find names w (run during) id us in
        (r ≡ url u)
        × (url_find names w' (run meanwhile) id (run later us1)
            ≡ (url u, run meanwhile (run later us1)))
  unfolding url_find stored
  url_find-lasts w w' id us u during later meanwhile n made quiet kept =
      let us' = run during us in
      let (first, there) = load-store_first id u us' (run-none id during us quiet n) in
      let lasting = run-some id later ((id, u) ∷ us') u kept there in
      let found : url_find names w (run during) id us ≡ (url u, (id, u) ∷ us') =
        rw (n, made, first, url_find, stored) refl in
      rw found (refl, rw (lasting, url_find) refl)

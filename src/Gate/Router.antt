-- ===== src/Gate/Router.antt =====
-- src/gate/router.go and, for the tables of URLs, src/gate/url.go: routers, which hand a call's path and method
-- to a function. The names of accounts, the splitting of a text at its blanks (strings.Fields), the check
-- of a caller's claims and the functions in memory are not theirs.
pub mod Table
use text.Mathlib.Text.{◌==◌ as str_eq}
use swifty.Base.{
  ℕ, zero, suc, ◌+◌, Bool, true, false, Option, none, some, String, List, [], ◌∷◌, ltb, leb, length,
  if◌then◌else◌,
}
use swifty.Base.Ints.{ℤ, pos, negsuc}
use swifty.Effects.{Error, failure, Env, M, pure, call, note, ◌>>=◌, ◌>>◌}
use swifty.Common.Bitmask.{Bitmask, set, test, fill}
use swifty.Gate.Errors.{ReqErr, gate_bad_request, gate_err_d, gate_err_m}

-- swyapi.RouterEntry, a row of a router's table.
pub record Row : Type 0 where
  pub method : String
  pub path : String
  pub call : String
  pub key : String
  pub auth_ctx : String

-- RouterEntry: what a row becomes, with the check of claims (if any) that it asks for.
pub record RouterEntry (Auth : Type 0) : Type 0 where
  pub cookie : String
  pub ac : Option Auth
  pub methods : Bitmask
  pub key : String

abbrev client_methods : List String
client_methods = "GET" ∷ "PUT" ∷ "POST" ∷ "DELETE" ∷ "PATCH" ∷ "HEAD" ∷ "OPTIONS" ∷ []

-- methodNr, from the i-th method on.
number_from : ℕ → List String → String → ℕ
number_from i [] m = 31
number_from i (cm ∷ cms) m = if str_eq m cm then i else number_from (suc i) cms m

unfoldable pub method_nr : String → ℕ
unfolding number_from
method_nr m = number_from 0 client_methods m

-- ckTable.
unfoldable pub ck_table : ℕ → (String → ℕ) → List Row → Option ReqErr
ck_table max len [] = none
ck_table max len (t ∷ tbl) =
    if ltb max (len t.key)
    then some (gate_err_m gate_bad_request "Too long key")
    else ck_table max len tbl

pub data Got (A : Type 0) : Type 0 where
  got : A → Got A
  refused : Error → Got A

-- What the router relies on: SwoId.Cookie, strings.Fields, authCtxGet.
pub record Names (Auth : Type 0) : Type 0 where
  pub cookie : String → String
  pub fields : String → List String
  pub auth_ctx_get : String → String → Got Auth

abbrev pub Table : Type 0 → Type 0
Table Auth = String → Option (RouterEntry Auth)

module _ {Auth : Type 0} (names : Names Auth) where
  set_methods : Bitmask → List String → Bitmask
  set_methods b [] = b
  set_methods b (m ∷ ms) = set_methods (set b (method_nr m)) ms

  pub row_methods : String → Bitmask
  unfolding set_methods
  row_methods method = if str_eq method "*" then fill else set_methods 0 (names.fields method)

  pub entry : Row → Option Auth → RouterEntry Auth
  unfolding row_methods
  entry e ac = record {
    cookie = names.cookie e.call;
    ac = ac;
    methods = row_methods e.method;
    key = e.key;
  }

  -- `rurl.table[e.Path] = &re`.
  put : String → RouterEntry Auth → Table Auth → Table Auth
  put path re table p = if str_eq path p then some re else table p

  asked : Got Auth → Got (Option Auth)
  asked (got ac) = got (some ac)
  asked (refused err) = refused err

  -- The check of claims of a row.
  pub row_ac : Row → Got (Option Auth)
  unfolding asked
  row_ac e = if str_eq e.auth_ctx "" then got none else asked (names.auth_ctx_get e.call e.auth_ctx)

  -- The loop of makeRouterURL, from the table made so far.
  pub fill_table : Table Auth → List Row → Got (Table Auth)
  unfolding entry put row_ac
  fill_table table [] = got table
  fill_table table (e ∷ rows) = elim (row_ac e) [
    | refused err ↦ refused err
    | got ac ↦ fill_table (put e.path (entry e ac) table) rows
  ]

  -- makeRouterURL, of the router that the database gives.
  unfoldable pub make_router_url : Got (List Row) → Got (Table Auth)
  unfolding fill_table
  make_router_url (refused err) = refused err
  make_router_url (got rows) = fill_table (λ p. none) rows

-- How a request is answered: by an error's code, or by a function that is given the path, the row's key
-- and the claims that were checked.
pub data Reply (Fn : Type 0) (Claims : Type 0) : Type 0 where
  http_error : ℕ → Reply Fn Claims
  run : Fn → String → String → Option Claims → Reply Fn Claims

-- AuthCtx.Verify of the request, and memdGet.
pub record Callee (Auth Claims Fn : Type 0) : Type 0 where
  pub verify : Auth → Got Claims
  pub memd_get : String → Got (Option Fn)

module _ {Auth Claims Fn : Type 0} (callee : Callee Auth Claims Fn) where
  call_function : String → String → Option Claims → Got (Option Fn) → Reply Fn Claims
  call_function path key claims (refused err) = http_error 500
  call_function path key claims (got none) = http_error 503
  call_function path key claims (got (some fmd)) = run fmd path key claims

  verified : String → RouterEntry Auth → Got Claims → Reply Fn Claims
  unfolding call_function
  verified path e (refused err) = http_error 401
  verified path e (got claims) = call_function path e.key (some claims) (callee.memd_get e.cookie)

  -- From the check of claims on.
  pub admit : String → RouterEntry Auth → Option Auth → Reply Fn Claims
  unfolding call_function verified
  admit path e none = call_function path e.key none (callee.memd_get e.cookie)
  admit path e (some ac) = verified path e (callee.verify ac)

  handle_entry : String → String → Option (RouterEntry Auth) → Reply Fn Claims
  unfolding admit
  handle_entry path method none = http_error 404
  handle_entry path method (some e) =
      if test e.methods (method_nr method) then admit path e e.ac else http_error 405

  -- RouterURL.Handle of a request for a path, by a method.
  unfoldable pub handle : Table Auth → String → String → Reply Fn Claims
  unfolding handle_entry
  handle table path method = handle_entry path method (table path)

-- What the changes of a router ask for: its document, the count of routers, and the table in memory.
pub data Change : Type 0 where
  insert_router remove_router : Change
  update_table : List Row → Change
  url_clean inc dec : Change

module _ (env : Env Change) where
  -- RouterDesc.Add.
  unfoldable pub add : M Change (Option ReqErr)
  add = do
    r ← call env insert_router
    elim r [ some e ↦ pure (some (gate_err_d e)) | none ↦ do note inc; pure none ]

  -- RouterDesc.Del.
  unfoldable pub del : M Change (Option ReqErr)
  del = do
    r ← call env remove_router
    elim r [ some e ↦ pure (some (gate_err_d e)) | none ↦ do note dec; note url_clean; pure none ]

  update_table_then : List Row → Option ReqErr → M Change (Option ReqErr)
  update_table_then tbl (some cerr) = pure (some cerr)
  update_table_then tbl none = do
    r ← call env (update_table tbl)
    elim r [ some e ↦ pure (some (gate_err_d e)) | none ↦ do note url_clean; pure none ]

  -- RouterDesc.setTable.
  unfoldable pub set_table : ℕ → (String → ℕ) → List Row → M Change (Option ReqErr)
  unfolding update_table_then
  set_table max len tbl = update_table_then tbl (ck_table max len tbl)

-- RtTblProp.Info with the numbers that `from` and `to` ask for: they are checked, and then the outer
-- `f` and `t` are used, which are still 0 and the table's length.
unfoldable pub table_info : List Row → Got ℤ → Got ℤ → Got (List Row)
table_info tbl (refused e) to = refused (failure "Invalid range")
table_info tbl (got (negsuc n)) to = refused (failure "Invalid range")
table_info tbl (got (pos f)) (refused e) = refused (failure "Invalid range")
table_info tbl (got (pos f)) (got (negsuc n)) = got tbl
table_info tbl (got (pos f)) (got (pos t)) =
    if ltb (length tbl) t then refused (failure "Invalid range") else got tbl

-- ===== src/Gate/Router/Table.antt =====
-- What a router answers, read off the rows of its table (src/gate/router.go).
use text.Mathlib.Text.{◌==◌ as str_eq}
use text.Mathlib.TextEquality.{eq_iff}
use swifty.Base.{
  ℕ, suc, ◌≡◌, ◌≢◌, refl, sym, ap, ◌∙◌, inl, inr, ◌⊎◌, Bool, true, false, ◌||◌, ◌&&◌, not, Option,
  none, some, String, List, [], ◌∷◌, ltb, if◌then◌else◌, arith, ◌==◌, Bool-cases, ◌≤◌, ◌+◌, length,
}
use swifty.Effects.{Error}
use swifty.Common.Bitmask.{test, set, test-set, test-empty, test-fill}
use swifty.Gate.Router.{
  Row, Got, got, refused, Names, Table, method_nr, number_from, client_methods, set_methods,
  row_methods, row_ac, entry, put, fill_table, make_router_url, Reply, http_error, Callee, admit,
  handle,
}

-- The last row for a path.
pub last_row : String → List Row → Option Row
last_row path [] = none
last_row path (e ∷ rows) =
    let later = last_row path rows in
    elim later [ some r ↦ some r | none ↦ if str_eq e.path path then some e else none ]

-- Whether a method is one of some.
known : List String → String → Bool
known [] m = false
known (cm ∷ cms) m = str_eq m cm || known cms m

-- Two methods that the gate takes for one: the same, or two that it does not know.
unfoldable pub same_method : String → String → Bool
unfolding known
same_method m m' = str_eq m m' || not (known client_methods m) && not (known client_methods m')

pub listed : List String → String → Bool
listed [] method = false
listed (m ∷ ms) method = same_method m method || listed ms method

number_from-bounds :
    (i : ℕ) (cms : List String) (m : String)
    → i + length cms ≤ 31
    → (i ≤ number_from i cms m) × (number_from i cms m ≤ 31)
unfolding number_from
number_from-bounds i [] m h = (omega arith, omega arith)
number_from-bounds i (cm ∷ cms) m h = ground (arith, number_from-bounds (suc i) cms m)

number_from-eq :
    (i : ℕ) (cms : List String) (m m' : String)
    → i + length cms ≤ 31
    → (number_from i cms m == number_from i cms m')
      ≡ (str_eq m m' || not (known cms m) && not (known cms m'))
unfolding number_from known
number_from-eq i [] m m' h = ground arith
number_from-eq i (cm ∷ cms) m m' h = ground (
  arith,
  eq_iff m m',
  eq_iff m cm,
  eq_iff m' cm,
  number_from-eq (suc i) cms m m',
  number_from-bounds (suc i) cms m,
  number_from-bounds (suc i) cms m',
)

method_nr-eq : (m m' : String) → (method_nr m == method_nr m') ≡ same_method m m'
unfolding method_nr same_method
method_nr-eq m m' = number_from-eq 0 client_methods m m' (omega arith)

method_nr-small : (m : String) → ltb (method_nr m) 32 ≡ true
unfolding method_nr
method_nr-small m = ground (arith, number_from-bounds 0 client_methods m (omega arith))

module _ {Auth : Type 0} (names : Names Auth) where
  -- Whether a row admits a method.
  pub admits : Row → String → Bool
  unfolding listed
  admits e method = str_eq e.method "*" || listed (names.fields e.method) method

  test-set_methods :
      (b : ℕ) (ms : List String) (method : String)
      → test (set_methods names b ms) (method_nr method)
        ≡ (listed ms method || test b (method_nr method))
  unfolding set_methods listed
  test-set_methods b [] method = refl
  test-set_methods b (m ∷ ms) method =
      rw
        (
          test-set_methods (set b (method_nr m)) ms method,
          test-set b (method_nr m) (method_nr method) (method_nr-small m) (method_nr-small method),
          method_nr-eq m method,
        )
        (ground arith)

  test-row_methods :
      (e : Row) (method : String)
      → test (row_methods names e.method) (method_nr method) ≡ admits e method
  unfolding row_methods admits
  test-row_methods e method = elim (Bool-cases (str_eq e.method "*")) [
    | inl p ↦ rw p (test-fill (method_nr method) (method_nr-small method))
    | inr p ↦
        rw
          (
            p,
            test-set_methods 0 (names.fields e.method) method,
            test-empty (method_nr method) (method_nr-small method),
          )
          (ground arith)
  ]

  -- Where a table `t` that the rows turned `t0` into has its entry for a path from.
  data Read (t0 t : Table Auth) (path : String) (rows : List Row) : Type 0 where
    kept : last_row path rows ≡ none → t path ≡ t0 path → Read t0 t path rows
    written :
        (e : Row) (ac : Option Auth)
        → last_row path rows ≡ some e
        → row_ac names e ≡ got ac
        → t path ≡ some (entry names e ac)
        → Read t0 t path rows

  Got-cases : {A : Type 0} (g : Got A) → ((a : A) × (g ≡ got a)) ⊎ ((e : Error) × (g ≡ refused e))
  Got-cases (got a) = inl (a, refl)
  Got-cases (refused e) = inr (e, refl)

  -- A row in front of the rows that `t0` with it turned into `t`.
  Read-cons :
      (t0 t : Table Auth) (path : String) (e : Row) (rows : List Row) (ac : Option Auth)
      → row_ac names e ≡ got ac
      → Read (put names e.path (entry names e ac) t0) t path rows
      → Read t0 t path (e ∷ rows)
  unfolding last_row put
  Read-cons t0 t path e rows ac q (written e' ac' l q' h) = written e' ac' (rw l) q' h
  Read-cons t0 t path e rows ac q (kept l h) = elim (Bool-cases (str_eq e.path path)) [
    | inl p ↦ written e ac (rw (l, p)) q (h ∙ rw p)
    | inr p ↦ kept (rw (l, p)) (h ∙ rw p)
  ]

  refused-no-got : (err : Error) (t : Table Auth) → refused err ≢ got t
  refused-no-got err t h = ground arith

  got_or : {A : Type 0} → A → Got A → A
  got_or a (got b) = b
  got_or a (refused e) = a

  fill_table-got :
      (t0 : Table Auth) (e : Row) (rows : List Row) (ac : Option Auth)
      → row_ac names e ≡ got ac
      → fill_table names t0 (e ∷ rows)
        ≡ fill_table names (put names e.path (entry names e ac) t0) rows
  unfolding fill_table
  fill_table-got t0 e rows ac q = rw (q, fill_table)

  fill_table-refused :
      (t0 : Table Auth) (e : Row) (rows : List Row) (err : Error)
      → row_ac names e ≡ refused err
      → fill_table names t0 (e ∷ rows) ≡ refused err
  unfolding fill_table
  fill_table-refused t0 e rows err q = rw (q, fill_table)

  fill_table-Read :
      (t0 t : Table Auth) (rows : List Row)
      → fill_table names t0 rows ≡ got t
      → (path : String) → Read t0 t path rows
  unfolding fill_table last_row got_or
  fill_table-Read t0 t [] h path = kept refl (ap (λ g. got_or t g path) (sym h))
  fill_table-Read t0 t (e ∷ rows) h path = elim (Got-cases (row_ac names e)) [
    | inr (err, q) ↦ absurd (refused-no-got err t (sym (fill_table-refused t0 e rows err q) ∙ h))
    | inl (ac, q) ↦ Read-cons t0 t path e rows ac q (
        fill_table-Read (put names e.path (entry names e ac) t0) t rows
          (sym (fill_table-got t0 e rows ac q) ∙ h) path)
  ]

module _ {Auth Claims Fn : Type 0} (names : Names Auth) (callee : Callee Auth Claims Fn) where
  -- How a row answers a request that it admits.
  answer : Row → String → Got (Option Auth) → Reply Fn Claims
  answer e path (refused err) = http_error 500
  answer e path (got ac) = admit callee path (entry names e ac) ac

  decided : String → String → Option Row → Reply Fn Claims
  unfolding answer
  decided path method none = http_error 404
  decided path method (some e) =
      if admits names e method then answer e path (row_ac names e) else http_error 405

  -- How the rows of a table answer a request: the last one with its path decides.
  pub reference : List Row → String → String → Reply Fn Claims
  unfolding decided
  reference rows path method = decided path method (last_row path rows)

  read_reference :
      (t : Table Auth) (path method : String) (rows : List Row)
      → Read names (λ p. none) t path rows
      → handle callee t path method ≡ reference rows path method
  unfolding handle reference entry
  read_reference t path method rows (kept l h) = rw (l, h) refl
  read_reference t path method rows (written e ac l q h) =
      rw (l, h, q, test-row_methods names e method) refl

  -- A router that was made of rows answers each request as the rows read: with 404 when no row has its
  -- path; else the last row with that path decides, which answers 405 when its methods are not `*` and
  -- do not list the request's (two methods unknown to the gate are taken for one), and else hands the
  -- request to its function as `admit` does.
  pub handle-eq-reference :
      (rows : List Row) (table : Table Auth)
      → make_router_url names (got rows) ≡ got table
      → (path method : String) → handle callee table path method ≡ reference rows path method
  unfolding make_router_url
  handle-eq-reference rows table h path method =
      read_reference table path method rows (fill_table-Read names (λ p. none) table rows h path)

-- ===== src/Gate/Deploy/Rollback.antt =====
-- What a failed start of a deployment leaves running.
use swifty.Base.{
  ℕ, suc, ◌+◌, ◌-◌, ◌<◌, ◌≡◌, inl, inr, refl, ap, ◌∙◌, Bool, false, none, String, List, [], ◌∷◌,
  ◌++◌, length, take, arith,
}
use swifty.Effects.{Env, Trace}
use swifty.Gate.Deploy.{
  Kind, mware, function, router, Call, DeployDesc, start_loop, start_items, erm, erf, err, started,
  rdy, after_routers, after_functions, after_mwares,
}
use swifty.Gate.Deploy.Items.{
  begun, ended, Ran, start_loop-Ran, stop_loop-ended, left_with, same_kind, Outcome,
}

-- All but the last.
abbrev pub front : List String → List String
front xs = take (length xs - 1) xs

-- For each kind, the items started and those asked to stop.
pub record Account (t : Trace Call) (k : Kind) (up down : List String) : Type 0 where
  pub up_is : begun k t ≡ up
  pub down_is : ended k t ≡ down

module _ (dep : DeployDesc) where
  -- The ways in which StartItems ends, by the items that it starts (`up`) and asks to stop (`down`).
  pub data Ends (t : Trace Call) (r : DeployDesc) : Type 0 where
    -- Every item is started, and none stopped.
    all_up :
        Account t mware dep.mwares []
        → Account t function dep.functions []
        → Account t router dep.routers []
        → r.state ≡ rdy
        → Ends t r
    -- A middleware item is not started: what was started is stopped.
    mware_fails :
        (n : ℕ)
        → n < length dep.mwares
        → Account t mware (take n dep.mwares) (take n dep.mwares)
        → Account t function [] []
        → Account t router [] []
        → r ≡ dep
        → Ends t r
    -- A function is not started: the functions are stopped, and the middleware but for its last item.
    function_fails :
        (n : ℕ)
        → n < length dep.functions
        → Account t mware dep.mwares (front dep.mwares)
        → Account t function (take n dep.functions) (take n dep.functions)
        → Account t router [] []
        → r ≡ dep
        → Ends t r
    -- A router is not started: so too for the functions.
    router_fails :
        (n : ℕ)
        → n < length dep.routers
        → Account t mware dep.mwares (front dep.mwares)
        → Account t function dep.functions (front dep.functions)
        → Account t router (take n dep.routers) (take n dep.routers)
        → r ≡ dep
        → Ends t r

left_with_cons :
    (i last : ℕ) (x : String) (xs : List String) → left_with i last (x ∷ xs) ≡ i + length xs
left_with_cons i last x [] = omega arith
left_with_cons i last x (y ∷ ys) = omega (arith, left_with_cons (suc i) i y ys)

left_with_last : (xs : List String) → left_with 0 0 xs ≡ length xs - 1
left_with_last [] = omega arith
left_with_last (x ∷ xs) = omega (arith, left_with_cons 0 0 x xs)

pub take_all : (xs : List String) → take (length xs) xs ≡ xs
take_all [] = refl
take_all (x ∷ xs) = ap (◌∷◌ x) (take_all xs)

from_zero : {i n : ℕ} → i ≡ 0 + n → i ≡ n
from_zero e = omega arith

stops_are :
    {t : Trace Call} {k : Kind} {up x y : List String} → x ≡ y → Account t k up x → Account t k up y
stops_are e a = record { up_is = a.up_is; down_is = a.down_is ∙ e }

-- Nothing of the kind changes in a loop that starts items of another.
unmoved :
    {env : Env Call} {k : Kind} {xs : List String} {t : Trace Call} (j : Kind) {up : List String}
    → (ran : Ran env k 0 0 xs t (start_loop env k 0 0 xs t)) → same_kind j k ≡ false
    → Account t j up []
    → Account (start_loop env k 0 0 xs t).1 j up []
unmoved j ran h a = record { up_is = ran.others j h ∙ a.up_is; down_is = ran.stops j ∙ a.down_is }

-- A loop that starts the first items of its own kind.
moved :
    {env : Env Call} {k : Kind} {xs : List String} {t : Trace Call}
    → (ran : Ran env k 0 0 xs t (start_loop env k 0 0 xs t)) → Account t k [] []
    → Account (start_loop env k 0 0 xs t).1 k (take ran.n xs) []
moved {xs = xs} ran a = record {
  up_is = ran.own ∙ ap (λ l. l ++ take ran.n xs) a.up_is;
  down_is = ran.stops _ ∙ a.down_is;
}

module _ (env : Env Call) (dep : DeployDesc) where
  erm-Account :
      (ms : ℕ) (t : Trace Call) (m m' f f' r r' : List String)
      → Account t mware m m'
      → Account t function f f'
      → Account t router r r'
      → let (dep', t') = erm env dep ms t in
        Account t' mware m (m' ++ take ms dep.mwares)
        × Account t' function f f'
        × Account t' router r r'
        × (dep' ≡ dep)
  unfolding erm begun ended
  erm-Account ms t m m' f f' r r' am af ar =
      let (own, others, starts) = stop_loop-ended env mware ms dep.mwares none t in
      (
        record {
          up_is = starts mware ∙ am.up_is;
          down_is = own ∙ ap (λ l. l ++ take ms dep.mwares) am.down_is;
        },
        record { up_is = starts function ∙ af.up_is; down_is = others function refl ∙ af.down_is },
        record { up_is = starts router ∙ ar.up_is; down_is = others router refl ∙ ar.down_is },
        refl,
      )

  erf-Account :
      (fs ms : ℕ) (t : Trace Call) (m m' f f' r r' : List String)
      → Account t mware m m'
      → Account t function f f'
      → Account t router r r'
      → let (dep', t') = erf env dep fs ms t in
        Account t' mware m (m' ++ take ms dep.mwares)
        × Account t' function f (f' ++ take fs dep.functions)
        × Account t' router r r'
        × (dep' ≡ dep)
  unfolding erf
  erf-Account fs ms t m m' f f' r r' am af ar =
      let (own, others, starts) = stop_loop-ended env function fs dep.functions none t in
      erm-Account ms _ m m' f (f' ++ take fs dep.functions) r r'
        (record { up_is = starts mware ∙ am.up_is; down_is = others mware refl ∙ am.down_is })
        (record {
          up_is = starts function ∙ af.up_is;
          down_is = own ∙ ap (λ l. l ++ take fs dep.functions) af.down_is;
        })
        (record { up_is = starts router ∙ ar.up_is; down_is = others router refl ∙ ar.down_is })

  err-Account :
      (rs fs ms : ℕ) (t : Trace Call) (m m' f f' r r' : List String)
      → Account t mware m m'
      → Account t function f f'
      → Account t router r r'
      → let (dep', t') = err env dep rs fs ms t in
        Account t' mware m (m' ++ take ms dep.mwares)
        × Account t' function f (f' ++ take fs dep.functions)
        × Account t' router r (r' ++ take rs dep.routers)
        × (dep' ≡ dep)
  unfolding err
  err-Account rs fs ms t m m' f f' r r' am af ar =
      let (own, others, starts) = stop_loop-ended env router rs dep.routers none t in
      erf-Account fs ms _ m m' f f' r (r' ++ take rs dep.routers)
        (record { up_is = starts mware ∙ am.up_is; down_is = others mware refl ∙ am.down_is })
        (record { up_is = starts function ∙ af.up_is; down_is = others function refl ∙ af.down_is })
        (record {
          up_is = starts router ∙ ar.up_is;
          down_is = own ∙ ap (λ l. l ++ take rs dep.routers) ar.down_is;
        })

  -- The routers' loop has run, with the result `r`.
  after_routers-Ends :
      (fs ms n : ℕ) (r : ℕ × Bool) (t : Trace Call)
      → fs ≡ length dep.functions - 1
      → ms ≡ length dep.mwares - 1
      → Outcome 0 0 dep.routers n r
      → Account t mware dep.mwares []
      → Account t function dep.functions []
      → Account t router (take n dep.routers) []
      → let (d, t') = after_routers env dep fs ms r t in Ends dep t' d
  unfolding after_routers started begun ended
  after_routers-Ends fs ms n (rs, b) t pf pm (inl (f, e, l)) am af ar =
      let (m, g, h, d) = err-Account rs fs ms t _ _ _ _ _ _ am af ar in
      rw f (
        router_fails n l (stops_are (ap (λ i. take i dep.mwares) pm) m)
          (stops_are (ap (λ i. take i dep.functions) pf) g)
          (stops_are (ap (λ i. take i dep.routers) (from_zero e)) h) d)
  after_routers-Ends fs ms n (rs, b) t pf pm (inr (w, e, l)) am af ar = rw w (
      all_up (record { up_is = am.up_is; down_is = am.down_is })
        (record { up_is = af.up_is; down_is = af.down_is })
        (record {
          up_is = ar.up_is ∙ ap (λ i. take i dep.routers) e ∙ take_all dep.routers;
          down_is = ar.down_is;
        })
        refl)

  -- The functions' loop has run.
  after_functions-Ends :
      (ms n : ℕ) (r : ℕ × Bool) (t : Trace Call)
      → ms ≡ length dep.mwares - 1
      → Outcome 0 0 dep.functions n r
      → Account t mware dep.mwares []
      → Account t function (take n dep.functions) []
      → Account t router [] []
      → let (d, t') = after_functions env dep ms r t in Ends dep t' d
  unfolding after_functions
  after_functions-Ends ms n (fs, b) t pm (inl (f, e, l)) am af ar =
      let (m, g, h, d) = erf-Account fs ms t _ _ _ _ _ _ am af ar in
      rw f (
        function_fails n l (stops_are (ap (λ i. take i dep.mwares) pm) m)
          (stops_are (ap (λ i. take i dep.functions) (from_zero e)) g) h d)
  after_functions-Ends ms n (fs, b) t pm (inr (w, e, l)) am af ar =
      let ran = start_loop-Ran env router 0 0 dep.routers t in
      let af' : Account t function dep.functions [] = record {
        up_is = af.up_is ∙ ap (λ i. take i dep.functions) e ∙ take_all dep.functions;
        down_is = af.down_is;
      } in
      rw w (
        after_routers-Ends fs ms ran.n _ _ (l ∙ left_with_last dep.functions) pm ran.outcome
          (unmoved mware ran refl am) (unmoved function ran refl af') (moved ran ar))

  -- The middleware's loop has run.
  after_mwares-Ends :
      (n : ℕ) (r : ℕ × Bool) (t : Trace Call)
      → Outcome 0 0 dep.mwares n r
      → Account t mware (take n dep.mwares) []
      → Account t function [] []
      → Account t router [] []
      → let (d, t') = after_mwares env dep r t in Ends dep t' d
  unfolding after_mwares
  after_mwares-Ends n (ms, b) t (inl (f, e, l)) am af ar =
      let (m, g, h, d) = erm-Account ms t _ _ _ _ _ _ am af ar in
      rw f (mware_fails n l (stops_are (ap (λ i. take i dep.mwares) (from_zero e)) m) g h d)
  after_mwares-Ends n (ms, b) t (inr (w, e, l)) am af ar =
      let ran = start_loop-Ran env function 0 0 dep.functions t in
      let am' : Account t mware dep.mwares [] = record {
        up_is = am.up_is ∙ ap (λ i. take i dep.mwares) e ∙ take_all dep.mwares;
        down_is = am.down_is;
      } in
      rw w (
        after_functions-Ends ms ran.n _ _ (l ∙ left_with_last dep.mwares) ran.outcome
          (unmoved mware ran refl am') (moved ran af) (unmoved router ran refl ar))

  -- Whatever the items, the cluster and the database answer, a deployment's start ends in one of four
  -- ways (`Ends`): all items are started, or the first that fails ends the loop of its kind, and then the
  -- items started before it, of its kind, are stopped, with those of the earlier kinds but for the last of each.
  pub start_items-Ends : let (d, t') = start_items env dep [] in Ends dep t' d
  unfolding start_items begun ended
  start_items-Ends =
      let ran = start_loop-Ran env mware 0 0 dep.mwares [] in
      let none_yet : (k : Kind) → Account [] k [] [] =
        λ k. record { up_is = refl; down_is = refl } in
      after_mwares-Ends ran.n _ _ ran.outcome (moved ran (none_yet mware))
        (unmoved function ran refl (none_yet function)) (unmoved router ran refl (none_yet router))

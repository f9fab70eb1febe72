-- ===== src/Gate/Deploy.antt =====
-- src/gate/deploy.go: starting and stopping the items of a deployment. What starting or stopping one
-- item comes to is answered by `env` (the items' own modules model it), and so is the database. An
-- error with the code GateNotFound is `not_found`.
pub mod Rollback
pub mod Removal
pub mod Items
use swifty.Base.{
  ℕ, zero, suc, ◌+◌, ◌-◌, Bool, true, false, Option, none, some, String, List, [], ◌∷◌, length,
}
use swifty.Effects.{Error, not_found, Env, M, pure, call, note, ◌>>=◌, ◌>>◌}
use swifty.Gate.Errors.{ReqErr, gate_err_d}

pub data Kind : Type 0 where
  mware function router : Kind

-- DBDepState*.
pub data DepState : Type 0 where
  ini rdy stl trm : DepState

-- DeployDesc, with its items by their names.
pub record DeployDesc : Type 0 where
  pub state : DepState
  pub functions : List String
  pub mwares : List String
  pub routers : List String

pub data Call : Type 0 where
  start stop : Kind → String → Call
  insert remove update_all spawn_start gauge_inc gauge_dec : Call
  set_state : DepState → Call

module _ (env : Env Call) where
  -- A `for i, x = range xs` of StartItems, at the index `i`: the index that the variable is left with
  -- (`last` is what it holds so far), and whether all items were started.
  pub start_loop : Kind → ℕ → ℕ → List String → M Call (ℕ × Bool)
  start_loop k i last [] = pure (last, true)
  start_loop k i last (x ∷ xs) = do
    r ← call env (start k x)
    elim r [ some _ ↦ pure (i, false) | none ↦ start_loop k (suc i) i xs ]

  abbrev keep_error : Option Error → Option Error → Option Error
  keep_error err none = err
  keep_error err (some not_found) = err
  keep_error err (some e) = some e

  -- deployStopFunctions, deployStopMwares and deployStopRouters, with `till` items left to stop.
  unfoldable pub stop_loop : Kind → ℕ → List String → Option Error → M Call (Option Error)
  stop_loop k till [] err = pure err
  stop_loop k zero (x ∷ xs) err = pure err
  stop_loop k (suc till) (x ∷ xs) err = do
    e ← call env (stop k x)
    stop_loop k till xs (keep_error err e)

  -- The labels `erm`, `erf` and `err` of StartItems, with the indices that the loops have left.
  erm : DeployDesc → ℕ → M Call DeployDesc
  erm dep ms = do _ ← stop_loop mware ms dep.mwares none; _ ← call env (set_state stl); pure dep

  erf : DeployDesc → ℕ → ℕ → M Call DeployDesc
  unfolding erm
  erf dep fs ms = do _ ← stop_loop function fs dep.functions none; erm dep ms

  err : DeployDesc → ℕ → ℕ → ℕ → M Call DeployDesc
  unfolding erf
  err dep rs fs ms = do _ ← stop_loop router rs dep.routers none; erf dep fs ms

  started : DeployDesc → M Call DeployDesc
  started dep = do _ ← call env update_all; pure (record dep { state = rdy })

  -- The rest of StartItems, after each of its loops.
  after_routers : DeployDesc → ℕ → ℕ → ℕ × Bool → M Call DeployDesc
  after_routers dep fs ms (rs, false) = err dep rs fs ms
  after_routers dep fs ms (rs, true) = started dep

  after_functions : DeployDesc → ℕ → ℕ × Bool → M Call DeployDesc
  after_functions dep ms (fs, false) = erf dep fs ms
  after_functions dep ms (fs, true) = do
    r ← start_loop router 0 0 dep.routers
    after_routers dep fs ms r

  after_mwares : DeployDesc → ℕ × Bool → M Call DeployDesc
  after_mwares dep (ms, false) = erm dep ms
  after_mwares dep (ms, true) = do
    r ← start_loop function 0 0 dep.functions
    after_functions dep ms r

  -- StartItems.
  pub start_items : DeployDesc → M Call DeployDesc
  start_items dep = do r ← start_loop mware 0 0 dep.mwares; after_mwares dep r

  -- The rest of StopItems, after each kind of item.
  stop_mwares : DeployDesc → Option Error → M Call (Option Error)
  stop_mwares dep (some e) = pure (some e)
  stop_mwares dep none = stop_loop mware (length dep.mwares) dep.mwares none

  stop_functions : DeployDesc → Option Error → M Call (Option Error)
  unfolding stop_mwares
  stop_functions dep (some e) = pure (some e)
  stop_functions dep none = do
    f ← stop_loop function (length dep.functions) dep.functions none
    stop_mwares dep f

  -- StopItems.
  unfoldable pub stop_items : DeployDesc → M Call (Option Error)
  unfolding stop_functions
  stop_items dep = do
    r ← stop_loop router (length dep.routers) dep.routers none
    stop_functions dep r

  -- deployRestartItems.
  pub restart_items : DeployDesc → M Call DeployDesc
  restart_items dep = do r ← stop_items dep; elim r [ none ↦ start_items dep | some e ↦ pure dep ]

  -- Start: the insertion, and the goroutine that starts the items.
  pub start_deploy : DeployDesc → M Call (Option ReqErr)
  start_deploy dep = do
    r ← call env insert
    elim r [ some e ↦ pure (some (gate_err_d e)) | none ↦ do note spawn_start; pure none ]

  -- Del, once the items are stopped, and once the document is removed.
  del_done : Option Error → M Call (Option ReqErr)
  del_done (some e) = pure (some (gate_err_d e))
  del_done none = do note gauge_dec; pure none

  del_stopped : Option Error → M Call (Option ReqErr)
  unfolding del_done
  del_stopped (some e) = pure (some (gate_err_d e))
  del_stopped none = do d ← call env remove; del_done d

  del_marked : DeployDesc → Option Error → M Call (Option ReqErr)
  unfolding del_stopped
  del_marked dep (some e) = pure (some (gate_err_d e))
  del_marked dep none = do s ← stop_items dep; del_stopped s

  -- Del. (An item's error, a ReqErr in the source, is an Error here, and answered as the database's.)
  unfoldable pub del : DeployDesc → M Call (Option ReqErr)
  unfolding del_marked
  del dep = do u ← call env (set_state trm); del_marked dep u

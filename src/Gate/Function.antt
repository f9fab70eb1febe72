-- ===== src/Gate/Function.antt =====
-- src/gate/function.go: the life of a function, from Add to Del. The database, the cluster, the store
-- of sources and the clean-ups of other parts answer through `env`.
pub mod Cleanup
pub mod States
pub mod Size
pub mod Resize
use swifty.Base.{◌+◌, ℕ, Bool, true, false, ◌||◌, Option, none, some, if◌then◌else◌}
use swifty.Effects.{Error, failure, Env, M, pure, call, note, ◌>>=◌, ◌>>◌}
use swifty.Gate.Errors.{
  ReqErr, gate_err_c, gate_err_d, gate_err_e, gate_err_m, gate_limit_hit, gate_gen_err,
  gate_not_avail,
}

-- DBFuncState*; `gone` is the -1 of a function that does not exist.
pub data FuncState : Type 0 where
  ini str rdy trm stl dea gone : FuncState

-- The fields of FunctionDesc that the life cycle turns on; `src` is Src.Version, as the
-- number that it is the text of.
pub record FunctionDesc : Type 0 where
  pub state : FuncState
  pub replicas : ℕ
  pub src : ℕ

pub data Call : Type 0 where
  gen_token insert check_fn_count update remove : Call
  put_sources remove_sources update_sources try_build gc_old_sources : Call
  build k8s_run k8s_update k8s_remove : Call
  clear_events stats_drop log_remove log_save : Call
  memd_gone spawn_start waiter_kick gauge_inc gauge_dec : Call
  -- The new state, and the state that the document must be in, if any (-1 in the source).
  set_state : FuncState → Option FuncState → Call

module _ (env : Env Call) where
  abbrev Reply : Type 0
  Reply = FunctionDesc × Option ReqErr

  -- ToState.
  pub to_state : FunctionDesc → FuncState → Option FuncState → M Call (FunctionDesc × Option Error)
  to_state fn st from = do
    r ← call env (set_state st from)
    elim r [ none ↦ pure (record fn { state = st }, none) | some e ↦ pure (fn, some e) ]

  -- `fn.ToState(...)` with its error dropped.
  mark_state : FunctionDesc → FuncState → M Call FunctionDesc
  unfolding to_state
  mark_state fn st = do r ← to_state fn st none; pure r.0

  -- The labels at the end of Add: `out`, with `cerr` as it stands, `stalled`, `out_clean_func` and
  -- `out_clean_repo`.
  stalled : FunctionDesc → ReqErr → M Call Reply
  unfolding mark_state
  stalled fn cerr = do fn' ← mark_state fn stl; pure (fn', some cerr)

  out_clean_func : FunctionDesc → ReqErr → M Call Reply
  unfolding stalled
  out_clean_func fn cerr = do
    erc ← call env remove
    elim erc [ some _ ↦ stalled fn cerr | none ↦ do note gauge_dec; pure (fn, some cerr) ]

  out_clean_repo : FunctionDesc → ReqErr → M Call Reply
  unfolding stalled out_clean_func
  out_clean_repo fn cerr = do
    erc ← call env remove_sources
    elim erc [ some _ ↦ stalled fn cerr | none ↦ out_clean_func fn cerr ]

  -- From putSources on.
  add_sources : FunctionDesc → M Call Reply
  unfolding out_clean_repo out_clean_func
  add_sources fn = do
    p ← call env put_sources
    elim p [
      | some e ↦ out_clean_func (record fn { src = 0 }) (gate_err_e gate_gen_err e)
      | none ↦ do
        u ← call env update
        elim u [
          | some e ↦ out_clean_repo (record fn { state = str; src = 0 }) (gate_err_d e)
          | none ↦ do
            note spawn_start
            note log_save
            pure (record fn { state = str; src = 0 }, none)
        ]
    ]

  -- FunctionDesc.Add.
  unfoldable pub add : FunctionDesc → M Call Reply
  unfolding add_sources out_clean_func
  add fn = do
    g ← call env gen_token
    elim g [
      | some _ ↦ pure (fn, some (gate_err_m gate_gen_err "error generating token"))
      | none ↦ do
        i ← call env insert
        elim i [
          | some e ↦ pure (record fn { state = ini }, some (gate_err_d e))
          | none ↦ do
            c ← call env check_fn_count
            elim c [
              | some _ ↦ out_clean_func (record fn { state = ini }) (gate_err_c gate_limit_hit)
              | none ↦ do note gauge_inc; add_sources (record fn { state = ini })
            ]
        ]
    ]

  -- FunctionDesc.Start; `needs_build` is what rtNeedToBuild says.
  pub start : Bool → M Call (Option Error)
  start false = call env k8s_run
  start true = do b ← call env build; elim b [ some e ↦ pure (some e) | none ↦ call env k8s_run ]

  -- The goroutine that Add starts.
  pub start_task : Bool → FunctionDesc → M Call FunctionDesc
  unfolding start mark_state
  start_task needs_build fn = do
    r ← start needs_build
    elim r [ none ↦ pure fn | some _ ↦ mark_state fn stl ]

  -- The label `later` of Del.
  later : FunctionDesc → Error → M Call Reply
  later fn e = pure (fn, some (gate_err_e gate_gen_err e))

  -- From removeSources on.
  del_sources : FunctionDesc → M Call Reply
  unfolding later
  del_sources fn = do
    s ← call env remove_sources
    elim s [
      | some e ↦ later fn e
      | none ↦ do
        note memd_gone
        d ← call env remove
        elim d [ some e ↦ later fn e | none ↦ do note gauge_dec; pure (fn, none) ]
    ]

  -- From clearAllEvents on.
  del_parts : FunctionDesc → M Call Reply
  unfolding del_sources later
  del_parts fn = do
    c ← call env clear_events
    elim c [
      | some e ↦ later fn e
      | none ↦ do
        s ← call env stats_drop
        elim s [
          | some e ↦ later fn e
          | none ↦ do
            l ← call env log_remove
            elim l [ some e ↦ later fn e | none ↦ del_sources fn ]
        ]
    ]

  abbrev may_del : FuncState → Bool
  may_del ini = false
  may_del gone = false
  may_del _ = true

  abbrev is_dea : FuncState → Bool
  is_dea dea = true
  is_dea _ = false

  -- FunctionDesc.Del.
  unfoldable pub del : FunctionDesc → M Call Reply
  unfolding to_state del_parts later
  del fn = elim (may_del fn.state) [
    | false ↦ pure (fn, some (gate_err_m gate_gen_err "Cannot terminate fn"))
    | true ↦ do
      r ← to_state fn trm (some fn.state)
      elim r.1 [
        | some _ ↦ pure (r.0, some (gate_err_m gate_gen_err "Cannot terminate fn"))
        | none ↦ elim (is_dea fn.state) [
          | true ↦ del_parts r.0
          | false ↦ do
            k ← call env k8s_remove
            elim k [ some e ↦ later r.0 e | none ↦ del_parts r.0 ]
        ]
      ]
  ]

  -- deactivateFunction, for the state that the switch finds.
  deactivate_ready : FunctionDesc → M Call Reply
  unfolding to_state mark_state
  deactivate_ready fn = do
    r ← to_state fn dea (some fn.state)
    elim r.1 [
      | some _ ↦ pure (r.0, some (gate_err_m gate_gen_err "Cannot deactivate function"))
      | none ↦ do
        k ← call env k8s_remove
        elim k [
          | none ↦ pure (r.0, none)
          | some _ ↦ do
            fn' ← mark_state r.0 rdy
            pure (fn', some (gate_err_m gate_gen_err "Cannot deactivate function"))
        ]
    ]

  abbrev is_rdy : FuncState → Bool
  is_rdy rdy = true
  is_rdy _ = false

  pub deactivate : FunctionDesc → M Call Reply
  unfolding deactivate_ready
  deactivate fn = elim (is_rdy fn.state) [
    | true ↦ deactivate_ready fn
    | false ↦ pure (fn, some (gate_err_m gate_gen_err "Function is not ready"))
  ]

  activate_dea : FunctionDesc → M Call Reply
  unfolding to_state mark_state
  activate_dea fn = do
    r ← to_state fn str (some dea)
    elim r.1 [
      | some _ ↦ pure (r.0, some (gate_err_m gate_gen_err "Cannot activate function"))
      | none ↦ do
        k ← call env k8s_run
        elim k [
          | none ↦ pure (r.0, none)
          | some _ ↦ do
            fn' ← mark_state r.0 dea
            pure (fn', some (gate_err_m gate_gen_err "Cannot activate FN"))
        ]
    ]

  pub activate : FunctionDesc → M Call Reply
  unfolding activate_dea
  activate fn = elim (is_dea fn.state) [
    | true ↦ activate_dea fn
    | false ↦ pure (fn, some (gate_err_m gate_gen_err "Function is not deactivated"))
  ]

  -- setState; the argument is the state whose name in fnStates was asked for, if any.
  pub set_fn_state : Option FuncState → FunctionDesc → M Call Reply
  unfolding activate deactivate
  set_fn_state (some dea) fn = deactivate fn
  set_fn_state (some rdy) fn = activate fn
  set_fn_state _ fn = pure (fn, some (gate_err_m gate_not_avail "Cannot set this state"))

  -- notifyPodUp, on the function that dbFind gave.
  pub notify_pod_up : FunctionDesc → M Call FunctionDesc
  unfolding mark_state
  notify_pod_up fn = do
    fn' ← elim (is_rdy fn.state) [ true ↦ pure fn | false ↦ mark_state fn rdy ]
    note waiter_kick
    pure fn'

  abbrev is_stl : FuncState → Bool
  is_stl stl = true
  is_stl _ = false

  -- The end of updateSources, when the document is written.
  restart : Bool → FunctionDesc → M Call Reply
  unfolding mark_state
  restart true fn = do note k8s_update; note gc_old_sources; note log_save; pure (fn, none)
  restart false fn = do
    k ← call env k8s_run
    elim k [
      | some e ↦ do fn' ← mark_state fn stl; pure (fn', some (gate_err_e gate_gen_err e))
      | none ↦ do note gc_old_sources; note log_save; pure (fn, none)
    ]

  -- The method updateSources.
  pub change_sources : FunctionDesc → M Call Reply
  unfolding restart
  change_sources fn = elim (is_rdy fn.state || is_stl fn.state) [
    | false ↦ pure (fn, some (gate_err_m gate_gen_err "Function should be running or stalled"))
    | true ↦ do
      -- The function updateSources counts the version up before it stores anything.
      s ← call env update_sources
      elim s [
        | some e ↦ pure (record fn { src = fn.src + 1 }, some (gate_err_e gate_gen_err e))
        | none ↦ do
          b ← call env try_build
          elim b [
            | some e ↦ pure (record fn { src = fn.src + 1 }, some (gate_err_e gate_gen_err e))
            | none ↦ do
              let fn' = record fn {
                state = if is_stl fn.state then str else fn.state;
                src = fn.src + 1;
              }
              u ← call env update
              elim u [
                | some e ↦ pure (fn', some (gate_err_d e))
                | none ↦ restart (is_rdy fn.state) fn'
              ]
          ]
      ]
  ]

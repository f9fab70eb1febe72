-- ===== src/Gate/Mware.antt =====
-- src/gate/mware.go: the life of a middleware item, from Add to Del. The database, the cluster's
-- secrets and the handlers of each kind answer through `env`; the gauge of the metrics is a call too.
pub mod Cleanup
use swifty.Base.{
  ℕ, Bool, true, false, not, ◌&&◌, ◌||◌, Option, none, some, String, List, [], ◌∷◌, leb,
  if◌then◌else◌,
}
use swifty.Effects.{Error, failure, Env, M, pure, call, note, ◌>>=◌, ◌>>◌}
use swifty.Gate.Errors.{
  ReqErr, gate_err_c, gate_err_d, gate_err_e, gate_err_m, gate_limit_hit, gate_gen_err,
}

-- DBMwareState*; `no` is the -1 of an item that does not exist.
pub data MwareState : Type 0 where
  prp rdy trm stl gone : MwareState

-- What the code below reads of MwareOps.
pub record MwareOps : Type 0 where
  pub disabled : Bool
  pub lite_ok : Bool

-- The fields of MwareDesc that the code below reads or writes; `encrypted` says that Secret has been
-- replaced by its cipher text.
pub record MwareDesc : Type 0 where
  pub mware_type : String
  pub state : MwareState
  pub encrypted : Bool

pub data Call : Type 0 where
  insert update remove : Call
  init fini : Call
  secret_add secret_remove : Call
  encrypt : Call
  gauge_inc gauge_dec : Call
  -- The new state, and the state that the document must be in, if any (-1 in the source).
  set_state : MwareState → Option MwareState → Call

-- The daemon's flavour, which isLite reads, and what the limits come to: the tenant's data (or the
-- error in getting it), the entry for the type, and the count of the tenant's items (or its error).
pub record Limits : Type 0 where
  pub tendat : Option Error
  pub number : Option ℕ
  pub count : ℕ
  pub count_err : Option Error

-- checkMwCount.
pub check_mw_count : Limits → Option Error
check_mw_count l = elim l.tendat [
  | some e ↦ some e
  | none ↦ elim l.number [
    | none ↦ none
    | some lim ↦ elim l.count_err [
      | some e ↦ some e
      | none ↦ if leb lim l.count then some (failure "Too many mwares created") else none
    ]
  ]
]

module _ (env : Env Call) where
  -- ToState.
  pub to_state : MwareDesc → MwareState → Option MwareState → M Call MwareDesc
  to_state mw st from = do
    r ← call env (set_state st from)
    elim r [ none ↦ pure (record mw { state = st }) | some e ↦ pure mw ]

  abbrev Reply : Type 0
  Reply = MwareDesc × Option ReqErr

  -- The labels at the end of Add, last first: `out`, `stalled`, `outdb`, `outh`, `outs`.
  out : MwareDesc → Error → M Call Reply
  out mwd e = pure (mwd, some (gate_err_e gate_gen_err e))

  stalled : MwareDesc → Error → M Call Reply
  unfolding to_state out
  stalled mwd e = do mwd' ← to_state mwd stl none; out mwd' e

  out_db : MwareDesc → Error → M Call Reply
  unfolding stalled out
  out_db mwd e = do
    erc ← call env remove
    elim erc [ some _ ↦ stalled mwd e | none ↦ do note gauge_dec; out mwd e ]

  out_h : MwareDesc → Error → M Call Reply
  unfolding out_db
  out_h mwd e = do erc ← call env fini; elim erc [ some _ ↦ stalled mwd e | none ↦ out_db mwd e ]

  out_s : MwareDesc → Error → M Call Reply
  unfolding out_h
  out_s mwd e = do
    erc ← call env secret_remove
    elim erc [ some _ ↦ stalled mwd e | none ↦ out_h mwd e ]

  -- From the update of the document on.
  publish : MwareDesc → M Call Reply
  unfolding out_s
  publish mwd = do
    r ← call env update
    elim r [ some _ ↦ out_s mwd (failure "DB error") | none ↦ pure (mwd, none) ]

  -- From the handler's Init on. (The text that Add puts before an error of Init is left out.)
  set_up : MwareDesc → M Call Reply
  unfolding publish out_db
  set_up mwd = do
    r ← call env init
    elim r [
      | some e ↦ out_db mwd e
      | none ↦ do
        s ← call env secret_add
        elim s [
          | some e ↦ out_h mwd e
          | none ↦ do
            c ← call env encrypt
            elim c [
              | some _ ↦ out_s mwd (failure "Encrypt error")
              | none ↦ publish (record mwd { encrypted = true; state = rdy })
            ]
        ]
    ]

  -- MwareDesc.Add.
  pub add : Bool → Limits → MwareOps → MwareDesc → M Call Reply
  unfolding set_up check_mw_count
  add lite limits handler mwd = elim (check_mw_count limits) [
    | some _ ↦ pure (mwd, some (gate_err_c gate_limit_hit))
    | none ↦ do
      r ← call env insert
      elim r [
        | some e ↦ pure (mwd, some (gate_err_d e))
        | none ↦ do
          note gauge_inc
          if handler.disabled || (lite && not handler.lite_ok)
              then out_db mwd (failure "Bad mware type")
              else set_up mwd
      ]
  ]

  -- The label `stalled` of Del.
  del_stalled : MwareDesc → Error → M Call Reply
  unfolding to_state
  del_stalled item e = do
    item' ← to_state item stl none
    pure (item', some (gate_err_e gate_gen_err e))

  -- MwareDesc.Del, for a kind that has a handler (`none` if it has none).
  pub del : Option MwareOps → MwareDesc → M Call Reply
  unfolding del_stalled
  del none item = pure (item, some (gate_err_c gate_gen_err))
  del (some handler) item = do
    r ← call env (set_state trm (some item.state))
    elim r [
      | some _ ↦ pure (item, some (gate_err_m gate_gen_err "Cannot terminate mware"))
      | none ↦ do
        f ← call env fini
        elim f [
          | some e ↦ del_stalled (record item { state = trm }) e
          | none ↦ do
            s ← call env secret_remove
            elim s [
              | some e ↦ del_stalled (record item { state = trm }) e
              | none ↦ do
                d ← call env remove
                elim d [
                  | some e ↦ del_stalled (record item { state = trm }) e
                  | none ↦ do note gauge_dec; pure (record item { state = trm }, none)
                ]
            ]
        ]
    ]

-- ===== src/Gate/Event.antt =====
-- src/gate/event.go: the events that call a function. The handler of each kind of event (evtHandlers) and the
-- database answer through `env`.
pub mod Life
use text.Mathlib.Text.{◌==◌ as str_eq}
use swifty.Base.{
  ℕ, Bool, true, false, not, Option, none, some, String, List, [], ◌∷◌, if◌then◌else◌,
}
use swifty.Effects.{Error, failure, Env, M, pure, call, ◌>>=◌, ◌>>◌}
use swifty.Gate.Errors.{ReqErr, gate_err_d, gate_err_e, gate_err_m, gate_gen_err, gate_bad_request}

-- swyapi.FunctionEvent, as far as its kind is told from it: what it says of each kind.
pub record FunctionEvent : Type 0 where
  pub name : String
  pub url : String
  pub cron : Bool
  pub s3 : Bool
  pub ws : Bool

-- FnEventDesc, less what the handlers keep in it.
pub record FnEventDesc : Type 0 where
  pub name : String
  pub source : String

-- guessSource.
unfoldable pub guess_source : FunctionEvent → String
guess_source evt =
    if not (str_eq evt.url "")
    then "url"
    else if evt.cron
    then "cron"
    else if evt.s3
    then "s3"
    else if evt.ws
    then "websocket"
    else ""

pub data Described : Type 0 where
  described : FnEventDesc → Described
  rejected : ReqErr → Described

set_up : FnEventDesc → Option Error → Described
set_up ed none = described ed
set_up ed (some e) = rejected (gate_err_e gate_bad_request e)

-- getEventDesc: `handlers` says which kinds have a handler, and `setup` what its setup returns.
unfoldable pub get_event_desc :
    (String → Bool) → (FnEventDesc → FunctionEvent → Option Error) → FunctionEvent → Described
unfolding set_up guess_source
get_event_desc handlers setup evt =
    let ed : FnEventDesc = record { name = evt.name; source = guess_source evt } in
    if handlers (guess_source evt)
    then set_up ed (setup ed evt)
    else rejected (gate_err_m gate_bad_request "Unsupported event type")

-- The requests about the event with an id: its document, its key, and its handler's start and stop.
pub data EventCall : Type 0 where
  insert_event update_event remove_event drop_key start_event stop_event : ℕ → EventCall
  find_events : EventCall

module _ (env : Env EventCall) where
  -- FnEventDesc.Add: what start returns is dropped, and `err` is still that of the insertion.
  pub add : ℕ → M EventCall (Option ReqErr)
  add ed = do
    r ← call env (insert_event ed)
    elim r [
      | some e ↦ pure (some (gate_err_d e))
      | none ↦ do
        _ ← call env (start_event ed)
        u ← call env (update_event ed)
        elim u [
          | none ↦ pure none
          | some e ↦ do
            _ ← call env (stop_event ed)
            _ ← call env (remove_event ed)
            pure (some (gate_err_d e))
        ]
    ]

  -- FnEventDesc.Delete.
  pub delete : ℕ → M EventCall (Option ReqErr)
  delete ed = do
    r ← call env (drop_key ed)
    elim r [
      | some e ↦ pure (some (gate_err_d e))
      | none ↦ do
        s ← call env (stop_event ed)
        elim s [
          | some e ↦ pure (some (gate_err_m gate_gen_err "Can't stop event"))
          | none ↦ do
            d ← call env (remove_event ed)
            elim d [ some e ↦ pure (some (gate_err_d e)) | none ↦ pure none ]
        ]
    ]

  pub clear_loop : List ℕ → M EventCall (Option Error)
  unfolding delete
  clear_loop [] = pure none
  clear_loop (e ∷ evs) = do
    r ← delete e
    elim r [ some cer ↦ pure (some (failure cer.message)) | none ↦ clear_loop evs ]

  -- clearAllEvents, of the events that are found.
  pub clear_all_events : List ℕ → M EventCall (Option Error)
  unfolding clear_loop
  clear_all_events evs = do
    r ← call env find_events
    elim r [ some e ↦ pure (some e) | none ↦ clear_loop evs ]

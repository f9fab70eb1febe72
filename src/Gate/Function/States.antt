-- ===== src/Gate/Function/States.antt =====
-- Activation and deactivation: the state in the document and the deployment go together.
use swifty.Base.{◌≡◌, ◌≢◌, ◌⊎◌, Bool, true, false, none, some, [], ◌∷◌, arith, ◌+◌, ◌&&◌, ◌||◌}
use swifty.Effects.{Env, Trace}
use swifty.Gate.Function.{
  change_sources, update, update_sources, try_build, k8s_update, stl, FunctionDesc, FuncState, str,
  rdy, trm, dea, Call, k8s_remove, set_state, del,
}
use swifty.Gate.Function.Cleanup.{nothing, held}

-- The state that the document has, after the calls made since it was `start`.
pub doc : FuncState → Trace Call → FuncState
doc start [] = start
doc start ((set_state st from, true) ∷ t) = st
doc start (_ ∷ t) = doc start t

-- Whether the last call made was a write of the state, and failed.
abbrev pub last_write_failed : Trace Call → Bool
last_write_failed ((set_state st from, false) ∷ t) = true
last_write_failed _ = false

-- Whether a write of the document failed.
unfoldable pub a_write_failed : Trace Call → Bool
a_write_failed [] = false
a_write_failed ((update, false) ∷ t) = true
a_write_failed ((set_state st from, false) ∷ t) = true
a_write_failed (_ ∷ t) = a_write_failed t

-- Whether the cluster was asked to remove a deployment.
pub asked_removal : Trace Call → Bool
asked_removal [] = false
asked_removal ((k8s_remove, _) ∷ t) = true
asked_removal (_ ∷ t) = asked_removal t

first_asks :
    (env : Env Call) (fn : FunctionDesc) → fn.state ≡ dea → asked_removal (del env fn []).1 ≡ false
unfolding del asked_removal
first_asks env fn d = ground arith

second_asks :
    (env : Env Call) (fn : FunctionDesc)
    → fn.state ≡ trm
    → env [] (set_state trm (some trm)) ≡ none
    → asked_removal (del env fn []).1 ≡ true
unfolding del asked_removal
second_asks env fn d e = ground arith

-- Del of a deactivated function does not ask the cluster to remove its deployment, which it does not
-- have. When that Del ends with the function Terminating, a second Del, whose write of the state
-- succeeds, does ask.
del_again-asks :
    (env env' : Env Call) (fn : FunctionDesc)
    → fn.state ≡ dea
    → (del env fn []).0.0.state ≡ trm
    → env' [] (set_state trm (some trm)) ≡ none
    → (asked_removal (del env fn []).1 ≡ false)
      × (asked_removal (del env' (del env fn []).0.0 []).1 ≡ true)
del_again-asks env env' fn d t e = (first_asks env fn d, second_asks env' (del env fn []).0.0 t e)

-- Whether a call of a kind was made and succeeded.
unfoldable pub succeeded : (Call → Bool) → Trace Call → Bool
succeeded is [] = false
succeeded is ((c, b) ∷ t) = (is c && b) || succeeded is t

abbrev pub is_update_sources : Call → Bool
is_update_sources update_sources = true
is_update_sources _ = false

abbrev pub is_try_build : Call → Bool
is_try_build try_build = true
is_try_build _ = false

abbrev pub is_update : Call → Bool
is_update update = true
is_update _ = false

abbrev pub is_k8s_update : Call → Bool
is_k8s_update k8s_update = true
is_k8s_update _ = false

-- What the method updateSources has done when it is granted.
abbrev pub SourcesChanged : FunctionDesc → FunctionDesc → Trace Call → Type 0
SourcesChanged fn fn' t =
    (fn'.src ≡ fn.src + 1)
    × (succeeded is_update_sources t ≡ true)
    × (succeeded is_try_build t ≡ true)
    × (succeeded is_update t ≡ true)
    × ((fn.state ≡ rdy) × (fn'.state ≡ rdy) × (succeeded is_k8s_update t ≡ true)
        ⊎ (fn.state ≡ stl) × (fn'.state ≡ str) × ((held nothing t).deployed ≡ true))

-- The method updateSources: granted, the sources were stored under the next version and tried, and the document was
-- written; a function that was Ready is so still, and the cluster was asked to update it; one that was Stalled is
-- Starting, with its deployment run. Refused, the state is as it was, unless the function was Stalled and a write
-- of its document failed, when the caller's copy says Starting; the version is as it was, or the next.
pub change_sources-keeps :
    (env : Env Call) (fn : FunctionDesc)
    → let (r, t) = change_sources env fn [] in
      (r.1 ≡ none) × SourcesChanged fn r.0 t
      ⊎ (r.1 ≢ none)
        × ((r.0.state ≡ fn.state)
            ⊎ (fn.state ≡ stl) × (r.0.state ≡ str) × (a_write_failed t ≡ true))
        × ((r.0.src ≡ fn.src) ⊎ (r.0.src ≡ fn.src + 1))
unfolding change_sources held a_write_failed succeeded
change_sources-keeps env fn = ground arith

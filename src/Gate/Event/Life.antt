-- ===== src/Gate/Event/Life.antt =====
-- What an event leaves behind when it is added, and when it is deleted (src/gate/event.go).
use mathlib.Core.List.{append_assoc, append-nil}
use swifty.Base.{
  ℕ, ◌≡◌, ◌≢◌, ◌⊎◌, inl, inr, sym, ap, ◌∙◌, Bool, true, false, ◌||◌, none, Option-cases, List, [],
  ◌∷◌, ◌++◌, arith,
}
use swifty.Effects.{Env, Trace}
use swifty.Gate.Event.{
  EventCall, insert_event, update_event, remove_event, drop_key, start_event, stop_event,
  find_events, add, delete, clear_loop, clear_all_events,
}

-- What is there of an event: its document, a key by which it is found, and what its handler has started.
pub record Held : Type 0 where
  pub row : Bool
  pub key : Bool
  pub started : Bool

abbrev pub nothing : Held
nothing = record { row = false; key = false; started = false }

abbrev after : Held → EventCall × Bool → Held
after h (insert_event ed, true) = record h { row = true }
after h (update_event ed, true) = record h { key = true }
after h (remove_event ed, true) = record h { row = false; key = false }
after h (drop_key ed, true) = record h { key = false }
after h (start_event ed, true) = record h { started = true }
after h (stop_event ed, true) = record h { started = false }
after h _ = h

unfoldable pub held : Held → Trace EventCall → Held
held start [] = start
held start (c ∷ t) = after (held start t) c

-- Whether a stop or a removal failed, and whether the start did.
unfoldable pub not_cleaned : Trace EventCall → Bool
not_cleaned [] = false
not_cleaned ((stop_event ed, false) ∷ t) = true
not_cleaned ((remove_event ed, false) ∷ t) = true
not_cleaned (_ ∷ t) = not_cleaned t

unfoldable pub not_started : Trace EventCall → Bool
not_started [] = false
not_started ((start_event ed, false) ∷ t) = true
not_started (_ ∷ t) = not_started t

-- The documents removed, oldest first.
unfoldable pub removed : Trace EventCall → List ℕ
removed [] = []
removed ((remove_event ed, true) ∷ t) = removed t ++ ed ∷ []
removed (_ ∷ t) = removed t

module _ (env : Env EventCall) where
  -- Add of a new event, whatever its calls answer: without an error its document is there with its key, and
  -- it is started unless its start failed, which is not reported; with one, nothing of it is left, or a
  -- stop or a removal failed.
  pub add-cleans_event :
      (ed : ℕ)
      → let (r, t) = add env ed [] in
        ((r ≡ none)
          × ((held nothing t).row ≡ true)
          × ((held nothing t).key ≡ true)
          × (((held nothing t).started || not_started t) ≡ true))
        ⊎ ((r ≢ none) × ((held nothing t ≡ nothing) ⊎ (not_cleaned t ≡ true)))
  unfolding add held not_cleaned not_started
  add-cleans_event ed = ground arith

  -- Delete without an error removes the event's document; with one, no document.
  delete-order :
      (ed : ℕ) (t : Trace EventCall)
      → let (r, t') = delete env ed t in
        ((r ≡ none) × (removed t' ≡ removed t ++ ed ∷ [])) ⊎ ((r ≢ none) × (removed t' ≡ removed t))
  unfolding delete removed
  delete-order ed t = ground arith

  -- The documents that a loop of deletions removes, up to the first that fails.
  clear_loop-removes :
      (evs : List ℕ) (t : Trace EventCall)
      → let (r, t') = clear_loop env evs t in r ≡ none → removed t' ≡ removed t ++ evs
  unfolding clear_loop
  clear_loop-removes [] t = λ h. sym (append-nil (removed t))
  clear_loop-removes (e ∷ evs) t =
      let (d, t') = delete env e t in
      elim (Option-cases d) [
        | inr (er, q) ↦ rw (q, clear_loop) (λ h. ground arith)
        | inl q ↦
            let order : removed t' ≡ removed t ++ e ∷ [] = ground (arith, delete-order e t) in
            let ih = clear_loop-removes evs t' in
            rw (q, clear_loop)
              (λ h. ih h ∙ ap (λ l. l ++ evs) order ∙ append_assoc (removed t) (e ∷ []) evs)
      ]

  -- clearAllEvents, when it reports no error, has removed the documents of all events found, in order.
  clear_all_events-removes :
      (evs : List ℕ) → let (r, t) = clear_all_events env evs [] in r ≡ none → removed t ≡ evs
  unfolding clear_all_events removed
  clear_all_events-removes evs = elim (Option-cases (env [] find_events)) [
    | inr (e, q) ↦ rw (q, clear_all_events) (λ h. ground arith)
    | inl q ↦ rw (q, clear_all_events) (clear_loop-removes evs ((find_events, true) ∷ []))
  ]

-- ===== src/Gate/Deploy/Removal.antt =====
-- What the removal of a deployment stops.
use swifty.Base.{
  ◌≡◌, ◌≢◌, inl, inr, refl, ap, sym, ◌∙◌, none, some, Option-cases, [], ◌∷◌, ◌++◌, length, true,
  arith,
}
use swifty.Effects.{Error, Env, Trace}
use swifty.Gate.Deploy.{
  mware, function, router, Call, DeployDesc, set_state, remove, stop_loop, stop_items,
  stop_functions, stop_mwares, del, del_marked, del_stopped, del_done, trm,
}
use swifty.Gate.Deploy.Items.{ended, stop_loop-ended}
use swifty.Gate.Deploy.Rollback.{take_all}

-- All items are asked to stop since `t`, and none is started.
pub record AllStopped (dep : DeployDesc) (t t' : Trace Call) : Type 0 where
  pub routers_are : ended router t' ≡ ended router t ++ dep.routers
  pub functions_are : ended function t' ≡ ended function t ++ dep.functions
  pub mwares_are : ended mware t' ≡ ended mware t ++ dep.mwares

some_no : (e : Error) → some e ≢ none
some_no e h = ground arith

module _ (env : Env Call) (dep : DeployDesc) where
  stop_items-AllStopped :
      (t : Trace Call) → (stop_items env dep t).0 ≡ none → AllStopped dep t (stop_items env dep t).1
  unfolding stop_items stop_functions stop_mwares
  stop_items-AllStopped t h =
      let t1 : Trace Call = (stop_loop env router (length dep.routers) dep.routers none t).1 in
      let t2 : Trace Call =
        (stop_loop env function (length dep.functions) dep.functions none t1).1 in
      let (own_r, other_r, starts_r) =
        stop_loop-ended env router (length dep.routers) dep.routers none t in
      let (own_f, other_f, starts_f) =
        stop_loop-ended env function (length dep.functions) dep.functions none t1 in
      let (own_m, other_m, starts_m) =
        stop_loop-ended env mware (length dep.mwares) dep.mwares none t2 in
      elim (Option-cases (stop_loop env router (length dep.routers) dep.routers none t).0) [
        | inr (e, q) ↦
            let failed : (stop_items env dep t).0 ≡ some e = rw (q, stop_items) refl in
            elim (some_no e (sym failed ∙ h)) [ ]
        | inl q ↦
            elim (Option-cases
              (stop_loop env function (length dep.functions) dep.functions none t1).0) [
                | inr (e, p) ↦
                    let failed : (stop_items env dep t).0 ≡ some e =
                      rw (q, stop_items) (rw (p, stop_items) refl) in
                    elim (some_no e (sym failed ∙ h)) [ ]
                | inl p ↦
                    rw (q, stop_items)
                      (rw (p, stop_items)
                        (record {
                          routers_are =
                              other_m router refl
                              ∙ other_f router refl
                              ∙ own_r
                              ∙ ap (λ l. ended router t ++ l) (take_all dep.routers);
                          functions_are =
                              other_m function refl
                              ∙ own_f
                              ∙ ap (λ l. ended function t1 ++ l) (take_all dep.functions)
                              ∙ ap (λ l. l ++ dep.functions) (other_r function refl);
                          mwares_are =
                              own_m
                              ∙ ap (λ l. ended mware t2 ++ l) (take_all dep.mwares)
                              ∙ ap (λ l. l ++ dep.mwares) (other_f mware refl ∙ other_r mware refl);
                        }))
              ]
      ]

  -- Del, when it reports no error, has asked every router, every function and every middleware item to
  -- stop, each once and in order, and neither the write of the state nor the removal of the document
  -- has failed.
  pub del-stops :
      (del env dep []).0 ≡ none
      → let t = (del env dep []).1 in
        (ended router t ≡ dep.routers)
        × (ended function t ≡ dep.functions)
        × (ended mware t ≡ dep.mwares)
        × (env [] (set_state trm) ≡ none)
        × (env (stop_items env dep ((set_state trm, true) ∷ [])).1 remove ≡ none)
  unfolding del del_marked del_stopped del_done ended
  del-stops h =
      let t0 : Trace Call = (set_state trm, true) ∷ [] in
      elim (Option-cases (env [] (set_state trm))) [
        | inr (e, q) ↦
            let failed : (del env dep []).0 ≢ none = rw (q, del) (λ k. ground arith) in
            elim (failed h) [ ]
        | inl q ↦ elim (Option-cases (stop_items env dep t0).0) [
          | inr (e, p) ↦
              let failed : (del env dep []).0 ≢ none =
                rw (q, del) (rw (p, del) (λ k. ground arith)) in
              elim (failed h) [ ]
          | inl p ↦ elim (Option-cases (env (stop_items env dep t0).1 remove)) [
            | inr (e, r) ↦
                let failed : (del env dep []).0 ≢ none =
                  rw (q, del) (rw (p, del) (rw (r, del) (λ k. ground arith))) in
                elim (failed h) [ ]
            | inl r ↦
                let all = stop_items-AllStopped t0 p in
                rw (q, del)
                  (rw (p, del)
                    (rw (r, del) (all.routers_are, all.functions_are, all.mwares_are, refl, refl)))
          ]
        ]
      ]

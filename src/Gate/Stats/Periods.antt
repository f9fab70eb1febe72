-- ===== src/Gate/Stats/Periods.antt =====
-- The periods of getCallStats (src/gate/stats.go).
use swifty.Base.{
  ℕ, zero, suc, ◌≡◌, ◌<◌, ◌^◌, refl, ap, ◌∙◌, none, List, [], ◌∷◌, take, length, arith, map, ◌*◌,
}
use swifty.Base.Floats.{Floats}
use swifty.Gate.Stats.Runs.{IsSmall}
use swifty.Gate.Stats.{
  TenStatValues, add64, sub64, Period, difference, rest_period, periods_loop, call_stats,
  get_call_stats, gbs_of,
}

last : (a : ℕ) → a < 2 ^ 64 → add64 a 0 ≡ a
unfolding add64
last a h = omega arith

-- The sum of uint64s.
pub sum : List ℕ → ℕ
unfolding add64
sum [] = 0
sum (n ∷ ns) = add64 n (sum ns)

sub64-add64 : (a b : ℕ) → a < 2 ^ 64 → b < 2 ^ 64 → add64 (sub64 a b) b ≡ a
unfolding add64 sub64
sub64-add64 a b h k = omega arith

abbrev pub AllSmall : List TenStatValues → Type 0
AllSmall [] = Unit
AllSmall (v ∷ vs) = IsSmall v × AllSmall vs

take-AllSmall : (n : ℕ) (vs : List TenStatValues) → AllSmall vs → AllSmall (take n vs)
take-AllSmall zero vs h = tt
take-AllSmall (suc n) [] h = tt
take-AllSmall (suc n) (v ∷ vs) h = (h.0, take-AllSmall n vs h.1)

module _ (fl : Floats) where
  -- The periods have in them what is counted now, and there is one more than there are archived values; their
  -- GBS are those of costs that add up too.
  abbrev pub AddUp : TenStatValues → List TenStatValues → List (Period fl) → Type 0
  AddUp now atst ps =
      (sum (map (λ p. p.called) ps) ≡ now.called)
      × ((costs : List ℕ) × (map (λ p. p.gbs) ps
            ≡ map (λ c. fl.quotient (fl.of_uint64 c) (fl.of_uint64 (1024 * 1000000000))) costs)
          × (sum costs ≡ now.run_cost))
      × (sum (map (λ p. p.bytes_out) ps) ≡ now.bytes_out)
      × (length ps ≡ suc (length atst))

  loop-AddUp :
      (prev : TenStatValues) (atst : List TenStatValues)
      → IsSmall prev
      → AllSmall atst
      → AddUp prev atst (periods_loop fl prev atst)
  unfolding periods_loop difference rest_period sum gbs_of
  loop-AddUp prev [] h k = (
    last prev.called h.0,
    (prev.run_cost ∷ [], refl, last prev.run_cost h.1),
    last prev.bytes_out h.3,
    refl,
  )
  loop-AddUp prev (cur ∷ atst) h k =
      let (c, (costs, g, r), o, l) = loop-AddUp cur atst k.0 k.1 in
      let cost : ℕ = sub64 prev.run_cost cur.run_cost in
      (
        ap (add64 (sub64 prev.called cur.called)) c ∙ sub64-add64 prev.called cur.called h.0 k.0.0,
        (
          cost ∷ costs,
          ap (λ gs. fl.quotient (fl.of_uint64 cost) (fl.of_uint64 (1024 * 1000000000)) ∷ gs) g,
          ap (add64 cost) r ∙ sub64-add64 prev.run_cost cur.run_cost h.1 k.0.1,
        ),
        ap (add64 (sub64 prev.bytes_out cur.bytes_out)) o
            ∙ sub64-add64 prev.bytes_out cur.bytes_out h.3 k.0.3,
        ap suc l,
      )

  -- What getCallStats returns, when it does not fail: the calls and the bytes of its periods add up, mod 2^64, to what
  -- is counted now, also when the counters have gone round in between; their GBS are the quotients, in float64, of
  -- costs that add up so too; there is one period for each archived value that is asked for and there, and one
  -- for all before.
  pub get_call_stats-AddUp :
      (n : ℕ) (now : TenStatValues) (atst : List TenStatValues)
      → IsSmall now
      → AllSmall atst
      → (ps : List (Period fl)) × (get_call_stats fl n now none atst ≡ call_stats ps)
        × AddUp now (take n atst) ps
  unfolding get_call_stats
  get_call_stats-AddUp zero now atst h k = (periods_loop fl now [], refl, loop-AddUp now [] h tt)
  get_call_stats-AddUp (suc n) now atst h k =
      let some_of = take (suc n) atst in
      (periods_loop fl now some_of, refl, loop-AddUp now some_of h (take-AllSmall (suc n) atst k))

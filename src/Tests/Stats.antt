-- ===== src/Tests/Stats.antt =====
-- The counters of a tenant (src/gate/stats.go).
use swifty.Base.{◌≡◌, refl, inl, none, List, [], ◌∷◌, arith}
use swifty.Gate.Stats.{
  TenStatValues, TenStats, Period, add, init, count, mark_dirty, tick, begin_write, end_write,
  add_other, get_call_stats, call_stats,
}
use swifty.Gate.Stats.Runs.{
  Reach, new, next, counts, marks, ticks, begins, ends, adds, reach-flushed,
}
use swifty.Gate.Stats.Periods.{AddUp, get_call_stats-AddUp}
use swifty.Base.{take, ℕ, ◌-◌, ◌/◌, ltb, not, ◌==◌}
use swifty.Base.Floats.{Floats}

abbrev values : TenStatValues
values = record { called = 18446744073709551615; run_cost = 5; bytes_in = 7; bytes_out = 9 }

abbrev one_call : TenStatValues
one_call = record { called = 1; run_cost = 2; bytes_in = 3; bytes_out = 4 }

-- A call, a write of another gate, and a flush, while the counter of calls goes round.
abbrev requested_state : TenStats
requested_state = tick (add_other one_call (mark_dirty (count one_call (init values))))

abbrev flushed_state : TenStats
flushed_state = end_write (begin_write requested_state).values none (begin_write requested_state)

flushed_run : Reach values flushed_state
unfolding init count mark_dirty tick begin_write end_write add_other
flushed_run =
    next
      (next
        (next (next (next (next new (counts one_call)) (marks (omega arith))) (adds one_call))
          (ticks refl))
        (begins refl))
      (ends (begin_write requested_state).values none refl)

reach-flushed_example :
    flushed_state.document ≡ add (add values flushed_state.counted) flushed_state.others
unfolding init count mark_dirty tick begin_write end_write add_other
reach-flushed_example =
    reach-flushed (omega arith, omega arith, omega arith, omega arith) flushed_run
      (record { at_rest = inl refl; clean = refl; marked = refl; written = refl })

-- Whole numbers in the place of floats.
abbrev whole_numbers : Floats
whole_numbers = record {
  Float64 = ℕ;
  of_uint64 = λ n. n;
  minus = λ a b. a - b;
  quotient = λ a b. a / b;
  above = λ a b. ltb b a;
  differs = λ a b. not (a == b);
}

get_call_stats-AddUp_example :
    (ps : List (Period whole_numbers)) × (get_call_stats whole_numbers 1 one_call none
        (values ∷ one_call ∷ [])
      ≡ call_stats ps)
    × AddUp whole_numbers one_call (take 1 (values ∷ one_call ∷ [])) ps
get_call_stats-AddUp_example =
    get_call_stats-AddUp whole_numbers 1 one_call (values ∷ one_call ∷ [])
      (omega arith, omega arith, omega arith, omega arith)
      (
        (omega arith, omega arith, omega arith, omega arith),
        ((omega arith, omega arith, omega arith, omega arith), tt),
      )

-- ===== src/Gate/Stats.antt =====
-- src/gate/stats.go: the counters of a tenant. Calls add to them in memory, a goroutine writes what was added to the
-- database from time to time, and other gates add to the same document. Each definition is what happens
-- between two waits or locks.
pub mod Runs
pub mod Periods
use swifty.Base.{
  ℕ, zero, suc, ◌+◌, ◌-◌, ◌*◌, ◌%◌, ◌^◌, Bool, true, false, Option, none, some, List, [], ◌∷◌, ◌++◌,
  if◌then◌else◌, take, is_none,
}
use swifty.Base.Floats.{Floats}
use swifty.Effects.{Error}
use swifty.Gate.Errors.{ReqErr, gate_err_d}

-- gmgo.TenStatValues.
pub record TenStatValues : Type 0 where
  pub called : ℕ
  pub run_cost : ℕ
  pub bytes_in : ℕ
  pub bytes_out : ℕ

abbrev pub no_calls : TenStatValues
no_calls = record { called = 0; run_cost = 0; bytes_in = 0; bytes_out = 0 }

-- + and - of uint64.
pub add64 : ℕ → ℕ → ℕ
add64 a b = (a + b) % 2 ^ 64

unfoldable pub sub64 : ℕ → ℕ → ℕ
sub64 a b = (a + (2 ^ 64 - b)) % 2 ^ 64

pub add : TenStatValues → TenStatValues → TenStatValues
unfolding add64
add a b = record {
  called = add64 a.called b.called;
  run_cost = add64 a.run_cost b.run_cost;
  bytes_in = add64 a.bytes_in b.bytes_in;
  bytes_out = add64 a.bytes_out b.bytes_out;
}

-- The delta of TenStats.Write.
pub sub : TenStatValues → TenStatValues → TenStatValues
unfolding sub64
sub a b = record {
  called = sub64 a.called b.called;
  run_cost = sub64 a.run_cost b.run_cost;
  bytes_in = sub64 a.bytes_in b.bytes_in;
  bytes_out = sub64 a.bytes_out b.bytes_out;
}

-- Where the flushing goroutine is: in its select, after it has sent a request, in Write with the values that
-- it has read, or at its end.
pub data Phase : Type 0 where
  waiting requested over : Phase
  writing : TenStatValues → Phase

-- TenStats with its statsFlush, and the document in the database; also how many calls are counted but not yet
-- marked by Dirty, whether the last Write failed, and what this gate and the others have counted.
pub record TenStats : Type 0 where
  pub values : TenStatValues
  pub on_disk : TenStatValues
  pub dirty : Bool
  pub phase : Phase
  pub document : TenStatValues
  pub unmarked : ℕ
  pub failed : Bool
  pub counted : TenStatValues
  pub others : TenStatValues

-- TenStats.Init.
unfoldable pub init : TenStatValues → TenStats
init v = record {
  values = v;
  on_disk = v;
  dirty = false;
  phase = waiting;
  document = v;
  unmarked = 0;
  failed = false;
  counted = no_calls;
  others = no_calls;
}

-- statsUpdate: what it adds under td.lock, and td.stats.Dirty() after it.
unfoldable pub count : TenStatValues → TenStats → TenStats
unfolding add
count v st = record st {
  values = add st.values v;
  unmarked = suc st.unmarked;
  counted = add st.counted v;
}

unfoldable pub mark_dirty : TenStats → TenStats
mark_dirty st = record st { dirty = true; unmarked = st.unmarked - 1 }

-- A tick of Start's select.
unfoldable pub tick : TenStats → TenStats
tick st = if st.dirty then record st { dirty = false; phase = requested } else st

-- TenStats.Write: it reads the values, and then asks the database.
unfoldable pub begin_write : TenStats → TenStats
begin_write st = record st { phase = writing st.values }

unfoldable pub end_write : TenStatValues → Option Error → TenStats → TenStats
unfolding add sub
end_write now none st = record st {
  document = add st.document (sub now st.on_disk);
  on_disk = now;
  failed = false;
  phase = waiting;
}
end_write now (some e) st = record st { failed = true; phase = waiting }

-- Stop.
pub stop : TenStats → TenStats
stop st = record st { phase = over }

-- A Write of another gate.
unfoldable pub add_other : TenStatValues → TenStats → TenStats
unfolding add
add_other v st = record st { document = add st.document v; others = add st.others v }

-- swyapi.TenantStatsFn, less the times.
pub record Period (fl : Floats) : Type 0 where
  pub called : ℕ
  pub gbs : fl.Float64
  pub bytes_out : ℕ

pub data CallStats (fl : Floats) : Type 0 where
  call_stats : List (Period fl) → CallStats fl
  refused : ReqErr → CallStats fl

module _ (fl : Floats) where
  -- GBS; time.Second is 10^9.
  unfoldable pub gbs_of : ℕ → fl.Float64
  gbs_of cost = fl.quotient (fl.of_uint64 cost) (fl.of_uint64 (1024 * 1000000000))

  pub difference : TenStatValues → TenStatValues → Period fl
  unfolding sub64
  difference prev cur = record {
    called = sub64 prev.called cur.called;
    gbs = gbs_of (sub64 prev.run_cost cur.run_cost);
    bytes_out = sub64 prev.bytes_out cur.bytes_out;
  }

  pub rest_period : TenStatValues → Period fl
  rest_period prev = record {
    called = prev.called;
    gbs = gbs_of prev.run_cost;
    bytes_out = prev.bytes_out;
  }

  -- The loop of getCallStats, over the archived values, the latest first.
  pub periods_loop : TenStatValues → List TenStatValues → List (Period fl)
  unfolding difference rest_period
  periods_loop prev [] = rest_period prev ∷ []
  periods_loop prev (cur ∷ atst) = difference prev cur ∷ periods_loop cur atst

  -- getCallStats; `archive` is what dbTenStatsGetArch answers.
  pub get_call_stats : ℕ → TenStatValues → Option Error → List TenStatValues → CallStats fl
  unfolding periods_loop
  get_call_stats zero now archive atst = call_stats (periods_loop now [])
  get_call_stats (suc n) now (some e) atst = refused (gate_err_d e)
  get_call_stats (suc n) now none atst = call_stats (periods_loop now (take (suc n) atst))

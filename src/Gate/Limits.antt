-- ===== src/Gate/Limits.antt =====
-- src/gate/fdmdat.go: whether a call of a function is let through.
pub mod Refund
pub mod Refusal
use swifty.Base.{
  ℕ, ◌+◌, ◌-◌, ◌%◌, ◌^◌, ◌/◌, Bool, true, false, not, ◌&&◌, Option, none, some, ltb, ◌==◌,
  if◌then◌else◌,
}
use swifty.Base.Floats.{Floats}
use swifty.Common.Ratelimit.{Rl, get, put}
use swifty.Gate.Stats.{gbs_of, sub64}

-- The buckets that a call passes: the function's, its tenant's, and the daemon's (`grl`).
pub record Buckets : Type 0 where
  pub own : Option Rl
  pub tenant : Option Rl
  pub common : Option Rl

-- `rl != nil && !rl.Get()`, negated.
abbrev pub passes : Option Rl → ℕ → Option Rl × Bool
passes none now = (none, true)
passes (some rl) now = (some (get rl now).0, (get rl now).1)

-- `if rl != nil { rl.Put() }`.
abbrev pub put_back : Option Rl → Option Rl
put_back none = none
put_back (some rl) = some (put rl)

-- FnMemData.ratelimited, with what the clock says at each Get.
pub ratelimited : Buckets → ℕ → ℕ → ℕ → Buckets × Bool
ratelimited b t1 t2 t3 =
    let (own, ok_own) = passes b.own t1 in
    let (tenant, ok_tenant) = passes b.tenant t2 in
    let (common, ok_common) = passes b.common t3 in
    if not ok_own
    then (record b { own = own }, true)
    else if not ok_tenant
    then (record b { own = put_back own; tenant = tenant }, true)
    else if not ok_common
    then (record { own = put_back own; tenant = put_back tenant; common = common }, true)
    else (record { own = own; tenant = tenant; common = common }, false)

-- What rslimited reads of TenantMemData: the cost counted, in uint64s, with the offset and the limit of its GB*seconds
-- in float64s, and the bytes, all in uint64s. A limit of 0 is none.
pub record Usage (fl : Floats) : Type 0 where
  pub run_cost : ℕ
  pub gbs_off : fl.Float64
  pub gbs_limit : fl.Float64
  pub bytes_out : ℕ
  pub bytes_off : ℕ
  pub bytes_limit : ℕ

module _ (fl : Floats) where
  -- FnMemData.rslimited.
  pub rslimited : Usage fl → Bool
  rslimited u =
      let out_limited : Bool =
        not (u.bytes_limit == 0) && ltb u.bytes_limit (sub64 u.bytes_out u.bytes_off) in
      if fl.differs u.gbs_limit (fl.of_uint64 0)
        && fl.above (fl.minus (gbs_of fl u.run_cost) u.gbs_off) u.gbs_limit
      then true
      else out_limited

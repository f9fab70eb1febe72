-- ===== src/Gate/Function/Size.antt =====
-- src/gate/function.go: the size of a function, fnFixSize and setSize, with the rate limiter that the
-- function's data in memory (src/gate/fdmdat.go) keeps.
use swifty.Base.{
  ℕ, ◌*◌, ◌≤◌, ◌<◌, ◌≡◌, ◌⊎◌, inl, inr, Bool, true, ◌&&◌, ◌||◌, ltb, ◌==◌, if◌then◌else◌, arith,
}
use swifty.Effects.{Error, failure}

-- FunctionSize of the API, and the like fields of FnSizeDesc.
pub record FunctionSize : Type 0 where
  pub timeout : ℕ
  pub memory : ℕ
  pub rate : ℕ
  pub burst : ℕ

-- What fnFixSize reads of the configuration: seconds and megabytes; `lite` is isLite().
pub record Limits : Type 0 where
  pub tmo_def : ℕ
  pub tmo_max : ℕ
  pub mem_def : ℕ
  pub mem_min : ℕ
  pub mem_max : ℕ
  pub lite : Bool

fix_memory : Limits → FunctionSize → FunctionSize ⊎ Error
fix_memory c sz =
    if sz.memory == 0
    then inl (record sz { memory = c.mem_def })
    else if ltb c.mem_max sz.memory || ltb sz.memory c.mem_min
    then inr (failure "Too small/big memory size")
    else inl sz

cap_timeout : Limits → FunctionSize → FunctionSize
cap_timeout c sz = if c.lite && ltb 3000 sz.timeout then record sz { timeout = 3000 } else sz

-- fnFixSize: the size that is left, or the error.
unfoldable pub fix_size : Limits → FunctionSize → FunctionSize ⊎ Error
unfolding fix_memory cap_timeout
fix_size c sz =
    if sz.timeout == 0
    then fix_memory c (cap_timeout c (record sz { timeout = c.tmo_def * 1000 }))
    else if ltb (c.tmo_max * 1000) sz.timeout
    then inr (failure "Too big timeout")
    else fix_memory c (cap_timeout c sz)

-- Defaults that are within the limits.
pub record IsSound (c : Limits) : Type 0 where
  pub tmo_some : 0 < c.tmo_def
  pub tmo_fits : c.tmo_def ≤ c.tmo_max
  pub mem_some : 0 < c.mem_def
  pub mem_low : c.mem_min ≤ c.mem_def
  pub mem_high : c.mem_def ≤ c.mem_max

pub record Within (c : Limits) (sz : FunctionSize) : Type 0 where
  pub tmo_pos : 0 < sz.timeout
  pub tmo_le : sz.timeout ≤ c.tmo_max * 1000
  pub tmo_lite : c.lite ≡ true → sz.timeout ≤ 3000
  pub mem_pos : 0 < sz.memory
  pub mem_ge : c.mem_min ≤ sz.memory
  pub mem_le : sz.memory ≤ c.mem_max

-- Under defaults within the limits, fnFixSize leaves only sizes within the limits, and rates as they
-- were; and a size that it leaves, it leaves again.
pub fix_size-Within :
    (c : Limits) (sz sz' : FunctionSize)
    → IsSound c
    → fix_size c sz ≡ inl sz'
    → Within c sz' × (sz'.rate ≡ sz.rate) × (sz'.burst ≡ sz.burst) × (fix_size c sz' ≡ inl sz')
unfolding fix_size
fix_size-Within c sz sz' s h = ground arith

pub fix_size-burst :
    (c : Limits) (sz : FunctionSize) {sz' : FunctionSize}
    → fix_size c sz ≡ inl sz'
    → sz'.burst ≡ sz.burst
unfolding fix_size
fix_size-burst c sz h = ground arith

-- ===== src/Gate/Function/Resize.antt =====
-- src/gate/function.go: setSize, with the limiter that the function's data in memory
-- (src/gate/fdmdat.go) keeps.
use swifty.Base.{
  ℕ, ◌+◌, ◌^◌, ◌<◌, ◌≡◌, ◌≢◌, ◌⊎◌, inl, inr, Bool, true, false, not, ◌&&◌, ◌||◌, Option, none, some,
  [], ◌==◌, if◌then◌else◌, arith, refl, sym, ap,
}
use swifty.Effects.{Error, Env, M, pure, call, note, ◌>>=◌, ◌>>◌}
use swifty.Gate.Errors.{ReqErr, gate_err_d, gate_err_e, gate_gen_err}
use swifty.Common.Ratelimit.{Rl, update, make_rl_base}
use swifty.Gate.Function.{FuncState, rdy, Call, k8s_update}
use swifty.Gate.Function
use swifty.Gate.Function.Size.{FunctionSize, Limits, fix_size, fix_size-burst}

-- The fields of FunctionDesc and of FnMemData that setSize touches.
pub record Sized : Type 0 where
  pub state : FuncState
  pub size : FunctionSize

pub record FnMem : Type 0 where
  pub mem : ℕ
  pub crl : Option Rl

-- xrl.MakeRL: a second's worth of nanoseconds.
abbrev pub make_rl : ℕ → ℕ → ℕ → Rl
make_rl now burst eps = make_rl_base now burst eps 1000000000

-- The limiter that is left for a rate.
fix_limiter : ℕ → FunctionSize → Option Rl → Option Rl
fix_limiter now sz none = if sz.rate == 0 then none else some (make_rl now sz.burst sz.rate)
fix_limiter now sz (some rl) = if sz.rate == 0 then none else some (update rl now sz.burst sz.rate)

abbrev differ : ℕ → ℕ → Bool
differ a b = not (a == b)

abbrev is_rdy : FuncState → Bool
is_rdy rdy = true
is_rdy _ = false

-- What happens to the data in memory: `mfix` and `rlfix` say what has changed.
fix_mem : ℕ → Bool → Bool → FunctionSize → Option FnMem → Option FnMem
unfolding fix_limiter
fix_mem now mfix rlfix sz none = none
fix_mem now mfix rlfix sz (some fdm) = some (record {
  mem = if mfix then sz.memory else fdm.mem;
  crl = if rlfix then fix_limiter now sz fdm.crl else fdm.crl;
})

abbrev restart : Env Call → Bool → M Call (Unit {0})
restart env true = note k8s_update
restart env false = pure tt

-- setSize from the comparison with the old size on.
apply_size :
    Env Call
    → ℕ
    → Sized
    → Option FnMem
    → FunctionSize
    → M Call (Sized × Option FnMem × Option ReqErr)
unfolding fix_mem
apply_size env now fn fdm sz =
    let tfix = differ fn.size.timeout sz.timeout in
    let mfix = differ fn.size.memory sz.memory in
    let rlfix = differ sz.rate fn.size.rate || differ sz.burst fn.size.burst in
    let fn' = record fn { size = sz } in
    if tfix || mfix || rlfix
    then (do
      r ← call env Function.update
      elim r [
        | some e ↦ pure (fn', fdm, some (gate_err_d e))
        | none ↦ do
          restart env ((tfix || mfix) && is_rdy fn.state)
          pure (fn', fix_mem now mfix rlfix sz fdm, none)
      ])
    else pure (fn, fdm, none)

-- setSize at the time `now`.
unfoldable pub set_size :
    Env Call
    → Limits
    → ℕ
    → Sized
    → Option FnMem
    → FunctionSize
    → M Call (Sized × Option FnMem × Option ReqErr)
unfolding apply_size
set_size env c now fn fdm asked = elim (fix_size c asked) [
  | inr e ↦ pure (fn, fdm, some (gate_err_e gate_gen_err e))
  | inl sz ↦ apply_size env now fn fdm sz
]

-- The limiter in memory is there exactly if the rate is not 0, and has the size's rate and capacity.
abbrev pub LimiterFits : FunctionSize → Option Rl → Type 0
LimiterFits sz none = sz.rate ≡ 0
LimiterFits sz (some rl) = (0 < sz.rate) × (rl.eps ≡ sz.rate) × (rl.burst ≡ sz.burst + 1)

abbrev pub Fits : FunctionSize → Option FnMem → Type 0
Fits sz none = Unit {0}
Fits sz (some fdm) = (fdm.mem ≡ sz.memory) × LimiterFits sz fdm.crl

apply_size-Fits :
    (env : Env Call) (now : ℕ) (fn : Sized) (fdm : Option FnMem) (sz : FunctionSize)
    → sz.burst + 1 < 2 ^ 64
    → Fits fn.size fdm
    → (apply_size env now fn fdm sz []).0.2 ≡ none
    → let r = (apply_size env now fn fdm sz []).0 in (r.0.size ≡ sz) × Fits r.0.size r.1
unfolding apply_size update make_rl_base
apply_size-Fits env now fn none sz b f h = ground arith
apply_size-Fits env now fn (some fdm) sz b f h = ground arith

set_size_err :
    (env : Env Call) (c : Limits) (now : ℕ) (fn : Sized) (fdm : Option FnMem) (asked : FunctionSize)
    (e : Error)
    → fix_size c asked ≡ inr e
    → (set_size env c now fn fdm asked []).0.2 ≢ none
unfolding set_size
set_size_err env c now fn fdm asked e p = rw (p, set_size) (λ h. cc)

set_size_fixed :
    (env : Env Call) (c : Limits) (now : ℕ) (fn : Sized) (fdm : Option FnMem)
    (asked sz : FunctionSize)
    → fix_size c asked ≡ inl sz
    → sz.burst + 1 < 2 ^ 64
    → Fits fn.size fdm
    → (set_size env c now fn fdm asked []).0.2 ≡ none
    → let r = (set_size env c now fn fdm asked []).0 in
      (fix_size c asked ≡ inl r.0.size) × Fits r.0.size r.1
unfolding set_size
set_size_fixed env c now fn fdm asked sz p b f =
    rw (p, set_size) λ h. let r = apply_size-Fits env now fn fdm sz b f h in (ap inl (sym r.0), r.1)

-- When setSize reports no error, the function has the size that fnFixSize leaves, and data in memory
-- that fitted the old size fits the new one (the burst leaving room for the limiter's `+ 1`).
pub set_size-Fits :
    (env : Env Call) (c : Limits) (now : ℕ) (fn : Sized) (fdm : Option FnMem) (asked : FunctionSize)
    → asked.burst + 1 < 2 ^ 64
    → Fits fn.size fdm
    → (set_size env c now fn fdm asked []).0.2 ≡ none
    → let r = (set_size env c now fn fdm asked []).0 in
      (fix_size c asked ≡ inl r.0.size) × Fits r.0.size r.1
set_size-Fits env c now fn fdm asked b f h = go (fix_size c asked) refl
  where
    go :
        (s : FunctionSize ⊎ Error)
        → fix_size c asked ≡ s
        → let r = (set_size env c now fn fdm asked []).0 in
          (fix_size c asked ≡ inl r.0.size) × Fits r.0.size r.1
    go (inr e) p = absurd (set_size_err env c now fn fdm asked e p h)
    go (inl sz) p =
        set_size_fixed env c now fn fdm asked sz p (omega (arith, fix_size-burst c asked p)) f h

-- ===== src/Base/Floats.antt =====
-- Go's float64, as far as the code computes with it. No law is asked of it.
use Prim.Native.Nat.{ℕ}
use mathlib.Core.Bool.{Bool}

pub record Floats : Type 1 where
  pub Float64 : Type 0
  -- The conversion of a uint64, and -, /, > and !=.
  pub of_uint64 : ℕ → Float64
  pub minus : Float64 → Float64 → Float64
  pub quotient : Float64 → Float64 → Float64
  pub above : Float64 → Float64 → Bool
  pub differs : Float64 → Float64 → Bool

-- ===== src/Common/Xtimer.antt =====
-- src/common/xtimer/timer.go: a timer that is created, started once and cancelled once, under the one lock of
-- the package. The functions are the pieces of code between two points at which a goroutine can wait.
pub mod Runs
use swifty.Base.{ℕ, ◌+◌, Bool, true, false, if◌then◌else◌}

-- The goroutine of Start: not there yet, in its select, past time.After and at the lock, about to call
-- back, or at its end.
pub data Worker : Type 0 where
  absent selecting at_lock calling over : Worker

-- The call of Cancel: not there yet, sending on the channel with the lock held, or returned.
pub data Canceller : Type 0 where
  idle sending : Canceller
  returned : Bool → Canceller

-- A timer: whether the map has it, whether it is canceled, and how often it has called back.
pub record Timer : Type 0 where
  pub present : Bool
  pub canceled : Bool
  pub worker : Worker
  pub canceller : Canceller
  pub calls : ℕ

-- Create.
abbrev pub created : Timer
created = record { present = true; canceled = false; worker = absent; canceller = idle; calls = 0 }

-- Start, with the lock taken and given back.
unfoldable pub start : Timer → Timer
start t = if t.present then record t { worker = selecting } else t

-- The goroutine's branch of time.After, up to its lock, and from there to the unlocking.
unfoldable pub expire : Timer → Timer
expire t = record t { worker = at_lock }

unfoldable pub settle : Timer → Timer
settle t =
    if t.canceled
    then record t { worker = over }
    else record t { present = false; worker = calling }

unfoldable pub call_back : Timer → Timer
call_back t = record t { worker = over; calls = t.calls + 1 }

-- Cancel, up to the sending on the channel, or to its end.
unfoldable pub cancel : Timer → Timer
cancel t =
    if t.present
    then record t { present = false; canceled = true; canceller = sending }
    else record t { canceller = returned false }

-- The goroutine receives what Cancel sends, and both go on.
unfoldable pub receive : Timer → Timer
receive t = record t { worker = over; canceller = returned true }

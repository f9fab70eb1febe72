-- ===== src/Common/Xwait.antt =====
-- src/common/xwait/xwait.go: one waiter, the events for its key, and its time limit. The functions are the
-- pieces of code between two points at which a goroutine can wait; the goroutine of serve handles one
-- request after the other.
pub mod Runs
use swifty.Base.{ℕ, ◌+◌, ◌-◌, Bool, true, false, if◌then◌else◌}

-- Where the waiter's goroutine is: outside of Wait, past AfterFunc with the lock held, in the queue of the
-- condition, signalled and at the lock, or about to return.
pub data Phase : Type 0 where
  outside armed queued signalled : Phase
  returning : Bool → Phase

-- The timer of AfterFunc: stopped, running, or expired.
pub data Alarm : Type 0 where
  off running expired : Alarm

-- `rings` counts the functions of expired timers that have not signalled yet.
pub record Waiter : Type 0 where
  pub evt : Bool
  pub phase : Phase
  pub alarm : Alarm
  pub rings : ℕ

-- Prepare.
abbrev pub prepared : Waiter
prepared = record { evt = false; phase = outside; alarm = off; rings = 0 }

-- Signal wakes a goroutine in the condition's queue, and is lost when none is.
abbrev pub signal : Phase → Phase
signal queued = signalled
signal p = p

-- Wait up to wake.Wait, or to its end when there was an event.
unfoldable pub wait : Waiter → Waiter
wait w =
    if w.evt
    then record w { evt = false; phase = returning false }
    else record w { phase = armed; alarm = running }

-- wake.Wait, which gives the lock back.
unfoldable pub enqueue : Waiter → Waiter
enqueue w = record w { phase = queued }

-- The timer expires, and its function is begun.
unfoldable pub expire : Waiter → Waiter
expire w = record w { alarm = expired; rings = w.rings + 1 }

-- The function of AfterFunc.
unfoldable pub ring : Waiter → Waiter
ring w = record w { phase = signal w.phase; rings = w.rings - 1 }

-- serve, at an event for the waiter's key, with the waiter's lock.
unfoldable pub serve_event : Waiter → Waiter
serve_event w = if w.evt then w else record w { evt = true; phase = signal w.phase }

-- t.Stop: a timer that has expired is not called back.
abbrev stop : Alarm → Alarm
stop running = off
stop a = a

-- The rest of Wait, with the lock: true stands for the time limit. (What is left of the limit, which Wait puts into
-- `*tmo`, is not followed: each Wait here may have any limit.)
unfoldable pub wake_up : Waiter → Waiter
wake_up w =
    if w.evt
    then record w { evt = false; phase = returning false; alarm = stop w.alarm }
    else record w { phase = returning true; alarm = stop w.alarm }

unfoldable pub return : Waiter → Waiter
return w = record w { phase = outside }

-- ===== src/Tests/Waits.antt =====
-- Timers and waiters (src/common/xtimer, src/common/xwait).
use swifty.Base.{◌≡◌, ◌≢◌, ◌≤◌, ◌⊎◌, ◌↔◌, refl, true, false}
use swifty.Common.Xtimer.{Timer, calling, over, selecting, returned, start, expire, cancel}
use swifty.Common.Xtimer.Runs as TimerRuns
use swifty.Common.Xtimer.Runs.{at_lock_sending, at_lock_sending-Reach, reach-calls, stuck_iff}
use swifty.Common.Xwait.{signalled, returning, enqueue, serve_event, wake_up}
use swifty.Common.Xwait.Runs.{overslept, overslept-Reach, reach-wakes}

-- The timer expires, and Cancel takes the lock before the goroutine does.
reach-calls_example :
    (at_lock_sending.calls ≤ 1)
    × (at_lock_sending.canceller ≡ returned true
        → (at_lock_sending.calls ≡ 0) × (at_lock_sending.worker ≡ over))
    × (at_lock_sending.canceller ≡ returned false
        → (at_lock_sending.worker ≡ calling) ⊎ (at_lock_sending.calls ≡ 1))
reach-calls_example = reach-calls at_lock_sending-Reach

stuck_iff_example :
    ((u : Timer) → ¬ (TimerRuns.Step at_lock_sending u)) ↔ (at_lock_sending.worker ≢ selecting)
unfolding cancel expire start
stuck_iff_example = stuck_iff at_lock_sending-Reach refl

reach-wakes_example :
    (overslept.evt ≡ false)
    × ((serve_event overslept).phase ≡ signalled)
    × ((wake_up (serve_event overslept)).phase ≡ returning false)
unfolding enqueue
reach-wakes_example = reach-wakes overslept-Reach refl

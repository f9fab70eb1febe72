-- ===== src/Common/Xtimer/Runs.antt =====
-- The runs of a timer (src/common/xtimer/timer.go): what can follow what, and what holds then.
use swifty.Base.{◌≡◌, ◌≢◌, ◌≤◌, refl, ◌⊎◌, ◌↔◌, true, false, arith}
use swifty.Common.Xtimer.{
  absent, selecting, at_lock, calling, over, idle, sending, returned, Timer, created, start, expire,
  settle, call_back, cancel, receive,
}

-- Whether nobody holds the lock: only Cancel keeps it while it waits.
abbrev Unlocked : Timer → Type 0
Unlocked t = t.canceller ≢ sending

pub data Step (t : Timer) : Timer → Type 0 where
  starts : Unlocked t → t.worker ≡ absent → Step t (start t)
  expires : t.worker ≡ selecting → Step t (expire t)
  settles : Unlocked t → t.worker ≡ at_lock → Step t (settle t)
  calls_back : t.worker ≡ calling → Step t (call_back t)
  cancels : t.canceller ≡ idle → Step t (cancel t)
  receives : t.canceller ≡ sending → t.worker ≡ selecting → Step t (receive t)

pub data Reach : Timer → Type 0 where
  new : Reach created
  next : {t u : Timer} → Reach t → Step t u → Reach u

-- What a timer has called, by where its goroutine is.
record IsSound (t : Timer) : Type 0 where
  there : t.present ≡ true → (t.canceled ≡ false) × (t.canceller ≡ idle) × (t.calls ≡ 0)
  not_called : t.worker ≢ over → t.calls ≡ 0
  once : t.calls ≤ 1
  to_call : t.worker ≡ calling → (t.canceled ≡ false) × (t.present ≡ false)
  sent : t.canceller ≡ sending → (t.canceled ≡ true) × (t.calls ≡ 0) × (t.present ≡ false)
  stopped :
      t.canceller ≡ returned true
      → (t.canceled ≡ true) × (t.calls ≡ 0) × (t.worker ≡ over) × (t.present ≡ false)
  absent_present : t.present ≡ true → (t.worker ≢ calling) × (t.worker ≢ over)
  fired : t.present ≡ false → t.canceller ≡ idle → (t.worker ≡ calling) ⊎ (t.calls ≡ 1)
  missed : t.canceller ≡ returned false → (t.worker ≡ calling) ⊎ (t.calls ≡ 1)
  running : t.worker ≡ selecting → t.canceller ≡ idle → t.present ≡ true

created-IsSound : IsSound created
created-IsSound = ground arith

Step-IsSound : {t u : Timer} → Step t u → IsSound t → IsSound u
unfolding start expire settle call_back cancel receive
Step-IsSound (starts l w) s = ground arith
Step-IsSound (expires w) s = ground arith
Step-IsSound (settles l w) s = ground arith
Step-IsSound (calls_back w) s = ground arith
Step-IsSound (cancels c) s = ground arith
Step-IsSound (receives c w) s = ground arith

Reach-IsSound : {t : Timer} → Reach t → IsSound t
Reach-IsSound new = created-IsSound
Reach-IsSound (next r st) = Step-IsSound st (Reach-IsSound r)

-- In any run of a timer that is started and cancelled at most once: it calls back at most once; when Cancel
-- has returned true, it has not called back and its goroutine is at its end; when Cancel has returned
-- false, it has called back or is about to.
pub reach-calls :
    {t : Timer}
    → Reach t
    → (t.calls ≤ 1)
      × (t.canceller ≡ returned true → (t.calls ≡ 0) × (t.worker ≡ over))
      × (t.canceller ≡ returned false → (t.worker ≡ calling) ⊎ (t.calls ≡ 1))
reach-calls r =
    let s = Reach-IsSound r in (s.once, λ c. ((s.stopped c).1, (s.stopped c).2), s.missed)

-- No step of a sound timer whose Cancel sends, but the receiving.
only_receives :
    {t u : Timer} → IsSound t → t.canceller ≡ sending → t.worker ≢ selecting → Step t u → ⊥
only_receives s c w (starts l a) = l c
only_receives s c w (expires a) = w a
only_receives s c w (settles l a) = l c
only_receives s c w (calls_back a) = ground (arith, s.to_call a, s.sent c)
only_receives s c w (cancels i) = ground arith
only_receives s c w (receives _ a) = w a

-- In any run, a Cancel that sends, with the lock held, is stuck for good exactly when the goroutine is not in
-- its select: when it was not started, or has gone on to the lock.
pub stuck_iff :
    {t : Timer}
    → Reach t
    → t.canceller ≡ sending
    → ((u : Timer) → ¬ (Step t u)) ↔ (t.worker ≢ selecting)
stuck_iff {t} r c =
    (λ stuck w. stuck (receive t) (receives c w), λ w u st. only_receives (Reach-IsSound r) c w st)

-- The timer expires, and Cancel takes the lock before the goroutine does.
abbrev pub at_lock_sending : Timer
at_lock_sending = cancel (expire (start created))

pub at_lock_sending-Reach : Reach at_lock_sending
unfolding cancel expire start
at_lock_sending-Reach =
    next (next (next new (starts (λ h. ground arith) refl)) (expires refl)) (cancels refl)

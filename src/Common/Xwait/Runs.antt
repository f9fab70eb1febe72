-- ===== src/Common/Xwait/Runs.antt =====
-- The runs of a waiter (src/common/xwait/xwait.go).
use swifty.Base.{◌<◌, ◌≡◌, ◌≢◌, refl, Bool, false, arith}
use swifty.Common.Xwait.{
  outside, armed, queued, signalled, returning, running, expired, Waiter, prepared, wait, enqueue,
  expire, ring, serve_event, wake_up, return,
}

-- What happens next; the waiter's lock is held from the arming of the alarm to the queue.
pub data Step (w : Waiter) : Waiter → Type 0 where
  waits : w.phase ≡ outside → Step w (wait w)
  enqueues : w.phase ≡ armed → Step w (enqueue w)
  expires : w.alarm ≡ running → Step w (expire w)
  rings : 0 < w.rings → Step w (ring w)
  event : w.phase ≢ armed → Step w (serve_event w)
  wakes : w.phase ≡ signalled → Step w (wake_up w)
  returns : (b : Bool) → w.phase ≡ returning b → Step w (return w)

pub data Reach : Waiter → Type 0 where
  new : Reach prepared
  next : {v w : Waiter} → Reach v → Step v w → Reach w

record IsSound (w : Waiter) : Type 0 where
  no_event : w.phase ≡ queued → w.evt ≡ false
  no_event_armed : w.phase ≡ armed → w.evt ≡ false

Step-IsSound : {v w : Waiter} → Step v w → IsSound v → IsSound w
unfolding wait enqueue expire ring serve_event wake_up return
Step-IsSound (waits p) s = ground arith
Step-IsSound (enqueues p) s = ground arith
Step-IsSound (expires p) s = ground arith
Step-IsSound (rings p) s = ground arith
Step-IsSound (event p) s = ground arith
Step-IsSound (wakes p) s = ground arith
Step-IsSound (returns b p) s = ground arith

Reach-IsSound : {w : Waiter} → Reach w → IsSound w
Reach-IsSound new = ground arith
Reach-IsSound (next r st) = Step-IsSound st (Reach-IsSound r)

-- In any run, a waiter in the condition's queue has seen every event for its key, the next event takes it out
-- of the queue, and then Wait returns false.
pub reach-wakes :
    {w : Waiter}
    → Reach w
    → w.phase ≡ queued
    → (w.evt ≡ false)
      × ((serve_event w).phase ≡ signalled)
      × ((wake_up (serve_event w)).phase ≡ returning false)
unfolding serve_event wake_up
reach-wakes r q = let s = Reach-IsSound r in ground arith

-- A waiter in the queue, whose timer has expired and has no function left that is to signal, is woken by an
-- event only: nothing else happens to it.
pub expired-needs_event :
    {v w : Waiter}
    → v.phase ≡ queued
    → v.alarm ≡ expired
    → v.rings ≡ 0
    → Step v w
    → w ≡ serve_event v
expired-needs_event q a n (waits p) = ground arith
expired-needs_event q a n (enqueues p) = ground arith
expired-needs_event q a n (expires p) = ground arith
expired-needs_event q a n (rings p) = ground arith
expired-needs_event q a n (event p) = refl
expired-needs_event q a n (wakes p) = ground arith
expired-needs_event q a n (returns b p) = ground arith

-- The timer expires and signals before the waiter is in the queue.
abbrev pub overslept : Waiter
overslept = enqueue (ring (expire (wait prepared)))

pub overslept-Reach : Reach overslept
unfolding enqueue ring expire wait
overslept-Reach =
    next (next (next (next new (waits refl)) (expires refl)) (rings (omega arith))) (enqueues refl)

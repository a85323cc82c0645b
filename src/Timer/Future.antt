-- ===== src/Timer/Future.antt =====
-- mizu/lib/ktime/src/timer.rs, `Timer`: a future and a stream of instants. `Timer::now` and the
-- waker of the context are arguments.
use umi.Base.{ℕ, Bool, true, false, leb, Option, none, some, if◌then◌else◌, Run, done, panic}
use umi.Crates.{MpMcQueue}
use umi.Instant.{Instant, Duration, checked_add, add}
use umi.Timer.{TimerBatch, TimerQueue, pending_cap, duration_max, insert_timer, remove_timer}

pub record Timer (Waker : Type 0) : Type 0 where
  pub deadline : Instant
  pub finished : Bool
  pub period : Duration
  pub handle : Option (ℕ × Waker)

-- `core::task::Poll` of the stream, whose items are never `None`.
pub data Poll : Type 0 where
  pending : Poll
  ready : Instant → Poll

module _ {Waker : Type 0} (will_wake : Waker → Waker → Bool)
    (mq : MpMcQueue (TimerBatch Waker) pending_cap) where
  abbrev pub State : Type 0
  State = Timer Waker × TimerQueue mq

  unfoldable pub new_deadline : Instant → Timer Waker
  new_deadline deadline = record {
    deadline = deadline;
    finished = false;
    period = duration_max;
    handle = none;
  }

  unfoldable pub new_period_at : Run Instant → Duration → Run (Timer Waker)
  new_period_at panic period = panic
  new_period_at (done deadline) period =
      done (record { deadline = deadline; finished = false; period = period; handle = none })

  -- `Timer::period` and `Timer::after`.
  unfoldable pub new_period : Instant → Duration → Run (Timer Waker)
  new_period now period = new_period_at (add now period) period

  unfoldable pub new_after_at : Run Instant → Run (Timer Waker)
  new_after_at panic = panic
  new_after_at (done deadline) = done (new_deadline deadline)

  unfoldable pub new_after : Instant → Duration → Run (Timer Waker)
  new_after now duration = new_after_at (add now duration)

  -- The handle is taken, and its entry removed.
  unfoldable pub clear_handle : Option (ℕ × Waker) → Instant → TimerQueue mq → TimerQueue mq
  clear_handle none deadline q = q
  clear_handle (some (id, waker)) deadline q = remove_timer mq deadline id q

  -- `clear`, which `drop` does as well.
  unfoldable pub clear : State → State
  clear (t, q) = (record t { handle = none }, clear_handle t.handle t.deadline q)

  unfoldable pub set_deadline : Instant → State → State
  set_deadline deadline s = (
    record {
      deadline = deadline;
      finished = false;
      period = duration_max;
      handle = (clear s).0.handle;
    },
    (clear s).1,
  )

  unfoldable pub set_after_at : Run Instant → State → Run State
  set_after_at panic s = panic
  set_after_at (done deadline) s = done (set_deadline deadline s)

  unfoldable pub set_after : Instant → Duration → State → Run State
  set_after now duration s = set_after_at (add now duration) s

  unfoldable pub set_period_at : Run Instant → Duration → State → Run State
  set_period_at panic period s = panic
  set_period_at (done deadline) period s = done (
    record { deadline = deadline; finished = false; period = period; handle = (clear s).0.handle },
    (clear s).1,
  )

  unfoldable pub set_period : Instant → Duration → State → Run State
  set_period now period s = set_period_at (add now period) period s

  unfoldable pub register : Timer Waker → Waker → TimerQueue mq → State
  register t waker q =
      let inserted = insert_timer mq t.deadline waker q in
      (record t { handle = some (inserted.1, waker) }, inserted.0)

  unfoldable pub restart : Option Instant → Timer Waker → Waker → TimerQueue mq → State
  restart none t waker q = (record t { handle = none; finished = true }, q)
  restart (some new) t waker q = register (record t { deadline = new; handle = none }) waker q

  -- A poll before the deadline.
  unfoldable pub wait : Option (ℕ × Waker) → Timer Waker → Waker → TimerQueue mq → State
  wait none t waker q = register t waker q
  wait (some (id, old)) t waker q =
      if will_wake old waker then (t, q) else register t waker (remove_timer mq t.deadline id q)

  unfoldable pub poll_next : Instant → Waker → State → State × Poll
  poll_next now waker (t, q) =
      if t.finished
      then ((t, q), pending)
      else if leb t.deadline now
      then (
        restart (checked_add t.deadline t.period) t waker (clear_handle t.handle t.deadline q),
        ready now,
      )
      else (wait t.handle t waker q, pending)

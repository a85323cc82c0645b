-- ===== src/Timer.antt =====
-- mizu/lib/ktime/src/timer.rs: the queue of timers, and the timers that register their wakers in it.
-- `critical` and the spin lock make a call one step, and `Instant::now` is an argument. A waker, of
-- `core::task`, is a parameter.
pub mod Batches
pub mod Future
pub mod Ticks
pub mod Polls
mod Tests
use umi.Base.{
  ℕ, zero, suc, ◌+◌, ◌*◌, ◌/◌, ◌%◌, ◌^◌, List, [], ◌∷◌, Bool, true, false, ltb, leb, not, Option,
  none, some, if◌then◌else◌, Run, done, panic, map,
}
use umi.Crates.{MpMcQueue}
use umi.BTree.{insert, remove, range_to, range_from}
use umi.Instant.{Instant, Duration, checked_add, add}

-- The key `(deadline, id)` of the heap: the order of the numbers is that of the pairs, since an id
-- is a `usize`.
unfoldable pub key : Instant → ℕ → ℕ
key deadline id = deadline * 2 ^ 64 + id

module _ (Waker : Type 0) where
  pub data TimerBatch : Type 0 where
    insert_batch : Instant → ℕ → Waker → TimerBatch
    remove_batch : Instant → ℕ → TimerBatch

abbrev pub pending_cap : ℕ
pending_cap = 128

-- `Duration::MAX`.
abbrev pub duration_max : Duration
duration_max = record { secs = 18446744073709551615; nanos = 999999999 }

unfoldable pub micros : ℕ → Duration
micros n = record { secs = n / 1000000; nanos = n % 1000000 * 1000 }

-- The heap with a batch in it: `insert` and `remove` of the map.
unfoldable pub apply_batch :
    {Waker : Type 0} → TimerBatch Waker → List (ℕ × Waker) → List (ℕ × Waker)
apply_batch (insert_batch deadline id waker) heap = insert (key deadline id) waker heap
apply_batch (remove_batch deadline id) heap = remove (key deadline id) heap

-- `self` of a tick, and the wakers that it wakes.
pub record Ticked (Queue Waker : Type 0) : Type 0 where
  pub queue : Queue
  pub woken : List Waker

module _ {Waker : Type 0} (mq : MpMcQueue (TimerBatch Waker) pending_cap) where
  -- The queue with the counter `ID`.
  pub record TimerQueue : Type 0 where
    pub heap : List (ℕ × Waker)
    pub pending : mq.Queue
    pub next_id : ℕ

  abbrev pub new_queue : TimerQueue
  new_queue = record { heap = []; pending = mq.new; next_id = 1 }

  -- The loop of `proc_batch` over what is pending, for as many rounds as the fuel.
  unfoldable pub drain_pending : ℕ → List (ℕ × Waker) → mq.Queue → List (ℕ × Waker) × mq.Queue
  drain_pending zero heap pending = (heap, pending)
  drain_pending (suc rounds) heap pending = elim ((mq.dequeue pending).1) [
    | none ↦ (heap, (mq.dequeue pending).0)
    | some batch ↦ drain_pending rounds (apply_batch batch heap) (mq.dequeue pending).0
  ]

  unfoldable pub more_batch : Option (TimerBatch Waker) → List (ℕ × Waker) → List (ℕ × Waker)
  more_batch none heap = heap
  more_batch (some batch) heap = apply_batch batch heap

  unfoldable pub proc_batch : Option (TimerBatch Waker) → TimerQueue → TimerQueue
  proc_batch more q =
      let drained = drain_pending pending_cap (more_batch more q.heap) q.pending in
      record q { heap = drained.0; pending = drained.1 }

  unfoldable pub submit : TimerBatch Waker → TimerQueue → TimerQueue
  submit batch q =
      if (mq.enqueue q.pending batch).1
      then record q { pending = (mq.enqueue q.pending batch).0 }
      else proc_batch (some batch) (record q { pending = (mq.enqueue q.pending batch).0 })

  -- `insert` of the timer queue, with the new `id`.
  unfoldable pub insert_timer : Instant → Waker → TimerQueue → TimerQueue × ℕ
  insert_timer deadline waker q = (
    submit (insert_batch deadline q.next_id waker)
        (record q { next_id = (q.next_id + 1) % 2 ^ 64 }),
    q.next_id,
  )

  unfoldable pub remove_timer : Instant → ℕ → TimerQueue → TimerQueue
  remove_timer deadline id q = submit (remove_batch deadline id) q

  unfoldable pub split_heap : Run Instant → TimerQueue → Run (Ticked TimerQueue Waker)
  split_heap panic q = panic
  split_heap (done limit) q = done (record {
    queue = record q { heap = range_from (key limit 0) q.heap };
    woken = map (λ e. e.1) (range_to (key limit 0) q.heap);
  })

  unfoldable pub tick : Instant → TimerQueue → Run (Ticked TimerQueue Waker)
  tick now q = split_heap (add now (micros 1)) (proc_batch none q)

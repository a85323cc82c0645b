-- ===== src/Timer/Tests.antt =====
-- Runs of the timer queue. A waker is a number that wakes its equal.
use umi.Base.{
  ℕ, ◌+◌, ◌/◌, ◌^◌, ◌≤◌, ◌<◌, ◌≡◌, inl, refl, List, [], ◌∷◌, ◌++◌, false, ◌==◌, none, some, done,
  arith, map, All, get_elem?, replicate,
}
use umi.Crates.Lists.{list_mpmc}
use umi.BTree.{get, insert}
use umi.Instant.{as_micros}
use umi.Timer.{
  TimerBatch, insert_batch, remove_batch, apply_batch, TimerQueue, Ticked, pending_cap, key, tick,
  remove_timer, duration_max,
}
use umi.Timer.Batches.{IsQueue, view, apply_all}
use umi.Timer.Ticks.{tick_lem}
use umi.Timer.Future.{Timer, pending, ready, poll_next}
use umi.Timer.Polls.{
  HasRoom, Waits, Waiting, IsTimer, batch_key, submit_all, remove_timer_full, poll_next_waits,
  tick_wakes, poll_next_fires,
}

-- The timers 1 and 2 are due at 5 and 9.
abbrev two : TimerQueue (list_mpmc {A = TimerBatch ℕ} pending_cap)
two = record { heap = (key 5 1, 100) ∷ []; pending = insert_batch 9 2 200 ∷ []; next_id = 3 }

two-IsQueue : IsQueue (list_mpmc pending_cap) two
unfolding IsQueue key
two-IsQueue = (omega arith, tt)

tick_lem_example :
    (t : Ticked (TimerQueue (list_mpmc {A = TimerBatch ℕ} pending_cap)) ℕ) × (due : List (ℕ × ℕ))
    × (tick (list_mpmc pending_cap) 6 two ≡ done t)
    × (view (list_mpmc pending_cap) two ≡ due ++ view (list_mpmc pending_cap) t.queue)
    × (t.woken ≡ map (λ e. e.1) due)
    × All (λ e. e.0 / 2 ^ 64 ≤ 6) due
    × All (λ e. 6 < e.0 / 2 ^ 64) (view (list_mpmc pending_cap) t.queue)
    × IsQueue (list_mpmc pending_cap) t.queue
tick_lem_example = tick_lem (list_mpmc pending_cap) 6 two two-IsQueue (omega arith)

abbrev alarm : Timer ℕ
alarm = record { deadline = 20; finished = false; period = duration_max; handle = none }

alarm-IsTimer : IsTimer (list_mpmc pending_cap) (λ a b. a == b) alarm two
unfolding IsTimer
alarm-IsTimer id w h = absurd (cc)

two-HasRoom : HasRoom (list_mpmc pending_cap) 2 two
unfolding HasRoom
two-HasRoom = omega arith

poll_next_waits_example :
    (s : Timer ℕ × TimerQueue (list_mpmc {A = TimerBatch ℕ} pending_cap)) × (id : ℕ) × (w : ℕ)
    × (poll_next (λ a b. a == b) (list_mpmc pending_cap) 10 300 (alarm, two) ≡ (s, pending))
    × Waiting (list_mpmc pending_cap) (λ a b. a == b) alarm s 300 id w
poll_next_waits_example =
    poll_next_waits (list_mpmc pending_cap) (λ a b. a == b) 10 alarm 300 two two-IsQueue
      alarm-IsTimer two-HasRoom (omega arith) refl (omega arith)

-- Its deadline has passed, and it is registered again, for a deadline in the far future.
poll_next_fires_example :
    (s : Timer ℕ) × (r : TimerQueue (list_mpmc {A = TimerBatch ℕ} pending_cap)) × (poll_next
        (λ a b. a == b)
        (list_mpmc pending_cap)
        30
        300
        (alarm, two)
      ≡ ((s, r), ready 30))
    × Waits (list_mpmc pending_cap) (λ a b. a == b) s r 300 3 300
    × IsQueue (list_mpmc pending_cap) r
    × (s.deadline ≡ 20 + as_micros duration_max)
    × (s.finished ≡ false)
unfolding as_micros
poll_next_fires_example =
    poll_next_fires (list_mpmc pending_cap) (λ a b. a == b) 30 alarm 300 two two-IsQueue two-HasRoom
      (omega arith) refl (omega arith) (omega arith)

-- The second timer, while another one is removed.
abbrev second : Timer ℕ
second = record { deadline = 9; finished = false; period = duration_max; handle = some (2, 200) }

second-Waits : Waits (list_mpmc pending_cap) (λ a b. a == b) second two 200 2 200
unfolding Waits view apply_all apply_batch get insert key
second-Waits = (refl, omega arith, refl, inl refl)

tick_wakes_example :
    (u : Ticked (TimerQueue (list_mpmc {A = TimerBatch ℕ} pending_cap)) ℕ) × (i : ℕ) × (tick
        (list_mpmc pending_cap)
        12
        (submit_all (list_mpmc pending_cap) (remove_batch 5 1 ∷ []) two)
      ≡ done u)
    × (get_elem? u.woken i ≡ some 200)
unfolding batch_key key
tick_wakes_example =
    tick_wakes (list_mpmc pending_cap) (λ a b. a == b) second two 200 200 2 12
      (remove_batch 5 1 ∷ []) two-IsQueue second-Waits ((λ e. absurd (omega arith)), tt)
      (omega arith) (omega arith)

-- A hundred and twenty-seven batches of another timer, and the insertion of this one.
abbrev full : TimerQueue (list_mpmc {A = TimerBatch ℕ} pending_cap)
full = record {
  heap = [];
  pending = replicate 127 (remove_batch 1 1) ++ insert_batch 9 2 200 ∷ [];
  next_id = 3;
}

remove_timer_full_example :
    get (key 9 2) (view (list_mpmc pending_cap) (remove_timer (list_mpmc pending_cap) 9 2 full))
    ≡ some 200
unfolding IsQueue
remove_timer_full_example =
    remove_timer_full (list_mpmc pending_cap) 9 2 200 (replicate 127 (remove_batch 1 1)) full tt
      (omega arith) refl

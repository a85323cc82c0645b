-- ===== src/Timer/Ticks.antt =====
-- A tick wakes the timers whose deadline has come, and no other.
use umi.Base.{
  ℕ, suc, ◌+◌, ◌/◌, ◌^◌, ◌≤◌, ◌<◌, ◌≡◌, refl, sym, ap, ◌∙◌, List, [], ◌∷◌, ◌++◌, ◌==◌, none, some,
  done, arith, inl, inr, map, All, get_elem?, Bool-cases,
}
use umi.Crates.{MpMcQueue}
use umi.BTree.{get, range_to, range_from}
use umi.BTree.Order.{
  Above, range_to-append-range_from, range_to-Below, range_from-Above, Below, Above-mono,
}
use umi.Instant.{Instant, add, checked_add, as_micros, expect}
use umi.Timer.{
  TimerBatch, pending_cap, key, TimerQueue, more_batch, proc_batch, tick, split_heap, Ticked,
  micros,
}
use umi.Timer.Batches.{view, IsQueue, view-Above, proc_batch_lem, apply_all}

module _ {Waker : Type 0} where
  -- The deadlines of entries that are below a key, and from it on.
  Below-due :
      (now lo : ℕ) (m : List (ℕ × Waker))
      → Below (key (now + 1) 0) m
      → All (λ e. e.0 / 2 ^ 64 ≤ now) m
  unfolding key
  Below-due now lo [] b = tt
  Below-due now lo ((k, w) ∷ m) b = (omega arith, Below-due now lo m b.1)

  Above-later :
      (now lo : ℕ) (m : List (ℕ × Waker))
      → key (now + 1) 0 ≤ lo
      → Above lo m
      → All (λ e. now < e.0 / 2 ^ 64) m
  unfolding key
  Above-later now lo [] h a = tt
  Above-later now lo ((k, w) ∷ m) h a = (omega arith, Above-later now (suc k) m (omega arith) a.1)

module _ {Waker : Type 0} (mq : MpMcQueue (TimerBatch Waker) pending_cap) where
  next_instant : (now : Instant) → now + 1 < 2 ^ 128 → add now (micros 1) ≡ done (now + 1)
  unfolding add checked_add expect as_micros micros
  next_instant now h = ground arith

  -- On a queue whose heap is in order, and before the last instant, a tick splits the map that the
  -- heap and the pending batches stand for: it wakes, in the order of the keys, exactly the entries
  -- whose deadline has come, and leaves those whose deadline is later.
  pub tick_lem :
      (now : Instant) (q : TimerQueue mq)
      → IsQueue mq q
      → now + 1 < 2 ^ 128
      → (t : Ticked (TimerQueue mq) Waker) × (due : List (ℕ × Waker)) × (tick mq now q ≡ done t)
        × (view mq q ≡ due ++ view mq t.queue)
        × (t.woken ≡ map (λ e. e.1) due)
        × All (λ e. e.0 / 2 ^ 64 ≤ now) due
        × All (λ e. now < e.0 / 2 ^ 64) (view mq t.queue)
        × IsQueue mq t.queue
  unfolding tick split_heap IsQueue view more_batch apply_all
  tick_lem now q h small =
      let (same, drained, all) = proc_batch_lem mq none q in
      let k = key (now + 1) 0 in
      let p = proc_batch mq none q in
      let above : Above 0 p.heap = rw same (view-Above mq q h) in
      let due = range_to k p.heap in
      let rest = range_from k p.heap in
      let kept : view mq (record p { heap = rest }) ≡ rest = rw drained refl in
      let later = Above-later now k rest (omega arith) (range_from-Above 0 k p.heap above) in
      (
        record { queue = record p { heap = rest }; woken = map (λ e. e.1) due },
        due,
        rw (next_instant now small) refl,
        sym same
            ∙ sym (range_to-append-range_from k 0 p.heap above)
            ∙ ap (λ x. due ++ x) (sym kept),
        refl,
        Below-due now 0 due (range_to-Below k p.heap),
        rw kept later,
        Above-mono 0 k rest (omega arith) (range_from-Above 0 k p.heap above),
      )

pub due_item :
    {Waker : Type 0} (k : ℕ) (w : Waker) (due rest : List (ℕ × Waker))
    → get k (due ++ rest) ≡ some w
    → All (λ e. k < e.0) rest
    → (i : ℕ) × (get_elem? (map (λ e. e.1) due) i ≡ some w)
unfolding get
due_item k w [] [] h far = absurd (cc)
due_item k w [] ((j, v) ∷ rest) h far = due_item k w [] rest (ground (arith, far)) far.1
due_item k w ((j, v) ∷ due) rest h far = elim (Bool-cases (j == k)) [
  | inl here ↦ (0, rw here at h)
  | inr there ↦ let (i, found) = due_item k w due rest (rw there at h) far in (suc i, found)
]

-- ===== src/Timer/Batches.antt =====
-- The pending batches and the heap as one map: what `insert`, `remove` and `tick` do to it.
use umi.Base.{
  ℕ, zero, suc, ◌≤◌, ◌≡◌, refl, ap, ◌∙◌, List, [], ◌∷◌, ◌++◌, true, false, ltb, Option, some,
  if◌then◌else◌, length, arith, le_or_lt, inl, inr, list_cases,
}
use umi.Crates.{MpMcQueue}
use umi.BTree.{insert, remove}
use umi.BTree.Order.{Above, Above-mono}
use umi.Timer.{
  TimerBatch, insert_batch, remove_batch, apply_batch, pending_cap, key, TimerQueue, drain_pending,
  more_batch, proc_batch, submit,
}

module _ {Waker : Type 0} where
  -- The heap after the batches, in their order.
  unfoldable pub apply_all : List (TimerBatch Waker) → List (ℕ × Waker) → List (ℕ × Waker)
  apply_all [] heap = heap
  apply_all (b ∷ bs) heap = apply_all bs (apply_batch b heap)

  apply_all-append :
      (bs cs : List (TimerBatch Waker)) (heap : List (ℕ × Waker))
      → apply_all (bs ++ cs) heap ≡ apply_all cs (apply_all bs heap)
  unfolding apply_all
  apply_all-append [] cs heap = refl
  apply_all-append (b ∷ bs) cs heap = apply_all-append bs cs (apply_batch b heap)

  insert-Above :
      (lo k : ℕ) (w : Waker) (m : List (ℕ × Waker)) → Above lo m → lo ≤ k → Above lo (insert k w m)
  unfolding insert
  insert-Above lo k w [] a h = (h, tt)
  insert-Above lo k w ((j, v) ∷ m) a h = ground (arith, insert-Above (suc j) k w m a.1)

  remove-Above : (lo k : ℕ) (m : List (ℕ × Waker)) → Above lo m → Above lo (remove k m)
  unfolding remove
  remove-Above lo k [] a = tt
  remove-Above lo k ((j, v) ∷ m) a =
      ground (arith, remove-Above (suc j) k m a.1, Above-mono lo (suc j) m)

  pub apply_batch-Above :
      (b : TimerBatch Waker) (m : List (ℕ × Waker)) → Above 0 m → Above 0 (apply_batch b m)
  unfolding apply_batch
  apply_batch-Above (insert_batch d id w) m a = insert-Above 0 (key d id) w m a (omega arith)
  apply_batch-Above (remove_batch d id) m a = remove-Above 0 (key d id) m a

  apply_all-Above :
      (bs : List (TimerBatch Waker)) (m : List (ℕ × Waker)) → Above 0 m → Above 0 (apply_all bs m)
  unfolding apply_all
  apply_all-Above [] m a = a
  apply_all-Above (b ∷ bs) m a = apply_all-Above bs (apply_batch b m) (apply_batch-Above b m a)

module _ {Waker : Type 0} (mq : MpMcQueue (TimerBatch Waker) pending_cap) where
  -- The map that the queue stands for.
  unfoldable pub view : TimerQueue mq → List (ℕ × Waker)
  view q = apply_all (mq.contents q.pending) q.heap

  drain_pending_lem :
      (rounds : ℕ) (heap : List (ℕ × Waker)) (pending : mq.Queue)
      → length (mq.contents pending) ≤ rounds
      → ((drain_pending mq rounds heap pending).0 ≡ apply_all (mq.contents pending) heap)
        × (mq.contents (drain_pending mq rounds heap pending).1 ≡ [])
  unfolding drain_pending apply_all
  drain_pending_lem zero heap pending h = elim (list_cases (mq.contents pending)) [
    | inl empty ↦ (rw empty refl, empty)
    | inr (b, rest, full) ↦ absurd (ground (arith, full))
  ]
  drain_pending_lem (suc rounds) heap pending h = elim (list_cases (mq.contents pending)) [
    | inl empty ↦
        rw (drain_pending, mq.dequeue_empty pending empty, empty)
          (refl, ap (λ x. mq.contents x.0) (mq.dequeue_empty pending empty) ∙ empty)
    | inr (b, rest, full) ↦
        let (front, behind) = mq.dequeue_front pending b rest full in
        let shorter : length (mq.contents (mq.dequeue pending).0) ≤ rounds =
          rw behind (ground (arith, full)) in
        let (same, drained) =
          drain_pending_lem rounds (apply_batch b heap) (mq.dequeue pending).0 shorter in
        rw (drain_pending, front, full) (same ∙ rw behind refl, drained)
  ]

  pub proc_batch_lem :
      (more : Option (TimerBatch Waker)) (q : TimerQueue mq)
      → ((proc_batch mq more q).heap
          ≡ apply_all (mq.contents q.pending) (more_batch mq more q.heap))
        × (mq.contents (proc_batch mq more q).pending ≡ [])
        × (view (proc_batch mq more q) ≡ (proc_batch mq more q).heap)
  unfolding proc_batch view apply_all
  proc_batch_lem more q =
      let (same, drained) =
        drain_pending_lem pending_cap (more_batch mq more q.heap) q.pending (mq.within q.pending) in
      (same, drained, rw drained refl)

  -- With room in the queue a batch comes last; where it is full, the new batch comes first.
  pub submit_lem :
      (b : TimerBatch Waker) (q : TimerQueue mq)
      → view (submit mq b q) ≡ (
          if ltb (length (mq.contents q.pending)) pending_cap
          then apply_batch b (view q)
          else apply_all (mq.contents q.pending) (apply_batch b q.heap))
  unfolding submit view more_batch apply_all
  submit_lem b q = elim (le_or_lt pending_cap (length (mq.contents q.pending))) [
    | inl full ↦
        let kept = mq.enqueue_full q.pending b full in
        let (same, drained, all) = proc_batch_lem (some b) q in
        let test : ltb (length (mq.contents q.pending)) pending_cap ≡ false = ground arith in
        rw (kept, test) (all ∙ same)
    | inr room ↦
        let (taken, longer) = mq.enqueue_room q.pending b room in
        let test : ltb (length (mq.contents q.pending)) pending_cap ≡ true = ground arith in
        rw (taken, test, longer) (apply_all-append (mq.contents q.pending) (b ∷ []) q.heap)
  ]

  -- The heap is in order.
  unfoldable pub IsQueue : TimerQueue mq → Type 0
  IsQueue q = Above 0 q.heap

  pub view-Above : (q : TimerQueue mq) → IsQueue q → Above 0 (view q)
  unfolding view IsQueue
  view-Above q h = apply_all-Above (mq.contents q.pending) q.heap h

  pub submit-IsQueue :
      (b : TimerBatch Waker) (q : TimerQueue mq) → IsQueue q → IsQueue (submit mq b q)
  unfolding submit IsQueue more_batch
  submit-IsQueue b q h = elim (le_or_lt pending_cap (length (mq.contents q.pending))) [
    | inl full ↦
        let (same, drained, all) = proc_batch_lem (some b) q in
        rw (mq.enqueue_full q.pending b full, same)
          (apply_all-Above (mq.contents q.pending) (apply_batch b q.heap)
            (apply_batch-Above b q.heap h))
    | inr room ↦ rw ((mq.enqueue_room q.pending b room).0) h
  ]

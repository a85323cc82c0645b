-- ===== src/Futex/Tests.antt =====
-- Runs of the queues of waiting tasks.
use umi.Base.{ℕ, ◌+◌, ◌%◌, ◌^◌, ◌≡◌, take, drop, ◌≢◌, [], ◌∷◌, length, ◌==◌, if◌then◌else◌, arith}
use umi.Futex.{waiting, notified, FutexQueue, new, wake, requeue, find}
use umi.Futex.Wake.{waits, wakers_of, Marks, wake_lem}
use umi.Futex.Requeue.{forwards, moved_waker, entry_after, requeue_lem}

abbrev three : FutexQueue
three = record {
  key = 1;
  prewoken = 0;
  wakers = (5, waiting 50) ∷ (6, notified) ∷ (7, waiting 70) ∷ (8, waiting 80) ∷ [];
}

abbrev second : FutexQueue
second = new 2

wake_lem_example :
    let (q', woken) = wake three 2 in
    let k = if 2 == 0 then length (waits three.wakers) else 2 in
    (woken ≡ wakers_of (take k (waits three.wakers)))
    × (waits q'.wakers ≡ drop k (waits three.wakers))
    × Marks three.wakers q'.wakers
    × (q'.prewoken ≡ (0 + length woken) % 2 ^ 64)
wake_lem_example = wake_lem three 2

keys_differ : three.key ≢ second.key
unfolding new
keys_differ e = absurd (omega arith)

requeue_lem_example :
    let (q', other', woken, total) = requeue three second 1 1 in
    let moves = take 1 (drop 1 (waits three.wakers)) in
    (woken ≡ wakers_of (take 1 (waits three.wakers)))
    × (total ≡ length woken + length moves)
    × (q'.wakers ≡ forwards 2 moves)
    × (q'.prewoken ≡ (0 + length woken) % 2 ^ 64)
    × (other'.prewoken ≡ second.prewoken)
    × ((id : ℕ)
        → find id other'.wakers ≡ entry_after (moved_waker id moves) (find id second.wakers))
unfolding new
requeue_lem_example = requeue_lem three second 1 1 keys_differ

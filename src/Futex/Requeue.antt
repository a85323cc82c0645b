-- ===== src/Futex/Requeue.antt =====
-- What `requeue` does with the waiters of both queues.
use umi.Base.{
  ℕ, zero, suc, ◌+◌, ◌%◌, ◌^◌, ◌≡◌, ◌≢◌, inl, inr, refl, sym, ap, ◌∙◌, List, [], ◌∷◌, length, take,
  drop, ◌==◌, ==_iff, arith, Bool, true, false, Bool-cases, Option, some, none, take-nil,
  if◌then◌else◌,
}
use umi.Futex.{
  FutexState, waiting, notified, requed, FutexQueue, find, insert, insert_all, notify_loop,
  retain_loop, requeue,
}
use umi.Futex.Wake.{waits, wakers_of}

notify_loop_lem :
    (n : ℕ) (l : List (ℕ × FutexState))
    → ((notify_loop n l).1 ≡ wakers_of (take n (waits l)))
      × (waits (notify_loop n l).0 ≡ drop n (waits l))
unfolding notify_loop
notify_loop_lem zero l = (refl, refl)
notify_loop_lem (suc n) [] = (refl, refl)
notify_loop_lem (suc n) ((id, waiting w) ∷ l) =
    let (a, b) = notify_loop_lem n l in (ap (◌∷◌ w) a, b)
notify_loop_lem (suc n) ((id, notified) ∷ l) = notify_loop_lem (suc n) l
notify_loop_lem (suc n) ((id, requed other) ∷ l) = notify_loop_lem (suc n) l

-- The entries that a queue keeps for the waiters that moved to the queue of the key `to`.
abbrev pub forwards : ℕ → List (ℕ × ℕ) → List (ℕ × FutexState)
forwards to [] = []
forwards to ((id, w) ∷ l) = (id, requed to) ∷ forwards to l

retain_loop_lem :
    (to n : ℕ) (l : List (ℕ × FutexState))
    → ((retain_loop to n l).1 ≡ take n (waits l))
      × ((retain_loop to n l).0 ≡ forwards to (take n (waits l)))
unfolding retain_loop
retain_loop_lem to n [] = (sym (take-nil n), ap (forwards to) (sym (take-nil n)))
retain_loop_lem to zero ((id, s) ∷ l) = retain_loop_lem to zero l
retain_loop_lem to (suc n) ((id, waiting w) ∷ l) =
    let (a, b) = retain_loop_lem to n l in (ap (◌∷◌ (id, w)) a, ap (◌∷◌ (id, requed to)) b)
retain_loop_lem to (suc n) ((id, notified) ∷ l) = retain_loop_lem to (suc n) l
retain_loop_lem to (suc n) ((id, requed other) ∷ l) = retain_loop_lem to (suc n) l

-- The waker of the last waiter of a number, of those that moved.
unfoldable pub moved_waker : ℕ → List (ℕ × ℕ) → Option ℕ
moved_waker id [] = none
moved_waker id ((j, w) ∷ l) = elim (moved_waker id l) [
  | none ↦ if j == id then some w else none
  | some v ↦ some v
]

-- What a queue holds for a number after waiters moved to it.
abbrev pub entry_after : Option ℕ → Option FutexState → Option FutexState
entry_after none before = before
entry_after (some w) before = some (waiting w)

find-insert :
    (id j : ℕ) (s : FutexState) (l : List (ℕ × FutexState))
    → find id (insert j s l) ≡ (if j == id then some s else find id l)
unfolding find insert
find-insert id j s [] = refl
find-insert id j s ((k, t) ∷ l) = ground (arith, find-insert id j s l)

-- One more waiter moved before those of `later`.
merged :
    (later : Option ℕ) (same : Bool) (w : ℕ) (before : Option FutexState)
    → entry_after later (if same then some (waiting w) else before)
      ≡ entry_after (elim later [ none ↦ if same then some w else none | some v ↦ some v ]) before
merged none true w before = refl
merged none false w before = refl
merged (some v) same w before = refl

find-insert_all :
    (id : ℕ) (moves : List (ℕ × ℕ)) (l : List (ℕ × FutexState))
    → find id (insert_all moves l) ≡ entry_after (moved_waker id moves) (find id l)
unfolding insert_all moved_waker
find-insert_all id [] l = refl
find-insert_all id ((j, w) ∷ moves) l =
    rw (find-insert_all id moves (insert j (waiting w) l), find-insert id j (waiting w) l)
      (merged (moved_waker id moves) (j == id) w (find id l))

-- To a queue of another key, `requeue` wakes the wakers of the first `notify` waiters that wait and
-- moves the next `reque` of them, and returns the number of both. The old queue keeps just an entry
-- for each waiter that moved, which names the other queue, so all other entries of it are gone; in
-- the other queue each of those waiters waits with its waker, the last one where several have one
-- number, and every other number reads what it did. `prewoken` is raised by the number of the
-- woken, modulo 2^64, in the old queue, and kept in the other.
pub requeue_lem :
    (q other : FutexQueue) (notify reque : ℕ)
    → q.key ≢ other.key
    → let (q', other', woken, total) = requeue q other notify reque in
      let moves = take reque (drop notify (waits q.wakers)) in
      (woken ≡ wakers_of (take notify (waits q.wakers)))
      × (total ≡ length woken + length moves)
      × (q'.wakers ≡ forwards other.key moves)
      × (q'.prewoken ≡ (q.prewoken + length woken) % 2 ^ 64)
      × (other'.prewoken ≡ other.prewoken)
      × ((id : ℕ)
          → find id other'.wakers ≡ entry_after (moved_waker id moves) (find id other.wakers))
unfolding requeue
requeue_lem q other notify reque h =
    let (a, b) = notify_loop_lem notify q.wakers in
    let (c, d) = retain_loop_lem other.key reque (notify_loop notify q.wakers).0 in
    let moves = (retain_loop other.key reque (notify_loop notify q.wakers).0).1 in
    let same : moves ≡ take reque (drop notify (waits q.wakers)) = c ∙ ap (take reque) b in
    elim (Bool-cases (q.key == other.key)) [
      | inl same ↦ absurd (h ((==_iff q.key other.key).0 same))
      | inr differ ↦
          rw (differ, ← same)
            (
              a,
              refl,
              d ∙ ap (forwards other.key) (sym c),
              refl,
              refl,
              λ id. find-insert_all id moves other.wakers,
            )
    ]

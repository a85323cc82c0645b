-- ===== src/Futex/Wake.antt =====
-- What `wake` does with the entries of a queue, and the next poll of a waiter that was woken.
use umi.Base.{
  ℕ, suc, ◌+◌, ◌-◌, ◌%◌, ◌^◌, ◌≡◌, ◌⊎◌, inl, inr, refl, sym, List, [], ◌∷◌, length, take, drop,
  ◌==◌, ltb, some, if◌then◌else◌, arith, ap, Bool-cases, take-nil, drop-nil,
}
use umi.Futex.{
  FutexState, waiting, notified, requed, FutexQueue, new, ready, find, poll, poll_entry,
  poll_vacant, wake_loop, wake,
}

-- The waiters that wait, with their wakers.
abbrev pub waits : List (ℕ × FutexState) → List (ℕ × ℕ)
waits [] = []
waits ((id, waiting w) ∷ l) = (id, w) ∷ waits l
waits ((id, notified) ∷ l) = waits l
waits ((id, requed other) ∷ l) = waits l

-- The wakers of waiters.
abbrev pub wakers_of : List (ℕ × ℕ) → List ℕ
wakers_of [] = []
wakers_of ((id, w) ∷ l) = w ∷ wakers_of l

-- The same entries, some of which are notified now.
abbrev pub Marks : List (ℕ × FutexState) → List (ℕ × FutexState) → Type 0
Marks [] [] = Unit
Marks [] (e ∷ m) = ⊥
Marks (e ∷ l) [] = ⊥
Marks ((i, s) ∷ l) ((j, t) ∷ m) = (j ≡ i) × ((t ≡ s) ⊎ (t ≡ notified)) × Marks l m

Marks-refl : (l : List (ℕ × FutexState)) → Marks l l
Marks-refl [] = tt
Marks-refl ((i, s) ∷ l) = (refl, inl refl, Marks-refl l)

-- How many of the waiters `ws` a loop with `count` wakes behind it wakes: a limit that is behind it
-- is no limit.
abbrev to_wake : ℕ → ℕ → List (ℕ × ℕ) → ℕ
to_wake n count ws = if ltb count n then n - count else length ws

-- The first `k` of the waiters are woken, the others wait on, and no entry is lost.
abbrev Woken : ℕ → List (ℕ × FutexState) → List (ℕ × FutexState) × List ℕ → Type 0
Woken k l (after, woken) =
    (woken ≡ wakers_of (take k (waits l))) × (waits after ≡ drop k (waits l)) × Marks l after

wake_loop_lem :
    (n count : ℕ) (l : List (ℕ × FutexState))
    → Woken (to_wake n count (waits l)) l (wake_loop n count l)
unfolding wake_loop
wake_loop_lem n count [] =
    (ap wakers_of (sym (take-nil (to_wake n count []))), sym (drop-nil (to_wake n count [])), tt)
wake_loop_lem n count ((id, waiting w) ∷ l) =
    let (a, b, c) = wake_loop_lem n (suc count) l in
    elim (Bool-cases (suc count == n)) [
      | inl last ↦
          let one : to_wake n count ((id, w) ∷ waits l) ≡ 1 = ground arith in
          rw (one, last) (refl, refl, (refl, inr refl, Marks-refl l))
      | inr more ↦
          let next : to_wake n count ((id, w) ∷ waits l) ≡ suc (to_wake n (suc count) (waits l)) =
            ground arith in
          rw (next, more) (ap (◌∷◌ w) a, b, (refl, inr refl, c))
    ]
wake_loop_lem n count ((id, notified) ∷ l) =
    let (a, b, c) = wake_loop_lem n count l in (a, b, (refl, inr refl, c))
wake_loop_lem n count ((id, requed other) ∷ l) =
    let (a, b, c) = wake_loop_lem n count l in (a, b, (refl, inr refl, c))

-- `wake` wakes the wakers of the first `n` waiters that wait, in the order of the map, or of all of
-- them if `n` is 0 or there are fewer; exactly the others still wait, with the wakers they had,
-- every entry keeps its number and its state or is notified, and `prewoken` is raised by the number
-- of the woken, modulo 2^64.
pub wake_lem :
    (q : FutexQueue) (n : ℕ)
    → let (q', woken) = wake q n in
      let k = if n == 0 then length (waits q.wakers) else n in
      (woken ≡ wakers_of (take k (waits q.wakers)))
      × (waits q'.wakers ≡ drop k (waits q.wakers))
      × Marks q.wakers q'.wakers
      × (q'.prewoken ≡ (q.prewoken + length woken) % 2 ^ 64)
unfolding wake
wake_lem q n =
    let (a, b, c) = wake_loop_lem n 0 q.wakers in
    let same : to_wake n 0 (waits q.wakers) ≡ (if n == 0 then length (waits q.wakers) else n) =
      ground arith in
    (rw (← same) a, rw (← same) b, c, refl)

-- The first poll of a new queue is ready although no one was woken.
pub new-poll : (key id waker : ℕ) → (poll (new key) id waker).1 ≡ ready
unfolding poll new find poll_vacant
new-poll key id waker = refl

wake_loop-find :
    (n count id : ℕ) (w : ℕ) (l : List (ℕ × FutexState))
    → find id l ≡ some (waiting w)
    → (find id (wake_loop n count l).0 ≡ some (waiting w))
      ⊎ (find id (wake_loop n count l).0 ≡ some notified)
unfolding wake_loop find
wake_loop-find n count id w [] h = absurd (cc)
wake_loop-find n count id w ((j, waiting v) ∷ l) h =
    ground (arith, wake_loop-find n (suc count) id w l)
wake_loop-find n count id w ((j, notified) ∷ l) h = ground (arith, wake_loop-find n count id w l)
wake_loop-find n count id w ((j, requed other) ∷ l) h =
    ground (arith, wake_loop-find n count id w l)

-- After `wake`, a waiter either waits as before, or its next poll is ready.
pub wake-poll :
    (q : FutexQueue) (n id w waker : ℕ)
    → find id q.wakers ≡ some (waiting w)
    → (find id (wake q n).0.wakers ≡ some (waiting w)) ⊎ ((poll (wake q n).0 id waker).1 ≡ ready)
unfolding wake poll poll_entry
wake-poll q n id w waker h = elim (wake_loop-find n 0 id w q.wakers h) [
  | inl same ↦ inl same
  | inr told ↦ inr (rw (poll, told) refl)
]

-- ===== src/Futex/Futexes.antt =====
-- The queues of a process, by their keys, and the future of a waiter, which follows its entry from
-- queue to queue.
use umi.Base.{
  arith, ℕ, zero, suc, ◌≡◌, List, [], ◌∷◌, Option, none, some, ◌==◌, if◌then◌else◌, map, refl, Bool,
  true, false,
}
use umi.Futex.{FutexQueue, new, pending, ready, moved, poll, discard, wake, requeue, deep_fork}

-- The map, and the address of the robust list.
pub record Futexes : Type 0 where
  pub queues : List (ℕ × FutexQueue)
  pub robust_list : ℕ

pub new_futexes : Futexes
new_futexes = record { queues = []; robust_list = 0 }

find_queue : ℕ → List (ℕ × FutexQueue) → Option FutexQueue
find_queue key [] = none
find_queue key ((k, q) ∷ l) = if k == key then some q else find_queue key l

put_queue : ℕ → FutexQueue → List (ℕ × FutexQueue) → List (ℕ × FutexQueue)
put_queue key q [] = (key, q) ∷ []
put_queue key q ((k, r) ∷ l) = if k == key then (k, q) ∷ l else (k, r) ∷ put_queue key q l

-- `Futexes::queue`: the queue of the key, which is made where there is none.
pub queue : Futexes → ℕ → FutexQueue
unfolding find_queue new
queue f key = elim (find_queue key f.queues) [ none ↦ new key | some q ↦ q ]

pub store : Futexes → ℕ → FutexQueue → Futexes
unfolding put_queue
store f key q = record f { queues = put_queue key q f.queues }

-- The wakers that were woken are returned; the result of the call is their number.
pub notify : Futexes → ℕ → ℕ → Futexes × List ℕ
unfolding queue store wake
notify f key n = let (q, woken) = wake (queue f key) n in (store f key q, woken)

pub set_robust_list : Futexes → ℕ → Futexes
set_robust_list f ptr = record f { robust_list = ptr }

pub requeue_keys : Futexes → ℕ → ℕ → ℕ → ℕ → Futexes × List ℕ × ℕ
unfolding queue store requeue
requeue_keys f from to notify reque =
    let (q, other, woken, total) = requeue (queue f from) (queue f to) notify reque in
    (store (store f from q) to other, woken, total)

pub deep_fork_all : Futexes → Futexes
unfolding deep_fork
deep_fork_all f = record f { queues = map (λ e. (e.0, deep_fork e.1)) f.queues }

-- `FutexWait::poll`, for at most so many queues: the queue of the waiter after it, and whether it is
-- ready; `none` if there were more.
pub poll_wait : ℕ → Futexes → ℕ → ℕ → ℕ → Futexes × Option (ℕ × Bool)
unfolding queue store poll
poll_wait zero f key id waker = (f, none)
poll_wait (suc hops) f key id waker =
    let (q, r) = poll (queue f key) id waker in
    let stored = store f key q in
    elim r [
      | pending ↦ (stored, some (key, false))
      | ready ↦ (stored, some (key, true))
      | moved other ↦ poll_wait hops stored other id waker
    ]

-- The drop of a `FutexWait`, for at most so many queues.
pub drop_wait : ℕ → Futexes → ℕ → ℕ → Futexes × Option (Unit {0})
unfolding queue store discard
drop_wait zero f key id = (f, none)
drop_wait (suc hops) f key id =
    let (q, r) = discard (queue f key) id in
    let stored = store f key q in
    elim r [ none ↦ (stored, some tt) | some other ↦ drop_wait hops stored other id ]

find-put_queue :
    (j k : ℕ) (q : FutexQueue) (l : List (ℕ × FutexQueue))
    → find_queue j (put_queue k q l) ≡ (if k == j then some q else find_queue j l)
unfolding find_queue put_queue
find-put_queue j k q [] = refl
find-put_queue j k q ((i, r) ∷ l) = ground (arith, find-put_queue j k q l)

-- A queue that was stored is the queue of its key, and the other queues are as before.
pub queue-store :
    (f : Futexes) (j k : ℕ) (q : FutexQueue)
    → queue (store f k q) j ≡ (if k == j then q else queue f j)
unfolding queue store
queue-store f j k q = ground (arith, find-put_queue j k q f.queues)

-- ===== src/Futex.antt =====
-- mizu/kernel/src/mem/futex.rs: the queues of waiting tasks. A critical section is one step. The map
-- of a queue is the list of its entries in the order of its iteration, which is arbitrary; a waker
-- is a number, and the wakers that a step wakes are part of its result. A queue is named by its key.
pub mod Wake
pub mod Requeue
pub mod Futexes
mod Tests
use umi.Base.{
  ℕ, zero, suc, ◌+◌, ◌-◌, ◌%◌, ◌^◌, List, [], ◌∷◌, ◌++◌, length, Bool, true, false, ◌==◌, ltb, leb,
  Option, none, some, if◌then◌else◌,
}

pub data FutexState : Type 0 where
  waiting : ℕ → FutexState
  notified : FutexState
  requed : ℕ → FutexState

-- `prewoken` is the bit pattern of an `isize`.
pub record FutexQueue : Type 0 where
  pub key : ℕ
  pub prewoken : ℕ
  pub wakers : List (ℕ × FutexState)

pub new : ℕ → FutexQueue
new key = record { key = key; prewoken = 0; wakers = [] }

pub data Poll : Type 0 where
  pending : Poll
  ready : Poll
  moved : ℕ → Poll

unfoldable pub find : ℕ → List (ℕ × FutexState) → Option FutexState
find id [] = none
find id ((j, s) ∷ l) = if j == id then some s else find id l

unfoldable pub remove : ℕ → List (ℕ × FutexState) → List (ℕ × FutexState)
remove id [] = []
remove id ((j, s) ∷ l) = if j == id then l else (j, s) ∷ remove id l

unfoldable pub insert : ℕ → FutexState → List (ℕ × FutexState) → List (ℕ × FutexState)
insert id s [] = (id, s) ∷ []
insert id s ((j, t) ∷ l) = if j == id then (id, s) ∷ l else (j, t) ∷ insert id s l

-- The entry of `id` holds a state.
poll_entry : FutexQueue → ℕ → ℕ → FutexState → FutexQueue × Poll
unfolding insert remove
poll_entry q id waker (waiting w) =
    (record q { wakers = insert id (waiting waker) q.wakers }, pending)
poll_entry q id waker notified = (record q { wakers = remove id q.wakers }, ready)
poll_entry q id waker (requed other) = (record q { wakers = remove id q.wakers }, moved other)

poll_vacant : FutexQueue → ℕ → ℕ → FutexQueue × Poll
unfolding insert
poll_vacant q id waker =
    let left = record q { prewoken = (q.prewoken + (2 ^ 64 - 1)) % 2 ^ 64 } in
    if ltb q.prewoken (2 ^ 63)
    then (left, ready)
    else (record left { wakers = insert id (waiting waker) q.wakers }, pending)

-- A poll of the waiter `id`, which has its number already.
pub poll : FutexQueue → ℕ → ℕ → FutexQueue × Poll
unfolding find poll_entry poll_vacant
poll q id waker = elim (find id q.wakers) [
  | none ↦ poll_vacant q id waker
  | some s ↦ poll_entry q id waker s
]

pub discard : FutexQueue → ℕ → FutexQueue × Option ℕ
unfolding find remove
discard q id = (
  record q { wakers = remove id q.wakers },
  elim (find id q.wakers) [
    | none ↦ none
    | some s ↦ elim s [ requed other ↦ some other | waiting w ↦ none | notified ↦ none ]
  ],
)

-- The loop of `wake`: `count` waiters were woken before. The entries after it, and the wakers.
pub wake_loop : ℕ → ℕ → List (ℕ × FutexState) → List (ℕ × FutexState) × List ℕ
wake_loop n count [] = ([], [])
wake_loop n count ((id, waiting w) ∷ l) =
    let (rest, woken) = wake_loop n (suc count) l in
    if suc count == n then ((id, notified) ∷ l, w ∷ []) else ((id, notified) ∷ rest, w ∷ woken)
wake_loop n count ((id, notified) ∷ l) =
    let (rest, woken) = wake_loop n count l in ((id, notified) ∷ rest, woken)
wake_loop n count ((id, requed other) ∷ l) =
    let (rest, woken) = wake_loop n count l in ((id, notified) ∷ rest, woken)

-- The queue and the wakers that were woken; the result of `wake` is their number.
pub wake : FutexQueue → ℕ → FutexQueue × List ℕ
unfolding wake_loop
wake q n =
    let (wakers, woken) = wake_loop n 0 q.wakers in
    (record q { wakers = wakers; prewoken = (q.prewoken + length woken) % 2 ^ 64 }, woken)

-- The first loop of `requeue`, with `notify` wakes left.
pub notify_loop : ℕ → List (ℕ × FutexState) → List (ℕ × FutexState) × List ℕ
notify_loop zero l = (l, [])
notify_loop (suc left) [] = ([], [])
notify_loop (suc left) ((id, waiting w) ∷ l) =
    let (rest, woken) = notify_loop left l in ((id, notified) ∷ rest, w ∷ woken)
notify_loop (suc left) ((id, notified) ∷ l) =
    let (rest, woken) = notify_loop (suc left) l in ((id, notified) ∷ rest, woken)
notify_loop (suc left) ((id, requed other) ∷ l) =
    let (rest, woken) = notify_loop (suc left) l in ((id, notified) ∷ rest, woken)

-- The `retain` of `requeue`, with `left` moves left: what stays, and the waiters that move.
pub retain_loop : ℕ → ℕ → List (ℕ × FutexState) → List (ℕ × FutexState) × List (ℕ × ℕ)
retain_loop to left [] = ([], [])
retain_loop to zero (e ∷ l) = retain_loop to zero l
retain_loop to (suc left) ((id, waiting w) ∷ l) =
    let (rest, moves) = retain_loop to left l in ((id, requed to) ∷ rest, (id, w) ∷ moves)
retain_loop to (suc left) ((id, notified) ∷ l) = retain_loop to (suc left) l
retain_loop to (suc left) ((id, requed other) ∷ l) = retain_loop to (suc left) l

unfoldable pub insert_all : List (ℕ × ℕ) → List (ℕ × FutexState) → List (ℕ × FutexState)
unfolding insert
insert_all [] l = l
insert_all ((id, w) ∷ moves) l = insert_all moves (insert id (waiting w) l)

-- Both queues after the call, the wakers that were woken, and the result.
pub requeue : FutexQueue → FutexQueue → ℕ → ℕ → FutexQueue × FutexQueue × List ℕ × ℕ
unfolding notify_loop retain_loop insert_all
requeue q other notify reque =
    let (left, woken) = notify_loop notify q.wakers in
    let (kept, moves) = retain_loop other.key reque left in
    if q.key == other.key then (q, other, [], 0) else (
      record q { wakers = kept; prewoken = (q.prewoken + length woken) % 2 ^ 64 },
      record other { wakers = insert_all moves other.wakers },
      woken,
      length woken + length moves,
    )

pub deep_fork : FutexQueue → FutexQueue
deep_fork q = record { key = q.key; prewoken = q.prewoken; wakers = q.wakers }

-- The wakers that the drop of a queue wakes.
pub dropped : List (ℕ × FutexState) → List ℕ
dropped [] = []
dropped ((id, waiting w) ∷ l) = w ∷ dropped l
dropped ((id, notified) ∷ l) = dropped l
dropped ((id, requed other) ∷ l) = dropped l

-- ===== src/Timer/Polls.antt =====
-- A timer that waits stands in the queue, whatever other timers do, until a tick wakes it.
use umi.Base.{
  ℕ, ◌+◌, ◌%◌, ◌/◌, ◌^◌, ◌≤◌, ◌<◌, ◌≡◌, ◌≢◌, ◌⊎◌, refl, sym, ap, ◌∙◌, List, [], ◌∷◌, ◌++◌, Bool,
  true, false, ltb, leb, ◌==◌, Option, none, some, if◌then◌else◌, done, length, arith, inl, inr,
  All, get_elem?, Bool-cases, length-append, subst,
}
use umi.Crates.{MpMcQueue}
use umi.BTree.{get}
use umi.BTree.Order.{Above, get-insert, get-remove}
use umi.Instant.{Instant, checked_add, as_micros}
use umi.Timer.{
  TimerBatch, insert_batch, remove_batch, apply_batch, pending_cap, key, TimerQueue, submit,
  insert_timer, remove_timer, tick, Ticked, proc_batch,
}
use umi.Timer.Batches.{
  view, IsQueue, view-Above, apply_all, apply_batch-Above, submit_lem, submit-IsQueue,
}
use umi.Timer.Future.{Timer, pending, ready, poll_next, wait, register, clear_handle, restart}
use umi.Timer.Ticks.{tick_lem, due_item}

module _ {Waker : Type 0} where
  -- The key of a batch, and what it leaves there.
  unfoldable pub batch_key : TimerBatch Waker → ℕ
  batch_key (insert_batch deadline id w) = key deadline id
  batch_key (remove_batch deadline id) = key deadline id

  unfoldable pub leaves : TimerBatch Waker → Option Waker
  leaves (insert_batch deadline id w) = some w
  leaves (remove_batch deadline id) = none

  -- What a key has after the batches, from what it had.
  unfoldable pub effect : ℕ → List (TimerBatch Waker) → Option Waker → Option Waker
  effect k [] r = r
  effect k (b ∷ bs) r = effect k bs (if batch_key b == k then leaves b else r)

  get-apply_batch :
      (k : ℕ) (b : TimerBatch Waker) (m : List (ℕ × Waker))
      → Above 0 m
      → get k (apply_batch b m) ≡ (if batch_key b == k then leaves b else get k m)
  unfolding apply_batch batch_key leaves
  get-apply_batch k (insert_batch d id w) m a = get-insert k (key d id) w m
  get-apply_batch k (remove_batch d id) m a = get-remove k (key d id) 0 m a

  pub get-apply_all :
      (k : ℕ) (bs : List (TimerBatch Waker)) (m : List (ℕ × Waker))
      → Above 0 m
      → get k (apply_all bs m) ≡ effect k bs (get k m)
  unfolding apply_all effect
  get-apply_all k [] m a = refl
  get-apply_all k (b ∷ bs) m a =
      get-apply_all k bs (apply_batch b m) (apply_batch-Above b m a)
      ∙ ap (effect k bs) (get-apply_batch k b m a)

effect_last :
    {Waker : Type 0} (deadline id : ℕ) (w : Waker) (bs : List (TimerBatch Waker)) (r : Option Waker)
    → effect (key deadline id) (bs ++ insert_batch deadline id w ∷ []) r ≡ some w
unfolding effect batch_key leaves
effect_last deadline id w [] r = ground arith
effect_last deadline id w (b ∷ bs) r =
    effect_last deadline id w bs (if batch_key b == key deadline id then leaves b else r)

later_keys :
    {Waker : Type 0} (now deadline id : ℕ) (m : List (ℕ × Waker))
    → id < 2 ^ 64
    → deadline ≤ now
    → All (λ e. now < e.0 / 2 ^ 64) m
    → All (λ e. key deadline id < e.0) m
unfolding key
later_keys now deadline id [] small due later = tt
later_keys now deadline id ((k, w) ∷ m) small due later =
    (omega arith, later_keys now deadline id m small due later.1)

module _ {Waker : Type 0} (mq : MpMcQueue (TimerBatch Waker) pending_cap) where
  unfoldable pub HasRoom : ℕ → TimerQueue mq → Type 0
  HasRoom n q = length (mq.contents q.pending) + n ≤ pending_cap

  -- A batch that is submitted while the queue has room is the last word on its key.
  submit_room :
      (b : TimerBatch Waker) (q : TimerQueue mq)
      → IsQueue mq q
      → HasRoom 1 q
      → get (batch_key b) (view mq (submit mq b q)) ≡ leaves b
  unfolding HasRoom
  submit_room b q h room =
      let test : ltb (length (mq.contents q.pending)) pending_cap ≡ true = ground arith in
      ap (get (batch_key b)) (submit_lem mq b q)
      ∙ rw test (get-apply_batch (batch_key b) b (view mq q) (view-Above mq q h) ∙ ground arith)

  submit-HasRoom :
      (b : TimerBatch Waker) (q : TimerQueue mq) → HasRoom 2 q → HasRoom 1 (submit mq b q)
  unfolding HasRoom submit
  submit-HasRoom b q room =
      let (taken, longer) = mq.enqueue_room q.pending b (omega arith) in
      rw (taken, longer) (omega (arith, length-append (mq.contents q.pending) (b ∷ [])))

  -- A batch leaves every other key as it is, also where the queue is full.
  pub submit_other :
      (b : TimerBatch Waker) (q : TimerQueue mq) (k : ℕ)
      → IsQueue mq q
      → batch_key b ≢ k
      → get k (view mq (submit mq b q)) ≡ get k (view mq q)
  unfolding view IsQueue
  submit_other b q k h other =
      let apart : (batch_key b == k) ≡ false = ground arith in
      let bs = mq.contents q.pending in
      let late = get-apply_batch k b (apply_all bs q.heap) (view-Above mq q h) in
      let early = get-apply_batch k b q.heap h in
      let full = get-apply_all k bs (apply_batch b q.heap) (apply_batch-Above b q.heap h) in
      let before = get-apply_all k bs q.heap h in
      ap (get k) (submit_lem mq b q) ∙ elim (Bool-cases (ltb (length bs) pending_cap)) [
        | inl room ↦ rw room (late ∙ rw apart refl)
        | inr no_room ↦ rw no_room (full ∙ ap (effect k bs) (early ∙ rw apart refl) ∙ sym before)
      ]

  -- Where the queue of batches is full and its last batch inserts an entry, the removal of that
  -- entry is lost: the entry stays.
  pub remove_timer_full :
      (deadline id : ℕ) (w : Waker) (bs : List (TimerBatch Waker)) (q : TimerQueue mq)
      → IsQueue mq q
      → pending_cap ≤ length (mq.contents q.pending)
      → mq.contents q.pending ≡ bs ++ insert_batch deadline id w ∷ []
      → get (key deadline id) (view mq (remove_timer mq deadline id q)) ≡ some w
  unfolding remove_timer IsQueue
  remove_timer_full deadline id w bs q h full last =
      let b : TimerBatch Waker = remove_batch deadline id in
      let test : ltb (length (mq.contents q.pending)) pending_cap ≡ false = ground arith in
      let below = apply_batch-Above b q.heap h in
      ap (get (key deadline id)) (submit_lem mq b q)
      ∙ rw (test, last)
          (get-apply_all (key deadline id) (bs ++ insert_batch deadline id w ∷ [])
              (apply_batch b q.heap) below
            ∙ effect_last deadline id w bs (get (key deadline id) (apply_batch b q.heap)))

  less_room : (q : TimerQueue mq) → HasRoom 2 q → HasRoom 1 q
  unfolding HasRoom
  less_room q h = omega arith

  submit-next_id : (b : TimerBatch Waker) (q : TimerQueue mq) → (submit mq b q).next_id ≡ q.next_id
  unfolding submit proc_batch
  submit-next_id b q = elim (Bool-cases ((mq.enqueue q.pending b).1)) [
    | inl taken ↦ rw taken refl
    | inr refused ↦ rw refused refl
  ]

  -- The batches of other timers, in turn.
  unfoldable pub submit_all : List (TimerBatch Waker) → TimerQueue mq → TimerQueue mq
  submit_all [] q = q
  submit_all (b ∷ bs) q = submit_all bs (submit mq b q)

  pub submit_all-other :
      (bs : List (TimerBatch Waker)) (q : TimerQueue mq) (k : ℕ)
      → IsQueue mq q
      → All (λ b. batch_key b ≢ k) bs
      → IsQueue mq (submit_all bs q) × (get k (view mq (submit_all bs q)) ≡ get k (view mq q))
  unfolding submit_all
  submit_all-other [] q k h apart = (h, refl)
  submit_all-other (b ∷ bs) q k h apart =
      let (kept, same) = submit_all-other bs (submit mq b q) k (submit-IsQueue mq b q h) apart.1 in
      (kept, same ∙ submit_other b q k h apart.0)

  module _ (will_wake : Waker → Waker → Bool) where
    -- The timer has an entry in the queue with a waker that wakes the task.
    unfoldable pub Waits : Timer Waker → TimerQueue mq → Waker → ℕ → Waker → Type 0
    Waits t q waker id w =
        (t.handle ≡ some (id, w))
        × (id < 2 ^ 64)
        × (get (key t.deadline id) (view mq q) ≡ some w)
        × ((w ≡ waker) ⊎ (will_wake w waker ≡ true))

    -- A handle of the timer names its entry.
    unfoldable pub IsTimer : Timer Waker → TimerQueue mq → Type 0
    IsTimer t q =
        (id : ℕ) (w : Waker)
        → t.handle ≡ some (id, w)
        → (id < 2 ^ 64) × (get (key t.deadline id) (view mq q) ≡ some w)

    IsTimer-Waits :
        (t : Timer Waker) (waker : Waker) (q : TimerQueue mq) (id : ℕ) (w : Waker)
        → t.handle ≡ some (id, w)
        → IsTimer t q
        → (w ≡ waker) ⊎ (will_wake w waker ≡ true)
        → Waits t q waker id w
    unfolding Waits IsTimer
    IsTimer-Waits t waker q id w at known wakes = (at, (known id w at).0, (known id w at).1, wakes)

    register_lem :
        (t : Timer Waker) (waker : Waker) (q : TimerQueue mq)
        → IsQueue mq q
        → HasRoom 1 q
        → q.next_id < 2 ^ 64
        → Waits
            (register will_wake mq t waker q).0
            (register will_wake mq t waker q).1
            waker
            q.next_id
            waker
          × IsQueue mq (register will_wake mq t waker q).1
    unfolding register insert_timer Waits IsQueue HasRoom view batch_key leaves
    register_lem t waker q h room small =
        let b = insert_batch t.deadline q.next_id waker in
        let fresh = record q { next_id = (q.next_id + 1) % 2 ^ 64 } in
        ((refl, small, submit_room b fresh h room, inl refl), submit-IsQueue mq b fresh h)

    -- A state after a poll in which the timer waits.
    unfoldable pub Waiting : Timer Waker → Timer Waker × TimerQueue mq → Waker → ℕ → Waker → Type 0
    Waiting t s waker id w = Waits s.0 s.1 waker id w × IsQueue mq s.1 × (s.0.deadline ≡ t.deadline)

    wait_lem :
        (handle : Option (ℕ × Waker)) (t : Timer Waker) (waker : Waker) (q : TimerQueue mq)
        → t.handle ≡ handle
        → IsQueue mq q
        → IsTimer t q
        → HasRoom 2 q
        → q.next_id < 2 ^ 64
        → (id : ℕ) × (w : Waker) × Waiting t (wait will_wake mq handle t waker q) waker id w
    unfolding wait remove_timer Waiting register
    wait_lem none t waker q at h known room small =
        let (waits, kept) = register_lem t waker q h (less_room q room) small in
        (q.next_id, waker, (waits, kept, refl))
    wait_lem (some (id, old)) t waker q at h known room small =
        elim (Bool-cases (will_wake old waker)) [
          | inl wakes ↦
              rw wakes (id, old, (IsTimer-Waits t waker q id old at known (inr wakes), h, refl))
          | inr other ↦
              let b : TimerBatch Waker = remove_batch t.deadline id in
              let r = submit mq b q in
              let (waits, kept) =
                register_lem t waker r (submit-IsQueue mq b q h) (submit-HasRoom b q room)
                  (rw (submit-next_id b q) small) in
              rw other (r.next_id, waker, (waits, kept, refl))
        ]

    -- A poll of a running timer before its deadline, with room for two batches in the queue, is
    -- pending and leaves an entry of the timer in the queue whose waker is that of the context or
    -- wakes the same task.
    pub poll_next_waits :
        (now : Instant) (t : Timer Waker) (waker : Waker) (q : TimerQueue mq)
        → IsQueue mq q
        → IsTimer t q
        → HasRoom 2 q
        → q.next_id < 2 ^ 64
        → t.finished ≡ false
        → now < t.deadline
        → (s : Timer Waker × TimerQueue mq) × (id : ℕ) × (w : Waker) × (poll_next will_wake mq now
              waker
              (t, q)
            ≡ (s, pending))
          × Waiting t s waker id w
    unfolding poll_next
    poll_next_waits now t waker q h known room small running early =
        let later : leb t.deadline now ≡ false = ground arith in
        let (id, w, waiting) = wait_lem t.handle t waker q refl h known room small in
        (wait will_wake mq t.handle t waker q, id, w, rw (running, later) refl, waiting)

    -- A timer that waits in the queue is woken by a tick from its deadline on, whatever batches of
    -- other timers were submitted in between, also where the queue was full.
    pub tick_wakes :
        (t : Timer Waker) (q : TimerQueue mq) (waker w : Waker) (id now : ℕ)
        (bs : List (TimerBatch Waker))
        → IsQueue mq q
        → Waits t q waker id w
        → All (λ b. batch_key b ≢ key t.deadline id) bs
        → t.deadline ≤ now
        → now + 1 < 2 ^ 128
        → (u : Ticked (TimerQueue mq) Waker) × (i : ℕ) × (tick mq now (submit_all bs q) ≡ done u)
          × (get_elem? u.woken i ≡ some w)
    unfolding Waits
    tick_wakes t q waker w id now bs h (at, small, there, same) apart due late =
        let k = key t.deadline id in
        let (kept, still) = submit_all-other bs q k h apart in
        let (u, entries, ticked, split, woken, early, later, ordered) =
          tick_lem mq now (submit_all bs q) kept late in
        let (i, found) =
          due_item k w entries (view mq u.queue) (ap (get k) (sym split) ∙ still ∙ there)
            (later_keys now t.deadline id (view mq u.queue) small due later) in
        (u, i, ticked, rw woken found)

    clear_handle_lem :
        (handle : Option (ℕ × Waker)) (deadline : Instant) (q : TimerQueue mq)
        → IsQueue mq q
        → HasRoom 2 q
        → let r = clear_handle will_wake mq handle deadline q in
          IsQueue mq r
          × HasRoom 1 r
          × (r.next_id ≡ q.next_id)
          × ((id : ℕ) (w : Waker)
              → handle ≡ some (id, w)
              → get (key deadline id) (view mq r) ≡ none)
    unfolding clear_handle remove_timer batch_key leaves
    clear_handle_lem none deadline q h room = (h, less_room q room, refl, λ id w e. absurd (cc))
    clear_handle_lem (some (i, v)) deadline q h room =
        let b : TimerBatch Waker = remove_batch deadline i in
        (
          submit-IsQueue mq b q h,
          submit-HasRoom b q room,
          submit-next_id b q,
          λ id w e. let same : i ≡ id = cc in rw (← same) (submit_room b q h (less_room q room)),
        )

    -- A poll of a running timer from its deadline on, with room for two batches in the queue and
    -- without overflow, is ready; the timer is not done but waits in the queue for its deadline and
    -- its period.
    pub poll_next_fires :
        (now : Instant) (t : Timer Waker) (waker : Waker) (q : TimerQueue mq)
        → IsQueue mq q
        → HasRoom 2 q
        → q.next_id < 2 ^ 64
        → t.finished ≡ false
        → t.deadline ≤ now
        → t.deadline + as_micros t.period < 2 ^ 128
        → (s : Timer Waker) × (r : TimerQueue mq) × (poll_next will_wake mq now waker (t, q)
            ≡ ((s, r), ready now))
          × Waits s r waker q.next_id waker
          × IsQueue mq r
          × (s.deadline ≡ t.deadline + as_micros t.period)
          × (s.finished ≡ false)
    unfolding poll_next restart checked_add register
    poll_next_fires now t waker q h room small running due fits =
        let (kept, one, same_id, gone) = clear_handle_lem t.handle t.deadline q h room in
        let r = clear_handle will_wake mq t.handle t.deadline q in
        let test : leb t.deadline now ≡ true = ground arith in
        let next : checked_add t.deadline t.period ≡ some (t.deadline + as_micros t.period) =
          ground arith in
        let again = record t { deadline = t.deadline + as_micros t.period; handle = none } in
        let s = register will_wake mq again waker r in
        let (waits, still) = register_lem again waker r kept one (rw same_id small) in
        (
          s.0,
          s.1,
          rw (running, test, next) refl,
          subst (λ n. Waits s.0 s.1 waker n waker) same_id waits,
          still,
          refl,
          running,
        )

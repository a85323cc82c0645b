-- ===== src/Sygnal/Queue/Wait.antt =====
-- The futures of mizu/lib/sygnal/src/queue.rs that wait for one signal. A listener is the Boolean
-- that says whether it was notified; the loop of `poll` is on a number of rounds.
use umi.Base.{
  ℕ, zero, suc, ◌≡◌, ◌⊎◌, inl, inr, refl, ap, List, [], ◌∷◌, Bool, true, false, Option, none, some,
  list_cases, Bool-cases, if◌then◌else◌, arith,
}
use umi.Crates.{ArrayQueue}
use umi.Sygnal.{SigSet}
use umi.Sygnal.Queue.{SigInfo, SigPending, popped, unmark}

module _ (array_queue : ArrayQueue SigInfo) where
  open array_queue use {Queue, contents}

  -- The parts of a table that the future of one signal uses, and its listener.
  pub record WaitOne : Type 0 where
    pub set : SigSet
    pub pending : SigPending array_queue
    pub listener : Option Bool

  -- A queue that was empty: `again` is the next round.
  listens :
      WaitOne → (WaitOne → Option (WaitOne × Option SigInfo)) → Option (WaitOne × Option SigInfo)
  listens w again = elim w.listener [
    | some notified ↦ if notified then again (record w { listener = none }) else some (w, none)
    | none ↦ again (record w { listener = some false })
  ]

  -- `WaitOne::poll`: the future after it, and the signal if it is ready.
  pub poll_one : ℕ → WaitOne → Option (WaitOne × Option SigInfo)
  unfolding listens unmark
  poll_one zero w = none
  poll_one (suc rounds) w =
      let again = listens w (poll_one rounds) in
      elim ((array_queue.pop w.pending.queue).1) [
        | some info ↦
            let p = popped array_queue w.pending in
            some (
              record w {
                set = unmark array_queue w.set (some (info, array_queue.is_empty p.queue));
                pending = p;
              },
              some info,
            )
        | none ↦ again
      ]

  -- `WaitOneEvent::poll`: whether it is ready.
  pub poll_event : ℕ → WaitOne → Option (WaitOne × Bool)
  poll_event zero w = none
  poll_event (suc rounds) w =
      let waits = poll_event rounds (record w { listener = some false }) in
      let again = poll_event rounds (record w { listener = none }) in
      if array_queue.is_empty w.pending.queue
      then elim w.listener [
        | some notified ↦ if notified then again else some (w, false)
        | none ↦ waits
      ]
      else some (w, true)

  -- Three rounds are enough for a poll of `WaitOne`: it takes the oldest signal of its queue if
  -- there is one; otherwise it waits on a listener that was not notified, and changes nothing else.
  pub poll_one_lem :
      (w : WaitOne)
      → ((contents w.pending.queue ≡ [])
          × (poll_one 3 w ≡ some (record w { listener = some false }, none)))
        ⊎ ((info : SigInfo) × (rest : List SigInfo) × (w' : WaitOne) × (contents w.pending.queue
              ≡ info ∷ rest)
            × (poll_one 3 w ≡ some (w', some info))
            × (contents w'.pending.queue ≡ rest)
            × (w'.listener ≡ w.listener))
  unfolding poll_one listens
  poll_one_lem w = elim (list_cases (contents w.pending.queue)) [
    | inl nothing ↦
        let yields : (array_queue.pop w.pending.queue).1 ≡ none =
          ap (λ r. r.1) (array_queue.pop_empty w.pending.queue nothing) in
        inl (nothing, ground (arith, yields))
    | inr (info, rest, front) ↦
        let (yields, left, cap) = array_queue.pop_front w.pending.queue info rest front in
        inr (
          info,
          rest,
          record w {
            set =
                unmark array_queue w.set
                  (some (info, array_queue.is_empty (popped array_queue w.pending).queue));
            pending = popped array_queue w.pending;
          },
          front,
          ground (arith, yields),
          left,
          refl,
        )
  ]

  -- Three rounds are enough for a poll of the event, which is ready exactly if a signal waits.
  pub poll_event_lem :
      (w : WaitOne)
      → ((contents w.pending.queue ≡ [])
          × (poll_event 3 w ≡ some (record w { listener = some false }, false)))
        ⊎ ((array_queue.is_empty w.pending.queue ≡ false) × (poll_event 3 w ≡ some (w, true)))
  unfolding poll_event
  poll_event_lem w = elim (Bool-cases (array_queue.is_empty w.pending.queue)) [
    | inl empty ↦ inl ((array_queue.is_empty_iff w.pending.queue).0 empty, ground arith)
    | inr some_signal ↦ inr (some_signal, ground arith)
  ]

-- ===== src/Sygnal/Queue/Pop.antt =====
-- `pop`: the lowest signal that is not blocked, first in, first out.
use umi.Base.{
  ℕ, ◌+◌, ◌^◌, ◌≤◌, ◌<◌, ◌≡◌, ◌⊎◌, inl, inr, List, [], ◌∷◌, Bool, false, ◌&&◌, not, ◌==◌, none,
  some, Bool-cases, le_or_lt, if◌then◌else◌, set, length, All, arith, ap, ◌∙◌, sym, subst,
}
use native.Mathlib.Nat.{zero-add}
use umi.Words.{bit, complement}
use umi.Words.Laws.{bit-and, bit_zero, bit-complement, bit_beyond, bit_and-le}
use umi.Crates.{ArrayQueue}
use umi.Sygnal.{
  sig, SigSet, index, mask, is_empty, contains_index, clear_never_capture, should_never_capture,
}
use umi.Sygnal.Sets.{
  IsSig, index_lem, bit-mask, mask-lt, contains-mask, clear_never_capture_lem,
  clear_never_capture-lt,
}
use umi.Sygnal.Queue.{SigInfo, SigPending, Signals, popped, unmark, taken, pop}
use umi.Sygnal.Queue.Pending.{
  room_at, Slot, IsConsistent, waiting, is_empty_cons, get_elem?_total, get_elem?_bound,
  rewritten-IsConsistent, waiting_rewritten, waiting_at,
}
use umi.Sygnal.Queue.Search.{Passed, search_lem}

module _ (array_queue : ArrayQueue SigInfo) where
  open array_queue use {Queue, contents, capacity}

  -- An index is blocked if its signal is masked and may be.
  abbrev pub blocked : SigSet → ℕ → Bool
  blocked masked i = bit masked i && not (i == 8) && not (i == 18)

  contains_index_lem :
      (masked : SigSet) (i : ℕ)
      → masked < 2 ^ 64
      → i < 64
      → contains_index (clear_never_capture masked) i ≡ blocked masked i
  unfolding contains_index should_never_capture
  contains_index_lem masked i h near =
      let s = sig (i + 1) in
      let v : IsSig s = record { positive = omega arith; bounded = omega arith } in
      let at : index s ≡ i = omega (arith, index_lem s v) in
      let cleared = clear_never_capture masked in
      let word : cleared < 2 ^ 64 = clear_never_capture-lt masked h in
      ground (
        arith,
        contains-mask cleared s word v,
        clear_never_capture_lem masked s h v,
        ap (bit cleared) at,
        ap (bit masked) at,
      )

  unmarked_nothing :
      (s : Signals array_queue) (i : ℕ)
      → IsConsistent array_queue s
      → i < 64
      → bit s.set i ≡ false
      → waiting array_queue s i ≡ []
  unmarked_nothing s i c near h =
      let (p, e) = get_elem?_total array_queue s.pending i (omega (arith, c.complete)) in
      let slot = c.slots i p e in
      waiting_at array_queue s i p e
      ∙ (array_queue.is_empty_iff p.queue).0 (ground (arith, slot.marked))

  -- What a search passed over holds nothing that is not blocked.
  passed_nothing :
      (s : Signals array_queue) (masked : SigSet) (n : ℕ)
      → IsConsistent array_queue s
      → masked < 2 ^ 64
      → Passed array_queue (clear_never_capture masked) 0 n s.pending
      → (i : ℕ) → i < 64
      → i < n
      → blocked masked i ≡ false
      → waiting array_queue s i ≡ []
  passed_nothing s masked n c h passed i near before open_to =
      let (p, e) = get_elem?_total array_queue s.pending i (omega (arith, c.complete)) in
      waiting_at array_queue s i p e ∙ (elim (passed i p before e) [
        | inl m ↦ absurd (
            ground (
              arith,
              ap (contains_index (clear_never_capture masked)) (zero-add i),
              contains_index_lem masked i h near,
            ))
        | inr nothing ↦ nothing
      ])

  unmark-bit :
      (set_ : SigSet) (info : SigInfo) (empty : Bool) (k : ℕ)
      → set_ < 2 ^ 64
      → IsSig info.sig
      → bit (unmark array_queue set_ (some (info, empty))) k
        ≡ (if index info.sig == k then not empty && bit set_ k else bit set_ k)
  unfolding unmark
  unmark-bit set_ info empty k h u = elim (le_or_lt 64 k) [
    | inl far ↦
        ground (arith, bit-and set_ (complement 64 (mask info.sig)) k, bit_beyond 64 set_ k h far)
    | inr near ↦ ground (
      arith,
      bit-and set_ (complement 64 (mask info.sig)) k,
      bit-complement 64 (mask info.sig) k (mask-lt info.sig u) near,
      bit-mask info.sig k u,
    )
  ]

  unmark-lt :
      (set_ : SigSet) (info : SigInfo) (empty : Bool)
      → set_ < 2 ^ 64
      → unmark array_queue set_ (some (info, empty)) < 2 ^ 64
  unfolding unmark
  unmark-lt set_ info empty h = ground (arith, bit_and-le set_ (complement 64 (mask info.sig)))

  -- The slot after a signal was taken out of it.
  popped-Slot :
      (s : Signals array_queue) (i : ℕ) (p : SigPending array_queue) (info : SigInfo)
      (rest : List SigInfo)
      → s.set < 2 ^ 64
      → Slot array_queue s.set i p
      → contents p.queue ≡ info ∷ rest
      → (IsSig info.sig × (index info.sig ≡ i))
        × (contents (popped array_queue p).queue ≡ rest)
        × Slot array_queue
            (unmark array_queue s.set
              (some (info, array_queue.is_empty (popped array_queue p).queue)))
            i
            (popped array_queue p)
  popped-Slot s i p info rest word v f =
      let (yields, left, cap) = array_queue.pop_front p.queue info rest f in
      let mine : All (λ x. IsSig x.sig × (index x.sig ≡ i)) (info ∷ rest) =
        subst (All (λ x. IsSig x.sig × (index x.sig ≡ i))) f v.owned in
      let empty = array_queue.is_empty (popped array_queue p).queue in
      let full = is_empty_cons array_queue p.queue info rest f in
      let within : length (info ∷ rest) ≤ room_at array_queue i = rw f at v.within in
      (
        mine.0,
        left,
        record {
          marked =
              unmark-bit s.set info empty i word (mine.0.0) ∙ ground (arith, v.marked, mine.0.1);
          owned = rw left mine.1;
          roomy = cap ∙ v.roomy;
          within = rw left (omega arith);
        },
      )

  -- On a consistent table, `pop` returns nothing only if every signal that waits is blocked;
  -- otherwise it returns the oldest signal of the lowest index that is not blocked, takes out no
  -- other, and the table stays consistent.
  pub pop_lem :
      (s : Signals array_queue) (masked : SigSet)
      → IsConsistent array_queue s
      → masked < 2 ^ 64
      → ((pop array_queue s masked ≡ (s, none))
          × ((i : ℕ) → i < 64 → blocked masked i ≡ false → waiting array_queue s i ≡ []))
        ⊎ ((s' : Signals array_queue) × (info : SigInfo) × (rest : List SigInfo) × (pop array_queue
                s masked
              ≡ (s', some info))
            × IsConsistent array_queue s'
            × IsSig info.sig
            × (blocked masked (index info.sig) ≡ false)
            × (waiting array_queue s (index info.sig) ≡ info ∷ rest)
            × ((j : ℕ)
                → j < index info.sig
                → blocked masked j ≡ false
                → waiting array_queue s j ≡ [])
            × ((k : ℕ)
                → waiting array_queue s' k
                  ≡ (if index info.sig == k then rest else waiting array_queue s k)))
  unfolding pop is_empty unmark taken
  pop_lem s masked c h = elim (Bool-cases (is_empty s.set)) [
    | inl empty ↦
        let zero_set : s.set ≡ 0 = ground arith in
        inl (
          ground arith,
          λ i near open_to. unmarked_nothing s i c near (ap (λ x. bit x i) zero_set ∙ bit_zero i),
        )
    | inr some_bit ↦ elim (search_lem array_queue (clear_never_capture masked) 0 s.pending) [
      | inl (e, passed) ↦ inl (
        ground arith,
        λ i near open_to.
            passed_nothing s masked (length s.pending) c h passed i near (omega (arith, c.complete))
              open_to,
      )
      | inr stop ↦
          let k = stop.k in
          let p = stop.p in
          let near : k < length s.pending = get_elem?_bound array_queue s.pending k p stop.there in
          let (mine, left, slot) =
            popped-Slot s k p stop.info stop.rest c.word (c.slots k p stop.there) stop.items in
          let empty = array_queue.is_empty (popped array_queue p).queue in
          let marks = unmark array_queue s.set (some (stop.info, empty)) in
          let k_near : k < 64 = omega (arith, c.complete) in
          let open_to : blocked masked k ≡ false =
            sym (contains_index_lem masked k h k_near)
            ∙ ap (contains_index (clear_never_capture masked)) (sym (zero-add k))
            ∙ stop.open_to in
          inr (
            record { set = marks; pending = set s.pending k (popped array_queue p) },
            stop.info,
            stop.rest,
            ground (arith, stop.result),
            rewritten-IsConsistent array_queue s marks k (popped array_queue p) c
                (unmark-lt s.set stop.info empty c.word) k_near
                (λ j other.
                  unmark-bit s.set stop.info empty j c.word mine.0 ∙ ground (arith, mine.1))
                slot,
            mine.0,
            rw mine.1 open_to,
            rw mine.1 (waiting_at array_queue s k p stop.there ∙ stop.items),
            rw mine.1
                (λ j before. passed_nothing s masked k c h stop.before j (omega arith) before),
            rw mine.1 (λ j.
                waiting_rewritten array_queue s marks k j (popped array_queue p) near
                ∙ ap (λ l. if k == j then l else waiting array_queue s j) left),
          )
    ]
  ]

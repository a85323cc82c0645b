-- ===== src/Sygnal/Queue/Pending.antt =====
-- The bit set of the pending signals agrees with the queues, and the queues behave as promised.
use umi.Base.{
  ℕ, zero, suc, ◌+◌, ◌^◌, ◌≤◌, ◌<◌, ◌≡◌, ◌≢◌, inl, inr, refl, List, [], ◌∷◌, true, false, not, ◌==◌,
  ltb, none, some, Bool-cases, if◌then◌else◌, get_elem?, set, length, length-set,
  get_elem?-set_self, get_elem?-set_ne, All, arith, ap, ◌∙◌, sym, subst,
}
use native.Mathlib.Decide.{ℕ_discrete}
use native.Mathlib.Nat.{zero-add}
use umi.Words.{bit}
use umi.Words.Laws.{bit_zero}
use umi.Crates.{ArrayQueue}
use umi.Sygnal.{SigSet, from_index, index, is_legacy}
use umi.Sygnal.Sets.{IsSig}
use umi.Sygnal.Queue.{SigInfo, SigPending, Signals, capacity_of, build, new}

module _ (array_queue : ArrayQueue SigInfo) where
  open array_queue use {Queue, contents, capacity}

  -- How many signals a queue of the table holds.
  abbrev pub room_at : ℕ → ℕ
  room_at i = if ltb i 32 then 1 else 8

  -- The queue of an index agrees with its bit, holds signals of that index only, and has the
  -- capacity of its kind.
  pub record Slot (marks : SigSet) (i : ℕ) (p : SigPending array_queue) : Type 0 where
    pub marked : bit marks i ≡ not (array_queue.is_empty p.queue)
    pub owned : All (λ info. IsSig info.sig × (index info.sig ≡ i)) (contents p.queue)
    pub roomy : capacity p.queue ≡ room_at i
    pub within : length (contents p.queue) ≤ room_at i

  pub record IsConsistent (s : Signals array_queue) : Type 0 where
    pub complete : length s.pending ≡ 64
    pub word : s.set < 2 ^ 64
    pub slots :
        (i : ℕ) (p : SigPending array_queue) → get_elem? s.pending i ≡ some p → Slot s.set i p

  -- The signals that wait at an index, the oldest first.
  pub waiting : Signals array_queue → ℕ → List SigInfo
  waiting s i = elim (get_elem? s.pending i) [ none ↦ [] | some p ↦ contents p.queue ]

  capacity_of_lem : (i : ℕ) → i < 64 → capacity_of array_queue (from_index i) ≡ room_at i
  unfolding capacity_of is_legacy from_index
  capacity_of_lem i h = ground arith

  pub is_empty_nil : (q : Queue) → contents q ≡ [] → array_queue.is_empty q ≡ true
  is_empty_nil q h = (array_queue.is_empty_iff q).1 h

  pub is_empty_cons :
      (q : Queue) (a : SigInfo) (l : List SigInfo)
      → contents q ≡ a ∷ l
      → array_queue.is_empty q ≡ false
  is_empty_cons q a l h = elim (Bool-cases (array_queue.is_empty q)) [
    | inl e ↦ absurd (cc ((array_queue.is_empty_iff q).0 e))
    | inr e ↦ e
  ]

  fresh : ℕ → SigPending array_queue
  fresh i = record { queue = array_queue.new (capacity_of array_queue (from_index i)); event = 0 }

  fresh-Slot : (i : ℕ) → i < 64 → Slot 0 i (fresh i)
  unfolding fresh
  fresh-Slot i h =
      let some_room : 0 < capacity_of array_queue (from_index i) =
        rw (capacity_of_lem i h) (ground arith) in
      let (empty, room) =
        array_queue.new_empty (capacity_of array_queue (from_index i)) some_room in
      record {
        marked = bit_zero i ∙ ap not (sym (is_empty_nil (fresh i).queue empty));
        owned = rw empty tt;
        roomy = room ∙ capacity_of_lem i h;
        within = rw empty (ground arith);
      }

  build_lem :
      (n i : ℕ)
      → i + n ≤ 64
      → (length (build array_queue n i) ≡ n)
        × ((k : ℕ) (p : SigPending array_queue)
            → get_elem? (build array_queue n i) k ≡ some p
            → Slot 0 (i + k) p)
  unfolding build fresh
  build_lem zero i h = (refl, λ k p e. absurd (cc))
  build_lem (suc n) i h =
      let (len, slots) = build_lem n (i + 1) (omega arith) in (ap suc len, go slots)
    where
      go :
          ((k : ℕ) (p : SigPending array_queue)
            → get_elem? (build array_queue n (i + 1)) k ≡ some p
            → Slot 0 (i + 1 + k) p)
          → (k : ℕ) (p : SigPending array_queue)
          → get_elem? (build array_queue (suc n) i) k ≡ some p
          → Slot 0 (i + k) p
      go slots zero p e =
          let first : fresh i ≡ p = cc in
          let here : i ≡ i + 0 = omega arith in
          subst (λ j. Slot 0 j p) here (subst (Slot 0 i) first (fresh-Slot i (omega arith)))
      go slots (suc k) p e =
          let shift : i + 1 + k ≡ i + suc k = omega arith in
          subst (λ j. Slot 0 j p) shift (slots k p e)

  -- A fresh table is consistent.
  pub new-IsConsistent : IsConsistent (new array_queue)
  unfolding new
  new-IsConsistent =
      let (len, slots) = build_lem 64 0 (omega arith) in
      record {
        complete = len;
        word = omega arith;
        slots = λ i p e. subst (λ j. Slot 0 j p) (zero-add i) (slots i p e);
      }

  pub Slot-mono :
      (a b : SigSet) (i : ℕ) (p : SigPending array_queue)
      → bit b i ≡ bit a i
      → Slot a i p
      → Slot b i p
  Slot-mono a b i p e v = record {
    marked = e ∙ v.marked;
    owned = v.owned;
    roomy = v.roomy;
    within = v.within;
  }

  pub not-nil : (q : Queue) → ¬ (contents q ≡ []) → array_queue.is_empty q ≡ false
  not-nil q h = elim (Bool-cases (array_queue.is_empty q)) [
    | inl e ↦ absurd (h ((array_queue.is_empty_iff q).0 e))
    | inr e ↦ e
  ]

  pub get_elem?_total :
      (xs : List (SigPending array_queue)) (i : ℕ)
      → i < length xs
      → (x : SigPending array_queue) × (get_elem? xs i ≡ some x)
  get_elem?_total [] i h = absurd (omega arith)
  get_elem?_total (x ∷ xs) zero h = (x, refl)
  get_elem?_total (x ∷ xs) (suc i) h = get_elem?_total xs i (omega arith)

  pub get_elem?_bound :
      (xs : List (SigPending array_queue)) (i : ℕ) (x : SigPending array_queue)
      → get_elem? xs i ≡ some x
      → i < length xs
  get_elem?_bound [] i x h = absurd (cc)
  get_elem?_bound (y ∷ xs) zero x h = omega arith
  get_elem?_bound (y ∷ xs) (suc i) x h = omega (arith, get_elem?_bound xs i x h)

  -- A table in which one slot was rewritten, and the bits of the others stayed.
  pub rewritten-IsConsistent :
      (s : Signals array_queue) (marks : SigSet) (i : ℕ) (p' : SigPending array_queue)
      → IsConsistent s
      → marks < 2 ^ 64
      → i < 64
      → ((k : ℕ) → i ≢ k → bit marks k ≡ bit s.set k)
      → Slot marks i p'
      → IsConsistent (record { set = marks; pending = set s.pending i p' })
  rewritten-IsConsistent s marks i p' c word near others slot = record {
    complete = length-set s.pending i p' ∙ c.complete;
    word = word;
    slots = λ k p e. elim (ℕ_discrete i k) [
      | yes same ↦
          let here = get_elem?-set_self s.pending i p' (omega (arith, c.complete)) in
          let there : get_elem? (set s.pending i p') i ≡ some p =
            ap (get_elem? (set s.pending i p')) same ∙ e in
          let found : p' ≡ p = cc in
          subst (λ j. Slot marks j p) same (subst (Slot marks i) found slot)
      | no other ↦
          Slot-mono s.set marks k p (others k other)
            (c.slots k p (sym (get_elem?-set_ne s.pending i k p' other) ∙ e))
    ];
  }

  pub waiting_rewritten :
      (s : Signals array_queue) (marks : SigSet) (i k : ℕ) (p' : SigPending array_queue)
      → i < length s.pending
      → waiting (record { set = marks; pending = set s.pending i p' }) k
        ≡ (if i == k then contents p'.queue else waiting s k)
  unfolding waiting
  waiting_rewritten s marks i k p' h = elim (ℕ_discrete i k) [
    | yes same ↦
        ground
          (arith, get_elem?-set_self s.pending i p' h, ap (get_elem? (set s.pending i p')) same)
    | no other ↦ ground (arith, get_elem?-set_ne s.pending i k p' other)
  ]

  pub waiting_at :
      (s : Signals array_queue) (i : ℕ) (p : SigPending array_queue)
      → get_elem? s.pending i ≡ some p
      → waiting s i ≡ contents p.queue
  unfolding waiting
  waiting_at s i p e = ground arith

  -- A slot whose bit is set holds a signal.
  pub marked-items :
      (marks : SigSet) (i : ℕ) (p : SigPending array_queue)
      → Slot marks i p
      → bit marks i ≡ true
      → 0 < length (contents p.queue)
  marked-items marks i p v h = go (contents p.queue) refl
    where
      go : (l : List SigInfo) → contents p.queue ≡ l → 0 < length (contents p.queue)
      go [] e = absurd (ground (arith, is_empty_nil p.queue e, v.marked))
      go (x ∷ l) e = rw e (omega arith)

  pub kept_waiting :
      (s : Signals array_queue) (marks : SigSet) (k : ℕ)
      → waiting (record s { set = marks }) k ≡ waiting s k
  unfolding waiting
  kept_waiting s marks k = refl

-- ===== src/Sygnal/Queue/Push.antt =====
-- `push`: what it queues, and that the table stays consistent.
use Prim.Native.Nat.{bit_or}
use umi.Base.{
  ℕ, ◌<◌, ◌≡◌, inl, inr, refl, List, [], ◌∷◌, ◌++◌, true, false, ◌&&◌, ◌||◌, ◌==◌, ==_iff, ltb,
  some, Bool-cases, le_or_lt, if◌then◌else◌, done, get_elem?, set, length, length-append, All,
  arith, ap, ◌∙◌, sym,
}
use native.Mathlib.Decide.{ℕ_discrete}
use umi.Words.{bit}
use umi.Words.Laws.{bit-or, bit_or-lt}
use umi.Crates.{ArrayQueue}
use umi.Sygnal.{SigSet, index, mask, is_legacy, contains}
use umi.Sygnal.Sets.{IsSig, index_lem, bit-mask, mask-lt, contains-mask}
use umi.Sygnal.Queue.{SigInfo, SigPending, Signals, enqueue, push_at, push}
use umi.Sygnal.Queue.Pending.{
  room_at, Slot, IsConsistent, waiting, Slot-mono, not-nil, get_elem?_total, rewritten-IsConsistent,
  waiting_rewritten, waiting_at, marked-items, kept_waiting,
}

module _ (array_queue : ArrayQueue SigInfo) where
  open array_queue use {Queue, contents, capacity}

  -- What a push leaves of the signals that wait at its index: a signal that finds no room is lost.
  abbrev pub admit : ℕ → SigInfo → List SigInfo → List SigInfo
  admit i info l = if ltb (length l) (room_at array_queue i) then l ++ info ∷ [] else l

  All-append :
      (P : SigInfo → Type 0) (xs : List SigInfo) (x : SigInfo)
      → All P xs
      → P x
      → All P (xs ++ x ∷ [])
  All-append P [] x a b = (b, tt)
  All-append P (y ∷ xs) x a b = (a.0, All-append P xs x a.1 b)

  enqueue_lem :
      (a b : SigSet) (i : ℕ) (p : SigPending array_queue) (info : SigInfo)
      → Slot array_queue a i p
      → bit b i ≡ true
      → IsSig info.sig
      → index info.sig ≡ i
      → Slot array_queue b i (enqueue array_queue p info)
        × (contents (enqueue array_queue p info).queue ≡ admit i info (contents p.queue))
  unfolding enqueue
  enqueue_lem a b i p info v e u at =
      elim (le_or_lt (capacity p.queue) (length (contents p.queue))) [
        | inl full ↦
            let same : (array_queue.push p.queue info).0 ≡ p.queue =
              ap (λ r. r.0) (array_queue.push_full p.queue info full) in
            let some_item : array_queue.is_empty p.queue ≡ false =
              not-nil array_queue p.queue (λ z. absurd (ground (arith, ap length z, v.roomy))) in
            (
              record {
                marked = rw same (ground arith);
                owned = rw same v.owned;
                roomy = rw same v.roomy;
                within = rw same v.within;
              },
              rw same (ground (arith, v.roomy)),
            )
        | inr room ↦
            let (ok, items, cap) = array_queue.push_room p.queue info room in
            let count = length-append (contents p.queue) (info ∷ []) in
            let q = (array_queue.push p.queue info).0 in
            let some_item : array_queue.is_empty q ≡ false =
              not-nil array_queue q
                (λ z. absurd (omega (arith, ap length items, ap length z, count))) in
            (
              record {
                marked = rw (e, some_item) refl;
                owned = rw items (
                    All-append (λ x. IsSig x.sig × (index x.sig ≡ i)) (contents p.queue) info
                      v.owned (u, at));
                roomy = cap ∙ v.roomy;
                within = rw items (omega (arith, count, v.roomy));
              },
              items ∙ ground (arith, v.roomy),
            )
      ]

  abbrev after_push : Signals array_queue → SigInfo → SigPending array_queue → Signals array_queue
  after_push s info p = record {
    set = bit_or s.set (mask info.sig);
    pending = set s.pending (index info.sig) p;
  }

  bit-marked :
      (s : Signals array_queue) (info : SigInfo) (k : ℕ)
      → IsSig info.sig
      → bit (bit_or s.set (mask info.sig)) k ≡ (bit s.set k || index info.sig == k)
  bit-marked s info k u = rw (bit-or, bit-mask info.sig k u)

  bit_same : (x : SigSet) (i k : ℕ) → bit x i ≡ true → (bit x k || i == k) ≡ bit x k
  bit_same x i k h = elim (ℕ_discrete i k) [
    | yes same ↦ ground (arith, ap (bit x) same)
    | no other ↦ ground arith
  ]

  -- A legacy signal that waits already is not queued again.
  again_admit :
      (s : Signals array_queue) (info : SigInfo) (p : SigPending array_queue)
      → IsConsistent array_queue s
      → IsSig info.sig
      → get_elem? s.pending (index info.sig) ≡ some p
      → is_legacy info.sig ≡ true
      → bit s.set (index info.sig) ≡ true
      → admit (index info.sig) info (waiting array_queue s (index info.sig))
        ≡ waiting array_queue s (index info.sig)
  unfolding is_legacy
  again_admit s info p c u e legacy held =
      let slot = c.slots (index info.sig) p e in
      rw (waiting_at array_queue s (index info.sig) p e) (
        ground (
          arith,
          marked-items array_queue s.set (index info.sig) p slot held,
          index_lem info.sig u,
        ))

  at_index :
      (s : Signals array_queue) (info : SigInfo) (i k : ℕ) (l : List SigInfo)
      → admit i info (waiting array_queue s i) ≡ l
      → (if i == k then l else waiting array_queue s k)
        ≡ (if i == k then admit k info (waiting array_queue s k) else waiting array_queue s k)
  at_index s info i k l h = elim (ℕ_discrete i k) [
    | yes same ↦ ground (arith, ap (λ j. admit j info (waiting array_queue s j)) same)
    | no other ↦ ground arith
  ]

  same_index :
      (s : Signals array_queue) (i k : ℕ)
      → waiting array_queue s k
        ≡ (if i == k then waiting array_queue s i else waiting array_queue s k)
  same_index s i k = elim (ℕ_discrete i k) [
    | yes same ↦ ground (arith, ap (waiting array_queue s) same)
    | no other ↦ ground arith
  ]

  -- `push` of a signal of the table keeps a consistent table consistent; it appends the signal to
  -- those that wait at its index where there is room, and changes no other index.
  pub push_lem :
      (s : Signals array_queue) (info : SigInfo)
      → IsConsistent array_queue s
      → IsSig info.sig
      → (s' : Signals array_queue) × (push array_queue s info ≡ done s')
        × IsConsistent array_queue s'
        × ((k : ℕ)
            → waiting array_queue s' k ≡ (
                if index info.sig == k
                then admit k info (waiting array_queue s k)
                else waiting array_queue s k))
  unfolding push push_at
  push_lem s info c u =
      let i = index info.sig in
      let near : i < length s.pending = omega (arith, c.complete, index_lem info.sig u) in
      let (p, e) = get_elem?_total array_queue s.pending i near in
      let slot = c.slots i p e in
      let word = bit_or-lt 64 s.set (mask info.sig) c.word (mask-lt info.sig u) in
      let here : (i == i) ≡ true = (==_iff i i).1 refl in
      elim (Bool-cases (is_legacy info.sig && contains s.set (mask info.sig))) [
        | inl again ↦
            let held : bit s.set i ≡ true = ground (arith, contains-mask s.set info.sig c.word u) in
            (
              record s { set = bit_or s.set (mask info.sig) },
              rw again refl,
              record {
                complete = c.complete;
                word = word;
                slots = λ k q f.
                    Slot-mono array_queue s.set (bit_or s.set (mask info.sig)) k q
                      (bit-marked s info k u ∙ bit_same s.set i k held) (c.slots k q f);
              },
              λ k.
                  kept_waiting array_queue s (bit_or s.set (mask info.sig)) k
                  ∙ same_index s i k
                  ∙ at_index s info i k (waiting array_queue s i)
                      (again_admit s info p c u e (ground arith) held),
            )
        | inr fresh ↦
            let (slot', items) =
              enqueue_lem s.set (bit_or s.set (mask info.sig)) i p info slot
                (bit-marked s info i u ∙ ground arith) u refl in
            (
              after_push s info (enqueue array_queue p info),
              ground arith,
              rewritten-IsConsistent array_queue s (bit_or s.set (mask info.sig)) i
                  (enqueue array_queue p info) c word (omega (arith, c.complete))
                  (λ k other. bit-marked s info k u ∙ ground arith) slot',
              λ k.
                  waiting_rewritten array_queue s (bit_or s.set (mask info.sig)) i k
                    (enqueue array_queue p info) near
                  ∙ at_index s info i k (contents (enqueue array_queue p info).queue)
                      (ap (admit i info) (waiting_at array_queue s i p e) ∙ sym items),
            )
      ]

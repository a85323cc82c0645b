-- ===== src/Sygnal/Sets.antt =====
-- A `SigSet` stands for the set of the indices whose bit is set.
use umi.Base.{
  ℕ, ◌+◌, ◌-◌, ◌%◌, ◌^◌, ◌≤◌, ◌<◌, ◌≡◌, ◌↔◌, refl, true, false, ◌==◌, ==_iff, ◌&&◌, ◌||◌, not, none,
  some, if◌then◌else◌, arith, Bool-cases, le_or_lt, ◌⊎◌, inl, inr, ap, ◌∙◌, sym,
}
use Prim.Native.Nat.{bit_and, bit_or}
use native.Mathlib.Decide.{ℕ_discrete}
use umi.Words.{bit, complement, trailing_zeros}
use umi.Words.Laws.{
  bit_zero, bit-or, bit-and, bit-pow, bit-complement, bit_beyond, zero_of_bits, bit-sub-pow,
  bit-trailing_zeros, bit_below_trailing_zeros, pow_lt, bit_and-le, bit_or-lt,
}
use umi.Sygnal.{
  Sig, sig, SigSet, mask, index, new, should_never_capture, clear_never_capture, contains, insert,
  remove, next, sigkill, sigstop,
}

-- A signal of the table: its number is from 1 to 64.
pub record IsSig (s : Sig) : Type 0 where
  pub positive : 0 < s.raw
  pub bounded : s.raw ≤ 64

pub index_lem : (s : Sig) → IsSig s → (index s ≡ s.raw - 1) × (index s < 64)
unfolding index
index_lem s v = ground arith

pub mask_lem : (s : Sig) → IsSig s → mask s ≡ 2 ^ index s
unfolding mask index
mask_lem s v = ap (λ (i : ℕ). 2 ^ i) (ground arith)

pub bit-mask : (s : Sig) (k : ℕ) → IsSig s → bit (mask s) k ≡ (index s == k)
bit-mask s k v = rw (mask_lem s v) (bit-pow (index s) k)

bit-true_below : (x k : ℕ) → x < 2 ^ 64 → bit x k ≡ true → k < 64
bit-true_below x k h p = elim (le_or_lt 64 k) [
  | inl far ↦ absurd (cc (bit_beyond 64 x k h far))
  | inr near ↦ near
]

pub mask-lt : (s : Sig) → IsSig s → mask s < 2 ^ 64
mask-lt s v = rw (mask_lem s v) (pow_lt (index s) 64 (index_lem s v).1)

-- `contains` is inclusion of sets.
pub contains_iff :
    (x y : SigSet)
    → x < 2 ^ 64
    → (contains x y ≡ true) ↔ ((i : ℕ) → i < 64 → bit y i ≡ true → bit x i ≡ true)
unfolding contains
contains_iff x y h = (
  λ e i p q.
      let meet : bit_and (complement 64 x) y ≡ 0 = (==_iff _ 0).0 e in
      let clear : bit (bit_and (complement 64 x) y) i ≡ false = rw meet (bit_zero i) in
      ground (arith, bit-and (complement 64 x) y i, bit-complement 64 x i h p),
  λ sub. (==_iff _ 0).1 (
      zero_of_bits 64 (bit_and (complement 64 x) y) (omega (arith, bit_and-le (complement 64 x) y))
        λ k p. ground (arith, bit-and (complement 64 x) y k, bit-complement 64 x k h p, sub k p)),
)

-- `contains` of one signal is a test of its bit.
pub contains-mask :
    (x : SigSet) (s : Sig) → x < 2 ^ 64 → IsSig s → contains x (mask s) ≡ bit x (index s)
contains-mask x s h v = elim (Bool-cases (bit x (index s))) [
  | inl here ↦
      (contains_iff x (mask s) h).1
        (λ i p q. rw (← (==_iff (index s) i).0 (sym (bit-mask s i v) ∙ q)) here)
      ∙ sym here
  | inr missing ↦ elim (Bool-cases (contains x (mask s))) [
    | inl e ↦ absurd (
        cc (
          (contains_iff x (mask s) h).0 e (index s) (index_lem s v).1
            (bit-mask s (index s) v ∙ (==_iff (index s) (index s)).1 refl)))
    | inr e ↦ e ∙ sym missing
  ]
]

-- `insert` of a signal of the table adds it and nothing else, and says whether it was new.
pub insert_lem :
    (x : SigSet) (s : Sig)
    → x < 2 ^ 64
    → IsSig s
    → ((insert x s).1 ≡ not (bit x (index s)))
      × ((insert x s).0 < 2 ^ 64)
      × ((k : ℕ) → bit (insert x s).0 k ≡ (index s == k || bit x k))
unfolding insert
insert_lem x s h v = (
  ground (arith, contains-mask x s h v),
  ground (arith, bit_or-lt 64 x (mask s) h (mask-lt s v)),
  λ k. ground (arith, contains-mask x s h v, bit-or x (mask s) k, bit-mask s k v),
)

-- `remove` takes out the signal and nothing else, and says whether it was there.
pub remove_lem :
    (x : SigSet) (s : Sig)
    → x < 2 ^ 64
    → IsSig s
    → ((remove x s).1 ≡ bit x (index s))
      × ((remove x s).0 < 2 ^ 64)
      × ((k : ℕ) → bit (remove x s).0 k ≡ (not (index s == k) && bit x k))
unfolding remove
remove_lem x s h v = (
  ground (arith, contains-mask x s h v),
  ground (arith, bit_and-le x (complement 64 (mask s))),
  λ k. elim (le_or_lt 64 k) [
    | inl far ↦ ground (
      arith,
      contains-mask x s h v,
      bit-and x (complement 64 (mask s)) k,
      bit_beyond 64 x k h far,
    )
    | inr near ↦ ground (
      arith,
      contains-mask x s h v,
      bit-and x (complement 64 (mask s)) k,
      bit-mask s k v,
      bit-complement 64 (mask s) k (mask-lt s v) near,
    )
  ],
)

-- The iterator of a set of 64 bits yields nothing of the empty set only, and otherwise takes out
-- the lowest signal.
pub next_lem :
    (x : SigSet)
    → x < 2 ^ 64
    → ((x ≡ 0) × (next x ≡ (none, x)))
      ⊎ ((s : Sig) × IsSig s
          × ((next x).0 ≡ some s)
          × (bit x (index s) ≡ true)
          × ((k : ℕ) → k < index s → bit x k ≡ false)
          × ((k : ℕ) → bit (next x).1 k ≡ (if index s == k then false else bit x k)))
unfolding next
next_lem x h = elim (ℕ_discrete x 0) [
  | yes empty ↦ inl (empty, ground arith)
  | no some_bit ↦
      let lowest = trailing_zeros 64 x in
      let (set_bit, near) = bit-trailing_zeros 64 x h some_bit in
      let s = sig ((lowest + 1) % 2 ^ 32) in
      let v : IsSig s = record { positive = omega arith; bounded = omega arith } in
      let at : index s ≡ lowest = omega (arith, (index_lem s v).0) in
      inr (
        s,
        v,
        ground arith,
        rw at set_bit,
        λ k p. bit_below_trailing_zeros 64 x k (omega arith),
        λ k. ground (arith, bit-sub-pow x lowest k set_bit),
      )
]

-- The mask that `clear_never_capture` applies agrees with `should_never_capture` on every signal of
-- the table.
pub clear_never_capture_lem :
    (x : SigSet) (s : Sig)
    → x < 2 ^ 64
    → IsSig s
    → bit (clear_never_capture x) (index s) ≡ (not (should_never_capture s) && bit x (index s))
unfolding clear_never_capture should_never_capture
clear_never_capture_lem x s h v =
    let never = bit_or (mask sigkill) (mask sigstop) in
    let kill : IsSig sigkill = record { positive = omega arith; bounded = omega arith } in
    let stop : IsSig sigstop = record { positive = omega arith; bounded = omega arith } in
    ground (
      arith,
      bit-and x (complement 64 never) (index s),
      bit-complement 64 never (index s)
          (bit_or-lt 64 (mask sigkill) (mask sigstop) (mask-lt sigkill kill) (mask-lt sigstop stop))
          (index_lem s v).1,
      bit-or (mask sigkill) (mask sigstop) (index s),
      bit-mask sigkill (index s) kill,
      bit-mask sigstop (index s) stop,
      index_lem s v,
      index_lem sigkill kill,
      index_lem sigstop stop,
    )

-- `Sig::new` has no lower bound: it takes every `i32` up to 64, and those that are not positive
-- have an index outside of the tables of 64 signals.
pub new_unbounded : (s : ℕ) → s < 2 ^ 32 → (new s ≡ some (sig s)) ↔ ((s ≤ 64) ⊎ (2 ^ 31 ≤ s))
unfolding new
new_unbounded s h = (λ e. ground arith, λ c. ground arith)

-- `Sig::new` accepts 0 and every negative number but the least, and their index is outside of the
-- tables of 64 signals.
pub new_outside :
    (s : ℕ) → s < 2 ^ 32 → (s ≡ 0) ⊎ (2 ^ 31 < s) → (new s ≡ some (sig s)) × (64 ≤ index (sig s))
unfolding new index
new_outside s h c = (ground arith, ground arith)

pub clear_never_capture-lt : (x : SigSet) → x < 2 ^ 64 → clear_never_capture x < 2 ^ 64
unfolding clear_never_capture
clear_never_capture-lt x h =
    omega (arith, bit_and-le x (complement 64 (bit_or (mask sigkill) (mask sigstop))))

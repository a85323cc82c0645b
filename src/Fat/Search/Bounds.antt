-- ===== src/Fat/Search/Bounds.antt =====
-- What `find_free` returns, in terms of the bounds of its argument.
use umi.Base.{ℕ, ◌+◌, ◌*◌, ◌^◌, ◌≤◌, ◌<◌, ◌≡◌, ◌≢◌, ◌⊎◌, inl, inr, ok, err, arith}
use umi.Fat.Entry.{free}
use umi.Fat.Table.{enospc, Io, Fat, get}
use umi.Fat.Table.Cells.{IsTable, IsCluster, allocable_end_lem}
use umi.Fat.Search.{Bound, included, excluded, unbounded, start_of, end_of, find_free}
use umi.Fat.Search.Scan.{NoneFree, IsRun, AllFree, Ends}
use umi.Fat.Search.Batches.{Readable, Answer, Stops, find_free-Answer}

-- A cluster lies on the side of a bound that a range has.
pub IsAbove : Bound → ℕ → Type 0
IsAbove (included b) k = b ≤ k
IsAbove (excluded b) k = b < k
IsAbove unbounded k = Unit

pub IsBelow : Bound → ℕ → Type 0
IsBelow (included b) k = k ≤ b
IsBelow (excluded b) k = k < b
IsBelow unbounded k = Unit

-- A start that is given, where the next number is a `u32`.
unfoldable pub IsStart : Bound → Type 0
IsStart (included b) = b < 2 ^ 32
IsStart (excluded b) = b + 1 < 2 ^ 32
IsStart unbounded = ⊥

unfoldable pub IsEnd : Bound → Type 0
IsEnd (included b) = b + 1 < 2 ^ 32
IsEnd (excluded b) = b < 2 ^ 32
IsEnd unbounded = Unit

module _ (io : Io) (f : Fat) (t : IsTable f) where
  -- A cluster of the table between two bounds.
  unfoldable pub IsBetween : Bound → Bound → ℕ → Type 0
  IsBetween low high k = IsCluster f k × IsAbove low k × IsBelow high k

  start_of_iff :
      (low : Bound) (k : ℕ)
      → IsStart low
      → ((start_of f low ≤ k) → (2 ≤ k) × IsAbove low k)
        × ((2 ≤ k) → IsAbove low k → start_of f low ≤ k)
  unfolding start_of IsStart IsAbove
  start_of_iff (included b) k h = (λ le. (omega arith, omega arith), λ two above. omega arith)
  start_of_iff (excluded b) k h = (λ le. (omega arith, omega arith), λ two above. omega arith)
  start_of_iff unbounded k h = absurd h

  end_of_iff :
      (high : Bound) (k : ℕ)
      → IsEnd high
      → ((k < end_of f high) → (k < f.cluster_count + 2) × IsBelow high k)
        × ((k < f.cluster_count + 2) → IsBelow high k → k < end_of f high)
  unfolding end_of IsEnd IsBelow
  end_of_iff (included b) k h =
      rw (allocable_end_lem f t) (λ lt. (omega arith, omega arith), λ top below. omega arith)
  end_of_iff (excluded b) k h =
      rw (allocable_end_lem f t) (λ lt. (omega arith, omega arith), λ top below. omega arith)
  end_of_iff unbounded k h =
      rw (allocable_end_lem f t) (λ lt. (omega arith, tt), λ top below. omega arith)

  -- Why a run of `n` clusters from `c` on is not longer: it is as long as it may be, the cluster
  -- behind it is taken or out of the range, or a batch ends with it.
  unfoldable pub Stopped : io.Disk → Bound → Bound → (num len c n : ℕ) → Type 0
  Stopped d low high num len c n =
      (n ≡ num)
      ⊎ (get io f d (c + n) ≢ ok free)
      ⊎ (¬ IsBetween low high (c + n))
      ⊎ ((batches : ℕ) × (c + n ≡ start_of f low + batches * len))

  stopped :
      (d : io.Disk) (low high : Bound) (num len c n : ℕ)
      → IsEnd high
      → Stops io f t d num len (start_of f low) (end_of f high) c n
      → Stopped d low high num len c n
  unfolding Stops Stopped Ends IsBetween
  stopped d low high num len c n e (inl (inl full)) = inl full
  stopped d low high num len c n e (inl (inr taken)) = inr (inl taken)
  stopped d low high num len c n e (inr (inl over)) = inr (
      inr (
        inl (λ (inside, above, below).
          let low_end = (end_of_iff high (c + n) e).1 inside.1 below in absurd (omega arith))))
  stopped d low high num len c n e (inr (inr batch)) = inr (inr (inr batch))

  -- On a table that can be read, for a number and a buffer that are not empty, and for a range
  -- whose start is given and whose bounds do not overflow, `find_free` returns the first free
  -- cluster of the table in the range and a number of clusters from there on, at least one, at most
  -- the given number and one batch, which are all free and in the range. The number is less than
  -- the given one only if the cluster behind them is taken or out of the range, or a batch ends
  -- with them. Or it fails with ENOSPC, and no cluster of the table in the range is free.
  pub find_free_lem :
      (d : io.Disk) (low high : Bound) (num len : ℕ)
      → Readable io f t d
      → 0 < num
      → 0 < len
      → IsStart low
      → IsEnd high
      → ((c n : ℕ) × (find_free io f d low high num len ≡ ok (c, n))
          × (0 < n)
          × (n ≤ num)
          × (n ≤ len)
          × ((k : ℕ) → c ≤ k → k < c + n → IsBetween low high k × (get io f d k ≡ ok free))
          × Stopped d low high num len c n
          × ((k : ℕ) → IsBetween low high k → k < c → get io f d k ≢ ok free))
        ⊎ ((find_free io f d low high num len ≡ err enospc)
            × ((k : ℕ) → IsBetween low high k → get io f d k ≢ ok free))
  unfolding Answer IsRun AllFree NoneFree IsBetween
  find_free_lem d low high num len r pos room s e =
      elim (find_free-Answer io f t d low high num len r pos room) [
        | inl (c, n, found, short, stops, (lo, some_free, few, hi, all, first)) ↦ inl (
          c,
          n,
          found,
          some_free,
          few,
          short,
          λ k a b.
              let (two, above) = (start_of_iff low k s).0 (omega arith) in
              let (top, below) = (end_of_iff high k e).0 (omega arith) in
              (((two, top), above, below), all k a b),
          stopped d low high num len c n e stops,
          λ k (inside, above, below) before.
              first k ((start_of_iff low k s).1 inside.0 above) before,
        )
        | inr (failed, nothing) ↦ inr (
          failed,
          λ k (inside, above, below).
              nothing k ((start_of_iff low k s).1 inside.0 above)
                ((end_of_iff high k e).1 inside.1 below),
        )
      ]

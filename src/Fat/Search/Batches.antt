-- ===== src/Fat/Search/Batches.antt =====
-- The loop of `find_free` over the batches of a table that can be read.
use umi.Base.{
  ℕ, zero, suc, ◌+◌, ◌*◌, ◌-◌, ◌≤◌, ◌<◌, ◌≡◌, ◌⊎◌, inl, inr, List, [], ◌∷◌, true, false, leb, ◌==◌,
  none, some, Result, ok, err, length, arith, refl, le_or_lt, min, ◌∙◌, ap,
}
use umi.Fat.Entry.{FatEntry}
use umi.Fat.Table.{Error, enospc, Io, Fat, get_range, entries, offset, read_words}
use umi.Fat.Table.Cells.{IsTable, IsCluster, offset_lem, allocable_end_lem}
use umi.Fat.Table.Updates.{entry_of, get_lem, get_range_raw_lem}
use umi.Fat.Search.{
  Scanned, found, more, scan, find_batches, find_free, Bound, included, excluded, unbounded,
  start_of, end_of, after_batch,
}
use umi.Fat.Search.Scan.{NoneFree, IsRun, Shows, IsState, Outcome, Ends, scan_lem}

module _ (io : Io) (f : Fat) (t : IsTable f) where
  -- The first copy of the table can be read.
  unfoldable pub Readable : io.Disk → Type 0
  Readable d = (c : ℕ) → IsCluster f c → (w : ℕ) × (io.read d (offset f 0 c) ≡ ok w)

  pub start_of-le : (b : Bound) → 2 ≤ start_of f b
  unfolding start_of IsTable
  start_of-le (included b) = omega arith
  start_of-le (excluded b) = omega arith
  start_of-le unbounded = omega (arith, allocable_end_lem f t)

  pub end_of-le : (b : Bound) → end_of f b ≤ f.cluster_count + 2
  unfolding end_of
  end_of-le (included b) = omega (arith, allocable_end_lem f t)
  end_of-le (excluded b) = omega (arith, allocable_end_lem f t)
  end_of-le unbounded = omega (arith, allocable_end_lem f t)

  pub read_words-Shows :
      (d : io.Disk) (start n : ℕ)
      → Readable d
      → 2 ≤ start
      → start + n ≤ f.cluster_count + 2
      → (ws : List ℕ) × (read_words io f d (offset f 0 start) n ≡ ok ws)
        × Shows io f d start (entries start ws)
        × (length (entries start ws) ≡ n)
  unfolding read_words Shows entries Readable IsTable entry_of
  read_words-Shows d start zero r lo hi = ([], refl, tt, refl)
  read_words-Shows d start (suc n) r lo hi =
      let (w, here) = r start (omega arith) in
      let (ws, rest, shows, len) = read_words-Shows d (suc start) n r (omega arith) (omega arith) in
      let step : offset f 0 start + 4 ≡ offset f 0 (suc start) =
        rw
          (
            offset_lem f 0 start t (omega arith) (omega arith),
            offset_lem f 0 (suc start) t (omega arith) (omega arith),
          )
          (omega arith) in
      let got = get_lem io f t d start (omega arith) in
      (w ∷ ws, rw (here, step, rest) refl, (refl, got ∙ rw here refl, shows), ap suc len)

  pub get_range-Shows :
      (d : io.Disk) (start n : ℕ)
      → Readable d
      → 2 ≤ start
      → start + n ≤ f.cluster_count + 2
      → (es : List (ℕ × FatEntry)) × (get_range io f d start n ≡ ok es)
        × Shows io f d start es
        × (length es ≡ n)
  unfolding get_range
  get_range-Shows d start n r lo hi =
      let (ws, read, shows, len) = read_words-Shows d start n r lo hi in
      (entries start ws, rw (get_range_raw_lem io f t d start n hi, read) refl, shows, len)

  -- A run ends with `Ends`, with the range, or with a batch.
  unfoldable pub Stops : io.Disk → (num len lo hi c n : ℕ) → Type 0
  Stops d num len lo hi c n =
      Ends io f d num c n ⊎ (hi ≤ c + n) ⊎ ((batches : ℕ) × (c + n ≡ lo + batches * len))

  -- The first run of free clusters, which one batch holds, or that there is none.
  unfoldable pub Answer : io.Disk → (num len lo hi : ℕ) → Result Error (ℕ × ℕ) → Type 0
  Answer d num len lo hi r =
      ((c n : ℕ) × (r ≡ ok (c, n))
        × (n ≤ len)
        × Stops d num len lo hi c n
        × IsRun io f d num lo hi c n)
      ⊎ ((r ≡ err enospc) × NoneFree io f d lo hi)

  joined :
      (d : io.Disk) (lo mid hi : ℕ)
      → NoneFree io f d lo mid
      → NoneFree io f d mid hi
      → NoneFree io f d lo hi
  unfolding NoneFree
  joined d lo mid hi a b k x y = elim (le_or_lt mid k) [
    | inl above ↦ b k above y
    | inr below ↦ a k x below
  ]

  batch_run :
      (d : io.Disk) (num len lo start hi stop c n : ℕ)
      → lo ≤ start
      → hi ≤ stop
      → hi ≤ start + len
      → NoneFree io f d lo start
      → IsRun io f d num start hi c n
      → Stops d num len lo stop c n
      → Answer d num len lo stop (ok (c, n))
  unfolding IsRun Answer
  batch_run d num len lo start hi stop c n le high short before (a, b, g, h, all, first) stops =
      inl (
        c,
        n,
        refl,
        omega arith,
        stops,
        (omega arith, b, g, omega arith, all, joined d lo start c before first),
      )

  after_batch_lem :
      (d : io.Disk) (num len lo start hi stop : ℕ) (s : Scanned) (rest : ℕ → Result Error (ℕ × ℕ))
      → lo ≤ start
      → hi ≤ stop
      → hi ≤ start + len
      → NoneFree io f d lo start
      → Outcome io f d num start hi s
      → (stop ≤ hi) ⊎ ((batches : ℕ) × (hi ≡ lo + batches * len))
      → (NoneFree io f d lo hi → Answer d num len lo stop (rest 0))
      → Answer d num len lo stop (after_batch s rest)
  unfolding Outcome IsState Stops
  after_batch_lem d num len lo start hi stop (found n none) rest le high short before o ends on =
      absurd o
  after_batch_lem d num len lo start hi stop (found n (some c)) rest le high short before o ends
        on =
      batch_run d num len lo start hi stop c n le high short before o.0 (inl o.1)
  after_batch_lem d num len lo start hi stop (more n (some c)) rest le high short before o ends on =
      batch_run d num len lo start hi stop c n le high short before o.0
        (elim ends [ inl over ↦ inr (inl (omega arith)) | inr (j, e) ↦ inr (inr (j, o.1 ∙ e)) ])
  after_batch_lem d num len lo start hi stop (more n none) rest le high short before o ends on =
      rw (o.0) (on (joined d lo start hi before o.1))

  batch_end :
      (len lo start stop m j : ℕ)
      → start ≡ lo + j * len
      → m ≡ min len (stop - start)
      → (stop ≤ start + m) ⊎ ((batches : ℕ) × (start + m ≡ lo + batches * len))
  batch_end len lo start stop m j at e = elim (le_or_lt len (stop - start)) [
    | inl whole ↦
        let next : suc j * len ≡ len + j * len = omega arith in inr (suc j, rw next (omega arith))
    | inr part ↦ inl (omega arith)
  ]

  find_batches_lem :
      (fuel : ℕ) (d : io.Disk) (num len lo start stop : ℕ)
      → Readable d
      → 0 < num
      → 0 < len
      → 2 ≤ start
      → lo ≤ start
      → stop ≤ f.cluster_count + 2
      → stop - start ≤ fuel
      → (batches : ℕ) × (start ≡ lo + batches * len)
      → NoneFree io f d lo (min start stop)
      → Answer d num len lo stop (find_batches io f fuel d num len start stop 0)
  unfolding find_batches Answer NoneFree IsState
  find_batches_lem zero d num len lo start stop r pos room two le hi enough (j, at) before =
      inr (refl, λ k a b. before k a (omega arith))
  find_batches_lem (suc fuel) d num len lo start stop r pos room two le hi enough (j, at) before =
      elim (le_or_lt stop start) [
        | inl past ↦
            let over : leb stop start ≡ true = ground arith in
            rw over (inr (refl, λ k a b. before k a (omega arith)))
        | inr inside ↦
            let over : leb stop start ≡ false = ground arith in
            let (es, got, shows, count) =
              get_range-Shows d start (min len (stop - start)) r two (omega arith) in
            let first : IsState io f d num start start 0 none =
              (refl, λ k a b. absurd (omega arith)) in
            rw (over, got)
              (after_batch_lem d num len lo start (start + length es) stop (scan num 0 none es)
                (λ n. find_batches io f fuel d num len (start + len) stop n) le (omega arith)
                (omega arith) (λ k a b. before k a (omega arith))
                (scan_lem io f d num start start 0 none es pos (omega arith) shows first)
                (batch_end len lo start stop (length es) j at count)
                (λ free_of.
                  find_batches_lem fuel d num len lo (start + len) stop r pos room (omega arith)
                    (omega arith) hi (omega arith) (suc j, omega arith)
                    (λ k a b. free_of k a (omega arith))))
      ]

  -- The bounds of the loop are those of the code.
  pub find_free-Answer :
      (d : io.Disk) (low high : Bound) (num len : ℕ)
      → Readable d
      → 0 < num
      → 0 < len
      → Answer d num len (start_of f low) (end_of f high) (find_free io f d low high num len)
  unfolding find_free NoneFree
  find_free-Answer d low high num len r pos room =
      let some_room : (len == 0) ≡ false = ground arith in
      rw some_room (
        find_batches_lem (end_of f high - start_of f low) d num len (start_of f low)
          (start_of f low) (end_of f high) r pos room (start_of-le low) (omega arith)
          (end_of-le high) (omega arith) (0, omega arith) (λ k a b. absurd (omega arith)))

-- ===== src/Fat/Search/Space.antt =====
-- When `allocate` succeeds, on a device that reads and writes every entry.
use umi.Base.{
  ℕ, suc, ◌+◌, ◌-◌, ◌≤◌, ◌<◌, ◌≡◌, ◌⊎◌, inl, inr, true, false, ltb, ◌==◌, Option, none, some, ok,
  err, arith, refl, le_or_lt, min, max, ◌∙◌,
}
use umi.Fat.Entry.{FatEntry, next, end, from_raw}
use umi.Fat.Table.{enospc, Io, Fat, get, allocable_end, offset}
use umi.Fat.Table.Cells.{IsTable, IsCluster, allocable_end_lem}
use umi.Fat.Table.Updates.{get_lem, entry_of, get_range_raw_lem, read_words-All}
use umi.Fat.Table.Success.{Writable, set_ok, set_range_ok}
use umi.Fat.Search.{
  find_free, find_batches, included, excluded, unbounded, start_of, end_of, allocate, set_prev,
  set_links, nexts, hint_or_start, allocate_batch_len,
}
use umi.Fat.Search.Scan.{NoneFree, IsRun}
use umi.Fat.Search.Batches.{Readable, Answer, find_free-Answer, read_words-Shows}

module _ (io : Io) (f : Fat) (t : IsTable f) where
  -- The second search, which is to go from the start of the table to the hint, is of no cluster.
  second_search :
      (d : io.Disk) (hint num len : ℕ)
      → 0 < len
      → find_free io f d unbounded (excluded hint) num len ≡ err enospc
  unfolding find_free find_batches start_of end_of
  second_search d hint num len room =
      let some_room : (len == 0) ≡ false = ground arith in
      let none_left : min hint (allocable_end f) - allocable_end f ≡ 0 = omega arith in
      rw (some_room, none_left) refl

  pub got_entry :
      (d : io.Disk) (c : ℕ)
      → Readable io f t d
      → IsCluster f c
      → (e : FatEntry) × (get io f d c ≡ ok e)
  unfolding Readable entry_of
  got_entry d c r hc =
      let (w, read) = r c hc in (from_raw w c, get_lem io f t d c hc ∙ rw read refl)

  set_prev_ok :
      (d : io.Disk) (prev : Option ℕ) (ret : ℕ)
      → Readable io f t d
      → Writable io f t
      → ((p : ℕ) → prev ≡ some p → IsCluster f p)
      → (e : io.Disk) × (set_prev io f d prev ret ≡ ok e)
  unfolding set_prev
  set_prev_ok d none ret r can known = (d, refl)
  set_prev_ok d (some p) ret r can known =
      let (old, got) = got_entry d p r (known p refl) in
      set_ok io f t d p (next ret) old can (known p refl) got

  set_links_ok :
      (d : io.Disk) (len ret n : ℕ)
      → Readable io f t d
      → Writable io f t
      → 2 ≤ ret
      → ret + n ≤ f.cluster_count + 2
      → n ≤ suc len
      → (e : io.Disk) × (set_links io f d len ret n ≡ ok e)
  unfolding set_links
  set_links_ok d len ret n r can lo hi few = elim (le_or_lt n 1) [
    | inl single ↦ let one : ltb 1 n ≡ false = ground arith in (d, rw one refl)
    | inr several ↦
        let more : ltb 1 n ≡ true = ground arith in
        let fits : ltb len (n - 1) ≡ false = ground arith in
        let (ws, read, shows, len_es) = read_words-Shows io f t d ret (n - 1) r lo (omega arith) in
        let len_ws = (read_words-All io f t d (offset f 0 ret) (n - 1) ws read).1 in
        let (e, done_range) =
          set_range_ok io f t d ret (n - 1) ws (nexts (ret + 1) (n - 1)) can lo (omega arith)
            (get_range_raw_lem io f t d ret (n - 1) (omega arith) ∙ read) in
        (e, rw (more, fits) done_range)
  ]

  -- On a device whose entries can all be read and written, `allocate` takes the first free run from
  -- the hint on, and fails with ENOSPC exactly where no cluster from the hint on is free, whether
  -- or not clusters before the hint are.
  pub allocate_space :
      (d : io.Disk) (prev hint : Option ℕ) (num : ℕ)
      → ((e : io.Disk) → Readable io f t e)
      → Writable io f t
      → 0 < num
      → ((p : ℕ) → prev ≡ some p → IsCluster f p)
      → ((e : io.Disk) × (ret n : ℕ) × (allocate io f d prev hint num ≡ ok (e, (ret, n)))
          × IsRun io f d num (max (hint_or_start hint) 2) (f.cluster_count + 2) ret n)
        ⊎ ((allocate io f d prev hint num ≡ err enospc)
            × NoneFree io f d (max (hint_or_start hint) 2) (f.cluster_count + 2))
  unfolding allocate Answer start_of end_of IsRun
  allocate_space d prev hint num r can pos known =
      let start = hint_or_start hint in
      let len = min allocate_batch_len num in
      let bound = allocable_end_lem f t in
      elim (find_free-Answer io f t d (included start) unbounded num len (r d) pos (omega arith)) [
        | inl (ret, n, found, short, stops, (lo, some_free, few, hi, all, first)) ↦
            let (d1, linked) = set_prev_ok d prev ret (r d) can known in
            let (d2, chained) =
              set_links_ok d1 len ret n (r d1) can (omega arith) (omega arith) (omega arith) in
            let (old, got) = got_entry d2 (ret + n - 1) (r d2) (omega arith) in
            let (e, ended) = set_ok io f t d2 (ret + n - 1) end old can (omega arith) got in
            inl (
              e,
              ret,
              n,
              rw (found, linked, chained, ended) refl,
              (lo, some_free, few, omega arith, all, first),
            )
        | inr (failed, nothing) ↦
            inr
              (rw (failed, second_search d start num len (omega arith)) refl, rw (← bound) nothing)
      ]

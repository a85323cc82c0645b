-- ===== src/Fat/Search/Allocate.antt =====
-- `allocate`: the clusters that it takes were free, and become a chain.
use umi.Base.{
  ℕ, zero, suc, ◌+◌, ◌-◌, ◌≤◌, ◌<◌, ◌≡◌, ◌⊎◌, inl, inr, Bool, false, ltb, leb, ◌==◌, ◌&&◌,
  if◌then◌else◌, Option, none, some, Result, ok, err, >>=-ok, length, arith, refl, le_or_lt, min,
  ◌∙◌, ap, All,
}
use umi.Fat.Entry.{FatEntry, next, end, IsEntry}
use umi.Fat.Table.{Error, einval, enospc, panicked, device, Io, Fat, get, set, set_range}
use umi.Fat.Table.Cells.{IsTable, IsCluster}
use umi.Fat.Table.Writes.{over}
use umi.Fat.Table.Updates.{Agree, get-set, get-set_range}
use umi.Fat.Search.{
  find_free, Bound, included, excluded, unbounded, start_of, end_of, or_enospc, allocate, set_prev,
  set_links, nexts, hint_or_start, allocate_batch_len,
}
use umi.Fat.Search.Scan.{AllFree, IsRun}
use umi.Fat.Search.Batches.{Readable, Answer, find_free-Answer, start_of-le, end_of-le}

length-nexts : (from n : ℕ) → length (nexts from n) ≡ n
unfolding nexts
length-nexts from zero = refl
length-nexts from (suc n) = ap suc (length-nexts (suc from) n)

nexts-IsEntry : (from n : ℕ) → 0 < from → from + n ≤ 268435447 → All IsEntry (nexts from n)
unfolding nexts IsEntry
nexts-IsEntry from zero pos room = tt
nexts-IsEntry from (suc n) pos room =
    ((pos, omega arith), nexts-IsEntry (suc from) n (omega arith) (omega arith))

over-nexts :
    (start n k : ℕ) (r : Result Error FatEntry)
    → over start (nexts (suc start) n) k r
      ≡ (if leb start k && ltb k (start + n) then ok (next (suc k)) else r)
unfolding over nexts
over-nexts start zero k r = ground arith
over-nexts start (suc n) k r = ground (arith, over-nexts (suc start) n k r)

-- An entry of a chain of consecutive clusters that ends before `stop`.
abbrev pub link : ℕ → ℕ → FatEntry
link k stop = if suc k == stop then end else next (suc k)

abbrev pub is_some : Option ℕ → ℕ → Bool
is_some none k = false
is_some (some p) k = p == k

or_enospc-ok :
    {A : Type 0} (r other : Result Error A) (a : A)
    → or_enospc r other ≡ ok a
    → (r ≡ ok a) ⊎ (other ≡ ok a)
or_enospc-ok (ok b) other a h = inl h
or_enospc-ok (err einval) other a h = absurd (cc)
or_enospc-ok (err enospc) other a h = inr h
or_enospc-ok (err panicked) other a h = absurd (cc)
or_enospc-ok (err (device n)) other a h = absurd (cc)

ok_parts :
    {A B C : Type 0} (a d : A) (b e : B) (c g : C)
    → ◌≡◌ {A = Result Error (A × (B × C))} (ok (a, (b, c))) (ok (d, (e, g)))
    → (a ≡ d) × (b ≡ e) × (c ≡ g)
ok_parts a d b e c g h = (cc, cc, cc)

module _ (io : Io) (f : Fat) (t : IsTable f) where
  -- Between the tables before and after, entries change to what `change` says.
  unfoldable pub Step :
      (d e : io.Disk) (change : ℕ → Result Error FatEntry → Result Error FatEntry) → Type 0
  Step d e change =
      ((k : ℕ) → IsCluster f k → get io f e k ≡ change k (get io f d k))
      × (Agree io f t d → Agree io f t e)

  set_prev_lem :
      (d e : io.Disk) (prev : Option ℕ) (ret : ℕ)
      → ((p : ℕ) → prev ≡ some p → IsCluster f p)
      → IsCluster f ret
      → set_prev io f d prev ret ≡ ok e
      → Step d e (λ k r. if is_some prev k then ok (next ret) else r)
  unfolding set_prev Step IsEntry IsTable
  set_prev_lem d e none ret known inside h = let same : d ≡ e = cc in rw same (λ k hk. refl, λ a. a)
  set_prev_lem d e (some p) ret known inside h =
      get-set io f t d e p (next ret) (known p refl) (omega arith) h

  set_links_lem :
      (d e : io.Disk) (len ret n : ℕ)
      → IsCluster f ret
      → ret + n ≤ f.cluster_count + 2
      → 0 < n
      → set_links io f d len ret n ≡ ok e
      → Step d e (λ k r. if leb ret k && ltb k (ret + (n - 1)) then ok (next (suc k)) else r)
  unfolding set_links Step IsTable
  set_links_lem d e len ret n inside room pos h = elim (le_or_lt n 1) [
    | inl single ↦
        let one : n ≡ 1 = omega arith in
        let same : d ≡ e = ground (arith) in rw same (λ k hk. ground arith, λ a. a)
    | inr several ↦
        let es = nexts (ret + 1) (n - 1) in
        let from_suc : ret + 1 ≡ suc ret = omega arith in
        let len_es = length-nexts (ret + 1) (n - 1) in
        let done_range : set_range io f d ret (length es) es ≡ ok e = ground (arith, len_es) in
        let (cells, agree) =
          get-set_range io f t d e ret es inside.0 (omega arith)
            (nexts-IsEntry (ret + 1) (n - 1) (omega arith) (omega arith)) done_range in
        (λ k hk. cells k hk ∙ rw from_suc (over-nexts ret (n - 1) k (get io f d k)), agree)
  ]

  unfoldable pub FreeRun : io.Disk → (num ret n : ℕ) → Type 0
  FreeRun d num ret n =
      (2 ≤ ret)
      × (0 < n)
      × (n ≤ num)
      × (ret + n ≤ f.cluster_count + 2)
      × AllFree io f d ret (ret + n)

  answer_lem :
      (d : io.Disk) (num len lo hi ret n : ℕ) (r : Result Error (ℕ × ℕ))
      → 2 ≤ lo
      → hi ≤ f.cluster_count + 2
      → Answer io f t d num len lo hi r
      → r ≡ ok (ret, n)
      → FreeRun d num ret n
  unfolding Answer IsRun FreeRun
  answer_lem d num len lo hi ret n r two top
        (inl (c, m, same, short, stops, (a, b, g, h, all, first))) e =
      let ret_eq : c ≡ ret = cc in
      let n_eq : m ≡ n = cc in rw (← ret_eq, ← n_eq) (omega arith, b, g, omega arith, all)
  answer_lem d num len lo hi ret n r two top (inr (failed, x)) e = absurd (cc)

  -- A search that succeeds, of either range, finds a run of free clusters of the table.
  pub search_lem :
      (d : io.Disk) (start num len ret n : ℕ)
      → Readable io f t d
      → 0 < num
      → 0 < len
      → or_enospc
          (find_free io f d (included start) unbounded num len)
          (find_free io f d unbounded (excluded start) num len)
        ≡ ok (ret, n)
      → FreeRun d num ret n
  search_lem d start num len ret n r pos room h =
      let search = λ (low high : Bound) (found : find_free io f d low high num len ≡ ok (ret, n)).
        answer_lem d num len (start_of f low) (end_of f high) ret n
          (find_free io f d low high num len) (start_of-le io f t low) (end_of-le io f t high)
          (find_free-Answer io f t d low high num len r pos room) found in
      elim (or_enospc-ok (find_free io f d (included start) unbounded num len)
        (find_free io f d unbounded (excluded start) num len) (ret, n) h) [
          | inl first ↦ search (included start) unbounded first
          | inr second ↦ search unbounded (excluded start) second
        ]

  unfoldable pub Allocated : (d e : io.Disk) (prev : Option ℕ) (ret n : ℕ) → Type 0
  Allocated d e prev ret n =
      (2 ≤ ret)
      × (ret + n ≤ f.cluster_count + 2)
      × AllFree io f d ret (ret + n)
      × Step d e (λ k r.
        if leb ret k && ltb k (ret + n)
        then ok (link k (ret + n))
        else if is_some prev k
        then ok (next ret)
        else r)

  linked_lem :
      (d d1 d2 e : io.Disk) (prev : Option ℕ) (len num ret n : ℕ)
      → ((p : ℕ) → prev ≡ some p → IsCluster f p)
      → FreeRun d num ret n
      → set_prev io f d prev ret ≡ ok d1
      → set_links io f d1 len ret n ≡ ok d2
      → set io f d2 (ret + n - 1) end ≡ ok e
      → Allocated d e prev ret n
  unfolding Allocated Step FreeRun IsEntry
  linked_lem d d1 d2 e prev len num ret n known (lo, some_free, few, hi, all) linked chained ended =
      let (cells1, agree1) = set_prev_lem d d1 prev ret known (omega arith) linked in
      let (cells2, agree2) = set_links_lem d1 d2 len ret n (omega arith) hi some_free chained in
      let (cells3, agree3) = get-set io f t d2 e (ret + n - 1) end (omega arith) tt ended in
      (
        lo,
        hi,
        all,
        (
          (λ k hk. rw (cells3 k hk, cells2 k hk, cells1 k hk) (ground arith)),
          λ a. agree3 (agree2 (agree1 a)),
        ),
      )

  same_parts :
      (d d3 e : io.Disk) (prev : Option ℕ) (c ret m n num : ℕ)
      → (d3 ≡ e) × (c ≡ ret) × (m ≡ n)
      → (0 < m) × (m ≤ num) × Allocated d d3 prev c m
      → (0 < n) × (n ≤ num) × Allocated d e prev ret n
  same_parts d d3 e prev c ret m n num (a, b, g) r = rw (← a, ← b, ← g) r

  -- On a table that can be read, a call of `allocate` that succeeds returns at least one and at
  -- most `num` consecutive clusters of the table, which were free; their entries are now a chain
  -- that ends at the last of them, the entry of `prev`, if it is not among them, links to the
  -- first, every other entry is what it was, and copies of the table that were equal still are.
  pub allocate_lem :
      (d e : io.Disk) (prev hint : Option ℕ) (num ret n : ℕ)
      → Readable io f t d
      → 0 < num
      → ((p : ℕ) → prev ≡ some p → IsCluster f p)
      → allocate io f d prev hint num ≡ ok (e, (ret, n))
      → (0 < n) × (n ≤ num) × Allocated d e prev ret n
  unfolding allocate FreeRun
  allocate_lem d e prev hint num ret n r pos known h =
      let start = hint_or_start hint in
      let len = min allocate_batch_len num in
      let ((c, m), searched, more) =
        >>=-ok
          (or_enospc (find_free io f d (included start) unbounded num len)
            (find_free io f d unbounded (excluded start) num len))
          _ h in
      let run = search_lem d start num len c m r pos (omega arith) searched in
      let (d1, linked, more1) = >>=-ok (set_prev io f d prev c) _ more in
      let (d2, chained, more2) = >>=-ok (set_links io f d1 len c m) _ more1 in
      let (d3, ended, more3) = >>=-ok (set io f d2 (c + m - 1) end) _ more2 in
      same_parts d d3 e prev c ret m n num (ok_parts d3 e c ret m n more3)
        (run.1, run.2, linked_lem d d1 d2 d3 prev len num c m known run linked chained ended)

-- ===== src/Fat/File/Growth.antt =====
-- A file that grows over several runs: each run is linked to the first cluster of the one before.
use umi.Base.{
  ℕ, suc, ◌+◌, ◌-◌, ◌≤◌, ◌<◌, ◌≡◌, refl, ◌∙◌, true, false, ltb, leb, ◌==◌, ◌||◌, if◌then◌else◌,
  Option, some, Result, ok, >>=-ok, arith, Bool-cases, inl, inr,
}
use umi.Fat.Entry.{FatEntry, free, next, end, is_free}
use umi.Fat.Table.{Error, Io, Fat, get}
use umi.Fat.Table.Cells.{IsTable, IsCluster}
use umi.Fat.Search.{allocate}
use umi.Fat.Search.Scan.{AllFree}
use umi.Fat.Search.Batches.{Readable}
use umi.Fat.Search.Allocate.{Allocated, Step, allocate_lem, is_some, link}
use umi.Fat.Volume.{BiosParameterBlock, FsInfoSector, alloc_cluster, zero_clusters}
use umi.Fat.Volume.Counts.{in_run}
use umi.Fat.File.{Grown, grow, after_alloc}

same_call :
    {A B : Type 0} (d e : A) (i after : B) (c ret m n : ℕ)
    → ◌≡◌ {A = Result Error ((A × B) × (ℕ × ℕ))} (ok ((d, i), (c, m))) (ok ((e, after), (ret, n)))
    → ◌≡◌ {A = Result Error (A × (ℕ × ℕ))} (ok (d, (c, m))) (ok (e, (ret, n)))
same_call d e i after c ret m n h =
    let disks : d ≡ e = cc in
    let starts : c ≡ ret = cc in let sizes : m ≡ n = cc in rw (disks, starts, sizes) refl

busy : (r : Result Error FatEntry) (e : FatEntry) → r ≡ ok e → r ≡ ok free → is_free e ≡ false → ⊥
unfolding is_free
busy r e h g q = let same : e ≡ free = cc in cc

module _ (io : Io) (f : Fat) (t : IsTable f) where
  allocated_entries :
      (d e : io.Disk) (prev hint : Option ℕ) (num ret n k : ℕ)
      → Readable io f t d
      → 0 < num
      → ((p : ℕ) → prev ≡ some p → IsCluster f p)
      → allocate io f d prev hint num ≡ ok (e, (ret, n))
      → IsCluster f k
      → (get io f e k ≡ (
          if in_run ret n k
          then ok (link k (ret + n))
          else if is_some prev k
          then ok (next ret)
          else get io f d k))
        × (in_run ret n k ≡ true → get io f d k ≡ ok free)
  unfolding Allocated Step AllFree
  allocated_entries d e prev hint num ret n k r pos known h hk =
      let (some_run, few, (lo, hi, all, (cells, agree))) =
        allocate_lem io f t d e prev hint num ret n r pos known h in
      (cells k hk, λ inside. all k (ground arith) (ground arith))

  room :
      (d e : io.Disk) (prev hint : Option ℕ) (num ret n : ℕ)
      → Readable io f t d
      → 0 < num
      → ((p : ℕ) → prev ≡ some p → IsCluster f p)
      → allocate io f d prev hint num ≡ ok (e, (ret, n))
      → (2 ≤ ret) × (ret + n ≤ f.cluster_count + 2) × (0 < n)
  unfolding Allocated
  room d e prev hint num ret n r pos known h =
      let (some_run, few, (lo, hi, all, step)) =
        allocate_lem io f t d e prev hint num ret n r pos known h in
      (lo, hi, some_run)

  alloc_parts :
      (b : BiosParameterBlock) (d e : io.Disk) (info after : FsInfoSector) (prev : Option ℕ)
      (num ret n : ℕ)
      → alloc_cluster io f b d info prev num false ≡ ok ((e, after), (ret, n))
      → allocate io f d prev info.next_free_cluster num ≡ ok (e, (ret, n))
  unfolding alloc_cluster zero_clusters
  alloc_parts b d e info after prev num ret n h =
      let ((d1, (c, m)), got, more) =
        >>=-ok (allocate io f d prev info.next_free_cluster num) _ h in
      got ∙ same_call d1 e _ after c ret m n more

  -- Where the first round of the loop of `write_at` allocates at least two clusters and is not the
  -- last, the second round allocates behind the first of these clusters: its entry then links to
  -- the new run, and the last of them stays the end of a chain.
  pub grow_second :
      (b : BiosParameterBlock) (fuel : ℕ) (g : Grown io.Disk) (d e : io.Disk)
      (info after : FsInfoSector) (prev : Option ℕ) (times gap new m ret n : ℕ)
      → Readable io f t g.disk
      → Readable io f t d
      → ((p : ℕ) → prev ≡ some p → IsCluster f p)
      → alloc_cluster io f b g.disk g.info prev times false ≡ ok ((d, info), (new, m))
      → 2 ≤ m
      → m ≤ gap
      → m < times
      → alloc_cluster io f b d info (some new) (times - m) false ≡ ok ((e, after), (ret, n))
      → (grow io f b (suc fuel) g prev times gap 0
          ≡ grow io f b fuel (after_alloc io f b g ((d, info), (new, m))) (some new) times gap m)
        × (get io f e new ≡ ok (next ret))
        × (get io f e (new + m - 1) ≡ ok end)
  unfolding grow is_free
  grow_second b fuel g d e info after prev times gap new m ret n r1 r2 known first several hole less
        second =
      let a1 = alloc_parts b g.disk d g.info info prev times new m first in
      let a2 = alloc_parts b d e info after (some new) (times - m) ret n second in
      let hint1 = g.info.next_free_cluster in
      let (lo, hi, some_run) = room g.disk d prev hint1 times new m r1 (omega arith) known a1 in
      let linked : (p : ℕ) → some new ≡ some p → IsCluster f p =
        λ p q. let same : new ≡ p = cc in rw (← same) (lo, omega arith) in
      let start : IsCluster f new = (lo, omega arith) in
      let last : IsCluster f (new + m - 1) = (omega arith, omega arith) in
      let (first_at, first_free) =
        allocated_entries g.disk d prev hint1 times new m new r1 (omega arith) known a1 start in
      let (last_at, last_free) =
        allocated_entries g.disk d prev hint1 times new m (new + m - 1) r1 (omega arith) known a1
          last in
      let in_first : in_run new m new ≡ true = ground arith in
      let in_last : in_run new m (new + m - 1) ≡ true = ground arith in
      let links_on : link new (new + m) ≡ next (suc new) = ground arith in
      let ends : link (new + m - 1) (new + m) ≡ end = ground arith in
      let was_first : get io f d new ≡ ok (next (suc new)) =
        first_at ∙ rw (in_first, links_on) refl in
      let was_last : get io f d (new + m - 1) ≡ ok end = last_at ∙ rw (in_last, ends) refl in
      let (first_after, first_new) =
        allocated_entries d e (some new) info.next_free_cluster (times - m) ret n new r2
          (omega arith) linked a2 start in
      let (last_after, last_new) =
        allocated_entries d e (some new) info.next_free_cluster (times - m) ret n (new + m - 1) r2
          (omega arith) linked a2 last in
      let self : (new == new) ≡ true = ground arith in
      let other : (new == new + m - 1) ≡ false = ground arith in
      let goes_on : (ltb gap (0 + m) || leb times (0 + m)) ≡ false = ground arith in
      let none_yet : times - 0 ≡ times = omega arith in
      let counted : 0 + m ≡ m = omega arith in
      (
        rw (none_yet, first, goes_on, counted) refl,
        first_after ∙ elim (Bool-cases (in_run ret n new)) [
          | inl inside ↦
              absurd (busy (get io f d new) (next (suc new)) was_first (first_new inside) refl)
          | inr outside ↦ rw (outside, self) refl
        ],
        last_after ∙ elim (Bool-cases (in_run ret n (new + m - 1))) [
          | inl inside ↦
              absurd (busy (get io f d (new + m - 1)) end was_last (last_new inside) refl)
          | inr outside ↦ rw (outside, other) was_last
        ],
      )

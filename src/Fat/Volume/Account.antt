-- ===== src/Fat/Volume/Account.antt =====
-- `alloc_cluster` takes from the count what it takes from the table.
use umi.Base.{
  ℕ, zero, suc, ◌+◌, ◌-◌, ◌%◌, ◌^◌, ◌≤◌, ◌<◌, ◌≡◌, ◌≢◌, refl, sym, ap, ◌∙◌, true, false,
  if◌then◌else◌, Option, none, some, Result, ok, >>=-ok, arith, Bool-cases, inl, inr,
}
use umi.Fat.Entry.{FatEntry, free, next, bad, end, is_free}
use umi.Fat.Table.{Error, Io, Fat, get, count_from, count_free, unwrap, allocable_end}
use umi.Fat.Table.Cells.{IsTable, IsCluster, allocable_end_lem}
use umi.Fat.Search.{allocate}
use umi.Fat.Search.Scan.{AllFree}
use umi.Fat.Search.Batches.{Readable}
use umi.Fat.Search.Allocate.{Allocated, Step, allocate_lem, is_some, link}
use umi.Fat.Search.Space.{got_entry}
use umi.Fat.Volume.{
  BiosParameterBlock, FsInfoSector, alloc_cluster, map_free_clusters, map_count,
  set_next_free_cluster, zero_clusters,
}
use umi.Fat.Volume.Counts.{Fewer, in_run, count_free_lem}

taken : (e : FatEntry) → is_free e ≡ true → e ≡ free
unfolding is_free
taken free h = refl
taken (next n) h = absurd (cc)
taken bad h = absurd (cc)
taken end h = absurd (cc)

is_some-eq : (prev : Option ℕ) (k : ℕ) → is_some prev k ≡ true → prev ≡ some k
is_some-eq none k h = absurd (cc)
is_some-eq (some p) k h = ap some (ground arith)

module _ (io : Io) (f : Fat) (t : IsTable f) where
  count_from-le : (d : io.Disk) (k m x : ℕ) → count_from io f d k m ≡ ok x → x ≤ m
  unfolding count_from
  count_from-le d k zero x h = let same : 0 ≡ x = cc in omega arith
  count_from-le d k (suc m) x h =
      let (e, got, more) = >>=-ok (unwrap (get io f d k)) _ h in
      let (y, rest, last) = >>=-ok (count_from io f d (suc k) m) _ more in
      let few = count_from-le d (suc k) m y rest in
      let sum : (if is_free e then suc y else y) ≡ x = cc in ground (arith, sum)

  link_taken : (k stop : ℕ) → is_free (link k stop) ≡ false
  unfolding is_free
  link_taken k stop = ground arith

  kept_taken :
      (d : io.Disk) (a : FatEntry) (k : ℕ) (prev : Option ℕ)
      → ((p : ℕ) → prev ≡ some p → get io f d p ≢ ok free)
      → get io f d k ≡ ok a
      → is_some prev k ≡ true
      → is_free a ≡ false
  kept_taken d a k prev linked at_d before = elim (Bool-cases (is_free a)) [
    | inl vacant ↦ absurd (linked k (is_some-eq prev k before) (at_d ∙ ap ok (taken a vacant)))
    | inr other ↦ other
  ]

  Allocated-Fewer :
      (d e : io.Disk) (prev : Option ℕ) (ret n : ℕ)
      → Readable io f t d
      → ((p : ℕ) → prev ≡ some p → get io f d p ≢ ok free)
      → Allocated io f t d e prev ret n
      → Fewer io f t d e ret n
  unfolding Fewer Allocated Step AllFree is_free
  Allocated-Fewer d e prev ret n r linked (lo, hi, all, (cells, agree)) k hk =
      let (a, at_d) = got_entry io f t d k r hk in
      elim (Bool-cases (in_run ret n k)) [
        | inl inside ↦
            let was : ok a ≡ ok free = sym at_d ∙ all k (ground arith) (ground arith) in
            let alike : a ≡ free = cc in
            let now : get io f e k ≡ ok (link k (ret + n)) = cells k hk ∙ rw inside refl in
            (a, link k (ret + n), at_d, now, rw (alike, inside) refl, λ h. link_taken k (ret + n))
        | inr outside ↦ elim (Bool-cases (is_some prev k)) [
          | inl before ↦
              let now : get io f e k ≡ ok (next ret) = cells k hk ∙ rw (outside, before) refl in
              (
                a,
                next ret,
                at_d,
                now,
                rw outside (kept_taken d a k prev linked at_d before),
                λ h. refl,
              )
          | inr other ↦
              let now : get io f e k ≡ ok a = cells k hk ∙ rw (outside, other) at_d in
              (a, a, at_d, now, rw outside refl, λ h. absurd (cc))
        ]
      ]

  minus_run : (x y n : ℕ) → x ≡ y + n → x < 2 ^ 32 → (x + 2 ^ 32 - n) % 2 ^ 32 ≡ y
  minus_run x y n h small = omega arith

  count_free-lt : (d : io.Disk) (x : ℕ) → count_free io f d ≡ ok x → x < 2 ^ 32
  unfolding count_free IsTable
  count_free-lt d x h =
      let few = count_from-le d 2 (allocable_end f - 2) x h in omega (arith, allocable_end_lem f t)

  -- The count of a sector is that of the table, and `n` less than before.
  unfoldable pub Counted : (e : io.Disk) (after : FsInfoSector) (x n : ℕ) → Type 0
  Counted e after x n =
      (y : ℕ) × (after.free_cluster_count ≡ some y) × (count_free io f e ≡ ok y) × (x ≡ y + n)

  same_parts :
      (d e : io.Disk) (i after : FsInfoSector) (c ret m n x : ℕ)
      → ◌≡◌ {A = Result Error ((io.Disk × FsInfoSector) × (ℕ × ℕ))}
          (ok ((d, i), (c, m)))
          (ok ((e, after), (ret, n)))
      → Counted d i x m
      → Counted e after x n
  same_parts d e i after c ret m n x h r =
      let disks : d ≡ e = cc in
      let infos : i ≡ after = cc in let sizes : m ≡ n = cc in rw (← disks, ← infos, ← sizes) r

  allocate-count :
      (d e : io.Disk) (info : FsInfoSector) (prev hint : Option ℕ) (num ret n x : ℕ)
      → Readable io f t d
      → 0 < num
      → ((p : ℕ) → prev ≡ some p → IsCluster f p × (get io f d p ≢ ok free))
      → info.free_cluster_count ≡ some x
      → count_free io f d ≡ ok x
      → allocate io f d prev hint num ≡ ok (e, (ret, n))
      → Counted e
          (map_free_clusters
            (λ k. (k + 2 ^ 32 - n) % 2 ^ 32)
            (set_next_free_cluster ((ret + n) % 2 ^ 32) info))
          x
          n
  unfolding Counted map_free_clusters map_count set_next_free_cluster Allocated
  allocate-count d e info prev hint num ret n x r pos known counted held h =
      let (some_run, few, run) =
        allocate_lem io f t d e prev hint num ret n r pos (λ p q. (known p q).0) h in
      let fewer = Allocated-Fewer d e prev ret n r (λ p q. (known p q).1) run in
      let (y, left, sum) = count_free_lem io f t d e ret n x fewer run.0 run.1 held in
      (y, rw counted (ap some (minus_run x y n sum (count_free-lt d x held))), left, sum)

  -- On a table that can be read, where the previous cluster, if there is one, is not free, and
  -- where the count of free clusters in the information sector is that of the table, an allocation
  -- without zeros keeps it so; the count is less by the clusters that were allocated.
  pub alloc_cluster-count :
      (d e : io.Disk) (b : BiosParameterBlock) (info after : FsInfoSector) (prev : Option ℕ)
      (num ret n x : ℕ)
      → Readable io f t d
      → 0 < num
      → ((p : ℕ) → prev ≡ some p → IsCluster f p × (get io f d p ≢ ok free))
      → info.free_cluster_count ≡ some x
      → count_free io f d ≡ ok x
      → alloc_cluster io f b d info prev num false ≡ ok ((e, after), (ret, n))
      → (y : ℕ) × (after.free_cluster_count ≡ some y) × (count_free io f e ≡ ok y) × (x ≡ y + n)
  unfolding alloc_cluster zero_clusters Counted
  alloc_cluster-count d e b info after prev num ret n x r pos known counted held h =
      let ((d1, (c, m)), got, more) =
        >>=-ok (allocate io f d prev info.next_free_cluster num) _ h in
      same_parts d1 e
        (map_free_clusters (λ k. (k + 2 ^ 32 - m) % 2 ^ 32)
          (set_next_free_cluster ((c + m) % 2 ^ 32) info))
        after c ret m n x more
        (allocate-count d d1 info prev info.next_free_cluster num c m x r pos known counted held
          got)

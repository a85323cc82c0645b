-- ===== src/Fat/Table/Cells.antt =====
-- Where the words of the table stand on the device: no two entries overlap.
use umi.Base.{ℕ, zero, suc, ◌+◌, ◌*◌, ◌%◌, ◌^◌, ◌≤◌, ◌<◌, ◌≡◌, ◌⊎◌, inl, inr, arith, ◌≢◌, le_or_lt}
use umi.Fat.Table.{Fat, size, offset, allocable_end, entry_size}
use umi.Fat.Entry.{bad_cluster}

-- The table of a file system: at least one copy, no special number among the clusters, and a place
-- on the device that a `usize` can name.
unfoldable pub IsTable : Fat → Type 0
IsTable f =
    (0 < f.mirrors)
    × (f.mirrors < 256)
    × (f.cluster_count + 2 ≤ bad_cluster)
    × (f.start_offset + 2 ^ 48 ≤ 2 ^ 64)

abbrev pub IsCluster : Fat → ℕ → Type 0
IsCluster f c = (2 ≤ c) × (c < f.cluster_count + 2)

pub times_suc : (a m n : ℕ) → m < n → a * m + a ≤ a * n
times_suc a m zero h = absurd (omega arith)
times_suc a m (suc n) h = elim (le_or_lt n m) [
  | inl le ↦ let same : m ≡ n = omega arith in rw same (ground arith)
  | inr lt ↦ let rest = times_suc a m n lt in ground arith
]

pub allocable_end_lem : (f : Fat) → IsTable f → allocable_end f ≡ f.cluster_count + 2
unfolding IsTable allocable_end
allocable_end_lem f t = omega arith

pub offset_lem :
    (f : Fat) (m c : ℕ)
    → IsTable f
    → m < 256
    → c < 2 ^ 32
    → offset f m c ≡ f.start_offset + f.cluster_count * m * 4 + c * 4
unfolding IsTable offset size
offset_lem f m c t hm hc =
    let bound = times_suc f.cluster_count m 256 hm in
    let whole : f.cluster_count * entry_size % 2 ^ 64 ≡ f.cluster_count * 4 = omega arith in
    let regroup : f.cluster_count * 4 * m ≡ f.cluster_count * m * 4 = omega arith in
    rw (whole, regroup) (omega arith)

-- Two entries of copies of the table are equal or do not overlap.
pub offset_apart :
    (f : Fat) (m n c k : ℕ)
    → IsTable f
    → m < f.mirrors
    → n < f.mirrors
    → IsCluster f c
    → IsCluster f k
    → (m ≢ n) ⊎ (c ≢ k)
    → (offset f m c + 4 ≤ offset f n k) ⊎ (offset f n k + 4 ≤ offset f m c)
unfolding IsTable
offset_apart f m n c k t hm hn hc hk other =
    let at_c = offset_lem f m c t (omega arith) (omega arith) in
    let at_k = offset_lem f n k t (omega arith) (omega arith) in
    ground (arith, times_suc f.cluster_count m n, times_suc f.cluster_count n m)

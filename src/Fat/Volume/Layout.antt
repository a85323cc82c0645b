-- ===== src/Fat/Volume/Layout.antt =====
-- Where the data of a cluster stands on the volume.
use native.Mathlib.Nat.{mul-le-mul_right, mul_comm, div-mul-le_self, mod-eq_of_lt}
use umi.Base.{
  ℕ, zero, suc, ◌+◌, ◌-◌, ◌*◌, ◌/◌, ◌%◌, ◌^◌, ◌≤◌, ◌<◌, ◌≡◌, refl, sym, ◌∙◌, ◌==◌, Result, ok,
  ◌>>=◌, arith, false, Bool-cases, inl, inr, Result-cases,
}
use umi.Fat.Table.{Error, Fat}
use umi.Fat.Table.Cells.{IsCluster, times_suc}
use umi.Fat.Volume.{
  BiosParameterBlock, first_data_sector, total_clusters, total_sectors, bytes_from_sectors,
  sectors_from_clusters, cluster_size, new_fat, sector_from_cluster, offset_from_cluster,
  mirroring_enabled,
}

-- A parameter block with sectors and clusters, whose data starts within the volume.
unfoldable pub IsVolume : BiosParameterBlock → ℕ → Type 0
IsVolume b first =
    (0 < b.sectors_per_cluster)
    × (first_data_sector b ≡ ok first)
    × (first ≤ total_sectors b)
    × (total_sectors b < 2 ^ 32)

total_clusters_lem :
    (b : BiosParameterBlock) (first : ℕ)
    → IsVolume b first
    → total_clusters b ≡ ok ((total_sectors b - first) / b.sectors_per_cluster)
unfolding IsVolume total_clusters
total_clusters_lem b first (pos, at, le, small) =
    let nonzero : (b.sectors_per_cluster == 0) ≡ false = ground arith in
    let fits : (total_sectors b + 2 ^ 32 - first) % 2 ^ 32 ≡ total_sectors b - first =
      omega arith in
    rw (at, nonzero, fits) refl

le_times : (x s : ℕ) → 0 < s → x ≤ x * s
le_times x zero h = absurd (omega arith)
le_times x (suc s) h = omega arith

same_ok : (a b : ℕ) → ◌≡◌ {A = Result Error ℕ} (ok a) (ok b) → a ≡ b
same_ok a b h = cc

new_fat-total_clusters :
    (b : BiosParameterBlock) (f : Fat) → new_fat b ≡ ok f → total_clusters b ≡ ok f.cluster_count
unfolding new_fat
new_fat-total_clusters b f h =
    let counted : (new_fat b >>= λ f. ok f.cluster_count) ≡ total_clusters b =
      elim (Result-cases (total_clusters b)) [
        | inl (e, failed) ↦ rw failed refl
        | inr (n, done_count) ↦ elim (Bool-cases (mirroring_enabled b)) [
          | inl all ↦ rw (done_count, all) refl
          | inr one ↦ rw (done_count, one) refl
        ]
      ] in
    sym counted ∙ rw h refl

-- The sector of a cluster, and that all of its sectors are in the volume.
sector_lem :
    (b : BiosParameterBlock) (f : Fat) (first c : ℕ)
    → IsVolume b first
    → new_fat b ≡ ok f
    → IsCluster f c
    → (sector_from_cluster b c ≡ ok (first + (c - 2) * b.sectors_per_cluster))
      × (first + (c - 2) * b.sectors_per_cluster + b.sectors_per_cluster ≤ total_sectors b)
unfolding IsVolume sector_from_cluster sectors_from_clusters
sector_lem b f first c v made inside =
    let (pos, at, le, small) = v in
    let spc = b.sectors_per_cluster in
    let free_sectors = total_sectors b - first in
    let count : free_sectors / spc ≡ f.cluster_count =
      same_ok (free_sectors / spc) f.cluster_count
        (sym (total_clusters_lem b first v) ∙ new_fat-total_clusters b f made) in
    let inner = times_suc spc (c - 2) (free_sectors / spc) (omega arith) in
    let turned : spc * (c - 2) ≡ (c - 2) * spc = mul_comm spc (c - 2) in
    let turned_all : spc * (free_sectors / spc) ≡ free_sectors / spc * spc =
      mul_comm spc (free_sectors / spc) in
    let fits = div-mul-le_self free_sectors spc in
    let room : first + (c - 2) * spc + spc ≤ total_sectors b = omega arith in
    let index : (c + 2 ^ 32 - 2) % 2 ^ 32 ≡ c - 2 = omega (arith, le_times (c - 2) spc pos) in
    let product : (c - 2) * spc % 2 ^ 32 ≡ (c - 2) * spc = mod-eq_of_lt (omega arith) in
    let sum : (first + (c - 2) * spc) % 2 ^ 32 ≡ first + (c - 2) * spc =
      mod-eq_of_lt (omega arith) in
    (rw (at, index, product, sum) refl, room)

-- On a volume with clusters of at least one sector whose data starts within it, the data of two
-- clusters of the table that `Fat::new` makes do not overlap, and lie between the first data sector
-- and the end of the volume.
pub offset_from_cluster_lem :
    (b : BiosParameterBlock) (f : Fat) (first c k : ℕ)
    → IsVolume b first
    → new_fat b ≡ ok f
    → IsCluster f c
    → IsCluster f k
    → c < k
    → (o p : ℕ) × (offset_from_cluster b c ≡ ok o)
      × (offset_from_cluster b k ≡ ok p)
      × (bytes_from_sectors b first ≤ o)
      × (o + cluster_size b ≤ p)
      × (p + cluster_size b ≤ bytes_from_sectors b (total_sectors b))
unfolding offset_from_cluster bytes_from_sectors cluster_size
offset_from_cluster_lem b f first c k v made hc hk less =
    let bps = b.bytes_per_sector in
    let spc = b.sectors_per_cluster in
    let (at_c, room_c) = sector_lem b f first c v made hc in
    let (at_k, room_k) = sector_lem b f first k v made hk in
    let s = first + (c - 2) * spc in
    let r = first + (k - 2) * spc in
    let apart : s + spc ≤ r = omega (
      arith,
      times_suc spc (c - 2) (k - 2) (omega arith),
      mul_comm spc (c - 2),
      mul_comm spc (k - 2),
    ) in
    let low : first * bps ≤ s * bps = mul-le-mul_right bps (omega arith) in
    let mid : (s + spc) * bps ≤ r * bps = mul-le-mul_right bps apart in
    let high : (r + spc) * bps ≤ total_sectors b * bps = mul-le-mul_right bps room_k in
    (s * bps, r * bps, rw at_c refl, rw at_k refl, low, omega (arith, mid), omega (arith, high))

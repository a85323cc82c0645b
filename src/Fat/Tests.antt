-- ===== src/Fat/Tests.antt =====
-- Runs of the table of a small file system, and of the dates.
use umi.Base.{
  ℕ, ◌+◌, ◌-◌, ◌++◌, ◌≤◌, ◌<◌, ◌≡◌, ◌≢◌, ◌⊎◌, inl, refl, List, [], ◌∷◌, true, false, Result, ok,
  err, none, some, arith, if◌then◌else◌, ◌==◌, max,
}
use umi.Fat.Date.{new_date, decode_date, encode_date, decode-encode_date}
use umi.Fat.Time.{decode_time, encode_time, encode-decode_time}
use umi.Fat.Entry.{free, next, end, from_raw, into_raw, is_free, raw_of, IsEntry}
use umi.Fat.Memory.{memory, word_at}
use umi.Fat.Table.{
  Fat, Error, enospc, offset, get, set, get_raw, set_range, get_range_raw, get_range, read_words,
  write_words, write_mirrors, entries, fill, size, allocable_end, count_free, count_from, unwrap,
}
use umi.Fat.Table.Cells.{IsTable, IsCluster, offset_apart}
use umi.Fat.Table.Writes.{over}
use umi.Fat.Table.Updates.{Agree, get-set, get-set_range}
use umi.Fat.Table.Success.{Writable}
use umi.Fat.Search.{
  allocate, find_free, find_batches, scan, excluded, start_of, end_of, set_prev, set_links,
  hint_or_start, nexts,
}
use umi.Fat.Search.Scan.{NoneFree, IsRun}
use umi.Fat.Search.Batches.{Readable}
use umi.Fat.Search.Bounds.{IsStart, IsEnd, IsBetween, Stopped, find_free_lem}
use umi.Fat.Search.Allocate.{Allocated, allocate_lem}
use umi.Fat.Search.Space.{allocate_space}
use umi.Fat.Chain.{free_chain, truncate, all_clusters, with_ends, with_end, next_of}
use umi.Fat.Volume.{
  BiosParameterBlock, FsInfoSector, alloc_cluster, map_free_clusters, map_count,
  set_next_free_cluster, zero_clusters, new_fat, offset_from_cluster, bytes_from_sectors,
  cluster_size, total_sectors, total_clusters, first_data_sector, root_dir_sectors,
  sectors_per_all_fats, sectors_per_fat, mirroring_enabled,
}
use umi.Fat.Volume.Account.{alloc_cluster-count}
use umi.Fat.Volume.Layout.{IsVolume, offset_from_cluster_lem}
use umi.Fat.File.{Grown, grow, after_alloc, add_run}
use umi.Fat.File.Growth.{grow_second}
use umi.Fat.File.Runs.{upto, add_run-with_ends}
use umi.Fat.Chain.Chains.{IsChain, Distinct, elem}
use umi.Fat.Chain.Freeing.{Freed, free_chain_lem, truncate_lem}
use umi.Fat.Chain.Clusters.{all_clusters_lem}

-- The 23rd of July 2055, and a time with the last hundredth of a second.
decode-encode_date_example :
    decode_date (encode_date (record { year = 2055; month = 7; day = 23 }))
    ≡ record { year = 2055; month = 7; day = 23 }
unfolding new_date
decode-encode_date_example =
    decode-encode_date 2055 7 23 (record { year = 2055; month = 7; day = 23 }) refl

encode-decode_time_example : encode_time (decode_time 30830 199) ≡ (30830, 199)
encode-decode_time_example = encode-decode_time 30830 199 (omega arith) (omega arith)

-- Six clusters and two copies.
abbrev small : Fat
small = record { start_offset = 512; cluster_count = 6; mirrors = 2 }

small-IsTable : IsTable small
unfolding IsTable
small-IsTable = (omega arith, omega arith, omega arith, omega arith)

-- The chain of the clusters 2, 3 and 7; the clusters 4, 5 and 6 are free.
abbrev disk : List (ℕ × ℕ)
disk = (520, 3) ∷ (524, 7) ∷ (540, 268435455) ∷ []

offset_apart_example :
    (offset small 0 7 + 4 ≤ offset small 1 2) ⊎ (offset small 1 2 + 4 ≤ offset small 0 7)
offset_apart_example =
    offset_apart small 0 1 7 2 small-IsTable (omega arith) (omega arith) (omega arith, omega arith)
      (omega arith, omega arith) (inl (omega arith))

abbrev disk_of {ℓ} : {A : Type ℓ} → Result Error A → A → A
disk_of (ok a) b = a
disk_of (err e) b = b

get-set_example :
    ((k : ℕ)
      → IsCluster small k
      → get memory small ((552, 5) ∷ (528, 5) ∷ disk) k
        ≡ (if 4 == k then ok (next 5) else get memory small disk k))
    × (Agree memory small small-IsTable disk
        → Agree memory small small-IsTable ((552, 5) ∷ (528, 5) ∷ disk))
unfolding set get_raw offset size allocable_end into_raw write_mirrors write_words word_at IsEntry
    is_free raw_of
get-set_example =
    get-set memory small small-IsTable disk ((552, 5) ∷ (528, 5) ∷ disk) 4 (next 5)
      (omega arith, omega arith) (omega arith, omega arith) refl

get-set_range_example :
    ((k : ℕ)
      → IsCluster small k
      → get memory small ((552, 6) ∷ (548, 5) ∷ (528, 6) ∷ (524, 5) ∷ disk) k
        ≡ over 3 (next 5 ∷ next 6 ∷ []) k (get memory small disk k))
    × (Agree memory small small-IsTable disk
        → Agree memory small small-IsTable ((552, 6) ∷ (548, 5) ∷ (528, 6) ∷ (524, 5) ∷ disk))
unfolding set_range get_range_raw read_words offset size allocable_end into_raw write_mirrors
    write_words word_at IsEntry is_free raw_of fill
get-set_range_example =
    get-set_range memory small small-IsTable disk ((552, 6) ∷ (548, 5) ∷ (528, 6) ∷ (524, 5) ∷ disk)
      3 (next 5 ∷ next 6 ∷ []) (omega arith) (omega arith)
      ((omega arith, omega arith), ((omega arith, omega arith), tt)) refl

readable : (d : List (ℕ × ℕ)) → Readable memory small small-IsTable d
unfolding Readable
readable d c hc = (word_at (offset small 0 c) d, refl)

writable : Writable memory small small-IsTable
unfolding Writable
writable d n c w hn hc = ((offset small n c, w) ∷ d, refl)

find_free_lem_example :
    let search = find_free memory small disk (excluded 2) (excluded 6) 2 1024 in
    ((c n : ℕ) × (search ≡ ok (c, n))
      × (0 < n)
      × (n ≤ 2)
      × (n ≤ 1024)
      × ((k : ℕ)
          → c ≤ k
          → k < c + n
          → IsBetween memory small small-IsTable (excluded 2) (excluded 6) k
            × (get memory small disk k ≡ ok free))
      × Stopped memory small small-IsTable disk (excluded 2) (excluded 6) 2 1024 c n
      × ((k : ℕ)
          → IsBetween memory small small-IsTable (excluded 2) (excluded 6) k
          → k < c
          → get memory small disk k ≢ ok free))
    ⊎ ((search ≡ err enospc)
        × ((k : ℕ)
            → IsBetween memory small small-IsTable (excluded 2) (excluded 6) k
            → get memory small disk k ≢ ok free))
unfolding IsStart IsEnd
find_free_lem_example =
    find_free_lem memory small small-IsTable disk (excluded 2) (excluded 6) 2 1024 (readable disk)
      (omega arith) (omega arith) (omega arith) (omega arith)

-- Two clusters behind the cluster 7.
abbrev grown : List (ℕ × ℕ)
grown = (556, 268435455) ∷ (532, 268435455) ∷ (552, 5) ∷ (528, 5) ∷ (564, 4) ∷ (540, 4) ∷ disk

allocate_lem_example :
    (0 < 2) × (2 ≤ 2) × Allocated memory small small-IsTable disk grown (some 7) 4 2
unfolding allocate find_free find_batches scan set_prev set_links hint_or_start nexts start_of
    end_of set get_raw get_range entries set_range get_range_raw read_words offset size
    allocable_end into_raw write_mirrors write_words word_at is_free raw_of fill from_raw
allocate_lem_example =
    allocate_lem memory small small-IsTable disk grown (some 7) none 2 4 2 (readable disk)
      (omega arith) (λ p h. let same : 7 ≡ p = cc in (omega arith, omega arith)) refl

disk-IsChain : IsChain memory small disk (2 ∷ 3 ∷ 7 ∷ [])
unfolding IsChain get get_raw offset size allocable_end word_at from_raw next_of
disk-IsChain = (
  (omega arith, omega arith),
  refl,
  ((omega arith, omega arith), refl, ((omega arith, omega arith), (end, refl, refl))),
)

disk-Distinct : Distinct (2 ∷ 3 ∷ 7 ∷ [])
unfolding Distinct elem
disk-Distinct = (refl, (refl, (refl, tt)))

free_chain_lem_example :
    (e : List (ℕ × ℕ)) × (free_chain memory small disk 2 ≡ ok (some (e, 3)))
    × Freed memory small small-IsTable disk e (2 ∷ 3 ∷ 7 ∷ [])
free_chain_lem_example =
    free_chain_lem memory small small-IsTable disk 2 (3 ∷ 7 ∷ []) writable disk-Distinct
      disk-IsChain

truncate_lem_example :
    (e : List (ℕ × ℕ)) × (truncate memory small disk 2 ≡ ok (some (e, 0)))
    × ((k : ℕ)
        → IsCluster small k
        → get memory small e k ≡ (if 2 == k then ok end else get memory small disk k))
unfolding get get_raw offset size allocable_end word_at from_raw
truncate_lem_example =
    truncate_lem memory small small-IsTable disk 2 (next 3) writable (omega arith, omega arith) refl

all_clusters_lem_example : all_clusters memory small disk 2 ≡ ok (some (with_ends (2 ∷ 3 ∷ 7 ∷ [])))
all_clusters_lem_example =
    all_clusters_lem memory small small-IsTable disk 2 (3 ∷ 7 ∷ []) (readable disk) disk-IsChain
      disk-Distinct

with_ends_2 : with_ends (2 ∷ 3 ∷ 7 ∷ []) ≡ (2, 3) ∷ (3, 3) ∷ (7, 7) ∷ []
unfolding with_ends with_end
with_ends_2 = refl

-- From the cluster 7 on, nothing is free: the free clusters before it are not found.
allocate_space_example :
    ((e : List (ℕ × ℕ)) × (ret n : ℕ) × (allocate memory small disk none (some 7) 1
        ≡ ok (e, (ret, n)))
      × IsRun memory small disk 1 (max (hint_or_start (some 7)) 2) 8 ret n)
    ⊎ ((allocate memory small disk none (some 7) 1 ≡ err enospc)
        × NoneFree memory small disk (max (hint_or_start (some 7)) 2) 8)
allocate_space_example =
    allocate_space memory small small-IsTable disk none (some 7) 1 readable writable (omega arith)
      (λ p h. absurd (cc))

-- A volume with six clusters of one sector of 512 bytes, behind the boot sector and two copies of
-- the table.
abbrev volume : BiosParameterBlock
volume = record {
  bytes_per_sector = 512;
  sectors_per_cluster = 1;
  reserved_sectors = 1;
  fats = 2;
  root_entries = 0;
  total_sectors_16 = 0;
  sectors_per_fat_16 = 0;
  total_sectors_32 = 9;
  sectors_per_fat_32 = 1;
  extended_flags = 0;
}

volume-IsVolume : IsVolume volume 3
unfolding IsVolume first_data_sector root_dir_sectors sectors_per_all_fats sectors_per_fat
    total_sectors
volume-IsVolume = (omega arith, refl, omega arith, omega arith)

offset_from_cluster_lem_example :
    (o p : ℕ) × (offset_from_cluster volume 2 ≡ ok o)
    × (offset_from_cluster volume 7 ≡ ok p)
    × (bytes_from_sectors volume 3 ≤ o)
    × (o + cluster_size volume ≤ p)
    × (p + cluster_size volume ≤ bytes_from_sectors volume (total_sectors volume))
unfolding new_fat total_clusters first_data_sector root_dir_sectors sectors_per_all_fats
    sectors_per_fat total_sectors mirroring_enabled bytes_from_sectors
offset_from_cluster_lem_example =
    offset_from_cluster_lem volume small 3 2 7 volume-IsVolume refl (omega arith, omega arith)
      (omega arith, omega arith) (omega arith)

abbrev three_free : FsInfoSector
three_free = record { free_cluster_count = some 3; next_free_cluster = none; dirty = false }

abbrev one_free : FsInfoSector
one_free = record { free_cluster_count = some 1; next_free_cluster = some 6; dirty = true }

alloc_cluster-count_example :
    (y : ℕ) × (one_free.free_cluster_count ≡ some y)
    × (count_free memory small grown ≡ ok y)
    × (3 ≡ y + 2)
unfolding alloc_cluster map_free_clusters map_count set_next_free_cluster zero_clusters allocate
    find_free find_batches scan set_prev set_links hint_or_start nexts start_of end_of set get
    get_raw get_range entries set_range get_range_raw read_words offset size allocable_end into_raw
    write_mirrors write_words word_at is_free raw_of fill from_raw count_free count_from unwrap
alloc_cluster-count_example =
    alloc_cluster-count memory small small-IsTable disk grown volume three_free one_free (some 7) 2
      4 2 3 (readable disk) (omega arith)
      (λ p h. let same : 7 ≡ p = cc in rw (← same) ((omega arith, omega arith), λ q. absurd (cc)))
      refl refl refl

-- The clusters 8 and 9 behind the chain, whose last run they extend.
add_run-with_ends_example :
    add_run 8 2 (with_ends (2 ∷ 3 ∷ 7 ∷ [])) ≡ with_ends ((2 ∷ 3 ∷ 7 ∷ []) ++ upto 8 2)
add_run-with_ends_example = add_run-with_ends (2 ∷ 3 ∷ 7 ∷ []) 8 2 (omega arith) disk-Distinct

-- An empty file in front of the cluster 4, which is in use: it grows by the clusters 2 and 3, then by
-- 5.
abbrev empty_file : Grown (List (ℕ × ℕ))
empty_file = record {
  disk = (528, 268435455) ∷ [];
  info = record { free_cluster_count = none; next_free_cluster = none; dirty = false };
  clusters = [];
  first_cluster = none;
}

abbrev first_run : List (ℕ × ℕ)
first_run = (548, 268435455) ∷ (524, 268435455) ∷ (544, 3) ∷ (520, 3) ∷ (528, 268435455) ∷ []

abbrev second_run : List (ℕ × ℕ)
second_run = (556, 268435455) ∷ (532, 268435455) ∷ (544, 5) ∷ (520, 5) ∷ first_run

abbrev first_info : FsInfoSector
first_info = record { free_cluster_count = none; next_free_cluster = some 4; dirty = true }

abbrev second_info : FsInfoSector
second_info = record { free_cluster_count = none; next_free_cluster = some 6; dirty = true }

grow_second_example :
    (grow memory small volume 2 empty_file none 4 3 0
      ≡ grow memory small volume 1
          (after_alloc memory small volume empty_file ((first_run, first_info), (2, 2)))
          (some 2)
          4
          3
          2)
    × (get memory small second_run 2 ≡ ok (next 5))
    × (get memory small second_run (2 + 2 - 1) ≡ ok end)
unfolding alloc_cluster map_free_clusters map_count set_next_free_cluster zero_clusters allocate
    find_free find_batches scan set_prev set_links hint_or_start nexts start_of end_of set get
    get_raw get_range entries set_range get_range_raw read_words offset size allocable_end into_raw
    write_mirrors write_words word_at is_free raw_of fill from_raw
grow_second_example =
    grow_second memory small small-IsTable volume 1 empty_file first_run second_run first_info
      second_info none 4 3 2 2 5 1 (readable ((528, 268435455) ∷ [])) (readable first_run)
      (λ p h. absurd (cc)) refl (omega arith) (omega arith) (omega arith) refl

-- ===== src/Fat/Volume.antt =====
-- mizu/lib/afat32/src/raw.rs and fs.rs: the parameter block of a volume, its counts of free
-- clusters, and the allocation and freeing that keep them. A panic is the error `panicked`; words of
-- 16 and 32 bits wrap around.
pub mod Counts
pub mod Account
pub mod Layout
use umi.Base.{
  ℕ, zero, suc, ◌+◌, ◌-◌, ◌*◌, ◌/◌, ◌%◌, ◌^◌, Bool, true, false, ltb, ◌==◌, ◌||◌, if◌then◌else◌,
  Option, none, some, Result, ok, err, ◌>>=◌, replicate, min,
}
use umi.Fat.Table.{Error, panicked, Io, Fat, write_words, reserved_fat_entries, count_free}
use umi.Fat.Search.{allocate}
use umi.Fat.Chain.{free_chain, truncate}

pub record BiosParameterBlock : Type 0 where
  pub bytes_per_sector : ℕ
  pub sectors_per_cluster : ℕ
  pub reserved_sectors : ℕ
  pub fats : ℕ
  pub root_entries : ℕ
  pub total_sectors_16 : ℕ
  pub sectors_per_fat_16 : ℕ
  pub total_sectors_32 : ℕ
  pub sectors_per_fat_32 : ℕ
  pub extended_flags : ℕ

-- A division, which panics where the divisor is 0.
abbrev pub quotient : ℕ → ℕ → Result Error ℕ
quotient a b = if b == 0 then err panicked else ok (a / b)

unfoldable pub mirroring_enabled : BiosParameterBlock → Bool
mirroring_enabled b = b.extended_flags / 2 ^ 7 % 2 == 0

unfoldable pub active_fat : BiosParameterBlock → ℕ
active_fat b = if mirroring_enabled b then 0 else b.extended_flags % 2 ^ 4

abbrev pub is_fat32 : BiosParameterBlock → Bool
is_fat32 b = b.sectors_per_fat_16 == 0

unfoldable pub sectors_per_fat : BiosParameterBlock → ℕ
sectors_per_fat b = if is_fat32 b then b.sectors_per_fat_32 else b.sectors_per_fat_16

unfoldable pub total_sectors : BiosParameterBlock → ℕ
total_sectors b = if b.total_sectors_16 == 0 then b.total_sectors_32 else b.total_sectors_16

-- `DIR_ENTRY_SIZE`.
abbrev pub dir_entry_size : ℕ
dir_entry_size = 32

unfoldable pub root_dir_sectors : BiosParameterBlock → Result Error ℕ
root_dir_sectors b =
    quotient ((b.root_entries * dir_entry_size + b.bytes_per_sector + 2 ^ 32 - 1) % 2 ^ 32)
      b.bytes_per_sector

unfoldable pub sectors_per_all_fats : BiosParameterBlock → ℕ
sectors_per_all_fats b = b.fats * sectors_per_fat b % 2 ^ 32

unfoldable pub first_data_sector : BiosParameterBlock → Result Error ℕ
first_data_sector b = root_dir_sectors b >>= λ root.
    ok ((b.reserved_sectors + sectors_per_all_fats b + root) % 2 ^ 32)

unfoldable pub total_clusters : BiosParameterBlock → Result Error ℕ
total_clusters b = first_data_sector b >>= λ first.
    quotient ((total_sectors b + 2 ^ 32 - first) % 2 ^ 32) b.sectors_per_cluster

unfoldable pub bytes_from_sectors : BiosParameterBlock → ℕ → ℕ
bytes_from_sectors b sectors = sectors * b.bytes_per_sector

unfoldable pub sectors_from_clusters : BiosParameterBlock → ℕ → ℕ
sectors_from_clusters b clusters = clusters * b.sectors_per_cluster % 2 ^ 32

unfoldable pub cluster_size : BiosParameterBlock → ℕ
cluster_size b = b.sectors_per_cluster * b.bytes_per_sector

-- `Fat::new`, with the first sector and the number of the copies in use.
unfoldable pub new_fat : BiosParameterBlock → Result Error Fat
new_fat b = total_clusters b >>= λ clusters. ok (
    if mirroring_enabled b
    then record {
      start_offset = bytes_from_sectors b b.reserved_sectors;
      cluster_count = clusters;
      mirrors = b.fats;
    }
    else record {
      start_offset =
          bytes_from_sectors b ((b.reserved_sectors + active_fat b * sectors_per_fat b) % 2 ^ 32);
      cluster_count = clusters;
      mirrors = 1;
    })

unfoldable pub sector_from_cluster : BiosParameterBlock → ℕ → Result Error ℕ
sector_from_cluster b cluster = first_data_sector b >>= λ first. ok (
    (first + sectors_from_clusters b ((cluster + 2 ^ 32 - reserved_fat_entries) % 2 ^ 32)) % 2 ^ 32)

unfoldable pub offset_from_cluster : BiosParameterBlock → ℕ → Result Error ℕ
offset_from_cluster b cluster = sector_from_cluster b cluster >>= λ s. ok (bytes_from_sectors b s)

pub record FsInfoSector : Type 0 where
  pub free_cluster_count : Option ℕ
  pub next_free_cluster : Option ℕ
  pub dirty : Bool

abbrev pub at_most : ℕ → Option ℕ → Option ℕ
at_most bound none = none
at_most bound (some n) = if ltb bound n then none else some n

unfoldable pub fix : ℕ → FsInfoSector → FsInfoSector
fix total info = record info {
  free_cluster_count = at_most total info.free_cluster_count;
  next_free_cluster = at_most ((total + reserved_fat_entries) % 2 ^ 32) info.next_free_cluster;
}

unfoldable pub map_count : (ℕ → ℕ) → Option ℕ → FsInfoSector → FsInfoSector
map_count map_fn none info = info
map_count map_fn (some n) info = record info { free_cluster_count = some (map_fn n); dirty = true }

unfoldable pub map_free_clusters : (ℕ → ℕ) → FsInfoSector → FsInfoSector
map_free_clusters map_fn info = map_count map_fn info.free_cluster_count info

unfoldable pub set_next_free_cluster : ℕ → FsInfoSector → FsInfoSector
set_next_free_cluster cluster info = record info { next_free_cluster = some cluster; dirty = true }

unfoldable pub set_free_cluster_count : ℕ → FsInfoSector → FsInfoSector
set_free_cluster_count count info = record info { free_cluster_count = some count; dirty = true }

pub record FsStatusFlags : Type 0 where
  pub dirty : Bool
  pub io_error : Bool

pub encode_flags : FsStatusFlags → ℕ
encode_flags flags = (if flags.dirty then 1 else 0) + (if flags.io_error then 2 else 0)

pub decode_flags : ℕ → FsStatusFlags
decode_flags flags = record { dirty = flags % 2 == 1; io_error = flags / 2 % 2 == 1 }

module _ (io : Io) (f : Fat) (b : BiosParameterBlock) where
  -- `write_zeros`, in parts of 4096 bytes, for as many as the fuel.
  unfoldable pub write_zeros : ℕ → io.Disk → ℕ → ℕ → Result Error io.Disk
  write_zeros zero d start len = ok d
  write_zeros (suc fuel) d start len =
      if len == 0
      then ok d
      else write_words io f d start (replicate (min len 4096 / 4) 0) >>= λ d.
          write_zeros fuel d (start + min len 4096) (len - min len 4096)

  unfoldable pub zero_clusters : Bool → io.Disk → ℕ → ℕ → Result Error io.Disk
  zero_clusters false d cluster num = ok d
  zero_clusters true d cluster num = offset_from_cluster b cluster >>= λ start.
      write_zeros (cluster_size b * num % 2 ^ 32) d start (cluster_size b * num % 2 ^ 32)

  -- The device and the counts, the first cluster and how many there are.
  unfoldable pub alloc_cluster :
      io.Disk
      → FsInfoSector
      → Option ℕ
      → ℕ
      → Bool
      → Result Error ((io.Disk × FsInfoSector) × (ℕ × ℕ))
  alloc_cluster d info prev num zeroed =
      allocate io f d prev info.next_free_cluster num >>= λ (d, (cluster, num)).
      zero_clusters zeroed d cluster num >>= λ d. ok (
        (
          d,
          map_free_clusters (λ n. (n + 2 ^ 32 - num) % 2 ^ 32)
              (set_next_free_cluster ((cluster + num) % 2 ^ 32) info),
        ),
        (cluster, num),
      )

  unfoldable pub count_freed : FsInfoSector → Option (io.Disk × ℕ) → Option (io.Disk × FsInfoSector)
  count_freed info none = none
  count_freed info (some (d, num_free)) =
      some (d, map_free_clusters (λ n. (n + num_free) % 2 ^ 32) info)

  unfoldable pub truncate_cluster_chain :
      io.Disk → FsInfoSector → ℕ → Result Error (Option (io.Disk × FsInfoSector))
  truncate_cluster_chain d info cluster =
      truncate io f d cluster >>= λ freed. ok (count_freed info freed)

  unfoldable pub free_cluster_chain :
      io.Disk → FsInfoSector → ℕ → Result Error (Option (io.Disk × FsInfoSector))
  free_cluster_chain d info cluster =
      free_chain io f d cluster >>= λ freed. ok (count_freed info freed)

  unfoldable pub recalc_free_clusters : io.Disk → FsInfoSector → Result Error (FsInfoSector × ℕ)
  recalc_free_clusters d info = count_free io f d >>= λ count.
      ok (set_free_cluster_count (count % 2 ^ 32) info, count % 2 ^ 32)

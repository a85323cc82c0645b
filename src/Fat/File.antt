-- ===== src/Fat/File.antt =====
-- mizu/lib/afat32/src/file.rs: the clusters of a file, positions in it, and its growth by `write_at`.
-- A file has a list of its clusters with the ends of their runs; sizes are words of 64 bits.
pub mod Growth
pub mod Runs
use umi.Base.{
  ℕ, zero, suc, ◌+◌, ◌-◌, ◌*◌, ◌/◌, ◌%◌, ◌^◌, List, [], ◌∷◌, ◌++◌, Bool, true, false, ltb, leb,
  ◌==◌, ◌&&◌, ◌||◌, if◌then◌else◌, Option, none, some, Result, ok, err, ◌>>=◌, get_elem?, take,
  length, last?,
}
use umi.Fat.Table.{Error, einval, Io, Fat}
use umi.Fat.Volume.{BiosParameterBlock, FsInfoSector, alloc_cluster}

-- The index of a cluster and the offset in it.
unfoldable pub decomp : ℕ → ℕ → ℕ × ℕ
decomp cluster_shift offset = (offset / 2 ^ cluster_shift, offset % 2 ^ cluster_shift)

-- The same for the end of a part: an end between two clusters is that of the first.
unfoldable pub decomp_end : ℕ → ℕ → Option (ℕ × ℕ)
decomp_end cluster_shift offset =
    if offset % 2 ^ cluster_shift == 0
    then (if offset / 2 ^ cluster_shift == 0
        then none
        else some (offset / 2 ^ cluster_shift - 1, 2 ^ cluster_shift))
    else some (offset / 2 ^ cluster_shift, offset % 2 ^ cluster_shift)

-- An `isize`.
pub data ℤ : Type 0 where
  pos : ℕ → ℤ
  negsuc : ℕ → ℤ

pub data SeekFrom : Type 0 where
  start : ℕ → SeekFrom
  stop current : ℤ → SeekFrom

unfoldable pub moved : ℕ → ℤ → Result Error ℕ
moved from (pos n) = if ltb (from + n) (2 ^ 64) then ok (from + n) else err einval
moved from (negsuc n) = if ltb from (suc n) then err einval else ok (from - suc n)

-- The new offset, from the length and the offset.
unfoldable pub seek : SeekFrom → ℕ → ℕ → Result Error ℕ
seek (start offset) len cur = ok offset
seek (stop offset) len cur = moved len offset
seek (current offset) len cur = moved cur offset

-- How many bytes a read may take in one run of clusters, by its cluster, the end of the run, the
-- offset in the cluster, and the cluster, its run and the offset of the end of the file. The
-- subtractions are those of a `usize`.
unfoldable pub read_rest : ℕ → ℕ × ℕ → ℕ → Option (ℕ × ℕ) → ℕ → ℕ
read_rest cluster_shift (cluster, cluster_end) offset_in_cluster none end_offset =
    ((cluster_end + 1 - cluster) * 2 ^ cluster_shift + 2 ^ 64 - offset_in_cluster) % 2 ^ 64
read_rest cluster_shift (cluster, cluster_end) offset_in_cluster (some (last, last_end))
      end_offset =
    if last_end == cluster_end
    then ((last - cluster) * 2 ^ cluster_shift + end_offset + 2 ^ 64 - offset_in_cluster) % 2 ^ 64
    else ((cluster_end + 1 - cluster) * 2 ^ cluster_shift + 2 ^ 64 - offset_in_cluster) % 2 ^ 64

-- The cluster, and how many bytes may be read from it on; none at the end of the file.
unfoldable pub read_plan : ℕ → List (ℕ × ℕ) → ℕ → ℕ → Option (ℕ × ℕ)
read_plan cluster_shift clusters len offset = elim (decomp_end cluster_shift len) [
  | none ↦ none
  | some (end_index, end_offset) ↦ elim (get_elem? clusters (decomp cluster_shift offset).0) [
    | none ↦ none
    | some (cluster, cluster_end) ↦ some (
      cluster,
      read_rest cluster_shift (cluster, cluster_end) (decomp cluster_shift offset).1
          (get_elem? clusters end_index) end_offset,
    )
  ]
]

-- The ends of the run at the back of the list, all of which are `old_end`, set to `new_end`, and
-- whether the whole list is that run.
unfoldable pub extend_ends : ℕ → ℕ → List (ℕ × ℕ) → List (ℕ × ℕ) × Bool
extend_ends old_end new_end [] = ([], true)
extend_ends old_end new_end ((cluster, last) ∷ clusters) =
    let rest = extend_ends old_end new_end clusters in
    if rest.1 && last == old_end
    then ((cluster, new_end) ∷ rest.0, true)
    else ((cluster, last) ∷ rest.0, false)

-- `(new..(new + count)).zip(repeat(new_end))`.
unfoldable pub run_of : ℕ → ℕ → ℕ → List (ℕ × ℕ)
run_of new zero new_end = []
run_of new (suc count) new_end = (new, new_end) ∷ run_of (suc new) count new_end

unfoldable pub joined_ends : Option (ℕ × ℕ) → ℕ → ℕ → List (ℕ × ℕ) → List (ℕ × ℕ)
joined_ends none new new_end clusters = clusters
joined_ends (some (cluster, old_end)) new new_end clusters =
    if old_end + 1 == new then (extend_ends old_end new_end clusters).0 else clusters

unfoldable pub add_run : ℕ → ℕ → List (ℕ × ℕ) → List (ℕ × ℕ)
add_run new count clusters =
    joined_ends (last? clusters) new (new + count - 1) clusters
    ++ run_of new count (new + count - 1)

-- What the growth of a file leaves: the clusters, and the first cluster of its entry.
pub record Grown (Disk : Type 0) : Type 0 where
  pub disk : Disk
  pub info : FsInfoSector
  pub clusters : List (ℕ × ℕ)
  pub first_cluster : Option ℕ

abbrev pub first_or : List (ℕ × ℕ) → Option ℕ → ℕ → Option ℕ
first_or [] first new = some new
first_or (c ∷ cs) first new = first

module _ (io : Io) (f : Fat) (b : BiosParameterBlock) where
  -- A round of the loop of `write_at`: the cluster behind which it allocates is `prev`.
  unfoldable pub after_alloc : Grown io.Disk → (io.Disk × FsInfoSector) × (ℕ × ℕ) → Grown io.Disk
  after_alloc g ((d, info), (new, count)) = record {
    disk = d;
    info = info;
    clusters = add_run new count g.clusters;
    first_cluster = first_or g.clusters g.first_cluster new;
  }

  unfoldable pub grow :
      ℕ
      → Grown io.Disk
      → Option ℕ
      → (times gap_count allocated : ℕ) → Result Error (Option (Grown io.Disk × (ℕ × ℕ)))
  grow zero g prev times gap_count allocated = ok none
  grow (suc fuel) g prev times gap_count allocated =
      alloc_cluster io f b g.disk g.info prev (times - allocated) false >>= λ a.
      if ltb gap_count (allocated + a.1.1) || leb times (allocated + a.1.1)
      then ok (some (after_alloc g a, (a.1.0, allocated + a.1.1 - gap_count)))
      else grow fuel (after_alloc g a) (some a.1.0) times gap_count (allocated + a.1.1)

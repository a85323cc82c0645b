-- ===== src/Fat/Table.antt =====
-- mizu/lib/afat32/src/table.rs, `Fat`: the words of the table on a device, in as many copies as
-- `mirrors` says. A panic is the error `panicked`. A range is read and written word by word.
pub mod Cells
pub mod Writes
pub mod Updates
pub mod Success
use umi.Base.{
  ℕ, zero, suc, ◌+◌, ◌-◌, ◌*◌, ◌/◌, ◌%◌, ◌^◌, ◌≤◌, ◌<◌, ◌≡◌, ◌⊎◌, List, [], ◌∷◌, Bool, true, false,
  ltb, leb, ◌==◌, if◌then◌else◌, Option, none, some, Result, ok, err, ◌>>=◌, Run, done, panic, min,
}
use umi.Fat.Entry.{FatEntry, from_raw, into_raw, is_free}

-- A device may fail with the errors that the driver has too; `device` is any other error of it.
pub data Error : Type 0 where
  einval enospc panicked : Error
  device : ℕ → Error

-- `umifs::traits::Io`: `read_exact_at` and `write_all_at` of four bytes at an offset, which are the
-- word `from_le_bytes` and `to_le_bytes`. What a device holds after a failed write is not said.
pub record Io : Type 1 where
  pub Disk : Type 0
  pub read : Disk → ℕ → Result Error ℕ
  pub write : Disk → ℕ → ℕ → Result Error Disk
  pub read_word : (d : Disk) (o w : ℕ) → read d o ≡ ok w → w < 2 ^ 32
  pub read-write : (d e : Disk) (o w : ℕ) → w < 2 ^ 32 → write d o w ≡ ok e → read e o ≡ ok w
  pub read-write_apart :
      (d e : Disk) (o p w : ℕ)
      → (o + 4 ≤ p) ⊎ (p + 4 ≤ o)
      → write d o w ≡ ok e
      → read e p ≡ read d p

pub record Fat : Type 0 where
  pub start_offset : ℕ
  pub cluster_count : ℕ
  pub mirrors : ℕ

-- `ENTRY_SIZE`.
abbrev pub entry_size : ℕ
entry_size = 4

abbrev pub reserved_fat_entries : ℕ
reserved_fat_entries = 2

unfoldable pub size : Fat → ℕ
size f = f.cluster_count * entry_size % 2 ^ 64

-- The end of `allocable_range`, which starts at the reserved entries.
unfoldable pub allocable_end : Fat → ℕ
allocable_end f = (f.cluster_count + reserved_fat_entries) % 2 ^ 32

unfoldable pub offset : Fat → ℕ → ℕ → ℕ
unfolding size
offset f mirror cluster = (f.start_offset + size f * mirror + cluster * entry_size) % 2 ^ 64

abbrev pub run : {A : Type 0} → Run A → Result Error A
run (done a) = ok a
run panic = err panicked

unfoldable pub unwrap : {A : Type 0} → Result Error A → Result Error A
unwrap (ok a) = ok a
unwrap (err e) = err panicked

module _ (io : Io) (f : Fat) where
  unfoldable pub get_raw : io.Disk → ℕ → Result Error ℕ
  get_raw d cluster =
      if leb (allocable_end f) cluster then err einval else io.read d (offset f 0 cluster)

  unfoldable pub read_words : io.Disk → ℕ → ℕ → Result Error (List ℕ)
  read_words d o zero = ok []
  read_words d o (suc n) =
      io.read d o >>= λ w. read_words d (o + entry_size) n >>= λ ws. ok (w ∷ ws)

  unfoldable pub write_words : io.Disk → ℕ → List ℕ → Result Error io.Disk
  write_words d o [] = ok d
  write_words d o (w ∷ ws) = io.write d o w >>= λ d. write_words d (o + entry_size) ws

  -- The words of `try_join_all` over the first mirrors, one mirror after the other.
  unfoldable pub write_mirrors : ℕ → io.Disk → ℕ → List ℕ → Result Error io.Disk
  write_mirrors zero d cluster ws = ok d
  write_mirrors (suc mirror) d cluster ws =
      write_mirrors mirror d cluster ws >>= λ d. write_words d (offset f mirror cluster) ws

  -- The part of the buffer that was read.
  unfoldable pub get_range_raw : io.Disk → ℕ → ℕ → Result Error (List ℕ)
  get_range_raw d start len =
      let end = min ((start + len) % 2 ^ 32) (allocable_end f) in
      if leb (2 ^ 32) len
      then err einval
      else if ltb end start
      then err einval
      else if start == end
      then ok []
      else read_words d (offset f 0 start) (end - start)

  unfoldable pub get : io.Disk → ℕ → Result Error FatEntry
  get d cluster = get_raw d cluster >>= λ raw. ok (from_raw raw cluster)

  unfoldable pub set : io.Disk → ℕ → FatEntry → Result Error io.Disk
  set d cluster entry = get_raw d cluster >>= λ old.
      run (into_raw entry cluster (old / 2 ^ 28 * 2 ^ 28)) >>= λ raw.
      write_mirrors f.mirrors d cluster (raw ∷ [])

-- `zip(start..)` and the entries of the words.
unfoldable pub entries : ℕ → List ℕ → List (ℕ × FatEntry)
entries start [] = []
entries start (raw ∷ raws) = (start, from_raw raw start) ∷ entries (suc start) raws

-- The words with the entries in them: a word past the last entry stays as it is.
unfoldable pub fill : ℕ → List ℕ → List FatEntry → Result Error (List ℕ)
fill cluster [] es = ok []
fill cluster (raw ∷ raws) [] = ok (raw ∷ raws)
fill cluster (raw ∷ raws) (e ∷ es) = run (into_raw e cluster (raw / 2 ^ 28 * 2 ^ 28)) >>= λ w.
    fill (suc cluster) raws es >>= λ ws. ok (w ∷ ws)

module _ (io : Io) (f : Fat) where
  unfoldable pub get_range : io.Disk → ℕ → ℕ → Result Error (List (ℕ × FatEntry))
  get_range d start len = get_range_raw io f d start len >>= λ raws. ok (entries start raws)

  unfoldable pub set_range : io.Disk → ℕ → ℕ → List FatEntry → Result Error io.Disk
  set_range d start len es = get_range_raw io f d start len >>= λ raws.
      fill start raws es >>= λ ws. write_mirrors io f f.mirrors d start ws

  unfoldable pub count_from : io.Disk → ℕ → ℕ → Result Error ℕ
  unfolding unwrap
  count_from d cluster zero = ok 0
  count_from d cluster (suc n) = unwrap (get io f d cluster) >>= λ e.
      count_from d (suc cluster) n >>= λ count. ok (if is_free e then suc count else count)

  unfoldable pub count_free : io.Disk → Result Error ℕ
  unfolding count_from
  count_free d = count_from d reserved_fat_entries (allocable_end f - reserved_fat_entries)

-- ===== src/Fat/Dirent/Editor.antt =====
-- mizu/lib/afat32/src/dirent.rs, `DirEntryEditor`: an entry in memory that is written back when it
-- was changed. The device is the interface `Disk`.
use umi.Base.{
  ℕ, ◌≡◌, List, [], ◌∷◌, Bool, true, false, ◌&&◌, ◌==◌, if◌then◌else◌, Option, none, some, Result,
  ok, ◌>>=◌, length,
}
use umi.Fat.Date.{Date}
use umi.Fat.Time.{Time, DateTime}
use umi.Fat.Dirent.{
  DirFileEntryData, file, to_bytes, first_cluster, set_first_cluster, size_of, set_size_of, created,
  accessed, modified, set_created, set_accessed, set_modified,
}

-- A device as bytes: what was written is what it holds. What a failed write leaves is not said.
pub record Disk : Type 1 where
  pub Device : Type 0
  pub Failure : Type 0
  pub write_all_at : ℕ → List ℕ → Device → Result Failure Device
  pub bytes_at : Device → ℕ → ℕ → List ℕ
  pub written :
      (pos : ℕ) (bytes : List ℕ) (d e : Device)
      → write_all_at pos bytes d ≡ ok e
      → bytes_at e pos (length bytes) ≡ bytes

pub record DirEntryEditor : Type 0 where
  pub data_of : DirFileEntryData
  pub pos : ℕ
  pub dirty : Bool

abbrev pub new_editor : DirFileEntryData → ℕ → DirEntryEditor
new_editor d pos = record { data_of = d; pos = pos; dirty = false }

-- The derived equalities of `Option<u32>`, `Date` and `DateTime`.
unfoldable pub same_option : Option ℕ → Option ℕ → Bool
same_option none none = true
same_option none (some b) = false
same_option (some a) none = false
same_option (some a) (some b) = a == b

unfoldable pub same_date : Date → Date → Bool
same_date a b = a.year == b.year && a.month == b.month && a.day == b.day

unfoldable pub same_time : Time → Time → Bool
same_time a b = a.hour == b.hour && a.minute == b.minute && a.sec == b.sec && a.millis == b.millis

unfoldable pub same_date_time : DateTime → DateTime → Bool
same_date_time a b = same_date a.date b.date && same_time a.time b.time

abbrev pub changed : DirEntryEditor → DirFileEntryData → DirEntryEditor
changed e d = record e { data_of = d; dirty = true }

unfoldable pub edit_first_cluster : Option ℕ → DirEntryEditor → DirEntryEditor
edit_first_cluster cluster e =
    if same_option cluster (first_cluster e.data_of)
    then e
    else changed e (set_first_cluster e.data_of cluster)

unfoldable pub edit_size : ℕ → DirEntryEditor → DirEntryEditor
edit_size size e = elim (size_of e.data_of) [
  | none ↦ e
  | some n ↦ if size == n then e else changed e (set_size_of e.data_of size)
]

unfoldable pub edit_created : DateTime → DirEntryEditor → DirEntryEditor
edit_created t e =
    if same_date_time t (created e.data_of) then e else changed e (set_created e.data_of t)

unfoldable pub edit_accessed : Date → DirEntryEditor → DirEntryEditor
edit_accessed date e =
    if same_date date (accessed e.data_of) then e else changed e (set_accessed e.data_of date)

unfoldable pub edit_modified : DateTime → DirEntryEditor → DirEntryEditor
edit_modified t e =
    if same_date_time t (modified e.data_of) then e else changed e (set_modified e.data_of t)

-- The calls that change the entry, and sequences of them.
pub data Edit : Type 0 where
  new_cluster : Option ℕ → Edit
  new_size : ℕ → Edit
  new_created new_modified : DateTime → Edit
  new_accessed : Date → Edit

unfoldable pub edit : Edit → DirEntryEditor → DirEntryEditor
edit (new_cluster c) e = edit_first_cluster c e
edit (new_size n) e = edit_size n e
edit (new_created t) e = edit_created t e
edit (new_modified t) e = edit_modified t e
edit (new_accessed date) e = edit_accessed date e

unfoldable pub edits : List Edit → DirEntryEditor → DirEntryEditor
edits [] e = e
edits (c ∷ cs) e = edits cs (edit c e)

module _ (disk : Disk) where
  unfoldable pub flush :
      disk.Device → DirEntryEditor → Result disk.Failure (disk.Device × DirEntryEditor)
  flush device e =
      if e.dirty
      then (disk.write_all_at e.pos (to_bytes (file e.data_of)) device >>= λ device.
          ok (device, record e { dirty = false }))
      else ok (device, e)

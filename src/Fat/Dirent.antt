-- ===== src/Fat/Dirent.antt =====
-- mizu/lib/afat32/src/dirent.rs: the entries of a directory, for a file and for a part of a long
-- name, and their 32 bytes. Arrays are lists; their lengths are in `IsData`.
pub mod Parse
pub mod Bytes
pub mod Editor
pub mod Edits
mod Tests
use Prim.Native.Nat.{bit_and, bit_or}
use umi.Base.{
  ℕ, ◌*◌, ◌/◌, ◌%◌, ◌^◌, List, [], ◌∷◌, ◌++◌, Bool, true, false, not, ◌==◌, if◌then◌else◌, Option,
  none, some,
}
use umi.Fat.Date.{Date, decode_date, encode_date}
use umi.Fat.Time.{DateTime, decode_date_time, encode_time}

abbrev pub directory : ℕ
directory = 16

-- Read only, hidden, system and volume at once: a part of a long name.
abbrev pub lfn_attrs : ℕ
lfn_attrs = 15

abbrev pub sfn_size : ℕ
sfn_size = 11

unfoldable pub has_attrs : ℕ → ℕ → Bool
has_attrs attrs flags = bit_and attrs flags == flags

pub record DirFileEntryData : Type 0 where
  pub name : List ℕ
  pub attrs : ℕ
  pub reserved_0 : ℕ
  pub create_time_0 : ℕ
  pub create_time_1 : ℕ
  pub create_date : ℕ
  pub access_date : ℕ
  pub first_cluster_hi : ℕ
  pub modify_time : ℕ
  pub modify_date : ℕ
  pub first_cluster_lo : ℕ
  pub file_size : ℕ

abbrev pub new_file_entry : List ℕ → ℕ → DirFileEntryData
new_file_entry name attrs = record {
  name = name;
  attrs = attrs;
  reserved_0 = 0;
  create_time_0 = 0;
  create_time_1 = 0;
  create_date = 0;
  access_date = 0;
  first_cluster_hi = 0;
  modify_time = 0;
  modify_date = 0;
  first_cluster_lo = 0;
  file_size = 0;
}

unfoldable pub first_cluster : DirFileEntryData → Option ℕ
first_cluster d =
    let cluster = bit_or (d.first_cluster_hi * 2 ^ 16) d.first_cluster_lo in
    if cluster == 0 then none else some cluster

unfoldable pub or_zero : Option ℕ → ℕ
or_zero none = 0
or_zero (some n) = n

unfoldable pub set_first_cluster : DirFileEntryData → Option ℕ → DirFileEntryData
set_first_cluster d cluster = record d {
  first_cluster_hi = or_zero cluster / 2 ^ 16 % 2 ^ 16;
  first_cluster_lo = or_zero cluster % 2 ^ 16;
}

unfoldable pub is_dir : DirFileEntryData → Bool
is_dir d = has_attrs d.attrs directory

unfoldable pub is_file : DirFileEntryData → Bool
is_file d = not (is_dir d)

unfoldable pub size_of : DirFileEntryData → Option ℕ
size_of d = if is_file d then some d.file_size else none

abbrev pub set_size_of : DirFileEntryData → ℕ → DirFileEntryData
set_size_of d size = record d { file_size = size }

unfoldable pub created : DirFileEntryData → DateTime
created d = decode_date_time d.create_date d.create_time_1 d.create_time_0

unfoldable pub accessed : DirFileEntryData → Date
accessed d = decode_date d.access_date

unfoldable pub modified : DirFileEntryData → DateTime
modified d = decode_date_time d.modify_date d.modify_time 0

unfoldable pub set_created : DirFileEntryData → DateTime → DirFileEntryData
set_created d t = record d {
  create_date = encode_date t.date;
  create_time_1 = (encode_time t.time).0;
  create_time_0 = (encode_time t.time).1;
}

unfoldable pub set_accessed : DirFileEntryData → Date → DirFileEntryData
set_accessed d date = record d { access_date = encode_date date }

unfoldable pub set_modified : DirFileEntryData → DateTime → DirFileEntryData
set_modified d t = record d {
  modify_date = encode_date t.date;
  modify_time = (encode_time t.time).0;
}

pub record DirLfnEntryData : Type 0 where
  pub order : ℕ
  pub name_0 : List ℕ
  pub lfn_attributes : ℕ
  pub entry_type : ℕ
  pub checksum : ℕ
  pub name_1 : List ℕ
  pub lfn_reserved : ℕ
  pub name_2 : List ℕ

pub data DirEntryData : Type 0 where
  file : DirFileEntryData → DirEntryData
  lfn : DirLfnEntryData → DirEntryData

unfoldable pub le_bytes : ℕ → List ℕ
le_bytes w = w % 2 ^ 8 ∷ w / 2 ^ 8 % 2 ^ 8 ∷ []

unfoldable pub le_bytes_32 : ℕ → List ℕ
le_bytes_32 w = w % 2 ^ 8 ∷ w / 2 ^ 8 % 2 ^ 8 ∷ w / 2 ^ 16 % 2 ^ 8 ∷ w / 2 ^ 24 % 2 ^ 8 ∷ []

unfoldable pub le_bytes_all : List ℕ → List ℕ
le_bytes_all [] = []
le_bytes_all (w ∷ words) = le_bytes w ++ le_bytes_all words

-- `concat_arrays!`.
unfoldable pub concat_arrays : List (List ℕ) → List ℕ
concat_arrays [] = []
concat_arrays (a ∷ arrays) = a ++ concat_arrays arrays

abbrev pub file_words : DirFileEntryData → List (List ℕ)
file_words d =
    le_bytes d.create_time_1
    ∷ le_bytes d.create_date
    ∷ le_bytes d.access_date
    ∷ le_bytes d.first_cluster_hi
    ∷ le_bytes d.modify_time
    ∷ le_bytes d.modify_date
    ∷ le_bytes d.first_cluster_lo
    ∷ le_bytes_32 d.file_size
    ∷ []

abbrev pub file_arrays : DirFileEntryData → List (List ℕ)
file_arrays d = d.name ∷ (d.attrs ∷ d.reserved_0 ∷ d.create_time_0 ∷ []) ∷ file_words d

abbrev pub lfn_arrays : DirLfnEntryData → List (List ℕ)
lfn_arrays d =
    (d.order ∷ [])
    ∷ le_bytes_all d.name_0
    ∷ (d.lfn_attributes ∷ d.entry_type ∷ d.checksum ∷ [])
    ∷ le_bytes_all d.name_1
    ∷ le_bytes d.lfn_reserved
    ∷ le_bytes_all d.name_2
    ∷ []

unfoldable pub to_bytes : DirEntryData → List ℕ
to_bytes (file d) = concat_arrays (file_arrays d)
to_bytes (lfn d) = concat_arrays (lfn_arrays d)

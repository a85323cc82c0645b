-- ===== src/Fat/Dirent/Tests.antt =====
-- Runs of the entries of a directory, on a device that is a function, with parsers of lists.
use umi.Base.{
  ℕ, zero, suc, ◌+◌, ◌*◌, ◌^◌, ◌<◌, ◌≡◌, refl, List, [], ◌∷◌, ◌++◌, true, false, ◌==◌,
  if◌then◌else◌, some, Result, ok, err, ◌>>=◌, length, arith, subst,
}
use umi.Crates.{Nom}
use umi.Fat.Date.{decode_date, IsDate}
use umi.Fat.Dirent.{
  DirFileEntryData, DirLfnEntryData, new_file_entry, file, lfn, to_bytes, concat_arrays, le_bytes,
  le_bytes_32, first_cluster, set_first_cluster, or_zero, accessed, set_accessed, size_of, is_file,
  is_dir, has_attrs,
}
use umi.Fat.Dirent.Parse.{parse}
use umi.Fat.Dirent.Bytes.{parse-to_bytes, IsData, IsWords}
use umi.Fat.Dirent.Editor.{
  Disk, DirEntryEditor, new_editor, Edit, new_cluster, new_size, new_accessed, edit, edits, flush,
  edit_first_cluster, edit_size, edit_accessed, same_option, same_date,
}
use umi.Fat.Dirent.Edits.{flush-edits_lem, IsEdit, AreEdits, IsSynced}

data Incomplete : Type 0 where
  incomplete : Incomplete

take_list : ℕ → List ℕ → Result Incomplete (List ℕ × List ℕ)
take_list zero input = ok (input, [])
take_list (suc n) [] = err incomplete
take_list (suc n) (b ∷ input) = take_list n input >>= λ r. ok (r.0, b ∷ r.1)

byte_of : List ℕ → Result Incomplete (List ℕ × ℕ)
byte_of [] = err incomplete
byte_of (b ∷ input) = ok (input, b)

word_of : List ℕ → Result Incomplete (List ℕ × ℕ)
word_of (a ∷ b ∷ input) = ok (input, a + 2 ^ 8 * b)
word_of (a ∷ []) = err incomplete
word_of [] = err incomplete

long_of : List ℕ → Result Incomplete (List ℕ × ℕ)
long_of (a ∷ b ∷ c ∷ d ∷ input) = ok (input, a + 2 ^ 8 * b + 2 ^ 16 * c + 2 ^ 24 * d)
long_of (a ∷ b ∷ c ∷ []) = err incomplete
long_of (a ∷ b ∷ []) = err incomplete
long_of (a ∷ []) = err incomplete
long_of [] = err incomplete

take_list-append :
    (bytes rest : List ℕ) → take_list (length bytes) (bytes ++ rest) ≡ ok (rest, bytes)
unfolding take_list
take_list-append [] rest = refl
take_list-append (b ∷ bytes) rest = rw (take_list-append bytes rest) refl

abbrev list_nom : Nom
unfolding byte_of word_of long_of
list_nom = record {
  Failure = Incomplete;
  take_bytes = take_list;
  u8 = byte_of;
  le_u16 = word_of;
  le_u32 = long_of;
  take_front = λ n bytes rest l.
      subst (λ k. take_list k (bytes ++ rest) ≡ ok (rest, bytes)) l (take_list-append bytes rest);
  u8_front = λ a rest. refl;
  le_u16_front = λ a b rest. refl;
  le_u32_front = λ a b c d rest. refl;
}

put : ℕ → List ℕ → (ℕ → ℕ) → ℕ → ℕ
put pos [] d i = d i
put pos (b ∷ bytes) d i = if i == pos then b else put (pos + 1) bytes d i

bytes_from : (ℕ → ℕ) → ℕ → ℕ → List ℕ
bytes_from d pos zero = []
bytes_from d pos (suc n) = d pos ∷ bytes_from d (pos + 1) n

bytes_from_above :
    (d : ℕ → ℕ) (pos b at n : ℕ)
    → pos < at
    → bytes_from (λ i. if i == pos then b else d i) at n ≡ bytes_from d at n
unfolding bytes_from
bytes_from_above d pos b at zero h = refl
bytes_from_above d pos b at (suc n) h =
    let other : (at == pos) ≡ false = ground arith in
    rw (other, bytes_from_above d pos b (at + 1) n (omega arith)) refl

bytes_from-put :
    (pos : ℕ) (bytes : List ℕ) (d : ℕ → ℕ) → bytes_from (put pos bytes d) pos (length bytes) ≡ bytes
unfolding bytes_from put
bytes_from-put pos [] d = refl
bytes_from-put pos (b ∷ bytes) d =
    let same : (pos == pos) ≡ true = ground arith in
    rw
      (
        same,
        bytes_from_above (put (pos + 1) bytes d) pos b (pos + 1) (length bytes) (omega arith),
        bytes_from-put (pos + 1) bytes d,
      )
      refl

ok_same : {A E : Type 0} {a b : A} (r : Result E A) → r ≡ ok a → r ≡ ok b → a ≡ b
ok_same r g h = cc

abbrev byte_disk : Disk
byte_disk = record {
  Device = ℕ → ℕ;
  Failure = Incomplete;
  write_all_at = λ pos bytes d. ok (put pos bytes d);
  bytes_at = bytes_from;
  written = λ pos bytes d e h.
      subst (λ g. bytes_from g pos (length bytes) ≡ bytes) (ok_same (ok (put pos bytes d)) refl h)
        (bytes_from-put pos bytes d);
}

abbrev readme : DirFileEntryData
readme = new_file_entry (82 ∷ 69 ∷ 65 ∷ 68 ∷ 77 ∷ 69 ∷ 32 ∷ 32 ∷ 84 ∷ 88 ∷ 84 ∷ []) 32

abbrev erased : ℕ → ℕ
erased i = 0

readme_on_disk : bytes_from (put 64 (to_bytes (file readme)) erased) 64 32 ≡ to_bytes (file readme)
unfolding bytes_from put to_bytes concat_arrays le_bytes le_bytes_32
readme_on_disk = refl

abbrev growth : List Edit
growth =
    new_cluster (some 70000)
    ∷ new_size 513
    ∷ new_accessed (record { year = 2024; month = 2; day = 29 })
    ∷ []

abbrev grown : DirEntryEditor
grown = edits growth (new_editor readme 64)

grown_size : grown.data_of.file_size ≡ 513
unfolding edits edit edit_size edit_first_cluster edit_accessed first_cluster set_first_cluster
    or_zero same_option same_date decode_date accessed set_accessed size_of is_file is_dir has_attrs
grown_size = refl

abbrev readme_part : DirLfnEntryData
readme_part = record {
  order = 65;
  name_0 = 114 ∷ 101 ∷ 97 ∷ 100 ∷ 109 ∷ [];
  lfn_attributes = 15;
  entry_type = 0;
  checksum = 115;
  name_1 = 101 ∷ 46 ∷ 8217 ∷ 120 ∷ 116 ∷ 0 ∷ [];
  lfn_reserved = 0;
  name_2 = 65535 ∷ 65535 ∷ [];
}

parse-to_bytes_example :
    parse list_nom (to_bytes (lfn readme_part) ++ 7 ∷ []) ≡ ok (7 ∷ [], lfn readme_part)
unfolding IsData IsWords has_attrs
parse-to_bytes_example = parse-to_bytes list_nom (lfn readme_part) (7 ∷ []) (
  refl,
  refl,
  refl,
  (omega arith, (omega arith, (omega arith, (omega arith, (omega arith, tt))))),
  (omega arith, (omega arith, (omega arith, (omega arith, (omega arith, (omega arith, tt)))))),
  (omega arith, (omega arith, tt)),
  omega arith,
  refl,
  omega arith,
)

after_growth : ℕ → ℕ
after_growth = put 64 (to_bytes (file grown.data_of)) (put 64 (to_bytes (file readme)) erased)

flush-edits_lem_example :
    IsSynced byte_disk after_growth (record grown { dirty = false })
    × (false ≡ false)
    × (parse list_nom (bytes_from after_growth 64 32) ≡ ok ([], file grown.data_of))
unfolding after_growth flush edits edit edit_size edit_first_cluster edit_accessed first_cluster
    set_first_cluster or_zero same_option same_date accessed set_accessed size_of is_file is_dir
    has_attrs IsData IsWords AreEdits IsEdit IsDate decode_date IsSynced
flush-edits_lem_example =
    flush-edits_lem list_nom byte_disk (put 64 (to_bytes (file readme)) erased)
      (new_editor readme 64) growth after_growth (record grown { dirty = false })
      (
        refl,
        omega arith,
        refl,
        (
          omega arith,
          (
            omega arith,
            (omega arith, (omega arith, (omega arith, (omega arith, (omega arith, tt))))),
          ),
        ),
        omega arith,
      )
      (λ c. readme_on_disk)
      (omega arith, (omega arith, ((omega arith, omega arith, omega arith, omega arith), tt))) refl

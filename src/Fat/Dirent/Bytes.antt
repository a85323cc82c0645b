-- ===== src/Fat/Dirent/Bytes.antt =====
-- mizu/lib/afat32/src/dirent.rs: `parse` of what `to_bytes` writes.
use umi.Base.{
  ℕ, ◌+◌, ◌*◌, ◌/◌, ◌%◌, ◌^◌, ◌<◌, ◌≡◌, refl, ap, ◌∙◌, List, [], ◌∷◌, ◌++◌, true, false, ok, length,
  arith, subst, append_assoc, if◌then◌else◌,
}
use umi.Crates.{Nom}
use umi.Fat.Dirent.{
  DirFileEntryData, DirLfnEntryData, DirEntryData, file, lfn, lfn_attrs, sfn_size, has_attrs,
  le_bytes, le_bytes_32, le_bytes_all, concat_arrays, file_words, file_arrays, lfn_arrays, to_bytes,
}
use umi.Fat.Dirent.Parse.{
  first_byte, other_bytes, le_words, read_array, parse_lfn, parse_file, parse,
}

-- Words of 16 bits.
unfoldable pub IsWords : List ℕ → Type 0
IsWords [] = Unit
IsWords (w ∷ words) = (w < 2 ^ 16) × IsWords words

-- The fields have the lengths and the widths of the arrays and integers of the source, and the
-- attributes are of the entry's kind.
unfoldable pub IsData : DirEntryData → Type 0
IsData (file d) =
    (length d.name ≡ sfn_size)
    × (d.attrs < 2 ^ 6)
    × (has_attrs d.attrs lfn_attrs ≡ false)
    × IsWords (
        d.create_time_1 ∷ d.create_date ∷ d.access_date ∷ d.first_cluster_hi ∷ d.modify_time
        ∷ d.modify_date ∷ d.first_cluster_lo ∷ [])
    × (d.file_size < 2 ^ 32)
IsData (lfn d) =
    (length d.name_0 ≡ 5)
    × (length d.name_1 ≡ 6)
    × (length d.name_2 ≡ 2)
    × IsWords d.name_0
    × IsWords d.name_1
    × IsWords d.name_2
    × (d.lfn_attributes < 2 ^ 6)
    × (has_attrs d.lfn_attributes lfn_attrs ≡ true)
    × (d.lfn_reserved < 2 ^ 16)

le_word : (w : ℕ) → w < 2 ^ 16 → w % 2 ^ 8 + 2 ^ 8 * (w / 2 ^ 8 % 2 ^ 8) ≡ w
le_word w h = omega arith

le_word_32 :
    (w : ℕ)
    → w < 2 ^ 32
    → w % 2 ^ 8
        + 2 ^ 8 * (w / 2 ^ 8 % 2 ^ 8)
        + 2 ^ 16 * (w / 2 ^ 16 % 2 ^ 8)
        + 2 ^ 24 * (w / 2 ^ 24 % 2 ^ 8)
      ≡ w
le_word_32 w h = omega arith

le_words-bytes : (words : List ℕ) → IsWords words → le_words (le_bytes_all words) ≡ words
unfolding le_words le_bytes_all le_bytes IsWords
le_words-bytes [] h = refl
le_words-bytes (w ∷ words) h = rw (le_word w h.0, le_words-bytes words h.1) refl

length-le_bytes_all : (words : List ℕ) → length (le_bytes_all words) ≡ 2 * length words
unfolding le_bytes_all le_bytes
length-le_bytes_all [] = refl
length-le_bytes_all (w ∷ words) = rw (length-le_bytes_all words) (omega arith)

-- Arrays before the rest of an input.
unfoldable onto : List (List ℕ) → List ℕ → List ℕ
onto [] rest = rest
onto (a ∷ arrays) rest = a ++ onto arrays rest

onto-concat_arrays :
    (arrays : List (List ℕ)) (rest : List ℕ) → concat_arrays arrays ++ rest ≡ onto arrays rest
unfolding onto concat_arrays
onto-concat_arrays [] rest = refl
onto-concat_arrays (a ∷ arrays) rest =
    append_assoc a (concat_arrays arrays) rest ∙ ap (λ l. a ++ l) (onto-concat_arrays arrays rest)

module _ (nom : Nom) where
  le_u16-bytes :
      (w : ℕ) (rest : List ℕ) → w < 2 ^ 16 → nom.le_u16 (le_bytes w ++ rest) ≡ ok (rest, w)
  unfolding le_bytes
  le_u16-bytes w rest h =
      nom.le_u16_front (w % 2 ^ 8) (w / 2 ^ 8 % 2 ^ 8) rest ∙ ap (λ v. ok (rest, v)) (le_word w h)

  le_u32-bytes :
      (w : ℕ) (rest : List ℕ) → w < 2 ^ 32 → nom.le_u32 (le_bytes_32 w ++ rest) ≡ ok (rest, w)
  unfolding le_bytes_32
  le_u32-bytes w rest h =
      nom.le_u32_front (w % 2 ^ 8) (w / 2 ^ 8 % 2 ^ 8) (w / 2 ^ 16 % 2 ^ 8) (w / 2 ^ 24 % 2 ^ 8)
        rest
      ∙ ap (λ v. ok (rest, v)) (le_word_32 w h)

  read_array-bytes :
      (words : List ℕ) (rest : List ℕ)
      → IsWords words
      → read_array nom (length words) (le_bytes_all words ++ rest) ≡ ok (rest, words)
  unfolding read_array le_bytes_all IsWords
  read_array-bytes [] rest h = refl
  read_array-bytes (w ∷ words) rest h =
      rw
        (
          append_assoc (le_bytes w) (le_bytes_all words) rest,
          le_u16-bytes w (le_bytes_all words ++ rest) h.0,
          read_array-bytes words rest h.1,
        )
        refl

  parse_file-bytes :
      (d : DirFileEntryData) (rest : List ℕ)
      → IsData (file d)
      → parse_file nom d.name d.attrs (d.reserved_0 ∷ d.create_time_0 ∷ onto (file_words d) rest)
        ≡ ok (rest, file d)
  unfolding parse_file IsData IsWords onto
  parse_file-bytes d rest (_, _, _, (t1, (da, (ac, (hi, (mt, (md, (lo, _))))))), sz) =
      let r8 = le_bytes_32 d.file_size ++ rest in
      let r7 = le_bytes d.first_cluster_lo ++ r8 in
      let r6 = le_bytes d.modify_date ++ r7 in
      let r5 = le_bytes d.modify_time ++ r6 in
      let r4 = le_bytes d.first_cluster_hi ++ r5 in
      let r3 = le_bytes d.access_date ++ r4 in
      let r2 = le_bytes d.create_date ++ r3 in
      let r1 = le_bytes d.create_time_1 ++ r2 in
      rw
        (
          parse_file,
          nom.u8_front d.reserved_0 (d.create_time_0 ∷ r1),
          nom.u8_front d.create_time_0 r1,
          le_u16-bytes d.create_time_1 r2 t1,
          le_u16-bytes d.create_date r3 da,
          le_u16-bytes d.access_date r4 ac,
          le_u16-bytes d.first_cluster_hi r5 hi,
          le_u16-bytes d.modify_time r6 mt,
          le_u16-bytes d.modify_date r7 md,
          le_u16-bytes d.first_cluster_lo r8 lo,
          le_u32-bytes d.file_size rest sz,
        )
        refl

  parse_lfn-bytes :
      (d : DirLfnEntryData) (rest : List ℕ)
      → IsData (lfn d)
      → parse_lfn nom (d.order ∷ le_bytes_all d.name_0) d.lfn_attributes (
          d.entry_type
          ∷ d.checksum
          ∷ (le_bytes_all d.name_1 ++ (le_bytes d.lfn_reserved ++ (le_bytes_all d.name_2 ++ rest))))
        ≡ ok (rest, lfn d)
  unfolding parse_lfn IsData first_byte other_bytes
  parse_lfn-bytes d rest (_, l1, l2, w0, w1, w2, _, _, rs) =
      let r3 = le_bytes_all d.name_2 ++ rest in
      let r2 = le_bytes d.lfn_reserved ++ r3 in
      let r1 = le_bytes_all d.name_1 ++ r2 in
      let first =
        subst (λ n. read_array nom n r1 ≡ ok (r2, d.name_1)) l1 (read_array-bytes d.name_1 r2 w1) in
      let second =
        subst (λ n. read_array nom n r3 ≡ ok (rest, d.name_2)) l2
          (read_array-bytes d.name_2 rest w2) in
      rw
        (
          parse_lfn,
          nom.u8_front d.entry_type (d.checksum ∷ r1),
          nom.u8_front d.checksum r1,
          first,
          le_u16-bytes d.lfn_reserved r3 rs,
          second,
          le_words-bytes d.name_0 w0,
        )
        refl

  -- The first twelve bytes, after which the kind of the entry is known.
  parse_head :
      (name input : List ℕ) (attrs : ℕ)
      → length name ≡ sfn_size
      → attrs < 2 ^ 6
      → parse nom (name ++ attrs ∷ input) ≡ (
          if has_attrs attrs lfn_attrs
          then parse_lfn nom name attrs input
          else parse_file nom name attrs input)
  unfolding parse
  parse_head name input attrs l small =
      let low : attrs % 2 ^ 6 ≡ attrs = omega arith in
      rw (nom.take_front sfn_size name (attrs ∷ input) l, nom.u8_front attrs input, low) refl

  -- For an entry of a directory whose fields have the lengths and widths of the source and whose
  -- attributes are of its kind, `parse` of the bytes that `to_bytes` writes, before any rest of the
  -- input, returns that entry and the rest.
  pub parse-to_bytes :
      (d : DirEntryData) (rest : List ℕ) → IsData d → parse nom (to_bytes d ++ rest) ≡ ok (rest, d)
  unfolding to_bytes IsData onto
  parse-to_bytes (file d) rest h =
      let fields = onto (file_words d) rest in
      ap (parse nom) (onto-concat_arrays (file_arrays d) rest)
      ∙ parse_head d.name (d.reserved_0 ∷ d.create_time_0 ∷ fields) d.attrs h.0 h.1
      ∙ rw (h.2) (parse_file-bytes d rest h)
  parse-to_bytes (lfn d) rest h =
      let r1 =
        le_bytes_all d.name_1 ++ (le_bytes d.lfn_reserved ++ (le_bytes_all d.name_2 ++ rest)) in
      let len : length (d.order ∷ le_bytes_all d.name_0) ≡ sfn_size =
        rw (length-le_bytes_all d.name_0, h.0) refl in
      ap (parse nom) (onto-concat_arrays (lfn_arrays d) rest)
      ∙ parse_head (d.order ∷ le_bytes_all d.name_0) (d.entry_type ∷ d.checksum ∷ r1)
          d.lfn_attributes len h.6
      ∙ rw (h.7) (parse_lfn-bytes d rest h)

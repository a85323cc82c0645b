-- ===== src/Fat/Dirent/Parse.antt =====
-- mizu/lib/afat32/src/dirent.rs, `DirEntryData::parse`, over the parsers of `nom`.
use umi.Base.{ℕ, zero, suc, ◌+◌, ◌*◌, ◌%◌, ◌^◌, List, [], ◌∷◌, if◌then◌else◌, Result, ok, ◌>>=◌}
use umi.Crates.{Nom}
use umi.Fat.Dirent.{DirEntryData, file, lfn, lfn_attrs, sfn_size, has_attrs}

-- `name[0]`, of an array of `SFN_SIZE` bytes.
unfoldable pub first_byte : List ℕ → ℕ
first_byte [] = 0
first_byte (b ∷ bytes) = b

unfoldable pub other_bytes : List ℕ → List ℕ
other_bytes [] = []
other_bytes (b ∷ bytes) = bytes

-- The exact chunks of two bytes, read with `from_le_bytes`.
unfoldable pub le_words : List ℕ → List ℕ
le_words [] = []
le_words (a ∷ []) = []
le_words (a ∷ b ∷ bytes) = (a + 2 ^ 8 * b) ∷ le_words bytes

-- `FileAttributes::from_bits_truncate`: the six flags that are defined.
abbrev pub from_bits_truncate : ℕ → ℕ
from_bits_truncate bits = bits % 2 ^ 6

module _ (nom : Nom) where
  -- A loop over the elements of an array.
  unfoldable pub read_array : ℕ → List ℕ → Result nom.Failure (List ℕ × List ℕ)
  read_array zero input = ok (input, [])
  read_array (suc n) input =
      nom.le_u16 input >>= λ x. read_array n x.0 >>= λ xs. ok (xs.0, x.1 ∷ xs.1)

  unfoldable pub parse_lfn : List ℕ → ℕ → List ℕ → Result nom.Failure (List ℕ × DirEntryData)
  parse_lfn name attrs input = nom.u8 input >>= λ entry_type. nom.u8 entry_type.0 >>= λ checksum.
      read_array 6 checksum.0 >>= λ name_1. nom.le_u16 name_1.0 >>= λ reserved.
      read_array 2 reserved.0 >>= λ name_2. ok (
        name_2.0,
        lfn (record {
          order = first_byte name;
          name_0 = le_words (other_bytes name);
          lfn_attributes = attrs;
          entry_type = entry_type.1;
          checksum = checksum.1;
          name_1 = name_1.1;
          lfn_reserved = reserved.1;
          name_2 = name_2.1;
        }),
      )

  unfoldable pub parse_file : List ℕ → ℕ → List ℕ → Result nom.Failure (List ℕ × DirEntryData)
  parse_file name attrs input = nom.u8 input >>= λ reserved. nom.u8 reserved.0 >>= λ time_0.
      nom.le_u16 time_0.0 >>= λ time_1. nom.le_u16 time_1.0 >>= λ date.
      nom.le_u16 date.0 >>= λ access. nom.le_u16 access.0 >>= λ hi. nom.le_u16 hi.0 >>= λ time.
      nom.le_u16 time.0 >>= λ modify. nom.le_u16 modify.0 >>= λ lo. nom.le_u32 lo.0 >>= λ size. ok (
        size.0,
        file (record {
          name = name;
          attrs = attrs;
          reserved_0 = reserved.1;
          create_time_0 = time_0.1;
          create_time_1 = time_1.1;
          create_date = date.1;
          access_date = access.1;
          first_cluster_hi = hi.1;
          modify_time = time.1;
          modify_date = modify.1;
          first_cluster_lo = lo.1;
          file_size = size.1;
        }),
      )

  unfoldable pub parse : List ℕ → Result nom.Failure (List ℕ × DirEntryData)
  parse input = nom.take_bytes sfn_size input >>= λ name. nom.u8 name.0 >>= λ bits.
      let attrs = from_bits_truncate bits.1 in
      if has_attrs attrs lfn_attrs
      then parse_lfn name.1 attrs bits.0
      else parse_file name.1 attrs bits.0

-- ===== src/Paging/Tests.antt =====
-- Runs of entries, indices and a translation through three tables.
use Prim.Native.Nat.{bit_or}
use umi.Base.{
  ℕ, suc, ◌≡◌, refl, ap, [], ◌∷◌, false, ◌==◌, ◌||◌, some, if◌then◌else◌, arith, get_elem?,
  replicate, length-replicate, ok, err,
}
use umi.Paging.{
  permission_denied, addr_idx, get, new_entry, contains, has_table, valid, user_access, table_of,
}
use umi.Paging.Table.{Memory, entry_at, la2pa, reprotect, split_entries}
use umi.Paging.Entries.{IsPage, get-new_entry}
use umi.Paging.Table.Walks.{IsWalk, split_entries_large, reprotect-la2pa}

abbrev address : ℕ
address = 0x80200000

address-IsPage : IsPage 1 address
address-IsPage = record { aligned = omega arith; bounded = omega arith }

get-new_entry_example : get (new_entry address 7 1) 1 ≡ (address, 7)
get-new_entry_example = get-new_entry 1 address 7 (omega arith) address-IsPage (omega arith)

abbrev large : ℕ
large = 0x80000000

large-IsPage : IsPage 2 large
large-IsPage = record { aligned = omega arith; bounded = omega arith }

split_entries_large_example :
    (entry : ℕ) × (get_elem? (split_entries 512 0 large 7 1) 3 ≡ some entry)
    × (get entry 1 ≡ (large, 7))
split_entries_large_example = split_entries_large large 7 3 large-IsPage (omega arith) (omega arith)

-- The table at 4096 leads to the table at 8192, and that to the one at 12288.
abbrev memory : Memory
memory = record {
  tables = λ t.
      if t == 4096
      then 2049 ∷ replicate 511 0
      else if t == 8192
      then 3073 ∷ replicate 511 0
      else 4097 ∷ replicate 511 0;
  free = [];
}

memory-IsWalk : IsWalk memory 4096 0 8192 12288
unfolding table_of entry_at addr_idx get contains has_table
memory-IsWalk = record {
  upper = refl;
  lower = refl;
  not_root = λ e. absurd (omega arith);
  not_mid = λ e. absurd (omega arith);
  sized = ap suc (length-replicate {A = ℕ} 511 0);
}

reprotect-la2pa_example :
    let i = addr_idx 0 0 false in
    let pa = (get (entry_at memory 12288 i) 0).0 in
    let attr = bit_or 22 valid in
    (m' : Memory) × (entry : ℕ) × (reprotect memory 4096 0 1 22 ≡ (m', ok entry))
    × (get entry 0 ≡ (pa, attr))
    × (la2pa m' 4096 0 false
        ≡ (if contains attr user_access || false then ok pa else err permission_denied))
reprotect-la2pa_example =
    reprotect-la2pa memory 4096 0 8192 12288 22 false memory-IsWalk refl (omega arith) (omega arith)

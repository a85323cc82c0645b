-- ===== src/Paging.antt =====
-- mizu/lib/paging/src: sv39 page tables. Addresses and entries are 64-bit words; a mask of low bits
-- is a remainder, and a mask of high bits a multiple. A level is 0, 1 or 2, from leaf to root.
pub mod Table
pub mod Entries
mod Tests
use Prim.Native.Nat.{bit_and, bit_or}
use umi.Base.{
  ℕ, zero, suc, ◌+◌, ◌-◌, ◌*◌, ◌/◌, ◌%◌, ◌^◌, Bool, true, false, ◌==◌, ◌&&◌, not, Option, none,
  some, if◌then◌else◌, Result, ok, err,
}

pub data Error : Type 0 where
  out_of_memory : Error
  addr_misaligned : ℕ → ℕ → Option ℕ → Error
  range_empty : Error
  entry_existent : Bool → Error
  permission_denied : Error

abbrev pub nr_entries : ℕ
nr_entries = 512

abbrev pub page_shift : ℕ → ℕ
page_shift level = 12 + level * 9

abbrev pub page_size : ℕ → ℕ
page_size level = 2 ^ page_shift level

-- The bits of a physical address, and of a virtual one, that are above the page of the level.
abbrev pub paddr_masked : ℕ → ℕ → ℕ
paddr_masked level addr = addr % 2 ^ 56 / page_size level * page_size level

abbrev pub laddr_masked : ℕ → ℕ → ℕ
laddr_masked level addr = addr % page_size 3 / page_size level * page_size level

unfoldable pub addr_idx : ℕ → ℕ → Bool → ℕ
addr_idx level laddr end =
    let ret = laddr_masked level laddr / page_size level % nr_entries in
    if end && ret == 0 then nr_entries else ret

unfoldable pub decrease : ℕ → Option ℕ
decrease zero = none
decrease (suc level) = some level

pub round_down : ℕ → ℕ → ℕ
round_down addr level = addr / page_size level * page_size level

pub round_up : ℕ → ℕ → ℕ
round_up addr level = (addr + (page_size level - 1)) % 2 ^ 64 / page_size level * page_size level

-- `Attr`, without the bits of the board cv1811h.
abbrev pub valid : ℕ
valid = 1

abbrev pub readable : ℕ
readable = 2

abbrev pub writable : ℕ
writable = 4

abbrev pub executable : ℕ
executable = 8

abbrev pub user_access : ℕ
user_access = 16

unfoldable pub contains : ℕ → ℕ → Bool
contains attr flag = bit_and attr flag == flag

unfoldable pub has_table : ℕ → Bool
has_table attr = bit_and attr (bit_or (bit_or readable writable) executable) == 0

-- `AttrBuilder`: the attribute after one call.
pub build_readable : ℕ → Bool → ℕ
build_readable attr on = if on then bit_or attr readable else attr

pub build_writable : ℕ → Bool → ℕ
build_writable attr on = if on then bit_or attr writable else attr

pub build_user_access : ℕ → Bool → ℕ
build_user_access attr on = if on then bit_or attr user_access else attr

pub build_executable : ℕ → Bool → ℕ
build_executable attr on = if on then bit_or attr executable else attr

-- `Entry`: the address and the attribute of a level.
unfoldable pub get : ℕ → ℕ → ℕ × ℕ
get entry level = (paddr_masked level (entry * 4 % 2 ^ 64), entry % 2 ^ 8)

unfoldable pub new_entry : ℕ → ℕ → ℕ → ℕ
new_entry addr attr level = bit_or (paddr_masked level addr / 4) attr

unfoldable pub is_set : ℕ → Bool
unfolding get contains
is_set entry = contains (get entry 0).1 valid

-- The address of the table that an entry of the level holds.
unfoldable pub table_of : ℕ → ℕ → Option ℕ
unfolding get contains has_table
table_of entry level =
    let (addr, attr) = get entry 0 in
    if contains attr valid && has_table attr && not (level == 0) then some addr else none

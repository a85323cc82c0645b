-- ===== src/Paging/Table.antt =====
-- The tables in memory: by their physical address, a list of entries. The allocator is the list of
-- the frames that it will give out, and `alloc` zeroes the frame.
pub mod Walks
use Prim.Native.Nat.{bit_and, bit_or}
use umi.Base.{
  ℕ, zero, suc, ◌+◌, ◌-◌, ◌*◌, ◌/◌, ◌%◌, ◌^◌, List, [], ◌∷◌, Bool, true, false, ◌==◌, ◌&&◌, ◌||◌,
  not, ltb, leb, min, max, Option, none, some, if◌then◌else◌, Result, ok, err, get_elem?, set,
  replicate,
}
use umi.Paging.{
  Error, out_of_memory, addr_misaligned, range_empty, entry_existent, permission_denied, nr_entries,
  page_size, addr_idx, decrease, valid, user_access, contains, has_table, get, new_entry, is_set,
  table_of,
}

pub record Memory : Type 0 where
  pub tables : ℕ → List ℕ
  pub free : List ℕ

or_unset : Option ℕ → ℕ
or_unset none = 0
or_unset (some e) = e

unfoldable pub entry_at : Memory → ℕ → ℕ → ℕ
unfolding or_unset
entry_at m table i = or_unset (get_elem? (m.tables table) i)

unfoldable pub write : Memory → ℕ → ℕ → ℕ → Memory
write m table i entry = record m {
  tables = λ t. if t == table then set (m.tables t) i entry else m.tables t;
}

-- A zeroed table of the allocator.
unfoldable pub alloc : Memory → Memory × Option ℕ
alloc m = elim m.free [
  | [] ↦ (m, none)
  | frame ∷ free ↦ (
    record { tables = λ t. if t == frame then replicate nr_entries 0 else m.tables t; free = free },
    some frame,
  )
]

unfoldable pub dealloc : Memory → ℕ → Memory
dealloc m frame = record m { free = frame ∷ m.free }

-- `la2pte` below the levels of the list: the table and the index of the entry.
pub walk : Memory → List ℕ → ℕ → ℕ → Result Error (ℕ × ℕ)
unfolding entry_at addr_idx table_of
walk m [] table la = ok (table, addr_idx 0 la false)
walk m (level ∷ levels) table la =
    elim (table_of (entry_at m table (addr_idx level la false)) level) [
      | none ↦ err (entry_existent false)
      | some next ↦ walk m levels next la
    ]

pub la2pte : Memory → ℕ → ℕ → Result Error (ℕ × ℕ)
unfolding walk
la2pte m root la = walk m (2 ∷ 1 ∷ []) root la

-- `table_or_create` of the entry `i` of a table.
created : ℕ → ℕ → Memory × Option ℕ → Memory × Result Error ℕ
unfolding write new_entry
created table i (m, none) = (m, err out_of_memory)
created table i (m, some frame) = (write m table i (new_entry frame valid 0), ok frame)

pub table_or_create : Memory → ℕ → ℕ → ℕ → Memory × Result Error ℕ
unfolding entry_at get has_table contains alloc created
table_or_create m table i level =
    let (addr, attr) = get (entry_at m table i) 0 in
    if not (has_table attr) || level == 0
    then (m, err (entry_existent true))
    else if contains attr valid
    then (m, ok addr)
    else created table i (alloc m)

-- The entries of a table that splits a leaf at `addr`, from the index `n`.
pub split_entries : ℕ → ℕ → ℕ → ℕ → ℕ → List ℕ
unfolding new_entry
split_entries zero n addr attr level = []
split_entries (suc left) n addr attr level =
    new_entry (addr + n * page_size 0) attr level ∷ split_entries left (suc n) addr attr level

splits : ℕ → ℕ → ℕ → ℕ → ℕ → Memory × Option ℕ → Memory × Result Error ℕ
unfolding write new_entry split_entries
splits table i addr attr level (m, none) = (m, err out_of_memory)
splits table i addr attr level (m, some frame) =
    let filled = record m {
      tables =
          λ t. if t == frame then split_entries nr_entries 0 addr attr (level - 1) else m.tables t;
    } in
    (write filled table i (new_entry frame valid 0), ok frame)

pub table_or_split : Memory → ℕ → ℕ → ℕ → Memory × Result Error ℕ
unfolding entry_at get has_table contains alloc splits
table_or_split m table i level =
    let (addr, attr) = get (entry_at m table i) 0 in
    if not (contains attr valid) || level == 0
    then (m, err (entry_existent false))
    else if has_table attr
    then (m, ok addr)
    else splits table i addr attr level (alloc m)

-- `la2pte_alloc` below the levels of the list.
pub walk_alloc : Memory → List ℕ → ℕ → ℕ → Memory × Result Error (ℕ × ℕ)
unfolding table_or_create addr_idx
walk_alloc m [] table la = (m, ok (table, addr_idx 0 la false))
walk_alloc m (level ∷ levels) table la =
    let (m', r) = table_or_create m table (addr_idx level la false) level in
    elim r [ err e ↦ (m', err e) | ok next ↦ walk_alloc m' levels next la ]

pub la2pte_alloc : Memory → ℕ → ℕ → Memory × Result Error (ℕ × ℕ)
unfolding walk_alloc
la2pte_alloc m root la = walk_alloc m (2 ∷ 1 ∷ []) root la

abbrev pub blank_begin : ℕ
blank_begin = 2 ^ 38 - 1

abbrev pub blank_end : ℕ
blank_end = 2 ^ 64 - 2 ^ 38 - 1

translate : Bool → ℕ → Result Error ℕ
unfolding get contains
translate is_kernel entry =
    let (pa, attr) = get entry 0 in
    if contains attr valid
    then (if contains attr user_access || is_kernel then ok pa else err permission_denied)
    else err (entry_existent false)

pub la2pa : Memory → ℕ → ℕ → Bool → Result Error ℕ
unfolding la2pte translate entry_at
la2pa m root la is_kernel =
    if leb blank_begin la && leb la blank_end
    then err permission_denied
    else elim (la2pte m root la) [
      | err e ↦ err e
      | ok (table, i) ↦ translate is_kernel (entry_at m table i)
    ]

-- The loop of `reprotect`: `entry` is the last that was written.
pub reprotect_loop : ℕ → Memory → ℕ → ℕ → ℕ → ℕ → Memory × Result Error ℕ
unfolding la2pte entry_at write get new_entry
reprotect_loop zero m root la flag entry = (m, ok entry)
reprotect_loop (suc npages) m root la flag entry = elim (la2pte m root la) [
  | err e ↦ (m, err e)
  | ok (table, i) ↦
      let entry' = new_entry (get (entry_at m table i) 0).0 (bit_or flag valid) 0 in
      reprotect_loop npages (write m table i entry') root (la + page_size 0) flag entry'
]

pub reprotect : Memory → ℕ → ℕ → ℕ → ℕ → Memory × Result Error ℕ
unfolding reprotect_loop
reprotect m root la npages flag =
    if not (la % page_size 0 == 0)
    then (m, err (addr_misaligned la (la + npages + page_size 0) none))
    else reprotect_loop npages m root la flag 0

-- `Entry::destroy` of the entry `i`, with the drop of a table of the level below.
destroyed : Memory → ℕ → ℕ → ℕ → Memory × Bool → Memory × Bool
unfolding write dealloc
destroyed m table i addr (m', empty) =
    if empty then (dealloc (write m' table i 0) addr, true) else (m', false)

destroy : (Memory → ℕ → Memory × Bool) → Memory → ℕ → ℕ → ℕ → Memory × Bool
unfolding get contains has_table entry_at write destroyed
destroy drop m table i level =
    let (addr, attr) = get (entry_at m table i) 0 in
    if contains attr valid
    then (if not (level == 0) && has_table attr
        then destroyed m table i addr (drop m addr)
        else (write m table i 0, true))
    else (m, true)

-- The fold of `unmap_impl` over the entries from `index`, of which `left` are left. `drop` is the
-- call for the table of an index.
unmap_entries : (ℕ → Memory → ℕ → Memory × Bool) → ℕ → ℕ → ℕ → ℕ → ℕ → Memory → ℕ → ℕ → Memory × ℕ
unfolding destroy is_set entry_at
unmap_entries drop from to zero index level m table count = (m, count)
unmap_entries drop from to (suc left) index level m table count =
    let (m', empty) =
      if leb from index && ltb index to
      then destroy (drop index) m table index level
      else (m, not (is_set (entry_at m table index))) in
    unmap_entries drop from to left (index + 1) level m' table (if empty then count + 1 else count)

pub unmap_impl : ℕ → ℕ → ℕ → ℕ → Memory → ℕ → Memory × Bool
unfolding unmap_entries addr_idx
unmap_impl zero start end base m table =
    let from = addr_idx 0 (max start base) false in
    let to = addr_idx 0 (min end (base + page_size 0 * nr_entries)) true in
    let (m', count) = unmap_entries (λ index m t. (m, false)) from to nr_entries 0 0 m table 0 in
    (m', leb nr_entries count)
unmap_impl (suc level) start end base m table =
    let size = page_size (suc level) in
    let from = addr_idx (suc level) (max start base) false in
    let to = addr_idx (suc level) (min end (base + size * nr_entries)) true in
    let (m', count) =
      unmap_entries (λ index m t. unmap_impl level start end (base + index * size) m t) from to
        nr_entries 0 (suc level) m table 0 in
    (m', leb nr_entries count)

pub unmap : Memory → ℕ → ℕ → ℕ → Memory
unfolding unmap_impl
unmap m root start end = (unmap_impl 2 start end 0 m root).0

-- The loop of `mappages` after `i` pages, with `left` pages left.
pub map_loop : ℕ → ℕ → Memory → ℕ → ℕ → ℕ → ℕ → ℕ → Memory × Result Error ℕ
unfolding la2pte_alloc unmap entry_at write get contains new_entry
map_loop zero i m root la pa flags entry = (m, ok entry)
map_loop (suc left) i m root la pa flags entry =
    let (m', r) = la2pte_alloc m root (la + i * page_size 0) in
    elim r [
      | err e ↦ (unmap m' root la (la + (i + 1) * page_size 0), err e)
      | ok (table, k) ↦
          let entry' = new_entry (pa + i * page_size 0) (bit_or flags valid) 0 in
          let later = map_loop left (i + 1) (write m' table k entry') root la pa flags entry' in
          if contains (get (entry_at m' table k) 0).1 valid
          then (m', err (entry_existent true))
          else later
    ]

pub mappages : Memory → ℕ → ℕ → ℕ → ℕ → ℕ → Memory × Result Error ℕ
unfolding map_loop
mappages m root la pa flags npages =
    let mapped = map_loop npages 0 m root la pa flags 0 in
    if not (la % page_size 0 == 0) || not (pa % page_size 0 == 0)
    then (m, err (addr_misaligned la (la + npages + page_size 0) (some pa)))
    else if npages == 0
    then (m, err range_empty)
    else mapped

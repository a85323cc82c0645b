-- ===== src/Paging/Table/Walks.antt =====
-- Tables in memory: what a split puts into the new table, and how a page that was reprotected is
-- translated.
use Prim.Native.Nat.{bit_and, bit_or}
use umi.Base.{
  ℕ, zero, suc, ◌+◌, ◌*◌, ◌/◌, ◌%◌, ◌^◌, ◌<◌, ◌≡◌, ◌≢◌, refl, ap, ◌∙◌, Bool, true, false, ◌==◌,
  ==_iff, ◌||◌, leb, some, if◌then◌else◌, arith, get_elem?, length, get_elem?-set_self, length-set,
  lt→leb, ok, err,
}
use native.Mathlib.Nat.{zero-add}
use umi.Words.Laws.{bit_or-lt, bit-or, bit-and, bit_and-le}
use umi.Words.Sums.{eq_of_bits}
use umi.Paging.{
  permission_denied, addr_idx, get, new_entry, page_size, contains, valid, user_access, table_of,
}
use umi.Paging.Table.{
  Memory, or_unset, entry_at, write, walk, la2pte, split_entries, translate, la2pa, reprotect_loop,
  reprotect, blank_begin,
}
use umi.Paging.Entries.{IsPage, get-new_entry, addr_idx_lem}

split_entries-get_elem? :
    (left n i addr attr level : ℕ)
    → i < left
    → get_elem? (split_entries left n addr attr level) i
      ≡ some (new_entry (addr + (n + i) * 4096) attr level)
unfolding split_entries
split_entries-get_elem? zero n i addr attr level h = absurd (omega arith)
split_entries-get_elem? (suc left) n zero addr attr level h =
    ap (λ (k : ℕ). some (new_entry (addr + k * 4096) attr level)) (omega arith)
split_entries-get_elem? (suc left) n (suc i) addr attr level h =
    split_entries-get_elem? left (suc n) i addr attr level (omega arith)
    ∙ ap (λ (k : ℕ). some (new_entry (addr + k * 4096) attr level)) (omega arith)

-- A page of level 1 that is split keeps its mapping: the entry `i` of the new table is the page `i`
-- of it, with its attribute.
pub split_entries_small :
    (addr attr i : ℕ)
    → IsPage 1 addr
    → attr < 256
    → i < 512
    → (entry : ℕ) × (get_elem? (split_entries 512 0 addr attr 0) i ≡ some entry)
      × (get entry 0 ≡ (addr + i * 4096, attr))
split_entries_small addr attr i p g h = (
  new_entry (addr + (0 + i) * 4096) attr 0,
  split_entries-get_elem? 512 0 i addr attr 0 h,
  rw zero-add (
      get-new_entry 0 (addr + i * 4096) attr (omega arith)
        (record {
          aligned = omega (arith, p.aligned);
          bounded = omega (arith, p.aligned, p.bounded);
        })
        g),
)

-- A page of level 2 that is split does not keep its mapping: every entry of the new table is the
-- first page of it.
pub split_entries_large :
    (addr attr i : ℕ)
    → IsPage 2 addr
    → attr < 256
    → i < 512
    → (entry : ℕ) × (get_elem? (split_entries 512 0 addr attr 1) i ≡ some entry)
      × (get entry 1 ≡ (addr, attr))
unfolding new_entry
split_entries_large addr attr i p g h =
    let base : (addr + i * 4096) % 2 ^ 56 / 2 ^ 21 * 2 ^ 21 ≡ addr % 2 ^ 56 / 2 ^ 21 * 2 ^ 21 =
      omega (arith, p.aligned, p.bounded) in
    let same : new_entry (addr + i * 4096) attr 1 ≡ new_entry addr attr 1 =
      ap (λ (x : ℕ). bit_or (x / 4) attr) base in
    (
      new_entry (addr + (0 + i) * 4096) attr 1,
      split_entries-get_elem? 512 0 i addr attr 1 h,
      rw (zero-add, same)
          (get-new_entry 1 addr attr (omega arith)
            (record { aligned = omega (arith, p.aligned); bounded = p.bounded }) g),
    )

-- The walk of an address: the two tables below the root, of which the last is neither of the others.
pub record IsWalk (m : Memory) (root la mid table : ℕ) : Type 0 where
  pub upper : table_of (entry_at m root (addr_idx 2 la false)) 2 ≡ some mid
  pub lower : table_of (entry_at m mid (addr_idx 1 la false)) 1 ≡ some table
  pub not_root : table ≢ root
  pub not_mid : table ≢ mid
  pub sized : length (m.tables table) ≡ 512

la2pte_lem :
    (m : Memory) (root la mid table : ℕ)
    → IsWalk m root la mid table
    → la2pte m root la ≡ ok (table, addr_idx 0 la false)
unfolding la2pte walk
la2pte_lem m root la mid table w = rw (la2pte, walk, w.upper, walk, w.lower, walk) refl

entry_at-write_ne :
    (m : Memory) (t u i j e : ℕ) → t ≢ u → entry_at (write m t i e) u j ≡ entry_at m u j
unfolding entry_at write
entry_at-write_ne m t u i j e h = let other : (u == t) ≡ false = ground arith in rw other refl

entry_at-write :
    (m : Memory) (t i e : ℕ) → i < length (m.tables t) → entry_at (write m t i e) t i ≡ e
unfolding entry_at write or_unset
entry_at-write m t i e h =
    let here : (t == t) ≡ true = (==_iff t t).1 refl in
    rw (here, get_elem?-set_self (m.tables t) i e h) refl

-- The loop writes one page.
reprotect_one :
    (m : Memory) (root la table i flag : ℕ)
    → la2pte m root la ≡ ok (table, i)
    → reprotect_loop 1 m root la flag 0 ≡ (
      write m table i (new_entry (get (entry_at m table i) 0).0 (bit_or flag valid) 0),
      ok (new_entry (get (entry_at m table i) 0).0 (bit_or flag valid) 0),
    )
unfolding reprotect_loop
reprotect_one m root la table i flag h = rw (reprotect_loop, h) refl

valid_lem : (flag : ℕ) → flag < 256 → contains (bit_or flag valid) valid ≡ true
unfolding contains
valid_lem flag h =
    let attr = bit_or flag valid in
    (==_iff (bit_and attr valid) valid).1 (
      eq_of_bits 8 (bit_and attr valid) valid
        (omega (arith, bit_and-le attr valid, bit_or-lt 8 flag 1 h)) (omega arith)
        (λ k near. ground (arith, bit-and attr valid k, bit-or flag valid k)))

translate_lem :
    (is_kernel : Bool) (entry pa attr : ℕ)
    → get entry 0 ≡ (pa, attr)
    → contains attr valid ≡ true
    → translate is_kernel entry
      ≡ (if contains attr user_access || is_kernel then ok pa else err permission_denied)
unfolding translate
translate_lem is_kernel entry pa attr h v =
    let address : (get entry 0).0 ≡ pa = ap (λ x. x.0) h in
    let flags : (get entry 0).1 ≡ attr = ap (λ x. x.1) h in rw (translate, address, flags, v) refl

-- Where an address below the blank range has its tables, the last of them neither of the others,
-- `reprotect` of its page keeps the physical address and sets the attribute with the bit for a
-- valid entry: `la2pa` gives the address to the kernel, and to a user where the attribute lets it.
pub reprotect-la2pa :
    (m : Memory) (root la mid table flag : ℕ) (is_kernel : Bool)
    → IsWalk m root la mid table
    → la % 4096 ≡ 0
    → la < blank_begin
    → flag < 256
    → let i = addr_idx 0 la false in
      let pa = (get (entry_at m table i) 0).0 in
      let attr = bit_or flag valid in
      (m' : Memory) × (entry : ℕ) × (reprotect m root la 1 flag ≡ (m', ok entry))
      × (get entry 0 ≡ (pa, attr))
      × (la2pa m' root la is_kernel
          ≡ (if contains attr user_access || is_kernel then ok pa else err permission_denied))
unfolding reprotect la2pa translate get
reprotect-la2pa m root la mid table flag is_kernel w aligned low small =
    let i = addr_idx 0 la false in
    let pa = (get (entry_at m table i) 0).0 in
    let attr = bit_or flag valid in
    let entry = new_entry pa attr 0 in
    let m' = write m table i entry in
    let page : IsPage 0 pa = record { aligned = omega arith; bounded = omega arith } in
    let here : (table == table) ≡ true = (==_iff table table).1 refl in
    let attr_small : attr < 256 = bit_or-lt 8 flag 1 small (omega arith) in
    let reads = get-new_entry 0 pa attr (omega arith) page attr_small in
    let w' : IsWalk m' root la mid table = record {
      upper =
          ap (λ (e : ℕ). table_of e 2)
            (entry_at-write_ne m table root i (addr_idx 2 la false) entry w.not_root)
          ∙ w.upper;
      lower =
          ap (λ (e : ℕ). table_of e 1)
            (entry_at-write_ne m table mid i (addr_idx 1 la false) entry w.not_mid)
          ∙ w.lower;
      not_root = w.not_root;
      not_mid = w.not_mid;
      sized = rw here (length-set (m.tables table) i entry) ∙ w.sized;
    } in
    let start : (la % page_size 0 == 0) ≡ true = (==_iff (la % 4096) 0).1 aligned in
    let walked = la2pte_lem m root la mid table w in
    let below : leb blank_begin la ≡ false = lt→leb blank_begin la low in
    let index : i < length (m.tables table) = omega (arith, w.sized, addr_idx_lem la) in
    (
      m',
      entry,
      rw (reprotect, start) (reprotect_one m root la table i flag walked),
      reads,
      rw (la2pa, below, la2pte_lem m' root la mid table w', entry_at-write m table i entry index)
          (translate_lem is_kernel entry pa attr reads (valid_lem flag small)),
    )

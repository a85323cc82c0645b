-- ===== src/Paging/Entries.antt =====
-- An entry holds an address and an attribute, and the index of an address picks its digits.
use Prim.Native.Nat.{bit_or}
use umi.Base.{ℕ, zero, suc, ◌+◌, ◌*◌, ◌/◌, ◌%◌, ◌^◌, ◌≤◌, ◌<◌, ◌≡◌, false, arith}
use umi.Words.Sums.{bit_or-add}
use umi.Paging.{addr_idx, get, new_entry, page_size, round_down, round_up}

-- The address of a page of the level, in 56 bits.
pub record IsPage (level addr : ℕ) : Type 0 where
  pub aligned : addr % page_size level ≡ 0
  pub bounded : addr < 2 ^ 56

word_sum :
    (addr attr : ℕ)
    → addr % 4096 ≡ 0
    → addr < 2 ^ 56
    → attr < 256
    → bit_or (addr / 4) attr ≡ addr / 4 + attr
word_sum addr attr h b g =
    let multiple : addr / 4 ≡ addr / 4096 * 2 ^ 10 = omega arith in
    rw multiple (bit_or-add 64 10 (addr / 4096) attr (omega arith) (omega arith))

-- At each of the three levels, the address of a page and an attribute of eight bits that are put
-- into an entry can be read from it.
pub get-new_entry :
    (level addr attr : ℕ)
    → level < 3
    → IsPage level addr
    → attr < 256
    → get (new_entry addr attr level) level ≡ (addr, attr)
unfolding get new_entry
get-new_entry zero addr attr h p g =
    let same : addr % 2 ^ 56 / 4096 * 4096 ≡ addr = omega (arith, p.aligned, p.bounded) in
    rw (same, word_sum addr attr p.aligned p.bounded g) (ground (arith, p.aligned, p.bounded))
get-new_entry (suc zero) addr attr h p g =
    let same : addr % 2 ^ 56 / 2 ^ 21 * 2 ^ 21 ≡ addr = omega (arith, p.aligned, p.bounded) in
    let low : addr % 4096 ≡ 0 = omega (arith, p.aligned) in
    rw (same, word_sum addr attr low p.bounded g) (ground (arith, p.aligned, p.bounded))
get-new_entry (suc (suc zero)) addr attr h p g =
    let same : addr % 2 ^ 56 / 2 ^ 30 * 2 ^ 30 ≡ addr = omega (arith, p.aligned, p.bounded) in
    let low : addr % 4096 ≡ 0 = omega (arith, p.aligned) in
    rw (same, word_sum addr attr low p.bounded g) (ground (arith, p.aligned, p.bounded))
get-new_entry (suc (suc (suc level))) addr attr h p g = absurd (omega arith)

-- The three indices of an address and its offset in the page are its lowest 39 bits, and each index
-- is below 512.
pub addr_idx_lem :
    (la : ℕ)
    → (addr_idx 2 la false * page_size 2
          + addr_idx 1 la false * page_size 1
          + addr_idx 0 la false * page_size 0
          + la % page_size 0
        ≡ la % 2 ^ 39)
      × (addr_idx 2 la false < 512)
      × (addr_idx 1 la false < 512)
      × (addr_idx 0 la false < 512)
unfolding addr_idx
addr_idx_lem la = (omega arith, omega arith, omega arith, omega arith)

-- At each of the three levels, and without overflow, rounding down and up gives the nearest
-- multiples of the page size.
pub round_lem :
    (addr level : ℕ)
    → level < 3
    → addr + page_size level ≤ 2 ^ 64
    → (round_down addr level ≤ addr)
      × (addr < round_down addr level + page_size level)
      × (addr ≤ round_up addr level)
      × (round_up addr level < addr + page_size level)
      × (round_down addr level % page_size level ≡ 0)
      × (round_up addr level % page_size level ≡ 0)
unfolding round_down round_up
round_lem addr zero h g =
    (omega arith, omega arith, omega arith, omega arith, omega arith, omega arith)
round_lem addr (suc zero) h g =
    (omega arith, omega arith, omega arith, omega arith, omega arith, omega arith)
round_lem addr (suc (suc zero)) h g =
    (omega arith, omega arith, omega arith, omega arith, omega arith, omega arith)
round_lem addr (suc (suc (suc level))) h g = absurd (omega arith)

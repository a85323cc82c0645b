-- ===== src/Fat/Entry.antt =====
-- mizu/lib/afat32/src/table.rs, `FatEntry`: an entry of the table as the low 28 bits of a word.
use Prim.Native.Nat.{bit_or}
use umi.Base.{
  ℕ, ◌+◌, ◌*◌, ◌/◌, ◌%◌, ◌^◌, ◌<◌, ◌≡◌, Bool, true, false, ◌&&◌, ◌==◌, leb, if◌then◌else◌, Run,
  done, panic, arith,
}
use umi.Words.Sums.{bit_or-add}

pub data FatEntry : Type 0 where
  free : FatEntry
  next : ℕ → FatEntry
  bad end : FatEntry

abbrev pub bad_cluster : ℕ
bad_cluster = 268435447

abbrev pub end_of_chain : ℕ
end_of_chain = 268435455

-- The numbers of clusters that mean something else in an entry.
abbrev pub special : ℕ → Bool
special cluster = leb bad_cluster cluster && leb cluster end_of_chain

unfoldable pub from_raw : ℕ → ℕ → FatEntry
from_raw raw cluster =
    let n = raw % 2 ^ 28 in
    if n == 0
    then (if special cluster then bad else free)
    else if n == bad_cluster
    then bad
    else if leb (bad_cluster + 1) n
    then end
    else if special cluster
    then bad
    else next n

unfoldable pub is_free : FatEntry → Bool
is_free free = true
is_free (next n) = false
is_free bad = false
is_free end = false

unfoldable pub raw_of : FatEntry → ℕ
raw_of free = 0
raw_of (next n) = n
raw_of bad = bad_cluster
raw_of end = end_of_chain

-- `into_raw`, which panics rather than mark a special number free.
unfoldable pub into_raw : FatEntry → ℕ → ℕ → Run ℕ
into_raw entry cluster old_raw =
    if is_free entry && special cluster then panic else done (bit_or old_raw (raw_of entry))

-- What an entry can hold: the number of a cluster that is not special.
unfoldable pub IsEntry : FatEntry → Type 0
IsEntry free = Unit
IsEntry (next n) = (0 < n) × (n < bad_cluster)
IsEntry bad = Unit
IsEntry end = Unit

raw_of-lt : (e : FatEntry) → IsEntry e → raw_of e < 2 ^ 28
unfolding raw_of IsEntry
raw_of-lt free v = omega arith
raw_of-lt (next n) v = omega arith
raw_of-lt bad v = omega arith
raw_of-lt end v = omega arith

from_raw_low :
    (e : FatEntry) (cluster raw : ℕ)
    → IsEntry e
    → cluster < bad_cluster
    → raw % 2 ^ 28 ≡ raw_of e
    → from_raw raw cluster ≡ e
unfolding from_raw raw_of IsEntry
from_raw_low free cluster raw v normal low = ground arith
from_raw_low (next n) cluster raw v normal low = ground arith
from_raw_low bad cluster raw v normal low = ground arith
from_raw_low end cluster raw v normal low = ground arith

-- For a cluster whose number is not special, an entry that can be represented is read back from the
-- word that `into_raw` makes of it with the upper bits of an old word, and those four bits are
-- kept.
pub from_raw-into_raw :
    (e : FatEntry) (cluster old raw : ℕ)
    → IsEntry e
    → cluster < bad_cluster
    → old < 2 ^ 32
    → into_raw e cluster (old / 2 ^ 28 * 2 ^ 28) ≡ done raw
    → (from_raw raw cluster ≡ e) × (raw / 2 ^ 28 ≡ old / 2 ^ 28) × (raw < 2 ^ 32)
unfolding into_raw
from_raw-into_raw e cluster old raw v normal word h =
    let small = raw_of-lt e v in
    let joined : bit_or (old / 2 ^ 28 * 2 ^ 28) (raw_of e) ≡ old / 2 ^ 28 * 2 ^ 28 + raw_of e =
      bit_or-add 32 28 (old / 2 ^ 28) (raw_of e) small (omega arith) in
    let same : raw ≡ old / 2 ^ 28 * 2 ^ 28 + raw_of e = ground (arith, joined) in
    let low : raw % 2 ^ 28 ≡ raw_of e = omega arith in
    (from_raw_low e cluster raw v normal low, omega arith, omega arith)

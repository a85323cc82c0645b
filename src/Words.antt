-- ===== src/Words.antt =====
-- The bits of machine words: `|`, `&`, `!`, a single bit, and `trailing_zeros`.
pub mod Laws
pub mod Sums
use Prim.Native.Nat.{bit_and, bit_or}
use umi.Base.{ℕ, zero, suc, ◌+◌, ◌-◌, ◌*◌, ◌/◌, ◌%◌, ◌^◌, Bool, true, false, ◌==◌, if◌then◌else◌}

-- The bit at a position.
unfoldable pub bit : ℕ → ℕ → Bool
bit x zero = x % 2 == 1
bit x (suc k) = bit (x / 2) k

-- `!x` at a width.
abbrev pub complement : ℕ → ℕ → ℕ
complement w x = 2 ^ w - 1 - x

-- The number of zeros below the lowest one, of a word with the given width.
unfoldable pub trailing_zeros : ℕ → ℕ → ℕ
trailing_zeros zero x = 0
trailing_zeros (suc w) x = if x % 2 == 1 then 0 else suc (trailing_zeros w (x / 2))

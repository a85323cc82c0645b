-- ===== src/Sygnal.antt =====
-- mizu/lib/sygnal/src/types.rs: signals and sets of signals. A `Sig` holds an `i32`, here its bit
-- pattern, and a `SigSet` a `u64`.
pub mod Sets
pub mod Action
pub mod Queue
mod Tests
use Prim.Native.Nat.{bit_and, bit_or, bit_xor}
use umi.Base.{
  ℕ, zero, suc, ◌+◌, ◌-◌, ◌*◌, ◌/◌, ◌%◌, ◌^◌, Bool, true, false, ◌==◌, ◌||◌, leb, ltb, Option, none,
  some, if◌then◌else◌, List, [], ◌∷◌,
}
use umi.Words.{complement, trailing_zeros}

pub record Sig : Type 0 where
  pub raw : ℕ

abbrev pub sig : ℕ → Sig
sig n = record { raw = n }

abbrev pub sigkill : Sig
sigkill = sig 9

abbrev pub sigchld : Sig
sigchld = sig 17

abbrev pub sigcont : Sig
sigcont = sig 18

abbrev pub sigstop : Sig
sigstop = sig 19

abbrev pub sigurg : Sig
sigurg = sig 23

abbrev pub sig_legacy_max : ℕ
sig_legacy_max = 32

abbrev pub sig_max : ℕ
sig_max = 64

abbrev pub nr_signals : ℕ
nr_signals = 64

-- `<=` and `- 1` of an `i32`, on bit patterns.
abbrev pub i32_leb : ℕ → ℕ → Bool
i32_leb a b = leb ((a + 2 ^ 31) % 2 ^ 32) ((b + 2 ^ 31) % 2 ^ 32)

abbrev pub i32_pred : ℕ → ℕ
i32_pred a = (a + (2 ^ 32 - 1)) % 2 ^ 32

unfoldable pub from_index : ℕ → Option Sig
from_index index = if ltb index nr_signals then some (sig (index + 1)) else none

unfoldable pub is_legacy : Sig → Bool
is_legacy s = i32_leb s.raw sig_legacy_max

pub new : ℕ → Option Sig
new s = if i32_leb s sig_max then some (sig s) else none

-- `1 << (self.0 - 1)` in a `u64`, where the machine takes the shift modulo 64.
unfoldable pub mask : Sig → ℕ
mask s = 2 ^ (i32_pred s.raw % 64)

-- `(self.0 - 1) as usize`: the sign is extended.
unfoldable pub index : Sig → ℕ
index s = let d = i32_pred s.raw in if ltb d (2 ^ 31) then d else d + (2 ^ 64 - 2 ^ 32)

unfoldable pub should_never_capture : Sig → Bool
should_never_capture s = s.raw == sigkill.raw || s.raw == sigstop.raw

abbrev pub SigSet : Type 0
SigSet = ℕ

unfoldable pub is_empty : SigSet → Bool
is_empty x = x == 0

unfoldable pub clear_never_capture : SigSet → SigSet
unfolding mask
clear_never_capture x = bit_and x (complement 64 (bit_or (mask sigkill) (mask sigstop)))

unfoldable pub contains : SigSet → SigSet → Bool
contains x other = bit_and (complement 64 x) other == 0

contains_sig : SigSet → Option Sig → Bool
contains_sig x none = false
contains_sig x (some s) = contains x (mask s)

unfoldable pub contains_index : SigSet → ℕ → Bool
unfolding contains_sig contains mask from_index
contains_index x other = contains_sig x (from_index other)

pub insert : SigSet → Sig → SigSet × Bool
unfolding contains mask
insert x s = if contains x (mask s) then (x, false) else (bit_or x (mask s), true)

pub remove : SigSet → Sig → SigSet × Bool
unfolding contains mask
remove x s = if contains x (mask s) then (bit_and x (complement 64 (mask s)), true) else (x, false)

-- `Iterator::next` takes the lowest signal out of the set.
pub next : SigSet → Option Sig × SigSet
unfolding trailing_zeros
next x =
    if x == 0
    then (none, x)
    else (let lowest = trailing_zeros 64 x in (some (sig ((lowest + 1) % 2 ^ 32)), x - 2 ^ lowest))

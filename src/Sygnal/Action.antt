-- ===== src/Sygnal/Action.antt =====
-- mizu/lib/sygnal/src/action.rs: the table of signal actions. The lock of an entry is held for one
-- call, so a call is one step.
pub mod Capture
use Prim.Native.Nat.{bit_or}
use umi.Base.{
  ℕ, zero, suc, ◌+◌, List, [], ◌∷◌, Bool, true, false, ◌==◌, ◌||◌, Option, none, some,
  if◌then◌else◌, Run, done, panic, get_elem?, set,
}
use umi.Sygnal.{
  Sig, SigSet, sigchld, sigurg, sigstop, sigcont, nr_signals, from_index, index, mask,
  should_never_capture,
}

pub data ActionType : Type 0 where
  ignore kill suspend resume : ActionType
  user : ℕ → Bool → Bool → ActionType

pub default_type : Sig → ActionType
default_type s =
    if s.raw == sigchld.raw || s.raw == sigurg.raw
    then ActionType.ignore
    else if s.raw == sigstop.raw
    then suspend
    else if s.raw == sigcont.raw
    then resume
    else kill

pub record Action : Type 0 where
  pub ty : ActionType
  pub mask : SigSet

pub default : Sig → Action
default s = record { ty = default_type s; mask = 0 }

pub is_ignore : ActionType → Bool
is_ignore ignore = true
is_ignore _ = false

add_ignored : SigSet → Option Sig → SigSet
unfolding is_ignore default_type mask
add_ignored ss none = ss
add_ignored ss (some s) = if is_ignore (default_type s) then bit_or ss (mask s) else ss

-- The fold over the indices from `i`, of which `n` are left.
fold_ignored : ℕ → ℕ → SigSet → SigSet
unfolding add_ignored from_index
fold_ignored zero i ss = ss
fold_ignored (suc n) i ss = fold_ignored n (i + 1) (add_ignored ss (from_index i))

pub default_sig_mask : SigSet
unfolding fold_ignored
default_sig_mask = fold_ignored nr_signals 0 0

pub record ActionSet : Type 0 where
  pub table : List Action

push_front : Action → Run (List Action) → Run (List Action)
push_front a (done l) = done (a ∷ l)
push_front a panic = panic

build_entry : Option Sig → Run (List Action) → Run (List Action)
unfolding push_front default default_type
build_entry (some s) rest = push_front (default s) rest
build_entry none rest = panic

-- The entries of the indices from `i`, of which `n` are left.
build : ℕ → ℕ → Run (List Action)
unfolding build_entry from_index
build zero i = done []
build (suc n) i = build_entry (from_index i) (build n (i + 1))

built : Run (List Action) → Run ActionSet
built (done l) = done (record { table = l })
built panic = panic

pub new : Run ActionSet
unfolding build built
new = built (build nr_signals 0)

at : Option Action → Run Action
at none = panic
at (some a) = done a

-- An index out of bounds panics.
pub get : ActionSet → Sig → Run Action
unfolding at index
get a s = at (get_elem? a.table (index s))

exchange : ActionSet → Sig → Action → Option Action → Run (ActionSet × Action)
unfolding should_never_capture default default_type
exchange a s action none = panic
exchange a s action (some old) = done (
  record { table = set a.table (index s) (if should_never_capture s then default s else action) },
  old,
)

pub replace : ActionSet → Sig → Action → Run (ActionSet × Action)
unfolding exchange index
replace a s action = exchange a s action (get_elem? a.table (index s))

pub deep_fork : ActionSet → ActionSet
deep_fork a = record { table = a.table }

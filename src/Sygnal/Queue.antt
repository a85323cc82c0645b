-- ===== src/Sygnal/Queue.antt =====
-- mizu/lib/sygnal/src/queue.rs: the pending signals of a task. The model makes each call one step;
-- an event is the number of listeners that it was told to notify.
pub mod Pending
pub mod Push
pub mod Search
pub mod Pop
pub mod Wait
use Prim.Native.Nat.{bit_and, bit_or}
use umi.Base.{
  ℕ, zero, suc, ◌+◌, List, [], ◌∷◌, Bool, true, false, ◌&&◌, not, ◌==◌, Option, none, some,
  if◌then◌else◌, Run, done, panic, get_elem?, set,
}
use umi.Words.{complement}
use umi.Crates.{ArrayQueue}
use umi.Sygnal.{
  Sig, SigSet, nr_signals, from_index, index, mask, is_legacy, is_empty, contains, contains_index,
  clear_never_capture,
}

abbrev pub cap_per_sig : ℕ
cap_per_sig = 8

pub data SigFields : Type 0 where
  nothing : SigFields
  sig_kill : ℕ → ℕ → SigFields
  sig_chld : ℕ → ℕ → ℕ → SigFields
  sig_sys : ℕ → ℕ → SigFields

pub record SigInfo : Type 0 where
  pub sig : Sig
  pub code : ℕ
  pub fields : SigFields

module _ (array_queue : ArrayQueue SigInfo) where
  open array_queue use {
    Queue, new as new_queue, push as push_queue, pop as pop_queue, is_empty as is_empty_queue,
  }

  pub record SigPending : Type 0 where
    pub queue : Queue
    pub event : ℕ

  pub record Signals : Type 0 where
    pub set : SigSet
    pub pending : List SigPending

  pub capacity_of : Option Sig → ℕ
  unfolding is_legacy
  capacity_of none = cap_per_sig
  capacity_of (some s) = if is_legacy s then 1 else cap_per_sig

  -- The entries of the indices from `i`, of which `n` are left.
  build : ℕ → ℕ → List SigPending
  unfolding capacity_of from_index
  build zero i = []
  build (suc n) i =
      record { queue = new_queue (capacity_of (from_index i)); event = 0 } ∷ build n (i + 1)

  pub new : Signals
  unfolding build
  new = record { set = 0; pending = build nr_signals 0 }

  enqueue : SigPending → SigInfo → SigPending
  enqueue p info =
      let (queue, taken) = push_queue p.queue info in
      record { queue = queue; event = if taken then p.event + 1 else p.event }

  push_at : Signals → SigInfo → Option SigPending → Run Signals
  unfolding enqueue
  push_at s info none = panic
  push_at s info (some p) =
      done (record s { pending = umi.Base.set s.pending (index info.sig) (enqueue p info) })

  pub push : Signals → SigInfo → Run Signals
  unfolding push_at is_legacy contains mask index
  push s info =
      let old = s.set in
      let marked = record s { set = bit_or s.set (mask info.sig) } in
      if not (is_legacy info.sig && contains old (mask info.sig))
      then push_at marked info (get_elem? s.pending (index info.sig))
      else done marked

  abbrev pub popped : SigPending → SigPending
  popped p = record p { queue = (pop_queue p.queue).0 }

  -- The loop over the queues from the index `i`: the first that is not masked and yields a signal,
  -- and whether it is empty then.
  pub search : SigSet → ℕ → List SigPending → List SigPending × Option (SigInfo × Bool)
  unfolding contains_index
  search masked i [] = ([], none)
  search masked i (p ∷ ps) =
      let (ps', later) = search masked (suc i) ps in
      if contains_index masked i then (p ∷ ps', later) else elim ((pop_queue p.queue).1) [
        | some info ↦ (popped p ∷ ps, some (info, is_empty_queue (popped p).queue))
        | none ↦ (popped p ∷ ps', later)
      ]

  unmark : SigSet → Option (SigInfo × Bool) → SigSet
  unmark set none = set
  unmark set (some (info, empty)) =
      if empty then bit_and set (complement 64 (mask info.sig)) else set

  taken : Option (SigInfo × Bool) → Option SigInfo
  taken none = none
  taken (some (info, empty)) = some info

  pub pop : Signals → SigSet → Signals × Option SigInfo
  unfolding search unmark taken is_empty clear_never_capture mask
  pop s masked =
      if is_empty s.set
      then (s, none)
      else (let (pending, r) = search (clear_never_capture masked) 0 s.pending in
          (record { set = unmark s.set r; pending = pending }, taken r))

-- ===== src/Sygnal/Tests.antt =====
-- Runs of the signal sets, the action table and the pending signals.
use umi.Base.{ℕ, ◌<◌, ◌≡◌, ◌⊎◌, List, [], ◌∷◌, false, ◌==◌, none, some, if◌then◌else◌, arith, done}
use umi.Crates.Lists.{list_queue}
use umi.Sygnal.{
  Sig, sig, SigSet, sigkill, index, mask, contains, insert, remove, next, clear_never_capture,
  should_never_capture,
}
use umi.Sygnal.Sets.{IsSig}
use umi.Sygnal.Action.{user, Action, ActionSet, get, replace, default}
use umi.Sygnal.Action.Capture.{IsProtected, new_lem, replace_lem}
use umi.Sygnal.Queue.{SigFields, SigInfo, Signals, push, pop}
use umi.Sygnal.Queue.Pending.{IsConsistent, new-IsConsistent, waiting}
use umi.Sygnal.Queue.Push.{admit, push_lem}
use umi.Sygnal.Queue.Wait.{WaitOne, poll_one, poll_one_lem}
use umi.Sygnal.Queue.Pop.{blocked, pop_lem}

abbrev sigusr1 : Sig
sigusr1 = sig 10

sigusr1-IsSig : IsSig sigusr1
sigusr1-IsSig = record { positive = omega arith; bounded = omega arith }

sigkill-IsSig : IsSig sigkill
sigkill-IsSig = record { positive = omega arith; bounded = omega arith }

abbrev two_signals : SigSet
two_signals = 12

-- The table of the defaults.
abbrev fresh_table : ActionSet
fresh_table = new_lem.0

abbrev handler : Action
handler = record { ty = user 4096 false false; mask = 0 }

replace_lem_example :
    (a' : ActionSet) × (old : Action) × (replace fresh_table sigusr1 handler ≡ done (a', old))
    × (get fresh_table sigusr1 ≡ done old)
    × IsProtected a'
    × ((t : Sig)
        → IsSig t
        → get a' t ≡ (
            if index sigusr1 == index t
            then done (if should_never_capture sigusr1 then default sigusr1 else handler)
            else get fresh_table t))
replace_lem_example = replace_lem fresh_table sigusr1 handler new_lem.2 sigusr1-IsSig

abbrev info : SigInfo
info = record { sig = sigusr1; code = 0; fields = SigFields.nothing }

abbrev no_signals : Signals list_queue
no_signals = umi.Sygnal.Queue.new list_queue

no_signals-IsConsistent : IsConsistent list_queue no_signals
no_signals-IsConsistent = new-IsConsistent list_queue

push_lem_example :
    (s' : Signals list_queue) × (push list_queue no_signals info ≡ done s')
    × IsConsistent list_queue s'
    × ((k : ℕ)
        → waiting list_queue s' k ≡ (
            if index info.sig == k
            then admit list_queue k info (waiting list_queue no_signals k)
            else waiting list_queue no_signals k))
push_lem_example = push_lem list_queue no_signals info no_signals-IsConsistent sigusr1-IsSig

-- The table in which one signal waits.
abbrev one_signal : Signals list_queue
one_signal = (push_lem list_queue no_signals info no_signals-IsConsistent sigusr1-IsSig).0

one_signal-IsConsistent : IsConsistent list_queue one_signal
one_signal-IsConsistent =
    (push_lem list_queue no_signals info no_signals-IsConsistent sigusr1-IsSig).2

pop_lem_example :
    ((pop list_queue one_signal 5 ≡ (one_signal, none))
      × ((i : ℕ) → i < 64 → blocked list_queue 5 i ≡ false → waiting list_queue one_signal i ≡ []))
    ⊎ ((s' : Signals list_queue) × (info : SigInfo) × (rest : List SigInfo) × (pop list_queue
            one_signal 5
          ≡ (s', some info))
        × IsConsistent list_queue s'
        × IsSig info.sig
        × (blocked list_queue 5 (index info.sig) ≡ false)
        × (waiting list_queue one_signal (index info.sig) ≡ info ∷ rest)
        × ((j : ℕ)
            → j < index info.sig
            → blocked list_queue 5 j ≡ false
            → waiting list_queue one_signal j ≡ [])
        × ((k : ℕ)
            → waiting list_queue s' k
              ≡ (if index info.sig == k then rest else waiting list_queue one_signal k)))
pop_lem_example = pop_lem list_queue one_signal 5 one_signal-IsConsistent (omega arith)

-- A future that waits for a signal of an empty queue, and has not been polled.
abbrev unpolled : WaitOne list_queue
unpolled = record {
  set = 0;
  pending = record { queue = list_queue.new 8; event = 0 };
  listener = none;
}

poll_one_lem_example :
    ((list_queue.contents unpolled.pending.queue ≡ [])
      × (poll_one list_queue 3 unpolled ≡ some (record unpolled { listener = some false }, none)))
    ⊎ ((info : SigInfo) × (rest : List SigInfo) × (w' : WaitOne list_queue) × (list_queue.contents
            unpolled.pending.queue
          ≡ info ∷ rest)
        × (poll_one list_queue 3 unpolled ≡ some (w', some info))
        × (list_queue.contents w'.pending.queue ≡ rest)
        × (w'.listener ≡ unpolled.listener))
poll_one_lem_example = poll_one_lem list_queue unpolled

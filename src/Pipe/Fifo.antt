-- ===== src/Pipe/Fifo.antt =====
-- Reads and writes in any order: the pipe hands on what was sent.
use umi.Base.{
  ℕ, ◌≡◌, inl, inr, sym, ap, subst, ◌∙◌, List, [], ◌++◌, Option, none, some, take, drop, flatten,
  arith, append_assoc, take_within, take-take, length-take, take-append-drop, done,
}
use umi.Crates.{SegQueue}
use umi.Pipe.{End, Pipe, pipe, try_read, try_write}
use umi.Pipe.Stream.{IsStream, stream, pipe_lem, Receives, try_read_lem}
use umi.Pipe.Sending.{IsFrame, try_write_lem}

module _ (seg_queue : SegQueue End) where
  open seg_queue use {Queue, contents}

  -- A schedule of reads and writes, with all bytes that were sent and all that were received.
  pub data Runs : Pipe seg_queue → List ℕ → List ℕ → Type 0 where
    start : Runs (pipe seg_queue) [] []
    reads :
        {p p' : Pipe seg_queue} {sent received : List ℕ} (buf out : List (List ℕ)) (n : ℕ)
        → Runs p sent received
        → try_read seg_queue p buf ≡ done (p', some (out, n))
        → Runs p' sent (received ++ take n (flatten out))
    read_waits :
        {p p' : Pipe seg_queue} {sent received : List ℕ} (buf : List (List ℕ))
        → Runs p sent received
        → try_read seg_queue p buf ≡ done (p', none)
        → Runs p' sent received
    writes :
        {p p' : Pipe seg_queue} {sent received : List ℕ} (frame : Option (List ℕ))
        (buf : List (List ℕ)) (n : ℕ)
        → IsFrame seg_queue frame
        → Runs p sent received
        → try_write seg_queue p frame buf ≡ done (p', some n)
        → Runs p' (sent ++ take n (flatten buf)) received
    write_waits :
        {p p' : Pipe seg_queue} {sent received : List ℕ} (frame : Option (List ℕ))
        (buf : List (List ℕ))
        → IsFrame seg_queue frame
        → Runs p sent received
        → try_write seg_queue p frame buf ≡ done (p', none)
        → Runs p' sent received

  abbrev pub IsFifo : Pipe seg_queue → List ℕ → List ℕ → Type 0
  IsFifo p sent received = IsStream seg_queue p × (sent ≡ received ++ stream seg_queue p)

  received_more :
      {q : Pipe seg_queue} {buf out : List (List ℕ)} (before received : List ℕ) (n : ℕ)
      → Receives seg_queue before q buf out n
      → received ++ before ≡ (received ++ take n (flatten out)) ++ stream seg_queue q
  received_more {q} {buf} {out} before received n v =
      let kept_part : take n (flatten out) ≡ take n before =
        ap (take n) v.filled
        ∙ take_within n (take n before) (drop n (flatten buf))
            (omega (arith, length-take n before, v.within))
        ∙ take-take n n before (omega arith) in
      ap (λ l. received ++ l)
        (sym (
          ap (λ l. l ++ stream seg_queue q) kept_part
          ∙ ap (λ l. take n before ++ l) v.rest
          ∙ take-append-drop n before))
      ∙ sym (append_assoc received (take n (flatten out)) (stream seg_queue q))

  -- In every schedule of reads and writes from a new pipe, what was sent is what was received
  -- followed by what the pipe holds.
  pub Runs-IsFifo :
      {p : Pipe seg_queue} {sent received : List ℕ} → Runs p sent received → IsFifo p sent received
  Runs-IsFifo start = ((pipe_lem seg_queue).0, sym (pipe_lem seg_queue).1)
  Runs-IsFifo (reads {p} {p'} {sent} {received} buf out n r h) =
      let (s, e) = Runs-IsFifo r in
      elim (try_read_lem seg_queue p buf s) [
        | inl (a, q, run, t, b) ↦ absurd (cc)
        | inr (q, got, k, run, v) ↦
            let same_pipe : q ≡ p' = cc in
            let same_out : got ≡ out = cc in
            let same_count : k ≡ n = cc in
            rw (← same_pipe, ← same_out, ← same_count)
              (v.stays, e ∙ received_more (stream seg_queue p) received k v)
      ]
  Runs-IsFifo (read_waits {p} {p'} {sent} {received} buf r h) =
      let (s, e) = Runs-IsFifo r in
      elim (try_read_lem seg_queue p buf s) [
        | inl (a, q, run, t, b) ↦
            let same_pipe : q ≡ p' = cc in
            subst (λ p. IsFifo p sent received) same_pipe
              (t, e ∙ ap (λ l. received ++ l) (a ∙ sym b))
        | inr (q, got, k, run, v) ↦ absurd (cc)
      ]
  Runs-IsFifo (writes {p} {p'} {sent} {received} frame buf n f r h) =
      let (s, e) = Runs-IsFifo r in
      elim (try_write_lem seg_queue p frame buf s f) [
        | inl (run, a, b) ↦ absurd (cc)
        | inr (q, k, run, v) ↦
            let same_pipe : q ≡ p' = cc in
            let same_count : k ≡ n = cc in
            rw (← same_pipe, ← same_count)
              (
                v.stays,
                ap (λ l. l ++ take k (flatten buf)) e
                    ∙ append_assoc received (stream seg_queue p) (take k (flatten buf))
                    ∙ ap (λ l. received ++ l) (sym v.grows),
              )
      ]
  Runs-IsFifo (write_waits {p} {p'} {sent} {received} frame buf f r h) =
      let (s, e) = Runs-IsFifo r in
      elim (try_write_lem seg_queue p frame buf s f) [
        | inl (run, a, b) ↦
            let same_pipe : p ≡ p' = cc in subst (λ p. IsFifo p sent received) same_pipe (s, e)
        | inr (q, k, run, v) ↦ absurd (cc)
      ]

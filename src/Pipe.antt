-- ===== src/Pipe.antt =====
-- mizu/kernel/src/fs/pipe.rs: a pipe keeps its bytes in pages: one that the reader holds, a queue
-- of full pages, and one that the writer fills. A critical section is one step; the wait on an
-- event between two attempts is left to the schedule. A frame is the list of its bytes.
pub mod Pages
pub mod Frames
pub mod Stream
pub mod Sending
pub mod Fifo
mod Tests
use umi.Base.{
  ℕ, zero, suc, ◌+◌, ◌-◌, List, [], ◌∷◌, ◌++◌, Bool, true, false, not, ◌==◌, ltb, Option, none,
  some, if◌then◌else◌, Run, done, panic, take, drop, length, min,
}
use umi.Crates.{SegQueue}

abbrev pub page_size : ℕ
page_size = 4096

pub record End : Type 0 where
  pub frame : List ℕ
  pub start : ℕ
  pub end : ℕ

unfoldable pub is_buffer_full : End → Bool
is_buffer_full e = e.end == page_size

unfoldable pub should_discard : End → Bool
should_discard e = e.start == page_size

unfoldable pub is_empty : End → Bool
is_empty e = e.start == e.end

-- `End::read`, with the bytes that were read so far: the page after the call, the slices as they
-- were filled, and the length.
pub read_from : End → List (List ℕ) → ℕ → End × List (List ℕ) × ℕ
read_from e [] read_len = (e, [], read_len)
read_from e (first ∷ next) read_len =
    let len = min (length first) (e.end - e.start) in
    let filled = take len (drop e.start e.frame) ++ drop len first in
    let e' = record e { start = e.start + len } in
    let (e'', rest, n) = read_from e' next (read_len + len) in
    if ltb len (length first) then (e', filled ∷ next, read_len + len) else (e'', filled ∷ rest, n)

pub read_end : End → List (List ℕ) → End × List (List ℕ) × ℕ
unfolding read_from
read_end e buf = read_from e buf 0

-- `End::write`.
pub write_from : End → List (List ℕ) → ℕ → End × ℕ
write_from e [] written_len = (e, written_len)
write_from e (first ∷ next) written_len =
    let len = min (length first) (page_size - e.end) in
    let frame = take e.end e.frame ++ (take len first ++ drop (e.end + len) e.frame) in
    let e' = record e { frame = frame; end = e.end + len } in
    let rest = write_from e' next (written_len + len) in
    if ltb len (length first) then (e', written_len + len) else rest

pub write_end : End → List (List ℕ) → End × ℕ
unfolding write_from
write_end e buf = write_from e buf 0

module _ (seg_queue : SegQueue End) where
  open seg_queue use {
    Queue, new as new_queue, push as push_queue, pop as pop_queue, len as len_queue,
  }

  pub record Pipe : Type 0 where
    pub buffer : Queue
    pub reader : Option End
    pub writer : Option End
    pub max_buffers : ℕ

  -- `pipe()`.
  pub pipe : Pipe
  pipe = record { buffer = new_queue; reader = none; writer = none; max_buffers = 16 }

  -- A full page goes to the slices; the reader keeps what is left of it.
  read_page : Pipe → End → List (List ℕ) → Run (Pipe × Option (List (List ℕ) × ℕ))
  unfolding is_buffer_full should_discard read_end
  read_page p e buf =
      let (e', filled, len) = read_end e buf in
      if is_buffer_full e
      then (done
          (record p { reader = if should_discard e' then none else some e' }, some (filled, len)))
      else panic

  -- The third attempt: the page that the writer fills.
  read_writer : Pipe → Option End → List (List ℕ) → Run (Pipe × Option (List (List ℕ) × ℕ))
  unfolding is_empty should_discard read_end
  read_writer p none buf = done (record p { writer = none }, none)
  read_writer p (some e) buf =
      let (e', filled, len) = read_end e buf in
      if is_empty e
      then done (record p { writer = none }, none)
      else (done
          (record p { writer = if should_discard e' then none else some e' }, some (filled, len)))

  -- The second attempt pops again, with the lock of the writer.
  read_second : Pipe → Queue × Option End → List (List ℕ) → Run (Pipe × Option (List (List ℕ) × ℕ))
  unfolding read_page read_writer
  read_second p (buffer, some e) buf = read_page (record p { buffer = buffer }) e buf
  read_second p (buffer, none) buf = read_writer (record p { buffer = buffer }) p.writer buf

  read_first : Pipe → Queue × Option End → List (List ℕ) → Run (Pipe × Option (List (List ℕ) × ℕ))
  unfolding read_page read_second
  read_first p (buffer, some e) buf = read_page (record p { buffer = buffer }) e buf
  read_first p (buffer, none) buf =
      read_second (record p { buffer = buffer }) (pop_queue buffer) buf

  -- A trial of `Receiver::read`; `none` means that it has to wait.
  pub try_read : Pipe → List (List ℕ) → Run (Pipe × Option (List (List ℕ) × ℕ))
  unfolding read_page read_first
  try_read p buf = elim p.reader [
    | some e ↦ read_page (record p { reader = none }) e buf
    | none ↦ read_first p (pop_queue p.buffer) buf
  ]

  write_page : Pipe → End → List (List ℕ) → Run (Pipe × Option ℕ)
  unfolding is_buffer_full is_empty write_end
  write_page p e buf =
      let (e', len) = write_end e buf in
      if is_buffer_full e'
      then (if is_empty e'
          then panic
          else (done (record p { buffer = push_queue p.buffer e'; writer = none }, some len)))
      else done (record p { writer = some e' }, some len)

  -- A page for the writer, if the queue has room and there is a frame.
  alloc_new : Pipe → Option (List ℕ) → Option End
  alloc_new p none = none
  alloc_new p (some frame) =
      if ltb (len_queue p.buffer) p.max_buffers
      then some (record { frame = frame; start = 0; end = 0 })
      else none

  write_taken : Pipe → Option End → List (List ℕ) → Run (Pipe × Option ℕ)
  unfolding write_page
  write_taken p none buf = done (p, none)
  write_taken p (some e) buf = write_page p e buf

  -- A trial of `Sender::write`, with what `Frame::new` would return.
  pub try_write : Pipe → Option (List ℕ) → List (List ℕ) → Run (Pipe × Option ℕ)
  unfolding alloc_new write_taken
  try_write p frame buf = elim p.writer [
    | some e ↦ write_taken p (some e) buf
    | none ↦ write_taken p (alloc_new p frame) buf
  ]

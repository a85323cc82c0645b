-- ===== src/Pipe/Tests.antt =====
-- Runs of a pipe: a page that is written and read, and a schedule.
use umi.Base.{
  ℕ, ◌≡◌, ◌⊎◌, refl, List, [], ◌∷◌, none, some, take, length, flatten, arith, done, replicate,
  length-replicate,
}
use umi.Crates.Lists.{seg_list}
use umi.Pipe.{is_buffer_full, End, write_end, Pipe, pipe, try_read, try_write}
use umi.Pipe.Pages.{IsPage}
use umi.Pipe.Stream.{IsStream, stream, pipe_lem, Yields, try_read_lem}
use umi.Pipe.Sending.{Sends, try_write_lem}
use umi.Pipe.Fifo.{Runs, IsFifo, Runs-IsFifo}

empty_frame : List ℕ
empty_frame = replicate 4096 0

empty_frame_lem : length empty_frame ≡ 4096
unfolding empty_frame
empty_frame_lem = length-replicate {A = ℕ} 4096 0

abbrev fresh_page : End
fresh_page = record { frame = empty_frame; start = 0; end = 0 }

fresh_page-IsPage : IsPage fresh_page
fresh_page-IsPage = record { sized = empty_frame_lem; ordered = omega arith; bounded = omega arith }

abbrev slices : List (List ℕ)
slices = (1 ∷ 2 ∷ []) ∷ (3 ∷ []) ∷ []

abbrev no_bytes : Pipe seg_list
no_bytes = pipe seg_list

no_bytes-IsStream : IsStream seg_list no_bytes
no_bytes-IsStream = (pipe_lem seg_list).0

try_read_lem_example :
    ((stream seg_list no_bytes ≡ [])
      × (p' : Pipe seg_list) × (try_read seg_list no_bytes slices ≡ done (p', none))
      × IsStream seg_list p'
      × (stream seg_list p' ≡ []))
    ⊎ Yields seg_list (stream seg_list no_bytes) slices (try_read seg_list no_bytes slices)
try_read_lem_example = try_read_lem seg_list no_bytes slices no_bytes-IsStream

try_write_lem_example :
    ((try_write seg_list no_bytes (some empty_frame) slices ≡ done (no_bytes, none))
      × (no_bytes.writer ≡ none)
      × ((some empty_frame ≡ none)
          ⊎ (length (seg_list.contents no_bytes.buffer) ≡ no_bytes.max_buffers)))
    ⊎ ((p' : Pipe seg_list) × (n : ℕ) × (try_write seg_list no_bytes (some empty_frame) slices
          ≡ done (p', some n))
        × Sends seg_list (stream seg_list no_bytes) p' slices n)
try_write_lem_example =
    try_write_lem seg_list no_bytes (some empty_frame) slices no_bytes-IsStream empty_frame_lem

-- The pipe after three bytes were written to it.
abbrev three_bytes : Pipe seg_list
three_bytes = record no_bytes { writer = some ((write_end fresh_page slices).0) }

write_run : try_write seg_list no_bytes (some empty_frame) slices ≡ done (three_bytes, some 3)
unfolding try_write write_end is_buffer_full pipe seg_list
write_run = refl

Runs-IsFifo_example : IsFifo seg_list three_bytes (take 3 (flatten slices)) []
Runs-IsFifo_example =
    Runs-IsFifo seg_list
      (Runs.writes (some empty_frame) slices 3 empty_frame_lem Runs.start write_run)

-- ===== src/Files/Tests.antt =====
-- Runs of the table of descriptors, with numbers for the entries of the file system.
use umi.Base.{
  ℕ, ◌-◌, ◌^◌, ◌≤◌, ◌<◌, ◌≡◌, ◌⊎◌, refl, [], true, false, ◌==◌, none, some, if◌then◌else◌, Result,
  ok, err, arith,
}
use umi.Crates.{HashMap}
use umi.Crates.Lists.{list_map}
use umi.Files.{Error, ebadf, emfile, FdInfo, Fds, new, open_fd, get_fi, close, dup3, self_r, self_w}
use umi.Files.Table.{IsTable, stdio, new-IsTable, open_fd_lem}
use umi.Files.Steps.{close-open_fd, dup3-open_fd}

abbrev table_map : HashMap (FdInfo ℕ ℕ)
table_map = list_map

abbrev standard : Fds table_map
standard = new table_map 10 11 12

abbrev file : FdInfo ℕ ℕ
file = stdio table_map self_r 20

standard-IsTable : IsTable table_map standard
standard-IsTable = (new-IsTable table_map 10 11 12).0

new-IsTable_example :
    IsTable table_map standard
    × ((k : ℕ)
        → table_map.get k standard.map ≡ (
            if k == 0
            then some (stdio table_map self_w 10)
            else if k == 1
            then some (stdio table_map self_w 11)
            else if k == 2
            then some (stdio table_map self_r 12)
            else none))
new-IsTable_example = new-IsTable table_map 10 11 12

standard_ids : standard.id_alloc ≡ record { reuse = []; next = 3 }
unfolding new
standard_ids = refl

standard_room : standard.id_alloc.next < 2 ^ 31 - 1
standard_room = rw standard_ids (omega arith)

open_fd_lem_example :
    ((standard.limit ≤ table_map.len standard.map)
      × (open_fd table_map standard file ≡ (standard, err emfile)))
    ⊎ ((table_map.len standard.map < standard.limit)
        × (fd : ℕ) × (f' : Fds table_map) × (open_fd table_map standard file ≡ (f', ok fd))
        × (table_map.get fd standard.map ≡ none)
        × ((j : ℕ)
            → table_map.get j f'.map
              ≡ (if fd == j then some file else table_map.get j standard.map))
        × IsTable table_map f'
        × (f'.limit ≡ standard.limit))
open_fd_lem_example = open_fd_lem table_map standard file standard-IsTable standard_room

abbrev one_closed : Fds table_map
one_closed = (close table_map standard 1).0

close_run : close table_map standard 1 ≡ (one_closed, ok tt)
unfolding close new list_map
close_run = refl

one_closed_room : table_map.len one_closed.map < one_closed.limit
unfolding close new list_map
one_closed_room = omega arith

close-open_fd_example : (open_fd table_map one_closed file).1 ≡ ok 1
close-open_fd_example =
    close-open_fd table_map standard one_closed 1 file standard-IsTable close_run one_closed_room

abbrev shut : FdInfo ℕ ℕ → FdInfo ℕ ℕ
shut fi = record fi { close_on_exec = true }

abbrev no_dir : Result Error ℕ
no_dir = err ebadf

stdin_run : get_fi table_map no_dir standard 0 ≡ ok (stdio table_map self_w 10)
unfolding get_fi new list_map
stdin_run = refl

standard_reuse : standard.id_alloc.reuse ≡ []
unfolding new
standard_reuse = refl

dup3-open_fd_example :
    (f' : Fds table_map) × (dup3 table_map no_dir standard 0 standard.id_alloc.next 0
      ≡ (f', ok standard.id_alloc.next))
    × (table_map.get standard.id_alloc.next f'.map
        ≡ some
            (record (stdio table_map self_w 10) { close_on_exec = if 0 == 0 then false else true }))
    × (table_map.len f'.map < f'.limit → (open_fd table_map f' file).1 ≡ ok standard.id_alloc.next)
dup3-open_fd_example =
    dup3-open_fd table_map no_dir standard 0 0 (stdio table_map self_w 10) file standard_reuse
      stdin_run

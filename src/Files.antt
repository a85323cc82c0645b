-- ===== src/Files.antt =====
-- mizu/kernel/src/task/fd.rs: the table of file descriptors of a task. An `i32` is its bit pattern;
-- an entry of the file system, and a path, are of types that are parameters. The lock of the table
-- is held for a whole operation, so an operation is one step.
pub mod Table
pub mod Steps
pub mod Syscalls
mod Tests
use umi.Base.{
  ℕ, zero, suc, ◌+◌, ◌-◌, ◌%◌, ◌^◌, List, [], ◌∷◌, Bool, true, false, ◌==◌, ltb, leb, min, Option,
  none, some, if◌then◌else◌, Result, ok, err,
}
use umi.Crates.{HashMap}

pub data Error : Type 0 where
  ebadf emfile einval : Error

abbrev pub max_fds : ℕ
max_fds = 65536

abbrev pub cwd_fd : ℕ
cwd_fd = 2 ^ 32 - 100

abbrev pub limit_default : ℕ
limit_default = 256

-- `Permissions::SELF_R` and `Permissions::SELF_W`.
pub data Permissions : Type 0 where
  self_r self_w : Permissions

pub data SavedNextDirent (D : Type 0) : Type 0 where
  start : SavedNextDirent D
  next : D → SavedNextDirent D
  end : SavedNextDirent D

-- The value that is taken, and what is left.
pub take_dirent : {D : Type 0} → SavedNextDirent D → SavedNextDirent D × SavedNextDirent D
take_dirent s = (s, end)

pub record FdInfo (E D : Type 0) : Type 0 where
  pub entry : E
  pub close_on_exec : Bool
  pub nonblock : Bool
  pub perm : Permissions
  pub saved_next_dirent : SavedNextDirent D

-- `reuse` has its top first.
pub record IdAlloc : Type 0 where
  pub reuse : List ℕ
  pub next : ℕ

unfoldable pub alloc : IdAlloc → ℕ × IdAlloc
alloc a = elim a.reuse [
  | [] ↦ (a.next, record a { next = (a.next + 1) % 2 ^ 32 })
  | id ∷ reuse ↦ (id, record a { reuse = reuse })
]

unfoldable pub dealloc : ℕ → IdAlloc → IdAlloc
dealloc id a = record a { reuse = id ∷ a.reuse }

module _ {E D : Type 0} (hash_map : HashMap (FdInfo E D)) where
  open hash_map use {Map, empty, get as look, insert, insert_unique_unchecked, remove, update, len}

  pub record Fds : Type 0 where
    pub map : Map
    pub id_alloc : IdAlloc
    pub limit : ℕ

  fd_info : ℕ → E → FdInfo E D
  fd_info i entry = record {
    entry = entry;
    close_on_exec = false;
    nonblock = false;
    perm = if ltb i 2 then self_w else self_r;
    saved_next_dirent = start;
  }

  pub new : E → E → E → Fds
  unfolding fd_info
  new stdin stdout stderr = record {
    map =
        insert 2 (fd_info 2 stderr)
          (insert 1 (fd_info 1 stdout) (insert 0 (fd_info 0 stdin) empty));
    id_alloc = record { reuse = []; next = 3 };
    limit = limit_default;
  }

  pub set_limit : Fds → ℕ → Fds × ℕ
  set_limit f max = (record f { limit = min max max_fds }, f.limit)

  pub reopen : Fds → ℕ → FdInfo E D → Fds
  reopen f fd fi = record f { map = insert fd fi f.map }

  pub open_fd : Fds → FdInfo E D → Fds × Result Error ℕ
  unfolding alloc
  open_fd f fi =
      let (fd, ids) = alloc f.id_alloc in
      if leb f.limit (len f.map)
      then (f, err emfile)
      else (record f { map = insert_unique_unchecked fd fi f.map; id_alloc = ids }, ok fd)

  or_ebadf : {A : Type 0} → Option A → Result Error A
  or_ebadf none = err ebadf
  or_ebadf (some a) = ok a

  cwd_info : Result Error E → Result Error (FdInfo E D)
  cwd_info (err e) = err e
  cwd_info (ok entry) = ok (record {
    entry = entry;
    close_on_exec = false;
    nonblock = false;
    perm = self_r;
    saved_next_dirent = start;
  })

  -- `dir` is what `fs::open_dir` returns for the current directory.
  pub get_fi : Result Error E → Fds → ℕ → Result Error (FdInfo E D)
  unfolding or_ebadf cwd_info
  get_fi dir f fd = if fd == cwd_fd then cwd_info dir else or_ebadf (look fd f.map)

  pub set_fi : Fds → ℕ → (FdInfo E D → FdInfo E D) → Fds × Result Error (Unit {0})
  set_fi f fd change = if fd == cwd_fd then (f, ok tt) else elim (look fd f.map) [
    | none ↦ (f, err ebadf)
    | some fi ↦ (record f { map = update fd change f.map }, ok tt)
  ]

  pub unwrap_or : Option Bool → Bool → Bool
  unwrap_or none b = b
  unwrap_or (some a) b = a

  pub dup : Result Error E → Fds → ℕ → Option Bool → Fds × Result Error ℕ
  unfolding get_fi open_fd unwrap_or
  dup dir f fd close_on_exec = elim (get_fi dir f fd) [
    | err e ↦ (f, err e)
    | ok fi ↦ open_fd f (record fi { close_on_exec = unwrap_or close_on_exec fi.close_on_exec })
  ]

  -- The entry that is closed is the caller's to flush.
  pub close : Fds → ℕ → Fds × Result Error (Unit {0})
  unfolding dealloc
  close f fd = elim (look fd f.map) [
    | none ↦ (f, err ebadf)
    | some fi ↦ (record f { map = remove fd f.map; id_alloc = dealloc fd f.id_alloc }, ok tt)
  ]

  -- `dup3` of fd/syscall.rs.
  pub dup3 : Result Error E → Fds → ℕ → ℕ → ℕ → Fds × Result Error ℕ
  unfolding get_fi reopen
  dup3 dir f old fresh flags = elim (get_fi dir f old) [
    | err e ↦ (f, err e)
    | ok fi ↦ (
      reopen f fresh (record fi { close_on_exec = if flags == 0 then false else true }),
      ok fresh,
    )
  ]

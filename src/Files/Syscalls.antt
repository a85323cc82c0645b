-- ===== src/Files/Syscalls.antt =====
-- mizu/kernel/src/task/fd/syscall.rs: `fcntl` and `pipe` on the table of descriptors. The two ends of
-- a new pipe, and what the write of the numbers to the user returns, are arguments.
use umi.Base.{
  ℕ, ◌*◌, ◌^◌, ◌≡◌, ◌≢◌, refl, ◌∙◌, Bool, true, false, ◌==◌, ==_iff, not, none, some, if◌then◌else◌,
  Result, ok, err, arith,
}
use umi.Crates.{HashMap}
use umi.Files.{
  Error, einval, FdInfo, Fds, Permissions, self_r, self_w, start, open_fd, get_fi, or_ebadf, set_fi,
  dup, cwd_fd,
}

-- `OpenOptions::NONBLOCK` is this power of two.
abbrev pub nonblock_shift : ℕ
nonblock_shift = 11

abbrev pub bit_of : Bool → ℕ
bit_of true = 1
bit_of false = 0

module _ {E D : Type 0} (hash_map : HashMap (FdInfo E D)) where
  answer : (FdInfo E D → ℕ) → Result Error (FdInfo E D) → Result Error ℕ
  answer read (err e) = err e
  answer read (ok fi) = ok (read fi)

  done_zero : Fds hash_map × Result Error (Unit {0}) → Fds hash_map × Result Error ℕ
  done_zero (f, err e) = (f, err e)
  done_zero (f, ok u) = (f, ok 0)

  pub fcntl : Result Error E → Fds hash_map → ℕ → ℕ → ℕ → Fds hash_map × Result Error ℕ
  unfolding answer done_zero dup get_fi set_fi
  fcntl dir f fd cmd arg =
      if cmd == 0
      then dup hash_map dir f fd none
      else if cmd == 1030
      then dup hash_map dir f fd (some (not (arg == 0)))
      else if cmd == 1
      then (f, answer (λ fi. bit_of fi.close_on_exec) (get_fi hash_map dir f fd))
      else if cmd == 2
      then done_zero (set_fi hash_map f fd (λ fi. record fi { close_on_exec = not (arg == 0) }))
      else if cmd == 3
      then (f, answer (λ fi. bit_of fi.nonblock * 2 ^ nonblock_shift) (get_fi hash_map dir f fd))
      else if cmd == 4
      then done_zero (set_fi hash_map f fd (λ fi. record fi { nonblock = not (arg == 0) }))
      else (f, err einval)

  pipe_end : Permissions → E → FdInfo E D
  pipe_end perm entry = record {
    entry = entry;
    close_on_exec = false;
    nonblock = false;
    perm = perm;
    saved_next_dirent = start;
  }

  -- After the first end was opened, the second is.
  pipe_second :
      Fds hash_map × Result Error ℕ
      → E
      → (ℕ → ℕ → Result Error (Unit {0}))
      → Fds hash_map × Result Error (Unit {0})
  unfolding pipe_end open_fd
  pipe_second (f, err e) rx written = (f, err e)
  pipe_second (f, ok tx_fd) rx written =
      let (f', r) = open_fd hash_map f (pipe_end self_r rx) in
      elim r [ err e ↦ (f', err e) | ok rx_fd ↦ (f', written rx_fd tx_fd) ]

  pub pipe_inner :
      Fds hash_map
      → E
      → E
      → (ℕ → ℕ → Result Error (Unit {0}))
      → Fds hash_map × Result Error (Unit {0})
  unfolding pipe_second pipe_end open_fd
  pipe_inner f tx rx written = pipe_second (open_fd hash_map f (pipe_end self_w tx)) rx written

  -- The flag that `fcntl` sets on an open descriptor is the flag that it reads then.
  pub fcntl_flag :
      (dir : Result Error E) (f : Fds hash_map) (fd arg : ℕ) (fi : FdInfo E D)
      → fd ≢ cwd_fd
      → hash_map.get fd f.map ≡ some fi
      → (f' : Fds hash_map) × (fcntl dir f fd 2 arg ≡ (f', ok 0))
        × (fcntl dir f' fd 1 0 ≡ (f', ok (bit_of (not (arg == 0)))))
  unfolding fcntl answer done_zero get_fi set_fi or_ebadf
  fcntl_flag dir f fd arg fi h here =
      let change : FdInfo E D → FdInfo E D = λ fi. record fi { close_on_exec = not (arg == 0) } in
      let f' : Fds hash_map = record f { map = hash_map.update fd change f.map } in
      let other : (fd == cwd_fd) ≡ false = ground arith in
      let self : (fd == fd) ≡ true = (==_iff fd fd).1 refl in
      let changed : hash_map.get fd f'.map ≡ some (change fi) =
        hash_map.get-update fd fd change f.map ∙ rw (self, here) refl in
      (f', rw (set_fi, other, here) refl, rw (get_fi, other, changed) refl)

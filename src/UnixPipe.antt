-- ===== src/UnixPipe.antt =====
-- src/unix_pipe.rs: pipes and the loops around the system calls that move data through them.
--
-- A pipe that the program writes to is the list of the bytes written so far, with its reader: the
-- process at the other end, which the model takes as it is. A write that blocks for ever has the outcome
-- `write_blocks`, which ends the run of the model as an error does. A pipe that the program reads from is
-- the list of the bytes that it still holds. A write that fails leaves no pipe behind, since every
-- error ends the program.
pub mod Splice
pub mod Capacity
use cedana_image_streamer.Prelude.{
  ℕ, zero, suc, ◌+◌, ◌-◌, ◌/◌, ◌<◌, min, ◌==◌, ltb, if◌then◌else◌, Bool, Bytes, Option, none, some,
  List, [], ◌∷◌, ◌++◌, length, take, drop, Result, ok, err, panic, out_of_fuel, ◌>>=◌, ◌>>◌, assert,
  ◌≡◌, ◌≤◌, ensure, write_failed, write_blocks, splice_failed, ioctl_failed, vmsplice_returned_zero,
  capacity_too_small, set_capacity_failed,
}

-- What becomes of a write: the pipe takes it, its reader has closed the pipe, or its reader never makes
-- room, so that the write blocks and does not return.
pub data Answer : Type 0 where
  takes closed blocks : Answer

-- What the other end of a pipe does: `answer n` is what becomes of a write after which there are `n` bytes
-- written (a reader that is there for more bytes is there for fewer), `backlog now` is the number of bytes that
-- fionread() finds unread at the moment `now` (`none`: the ioctl fails).
pub record Reader : Type 0 where
  pub answer : ℕ → Answer
  pub takes_fewer : (m n : ℕ) → m ≤ n → answer n ≡ takes → answer m ≡ takes
  pub backlog : ℕ → Option ℕ

pub record WritePipe : Type 0 where
  pub fd : ℕ
  pub written : Bytes
  pub reader : Reader

unfoldable pub write_all : WritePipe → Bytes → Result WritePipe
write_all pipe bytes = elim (pipe.reader.answer (length pipe.written + length bytes)) [
  | takes ↦ ok (record pipe { written = pipe.written ++ bytes })
  | closed ↦ err write_failed
  | blocks ↦ err write_blocks
]

-- `fionread()` on a pipe that is written to, at the moment `now`.
unfoldable pub fionread : WritePipe → ℕ → Result ℕ
fionread pipe now = elim (pipe.reader.backlog now) [ none ↦ err ioctl_failed | some n ↦ ok n ]

-- How many bytes the kernel chooses to move in one splice() or vmsplice(), when `want` are asked
-- for and `have` are there. It never moves more than either.
pub record Kernel : Type 0 where
  pub splice : ℕ → ℕ → ℕ

abbrev pub moved : Kernel → ℕ → ℕ → ℕ
moved kernel want have = min (kernel.splice want have) (min want have)

-- The documented progress of splice(): it answers 0 only at the end of the data.
abbrev pub Progresses : Kernel → Type 0
Progresses kernel = (want have : ℕ) → 0 < want → 0 < have → 0 < kernel.splice want have

module _ (kernel : Kernel) where
  -- `while to_write > 0 { .. }` of `splice_all`, one byte of fuel for each byte to write.
  unfoldable pub splice_loop : ℕ → Bytes → WritePipe → ℕ → Result (Bytes × WritePipe)
  splice_loop fuel src dst zero = ok (src, dst)
  splice_loop zero src dst (suc to_write) = out_of_fuel
  splice_loop (suc fuel) src dst (suc to_write) =
      let written = moved kernel (suc to_write) (length src) in
      let next =
        λ (dst' : WritePipe). splice_loop fuel (drop written src) dst' (suc to_write - written) in
      if written == 0 then err splice_failed else (write_all dst (take written src) >>= next)

  -- `src.splice_all(dst, len)`
  unfoldable pub splice_all : Bytes → WritePipe → ℕ → Result (Bytes × WritePipe)
  unfolding splice_loop
  splice_all src dst len = splice_loop len src dst len

  -- The loop of `vmsplice_all`: `offset` bytes of the data are written.
  unfoldable pub vmsplice_loop : ℕ → Bytes → WritePipe → ℕ → ℕ → Result WritePipe
  vmsplice_loop fuel content dst offset zero = ok dst
  vmsplice_loop zero content dst offset (suc to_write) = out_of_fuel
  vmsplice_loop (suc fuel) content dst offset (suc to_write) =
      let slice = drop offset content in
      let written = moved kernel (length slice) (length slice) in
      let next = λ (dst' : WritePipe).
        vmsplice_loop fuel content dst' (offset + written) (suc to_write - written) in
      if written == 0
      then panic vmsplice_returned_zero
      else (write_all dst (take written slice) >>= next)

  -- `dst.vmsplice_all(content)`
  unfoldable pub vmsplice_all : Bytes → WritePipe → Result WritePipe
  unfolding vmsplice_loop
  vmsplice_all content dst = vmsplice_loop (length content) content dst 0 (length content)

-- The answer of fcntl(F_SETPIPE_SZ).
pub data Errno : Type 0 where
  done eperm other : Errno

-- `pipes.iter_mut().try_for_each(|pipe| pipe.set_capacity(capacity))`, over the descriptors.
unfoldable pub set_capacities : (ℕ → ℕ → Errno) → List ℕ → ℕ → Errno
set_capacities set_capacity [] capacity = done
set_capacities set_capacity (fd ∷ fds) capacity =
    let rest = set_capacities set_capacity fds capacity in
    elim (set_capacity fd capacity) [ done ↦ rest | eperm ↦ eperm | other ↦ other ]

module _ (page_size : ℕ) (set_capacity : ℕ → ℕ → Errno) where
  unfoldable pub increase_loop : ℕ → List ℕ → ℕ → Result ℕ
  unfolding set_capacities
  increase_loop zero pipes capacity = out_of_fuel
  increase_loop (suc fuel) pipes capacity =
      let again =
        assert (ltb page_size capacity) capacity_too_small
        >> increase_loop fuel pipes (capacity / 2) in
      elim (set_capacities set_capacity pipes capacity) [
        | eperm ↦ again
        | other ↦ err set_capacity_failed
        | done ↦ ok capacity
      ]

  -- `UnixPipe::increase_capacity(pipes, max_capacity)`: each retry halves the capacity.
  unfoldable pub increase_capacity : List ℕ → ℕ → Result ℕ
  unfolding increase_loop
  increase_capacity pipes max_capacity = increase_loop (max_capacity + 1) pipes max_capacity

-- ===== src/Host.antt =====
-- NachOS-4.0/code/lib/sysdep.cc: the calls of the host's files. The host itself is a parameter.
pub mod OpenFile
pub mod FileSystem
use cs107_nach_os.Common.{
  ℕ, ◌-◌, ◌%◌, ◌^◌, Bool, not, Option, none, some, List, length, Outcome, ok, aborted, ◌>>◌, assert,
  ◌==◌,
}

-- The flags of open(2) that the code uses.
pub data Access : Type 0 where
  create_truncate read_write read_only : Access

-- The calls of the host, on its own state. `none` is -1; `whence` is 0 for SEEK_SET, 1 for
-- SEEK_CUR, 2 for SEEK_END; `random` is rand() after srand(time(0)).
pub record Host : Type 1 where
  pub State : Type 0
  pub open_call : List ℕ → Access → State → Option ℕ × State
  pub close_call : ℕ → State → Bool × State
  pub lseek_call : ℕ → ℕ → ℕ → State → Option ℕ × State
  pub read_call : ℕ → ℕ → State → Option (List ℕ) × State
  pub write_call : ℕ → List ℕ → State → Option ℕ × State
  pub unlink_call : List ℕ → State → Bool × State
  pub random : State → ℕ × State

-- -1 of an int.
abbrev pub minus_one : ℕ
minus_one = 2 ^ 32 - 1

module _ (h : Host) where
  abbrev pub open_for_write : List ℕ → h.State → Outcome (ℕ × h.State)
  open_for_write name s =
      let (fd, s') = h.open_call name create_truncate s in
      elim fd [ none ↦ aborted | some f ↦ ok (f, s') ]

  -- OpenForReadWrite and OpenForRead, with crashOnError FALSE.
  abbrev pub open_for_read_write : List ℕ → h.State → Option ℕ × h.State
  open_for_read_write name s = h.open_call name read_write s

  abbrev pub open_for_read : List ℕ → h.State → Option ℕ × h.State
  open_for_read name s = h.open_call name read_only s

  abbrev pub read_partial : ℕ → ℕ → h.State → Option (List ℕ) × h.State
  read_partial fd n s = h.read_call fd n s

  abbrev pub write_file : ℕ → List ℕ → h.State → Outcome h.State
  write_file fd bytes s =
      let (written, s') = h.write_call fd bytes s in
      elim written [ none ↦ aborted | some n ↦ (assert (n == length bytes) >> ok s') ]

  abbrev pub lseek : ℕ → ℕ → ℕ → h.State → Outcome h.State
  lseek fd offset whence s =
      let (place, s') = h.lseek_call fd offset whence s in
      elim place [ none ↦ aborted | some n ↦ ok s' ]

  -- -1 where lseek fails.
  abbrev pub tell : ℕ → h.State → ℕ × h.State
  tell fd s =
      let (place, s') = h.lseek_call fd 0 1 s in
      (elim place [ none ↦ minus_one | some n ↦ n % 2 ^ 32 ], s')

  abbrev pub close : ℕ → h.State → Outcome h.State
  close fd s = let (closed, s') = h.close_call fd s in (assert closed >> ok s')

  -- The int that unlink(2) returns, as a bool: FALSE where it succeeds.
  abbrev pub unlink : List ℕ → h.State → Bool × h.State
  unlink name s = let (removed, s') = h.unlink_call name s in (not removed, s')

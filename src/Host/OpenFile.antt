-- ===== src/Host/OpenFile.antt =====
-- The class OpenFile of NachOS-4.0/code/filesys/openfile.h, as compiled with FILESYS_STUB.
use cs107_nach_os.Common.{ℕ, none, some, List, [], length, Outcome, ok, ◌>>=◌}
use cs107_nach_os.Common.Words.{add32}
use cs107_nach_os.Host.{Host, minus_one, read_partial, write_file, lseek, tell}

-- `file` is the descriptor of the host.
pub record OpenFile : Type 0 where
  pub type : ℕ
  pub file : ℕ
  pub current_offset : ℕ

module _ (h : Host) where
  -- The answer, and the bytes that are in the buffer.
  pub read_at : OpenFile → ℕ → ℕ → h.State → Outcome (ℕ × List ℕ × h.State)
  read_at f num_bytes position s = lseek h f.file position 0 s >>= λ s1.
      let (got, s2) = read_partial h f.file num_bytes s1 in
      elim got [ none ↦ ok (minus_one, [], s2) | some bytes ↦ ok (length bytes, bytes, s2) ]

  pub write_at : OpenFile → List ℕ → ℕ → h.State → Outcome (ℕ × h.State)
  write_at f from position s = do
    s1 ← lseek h f.file position 0 s
    s2 ← write_file h f.file from s1
    ok (length from, s2)

  pub read : OpenFile → ℕ → h.State → Outcome (ℕ × List ℕ × OpenFile × h.State)
  read f num_bytes s = do
    (num_read, bytes, s') ← read_at f num_bytes f.current_offset s
    ok (num_read, bytes, record f { current_offset = add32 f.current_offset num_read }, s')

  pub write : OpenFile → List ℕ → h.State → Outcome (ℕ × OpenFile × h.State)
  write f from s = do
    (num_written, s') ← write_at f from f.current_offset s
    ok (num_written, record f { current_offset = add32 f.current_offset num_written }, s')

  unfoldable pub file_size : OpenFile → h.State → Outcome (ℕ × h.State)
  file_size f s = do s1 ← lseek h f.file 0 2 s; ok (tell h f.file s1)

  pub get_current_pos : OpenFile → h.State → ℕ × OpenFile × h.State
  get_current_pos f s =
      let (pos, s') = tell h f.file s in (pos, record f { current_offset = pos }, s')

  pub seek : OpenFile → ℕ → h.State → Outcome (ℕ × OpenFile × h.State)
  seek f pos s = do
    s1 ← lseek h f.file pos 0 s
    let (offset, s2) = tell h f.file s1
    ok (offset, record f { current_offset = offset }, s2)

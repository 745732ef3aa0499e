-- ===== src/AddrSpace/Load.antt =====
-- Load of NachOS-4.0/code/userprog/addrspace.cc, with the format of executables of
-- NachOS-4.0/code/userprog/noff.h, over the file system on the disk. RDATA is defined, and on the
-- little-endian host no header is swapped.
pub mod Placed
mod Tests
use cs107_nach_os.Common.{
  ℕ, ◌+◌, ◌-◌, Bool, true, false, none, some, List, Outcome, ok, ◌>>=◌, ◌>>◌, assert, ◌==◌, leb,
  if◌then◌else◌,
}
use cs107_nach_os.Common.Words.{add32, slt}
use cs107_nach_os.Bitmap.{div_round_up}
use cs107_nach_os.Machine.{page_size, num_phys_pages, memory_size}
use cs107_nach_os.AddrSpace.{AddrSpace}
use cs107_nach_os.Filesys.OpenFile.{OpenFile, read_at}
use cs107_nach_os.Filesys.Layout.{int_at}
use cs107_nach_os.Filesys.FileSystem.{FileSystem, open_name}

pub record Segment : Type 0 where
  pub virtual_addr : ℕ
  pub in_file_addr : ℕ
  pub seg_size : ℕ

pub record NoffHeader : Type 0 where
  pub noff_magic : ℕ
  pub code : Segment
  pub init_data : Segment
  pub readonly_data : Segment
  pub uninit_data : Segment

abbrev pub noff_size : ℕ
noff_size = 52

abbrev pub noff_magic_number : ℕ
noff_magic_number = 0xbadfad

abbrev pub user_stack_size : ℕ
user_stack_size = 1024

abbrev pub segment_at : (ℕ → ℕ) → ℕ → Segment
segment_at buf a = record {
  virtual_addr = int_at buf a;
  in_file_addr = int_at buf (a + 4);
  seg_size = int_at buf (a + 8);
}

abbrev pub noff_at : (ℕ → ℕ) → NoffHeader
noff_at buf = record {
  noff_magic = int_at buf 0;
  code = segment_at buf 4;
  init_data = segment_at buf 16;
  readonly_data = segment_at buf 28;
  uninit_data = segment_at buf 40;
}

-- The address space has so many pages.
abbrev pub pages_of : NoffHeader → ℕ
pages_of h =
    div_round_up
      (add32
        (add32 (add32 (add32 h.code.seg_size h.readonly_data.seg_size) h.init_data.seg_size)
          h.uninit_data.seg_size)
        user_stack_size)
      page_size

-- Into the memory at the virtual address; to write behind the end of the memory is a fault.
pub load_segment : (ℕ → ℕ) → OpenFile → (ℕ → ℕ) → Segment → (ℕ → ℕ) → Outcome (ℕ → ℕ)
load_segment fresh file disk seg memory =
    if slt 0 seg.seg_size
    then (read_at fresh file.hdr disk (λ k. memory (seg.virtual_addr + k)) seg.seg_size
          seg.in_file_addr
        >>= λ (n, into).
            assert (leb (seg.virtual_addr + n) memory_size)
            >> ok (λ a. if leb seg.virtual_addr a then into (a - seg.virtual_addr) else memory a))
    else ok memory

-- What Load does with the file: the memory and the address space.
pub load_file :
    (ℕ → ℕ) → OpenFile → (ℕ → ℕ) → AddrSpace → (ℕ → ℕ) → Outcome (Bool × (ℕ → ℕ) × AddrSpace)
unfolding load_segment
load_file fresh file disk space memory = do
  (_, buf) ← read_at fresh file.hdr disk fresh noff_size 0
  assert ((noff_at buf).noff_magic == noff_magic_number)
  assert (leb (pages_of (noff_at buf)) num_phys_pages)
  memory1 ← load_segment fresh file disk ((noff_at buf).code) memory
  memory2 ← load_segment fresh file disk ((noff_at buf).init_data) memory1
  memory3 ← load_segment fresh file disk ((noff_at buf).readonly_data) memory2
  ok (true, memory3, record space { num_pages = pages_of (noff_at buf) })

pub load :
    (ℕ → ℕ)
    → FileSystem
    → List ℕ
    → (ℕ → ℕ)
    → AddrSpace
    → (ℕ → ℕ)
    → Outcome (Bool × (ℕ → ℕ) × AddrSpace)
unfolding load_file
load fresh fs name disk space memory = open_name fresh fs name disk >>= λ found. elim found [
  | none ↦ ok (false, memory, space)
  | some file ↦ load_file fresh file disk space memory
]

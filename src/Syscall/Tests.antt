-- ===== src/Syscall/Tests.antt =====
-- The system calls at concrete states: a host with one file, and a machine with one page.
use cs107_nach_os.Common.{
  ℕ, ◌+◌, ◌-◌, ◌^◌, ◌≡◌, refl, true, false, Option, none, some, List, [], ◌∷◌, ◌++◌, length, take,
  replicate, ok, aborted, ◌==◌, if◌then◌else◌, arith,
}
use cs107_nach_os.Common.Words.{magnitude}
use cs107_nach_os.Machine.{Machine, user_mode, write}
use cs107_nach_os.Machine.Sound.{IsSettled, Always}
use cs107_nach_os.Machine.Execute.{one_instruction}
use cs107_nach_os.Host.{Host, minus_one, Access, create_truncate, read_write, read_only}
use cs107_nach_os.Host.OpenFile.{OpenFile}
use cs107_nach_os.Host.FileSystem.{FileSystem, max_file_open}
use cs107_nach_os.Syscall.{Kernel}
use cs107_nach_os.Syscall.Number.{read_num, print_num}
use cs107_nach_os.Syscall.Number.RoundTrip.{read_num-numeral, read_num-print_num}
use cs107_nach_os.Syscall.Number.Bounds.{print_num-ends}
use cs107_nach_os.Syscall.Files.{answer, sys_read, sys_write, sys_seek}
use cs107_nach_os.Syscall.Files.Bounds.{past_the_table}
use cs107_nach_os.Syscall.Handler.{Call, system_call}
use cs107_nach_os.Syscall.Handler.Frame.{Advanced, system_call-Advanced}
use cs107_nach_os.Syscall.Handler.Progress.{system_call-comes_back}
use cs107_nach_os.Syscall.Instruction.{kernel_handler, instruction-IsSettled}

-- " -407" and the end of the line
read_num-numeral_example : read_num (32 ∷ 45 ∷ 52 ∷ 48 ∷ 55 ∷ 10 ∷ []) ≡ ok (2 ^ 32 - 407, [])
read_num-numeral_example =
    read_num-numeral (32 ∷ []) true 4 (0 ∷ 7 ∷ []) 10 [] (refl, tt)
      (omega arith, (omega arith, (omega arith, tt))) refl (omega arith)

-- -407 is displayed as 407.
read_num-print_num_example :
    (cs : List ℕ) × (print_num (2 ^ 32 - 407) ≡ ok cs)
    × (read_num (cs ++ 10 ∷ []) ≡ ok (magnitude (2 ^ 32 - 407), []))
read_num-print_num_example = read_num-print_num (2 ^ 32 - 407) [] (omega arith) (omega arith)

print_num-ends_example : (cs : List ℕ) × (print_num (2 ^ 32 - 1) ≡ ok cs)
print_num-ends_example = print_num-ends (2 ^ 32 - 1) (omega arith)

-- The bytes of the only file, and where the next access is.
abbrev Disk : Type 0
Disk = List ℕ × ℕ

abbrev dropped : ℕ → List ℕ → List ℕ
dropped n [] = []
dropped n (x ∷ xs) = if n == 0 then x ∷ xs else dropped (n - 1) xs

abbrev opened : Access → Disk → Option ℕ × Disk
opened create_truncate s = (some 3, ([], 0))
opened read_write s = (some 3, (s.0, 0))
opened read_only s = (some 3, (s.0, 0))

abbrev disk_host : Host
disk_host = record {
  State = Disk;
  open_call = λ name access s. opened access s;
  close_call = λ fd s. (true, s);
  lseek_call = λ fd offset whence s.
      let place =
        (if whence == 0
          then offset
          else if whence == 1
          then s.1 + offset
          else length s.0 + offset) in
      (some place, (s.0, place));
  read_call =
      λ fd n s. let bytes = take n (dropped s.1 s.0) in (some bytes, (s.0, s.1 + length bytes));
  write_call = λ fd bytes s. (some (length bytes), (take s.1 s.0 ++ bytes, s.1 + length bytes));
  unlink_call = λ name s. (true, ([], 0));
  random = λ s. (17, s);
}

abbrev machine : Machine
machine = record {
  registers = write (write (write (λ _. 0) 2 44) 4 (2 ^ 32 - 407)) 34 128;
  main_memory = λ _. 65;
  tlb = none;
  page_table = some (
      (record {
        virtual_page = 0;
        physical_page = 3;
        valid = true;
        read_only = false;
        use_bit = false;
        dirty = false;
      })
      ∷ []);
  page_table_size = 1;
  status = user_mode;
}

machine-IsSettled : IsSettled machine
machine-IsSettled = record {
  sound = record { words = λ r. ground arith; bytes = λ a. omega arith };
  zero_reg = refl;
}

-- Slots 2 and 3 are taken.
abbrev file : OpenFile
file = record { type = 0; file = 3; current_offset = 0 }

abbrev kernel : Kernel disk_host
kernel = record {
  machine = machine;
  typed = 52 ∷ 10 ∷ [];
  displayed = [];
  files = record {
    openf = none ∷ none ∷ some file ∷ some file ∷ replicate 11 none;
    index = 2;
    host = (7 ∷ 8 ∷ [], 0);
  };
}

system_call-Advanced_example :
    Always
      (λ k'. Advanced disk_host machine k'.machine)
      (system_call disk_host Call.read_num_call kernel)
system_call-Advanced_example =
    system_call-Advanced disk_host Call.read_num_call kernel machine-IsSettled

system_call-comes_back_example :
    (k' : Kernel disk_host) × (system_call disk_host Call.print_num_call kernel ≡ ok k')
    × Advanced disk_host machine k'.machine
system_call-comes_back_example =
    system_call-comes_back disk_host Call.print_num_call kernel refl machine-IsSettled

instruction-IsSettled_example :
    Always IsSettled (one_instruction (kernel_handler disk_host kernel) machine)
instruction-IsSettled_example = instruction-IsSettled disk_host kernel machine machine-IsSettled

abbrev empty_files : FileSystem disk_host
empty_files = record kernel.files { host = (7 ∷ 8 ∷ [], 0) }

past_the_table_example :
    (sys_read disk_host 0 4 max_file_open kernel ≡ aborted)
    × (sys_seek disk_host 0 max_file_open kernel ≡ aborted)
    × (sys_write disk_host 0 4 max_file_open kernel ≡ ok (answer disk_host minus_one kernel))
past_the_table_example = past_the_table disk_host 0 4 0 kernel refl

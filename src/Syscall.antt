-- ===== src/Syscall.antt =====
-- NachOS-4.0/code/userprog: the system calls. The kernel as they see it: the machine, the
-- characters that will be typed, those that were displayed, and the open files.
pub mod Number
pub mod Text
pub mod Files
pub mod Handler
pub mod Instruction
mod Tests
use cs107_nach_os.Common.{ℕ, List}
use cs107_nach_os.Machine.{Machine}
use cs107_nach_os.Host.{Host}
use cs107_nach_os.Host.FileSystem.{FileSystem}

module _ (h : Host) where
  pub record Kernel : Type 0 where
    pub machine : Machine
    pub typed : List ℕ
    pub displayed : List ℕ
    pub files : FileSystem h

-- ===== src/Syscall/Instruction.antt =====
-- Machine::OneInstruction of NachOS-4.0/code/machine/mipssim.cc with ExceptionHandler of
-- NachOS-4.0/code/userprog/exception.cc behind it.
use cs107_nach_os.Common.{ok, ◌>>=◌}
use cs107_nach_os.Machine.{Machine, Handler}
use cs107_nach_os.Machine.Sound.{IsSettled, KeepsSettled, Always, Always-bind}
use cs107_nach_os.Machine.Execute.{one_instruction}
use cs107_nach_os.Machine.Execute.Sound.{one_instruction-IsSettled}
use cs107_nach_os.Host.{Host}
use cs107_nach_os.Syscall.{Kernel}
use cs107_nach_os.Syscall.Handler.{exception_handler}
use cs107_nach_os.Syscall.Handler.Frame.{exception_handler-IsSettled}

module _ (h : Host) where
  -- The handler that an instruction calls while the rest of the kernel is k.
  pub kernel_handler : Kernel h → Handler
  kernel_handler k e m = exception_handler h e (record k { machine = m }) >>= λ k'. ok k'.machine

  kernel_handler-KeepsSettled : (k : Kernel h) → KeepsSettled (kernel_handler k)
  unfolding kernel_handler
  kernel_handler-KeepsSettled k e m s =
      Always-bind (λ k'. IsSettled k'.machine) IsSettled
        (exception_handler h e (record k { machine = m })) _
        (exception_handler-IsSettled h e (record k { machine = m }) s) (λ k' s'. s')

  -- When OneInstruction comes back, with ExceptionHandler and its system calls as the kernel behind
  -- it and in any state of the rest of the kernel, every register holds a word, register 0 is 0 and
  -- the memory holds bytes, if this was so before.
  pub instruction-IsSettled :
      (k : Kernel h) (m : Machine)
      → IsSettled m
      → Always IsSettled (one_instruction (kernel_handler k) m)
  instruction-IsSettled k m s =
      one_instruction-IsSettled (kernel_handler k) (kernel_handler-KeepsSettled k) m s

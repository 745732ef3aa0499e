-- ===== src/Syscall/Handler/Progress.antt =====
-- The calls that always come back.
use cs107_nach_os.Common.{◌≡◌, refl, ap, arith, ◌++◌, Bool, true, false, Outcome, ok, ◌>>=◌}
use cs107_nach_os.Machine.Sound.{IsSettled, Always}
use cs107_nach_os.Host.{Host}
use cs107_nach_os.Syscall.{Kernel}
use cs107_nach_os.Syscall.Number.Bounds.{print_num-ends}
use cs107_nach_os.Syscall.Handler.{Call, handle_console, system_call, done}
use cs107_nach_os.Syscall.Handler.Frame.{Advanced, system_call-Advanced}

-- The calls that neither wait for input nor touch memory or files.
abbrev pub is_immediate : Call → Bool
is_immediate Call.add = true
is_immediate Call.print_num_call = true
is_immediate Call.random_num = true
is_immediate Call.print_char = true
is_immediate _ = false

module _ (h : Host) where
  answers :
      (c : Call) (k : Kernel h)
      → is_immediate c ≡ true
      → IsSettled k.machine
      → (k' : Kernel h) × (system_call h c k ≡ ok k')
  unfolding system_call handle_console
  answers Call.add k i s = (_, refl)
  answers Call.print_num_call k i s =
      let (cs, run) = print_num-ends (k.machine.registers 4) (s.sound.words 4) in
      (
        _,
        ap
            (λ o. (o >>= λ shown. ok (record k { displayed = k.displayed ++ shown })) >>= λ k'.
              ok (done h k'))
            run,
      )
  answers Call.random_num k i s = (_, refl)
  answers Call.print_char k i s = (_, refl)
  answers _ k i s = absurd (ground arith)

  always-ok :
      (P : Kernel h → Type 0) {r : Outcome (Kernel h)} {k : Kernel h} → r ≡ ok k → Always P r → P k
  always-ok P e a = rw e at a

  -- Add, PrintNum, RandomNum and PrintChar come back from every machine between two instructions,
  -- with PC, PrevPC and NextPC advanced by one instruction and every other register but that of the
  -- result as it was.
  pub system_call-comes_back :
      (c : Call) (k : Kernel h)
      → is_immediate c ≡ true
      → IsSettled k.machine
      → (k' : Kernel h) × (system_call h c k ≡ ok k') × Advanced h k.machine k'.machine
  system_call-comes_back c k i s =
      let (k', run) = answers c k i s in
      (
        k',
        run,
        always-ok (λ k''. Advanced h k.machine k''.machine) run (system_call-Advanced h c k s),
      )

-- ===== src/Machine/Execute/Ending/Sound.antt =====
-- The ways to leave the switch of OneInstruction, with words in all that they leave.
use cs107_nach_os.Common.{ℕ, Outcome, arith}
use cs107_nach_os.Common.Words.{IsWord}
use cs107_nach_os.Machine.{Machine, Handler, ExceptionType}
use cs107_nach_os.Machine.Sound.{
  IsSound, IsSettled, KeepsSettled, Always, Always-bind, set_register-IsSound,
  raise_exception-IsSettled,
}
use cs107_nach_os.Machine.Execute.Ending.{
  Effect, Flow, finished, returned, go_on, put, jump, start_load, trap,
}

pub record IsSoundEffect (e : Effect) : Type 0 where
  pub machine : IsSound e.machine
  pub pc : IsWord e.pc_after
  pub reg : IsWord e.next_load_reg
  pub value : IsWord e.next_load_value

abbrev pub IsSoundFlow : Flow → Type 0
IsSoundFlow (finished e) = IsSoundEffect e
IsSoundFlow (returned m) = IsSettled m

abbrev pub IsSoundCase : Outcome Flow → Type 0
IsSoundCase = Always IsSoundFlow

module _ (m : Machine) where
  pub start_load-IsSound :
      (m' : Machine) (reg value : ℕ)
      → IsSound m'
      → IsWord reg
      → IsWord value
      → IsSoundCase (start_load m m' reg value)
  start_load-IsSound m' reg value s r v = record {
    machine = s;
    pc = omega arith;
    reg = r;
    value = v;
  }

  pub go_on-IsSound : (m' : Machine) → IsSound m' → IsSoundCase (go_on m m')
  go_on-IsSound m' s = start_load-IsSound m' 0 0 s (omega arith) (omega arith)

  pub put-IsSound : (reg value : ℕ) → IsSound m → IsWord value → IsSoundCase (put m reg value)
  put-IsSound reg value s v = go_on-IsSound _ (set_register-IsSound m reg value s v)

  pub jump-IsSound : (target : ℕ) → IsSound m → IsWord target → IsSoundCase (jump m target)
  jump-IsSound target s t = record { machine = s; pc = t; reg = omega arith; value = omega arith }

  pub trap-IsSound :
      (handler : Handler) (e : ExceptionType) (addr : ℕ)
      → KeepsSettled handler
      → IsSound m
      → IsWord addr
      → IsSoundCase (trap handler m e addr)
  trap-IsSound handler e addr keeps s a =
      Always-bind IsSettled IsSoundFlow _ _ (raise_exception-IsSettled handler m e addr keeps s a)
        (λ m' k. k)

-- ===== src/Machine/Execute/Ending.antt =====
-- How a case of the switch in `OneInstruction` ends.
pub mod Sound
use cs107_nach_os.Common.{ℕ, Bool, Outcome, ok, ◌>>=◌, bit_and, ◌==◌, not}
use cs107_nach_os.Common.Words.{add32}
use cs107_nach_os.Machine.{
  Machine, Handler, ExceptionType, raise_exception, next_pc_reg, set_register,
}

-- The variables that are live after the switch.
pub record Effect : Type 0 where
  pub machine : Machine
  pub pc_after : ℕ
  pub next_load_reg : ℕ
  pub next_load_value : ℕ

-- `break`, or `return` after an exception.
pub data Flow : Type 0 where
  finished : Effect → Flow
  returned : Machine → Flow

-- The value that pcAfter has before the switch.
abbrev pub pc_after : Machine → ℕ
pc_after m = add32 (m.registers next_pc_reg) 4

-- A case that ends with machine m', of one that began with m.
abbrev pub go_on : Machine → Machine → Outcome Flow
go_on m m' = ok (
    finished
      (record { machine = m'; pc_after = pc_after m; next_load_reg = 0; next_load_value = 0 }))

-- One that only writes a register.
abbrev pub put : Machine → ℕ → ℕ → Outcome Flow
put m reg value = go_on m (set_register m reg value)

-- One that sets pcAfter.
abbrev pub jump : Machine → ℕ → Outcome Flow
jump m target =
    ok
      (finished (record { machine = m; pc_after = target; next_load_reg = 0; next_load_value = 0 }))

-- One that starts a load.
abbrev pub start_load : Machine → Machine → ℕ → ℕ → Outcome Flow
start_load m m' reg value = ok (
    finished (record {
      machine = m';
      pc_after = pc_after m;
      next_load_reg = reg;
      next_load_value = value;
    }))

abbrev pub trap : Handler → Machine → ExceptionType → ℕ → Outcome Flow
trap handler m which addr = do m' ← raise_exception handler m which addr; ok (returned m')

-- `x & SIGN_BIT`, as a condition.
abbrev pub sign_set : ℕ → Bool
sign_set x = not (bit_and x 0x80000000 == 0)

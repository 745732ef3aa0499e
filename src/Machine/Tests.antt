-- ===== src/Machine/Tests.antt =====
-- The machine at concrete states: one page, mapped to frame 3, and a few registers.
use cs107_nach_os.Common.{
  ℕ, ◌+◌, ◌-◌, ◌^◌, ◌≡◌, ◌≢◌, refl, inr, true, false, some, none, [], ◌∷◌, arith, ok,
}
use cs107_nach_os.Common.Int.{pos, negsuc, ◌+ℤ◌, ◌*ℤ◌}
use cs107_nach_os.Common.Words.{IsWord}
use cs107_nach_os.Machine.{Machine, TranslationEntry, Handler, user_mode, write}
use cs107_nach_os.Machine.Multiply.{mult}
use cs107_nach_os.Machine.Multiply.Rounds.{double}
use cs107_nach_os.Machine.Multiply.Exact.{mult_signed, double_to_ℤ}
use cs107_nach_os.Machine.Instruction.{Op, Instruction}
use cs107_nach_os.Machine.Translate.{translate}
use cs107_nach_os.Machine.Translate.Safety.{IsPaged, Answers, translate_total}
use cs107_nach_os.Machine.Memory.{read_mem, write_mem}
use cs107_nach_os.Machine.Sound.{IsSettled, Always}
use cs107_nach_os.Machine.Execute.{one_instruction}
use cs107_nach_os.Machine.Execute.Sound.{one_instruction-IsSettled}
use cs107_nach_os.Machine.Memory.RoundTrip.{IsWritable, SameOutside, narrowed, write_read}
use cs107_nach_os.Machine.Execute.Integer.{execute_add, execute_srl, execute_sra}
use cs107_nach_os.Machine.Execute.Integer.Overflow.{Checked, execute_add-Checked}
use cs107_nach_os.Machine.Execute.Integer.Shifts.{left_in, execute_srl_negative}

-- -6 * 7
mult_signed_example :
    double_to_ℤ (double (mult (2 ^ 32 - 6) 7 true).0 (mult (2 ^ 32 - 6) 7 true).1) ≡ negsuc 41
unfolding ◌*ℤ◌
mult_signed_example = mult_signed (2 ^ 32 - 6) 7 (omega arith) (omega arith)

abbrev entry : TranslationEntry
entry = record {
  virtual_page = 0;
  physical_page = 3;
  valid = true;
  read_only = false;
  use_bit = false;
  dirty = false;
}

-- Register 1 holds 2 ^ 31 - 1, register 2 holds -8, register 3 holds 3.
abbrev values : ℕ → ℕ
values = write (write (write (λ _. 0) 1 (2 ^ 31 - 1)) 2 (2 ^ 32 - 8)) 3 3

abbrev machine : Machine
machine = record {
  registers = values;
  main_memory = λ _. 0;
  tlb = none;
  page_table = some (entry ∷ []);
  page_table_size = 1;
  status = user_mode;
}

machine-IsPaged : IsPaged machine (entry ∷ [])
machine-IsPaged = record { no_tlb = refl; paged = refl; covered = omega arith }

values-IsWord : (k : ℕ) → IsWord (machine.registers k)
values-IsWord k = ground arith

-- The kernel does nothing.
abbrev idle_handler : Handler
idle_handler which m = ok m

abbrev on_registers : ℕ → ℕ → ℕ → ℕ → Instruction
on_registers rs rt rd shamt = record {
  value = 0;
  op_code = Op.add;
  rs = rs;
  rt = rt;
  rd = rd;
  extra = shamt;
}

execute_add-Checked_example :
    Checked idle_handler machine 4
      (pos (2 ^ 31 + 2))
      (2 ^ 31 + 2)
      (execute_add idle_handler (on_registers 1 3 4 0) machine)
unfolding ◌+ℤ◌
execute_add-Checked_example =
    execute_add-Checked idle_handler (on_registers 1 3 4 0) machine values-IsWord

-- srl r4, r2, 1
execute_srl_negative_example :
    (left_in 4 (execute_srl (on_registers 0 2 4 1) machine) ≢ 2 ^ 31 - 4)
    × (execute_srl (on_registers 0 2 4 1) machine ≡ execute_sra (on_registers 0 2 4 1) machine)
execute_srl_negative_example =
    execute_srl_negative (on_registers 0 2 4 1) machine refl (omega arith) (omega arith)

translate_total_example :
    Answers machine (entry ∷ []) machine-IsPaged 64 4 true (translate machine 64 4 true)
translate_total_example =
    translate_total machine (entry ∷ []) machine-IsPaged 64 4 true (inr (inr refl))

machine-IsWritable : IsWritable machine (entry ∷ []) 64 4 entry
machine-IsWritable = record {
  paged = machine-IsPaged;
  sized = inr (inr refl);
  aligned = refl;
  inside = omega arith;
  found = refl;
  valid = refl;
  allowed = refl;
  frame = omega arith;
}

write_read_example :
    (m' : Machine) × (write_mem idle_handler machine 64 4 77 ≡ ok (true, m'))
    × SameOutside 448 4 m'.main_memory machine.main_memory
    × ((m'' : Machine) × (read_mem idle_handler m' 64 4 ≡ ok (some (narrowed 4 77), m'')))
write_read_example = write_read idle_handler machine (entry ∷ []) 64 4 77 entry machine-IsWritable

machine-IsSettled : IsSettled machine
machine-IsSettled = record {
  sound = record { words = values-IsWord; bytes = λ a. omega arith };
  zero_reg = refl;
}

one_instruction-IsSettled_example : Always IsSettled (one_instruction idle_handler machine)
one_instruction-IsSettled_example =
    one_instruction-IsSettled idle_handler (λ e m s. s) machine machine-IsSettled

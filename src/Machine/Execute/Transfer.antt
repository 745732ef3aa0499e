-- ===== src/Machine/Execute/Transfer.antt =====
-- The loads and stores of `OneInstruction`, as compiled with SIM_FIX.
pub mod Sound
use cs107_nach_os.Common.{
  ℕ, ◌-◌, Bool, not, bit_and, bit_or, none, some, Outcome, ok, ◌>>=◌, ◌==◌, if◌then◌else◌,
}
use cs107_nach_os.Common.Words.{add32, shl32, sra32}
use cs107_nach_os.Machine.{Machine, Handler, address_error_exception, load_reg, load_value_reg}
use cs107_nach_os.Machine.Instruction.{Instruction}
use cs107_nach_os.Machine.Memory.{read_mem, write_mem}
use cs107_nach_os.Machine.Execute.Ending.{Flow, returned, go_on, start_load, trap}

-- The value of LB and LBU, of LH and LHU.
pub load_byte_value : Bool → ℕ → ℕ
load_byte_value signed value =
    if not (bit_and value 0x80 == 0)
    then if signed then bit_or value 0xffffff00 else bit_and value 0xff
    else bit_and value 0xff

pub load_half_value : Bool → ℕ → ℕ
load_half_value signed value =
    if not (bit_and value 0x8000 == 0)
    then if signed then bit_or value 0xffff0000 else bit_and value 0xffff
    else bit_and value 0xffff

-- The switches of LWL, LWR, SWL and SWR, on `3 - byte`; `old` is what is merged into.
pub lwl_value : ℕ → ℕ → ℕ → ℕ
lwl_value k old value =
    if k == 0
    then value
    else if k == 1
    then bit_or (bit_and old 0xff) (shl32 value 8)
    else if k == 2
    then bit_or (bit_and old 0xffff) (shl32 value 16)
    else bit_or (bit_and old 0xffffff) (shl32 value 24)

pub lwr_value : ℕ → ℕ → ℕ → ℕ
lwr_value k old value =
    if k == 0
    then bit_or (bit_and old 0xffffff00) (bit_and (sra32 value 24) 0xff)
    else if k == 1
    then bit_or (bit_and old 0xffff0000) (bit_and (sra32 value 16) 0xffff)
    else if k == 2
    then bit_or (bit_and old 0xff000000) (bit_and (sra32 value 8) 0xffffff)
    else value

pub swl_value : ℕ → ℕ → ℕ → ℕ
swl_value k old value =
    if k == 0
    then value
    else if k == 1
    then bit_or (bit_and old 0xff000000) (bit_and (sra32 value 8) 0xffffff)
    else if k == 2
    then bit_or (bit_and old 0xffff0000) (bit_and (sra32 value 16) 0xffff)
    else bit_or (bit_and old 0xffffff00) (bit_and (sra32 value 24) 0xff)

pub swr_value : ℕ → ℕ → ℕ → ℕ
swr_value k old value =
    if k == 0
    then bit_or (bit_and old 0xffffff) (shl32 value 24)
    else if k == 1
    then bit_or (bit_and old 0xffff) (shl32 value 16)
    else if k == 2
    then bit_or (bit_and old 0xff) (shl32 value 8)
    else value

module _ (handler : Handler) (i : Instruction) (m : Machine) where
  abbrev pub address : ℕ
  address = add32 (m.registers i.rs) i.extra

  -- `if (!ReadMem(…)) return;`, and the case goes on with the value.
  abbrev reading : ℕ → ℕ → (ℕ → Machine → Outcome Flow) → Outcome Flow
  reading addr size next = do
    (v, m') ← read_mem handler m addr size
    elim v [ none ↦ ok (returned m') | some value ↦ next value m' ]

  -- `if (!WriteMem(…)) return;`
  abbrev writing : Machine → ℕ → ℕ → ℕ → Outcome Flow
  writing m1 addr size value = do
    (done, m') ← write_mem handler m1 addr size value
    if done then go_on m m' else ok (returned m')

  pub execute_lb : Bool → Outcome Flow
  execute_lb signed =
      reading address 1 λ value m'. start_load m m' i.rt (load_byte_value signed value)

  pub execute_lh : Bool → Outcome Flow
  execute_lh signed =
      if not (bit_and address 0x1 == 0)
      then trap handler m address_error_exception address
      else reading address 2 λ value m'. start_load m m' i.rt (load_half_value signed value)

  pub execute_lw : Outcome Flow
  execute_lw =
      if not (bit_and address 0x3 == 0)
      then trap handler m address_error_exception address
      else reading address 4 λ value m'. start_load m m' i.rt value

  -- The register as it will be once the load in progress has finished.
  abbrev pending : Machine → ℕ
  pending m' =
      if m'.registers load_reg == i.rt then m'.registers load_value_reg else m'.registers i.rt

  pub execute_lwl : Outcome Flow
  execute_lwl =
      let byte = bit_and address 0x3 in
      reading (address - byte) 4
        λ value m'. start_load m m' i.rt (lwl_value (3 - byte) (pending m') value)

  pub execute_lwr : Outcome Flow
  execute_lwr =
      let byte = bit_and address 0x3 in
      reading (address - byte) 4
        λ value m'. start_load m m' i.rt (lwr_value (3 - byte) (pending m') value)

  pub execute_sb : Outcome Flow
  execute_sb = writing m address 1 (m.registers i.rt)

  pub execute_sh : Outcome Flow
  execute_sh = writing m address 2 (m.registers i.rt)

  pub execute_sw : Outcome Flow
  execute_sw = writing m address 4 (m.registers i.rt)

  pub execute_swl : Outcome Flow
  execute_swl =
      let byte = bit_and address 0x3 in
      reading (address - byte) 4
        λ value m'. writing m' (address - byte) 4 (swl_value (3 - byte) value (m'.registers i.rt))

  pub execute_swr : Outcome Flow
  execute_swr =
      let byte = bit_and address 0x3 in
      reading (address - byte) 4
        λ value m'. writing m' (address - byte) 4 (swr_value (3 - byte) value (m'.registers i.rt))

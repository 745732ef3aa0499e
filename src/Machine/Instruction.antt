-- ===== src/Machine/Instruction.antt =====
-- The instruction formats and tables of NachOS-4.0/code/machine/mipssim.h, and `Decode` of
-- mipssim.cc.
pub mod Fields
use cs107_nach_os.Common.{
  ℕ, ◌*◌, ◌/◌, ◌^◌, ◌≡◌, Bool, true, false, List, [], ◌∷◌, bit_and, bit_or, ◌==◌, if◌then◌else◌,
  get_or,
}

-- The codes OP_… of the header, with SPECIAL and BCOND.
pub data Op : Type 0 where
  add addi addiu addu and andi beq bgez bgezal bgtz : Op
  blez bltz bltzal bne div divu j jal jalr jr : Op
  lb lbu lh lhu lui lw lwl lwr mfhi mflo : Op
  mthi mtlo mult multu nor or ori rfe sb sh : Op
  sll sllv slt slti sltiu sltu sra srav srl srlv : Op
  sub subu sw swl swr xor xori syscall unimp res : Op
  special bcond : Op

pub data Format : Type 0 where
  ifmt jfmt rfmt : Format

unfoldable pub op_table : List (Op × Format)
op_table =
    (special, rfmt)
    ∷ (bcond, ifmt)
    ∷ (j, jfmt)
    ∷ (jal, jfmt)
    ∷ (beq, ifmt)
    ∷ (bne, ifmt)
    ∷ (blez, ifmt)
    ∷ (bgtz, ifmt)
    ∷ (addi, ifmt)
    ∷ (addiu, ifmt)
    ∷ (slti, ifmt)
    ∷ (sltiu, ifmt)
    ∷ (andi, ifmt)
    ∷ (ori, ifmt)
    ∷ (xori, ifmt)
    ∷ (lui, ifmt)
    ∷ (unimp, ifmt)
    ∷ (unimp, ifmt)
    ∷ (unimp, ifmt)
    ∷ (unimp, ifmt)
    ∷ (res, ifmt)
    ∷ (res, ifmt)
    ∷ (res, ifmt)
    ∷ (res, ifmt)
    ∷ (res, ifmt)
    ∷ (res, ifmt)
    ∷ (res, ifmt)
    ∷ (res, ifmt)
    ∷ (res, ifmt)
    ∷ (res, ifmt)
    ∷ (res, ifmt)
    ∷ (res, ifmt)
    ∷ (lb, ifmt)
    ∷ (lh, ifmt)
    ∷ (lwl, ifmt)
    ∷ (lw, ifmt)
    ∷ (lbu, ifmt)
    ∷ (lhu, ifmt)
    ∷ (lwr, ifmt)
    ∷ (res, ifmt)
    ∷ (sb, ifmt)
    ∷ (sh, ifmt)
    ∷ (swl, ifmt)
    ∷ (sw, ifmt)
    ∷ (res, ifmt)
    ∷ (res, ifmt)
    ∷ (swr, ifmt)
    ∷ (res, ifmt)
    ∷ (unimp, ifmt)
    ∷ (unimp, ifmt)
    ∷ (unimp, ifmt)
    ∷ (unimp, ifmt)
    ∷ (res, ifmt)
    ∷ (res, ifmt)
    ∷ (res, ifmt)
    ∷ (res, ifmt)
    ∷ (unimp, ifmt)
    ∷ (unimp, ifmt)
    ∷ (unimp, ifmt)
    ∷ (unimp, ifmt)
    ∷ (res, ifmt)
    ∷ (res, ifmt)
    ∷ (res, ifmt)
    ∷ (res, ifmt)
    ∷ []

unfoldable pub special_table : List Op
special_table =
    sll ∷ res ∷ srl ∷ sra ∷ sllv ∷ res ∷ srlv ∷ srav ∷ jr ∷ jalr ∷ res ∷ res ∷ syscall ∷ unimp ∷ res
    ∷ res ∷ mfhi ∷ mthi ∷ mflo ∷ mtlo ∷ res ∷ res ∷ res ∷ res ∷ mult ∷ multu ∷ div ∷ divu ∷ res
    ∷ res ∷ res ∷ res ∷ add ∷ addu ∷ sub ∷ subu ∷ and ∷ or ∷ xor ∷ nor ∷ res ∷ res ∷ slt ∷ sltu
    ∷ res ∷ res ∷ res ∷ res ∷ res ∷ res ∷ res ∷ res ∷ res ∷ res ∷ res ∷ res ∷ res ∷ res ∷ res ∷ res
    ∷ res ∷ res ∷ res ∷ res ∷ []

-- `extra` is the immediate, the shift amount or the target.
pub record Instruction : Type 0 where
  pub value : ℕ
  pub op_code : Op
  pub rs : ℕ
  pub rt : ℕ
  pub rd : ℕ
  pub extra : ℕ

-- The immediate of 16 bits as an int.
pub sign_extended : ℕ → ℕ
sign_extended imm = if bit_and imm 0x8000 == 0 then imm else bit_or imm 0xffff0000

pub format_extra : Format → ℕ → ℕ
format_extra ifmt value = sign_extended (bit_and value 0xffff)
format_extra rfmt value = bit_and (value / 2 ^ 6) 0x1f
format_extra jfmt value = bit_and value 0x3ffffff

-- The second step, for the instructions that the main table does not name.
unfoldable pub further_op : Op → ℕ → Op
further_op special value = get_or special_table (bit_and value 0x3f) res
further_op bcond value =
    let i = bit_and value 0x1f0000 in
    if i == 0
    then bltz
    else if i == 0x10000
    then bgez
    else if i == 0x100000
    then bltzal
    else if i == 0x110000
    then bgezal
    else unimp
further_op op value = op

pub decode : ℕ → Instruction
decode value =
    let (op, format) = get_or op_table (bit_and (value / 2 ^ 26) 0x3f) (res, ifmt) in
    record {
      value = value;
      op_code = further_op op value;
      rs = bit_and (value / 2 ^ 21) 0x1f;
      rt = bit_and (value / 2 ^ 16) 0x1f;
      rd = bit_and (value / 2 ^ 11) 0x1f;
      extra = format_extra format value;
    }

-- ===== src/Machine/Instruction/Fields.antt =====
-- What `Decode` finds in a word that an assembler wrote.
use cs107_nach_os.Common.{
  ℕ, ◌+◌, ◌-◌, ◌*◌, ◌/◌, ◌%◌, ◌^◌, ◌<◌, ◌≡◌, refl, ◌∙◌, bit_and, bit_or, if◌then◌else◌, get_or,
  arith, ltb, ap,
}
use cs107_nach_os.Common.Bits.{bit_and-ones, bit_and-top, bit_or-disjoint, bit_or_comm}
use cs107_nach_os.Common.Int.{ℤ, pos, negsuc}
use cs107_nach_os.Common.Words.{IsWord, to_ℤ}
use cs107_nach_os.Machine.Instruction.{
  Op, Format, ifmt, rfmt, jfmt, op_table, special_table, sign_extended, format_extra, further_op,
  decode,
}

-- The three layouts of an instruction word.
abbrev pub encode_i : ℕ → ℕ → ℕ → ℕ → ℕ
encode_i op rs rt imm = op * 2 ^ 26 + rs * 2 ^ 21 + rt * 2 ^ 16 + imm

abbrev pub encode_r : ℕ → ℕ → ℕ → ℕ → ℕ → ℕ
encode_r rs rt rd shamt funct = rs * 2 ^ 21 + rt * 2 ^ 16 + rd * 2 ^ 11 + shamt * 2 ^ 6 + funct

abbrev pub encode_j : ℕ → ℕ → ℕ
encode_j op target = op * 2 ^ 26 + target

field_five : (x : ℕ) → bit_and x 0x1f ≡ x % 32
field_five x = bit_and-ones 5 x

field_six : (x : ℕ) → bit_and x 0x3f ≡ x % 64
field_six x = bit_and-ones 6 x

field_half : (x : ℕ) → bit_and x 0xffff ≡ x % 2 ^ 16
field_half x = bit_and-ones 16 x

field_target : (x : ℕ) → bit_and x 0x3ffffff ≡ x % 2 ^ 26
field_target x = bit_and-ones 26 x

-- The number that 16 bits stand for.
abbrev pub half_to_ℤ : ℕ → ℤ
half_to_ℤ imm = if ltb imm (2 ^ 15) then pos imm else negsuc (2 ^ 16 - imm - 1)

or_high : (imm : ℕ) → imm < 2 ^ 16 → bit_or imm 0xffff0000 ≡ imm + 0xffff0000
or_high imm h = bit_or_comm imm 0xffff0000 ∙ bit_or-disjoint 16 0xffff imm h ∙ omega arith

pub sign_extended-half :
    (imm : ℕ)
    → imm < 2 ^ 16
    → IsWord (sign_extended imm) × (to_ℤ (sign_extended imm) ≡ half_to_ℤ imm)
unfolding sign_extended
sign_extended-half imm h = ground (arith, bit_and-top 15 imm h, or_high imm h)

-- Decode of an immediate instruction whose opcode the table gives the immediate format finds the
-- two registers, the sign-extended immediate and the operation again.
decode-encode_i :
    (op rs rt imm : ℕ) (o : Op)
    → op < 64
    → rs < 32
    → rt < 32
    → imm < 2 ^ 16
    → get_or op_table op (Op.res, ifmt) ≡ (o, ifmt)
    → let i = decode (encode_i op rs rt imm) in
      (i.rs ≡ rs)
      × (i.rt ≡ rt)
      × (to_ℤ i.extra ≡ half_to_ℤ imm)
      × (i.op_code ≡ further_op o (encode_i op rs rt imm))
unfolding decode format_extra
decode-encode_i op rs rt imm o a b c d e =
    let w = encode_i op rs rt imm in
    let f : bit_and (w / 2 ^ 26) 0x3f ≡ op = field_six (w / 2 ^ 26) ∙ omega arith in
    let g : bit_and w 0xffff ≡ imm = field_half w ∙ omega arith in
    rw (f, e)
      (
        field_five (w / 2 ^ 21) ∙ omega arith,
        field_five (w / 2 ^ 16) ∙ omega arith,
        rw g (sign_extended-half imm d).1,
        refl,
      )

-- Decode of a SPECIAL instruction finds the three registers, the shift amount and the operation of
-- its function field again.
decode-encode_r :
    (rs rt rd shamt funct : ℕ)
    → rs < 32
    → rt < 32
    → rd < 32
    → shamt < 32
    → funct < 64
    → let i = decode (encode_r rs rt rd shamt funct) in
      (i.rs ≡ rs)
      × (i.rt ≡ rt)
      × (i.rd ≡ rd)
      × (i.extra ≡ shamt)
      × (i.op_code ≡ get_or special_table funct Op.res)
unfolding decode format_extra op_table further_op
decode-encode_r rs rt rd shamt funct a b c d e =
    let w = encode_r rs rt rd shamt funct in
    let f : bit_and (w / 2 ^ 26) 0x3f ≡ 0 = field_six (w / 2 ^ 26) ∙ omega arith in
    let g : bit_and w 0x3f ≡ funct = field_six w ∙ omega arith in
    rw f (
      field_five (w / 2 ^ 21) ∙ omega arith,
      field_five (w / 2 ^ 16) ∙ omega arith,
      field_five (w / 2 ^ 11) ∙ omega arith,
      field_five (w / 2 ^ 6) ∙ omega arith,
      ap (λ (t : ℕ). get_or special_table t Op.res) g,
    )

-- Decode of a jump whose opcode the table gives the jump format finds the 26-bit target and the
-- operation again.
decode-encode_j :
    (op target : ℕ) (o : Op)
    → op < 64
    → target < 2 ^ 26
    → get_or op_table op (Op.res, ifmt) ≡ (o, jfmt)
    → let i = decode (encode_j op target) in
      (i.extra ≡ target) × (i.op_code ≡ further_op o (encode_j op target))
unfolding decode format_extra
decode-encode_j op target o a b e =
    let w = encode_j op target in
    let f : bit_and (w / 2 ^ 26) 0x3f ≡ op = field_six (w / 2 ^ 26) ∙ omega arith in
    rw (f, e) (field_target w ∙ omega arith, refl)

format_extra-IsWord : (f : Format) (w : ℕ) → IsWord (format_extra f w)
unfolding format_extra
format_extra-IsWord ifmt w = (sign_extended-half (bit_and w 0xffff) (omega (arith, field_half w))).0
format_extra-IsWord rfmt w = omega (arith, field_five (w / 2 ^ 6))
format_extra-IsWord jfmt w = omega (arith, field_target w)

-- Nor a register number out of range, nor an `extra` that is no word.
pub decode_bounds :
    (w : ℕ) → let i = decode w in (i.rs < 32) × (i.rt < 32) × (i.rd < 32) × IsWord i.extra
unfolding decode
decode_bounds w = (
  omega (arith, field_five (w / 2 ^ 21)),
  omega (arith, field_five (w / 2 ^ 16)),
  omega (arith, field_five (w / 2 ^ 11)),
  format_extra-IsWord _ w,
)

-- ===== src/Bytecode/Decode/RoundTrip.antt =====
-- What the emitters write is what the decoder reads.
use loxis_programming_langua.Prelude.{
  ℕ, zero, suc, ◌+◌, ◌/◌, ◌%◌, ◌*◌, ◌^◌, ◌<◌, ◌≤◌, false, List, [], ◌∷◌, ◌++◌, some, ◌≡◌, ◌≢◌, refl,
  ap, inl, inr, arith, ltb, leb, ◌==◌, Bool-cases, length, length-append,
}
use mathlib.Core.List.{append_assoc}
use loxis_programming_langua.Bytecode.OpCode.{OpCode, to_byte, of_byte-to_byte}
use loxis_programming_langua.Bytecode.Emit.{
  Bytes, tag_addr, Operand, emit_u32, emit_i64, emit_reg, emit_operand, emit_operands, Instr,
  emit_instr, emit_code,
}
use loxis_programming_langua.Bytecode.Decode.{
  OperandTag, DecodedOperand, DecodedInstr, int_operand, str_operand, with_value, operand_count_for,
  read_u32, read_u64, decode_operand_at, decode_operands, decoded, Step, step_operands, decode_step,
  offset_after, decode_from, decode_bytecode,
}

-- The values that an operand of each kind can carry.
abbrev pub Fits : Operand → Type 0
Fits (Operand.reg r) = r < 4096
Fits (Operand.imm64 v) = v < 2 ^ 64
Fits (Operand.float64 v) = v < 2 ^ 64
Fits (Operand.str_idx i) = i < 2 ^ 32
Fits (Operand.addr a) = a < 2 ^ 32
Fits Operand.null = Unit

abbrev pub AllFit : List Operand → Type 0
AllFit [] = Unit
AllFit (x ∷ xs) = Fits x × AllFit xs

-- The operand as the decoder reports it.
unfoldable pub as_decoded : Operand → DecodedOperand
as_decoded (Operand.reg r) = int_operand OperandTag.reg r
as_decoded (Operand.imm64 v) = int_operand OperandTag.imm64 v
as_decoded (Operand.float64 v) = int_operand OperandTag.float64 v
as_decoded (Operand.str_idx i) = str_operand i
as_decoded (Operand.addr a) = int_operand OperandTag.addr a
as_decoded Operand.null = int_operand OperandTag.null 0

unfoldable pub all_decoded : List Operand → List DecodedOperand
all_decoded [] = []
all_decoded (x ∷ xs) = as_decoded x ∷ all_decoded xs

read_u32-emit_u32 :
    (v : ℕ) (rest : Bytes) → v < 2 ^ 32 → read_u32 (emit_u32 v ++ rest) ≡ some (v, rest)
unfolding read_u32 emit_u32
read_u32-emit_u32 v rest h = ap (λ (n : ℕ). some (n, rest)) (omega arith)

read_u64-emit_i64 :
    (v : ℕ) (rest : Bytes) → v < 2 ^ 64 → read_u64 (emit_i64 v ++ rest) ≡ some (v, rest)
unfolding read_u64 emit_i64
read_u64-emit_i64 v rest h = ap (λ (n : ℕ). some (n, rest)) (omega arith)

decode_operand_at-emit_reg :
    (r : ℕ) (rest : Bytes)
    → r < 4096
    → decode_operand_at (emit_reg r ++ rest) ≡ some (int_operand OperandTag.reg r, rest)
unfolding decode_operand_at emit_reg
decode_operand_at-emit_reg r rest h = elim (Bool-cases (ltb r 256)) [
  | inl narrow ↦
      rw narrow (ap (λ (n : ℕ). some (int_operand OperandTag.reg n, rest)) (ground arith))
  | inr wide ↦ rw wide (
      let e : r % 256 + r / 256 % 256 * 2 ^ 8 ≡ r = omega arith in
      let f : leb 4096 r ≡ false = ground arith in rw e (rw f))
]

decode_operand_at-emit_operand :
    (x : Operand) (rest : Bytes)
    → Fits x
    → decode_operand_at (emit_operand x ++ rest) ≡ some (as_decoded x, rest)
unfolding decode_operand_at emit_operand as_decoded
decode_operand_at-emit_operand (Operand.reg r) rest h = decode_operand_at-emit_reg r rest h
decode_operand_at-emit_operand (Operand.imm64 v) rest h =
    ap (with_value (int_operand OperandTag.imm64)) (read_u64-emit_i64 v rest h)
decode_operand_at-emit_operand (Operand.float64 v) rest h =
    ap (with_value (int_operand OperandTag.float64)) (read_u64-emit_i64 v rest h)
decode_operand_at-emit_operand (Operand.str_idx i) rest h =
    ap (with_value str_operand) (read_u32-emit_u32 i rest h)
decode_operand_at-emit_operand (Operand.addr a) rest h =
    ap (with_value (int_operand OperandTag.addr)) (read_u32-emit_u32 a rest h)
decode_operand_at-emit_operand Operand.null rest h = refl

-- What must hold of the operands for the decoder's count to be theirs. A `skip` is followed by an
-- address or by nothing, and the byte of `pushr` is the address tag.
abbrev pub NoPushR : List Instr → Type 0
NoPushR [] = Unit
NoPushR (i ∷ is) = i.op ≢ OpCode.push_r

abbrev pub HasOperands : OpCode → List Operand → List Instr → Type 0
HasOperands OpCode.skip [] is = NoPushR is
HasOperands OpCode.skip (Operand.addr a ∷ []) is = Unit
HasOperands OpCode.skip _ is = ⊥
HasOperands op xs is = operand_count_for op [] ≡ some (length xs)

abbrev pub CodeFits : List Instr → Type 0
CodeFits [] = Unit
CodeFits (i ∷ is) = HasOperands i.op i.operands is × AllFit i.operands × CodeFits is

to_byte-eq-tag_addr : (op : OpCode) → to_byte op ≡ tag_addr → op ≡ OpCode.push_r
unfolding to_byte
to_byte-eq-tag_addr OpCode.push_r h = refl
to_byte-eq-tag_addr OpCode.nop h = absurd (omega arith)
to_byte-eq-tag_addr _ h = absurd (omega arith)

skip_count :
    (xs : List Operand) (is : List Instr)
    → HasOperands OpCode.skip xs is
    → operand_count_for OpCode.skip (emit_operands xs ++ emit_code is) ≡ some (length xs)
unfolding operand_count_for emit_operands emit_operand emit_code emit_instr
skip_count [] [] h = refl
skip_count [] (i ∷ is) h = elim (Bool-cases (to_byte i.op == tag_addr)) [
  | inl e ↦ absurd (h (to_byte-eq-tag_addr i.op (ground arith)))
  | inr e ↦ rw e
]
skip_count (Operand.addr a ∷ []) is h = refl
skip_count (Operand.addr a ∷ x ∷ xs) is h = absurd h
skip_count (_ ∷ xs) is h = absurd h

operand_count_lem :
    (op : OpCode) (xs : List Operand) (is : List Instr)
    → HasOperands op xs is
    → operand_count_for op (emit_operands xs ++ emit_code is) ≡ some (length xs)
unfolding operand_count_for
operand_count_lem OpCode.skip xs is h = skip_count xs is h
operand_count_lem OpCode.nop xs is h = h
operand_count_lem _ xs is h = h

decode_operands-emit_operands :
    (xs : List Operand) (rest : Bytes)
    → AllFit xs
    → decode_operands (length xs) (emit_operands xs ++ rest) ≡ some (all_decoded xs, rest)
unfolding decode_operands emit_operands all_decoded
decode_operands-emit_operands [] rest h = refl
decode_operands-emit_operands (x ∷ xs) rest h = rw (
  append_assoc,
  decode_operand_at-emit_operand x (emit_operands xs ++ rest) h.0,
  decode_operands-emit_operands xs rest h.1,
  decode_operands,
)

-- The instructions as the decoder lists them, from offset `ip` on.
unfoldable pub as_instrs : ℕ → List Instr → List DecodedInstr
as_instrs ip [] = []
as_instrs ip (i ∷ is) =
    record { op = i.op; byte_offset = ip; operands = all_decoded i.operands }
    ∷ as_instrs (ip + length (emit_instr i)) is

decode_step-emit_instr :
    (ip : ℕ) (i : Instr) (is : List Instr)
    → HasOperands i.op i.operands is
    → AllFit i.operands
    → decode_step ip (to_byte i.op) (emit_operands i.operands ++ emit_code is)
      ≡ Step.instr
          (record { op = i.op; byte_offset = ip; operands = all_decoded i.operands })
          (emit_code is)
unfolding decode_step
decode_step-emit_instr ip i is h f = rw (
  of_byte-to_byte i.op,
  operand_count_lem i.op i.operands is h,
  decode_operands-emit_operands i.operands (emit_code is) f,
  step_operands,
)

decode_from-emit_code :
    (fuel ip : ℕ) (is : List Instr)
    → CodeFits is
    → length (emit_code is) ≤ fuel
    → decode_from fuel ip (emit_code is) ≡ decoded (as_instrs ip is)
unfolding decode_from emit_code emit_instr as_instrs
decode_from-emit_code fuel ip [] h le = refl
decode_from-emit_code zero ip (i ∷ is) h le = absurd (omega arith)
decode_from-emit_code (suc fuel) ip (i ∷ is) h le =
    let xs = emit_operands i.operands in
    let rest = emit_code is in
    let far : offset_after ip (xs ++ rest) rest ≡ ip + suc (length xs) =
      omega (arith, length-append xs rest) in
    let near : length rest ≤ fuel = omega (arith, length-append xs rest, le) in
    rw (decode_step-emit_instr ip i is h.0 h.1, decode_from)
      (rw (far, decode_from-emit_code fuel (ip + suc (length xs)) is h.2 near))

-- Decoding emitted code gives back the instructions, with their operands and byte offsets, if each
-- operand is in the range of its encoding, each instruction has the operands that its opcode
-- takes, and no `skip` without an address stands right before a `pushr`.
pub decode_bytecode-emit_code :
    (is : List Instr) → CodeFits is → decode_bytecode (emit_code is) ≡ decoded (as_instrs 0 is)
unfolding decode_bytecode
decode_bytecode-emit_code is h = decode_from-emit_code (length (emit_code is)) 0 is h (omega arith)

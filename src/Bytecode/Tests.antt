-- ===== src/Bytecode/Tests.antt =====
-- A short program, encoded and decoded.
use loxis_programming_langua.Prelude.{List, [], ◌∷◌, ◌≡◌, ◌≢◌, refl, arith}
use loxis_programming_langua.Bytecode.OpCode.{OpCode}
use loxis_programming_langua.Bytecode.Emit.{Instr, Operand, emit_code}
use loxis_programming_langua.Bytecode.Decode.{
  decode_bytecode, decoded, out_of_fuel, operand_count_for,
}
use loxis_programming_langua.Bytecode.Decode.RoundTrip.{
  CodeFits, as_instrs, decode_bytecode-emit_code,
}
use loxis_programming_langua.Bytecode.Decode.Offsets.{
  AllStand, Ascending, decode_bytecode_offsets, decode_bytecode-ne-out_of_fuel,
}

-- `push r300, 7`, `skip` with an address, `pushr r2`, `halt`.
abbrev program : List Instr
program =
    record { op = OpCode.push; operands = Operand.reg 300 ∷ Operand.imm64 7 ∷ [] }
    ∷ record { op = OpCode.skip; operands = Operand.addr 70000 ∷ [] }
    ∷ record { op = OpCode.push_r; operands = Operand.reg 2 ∷ [] }
    ∷ record { op = OpCode.halt; operands = [] }
    ∷ []

program-CodeFits : CodeFits program
unfolding operand_count_for
program-CodeFits = (
  refl,
  (omega arith, (omega arith, tt)),
  (tt, (omega arith, tt), (refl, (omega arith, tt), (refl, tt, tt))),
)

decode_bytecode-emit_code_example :
    decode_bytecode (emit_code program) ≡ decoded (as_instrs 0 program)
decode_bytecode-emit_code_example = decode_bytecode-emit_code program program-CodeFits

decode_bytecode_offsets_example :
    AllStand 0 (emit_code program) (as_instrs 0 program) × Ascending 0 (as_instrs 0 program)
decode_bytecode_offsets_example =
    decode_bytecode_offsets (emit_code program) (as_instrs 0 program)
      (decode_bytecode-emit_code program program-CodeFits)

decode_bytecode-ne-out_of_fuel_example : decode_bytecode (emit_code program) ≢ out_of_fuel
decode_bytecode-ne-out_of_fuel_example = decode_bytecode-ne-out_of_fuel (emit_code program)

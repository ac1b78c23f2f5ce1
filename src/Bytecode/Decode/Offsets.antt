-- ===== src/Bytecode/Decode/Offsets.antt =====
-- Where the decoded instructions stand, and that the decoder stops.
use loxis_programming_langua.Prelude.{
  ℕ, zero, suc, ◌+◌, ◌≤◌, Bool, List, [], ◌∷◌, ◌++◌, Option, none, some, ◌≡◌, ◌≢◌, refl, ap, ◌∙◌,
  arith, ◌==◌, Option-cases, inl, inr, if◌then◌else◌, true, false, get_elem?, length, length-append,
}
use mathlib.Core.List.{append_assoc}
use loxis_programming_langua.Bytecode.OpCode.{OpCode, of_byte}
use loxis_programming_langua.Bytecode.Emit.{
  Bytes, tag_addr, tag_reg, tag_imm64, tag_str_idx, tag_null, tag_float64, tag_wide_reg,
}
use loxis_programming_langua.Bytecode.Decode.{
  DecodedOperand, DecodedInstr, with_value, operand_count_for, read_u32, read_u64, decode_wide,
  decode_narrow, decode_tagged, decode_operand_at, decode_operands, Decoded, decoded, out_of_fuel,
  unknown_opcode, malformed_operand, cons_instr, Step, step_op, step_operands, decode_step,
  offset_after, decode_from, decode_bytecode,
}

-- `rest` is what is left of `bytes` behind some of them.
abbrev Leaves : Bytes → Bytes → Type 0
Leaves bytes rest = (read : Bytes) × (bytes ≡ read ++ rest)

Leaves-trans : {a b c : Bytes} → Leaves a b → Leaves b c → Leaves a c
Leaves-trans (p, e) (q, f) = (p ++ q, rw (append_assoc, e, f))

read_u32-Leaves :
    (bytes : Bytes) {v : ℕ} {rest : Bytes} → read_u32 bytes ≡ some (v, rest) → Leaves bytes rest
unfolding read_u32
read_u32-Leaves (a ∷ b ∷ c ∷ d ∷ r) h = (a ∷ b ∷ c ∷ d ∷ [], cc)
read_u32-Leaves _ h = cc

read_u64-Leaves :
    (bytes : Bytes) {v : ℕ} {rest : Bytes} → read_u64 bytes ≡ some (v, rest) → Leaves bytes rest
unfolding read_u64
read_u64-Leaves (a ∷ b ∷ c ∷ d ∷ e ∷ f ∷ g ∷ i ∷ r) h =
    (a ∷ b ∷ c ∷ d ∷ e ∷ f ∷ g ∷ i ∷ [], ap (λ t. a ∷ b ∷ c ∷ d ∷ e ∷ f ∷ g ∷ i ∷ t) cc)
read_u64-Leaves _ h = cc

decode_wide-Leaves :
    (bytes : Bytes) {x : DecodedOperand} {rest : Bytes}
    → decode_wide bytes ≡ some (x, rest)
    → Leaves bytes rest
unfolding decode_wide
decode_wide-Leaves (lo ∷ hi ∷ r) h = (lo ∷ hi ∷ [], ground arith)
decode_wide-Leaves _ h = cc

decode_narrow-Leaves :
    (bytes : Bytes) {x : DecodedOperand} {rest : Bytes}
    → decode_narrow bytes ≡ some (x, rest)
    → Leaves bytes rest
unfolding decode_narrow
decode_narrow-Leaves (lo ∷ r) h = (lo ∷ [], ground arith)
decode_narrow-Leaves _ h = cc

-- Whatever `o` returns is left of `bytes`.
abbrev Reads {ℓ} : {A : Type ℓ} → Bytes → Option (A × Bytes) → Type ℓ
Reads {A = A} bytes o = (x : A) (rest : Bytes) → o ≡ some (x, rest) → Leaves bytes rest

if-Reads {ℓ} :
    {A : Type ℓ} (b : Bool) {bytes : Bytes} (o p : Option (A × Bytes))
    → Reads bytes o
    → Reads bytes p
    → Reads bytes (if b then o else p)
if-Reads true o p f g = f
if-Reads false o p f g = g

with_value-Reads :
    (f : ℕ → DecodedOperand) (o : Option (ℕ × Bytes)) {bytes : Bytes}
    → Reads bytes o
    → Reads bytes (with_value f o)
with_value-Reads f none k x rest h = cc
with_value-Reads f (some (v, r)) k x rest h = k v rest (ap (λ (t : Bytes). some (v, t)) cc)

decode_tagged-Reads : (tag : ℕ) (bytes : Bytes) → Reads bytes (decode_tagged tag bytes)
unfolding decode_tagged
decode_tagged-Reads tag bytes =
    if-Reads (tag == tag_wide_reg) _ _ (λ x r h. decode_wide-Leaves bytes h)
      (if-Reads (tag == tag_reg) _ _ (λ x r h. decode_narrow-Leaves bytes h)
        (if-Reads (tag == tag_null) _ _ (λ x r h. ([], ground arith))
          (if-Reads (tag == tag_float64) _ _ (with_value-Reads _ _ u64) (
            if-Reads (tag == tag_imm64) _ _ (with_value-Reads _ _ u64) (
              if-Reads (tag == tag_str_idx) _ _ (with_value-Reads _ _ u32)
                (if-Reads (tag == tag_addr) _ _ (with_value-Reads _ _ u32) (λ x r h. cc)))))))
  where
    u64 : Reads bytes (read_u64 bytes)
    u64 v r h = read_u64-Leaves bytes h

    u32 : Reads bytes (read_u32 bytes)
    u32 v r h = read_u32-Leaves bytes h

decode_operand_at-Reads : (bytes : Bytes) → Reads bytes (decode_operand_at bytes)
unfolding decode_operand_at
decode_operand_at-Reads [] x rest h = cc
decode_operand_at-Reads (t ∷ bytes) x rest h =
    let (read, e) = decode_tagged-Reads t bytes x rest h in (t ∷ read, ap (λ l. t ∷ l) e)

decode_operands-Reads : (n : ℕ) (bytes : Bytes) → Reads bytes (decode_operands n bytes)
unfolding decode_operands
decode_operands-Reads zero bytes xs rest h = ([], ground arith)
decode_operands-Reads (suc n) bytes xs rest h = elim (Option-cases (decode_operand_at bytes)) [
  | inl e ↦ absurd (ground arith)
  | inr ((x, mid), e) ↦ elim (Option-cases (decode_operands n mid)) [
    | inl e' ↦ absurd (ground arith)
    | inr ((ys, rest'), e') ↦
        Leaves-trans (decode_operand_at-Reads bytes x mid e)
          (decode_operands-Reads n mid ys rest (ground arith))
  ]
]

-- One round reads the opcode at `ip` and leaves a tail of the bytes behind it.
abbrev Steps : ℕ → ℕ → Bytes → Step → Type 0
Steps ip b bytes (Step.instr i rest) =
    (i.byte_offset ≡ ip) × (of_byte b ≡ some i.op) × Leaves bytes rest
Steps ip b bytes _ = Unit

step_operands-Steps :
    (o : OpCode) (ip b : ℕ) (n : Option ℕ) (bytes : Bytes)
    → of_byte b ≡ some o
    → Steps ip b bytes (step_operands o ip n bytes)
unfolding step_operands
step_operands-Steps o ip b none bytes e = tt
step_operands-Steps o ip b (some n) bytes e = elim (Option-cases (decode_operands n bytes)) [
  | inl none_read ↦ rw (none_read, step_operands) tt
  | inr ((xs, rest), all_read) ↦
      rw (all_read, step_operands) (refl, e, decode_operands-Reads n bytes xs rest all_read)
]

decode_step-Steps : (ip b : ℕ) (bytes : Bytes) → Steps ip b bytes (decode_step ip b bytes)
unfolding decode_step
decode_step-Steps ip b bytes = elim (Option-cases (of_byte b)) [
  | inl e ↦ rw (e, step_op) tt
  | inr (o, e) ↦ rw (e, step_op) (step_operands-Steps o ip b (operand_count_for o bytes) bytes e)
]

-- The byte at the instruction's offset, counted from `ip`, is its opcode.
abbrev pub StandsAt : ℕ → Bytes → DecodedInstr → Type 0
StandsAt ip bytes i =
    (k b : ℕ) × (i.byte_offset ≡ ip + k) × (get_elem? bytes k ≡ some b) × (of_byte b ≡ some i.op)

abbrev pub AllStand : ℕ → Bytes → List DecodedInstr → Type 0
AllStand ip bytes [] = Unit
AllStand ip bytes (i ∷ is) = StandsAt ip bytes i × AllStand ip bytes is

-- The offsets grow strictly, and none is below `ip`.
abbrev pub Ascending : ℕ → List DecodedInstr → Type 0
Ascending ip [] = Unit
Ascending ip (i ∷ is) = (ip ≤ i.byte_offset) × Ascending (suc i.byte_offset) is

get_elem?-behind :
    (read rest : Bytes) (k : ℕ) → get_elem? (read ++ rest) (length read + k) ≡ get_elem? rest k
get_elem?-behind [] rest k = ap (get_elem? rest) (omega arith)
get_elem?-behind (x ∷ read) rest k =
    let e : suc (length read) + k ≡ suc (length read + k) = omega arith in
    rw e (get_elem?-behind read rest k)

AllStand-behind :
    (ip b : ℕ) (read rest : Bytes) (is : List DecodedInstr)
    → AllStand (ip + suc (length read)) rest is
    → AllStand ip (b ∷ (read ++ rest)) is
AllStand-behind ip b read rest [] h = tt
AllStand-behind ip b read rest (i ∷ is) ((k, c, e, f, g), h) = (
  (suc (length read + k), c, omega arith, get_elem?-behind read rest k ∙ f, g),
  AllStand-behind ip b read rest is h,
)

Ascending-weaken : (m n : ℕ) (is : List DecodedInstr) → m ≤ n → Ascending n is → Ascending m is
Ascending-weaken m n [] le h = tt
Ascending-weaken m n (i ∷ is) le h = (omega (arith, h.0), h.1)

abbrev Lies : ℕ → Bytes → Decoded → Type 0
Lies ip bytes (decoded is) = AllStand ip bytes is × Ascending ip is
Lies ip bytes _ = Unit

cons_instr-Lies :
    (ip b : ℕ) (read rest : Bytes) (i : DecodedInstr) (d : Decoded)
    → i.byte_offset ≡ ip
    → of_byte b ≡ some i.op
    → Lies (ip + suc (length read)) rest d
    → Lies ip (b ∷ (read ++ rest)) (cons_instr i d)
cons_instr-Lies ip b read rest i (decoded is) at op (st, asc) = (
  ((0, b, omega arith, refl, op), AllStand-behind ip b read rest is st),
  (omega arith, Ascending-weaken _ _ is (omega arith) asc),
)
cons_instr-Lies ip b read rest i _ at op h = tt

-- The loop behind one round.
abbrev after_step : ℕ → ℕ → Bytes → Step → Decoded
after_step fuel ip bytes (Step.instr i rest) =
    cons_instr i (decode_from fuel (offset_after ip bytes rest) rest)
after_step fuel ip bytes Step.bad_opcode = unknown_opcode ip
after_step fuel ip bytes Step.bad_operand = malformed_operand ip

offset_after-Leaves :
    (ip : ℕ) (read rest : Bytes) → offset_after ip (read ++ rest) rest ≡ ip + suc (length read)
offset_after-Leaves ip read rest = omega (arith, length-append read rest)

after_step-Lies :
    (fuel ip b : ℕ) (bytes : Bytes) (s : Step)
    → ((ip' : ℕ) (rest : Bytes) → Lies ip' rest (decode_from fuel ip' rest))
    → Steps ip b bytes s
    → Lies ip (b ∷ bytes) (after_step fuel ip bytes s)
after_step-Lies fuel ip b bytes (Step.instr i rest) ih (at, op, (read, e)) =
    rw (e, offset_after-Leaves ip read rest)
      (cons_instr-Lies ip b read rest i _ at op (ih (ip + suc (length read)) rest))
after_step-Lies fuel ip b bytes Step.bad_opcode ih h = tt
after_step-Lies fuel ip b bytes Step.bad_operand ih h = tt

decode_from-after_step :
    (fuel ip b : ℕ) (bytes : Bytes)
    → decode_from (suc fuel) ip (b ∷ bytes) ≡ after_step fuel ip bytes (decode_step ip b bytes)
unfolding decode_from
decode_from-after_step fuel ip b bytes = go (decode_step ip b bytes) refl
  where
    go :
        (s : Step)
        → decode_step ip b bytes ≡ s
        → decode_from (suc fuel) ip (b ∷ bytes) ≡ after_step fuel ip bytes s
    go (Step.instr i rest) e = rw (e, decode_from)
    go Step.bad_opcode e = rw (e, decode_from)
    go Step.bad_operand e = rw (e, decode_from)

decode_from-Lies : (fuel ip : ℕ) (bytes : Bytes) → Lies ip bytes (decode_from fuel ip bytes)
decode_from-Lies fuel ip [] = unfold decode_from in (tt, tt)
decode_from-Lies zero ip (b ∷ bytes) = unfold decode_from in tt
decode_from-Lies (suc fuel) ip (b ∷ bytes) =
    rw (decode_from-after_step fuel ip b bytes)
      (after_step-Lies fuel ip b bytes _ (decode_from-Lies fuel) (decode_step-Steps ip b bytes))

-- Where decoding succeeds, each instruction's offset is that of a byte of the code, and that byte is
-- its opcode; the offsets grow strictly.
pub decode_bytecode_offsets :
    (code : Bytes) (is : List DecodedInstr)
    → decode_bytecode code ≡ decoded is
    → AllStand 0 code is × Ascending 0 is
unfolding decode_bytecode
decode_bytecode_offsets code is h = rw h at (decode_from-Lies (length code) 0 code)

cons_instr-ne-out_of_fuel :
    (i : DecodedInstr) (d : Decoded) → d ≢ out_of_fuel → cons_instr i d ≢ out_of_fuel
cons_instr-ne-out_of_fuel i (decoded is) h = cc
cons_instr-ne-out_of_fuel i out_of_fuel h = λ _. h refl
cons_instr-ne-out_of_fuel i _ h = cc

after_step-ne-out_of_fuel :
    (fuel ip b : ℕ) (bytes : Bytes) (s : Step)
    → length bytes ≤ fuel
    → ((ip' : ℕ) (rest : Bytes) → length rest ≤ fuel → decode_from fuel ip' rest ≢ out_of_fuel)
    → Steps ip b bytes s
    → after_step fuel ip bytes s ≢ out_of_fuel
after_step-ne-out_of_fuel fuel ip b bytes (Step.instr i rest) le ih (at, op, (read, e)) =
    cons_instr-ne-out_of_fuel i _
      (ih _ rest (omega (arith, ap length e, length-append read rest, le)))
after_step-ne-out_of_fuel fuel ip b bytes Step.bad_opcode le ih h = cc
after_step-ne-out_of_fuel fuel ip b bytes Step.bad_operand le ih h = cc

decode_from-ne-out_of_fuel :
    (fuel ip : ℕ) (bytes : Bytes) → length bytes ≤ fuel → decode_from fuel ip bytes ≢ out_of_fuel
decode_from-ne-out_of_fuel fuel ip [] le = unfold decode_from in cc
decode_from-ne-out_of_fuel zero ip (b ∷ bytes) le = absurd (omega arith)
decode_from-ne-out_of_fuel (suc fuel) ip (b ∷ bytes) le =
    rw (decode_from-after_step fuel ip b bytes) (
      after_step-ne-out_of_fuel fuel ip b bytes _ (omega (arith, le))
        (decode_from-ne-out_of_fuel fuel) (decode_step-Steps ip b bytes))

-- The decoder's loop ends on every input.
pub decode_bytecode-ne-out_of_fuel : (code : Bytes) → decode_bytecode code ≢ out_of_fuel
unfolding decode_bytecode
decode_bytecode-ne-out_of_fuel code = decode_from-ne-out_of_fuel (length code) 0 code (omega arith)

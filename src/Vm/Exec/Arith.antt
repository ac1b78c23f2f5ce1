-- ===== src/Vm/Exec/Arith.antt =====
-- The opcodes of `execJitInstruction` for arithmetic and comparison.
pub mod Keeps
use Prim.Native.Nat.{bit_and, bit_or, bit_xor}
use loxis_programming_langua.Prelude.{
  ℕ, ◌+◌, ◌%◌, ◌^◌, Bool, true, false, ◌&&◌, ◌||◌, List, [], ◌∷◌, ◌++◌, Option, none, some, ltb,
  ◌==◌, if◌then◌else◌, get_elem?,
}
use loxis_programming_langua.Heap.State.{tag_str, tag_float, tag_null}
use loxis_programming_langua.Bytecode.Emit.{Bytes}
use loxis_programming_langua.Bytecode.Decode.{DecodedOperand, OperandTag}
use loxis_programming_langua.Lexer.Token.{bytes_eq, codes}
use loxis_programming_langua.Vm.Data.{Value, int_value, handle_of, Machine, Host, Vm}
use loxis_programming_langua.Vm.Action.{
  Action, panicked, undefined, pure, stop, gets, or_stop, modify, ◌>>=◌, ◌>>◌,
}
use loxis_programming_langua.Vm.Roots.{read_reg, set_reg}
use loxis_programming_langua.Vm.Unwind.{raise_runtime, intern_runtime_string, string_at}
use loxis_programming_langua.Vm.Words.{
  signed_lt, signed_add, signed_sub, signed_mul, signed_div, signed_rem, shift_left, shift_right,
  quotient_overflows,
}
use loxis_programming_langua.Vm.Exec.{Operands, operand, reg_of, read_int_operand, next_ip}

abbrev pub float_value : ℕ → Value
float_value n = record { value = n; tag = tag_float }

-- `std::string`'s order on bytes.
unfoldable pub bytes_lt : Bytes → Bytes → Bool
bytes_lt [] [] = false
bytes_lt [] (_ ∷ _) = true
bytes_lt (_ ∷ _) [] = false
bytes_lt (x ∷ xs) (y ∷ ys) = if x == y then bytes_lt xs ys else ltb x y

module _ {G : Type 0} (m : Machine G) (os : Operands) where
  -- `readStringOperand`.
  pool_string : DecodedOperand → OperandTag → Vm G → Action G Bytes
  pool_string o OperandTag.str_idx s = or_stop (get_string o) panicked
    where
      get_string : DecodedOperand → Option Bytes
      get_string o = get_elem? m.program.strings o.str_idx
  pool_string o OperandTag.reg s = do
    v ← read_reg (reg_of o)
    if v.tag == tag_str
        then or_stop (string_at m.program s (handle_of v)) panicked
        else stop panicked
  pool_string o _ s = stop panicked

  unfoldable pub read_string_operand : DecodedOperand → Action G Bytes
  unfolding pool_string
  read_string_operand o = do s ← gets (λ s. s); pool_string o o.tag s

  -- `Sub`, `Mul`, `BitAnd`, `BitOr` and `BitXor`: source, operand, destination.
  unfoldable pub exec_binary : (ℕ → ℕ → ℕ) → Action G Unit
  exec_binary f = do
    o0 ← operand os 0
    o1 ← operand os 1
    o2 ← operand os 2
    y ← read_int_operand o1
    x ← read_reg (reg_of o0)
    set_reg m.backend (reg_of o2) (int_value (f x.value y))
    next_ip

  unfoldable pub exec_sub : Action G Unit
  unfolding exec_binary
  exec_sub = exec_binary signed_sub

  unfoldable pub exec_mul : Action G Unit
  unfolding exec_binary
  exec_mul = exec_binary signed_mul

  unfoldable pub exec_bit_and : Action G Unit
  unfolding exec_binary
  exec_bit_and = exec_binary bit_and

  unfoldable pub exec_bit_or : Action G Unit
  unfolding exec_binary
  exec_bit_or = exec_binary bit_or

  unfoldable pub exec_bit_xor : Action G Unit
  unfolding exec_binary
  exec_bit_xor = exec_binary bit_xor

  -- `Shl` and `Shr`, undefined for a shift out of range.
  unfoldable pub exec_shift : (ℕ → ℕ → Option ℕ) → Action G Unit
  exec_shift f = do
    o0 ← operand os 0
    o1 ← operand os 1
    y ← read_int_operand o1
    o2 ← operand os 2
    x ← read_reg (reg_of o0)
    r ← or_stop (f x.value y) undefined
    set_reg m.backend (reg_of o2) (int_value r)
    next_ip

  unfoldable pub exec_shl : Action G Unit
  unfolding exec_shift
  exec_shl = exec_shift shift_left

  unfoldable pub exec_shr : Action G Unit
  unfolding exec_shift
  exec_shr = exec_shift shift_right

  -- `Div` and `Rem` throw at 0; the smallest integer by -1 has no quotient.
  unfoldable pub exec_divide : (ℕ → ℕ → ℕ) → Bytes → Action G Unit
  exec_divide f error = do
    o0 ← operand os 0
    o1 ← operand os 1
    o2 ← operand os 2
    y ← read_int_operand o1
    if y == 0 then raise_runtime m error else pure tt
    x ← read_reg (reg_of o0)
    if quotient_overflows x.value y then stop undefined else pure tt
    set_reg m.backend (reg_of o2) (int_value (f x.value y))
    next_ip

  unfoldable pub exec_div : Action G Unit
  unfolding exec_divide
  exec_div = exec_divide signed_div (codes "division by zero")

  unfoldable pub exec_rem : Action G Unit
  unfolding exec_divide
  exec_rem = exec_divide signed_rem (codes "remainder by zero")

  -- `Add` joins two strings, and adds what is no pair of strings; the destination comes first.
  add_ints : DecodedOperand → Value → DecodedOperand → Action G Unit
  add_ints dst x val = do
    y ← read_int_operand val
    set_reg m.backend (reg_of dst) (int_value (signed_add x.value y))
    next_ip

  join : DecodedOperand → DecodedOperand → DecodedOperand → Action G Unit
  join dst src val = do
    lhs ← read_string_operand src
    rhs ← read_string_operand val
    i ← intern_runtime_string (lhs ++ rhs)
    set_reg m.backend (reg_of dst) (record { value = i; tag = tag_str })
    next_ip

  add_by : DecodedOperand → DecodedOperand → DecodedOperand → Value → OperandTag → Action G Unit
  unfolding join add_ints
  add_by dst src val x OperandTag.reg = do
    y ← read_reg (reg_of val)
    if x.tag == tag_str && y.tag == tag_str then join dst src val else add_ints dst x val
  add_by dst src val x _ = add_ints dst x val

  unfoldable pub exec_add : Action G Unit
  unfolding add_by join add_ints
  exec_add = do
    dst ← operand os 0
    src ← operand os 1
    val ← operand os 2
    x ← read_reg (reg_of src)
    add_by dst src val x val.tag

  -- `FAdd` has its destination first; `FSub`, `FMul` and `FDiv` have it last.
  unfoldable pub exec_f_add : Action G Unit
  exec_f_add = do
    o0 ← operand os 0
    o1 ← operand os 1
    o2 ← operand os 2
    x ← read_reg (reg_of o1)
    y ← read_reg (reg_of o2)
    set_reg m.backend (reg_of o0) (float_value (m.host.float_add x.value y.value))
    next_ip

  unfoldable pub exec_float : (ℕ → ℕ → ℕ) → Action G Unit
  exec_float f = do
    o0 ← operand os 0
    o1 ← operand os 1
    o2 ← operand os 2
    x ← read_reg (reg_of o0)
    y ← read_reg (reg_of o1)
    set_reg m.backend (reg_of o2) (float_value (f x.value y.value))
    next_ip

  unfoldable pub exec_f_sub : Action G Unit
  unfolding exec_float
  exec_f_sub = exec_float m.host.float_sub

  unfoldable pub exec_f_mul : Action G Unit
  unfolding exec_float
  exec_f_mul = exec_float m.host.float_mul

  unfoldable pub exec_f_div : Action G Unit
  unfolding exec_float
  exec_f_div = exec_float m.host.float_div

  -- `ItoF`, `FtoI` and `FNeg`.
  unfoldable pub exec_convert : (ℕ → Value) → Action G Unit
  exec_convert f = do
    o0 ← operand os 0
    o1 ← operand os 1
    x ← read_reg (reg_of o0)
    set_reg m.backend (reg_of o1) (f x.value)
    next_ip

  unfoldable pub exec_i_to_f : Action G Unit
  unfolding exec_convert
  exec_i_to_f = exec_convert (λ x. float_value (m.host.int_to_float x))

  unfoldable pub exec_f_to_i : Action G Unit
  unfolding exec_convert
  exec_f_to_i = exec_convert (λ x. int_value (m.host.float_to_int x))

  unfoldable pub exec_f_neg : Action G Unit
  unfolding exec_convert
  exec_f_neg = exec_convert (λ x. float_value (m.host.float_neg x))

  -- `Cmp` sets the two flags.
  set_flags : Bool → Bool → Action G Unit
  set_flags zero_flag neg_flag =
      modify (λ s. record s { flag_zero = zero_flag; flag_neg = neg_flag })

  abbrev as_float : Value → ℕ
  as_float v = if v.tag == tag_float then v.value else m.host.int_to_float v.value

  compare_strings : DecodedOperand → DecodedOperand → Action G Unit
  compare_strings o0 o1 = do
    s0 ← read_string_operand o0
    s1 ← read_string_operand o1
    set_flags (bytes_eq s0 s1) (bytes_lt s0 s1)

  compare_values : DecodedOperand → DecodedOperand → Value → Value → Action G Unit
  compare_values o0 o1 x y =
      if x.tag == tag_null || y.tag == tag_null
      then set_flags (x.tag == y.tag) false
      else if x.tag == tag_float || y.tag == tag_float
      then set_flags (m.host.float_eq (as_float x) (as_float y))
          (m.host.float_lt (as_float x) (as_float y))
      else if x.tag == tag_str && y.tag == tag_str
      then compare_strings o0 o1
      else set_flags (x.value == y.value) (signed_lt x.value y.value)

  unfoldable pub exec_cmp : Action G Unit
  unfolding compare_values compare_strings set_flags
  exec_cmp = do
    o0 ← operand os 0
    o1 ← operand os 1
    x ← read_reg (reg_of o0)
    y ← read_reg (reg_of o1)
    compare_values o0 o1 x y
    next_ip

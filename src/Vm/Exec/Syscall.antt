-- ===== src/Vm/Exec/Syscall.antt =====
-- `VM::invokeSyscall`: output, the heap and strings. The calls for input, files, paths, the
-- environment, the clock, floats and sockets end the model's run.
pub mod Keeps
use loxis_programming_langua.Prelude.{
  ℕ, zero, suc, ◌+◌, ◌-◌, ◌%◌, ◌^◌, Bool, true, false, ◌&&◌, ◌||◌, List, [], ◌∷◌, ◌++◌, Option,
  none, some, ltb, leb, ◌==◌, if◌then◌else◌, length, get_elem?, take, drop,
}
use loxis_programming_langua.Heap.State.{tag_str, tag_heap, get_type_id, invalid}
use loxis_programming_langua.Bytecode.Emit.{Bytes}
use loxis_programming_langua.Lexer.Token.{bytes_eq, codes}
use loxis_programming_langua.Vm.Data.{Value, int_value, handle_of, is_heap, Machine, Vm}
use loxis_programming_langua.Vm.Action.{
  Action, panicked, left_out, pure, stop, gets, or_stop, ◌>>=◌, ◌>>◌,
}
use loxis_programming_langua.Vm.Roots.{call, read_reg, set_reg}
use loxis_programming_langua.Vm.Unwind.{
  raise_runtime, alloc_object, intern_runtime_string, string_at,
}
use loxis_programming_langua.Vm.Words.{is_negative}
use loxis_programming_langua.Vm.Exec.{Operands, operand, reg_of, next_ip}
use loxis_programming_langua.Vm.Exec.Memory.{load_or_raise, write_cell}
use loxis_programming_langua.Vm.Exec.Text.{shown, put_output}

-- A negative start or count is 0, and both stop at the end.
unfoldable pub slice : Bytes → ℕ → ℕ → Bytes
slice s start count =
    let start' = if is_negative start then 0 else start in
    let count' = if is_negative count then 0 else count in take count' (drop start' s)

abbrev pub minus_one : ℕ
minus_one = 2 ^ 64 - 1

-- The byte at an index, or -1.
unfoldable pub byte_at : Bytes → ℕ → ℕ
byte_at s i =
    if is_negative i then minus_one else elim (get_elem? s i) [ none ↦ minus_one | some c ↦ c ]

index_or_minus_one : Option ℕ → ℕ
index_or_minus_one none = minus_one
index_or_minus_one (some i) = i

-- The numbers that `invokeSyscall` knows and the model leaves out.
abbrev pub is_left_out : ℕ → Bool
is_left_out n =
    leb n 1 || (leb 40 n && leb n 57) || (leb 60 n && leb n 64) || (leb 70 n && leb n 90)

module _ {G : Type 0} (m : Machine G) where
  set_result : Value → Action G Unit
  set_result v = set_reg m.backend 0 v

  reg_string : ℕ → Action G Bytes
  reg_string r = do
    v ← read_reg r
    s ← gets (λ s. s)
    or_stop (string_at m.program s (handle_of v)) panicked

  string_result : Bytes → Action G Unit
  unfolding set_result
  string_result t = do i ← intern_runtime_string t; set_result (record { value = i; tag = tag_str })

  unfoldable pub sys_type_of : Action G Unit
  unfolding set_result
  sys_type_of = do
    v ← read_reg 1
    s ← gets (λ s. s)
    set_result (int_value (get_type_id s.heap (handle_of v)))

  unfoldable pub sys_chr : Action G Unit
  unfolding string_result set_result
  sys_chr = do v ← read_reg 1; string_result (v.value % 2 ^ 8 ∷ [])

  unfoldable pub sys_write : Bytes → Action G Unit
  sys_write suffix = do
    v ← read_reg 1
    s ← gets (λ s. s)
    text ← or_stop (shown m v s) panicked
    put_output m (text ++ suffix)

  unfoldable pub sys_halloc : Action G Unit
  unfolding set_result
  sys_halloc = do
    v ← read_reg 1
    handle ← alloc_object (handle_of v) 0
    if handle == invalid
        then raise_runtime m (codes "heap exhausted (slot space full)")
        else pure tt
    call (m.backend.on_alloc handle)
    set_result (record { value = handle; tag = tag_heap })

  unfoldable pub sys_hread : Action G Unit
  unfolding set_result
  sys_hread = do
    base ← read_reg 1
    off ← read_reg 2
    v ← load_or_raise m [] (handle_of base) (handle_of off) false
    set_result v

  unfoldable pub sys_hset : Action G Unit
  sys_hset = do
    base ← read_reg 1
    off ← read_reg 2
    old ← load_or_raise m [] (handle_of base) (handle_of off) true
    new ← read_reg 3
    write_cell m [] (handle_of base) (handle_of off) old new

  unfoldable pub sys_hfree : Action G Unit
  sys_hfree = do v ← read_reg 1; call (m.backend.on_explicit_free (handle_of v))

  unfoldable pub sys_strlen : Action G Unit
  unfolding set_result reg_string
  sys_strlen = do t ← reg_string 1; set_result (int_value (length t))

  unfoldable pub sys_i2s : Action G Unit
  unfolding string_result set_result
  sys_i2s = do v ← read_reg 1; string_result (m.host.to_string v.value)

  unfoldable pub sys_strchar : Action G Unit
  unfolding set_result reg_string
  sys_strchar = do t ← reg_string 1; i ← read_reg 2; set_result (int_value (byte_at t i.value))

  unfoldable pub sys_strslice : Action G Unit
  unfolding string_result set_result reg_string
  sys_strslice = do
    t ← reg_string 1
    start ← read_reg 2
    count ← read_reg 3
    string_result (slice t start.value count.value)

  unfoldable pub sys_strindexof : Action G Unit
  unfolding set_result reg_string index_or_minus_one
  sys_strindexof = do
    t ← reg_string 1
    needle ← reg_string 2
    set_result (int_value (index_or_minus_one (m.host.find t needle)))

  unfoldable pub sys_error : Action G Unit
  unfolding reg_string
  sys_error = do t ← reg_string 1; raise_runtime m t

  unfoldable pub invoke_syscall : ℕ → Action G Unit
  invoke_syscall op =
      if op == 2
      then sys_type_of
      else if op == 3
      then sys_chr
      else if op == 10
      then sys_write []
      else if op == 11
      then sys_write (10 ∷ [])
      else if op == 20
      then sys_halloc
      else if op == 21
      then sys_hread
      else if op == 22
      then sys_hset
      else if op == 23
      then sys_hfree
      else if op == 30
      then sys_strlen
      else if op == 31
      then sys_i2s
      else if op == 32
      then sys_strchar
      else if op == 33
      then sys_strslice
      else if op == 34
      then sys_strindexof
      else if op == 99
      then sys_error
      else if is_left_out op
      then stop left_out
      else stop panicked

module _ {G : Type 0} (m : Machine G) (os : Operands) where
  unfoldable pub exec_syscall : Action G Unit
  exec_syscall = do
    o0 ← operand os 0
    v ← read_reg (reg_of o0)
    invoke_syscall m (v.value % 2 ^ 8)
    next_ip

-- ===== src/Bytecode/OpCode.antt =====
-- `enum class OpCode` of src/cpp/ir/OpCode.hpp with the byte of each opcode.
use loxis_programming_langua.Prelude.{ℕ, ◌≡◌, refl, Option, none, some, ◌==◌, if◌then◌else◌}

pub data OpCode : Type 0 where
  nop push pop mov push_r pop_r alloc h_free h_store : OpCode
  h_load shl shr rem bit_and bit_or bit_xor add sub : OpCode
  mul div f_add f_sub f_mul f_div i_to_f f_to_i f_neg : OpCode
  g_load g_store cmp jmp jnz jz skip call ret : OpCode
  br jn null_chk call_ind v_call i_call type_of try_push try_pop : OpCode
  throw is_a print write syscall str_len to_str halt : OpCode

-- The enumerator's value, the byte that stands in the code.
unfoldable pub to_byte : OpCode → ℕ
to_byte nop = 0x00
to_byte push = 0x01
to_byte pop = 0x02
to_byte mov = 0x03
to_byte push_r = 0x04
to_byte pop_r = 0x05
to_byte alloc = 0x06
to_byte h_free = 0x07
to_byte h_store = 0x08
to_byte h_load = 0x09
to_byte shl = 0x0a
to_byte shr = 0x0b
to_byte rem = 0x0c
to_byte bit_and = 0x0d
to_byte bit_or = 0x0e
to_byte bit_xor = 0x0f
to_byte add = 0x10
to_byte sub = 0x11
to_byte mul = 0x12
to_byte div = 0x13
to_byte f_add = 0x14
to_byte f_sub = 0x15
to_byte f_mul = 0x16
to_byte f_div = 0x17
to_byte i_to_f = 0x18
to_byte f_to_i = 0x19
to_byte f_neg = 0x1a
to_byte g_load = 0x1b
to_byte g_store = 0x1c
to_byte cmp = 0x20
to_byte jmp = 0x30
to_byte jnz = 0x31
to_byte jz = 0x32
to_byte skip = 0x33
to_byte call = 0x34
to_byte ret = 0x35
to_byte br = 0x36
to_byte jn = 0x37
to_byte null_chk = 0x38
to_byte call_ind = 0x39
to_byte v_call = 0x3a
to_byte i_call = 0x3b
to_byte type_of = 0x3c
to_byte try_push = 0x43
to_byte try_pop = 0x44
to_byte throw = 0x45
to_byte is_a = 0x46
to_byte print = 0x40
to_byte write = 0x3f
to_byte syscall = 0x3d
to_byte str_len = 0x41
to_byte to_str = 0x42
to_byte halt = 0xff

-- `static_cast<OpCode>(byte)`; `none` for a byte that no enumerator has.
unfoldable pub of_byte : ℕ → Option OpCode
of_byte b =
    if b == 0x00
    then some nop
    else if b == 0x01
    then some push
    else if b == 0x02
    then some pop
    else if b == 0x03
    then some mov
    else if b == 0x04
    then some push_r
    else if b == 0x05
    then some pop_r
    else if b == 0x06
    then some alloc
    else if b == 0x07
    then some h_free
    else if b == 0x08
    then some h_store
    else if b == 0x09
    then some h_load
    else if b == 0x0a
    then some shl
    else if b == 0x0b
    then some shr
    else if b == 0x0c
    then some rem
    else if b == 0x0d
    then some bit_and
    else if b == 0x0e
    then some bit_or
    else if b == 0x0f
    then some bit_xor
    else if b == 0x10
    then some add
    else if b == 0x11
    then some sub
    else if b == 0x12
    then some mul
    else if b == 0x13
    then some div
    else if b == 0x14
    then some f_add
    else if b == 0x15
    then some f_sub
    else if b == 0x16
    then some f_mul
    else if b == 0x17
    then some f_div
    else if b == 0x18
    then some i_to_f
    else if b == 0x19
    then some f_to_i
    else if b == 0x1a
    then some f_neg
    else if b == 0x1b
    then some g_load
    else if b == 0x1c
    then some g_store
    else if b == 0x20
    then some cmp
    else if b == 0x30
    then some jmp
    else if b == 0x31
    then some jnz
    else if b == 0x32
    then some jz
    else if b == 0x33
    then some skip
    else if b == 0x34
    then some call
    else if b == 0x35
    then some ret
    else if b == 0x36
    then some br
    else if b == 0x37
    then some jn
    else if b == 0x38
    then some null_chk
    else if b == 0x39
    then some call_ind
    else if b == 0x3a
    then some v_call
    else if b == 0x3b
    then some i_call
    else if b == 0x3c
    then some type_of
    else if b == 0x43
    then some try_push
    else if b == 0x44
    then some try_pop
    else if b == 0x45
    then some throw
    else if b == 0x46
    then some is_a
    else if b == 0x40
    then some print
    else if b == 0x3f
    then some write
    else if b == 0x3d
    then some syscall
    else if b == 0x41
    then some str_len
    else if b == 0x42
    then some to_str
    else if b == 0xff
    then some halt
    else none

-- Every opcode is read back from its byte, so no two opcodes share one.
pub of_byte-to_byte : (op : OpCode) → of_byte (to_byte op) ≡ some op
unfolding of_byte to_byte
of_byte-to_byte nop = refl
of_byte-to_byte push = refl
of_byte-to_byte pop = refl
of_byte-to_byte mov = refl
of_byte-to_byte push_r = refl
of_byte-to_byte pop_r = refl
of_byte-to_byte alloc = refl
of_byte-to_byte h_free = refl
of_byte-to_byte h_store = refl
of_byte-to_byte h_load = refl
of_byte-to_byte shl = refl
of_byte-to_byte shr = refl
of_byte-to_byte rem = refl
of_byte-to_byte bit_and = refl
of_byte-to_byte bit_or = refl
of_byte-to_byte bit_xor = refl
of_byte-to_byte add = refl
of_byte-to_byte sub = refl
of_byte-to_byte mul = refl
of_byte-to_byte div = refl
of_byte-to_byte f_add = refl
of_byte-to_byte f_sub = refl
of_byte-to_byte f_mul = refl
of_byte-to_byte f_div = refl
of_byte-to_byte i_to_f = refl
of_byte-to_byte f_to_i = refl
of_byte-to_byte f_neg = refl
of_byte-to_byte g_load = refl
of_byte-to_byte g_store = refl
of_byte-to_byte cmp = refl
of_byte-to_byte jmp = refl
of_byte-to_byte jnz = refl
of_byte-to_byte jz = refl
of_byte-to_byte skip = refl
of_byte-to_byte call = refl
of_byte-to_byte ret = refl
of_byte-to_byte br = refl
of_byte-to_byte jn = refl
of_byte-to_byte null_chk = refl
of_byte-to_byte call_ind = refl
of_byte-to_byte v_call = refl
of_byte-to_byte i_call = refl
of_byte-to_byte type_of = refl
of_byte-to_byte try_push = refl
of_byte-to_byte try_pop = refl
of_byte-to_byte throw = refl
of_byte-to_byte is_a = refl
of_byte-to_byte print = refl
of_byte-to_byte write = refl
of_byte-to_byte syscall = refl
of_byte-to_byte str_len = refl
of_byte-to_byte to_str = refl
of_byte-to_byte halt = refl

-- ===== src/Vm/Bytecode.antt =====
-- The instructions of move/bytecode.h, and their numbers.
use move.Base.{ℕ, ◌≡◌, refl, Option, none, some, ◌==◌, if◌then◌else◌}

pub data Op : Type 0 where
  op_at op_atput : Op
  mov_a_locl mov_a_glob mov_a_slot mov_a_litl mov_a_self mov_a_fram : Op
  mov_locl_a mov_glob_a mov_slot_a mov_fram_a : Op
  op_push op_pop op_swap : Op
  op_vector enter_scope leave_scope make_vector : Op
  op_closure method_closure op_ret op_call op_call_as op_apply : Op
  op_jump jump_true jump_false : Op
  op_not op_eq op_ne op_gt op_lt op_ge op_le : Op
  op_neg op_bnot op_bor op_band op_plus op_minus op_star op_slash op_percent : Op

-- The instructions 0x00 to 0x1c.
decode_move : ℕ → Option Op
decode_move n =
    if n == 0x00
    then some op_at
    else if n == 0x01
    then some op_atput
    else if n == 0x10
    then some mov_a_locl
    else if n == 0x11
    then some mov_a_glob
    else if n == 0x12
    then some mov_a_slot
    else if n == 0x13
    then some mov_a_litl
    else if n == 0x14
    then some mov_a_self
    else if n == 0x15
    then some mov_a_fram
    else if n == 0x16
    then some mov_locl_a
    else if n == 0x17
    then some mov_glob_a
    else if n == 0x18
    then some mov_slot_a
    else if n == 0x19
    then some mov_fram_a
    else if n == 0x1a
    then some op_push
    else if n == 0x1b
    then some op_pop
    else if n == 0x1c
    then some op_swap
    else none

-- The instructions 0x20 to 0x42.
decode_control : ℕ → Option Op
decode_control n =
    if n == 0x20
    then some op_vector
    else if n == 0x21
    then some enter_scope
    else if n == 0x22
    then some leave_scope
    else if n == 0x23
    then some make_vector
    else if n == 0x31
    then some op_closure
    else if n == 0x32
    then some method_closure
    else if n == 0x33
    then some op_ret
    else if n == 0x34
    then some op_call
    else if n == 0x35
    then some op_call_as
    else if n == 0x36
    then some op_apply
    else if n == 0x40
    then some op_jump
    else if n == 0x41
    then some jump_true
    else if n == 0x42
    then some jump_false
    else none

-- The instructions 0x50 to 0x68.
decode_operator : ℕ → Option Op
decode_operator n =
    if n == 0x50
    then some op_not
    else if n == 0x51
    then some op_eq
    else if n == 0x52
    then some op_ne
    else if n == 0x53
    then some op_gt
    else if n == 0x54
    then some op_lt
    else if n == 0x55
    then some op_ge
    else if n == 0x56
    then some op_le
    else if n == 0x60
    then some op_neg
    else if n == 0x61
    then some op_bnot
    else if n == 0x62
    then some op_bor
    else if n == 0x63
    then some op_band
    else if n == 0x64
    then some op_plus
    else if n == 0x65
    then some op_minus
    else if n == 0x66
    then some op_star
    else if n == 0x67
    then some op_slash
    else if n == 0x68
    then some op_percent
    else none

-- The `switch` on a byte of code; `none` is its `default`.
unfoldable pub decode : ℕ → Option Op
unfolding decode_move decode_control decode_operator
decode n = elim (decode_move n) [
  | some o ↦ some o
  | none ↦ elim (decode_control n) [ some o ↦ some o | none ↦ decode_operator n ]
]

-- The number of an instruction.
unfoldable pub opcode : Op → ℕ
opcode op_at = 0x00
opcode op_atput = 0x01
opcode mov_a_locl = 0x10
opcode mov_a_glob = 0x11
opcode mov_a_slot = 0x12
opcode mov_a_litl = 0x13
opcode mov_a_self = 0x14
opcode mov_a_fram = 0x15
opcode mov_locl_a = 0x16
opcode mov_glob_a = 0x17
opcode mov_slot_a = 0x18
opcode mov_fram_a = 0x19
opcode op_push = 0x1a
opcode op_pop = 0x1b
opcode op_swap = 0x1c
opcode op_vector = 0x20
opcode enter_scope = 0x21
opcode leave_scope = 0x22
opcode make_vector = 0x23
opcode op_closure = 0x31
opcode method_closure = 0x32
opcode op_ret = 0x33
opcode op_call = 0x34
opcode op_call_as = 0x35
opcode op_apply = 0x36
opcode op_jump = 0x40
opcode jump_true = 0x41
opcode jump_false = 0x42
opcode op_not = 0x50
opcode op_eq = 0x51
opcode op_ne = 0x52
opcode op_gt = 0x53
opcode op_lt = 0x54
opcode op_ge = 0x55
opcode op_le = 0x56
opcode op_neg = 0x60
opcode op_bnot = 0x61
opcode op_bor = 0x62
opcode op_band = 0x63
opcode op_plus = 0x64
opcode op_minus = 0x65
opcode op_star = 0x66
opcode op_slash = 0x67
opcode op_percent = 0x68

-- The number of an instruction is decoded as that instruction.
pub decode-opcode : (op : Op) → decode (opcode op) ≡ some op
unfolding decode decode_move decode_control decode_operator opcode
decode-opcode op_at = refl
decode-opcode op_atput = refl
decode-opcode mov_a_locl = refl
decode-opcode mov_a_glob = refl
decode-opcode mov_a_slot = refl
decode-opcode mov_a_litl = refl
decode-opcode mov_a_self = refl
decode-opcode mov_a_fram = refl
decode-opcode mov_locl_a = refl
decode-opcode mov_glob_a = refl
decode-opcode mov_slot_a = refl
decode-opcode mov_fram_a = refl
decode-opcode op_push = refl
decode-opcode op_pop = refl
decode-opcode op_swap = refl
decode-opcode op_vector = refl
decode-opcode enter_scope = refl
decode-opcode leave_scope = refl
decode-opcode make_vector = refl
decode-opcode op_closure = refl
decode-opcode method_closure = refl
decode-opcode op_ret = refl
decode-opcode op_call = refl
decode-opcode op_call_as = refl
decode-opcode op_apply = refl
decode-opcode op_jump = refl
decode-opcode jump_true = refl
decode-opcode jump_false = refl
decode-opcode op_not = refl
decode-opcode op_eq = refl
decode-opcode op_ne = refl
decode-opcode op_gt = refl
decode-opcode op_lt = refl
decode-opcode op_ge = refl
decode-opcode op_le = refl
decode-opcode op_neg = refl
decode-opcode op_bnot = refl
decode-opcode op_bor = refl
decode-opcode op_band = refl
decode-opcode op_plus = refl
decode-opcode op_minus = refl
decode-opcode op_star = refl
decode-opcode op_slash = refl
decode-opcode op_percent = refl

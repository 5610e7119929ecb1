-- ===== src/Opcode.antt =====
-- vm/opcode.def.h and vm/opcode.c: the opcodes that the optimizer knows, by their place in the table
-- of opcodes, which is their number; SET_ARG stands in a comment and has none.
use ivm.Base.{ℕ, Bool, ◌||◌, ◌==◌}

abbrev pub nop : ℕ
nop = 0

abbrev pub new_nil : ℕ
new_nil = 1

abbrev pub new_none : ℕ
new_none = 2

abbrev pub new_obj : ℕ
new_obj = 3

abbrev pub new_obj_t : ℕ
new_obj_t = 4

abbrev pub new_num_i : ℕ
new_num_i = 5

abbrev pub new_num_f : ℕ
new_num_f = 6

abbrev pub new_str : ℕ
new_str = 7

abbrev pub new_func : ℕ
new_func = 8

abbrev pub ne : ℕ
ne = 45

-- The six comparisons stand in a row, and behind them their forms with a register.
abbrev pub le : ℕ
le = 50

abbrev pub ne_r : ℕ
ne_r = 51

abbrev pub pop : ℕ
pop = 83

abbrev pub iter_next : ℕ
iter_next = 99

abbrev pub rprot_set : ℕ
rprot_set = 101

abbrev pub return_ : ℕ
return_ = 110

abbrev pub jump : ℕ
jump = 111

abbrev pub jump_true : ℕ
jump_true = 113

abbrev pub jump_false : ℕ
jump_false = 114

abbrev pub jump_true_r : ℕ
jump_true_r = 115

abbrev pub jump_false_r : ℕ
jump_false_r = 116

abbrev pub jump_true_n : ℕ
jump_true_n = 117

abbrev pub jump_false_n : ℕ
jump_false_n = 118

abbrev pub check : ℕ
check = 119

abbrev pub check2 : ℕ
check2 = 120

abbrev pub check_list_iter : ℕ
check_list_iter = 122

abbrev pub check_none : ℕ
check_none = 123

-- ivm_opcode_table_isJump: the opcodes whose argument is an address.
unfoldable pub is_jump : ℕ → Bool
is_jump opc =
    opc == iter_next
    || opc == rprot_set
    || opc == jump
    || opc == jump_true
    || opc == jump_false
    || opc == jump_true_r
    || opc == jump_false_r
    || opc == jump_true_n
    || opc == jump_false_n
    || opc == check
    || opc == check2
    || opc == check_list_iter
    || opc == check_none

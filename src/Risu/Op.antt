-- ===== src/Risu/Op.antt =====
-- risu.h: what the code under test asks for, and how an operation ends.
use risu.Prelude.{ℕ, Bool, true, false, ◌-◌, ◌^◌, ◌≡◌, if◌then◌else◌, ◌==◌, arith}

-- `RisuOp`. `op_other w` stands for a value that the enum does not name, as its 32 bits.
pub data RisuOp : Type 0 where
  op_sigill op_compare op_testend op_setmemblock op_getmemblock op_comparemem : RisuOp
  op_setupbegin op_setupend : RisuOp
  op_other : ℕ → RisuOp

-- The value as the 32 bits of an int32_t; OP_SIGILL is -1.
abbrev pub op_code : RisuOp → ℕ
op_code op_sigill = 2 ^ 32 - 1
op_code op_compare = 0
op_code op_testend = 1
op_code op_setmemblock = 2
op_code op_getmemblock = 3
op_code op_comparemem = 4
op_code op_setupbegin = 5
op_code op_setupend = 6
op_code (op_other w) = w

-- The label of a `switch` at which such a value goes on.
unfoldable pub op_of : ℕ → RisuOp
op_of w =
    if w == 2 ^ 32 - 1
    then op_sigill
    else if w == 0
    then op_compare
    else if w == 1
    then op_testend
    else if w == 2
    then op_setmemblock
    else if w == 3
    then op_getmemblock
    else if w == 4
    then op_comparemem
    else if w == 5
    then op_setupbegin
    else if w == 6
    then op_setupend
    else op_other w

pub op_code-op_of : (w : ℕ) → op_code (op_of w) ≡ w
unfolding op_of
op_code-op_of w = ground arith

-- `RisuResult`
pub data RisuResult : Type 0 where
  res_ok res_end res_mismatch_reg res_mismatch_mem res_mismatch_op res_bad_io res_bad_magic :
      RisuResult
  res_bad_size_header res_bad_size_reginfo res_bad_size_memblock res_bad_size_zero : RisuResult
  res_bad_op res_sigbus : RisuResult
  res_other : ℕ → RisuResult

abbrev pub res_code : RisuResult → ℕ
res_code res_ok = 0
res_code res_end = 1
res_code res_mismatch_reg = 2
res_code res_mismatch_mem = 3
res_code res_mismatch_op = 4
res_code res_bad_io = 5
res_code res_bad_magic = 6
res_code res_bad_size_header = 7
res_code res_bad_size_reginfo = 8
res_code res_bad_size_memblock = 9
res_code res_bad_size_zero = 10
res_code res_bad_op = 11
res_code res_sigbus = 12
res_code (res_other w) = w

-- `(RisuResult)resp`, for a byte that came over the socket.
unfoldable pub res_of : ℕ → RisuResult
res_of w =
    if w == 0
    then res_ok
    else if w == 1
    then res_end
    else if w == 2
    then res_mismatch_reg
    else if w == 3
    then res_mismatch_mem
    else if w == 4
    then res_mismatch_op
    else if w == 5
    then res_bad_io
    else if w == 6
    then res_bad_magic
    else if w == 7
    then res_bad_size_header
    else if w == 8
    then res_bad_size_reginfo
    else if w == 9
    then res_bad_size_memblock
    else if w == 10
    then res_bad_size_zero
    else if w == 11
    then res_bad_op
    else if w == 12
    then res_sigbus
    else res_other w

-- `res == RES_OK`
abbrev pub is_ok : RisuResult → Bool
is_ok res_ok = true
is_ok _ = false

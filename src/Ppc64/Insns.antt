-- ===== src/Ppc64/Insns.antt =====
-- risu_reginfo_ppc64.c: which instruction a word is, in the tests of reginfo_is_eq, and the fields that
-- name its registers.
use risu.Prelude.{ℕ, ◌/◌, ◌%◌, ◌^◌, ◌==◌, Bool, ◌||◌, bit_and}
use risu.Ppc64.{Reginfo}

abbrev pub target : ℕ → ℕ
target insn = insn / 2 ^ 21 % 32

unfoldable pub rt : Reginfo → ℕ
rt m = target m.prev_insn

unfoldable pub ra : Reginfo → ℕ
ra m = m.prev_insn / 2 ^ 16 % 32

unfoldable pub rb : Reginfo → ℕ
rb m = m.prev_insn / 2 ^ 11 % 32

unfoldable pub rc : Reginfo → ℕ
rc m = m.prev_insn / 2 ^ 6 % 32

unfoldable pub is_lfsux : ℕ → Bool
is_lfsux insn = bit_and insn 0xfc0007fe == 0x7c00046e

unfoldable pub is_lfsu : ℕ → Bool
is_lfsu insn = bit_and insn 0xfc000000 == 0xc4000000

unfoldable pub is_lfsx : ℕ → Bool
is_lfsx insn = bit_and insn 0xfc0007ff == 0x7c00042e

unfoldable pub is_lfs : ℕ → Bool
is_lfs insn = bit_and insn 0xfc000000 == 0xc0000000

unfoldable pub is_fadd : ℕ → Bool
is_fadd insn = bit_and insn 0xfc0007fe == 0xfc00002a

unfoldable pub is_fadds : ℕ → Bool
is_fadds insn = bit_and insn 0xfc0007fe == 0xec00002a

unfoldable pub is_fdiv : ℕ → Bool
is_fdiv insn = bit_and insn 0xfc0007fe == 0xfc000024

unfoldable pub is_fdivs : ℕ → Bool
is_fdivs insn = bit_and insn 0xfc0007fe == 0xec000024

unfoldable pub is_fsub : ℕ → Bool
is_fsub insn = bit_and insn 0xfc0007fe == 0xfc000028

unfoldable pub is_fsubs : ℕ → Bool
is_fsubs insn = bit_and insn 0xfc0007fe == 0xec000028

unfoldable pub is_frsqrte : ℕ → Bool
is_frsqrte insn = bit_and insn 0xfc1f07fe == 0xfc000034

unfoldable pub is_frsp : ℕ → Bool
is_frsp insn = bit_and insn 0xfc1f07fe == 0xfc000018

unfoldable pub is_fmul : ℕ → Bool
is_fmul insn = bit_and insn 0xfc00f83e == 0xfc000032

unfoldable pub is_fmuls : ℕ → Bool
is_fmuls insn = bit_and insn 0xfc00f83e == 0xec000032

unfoldable pub is_fmadd : ℕ → Bool
is_fmadd insn = bit_and insn 0xfc00003e == 0xfc00003a

unfoldable pub is_fmsub : ℕ → Bool
is_fmsub insn = bit_and insn 0xfc00003e == 0xfc000038

unfoldable pub is_fnmadd : ℕ → Bool
is_fnmadd insn = bit_and insn 0xfc00003e == 0xfc00003e

unfoldable pub is_fnmsub : ℕ → Bool
is_fnmsub insn = bit_and insn 0xfc00003e == 0xfc00003c

unfoldable pub is_fmadds : ℕ → Bool
is_fmadds insn = bit_and insn 0xfc00003e == 0xec00003a

unfoldable pub is_fmsubs : ℕ → Bool
is_fmsubs insn = bit_and insn 0xfc00003e == 0xec000038

unfoldable pub is_fnmadds : ℕ → Bool
is_fnmadds insn = bit_and insn 0xfc00003e == 0xec00003e

unfoldable pub is_fnmsubs : ℕ → Bool
is_fnmsubs insn = bit_and insn 0xfc00003e == 0xec00003c

unfoldable pub is_fres : ℕ → Bool
is_fres insn = bit_and insn 0xfc1f07fe == 0xec000030

unfoldable pub is_addi : ℕ → Bool
is_addi insn = bit_and insn 0xfc000000 == 0x38000000

unfoldable pub is_subf : ℕ → Bool
is_subf insn = bit_and insn 0xfc0007ff == 0x7c000050

unfoldable pub is_mflr : ℕ → Bool
is_mflr insn = bit_and insn 0xfc1fffff == 0x7c0802a6

-- div[o][.]
unfoldable pub is_div : ℕ → Bool
is_div insn = bit_and insn 0xfc0003fe == 0x7c000296

-- div[o].
unfoldable pub is_div_record : ℕ → Bool
is_div_record insn = bit_and insn 0xfc0003ff == 0x7c000297

-- divs[o][.]
unfoldable pub is_divs : ℕ → Bool
is_divs insn = bit_and insn 0xfc0003fe == 0x7c0002d6

unfoldable pub is_lscbx : ℕ → Bool
is_lscbx insn = bit_and insn 0xfc0007fe == 0x7c00022a

-- fcmpo or fcmpu
unfoldable pub is_fcmp : ℕ → Bool
is_fcmp insn = bit_and insn 0xfc6007bf == 0xfc000000

unfoldable pub is_mcrfs : ℕ → Bool
is_mcrfs insn = bit_and insn 0xfc63ffff == 0xfc000080

-- The instructions of the 601 that change MQ: mulli, mullw, mulhw, mulhwu, divw and divwu.
unfoldable pub is_mq_changed : ℕ → Bool
is_mq_changed insn =
    bit_and insn 0xfc000000 == 0x1c000000
    || bit_and insn 0xfc0003fe == 0x7c0001d6
    || bit_and insn 0xfc0007fe == 0x7c000096
    || bit_and insn 0xfc0007fe == 0x7c000016
    || bit_and insn 0xfc0003fe == 0x7c0003d6
    || bit_and insn 0xfc0003fe == 0x7c000396

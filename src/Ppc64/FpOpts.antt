-- ===== src/Ppc64/FpOpts.antt =====
-- risu_reginfo_ppc64.c: the options of `--fp_opts`, each of which lets differences of one kind pass.
use risu.Prelude.{ℕ, not, ◌==◌, Bool, bit_and}

-- `fp_opts & option`, and so for `cpu_opts`.
unfoldable pub is_set : ℕ → ℕ → Bool
is_set opts option = not (bit_and opts option == 0)

abbrev pub cpu_opt_use_601 : ℕ
cpu_opt_use_601 = 0x00000002

abbrev pub fp_opt_ignore_qnan_signs : ℕ
fp_opt_ignore_qnan_signs = 0x00000001

abbrev pub fp_opt_ignore_qnan_values : ℕ
fp_opt_ignore_qnan_values = 0x00000002

abbrev pub fp_opt_ignore_qnan_diffs : ℕ
fp_opt_ignore_qnan_diffs = 0x00000004

abbrev pub fp_opt_ignore_qnan_load_float : ℕ
fp_opt_ignore_qnan_load_float = 0x00000008

abbrev pub fp_opt_ignore_nan_operand : ℕ
fp_opt_ignore_nan_operand = 0x00000010

abbrev pub fp_opt_ignore_opposite_inf_operands : ℕ
fp_opt_ignore_opposite_inf_operands = 0x00000020

abbrev pub fp_opt_ignore_inf_x_0_operands : ℕ
fp_opt_ignore_inf_x_0_operands = 0x00000040

abbrev pub fp_opt_ignore_div_zero : ℕ
fp_opt_ignore_div_zero = 0x00000080

abbrev pub fp_opt_ignore_underflow : ℕ
fp_opt_ignore_underflow = 0x00000100

abbrev pub fp_opt_ignore_overflow : ℕ
fp_opt_ignore_overflow = 0x00000200

abbrev pub fp_opt_ignore_round : ℕ
fp_opt_ignore_round = 0x00000400

abbrev pub fp_opt_ignore_round_s : ℕ
fp_opt_ignore_round_s = 0x00000800

abbrev pub fp_opt_ignore_rsqrt_negative : ℕ
fp_opt_ignore_rsqrt_negative = 0x00001000

abbrev pub fp_opt_ignore_rsqrt_negative_zero : ℕ
fp_opt_ignore_rsqrt_negative_zero = 0x00002000

abbrev pub fp_opt_ignore_rsqrt_zero : ℕ
fp_opt_ignore_rsqrt_zero = 0x00004000

abbrev pub fp_opt_ignore_qnan_from_inf : ℕ
fp_opt_ignore_qnan_from_inf = 0x00008000

abbrev pub fp_opt_ignore_qnan_from_unknown : ℕ
fp_opt_ignore_qnan_from_unknown = 0x00010000

abbrev pub fp_opt_ignore_inf_from_unknown : ℕ
fp_opt_ignore_inf_from_unknown = 0x00020000

abbrev pub fp_opt_ignore_zero_signs : ℕ
fp_opt_ignore_zero_signs = 0x00040000

abbrev pub fp_opt_ignore_inf_div_inf : ℕ
fp_opt_ignore_inf_div_inf = 0x00080000

abbrev pub fp_opt_ignore_qnan_snan : ℕ
fp_opt_ignore_qnan_snan = 0x00100000

abbrev pub fp_opt_ignore_nan_unknown_operands : ℕ
fp_opt_ignore_nan_unknown_operands = 0x00200000

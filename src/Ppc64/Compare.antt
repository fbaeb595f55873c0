-- ===== src/Ppc64/Compare.antt =====
-- risu_reginfo_ppc64.c: reginfo_is_eq. It makes the differences that it lets pass equal in the second
-- structure, which is why each part gives the structure back.
use risu.Prelude.{
  ℕ, zero, suc, ◌+◌, ◌-◌, ◌*◌, ◌/◌, ◌%◌, ◌^◌, Bool, true, false, not, ◌&&◌, ◌||◌, if◌then◌else◌,
  ◌==◌, leb, bit_and, bit_or, bit_xor,
}
use risu.Prelude.Int.{ℤ, pos, minus, leb_ℤ, ltb_ℤ, signed, quot}
use risu.Risu.Op.{op_code}
use risu.Ppc64.{Reginfo, Masks, store, get_risuop}
use risu.Ppc64.Insns.{
  target, rt, ra, rb, is_addi, is_subf, is_mflr, is_div, is_div_record, is_divs, is_lscbx, is_fcmp,
  is_mcrfs, is_mq_changed,
}
use risu.Ppc64.FpOpts.{is_set, cpu_opt_use_601}
use risu.Ppc64.Rules.{selected, forgiven}

-- `mask & ~bits`
abbrev pub clear_bits : ℕ → ℕ → ℕ
clear_bits mask bits = bit_and mask (2 ^ 32 - 1 - bits)

-- A stop at an illegal instruction leaves the register that the next instruction sets.
unfoldable pub local_gregs_mask : Masks → Reginfo → ℕ
local_gregs_mask k a =
    if op_code (get_risuop a) == 2 ^ 32 - 1 && (is_addi a.next_insn || is_subf a.next_insn)
    then clear_bits k.gregs_mask (2 ^ (31 - target a.next_insn))
    else k.gregs_mask

-- The difference of two words.
abbrev pub minus_32 : ℕ → ℕ → ℕ
minus_32 x y = (x + 2 ^ 32 - y) % 2 ^ 32

-- `((q >> 31) + 1) & ~1` of a quotient.
unfoldable pub too_large : ℤ → Bool
too_large q = not (leb_ℤ (minus (2 ^ 31)) q && ltb_ℤ q (pos (2 ^ 31)))

-- The quotient of div is not defined or not known.
unfoldable pub div_unknown : Reginfo → Bool
div_unknown m =
    ra m == rt m
    || rb m == rt m
    || m.gregs (rb m) == 0
    || too_large
        (quot (signed 64 (m.gregs (ra m) * 2 ^ 32 + m.gregs 38)) (signed 32 (m.gregs (rb m))))

unfoldable pub divs_unknown : Reginfo → Bool
divs_unknown m =
    ra m == rt m
    || rb m == rt m
    || m.gregs (rb m) == 0
    || too_large (quot (signed 32 (m.gregs (ra m))) (signed 32 (m.gregs (rb m))))

-- The bytes of the last register that lscbx does not load.
unfoldable pub lscbx_rest : Reginfo → Reginfo → ℕ → Bool
lscbx_rest m a i =
    is_lscbx m.second_prev_insn
    && not (m.gregs 36 % 4 == 0)
    && i == (m.second_prev_insn / 2 ^ 21 + (m.gregs 36 % 128 - 1) / 4) % 32
    && bit_xor (m.gregs i) (a.gregs i) / 2 ^ (32 - 8 * (m.gregs 36 % 4)) == 0

unfoldable pub greg_forgiven : Reginfo → Reginfo → ℕ → Bool
greg_forgiven m a i =
    (is_mflr m.prev_insn
      && rt m == i
      && minus_32 (m.gregs i) (m.gregs 32) == minus_32 (a.gregs i) (a.gregs 32))
    || (is_div m.prev_insn && rt m == i && div_unknown m)
    || (is_divs m.prev_insn && rt m == i && divs_unknown m)
    || lscbx_rest m a i

abbrev pub set_greg : ℕ → Reginfo → Reginfo → Reginfo
set_greg i m a = record a { gregs = store i (m.gregs i) a.gregs }

abbrev pub set_fpreg : ℕ → Reginfo → Reginfo → Reginfo
set_fpreg i m a = record a { fpregs = store i (m.fpregs i) a.fpregs }

-- What a part of the comparison gives: whether to go on, and the structure as it is by then.
abbrev pub Checked : Type 0
Checked = Bool × Reginfo

-- A part, and what follows it unless the part returns 0.
abbrev pub and_then : Checked → (Reginfo → Checked) → Checked
and_then (true, a) next = next a
and_then (false, a) next = (false, a)

-- A difference that is let pass is made equal.
abbrev pub settle : Bool → Bool → Reginfo → Reginfo → Checked
settle equal let_pass a b = if equal then (true, a) else if let_pass then (true, b) else (false, a)

unfoldable pub check_greg : ℕ → Reginfo → ℕ → Reginfo → Checked
check_greg mask m i a =
    settle (m.gregs i == a.gregs i || not (selected mask i)) (greg_forgiven m a i) a
      (set_greg i m a)

-- A loop over the registers, `count` of them from `i` on.
unfoldable pub check_from : (ℕ → Reginfo → Checked) → ℕ → ℕ → Reginfo → Checked
check_from check zero i a = (true, a)
check_from check (suc count) i a = and_then (check i a) (λ b. check_from check count (suc i) b)

unfoldable pub xer_passes : Masks → Reginfo → Reginfo → Bool
xer_passes k m a = bit_and (m.gregs 36) k.xer_mask == bit_and (a.gregs 36) k.xer_mask

unfoldable pub check_xer : Masks → Reginfo → Reginfo → Checked
check_xer k m a = settle (m.gregs 36 == a.gregs 36) (xer_passes k m a) a (set_greg 36 m a)

-- LNK relative to NIP, and CTR.
unfoldable pub check_branches : Reginfo → Reginfo → Checked
check_branches m a = (
  minus_32 (m.gregs 35) (m.gregs 32) == minus_32 (a.gregs 35) (a.gregs 32)
      && m.gregs 34 == a.gregs 34,
  a,
)

-- The mask with four bits replaced, those of a condition field.
unfoldable pub put_field : ℕ → ℕ → ℕ → ℕ
put_field mask field crf =
    bit_or (clear_bits mask (15 * 2 ^ (28 - crf))) (bit_and field 15 * 2 ^ (28 - crf))

-- The bits of CCR that are compared.
unfoldable pub local_ccr_mask : Masks → Reginfo → ℕ
local_ccr_mask k m =
    if is_fcmp m.prev_insn
    then bit_and
        (put_field k.ccr_mask (k.ccr_mask / 2 ^ (28 - 4)) (bit_and (m.prev_insn / 2 ^ 21) 0x1c))
        k.ccr_mask
    else if is_mcrfs m.prev_insn
    then bit_and
        (put_field k.ccr_mask (k.fpscr_mask / 2 ^ (28 - bit_and (m.prev_insn / 2 ^ 16) 0x1c))
          (bit_and (m.prev_insn / 2 ^ 21) 0x1c))
        k.ccr_mask
    else if is_div_record m.prev_insn && div_unknown m
    then bit_and 0x1fffffff k.ccr_mask
    else k.ccr_mask

unfoldable pub ccr_passes : Masks → Reginfo → Reginfo → Bool
ccr_passes k m a =
    bit_and (m.gregs 37) (local_ccr_mask k m) == bit_and (a.gregs 37) (local_ccr_mask k m)

unfoldable pub check_ccr : Masks → Reginfo → Reginfo → Checked
check_ccr k m a = settle (m.gregs 37 == a.gregs 37) (ccr_passes k m a) a (set_greg 37 m a)

unfoldable pub mq_passes : Masks → ℕ → Reginfo → Reginfo → Bool
mq_passes k signal_count m a =
    bit_and (m.gregs 38) k.mq_mask == bit_and (a.gregs 38) k.mq_mask
    || (is_div m.prev_insn && div_unknown m)
    || (is_set k.cpu_opts cpu_opt_use_601 && is_mq_changed m.prev_insn)
    || leb signal_count 1

unfoldable pub check_mq : Masks → ℕ → Reginfo → Reginfo → Checked
check_mq k signal_count m a =
    settle (m.gregs 38 == a.gregs 38) (mq_passes k signal_count m a) a (set_greg 38 m a)

unfoldable pub fpscr_passes : Masks → Reginfo → Reginfo → Bool
fpscr_passes k m a = bit_and m.fpscr k.fpscr_mask == bit_and a.fpscr k.fpscr_mask

abbrev pub set_fpscr : Reginfo → Reginfo → Reginfo
set_fpscr m a = record a { fpscr = m.fpscr }

unfoldable pub check_fpscr : Masks → Reginfo → Reginfo → Checked
check_fpscr k m a = settle (m.fpscr == a.fpscr) (fpscr_passes k m a) a (set_fpscr m a)

unfoldable pub check_fpreg : Masks → Reginfo → ℕ → Reginfo → Checked
check_fpreg k m i a = settle (m.fpregs i == a.fpregs i) (forgiven k m a i) a (set_fpreg i m a)

unfoldable pub reginfo_is_eq : Masks → ℕ → Reginfo → Reginfo → Checked
reginfo_is_eq k signal_count m a =
    and_then (check_from (check_greg (local_gregs_mask k a) m) 32 0 a) (λ a1.
      and_then (check_xer k m a1) (λ a2. and_then (check_branches m a2) (λ a3.
        and_then (check_ccr k m a3) (λ a4.
          and_then (check_mq k signal_count m a4)
            (λ a5. and_then (check_fpscr k m a5) (λ a6. check_from (check_fpreg k m) 32 0 a6))))))

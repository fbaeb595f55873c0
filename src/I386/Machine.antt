-- ===== src/I386/Machine.antt =====
-- <sys/ucontext.h>, <asm/sigcontext.h> and <cpuid.h>, as far as risu_i386.c and
-- risu_reginfo_i386.c use them.
use risu.Prelude.{ℕ, ◌^◌, Bool, ◌&&◌, ◌||◌, Option, if◌then◌else◌, ◌==◌}

-- Whether __x86_64__ is defined, NGREG and the indices of `gregset_t`, where `reg_r i` is REG_R8
-- and so on; the offset of the XMM registers in `struct _fpstate`, X86_FXSR_MAGIC and
-- FP_XSTATE_MAGIC1; and what __get_cpuid_count gives for leaf 0xd, EAX and EBX, if it succeeds.
pub record X86 : Type 0 where
  pub x86_64 : Bool
  pub ngreg : ℕ
  pub reg_ip : ℕ
  pub reg_efl : ℕ
  pub reg_sp : ℕ
  pub reg_ax : ℕ
  pub reg_bx : ℕ
  pub reg_cx : ℕ
  pub reg_dx : ℕ
  pub reg_di : ℕ
  pub reg_si : ℕ
  pub reg_bp : ℕ
  pub reg_r : ℕ → ℕ
  pub xmm_offset : ℕ
  pub fxsr_magic : ℕ
  pub xstate_magic1 : ℕ
  pub cpuid : ℕ → Option (ℕ × ℕ)

module _ (p : X86) where
  -- One more than the largest value of a general register.
  unfoldable pub greg_limit : ℕ
  greg_limit = if p.x86_64 then 2 ^ 64 else 2 ^ 32

  -- The registers that the switch in reginfo_init takes as they are.
  unfoldable pub is_plain : ℕ → Bool
  is_plain i =
      i == p.reg_ax
      || i == p.reg_bx
      || i == p.reg_cx
      || i == p.reg_dx
      || i == p.reg_di
      || i == p.reg_si
      || i == p.reg_bp
      || (p.x86_64
          && (i == p.reg_r 8
              || i == p.reg_r 9
              || i == p.reg_r 10
              || i == p.reg_r 11
              || i == p.reg_r 12
              || i == p.reg_r 13
              || i == p.reg_r 14
              || i == p.reg_r 15))

  -- The registers that have a name in `regname`.
  unfoldable pub is_named : ℕ → Bool
  is_named i = i == p.reg_ip || i == p.reg_efl || i == p.reg_sp || is_plain i

-- ===== src/I386.antt =====
-- risu_i386.c and risu_reginfo_i386.c: the registers of an x86 of 32 or of 64 bits.
pub mod Machine
pub mod Dump
pub mod Shape
pub mod Report
pub mod Features
use risu.Prelude.{
  ℕ, ◌+◌, ◌-◌, ◌*◌, ◌/◌, ◌%◌, ◌^◌, bit_and, Bool, true, false, not, ◌&&◌, List, [], ◌∷◌, Option,
  none, some, if◌then◌else◌, ◌==◌, ltb, leb,
}
use risu.Prelude.Bytes.{same_bytes, copy_bytes}
use risu.Prelude.Outcome.{Outcome, done, exits, aborts, ◌>>=◌}
use risu.Prelude.Rows.{all_from}
use risu.Risu.Op.{RisuOp, op_sigill, op_of}
use risu.I386.Machine.{X86, greg_limit, is_plain}

-- `struct _fpstate` and the `struct _xstate` around it, with its bytes.
pub record Xstate : Type 0 where
  pub magic : ℕ
  pub mxcsr : ℕ
  pub magic1 : ℕ
  pub extended_size : ℕ
  pub xfeatures : ℕ
  pub bytes : ℕ → ℕ

-- The parts of `ucontext_t` that are used, and the words of the image.
pub record Context : Type 0 where
  pub gregs : ℕ → ℕ
  pub fpregs : Option Xstate
  pub load : ℕ → ℕ

-- `struct reginfo`, where `vregs i j` and `kregs i j` are byte j of register i.
pub record Reginfo : Type 0 where
  pub faulting_insn : ℕ
  pub mxcsr : ℕ
  pub xfeatures : ℕ
  pub gregs : ℕ → ℕ
  pub vregs : ℕ → ℕ → ℕ
  pub kregs : ℕ → ℕ → ℕ

abbrev pub xfeat_avx : ℕ
xfeat_avx = 2 ^ 2

abbrev pub xfeat_avx512_opmask : ℕ
xfeat_avx512_opmask = 2 ^ 5

abbrev pub xfeat_avx512_zmm_hi256 : ℕ
xfeat_avx512_zmm_hi256 = 2 ^ 6

abbrev pub xfeat_avx512_hi16_zmm : ℕ
xfeat_avx512_hi16_zmm = 2 ^ 7

-- `features & XFEAT_...`, where the mask is a single bit.
unfoldable pub has_feature : ℕ → ℕ → Bool
has_feature features mask = features / mask % 2 == 1

-- `strcmp` says that two texts are the same.
unfoldable pub same_text : List ℕ → List ℕ → Bool
same_text [] [] = true
same_text (c ∷ cs) (d ∷ ds) = c == d && same_text cs ds
same_text _ _ = false

-- `if (*endptr)`
unfoldable pub whole_number : ℕ × List ℕ → Outcome ℕ
whole_number (value, []) = done value
whole_number (value, c ∷ endptr) = exits

-- `process_arch_opt`, with `opt - FIRST_ARCH_OPT`: the new value of `xfeatures`. `strtoull` gives
-- the number and the text behind it.
unfoldable pub process_arch_opt : (List ℕ → ℕ × List ℕ) → ℕ → List ℕ → Outcome ℕ
process_arch_opt strtoull opt arg =
    if not (opt == 0)
    then aborts
    else if same_text arg (b's' ∷ b's' ∷ b'e' ∷ [])
    then done 0x3
    else if same_text arg (b'a' ∷ b'v' ∷ b'x' ∷ [])
    then done 0x7
    else if same_text arg (b'a' ∷ b'v' ∷ b'x' ∷ b'5' ∷ b'1' ∷ b'2' ∷ [])
    then done 0xe7
    else whole_number (strtoull arg)

unfoldable pub get_risuop : Reginfo → RisuOp
get_risuop ri =
    if bit_and ri.faulting_insn 0xf8ffff == 0xc0b90f
    then op_of (ri.faulting_insn / 2 ^ 16 % 8)
    else op_sigill

module _ (p : X86) where
  unfoldable pub advance_pc : Context → Context
  advance_pc uc = record uc {
    gregs = λ i. if i == p.reg_ip then (uc.gregs i + 3) % greg_limit p else uc.gregs i;
  }

  unfoldable pub get_uc_pc : Context → ℕ → ℕ
  get_uc_pc uc siaddr = uc.gregs p.reg_ip

  unfoldable pub set_ucontext_paramreg : Context → ℕ → Context
  set_ucontext_paramreg uc value = record uc {
    gregs = λ i. if i == p.reg_ax then value % greg_limit p else uc.gregs i;
  }

  unfoldable pub get_reginfo_paramreg : Reginfo → ℕ
  get_reginfo_paramreg ri = ri.gregs p.reg_ax

  unfoldable pub get_pc : Reginfo → ℕ
  get_pc ri = ri.gregs p.reg_ip

  -- `xsave_feature_buf`: the offset of the feature's bytes.
  unfoldable pub xsave_feature_buf : Xstate → ℕ → Outcome ℕ
  xsave_feature_buf xs feature = elim (p.cpuid feature) [
    | none ↦ aborts
    | some (eax, ebx) ↦ if leb ((eax + ebx) % 2 ^ 32) xs.extended_size then done ebx else aborts
  ]

  unfoldable pub nvecregs : ℕ
  nvecregs = if p.x86_64 then 16 else 8

  -- The switch over the general registers.
  unfoldable pub greg : ℕ → Context → ℕ → ℕ
  greg image_start_address uc i =
      if not (ltb i p.ngreg)
      then 0
      else if i == p.reg_ip
      then (uc.gregs i + greg_limit p - image_start_address) % greg_limit p
      else if i == p.reg_efl
      then bit_and (uc.gregs i) 0xd5
      else if i == p.reg_sp
      then 0xdeadbeef
      else if is_plain p i
      then uc.gregs i
      else 0

  unfoldable pub base_regs : ℕ → ℕ → Context → Reginfo
  base_regs xfeatures image_start_address uc = record {
    faulting_insn = uc.load (uc.gregs p.reg_ip);
    mxcsr = 0;
    xfeatures = xfeatures;
    gregs = greg image_start_address uc;
    vregs = λ i j. 0;
    kregs = λ i j. 0;
  }

  unfoldable pub take_xmm : Xstate → Reginfo → Reginfo
  take_xmm fp ri = record ri {
    mxcsr = fp.mxcsr;
    vregs = λ i.
        if ltb i nvecregs
        then copy_bytes 0 fp.bytes (p.xmm_offset + 16 * i) 16 (ri.vregs i)
        else ri.vregs i;
  }

  -- A block for one feature, with the test of `features`, the offset that it looks up, and what it
  -- stores from there.
  unfoldable pub take_feature : ℕ → Xstate → ℕ → (ℕ → Reginfo → Reginfo) → Reginfo → Outcome Reginfo
  take_feature xfeatures xs mask store ri =
      if has_feature xfeatures mask && has_feature xs.xfeatures mask
      then xsave_feature_buf xs mask >>= (λ buf. done (store buf ri))
      else done ri

  unfoldable pub store_ymm_hi128 : Xstate → ℕ → Reginfo → Reginfo
  store_ymm_hi128 xs buf ri = record ri {
    vregs = λ i.
        if ltb i nvecregs
        then copy_bytes 16 xs.bytes (buf + 16 * i) 16 (ri.vregs i)
        else ri.vregs i;
  }

  unfoldable pub store_opmask : Xstate → ℕ → Reginfo → Reginfo
  store_opmask xs buf ri = record ri {
    kregs = λ i. if ltb i 8 then copy_bytes 0 xs.bytes (buf + 8 * i) 8 (ri.kregs i) else ri.kregs i;
  }

  unfoldable pub store_zmm_hi256 : Xstate → ℕ → Reginfo → Reginfo
  store_zmm_hi256 xs buf ri = record ri {
    vregs = λ i.
        if ltb i nvecregs
        then copy_bytes 32 xs.bytes (buf + 32 * i) 32 (ri.vregs i)
        else ri.vregs i;
  }

  unfoldable pub store_hi16_zmm : Xstate → ℕ → Reginfo → Reginfo
  store_hi16_zmm xs buf ri = record ri {
    vregs = λ i.
        if leb 16 i && ltb i (16 + 16)
        then copy_bytes 0 xs.bytes (buf + 64 * (i - 16)) 64 (ri.vregs i)
        else ri.vregs i;
  }

  unfoldable pub take_features : ℕ → Xstate → Reginfo → Outcome Reginfo
  take_features xfeatures xs ri =
      take_feature xfeatures xs xfeat_avx (store_ymm_hi128 xs) ri
      >>= take_feature xfeatures xs xfeat_avx512_opmask (store_opmask xs)
      >>= take_feature xfeatures xs xfeat_avx512_zmm_hi256 (store_zmm_hi256 xs)
      >>= (λ r.
          if p.x86_64
          then take_feature xfeatures xs xfeat_avx512_hi16_zmm (store_hi16_zmm xs) r
          else done r)

  -- From `fp = ...` on.
  unfoldable pub take_fpregs : ℕ → Option Xstate → Reginfo → Outcome Reginfo
  take_fpregs xfeatures none ri = done ri
  take_fpregs xfeatures (some fp) ri =
      if not p.x86_64 && not (fp.magic == p.fxsr_magic)
      then done ri
      else let r = take_xmm fp ri in
        if not (fp.magic1 == p.xstate_magic1) then done r else take_features xfeatures fp r

  -- `reginfo_init`, with the static variable `xfeatures`.
  unfoldable pub reginfo_init : ℕ → ℕ → Context → Outcome Reginfo
  reginfo_init xfeatures image_start_address uc =
      take_fpregs xfeatures uc.fpregs (base_regs xfeatures image_start_address uc)

  unfoldable pub reginfo_size : Reginfo → ℕ
  reginfo_size ri =
      if p.x86_64 then 16 + p.ngreg * 8 + 32 * 64 + 64 else 16 + p.ngreg * 4 + 8 * 64 + 64

  -- `memcmp` of the whole structures, which have no padding.
  unfoldable pub reginfo_is_eq : Reginfo → Reginfo → Bool
  reginfo_is_eq m a =
      m.faulting_insn == a.faulting_insn
      && (all_from (λ i. m.gregs i == a.gregs i) p.ngreg 0
          && (m.mxcsr == a.mxcsr
              && (m.xfeatures == a.xfeatures
                  && (all_from (λ i. same_bytes (m.vregs i) (a.vregs i) 64 0)
                        (if p.x86_64 then 32 else 8) 0
                      && all_from (λ i. same_bytes (m.kregs i) (a.kregs i) 8 0) 8 0))))

unfoldable pub reginfo_update : Reginfo → Context → Context
reginfo_update ri uc = uc

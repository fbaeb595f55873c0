-- ===== src/CommandLine.antt =====
-- risu.c: `risu_main`, from what getopt_long returns to the exit status.
pub mod Replayed
use risu.Prelude.{
  ℕ, ◌%◌, ◌^◌, Bool, true, false, List, [], ◌∷◌, Option, none, some, if◌then◌else◌, ◌==◌, leb,
}
use risu.Prelude.Outcome.{Outcome, done, exits, aborts, ◌>>=◌}
use risu.Comms.{Descriptor}
use risu.Risu.Header.{Platform}
use risu.Risu.Arch.{Arch}
use risu.Risu.State.{State}
use risu.Risu.Run.{Stop, Machine, master, apprentice}

-- FIRST_ARCH_OPT
abbrev pub first_arch_opt : ℕ
first_arch_opt = 0x100

-- A call of getopt_long that does not return -1: its result, `optarg`, and whether it has set
-- `ismaster`, whose address is in the table.
pub record Parsed : Type 0 where
  pub value : ℕ
  pub optarg : List ℕ
  pub sets_master : Bool

-- The local variables of risu_main that the options set, `trace` and `ismaster`, and the options
-- of the architecture.
pub record Settings (A : Type 0) : Type 0 where
  pub port : ℕ
  pub hostname : List ℕ
  pub trace_fn : List ℕ
  pub trace : Bool
  pub ismaster : Bool
  pub arch_options : A

-- What risu_main calls. An `open` that fails is `none`; the other calls that fail end the program
-- themselves. `load_image` makes ready the machine that runs the image, up to its first signal.
pub record System (a : Arch) (A : Type 0) : Type 0 where
  pub strtol : List ℕ → ℕ
  pub process_arch_opt : ℕ → List ℕ → A → Outcome A
  pub open_to_write : List ℕ → Option Descriptor
  pub open_to_read : List ℕ → Option Descriptor
  pub stdout : Descriptor
  pub stdin : Descriptor
  pub master_connect : ℕ → Outcome Descriptor
  pub apprentice_connect : List ℕ → ℕ → Outcome Descriptor
  pub load_image : List ℕ → Outcome (Machine a × Option (Stop a))
  pub set_alternate_stack : Outcome (Unit {0})
  pub arch_init : A → Outcome (Unit {0})

-- `comm_fd < 0`
abbrev opened : Option Descriptor → Outcome Descriptor
opened none = exits
opened (some d) = done d

-- `strcmp(trace_fn, "-") == 0`
unfoldable pub is_dash : List ℕ → Bool
is_dash (c ∷ []) = c == b'-'
is_dash _ = false

module _ {a : Arch} {A : Type 0} (sys : System a A) where
  -- The `switch` of the loop; `none` is the return behind `usage()`.
  unfoldable pub take_option : Parsed → Settings A → Outcome (Option (Settings A))
  take_option o s =
      let s' = record s { ismaster = if o.sets_master then true else s.ismaster } in
      if o.value == 0
      then done (some s')
      else if o.value == b't'
      then done (some (record s' { trace_fn = o.optarg; trace = true }))
      else if o.value == b'h'
      then done (some (record s' { hostname = o.optarg }))
      else if o.value == b'p'
      then done (some (record s' { port = sys.strtol o.optarg % 2 ^ 16 }))
      else if o.value == b'?'
      then done none
      else if leb first_arch_opt o.value
      then sys.process_arch_opt o.value o.optarg s'.arch_options
        >>= (λ x. done (some (record s' { arch_options = x })))
      else aborts

  -- What follows one round of the loop.
  unfoldable pub next_option :
      (Settings A → Outcome (Option (Settings A)))
      → Option (Settings A)
      → Outcome (Option (Settings A))
  next_option again none = done none
  next_option again (some s) = again s

  -- The loop, over the calls of getopt_long up to the one that returns -1.
  unfoldable pub take_options : List Parsed → Settings A → Outcome (Option (Settings A))
  unfolding take_option next_option
  take_options [] s = done (some s)
  take_options (o ∷ os) s = take_option o s >>= next_option (take_options os)

  unfoldable pub open_comm : Settings A → Outcome Descriptor
  unfolding is_dash
  open_comm s =
      if s.trace
      then (if is_dash s.trace_fn
          then done (if s.ismaster then sys.stdout else sys.stdin)
          else opened
              (if s.ismaster then sys.open_to_write s.trace_fn else sys.open_to_read s.trace_fn))
      else if s.ismaster
      then sys.master_connect s.port
      else sys.apprentice_connect s.hostname s.port

  -- The static variables that risu_main sets.
  unfoldable pub with_settings : Settings A → Descriptor → State a → State a
  with_settings s d st = record st {
    trace = s.trace;
    signal_count = 0;
    illegal_instructions = 0;
    is_setup = false;
    comm = d;
  }

  -- From `load_image` on: whether the program succeeds. `rounds` bounds the signals.
  unfoldable pub run_image : Platform → ℕ → ℕ → Settings A → State a → List ℕ → Outcome Bool
  run_image p fuel rounds s st imgfile = do
    (machine, start) ← sys.load_image imgfile
    _ ← sys.set_alternate_stack
    _ ← sys.arch_init s.arch_options
    (report, ended) ←
        (if s.ismaster
          then master a p fuel rounds machine start st
          else apprentice a p fuel rounds machine start st)
    done report.exit_success

  -- `argv[optind]`, which is NULL behind the last argument.
  unfoldable pub with_image :
      Platform → ℕ → ℕ → Settings A → State a → Option (List ℕ) → Outcome Bool
  unfolding run_image
  with_image p fuel rounds s st none = done false
  with_image p fuel rounds s st (some imgfile) = run_image p fuel rounds s st imgfile

  unfoldable pub connected :
      Platform → ℕ → ℕ → Option (List ℕ) → State a → Option (Settings A) → Outcome Bool
  unfolding open_comm with_settings with_image
  connected p fuel rounds imgfile st none = done false
  connected p fuel rounds imgfile st (some s) =
      open_comm s >>= (λ d. with_image p fuel rounds s (with_settings s d st) imgfile)

  -- "localhost", 9191.
  unfoldable pub default_settings : A → Settings A
  default_settings x = record {
    port = 9191;
    hostname = b'l' ∷ b'o' ∷ b'c' ∷ b'a' ∷ b'l' ∷ b'h' ∷ b'o' ∷ b's' ∷ b't' ∷ [];
    trace_fn = [];
    trace = false;
    ismaster = false;
    arch_options = x;
  }

  -- `risu_main`, with the options of the architecture as they are at first: whether it returns
  -- EXIT_SUCCESS.
  unfoldable pub risu_main :
      Platform → ℕ → ℕ → A → List Parsed → Option (List ℕ) → State a → Outcome Bool
  unfolding take_options default_settings connected
  risu_main p fuel rounds x options imgfile st =
      take_options options (default_settings x) >>= connected p fuel rounds imgfile st

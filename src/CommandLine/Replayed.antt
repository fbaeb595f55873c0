-- ===== src/CommandLine/Replayed.antt =====
-- risu.c: two calls of risu_main, the first of which writes the trace that the second reads.
use risu.Prelude.{
  ℕ, ◌≡◌, refl, sym, ap, ◌∙◌, Bool, true, false, List, [], ◌++◌, Option, some, if◌then◌else◌,
  length,
}
use risu.Prelude.Outcome.{Outcome, done, ◌>>=◌}
use risu.Comms.{Descriptor}
use risu.Risu.Header.{Platform}
use risu.Risu.Header.Laws.{swaps}
use risu.Risu.Arch.{Arch}
use risu.Risu.State.{State, memblocklen}
use risu.Risu.Run.{Stop, Machine, Report, Ended, master, apprentice}
use risu.Risu.Lawful.{IsLawful, IsRepeatable}
use risu.Risu.Trace.Runs.{AllReady, trace_of, replay_status}
use risu.CommandLine.{
  Parsed, Settings, System, take_options, open_comm, with_settings, run_image, with_image,
  connected, default_settings, risu_main,
}

-- The start of a program on a trace file: its options, the opened file, and the image that runs
-- from `start` on.
pub record Starts {a : Arch} {A : Type 0} (sys : System a A) (x : A) (options : List Parsed)
    (imgfile : List ℕ) (is_master : Bool) (d : Descriptor) (machine : Machine a)
    (start : Option (Stop a)) : Type 0 where
  pub settings : Settings A
  pub parsed : take_options sys options (default_settings sys x) ≡ done (some settings)
  pub trace : settings.trace ≡ true
  pub ismaster : settings.ismaster ≡ is_master
  pub opens : open_comm sys settings ≡ done d
  pub reads : d.reads ≡ []
  pub writes : d.writes ≡ []
  pub loads : sys.load_image imgfile ≡ done (machine, start)
  pub stack : sys.set_alternate_stack ≡ done tt
  pub inits : sys.arch_init settings.arch_options ≡ done tt

-- The static variables behind the options.
abbrev pub started : {a : Arch} → Descriptor → State a → State a
started d st = record st {
  trace = true;
  signal_count = 0;
  illegal_instructions = 0;
  is_setup = false;
  comm = d;
}

abbrev succeeds : {a : Arch} → Outcome (Report × Ended a) → Outcome Bool
succeeds o = o >>= (λ r. done r.0.exit_success)

run_image_started :
    {a : Arch} {A : Type 0} (sys : System a A) (p : Platform) (fuel rounds : ℕ) (s : Settings A)
    (imgfile : List ℕ) (machine : Machine a) (start : Option (Stop a)) (st : State a)
    → sys.load_image imgfile ≡ done (machine, start)
    → sys.set_alternate_stack ≡ done tt
    → sys.arch_init s.arch_options ≡ done tt
    → run_image sys p fuel rounds s st imgfile
      ≡ succeeds (
          if s.ismaster
          then master a p fuel rounds machine start st
          else apprentice a p fuel rounds machine start st)
unfolding run_image
run_image_started sys p fuel rounds s imgfile machine start st l k i = rw (l, k, i)

run_started :
    {a : Arch} {A : Type 0} (sys : System a A) (p : Platform) (fuel rounds : ℕ) (x : A)
    (options : List Parsed) (imgfile : List ℕ) (is_master : Bool) (d : Descriptor)
    (machine : Machine a) (start : Option (Stop a)) (st : State a)
    → Starts sys x options imgfile is_master d machine start
    → risu_main sys p fuel rounds x options (some imgfile) st
      ≡ succeeds (
          if is_master
          then master a p fuel rounds machine start (started d st)
          else apprentice a p fuel rounds machine start (started d st))
unfolding risu_main connected run_image with_settings
run_started sys p fuel rounds x options imgfile is_master d machine start st h =
    ap (λ o. o >>= connected sys p fuel rounds (some imgfile) st) h.parsed
    ∙ ap
        (λ o. o >>= (λ d.
          with_image sys p fuel rounds h.settings (with_settings sys h.settings d st)
            (some imgfile)))
        h.opens
    ∙ run_image_started sys p fuel rounds h.settings imgfile machine start
        (with_settings sys h.settings d st) h.loads h.stack h.inits
    ∙ (λ i. succeeds (
        if h.ismaster i
        then master _ p fuel rounds machine start (record (started d st) { trace = h.trace i })
        else apprentice _ p fuel rounds machine start
            (record (started d st) { trace = h.trace i })))

-- The whole program, twice: if risu_main is called as a master with a trace file, and again as an
-- apprentice with a file that has what the first call writes, and perhaps more behind it, then
-- both calls end alike, with the same exit status if they end. The options of both calls are
-- accepted, the files open and are not disturbed, both images load and run as the same
-- deterministic machine, the stack and the architecture are set up, the architecture is lawful and
-- repeatable, its byte order needs no swap, the memory blocks agree at the start, and every stop
-- is ready.
pub risu_main-replayed :
    {a : Arch} {A : Type 0} (sys other : System a A) (p : Platform) (fuel rounds : ℕ) (x y : A)
    (master_options options : List Parsed) (imgfile copy : List ℕ) (d e : Descriptor)
    (machine : Machine a) (start : Option (Stop a)) (m n : State a) (rest : List ℕ)
    → IsLawful a
    → IsRepeatable a
    → swaps p.macro_little_endian p.arch_big_endian ≡ false
    → Starts sys x master_options imgfile true d machine start
    → Starts other y options copy false e machine start
    → m.arch_memblock ≡ n.arch_memblock
    → m.memblock ≡ n.memblock
    → length n.other_memblock ≡ memblocklen
    → AllReady a p fuel rounds machine start (started d m)
    → e.incoming ≡ trace_of a p fuel rounds machine start (started d m) ++ rest
    → risu_main sys p fuel rounds x master_options (some imgfile) m
      ≡ risu_main other p fuel rounds y options (some copy) n
risu_main-replayed {a} sys other p fuel rounds x y ms os img copy d e machine start m n rest w rep
      keeps hm hn arch block long ready file =
    run_started sys p fuel rounds x ms img true d machine start m hm
    ∙ replay_status a p fuel w rep keeps rounds machine start (started d m) (started e n) rest
        (record {
          master_tracing = record { trace_eq = refl; reads_eq = hm.reads; writes_eq = hm.writes };
          apprentice_tracing = record {
            trace_eq = refl;
            reads_eq = hn.reads;
            writes_eq = hn.writes;
          };
          setup_eq = refl;
          arch_memblock_eq = arch;
          memblock_eq = block;
          block_length = long;
        })
        ready file
    ∙ sym (run_started other p fuel rounds y os copy false e machine start n hn)

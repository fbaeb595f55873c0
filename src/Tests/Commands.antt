-- ===== src/Tests/Commands.antt =====
-- `risu --master -t f image` and `risu -t f image`.
use risu.Prelude.{ℕ, ◌≡◌, refl, sym, true, false, List, [], ◌∷◌, some}
use mathlib.Core.List.{append-nil}
use risu.Prelude.Outcome.{done}
use risu.Risu.Trace.Runs.{trace_of}
use risu.CommandLine.{
  Parsed, System, is_dash, take_option, take_options, open_comm, risu_main, default_settings,
}
use risu.CommandLine.Replayed.{Starts, risu_main-replayed}
use risu.Ppc64.Machine.{kept, mac_os_x-IsLawful, mac_os_x-IsRepeatable}
use risu.Tests.Toy.{file_of, length-zeros}
use risu.Tests.Mac.{mac, big, masks, at_end, next_stop, start_of, steps-AllReady}

-- A system whose one file has these bytes.
abbrev system : List ℕ → System mac (Unit {0})
system bytes = record {
  strtol = λ s. 7;
  process_arch_opt = λ opt arg x. done x;
  open_to_write = λ name. some (file_of []);
  open_to_read = λ name. some (file_of bytes);
  stdout = file_of [];
  stdin = file_of [];
  master_connect = λ port. done (file_of []);
  apprentice_connect = λ host port. done (file_of []);
  load_image = λ name. done (next_stop, next_stop (kept at_end));
  set_alternate_stack = done tt;
  arch_init = λ x. done tt;
}

abbrev file_option : Parsed
file_option = record { value = b't'; optarg = b'f' ∷ []; sets_master = false }

abbrev master_option : Parsed
master_option = record { value = 0; optarg = []; sets_master = true }

abbrev written : List ℕ
written = trace_of mac big 0 2 next_stop (next_stop (kept at_end)) (start_of [])

master-Starts :
    Starts
      (system [])
      tt
      (master_option ∷ file_option ∷ [])
      (b'i' ∷ [])
      true
      (file_of [])
      next_stop
      (next_stop (kept at_end))
unfolding take_options take_option open_comm is_dash default_settings
master-Starts = record {
  settings = record {
    port = 9191;
    hostname = b'l' ∷ b'o' ∷ b'c' ∷ b'a' ∷ b'l' ∷ b'h' ∷ b'o' ∷ b's' ∷ b't' ∷ [];
    trace_fn = b'f' ∷ [];
    trace = true;
    ismaster = true;
    arch_options = tt;
  };
  parsed = refl;
  trace = refl;
  ismaster = refl;
  opens = refl;
  reads = refl;
  writes = refl;
  loads = refl;
  stack = refl;
  inits = refl;
}

apprentice-Starts :
    Starts
      (system written)
      tt
      (file_option ∷ [])
      (b'i' ∷ [])
      false
      (file_of written)
      next_stop
      (next_stop (kept at_end))
unfolding take_options take_option open_comm is_dash default_settings
apprentice-Starts = record {
  settings = record {
    port = 9191;
    hostname = b'l' ∷ b'o' ∷ b'c' ∷ b'a' ∷ b'l' ∷ b'h' ∷ b'o' ∷ b's' ∷ b't' ∷ [];
    trace_fn = b'f' ∷ [];
    trace = true;
    ismaster = false;
    arch_options = tt;
  };
  parsed = refl;
  trace = refl;
  ismaster = refl;
  opens = refl;
  reads = refl;
  writes = refl;
  loads = refl;
  stack = refl;
  inits = refl;
}

risu_main-replayed_example :
    (risu_main
      (system [])
      big
      0
      2
      tt
      (master_option ∷ file_option ∷ [])
      (some (b'i' ∷ []))
      (start_of []))
    ≡ (risu_main (system written) big 0 2 tt (file_option ∷ []) (some (b'i' ∷ [])) (start_of []))
risu_main-replayed_example =
    risu_main-replayed (system []) (system written) big 0 2 tt tt (master_option ∷ file_option ∷ [])
      (file_option ∷ []) (b'i' ∷ []) (b'i' ∷ []) (file_of []) (file_of written) next_stop
      (next_stop (kept at_end)) (start_of []) (start_of []) [] (mac_os_x-IsLawful masks 4096 64)
      (mac_os_x-IsRepeatable masks 4096 64) refl master-Starts apprentice-Starts refl refl
      length-zeros steps-AllReady (sym (append-nil written))

-- ===== src/Risu/Run.antt =====
-- risu.c: running the image until a handler jumps out of it, and the exit status.
use risu.Prelude.{ℕ, zero, suc, Bool, true, false, Option, none, some}
use risu.Prelude.Outcome.{Outcome, done, hangs, ◌>>=◌}
use risu.Risu.Op.{
  RisuResult, res_end, res_mismatch_reg, res_mismatch_mem, res_mismatch_op, res_bad_io,
  res_bad_magic, res_bad_size_header, res_bad_size_reginfo, res_bad_size_memblock,
  res_bad_size_zero, res_bad_op, res_sigbus,
}
use risu.Risu.Header.{Platform}
use risu.Risu.Arch.{Arch}
use risu.Risu.State.{State}
use risu.Risu.Master.{Signal, Handled, resumes, jumps, master_sigill}
use risu.Risu.Apprentice.{apprentice_sigill}

-- A signal of the tested code: which one, `si_addr`, and the machine.
pub record Stop (a : Arch) : Type 0 where
  pub signal : Signal
  pub siaddr : ℕ
  pub context : a.Ucontext

-- `do_image` comes back only if the image returns; else a handler has jumped.
pub data Ended (a : Arch) : Type 0 where
  returned : State a → Ended a
  jumped : RisuResult → State a → Ended a

module _ (a : Arch) where
  -- The machine that runs the image: its next signal, if there is one before the image returns.
  abbrev pub Machine : Type 0
  Machine = a.Ucontext → Option (Stop a)

  abbrev pub Handler : Type 0
  Handler = Signal → ℕ → a.Ucontext → State a → Outcome (Handled a)

  -- What follows a handler, with the rest of the run as `again`.
  unfoldable pub after_handler :
      (Option (Stop a) → State a → Outcome (Ended a)) → Machine → Handled a → Outcome (Ended a)
  after_handler again machine (resumes uc st) = again (machine uc) st
  after_handler again machine (jumps r st) = done (jumped r st)

  -- `do_image`, with a bound on the signals that are handled.
  unfoldable pub do_image : ℕ → Handler → Machine → Option (Stop a) → State a → Outcome (Ended a)
  unfolding after_handler
  do_image fuel handler machine none st = done (returned st)
  do_image zero handler machine (some stop) st = hangs
  do_image (suc fuel) handler machine (some stop) st =
      handler stop.signal stop.siaddr stop.context st
      >>= after_handler (do_image fuel handler machine) machine

-- What the two ends print at last, apart from the place and the counts.
pub data Message : Type 0 where
  finished io_error bus_error returned_unexpectedly mismatch_reg mismatch_mem : Message
  mismatch_header unexpected_magic header_size reginfo_size_differs memblock_size : Message
  size_not_zero unexpected_opcode : Message
  unexpected_result : RisuResult → Message

pub record Report : Type 0 where
  pub message : Message
  pub closes_comm : Bool
  pub exit_success : Bool

failure : Message → Report
failure m = record { message = m; closes_comm = false; exit_success = false }

-- The cases of `master` behind `sigsetjmp`.
unfoldable pub master_report : RisuResult → Report
unfolding failure
master_report res_end = record { message = finished; closes_comm = true; exit_success = true }
master_report res_bad_io = failure io_error
master_report res_sigbus = record (failure bus_error) { closes_comm = true }
master_report r = record (failure (unexpected_result r)) { closes_comm = true }

-- Those of `apprentice`.
unfoldable pub apprentice_report : RisuResult → Report
unfolding failure
apprentice_report res_end = record { message = finished; closes_comm = false; exit_success = true }
apprentice_report res_mismatch_reg = failure mismatch_reg
apprentice_report res_mismatch_mem = failure mismatch_mem
apprentice_report res_mismatch_op = failure mismatch_header
apprentice_report res_bad_io = failure io_error
apprentice_report res_bad_magic = failure unexpected_magic
apprentice_report res_bad_size_header = failure header_size
apprentice_report res_bad_size_reginfo = failure reginfo_size_differs
apprentice_report res_bad_size_memblock = failure memblock_size
apprentice_report res_bad_size_zero = failure size_not_zero
apprentice_report res_bad_op = failure unexpected_opcode
apprentice_report res_sigbus = failure bus_error
apprentice_report r = failure (unexpected_result r)

module _ (a : Arch) (p : Platform) (fuel : ℕ) where
  unfoldable pub report_ended : (RisuResult → Report) → Ended a → Report
  unfolding failure
  report_ended report (returned st) = failure returned_unexpectedly
  report_ended report (jumped r st) = report r

  -- `master` and `apprentice`, on an image whose first signal is `start`.
  unfoldable pub master : ℕ → Machine a → Option (Stop a) → State a → Outcome (Report × Ended a)
  unfolding report_ended
  master rounds machine start st =
      do_image a rounds (master_sigill a p fuel) machine start st
      >>= (λ e. done (report_ended master_report e, e))

  unfoldable pub apprentice : ℕ → Machine a → Option (Stop a) → State a → Outcome (Report × Ended a)
  unfolding report_ended
  apprentice rounds machine start st =
      do_image a rounds (apprentice_sigill a p fuel) machine start st
      >>= (λ e. done (report_ended apprentice_report e, e))

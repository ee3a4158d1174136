-- ===== src/Main.antt =====
-- src/main.rs and the commands of src/cli/cli.rs: the count of the options for the configuration,
-- the dispatch, and the exit status. The parsing by clap and the logging are left out; the parsed
-- command line is a parameter.
use bbkar.Common.{ℕ, ltb, ◌==◌, Bool, not, ◌&&◌, ◌||◌, Option, none, some, List}
use bbkar.Common.{length, filter, is_some, if◌then◌else◌}
use bbkar.Common.Br.{Br, ok, err, panic, out_of_fuel}
use bbkar.Common.Io.{Io, ◌>>=◌, done}
use bbkar.Common.Text.{Text, text, text_eq, len}
use bbkar.Config.{SourceSpec}
use bbkar.Dryrun.{dryrun}
use bbkar.Ls.{strip_prefix}
use bbkar.Ls.Command.{ls}
use bbkar.Restore.Command.{RestoreArgs, restore, dryrestore}
use bbkar.Run.{run}
use bbkar.Status.{status}
use bbkar.Sync.{Host}

pub data Commands : Type 0 where
  status_of : Option Text → Commands
  ls_of : Option Text → Option Text → Commands
  run_of : Option Text → Commands
  dryrun_of : Bool → Option Text → Commands
  restore_of : RestoreArgs → Commands
  dryrestore_of : RestoreArgs → Commands

abbrev starts_with : Text → Text → Bool
starts_with prefix s = is_some (strip_prefix prefix s)

-- The test of the filter
unfoldable pub is_config_option : Text → Bool
unfolding text text_eq strip_prefix len
is_config_option a =
    text_eq a (text "--config")
    || text_eq a (text "-c")
    || starts_with (text "--config=") a
    || (starts_with (text "-c") a && ltb 2 (len a) && not (starts_with (text "--") a))

unfoldable pub config_count : List Text → ℕ
unfolding is_config_option
config_count args = length (filter is_config_option args)

-- A command for its effect
abbrev forget : {W A : Type 0} → Io W A → Io W (Unit {0})
forget m = m >>= λ a. done tt

-- How the process ends: with a status, or with a panic; `stuck` is a run out of fuel.
pub data Exit : Type 0 where
  exit : ℕ → Exit
  panicked : Exit
  stuck : Exit

module _ {W Stream : Type 0} (host : Host W Stream) (src : SourceSpec) where
  unfoldable pub dispatch : Text → Commands → Io W (Unit {0})
  unfolding status ls run dryrun restore dryrestore
  dispatch config_path (status_of name) = forget (status host config_path name)
  dispatch config_path (ls_of name restore_root) = forget (ls host config_path name restore_root)
  dispatch config_path (run_of name) = forget (run host config_path name)
  dispatch config_path (dryrun_of measure_send name) =
      forget (dryrun host measure_send config_path name)
  dispatch config_path (restore_of args) = restore host src config_path args
  dispatch config_path (dryrestore_of args) = forget (dryrestore host src config_path args)

  -- The end of `main`: an error is logged, and the result is `Ok`.
  unfoldable pub report : Br (Unit {0}) → Exit
  report (ok u) = exit 0
  report (err e) = exit 0
  report panic = panicked
  report out_of_fuel = stuck

  abbrev dispatched : Br (Unit {0}) × W → Exit × W
  dispatched (result, w) = (report result, w)

  abbrev with_path : Option Text → Commands → W → Exit × W
  with_path none command w = (panicked, w)
  with_path (some config_path) command w = dispatched (dispatch config_path command w)

  -- `main`, from the arguments, the option `--config` and the command that clap gives
  unfoldable pub main : List Text → Option Text → Commands → W → Exit × W
  unfolding config_count dispatch report
  main args config command w =
      if config_count args == 1 then with_path config command w else (exit 2, w)

-- ===== src/Dryrun.antt =====
-- src/cli/dryrun.rs: the command `dryrun`, which plans as `run` does and, if it is asked to,
-- measures the streams that a run would send. What is printed is left out.
pub mod Laws
use bbkar.Common.{ℕ, Bool, true, false, Option, none, some, List, [], ◌∷◌, if◌then◌else◌}
use bbkar.Common.Io.{Io, ◌>>=◌, done, lift}
use bbkar.Common.Text.{Text}
use bbkar.Executor.{Executor, MeasureResult}
use bbkar.Plan.{RunStep, send_full, send_incremental}
use bbkar.Planner.{build_plan}
use bbkar.Run.{chunks_of}
use bbkar.Stats.{ArchiveStats, default, add_size, from_meta, merge}
use bbkar.Sync.{Host, Callbacks, VolumeContext, for_each_sync}

-- The two cells that the closures of `dryrun` share
pub record DryrunTotals : Type 0 where
  pub sync_would_send_stats : ArchiveStats
  pub sync_remote_stats : ArchiveStats

abbrev pub is_step_incremental : RunStep → Bool
is_step_incremental (send_full snap) = false
is_step_incremental (send_incremental snap parent) = true

abbrev pub count_measured : DryrunTotals → RunStep → MeasureResult → DryrunTotals
count_measured totals step result = record {
  sync_would_send_stats =
      add_size totals.sync_would_send_stats (is_step_incremental step) result.compressed;
  sync_remote_stats =
      add_size totals.sync_remote_stats (is_step_incremental step) result.compressed;
}

module _ {W Stream : Type 0} (ex : Executor W Stream) (measure_send : Bool)
    (ctx : VolumeContext) where
  -- One round of the loop over the steps
  unfoldable pub dryrun_step : DryrunTotals → RunStep → Io W DryrunTotals
  unfolding add_size
  dryrun_step totals step =
      if measure_send
      then (do
        result ← ex.measure_subvolume (chunks_of ex ctx step)
        done (count_measured totals step result))
      else done totals

  unfoldable pub dryrun_steps : DryrunTotals → List RunStep → Io W DryrunTotals
  unfolding dryrun_step
  dryrun_steps totals [] = done totals
  dryrun_steps totals (step ∷ steps) = do
    counted ← dryrun_step totals step
    dryrun_steps counted steps

  unfoldable pub dryrun_volume : DryrunTotals → Io W DryrunTotals
  unfolding build_plan dryrun_steps merge from_meta
  dryrun_volume totals = do
    dest_state ← ex.inspect_dest_volume ctx.volume
    plan ← lift (build_plan ctx.src_state dest_state ctx.send_policy)
    dryrun_steps
        (record totals {
          sync_remote_stats = merge totals.sync_remote_stats (from_meta dest_state.meta);
        })
        plan.steps

abbrev no_stats : DryrunTotals
no_stats = record { sync_would_send_stats = default; sync_remote_stats = default }

module _ {W Stream : Type 0} (host : Host W Stream) (measure_send : Bool) where
  unfoldable pub dryrun_callbacks : Callbacks W DryrunTotals
  unfolding dryrun_volume
  dryrun_callbacks = record {
    on_sync_start = λ totals name src dest policy. done no_stats;
    on_volume = λ totals ctx.
        dryrun_volume (host.executor ctx.src_spec ctx.dest_spec) measure_send ctx totals;
    on_sync_end = λ totals name src dest policy. done totals;
  }

  unfoldable pub dryrun : Text → Option Text → Io W DryrunTotals
  unfolding dryrun_callbacks for_each_sync
  dryrun config_path name = for_each_sync host dryrun_callbacks config_path name no_stats

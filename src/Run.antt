-- ===== src/Run.antt =====
-- src/cli/run.rs: the command `run`. What it does with one volume of a sync is the closure
-- `on_volume`; what is printed is left out, and the totals are returned instead.
pub mod Safety
pub mod Steps
pub mod Others
pub mod Volumes
pub mod Whole
pub mod Total
pub mod Completes
use bbkar.Archive.{archive_of}
use bbkar.Common.{ℕ, ◌++◌, Option, none, some, List, [], ◌∷◌}
use bbkar.Common.Io.{Io, ◌>>=◌, done, lift}
use bbkar.Common.Text.{Text, text}
use bbkar.Dest.{
  ChunkFilename, VolumeArchive, DestMeta, DestState, add_u64, total_size, add_archive,
  set_last_sync_timestamp,
}
use bbkar.Dest
use bbkar.Executor.{Executor}
use bbkar.Plan.{RunStep, send_full, send_incremental, RunPlan}
use bbkar.Planner.{build_plan}
use bbkar.Stats.{ArchiveStats, from_meta, merge, default}
use bbkar.Stats
use bbkar.Sync.{VolumeContext, Host, Callbacks, for_each_sync}
use bbkar.Timestamp.{Timestamp}

-- The three cells that the closures of `run` share
pub record RunTotals : Type 0 where
  pub sync_sent_stats : ArchiveStats
  pub sync_remote_stats : ArchiveStats
  pub total_bytes_sent : ℕ

abbrev pub subvolume_name : Text → Timestamp → Text
subvolume_name volume snap = volume ++ (b'.' ∷ snap.raw)

unfoldable pub count_archive : RunTotals → VolumeArchive → RunTotals
unfolding Stats.add_archive total_size
count_archive totals archive = record totals {
  sync_sent_stats = Stats.add_archive totals.sync_sent_stats archive;
  total_bytes_sent = add_u64 totals.total_bytes_sent (total_size archive);
}

module _ {W Stream : Type 0} (ex : Executor W Stream) (ctx : VolumeContext) where
  abbrev pub chunks_of : RunStep → Stream
  chunks_of (send_full snap) = ex.read_subvolume_full (subvolume_name ctx.volume snap)
  chunks_of (send_incremental snap parent) =
      ex.read_subvolume_incremental (subvolume_name ctx.volume snap)
        (subvolume_name ctx.volume parent)

  abbrev raw_of : RunStep → Text
  raw_of (send_full snap) = snap.raw
  raw_of (send_incremental snap parent) = snap.raw

  -- One round of the loop, which updates `dest_meta` and the totals.
  unfoldable pub run_step : RunTotals → DestMeta → RunStep → Io W (RunTotals × DestMeta)
  unfolding count_archive add_archive set_last_sync_timestamp
  run_step totals dest_meta step = do
    chunk_files ←
        ex.write_subvolume ctx.volume (raw_of step) ctx.global.max_backup_chunk_size
          (chunks_of step)
    now ← ex.now_timestamp
    let archive = archive_of step chunk_files
    let updated = set_last_sync_timestamp (add_archive dest_meta archive) now
    written ← ex.write_metadata ctx.volume updated
    done (count_archive totals archive, updated)

  unfoldable pub run_steps : RunTotals → DestMeta → List RunStep → Io W (RunTotals × DestMeta)
  unfolding run_step
  run_steps totals dest_meta [] = done (totals, dest_meta)
  run_steps totals dest_meta (step ∷ steps) = do
    (counted, updated) ← run_step totals dest_meta step
    run_steps counted updated steps

  -- The metadata to add to: that of the destination, or one that starts now.
  abbrev pub first_meta : Option DestMeta → Io W DestMeta
  first_meta none = do now ← ex.now_timestamp; done (Dest.new now 0 [])
  first_meta (some meta) = done meta

  abbrev count_remote : RunTotals → Option DestMeta → RunTotals
  count_remote totals meta = record totals {
    sync_remote_stats = merge totals.sync_remote_stats (from_meta meta);
  }

  abbrev pub run_plan : RunTotals → Option DestMeta → List RunStep → Io W RunTotals
  run_plan totals meta [] = done (count_remote totals meta)
  run_plan totals meta (step ∷ steps) = do
    dest_meta ← first_meta meta
    (counted, updated) ← run_steps totals dest_meta (step ∷ steps)
    done (count_remote counted (some updated))

  unfoldable pub run_volume : RunTotals → Io W RunTotals
  unfolding build_plan Dest.new run_steps merge from_meta
  run_volume totals = do
    dest_state ← ex.inspect_dest_volume ctx.volume
    plan ← lift (build_plan ctx.src_state dest_state ctx.send_policy)
    run_plan totals dest_state.meta plan.steps

abbrev pub no_sync_stats : RunTotals → RunTotals
no_sync_stats totals = record totals { sync_sent_stats = default; sync_remote_stats = default }

module _ {W Stream : Type 0} (host : Host W Stream) where
  unfoldable pub run_callbacks : Callbacks W RunTotals
  unfolding run_volume
  run_callbacks = record {
    on_sync_start = λ totals name src dest policy. done (no_sync_stats totals);
    on_volume = λ totals ctx. run_volume (host.executor ctx.src_spec ctx.dest_spec) ctx totals;
    on_sync_end = λ totals name src dest policy. done totals;
  }

  -- It returns the totals that the command prints last.
  unfoldable pub run : Text → Option Text → Io W RunTotals
  unfolding run_callbacks for_each_sync
  run config_path name =
      for_each_sync host run_callbacks config_path name
        (record { sync_sent_stats = default; sync_remote_stats = default; total_bytes_sent = 0 })

-- ===== src/Status.antt =====
-- src/cli/status.rs: the command `status`. What it prints of a volume is returned as a record.
use bbkar.Common.{ℕ, Option, none, some, List, [], ◌∷◌, ◌++◌, length}
use bbkar.Common.Io.{Io, ◌>>=◌, done, lift}
use bbkar.Common.Text.{Text, text}
use bbkar.Dest.{VolumeArchive, DestMeta, oldest_archive, newest_archive}
use bbkar.Source.{oldest_snapshot, newest_snapshot}
use bbkar.Stats.{ArchiveStats, from_meta}
use bbkar.Sync.{Host, VolumeContext, for_each_sync, only_volumes}

pub record StatusReport : Type 0 where
  pub local_count : ℕ
  pub local_oldest : Text
  pub local_newest : Text
  pub remote_oldest : Text
  pub remote_newest : Text
  pub remote_usage : ArchiveStats

abbrev raw_or_default : Option VolumeArchive → Text
raw_or_default none = []
raw_or_default (some a) = a.timestamp.raw

unfoldable pub shown_archive : (DestMeta → Option VolumeArchive) → Option DestMeta → Text
unfolding text
shown_archive choose none = text "None"
shown_archive choose (some meta) = raw_or_default (choose meta)

module _ {W Stream : Type 0} (host : Host W Stream) where
  unfoldable pub status_volume : List StatusReport → VolumeContext → Io W (List StatusReport)
  unfolding oldest_snapshot newest_snapshot oldest_archive newest_archive shown_archive from_meta
  status_volume reports ctx = do
    oldest ← lift (oldest_snapshot ctx.src_state.volume)
    newest ← lift (newest_snapshot ctx.src_state.volume)
    dest_state ← (host.executor ctx.src_spec ctx.dest_spec).inspect_dest_volume ctx.volume
    done (
        reports
        ++ record {
          local_count = length ctx.src_state.volume.snapshots;
          local_oldest = oldest.raw;
          local_newest = newest.raw;
          remote_oldest = shown_archive oldest_archive dest_state.meta;
          remote_newest = shown_archive newest_archive dest_state.meta;
          remote_usage = from_meta dest_state.meta;
        }
          ∷ [])

  unfoldable pub status : Text → Option Text → Io W (List StatusReport)
  unfolding status_volume only_volumes for_each_sync
  status config_path name = for_each_sync host (only_volumes status_volume) config_path name []

-- ===== src/Executor.antt =====
-- src/service/executor/mod.rs: the trait `Executor`, for the source and the destination of one
-- sync.
-- Streams of `btrfs send` and the world that the operations act on are types of the
-- implementation.
pub mod Real
use bbkar.Common.{ℕ, Option, ◌≡◌, ◌≢◌, ◌⊎◌, some, List, [], ◌∷◌, ◌++◌}
use bbkar.Common.Br.{ok}
use bbkar.Common.Io.{Io, SucceedsIn}
use bbkar.Common.Text.{Text}
use bbkar.Dest.{
  ChunkFilename, VolumeArchive, DestMeta, DestState, sort_archives, add_archive,
  set_last_sync_timestamp,
}
use bbkar.Common.Sort.{sort-IsSorted, sort-of_IsSorted}
use bbkar.Timestamp.{timestamp_order}
use bbkar.Storage.Components.{IsVolumeName}

-- src/service/executor/measure.rs
pub record MeasureResult : Type 0 where
  pub compressed : ℕ
  pub uncompressed : ℕ

pub record Executor (W Stream : Type 0) : Type 0 where
  pub inspect_dest_volume : Text → Io W DestState
  pub read_subvolume_full : Text → Stream
  pub read_subvolume_incremental : Text → Text → Stream
  pub write_metadata : Text → DestMeta → Io W (Unit {0})
  pub write_subvolume : Text → Text → ℕ → Stream → Io W (List ChunkFilename)
  pub measure_subvolume : Stream → Io W MeasureResult
  pub restore_archive : Text → VolumeArchive → Text → Io W (Unit {0})
  -- `now_timestamp` of src/cli/run.rs, the seconds of the clock
  pub now_timestamp : Io W ℕ

-- The archives are in the order of their timestamps, as every operation on metadata leaves them.
abbrev pub IsOrdered : DestMeta → Type 0
IsOrdered m = sort_archives m.archives ≡ m.archives

pub add_archive-IsOrdered :
    (m : DestMeta) (a : VolumeArchive) (now : ℕ)
    → IsOrdered (set_last_sync_timestamp (add_archive m a) now)
unfolding add_archive set_last_sync_timestamp
add_archive-IsOrdered m a now =
    sort-of_IsSorted timestamp_order (λ (b : VolumeArchive). b.timestamp) _
      (sort-IsSorted timestamp_order (λ (b : VolumeArchive). b.timestamp) (m.archives ++ a ∷ []))

-- What the destination keeps of the volumes with names that every backend tells apart: `stored` is
-- the
-- metadata of a volume in a world.
pub record Keeps {W Stream : Type 0} (ex : Executor W Stream) (stored : W → Text → Option DestMeta)
    : Type 0 where
  -- Reading changes nothing and returns what is stored.
  pub inspect_keeps :
      (v u : Text) (w : W) → IsVolumeName v → stored (ex.inspect_dest_volume v w).1 u ≡ stored w u
  pub inspect_reads :
      (v : Text) (w : W) (d : DestState)
      → IsVolumeName v
      → (ex.inspect_dest_volume v w).0 ≡ ok d
      → d.meta ≡ stored w v
  pub now_keeps : (v : Text) (w : W) → stored (ex.now_timestamp w).1 v ≡ stored w v
  -- The chunks of a snapshot are other files than the metadata.
  pub upload_keeps :
      (v snapshot : Text) (size : ℕ) (chunks : Stream) (u : Text) (w : W)
      → stored (ex.write_subvolume v snapshot size chunks w).1 u ≡ stored w u
  pub measure_keeps :
      (chunks : Stream) (u : Text) (w : W) → stored (ex.measure_subvolume chunks w).1 u ≡ stored w u
  -- A write of the metadata that fails has written all of it or nothing.
  pub write_whole :
      (v : Text) (m : DestMeta) (w : W)
      → IsVolumeName v
      → IsOrdered m
      → (stored (ex.write_metadata v m w).1 v ≡ stored w v)
        ⊎ (stored (ex.write_metadata v m w).1 v ≡ some m)
  -- The metadata of another volume is another file.
  pub write_other :
      (v u : Text) (m : DestMeta) (w : W)
      → IsVolumeName v
      → IsVolumeName u
      → IsOrdered m
      → u ≢ v
      → stored (ex.write_metadata v m w).1 u ≡ stored w u
  pub write_ok :
      (v : Text) (m : DestMeta) (w : W)
      → IsVolumeName v
      → IsOrdered m
      → (ex.write_metadata v m w).0 ≡ ok tt
      → stored (ex.write_metadata v m w).1 v ≡ some m

-- An executor none of whose operations fails in the worlds of `Fine`, which they do not leave:
-- those
-- operations that `run` calls
pub record Works {W Stream : Type 0} (ex : Executor W Stream) (Fine : W → Type 0) : Type 0 where
  pub inspect_works :
      (v : Text) (w : W) → IsVolumeName v → Fine w → SucceedsIn Fine (ex.inspect_dest_volume v w)
  pub now_works : (w : W) → Fine w → SucceedsIn Fine (ex.now_timestamp w)
  pub upload_works :
      (v snapshot : Text) (size : ℕ) (chunks : Stream) (w : W)
      → Fine w
      → SucceedsIn Fine (ex.write_subvolume v snapshot size chunks w)
  pub write_works :
      (v : Text) (m : DestMeta) (w : W)
      → IsVolumeName v
      → IsOrdered m
      → Fine w
      → SucceedsIn Fine (ex.write_metadata v m w)

-- ===== src/Archive.antt =====
-- src/cli/run.rs: the archive that a step of a run records in the metadata.
use bbkar.Common.{◌≡◌, refl, none, some, List}
use bbkar.Dest.{ChunkFilename, VolumeArchive}
use bbkar.Plan.{RunStep, send_full, send_incremental}
use bbkar.Timestamp.{Timestamp}

abbrev pub archive_of : RunStep → List ChunkFilename → VolumeArchive
archive_of (send_full snap) chunks = record {
  timestamp = snap;
  parent_timestamp = none;
  chunks = chunks;
}
archive_of (send_incremental snap parent) chunks = record {
  timestamp = snap;
  parent_timestamp = some parent.raw;
  chunks = chunks;
}

abbrev pub snapshot_of : RunStep → Timestamp
snapshot_of (send_full snap) = snap
snapshot_of (send_incremental snap parent) = snap

pub timestamp-archive_of :
    (step : RunStep) (chunks : List ChunkFilename)
    → (archive_of step chunks).timestamp ≡ snapshot_of step
timestamp-archive_of (send_full snap) chunks = refl
timestamp-archive_of (send_incremental snap parent) chunks = refl

-- ===== src/Lib.antt =====
-- bbkar sends the btrfs snapshots of a source to a destination, in full or on top of a parent,
-- keeps metadata of what it has sent, and restores snapshots from there. This library models its
-- core and proves what it relies on.
--
-- The parts and their files:
-- - Timestamp, Source: src/model/source.rs, the names of snapshots, their order, and the sorted
--   series of one volume. Timestamp.parse is Timestamp::parse; the comparison is the derived Ord.
-- - Dest, Dest/Lookup: src/model/dest.rs, the metadata of a volume at the destination, as a list
--   of archives that every operation keeps sorted. Dest/Lookup has the lookup by name, the
--   well-formed metadata (IsSound) and what adding an archive does to them.
-- - Plan: src/model/plan.rs, the steps of plans.
-- - Duration, Policy, Config: src/utils/duration.rs, src/model/policy.rs, src/model/config.rs.
--   Config's from_config is from_toml after the TOML reader; Config/Valid is about what it accepts,
--   Duration/Ascii about panics of the parsers.
-- - ChunkWriter: src/service/executor/write_dest.rs, ChunkedWriter over files and a digest, and
--   ChunkWriter/Sizes about the sizes that it records, ChunkWriter/Names about the names of the
--   chunks, ChunkWriter/Frame about what it leaves alone. The calls that the encoder makes are a
--   list.
-- - ChunkReader: src/service/executor/read_dest.rs, ChunkStreamReader over a read of objects, and
--   ChunkReader/Stream about what it yields, ChunkReader/Parts and ChunkReader/Written about the
--   files of the writer. Its loop has as much fuel as chunks are left, and one more.
-- - Planner: src/service/planner/mod.rs, build_plan with its sets and caches as lists.
--   Planner/Spec has the specification; Planner/Step and Planner/Refine compare a round of the
--   code's loop and the whole of it with it, with the lemmas on chains and parents of Planner/Depth
--   and Planner/Candidate; Planner/Effects, Planner/Limit and Planner/Result say what a plan does,
--   and Planner/Total when there is one.
-- - RestorePlan: build_restore_plan of the same file, and RestorePlan/Chain what it returns.
-- - Executor: src/service/executor/mod.rs, the trait Executor as a record of operations on a
--   world, with the record Keeps of laws on the metadata that a world stores, and Works of an
--   executor that does not fail. Executor/Real is RealExecutor of src/service/executor/impl.rs over
--   Storage and ChunkWriter, against these laws.
-- - Inspect: src/service/executor/inspect_source.rs, the volumes of a source directory, with
--   Inspect/Groups on what they hold and Inspect/Volumes on what they are like.
-- - Sync: src/cli/mod.rs, load_config, for_each_sync and for_each_volume, over a Host (the files,
--   the TOML reader, the directories, and the executor of a source and a destination) and the
--   callbacks of a command. Sync/Walk says what every such walk keeps.
-- - Run, Archive, Stats: src/cli/run.rs and ArchiveStats of src/cli/mod.rs, the command `run`.
--   Each operation returns a result and a world, so that what is stored when a step fails is part of
--   the model. build_plan and the executor are called as in the code. Run/Steps and Run/Safety are
--   about the run of one volume, Run/Others about the other volumes, Run/Volumes and Run/Whole about
--   the command, and Run/Total and Run/Completes about a run in which no operation fails.
-- - Dryrun, Ls, Status: src/cli/dryrun.rs, src/cli/ls.rs and src/cli/status.rs, the commands that
--   report. They return as data what the code prints. Dryrun/Laws is about what dryrun leaves alone,
--   Ls/Tables is about the two tables, and Ls/Command and Ls/Reads are the command and what it
--   leaves alone.
-- - Restore: src/cli/restore.rs, the choice of targets (Restore/Resolve), the merge of their plans
--   (Restore/Merge, over the lists of Restore/Steps), the order of the steps (Restore/Order) and the
--   loop that applies them (Restore/Sequence), and the commands `restore` and `dryrestore`
--   (Restore/Command, Restore/Whole).
-- - Send: src/service/executor/btrfs_send.rs, compress.rs and measure.rs, the chunks that btrfs
--   sends and the loop that compresses or measures them; Send/Stream is about what reaches the sink.
-- - Receive: restore_archive of src/service/executor/impl.rs.
-- - Storage: src/service/executor/inspect_dest.rs, opendal.rs and write_metadata_to_dest of
--   write_dest.rs, where the metadata is kept. Storage/Laws has what the file system, OpenDAL and
--   YAML document, Storage/Components and Storage/Paths the paths, and Storage/Write and
--   Storage/Metadata what a write leaves and a read finds. Storage/Chunks has open_next_chunk and
--   ChunkOutput of write_dest.rs, the files and objects of chunks, and Storage/Parts is about their
--   paths beside those of the metadata.
-- - Sudo: src/service/executor/sudo.rs and the command lines of src/service/executor/impl.rs, with
--   the session of sudo in Sudo/Session.
-- - Main: src/main.rs and the commands of src/cli/cli.rs, with the exit status.
-- - RoundTrip: a plan of a run carried out, and then the restore plan of each snapshot.
-- - Wildcard: src/utils/wildcard.rs, the table of one row (Wildcard/Rows) and the patterns that it
--   decides (Wildcard/Match).
-- - Common: Boolean tests, lists, orders, sets, texts, results, and the sort. Tests: runs at
--   concrete inputs.
--
-- How they interact: Main dispatches to a command; run, dryrun and status walk the configuration
-- with Sync, ls and restore choose one sync of it; they call Planner on the snapshots of Inspect
-- and the metadata of Dest, and carry the plan out through Executor. Send, ChunkWriter,
-- ChunkReader, Receive and Storage are what stands behind the operations of an executor.
--
-- Conventions: a text is the list of its characters' code points. Numbers are natural numbers, and
-- additions of machine integers wrap where the code's do in a release build. A result is a value,
-- an error, a panic, or `out_of_fuel`. compute_depth and the walk of build_restore_plan run on
-- fuel, one more than the number of archives: over well-formed metadata a parent has a smaller
-- name, so no chain is longer. The loops of Send over a stream run on fuel: two more than the
-- chunks that the stream gives is enough, since each round takes one, the end takes one, and one
-- stays.
--
-- Not modelled: the wording of what is printed and logged, the display of sizes and speeds
-- (floating point), the parsing by clap, the builders of OpenDAL in summon_operator, and btrfs and
-- zstd themselves. What stands outside is a parameter: the file system, the OpenDAL operators, the
-- YAML and TOML readers, child processes, clocks and encoders, with laws that say what their
-- documentation says. The commands are stated over an executor with the laws Keeps, for volumes
-- with plain names (IsVolumeName: no slash, and none of the empty name, `.` and `..`, which a local
-- destination does not tell apart from directories) and metadata whose archives are sorted, as the
-- operations of Dest leave them: a read of the metadata returns what is stored, a write of it
-- stores all or nothing (the code renames a temporary file), and the other operations leave it.
-- Storage/Laws and Storage/Parts take the destination to have no links: two paths that part by
-- different plain names lead to different files.
pub mod Common
pub mod Timestamp
pub mod Source
pub mod Dest
pub mod Plan
pub mod Duration
pub mod Policy
pub mod Config
pub mod Archive
pub mod Planner
pub mod Stats
pub mod Executor
pub mod Inspect
pub mod Sync
pub mod Send
pub mod ChunkWriter
pub mod ChunkReader
pub mod Run
pub mod Dryrun
pub mod Status
pub mod Ls
pub mod Storage
pub mod Sudo
pub mod Receive
pub mod RestorePlan
pub mod Restore
pub mod RoundTrip
pub mod Wildcard
pub mod Main
pub mod Tests

-- ===== src/Tests/Completing.antt =====
-- The command `run` with the executor of the program, over storage in memory, where no operation
-- fails and where every stream does.
use bbkar.Common.{◌≡◌, refl, sym, ◌∙◌, subst, arith, none, some, [], ◌∷◌, All}
use bbkar.Common.Br.{ok, err, execution, ok_injective}
use bbkar.Common.Io.{Succeeds}
use bbkar.Dest.Lookup.{lookup, IsSound}
use bbkar.Duration.{finite, all, day, year, sunday}
use bbkar.Executor.{Executor, Keeps}
use bbkar.Executor.Real.{Machine, LeavesFiles, real_executor, real_executor-Keeps}
use bbkar.Inspect.{inspect_source}
use bbkar.Policy.{ResolvedSyncPolicy, from_sync_spec}
use bbkar.Run.{run, run_volume}
use bbkar.Run.Completes.{Dated, run-Completes}
use bbkar.Run.Safety.{run_volume-IsSafe, run_volume-Covers}
use bbkar.Run.Steps.{IsSafe, Covers, stored_archives}
use bbkar.Run.Total.{run_volume-ok}
use bbkar.Run.Volumes.{AreNamed, AllSound, SafeFrom, CoversAll, OfVolume}
use bbkar.Run.Whole.{AreFew, Archived, run-IsSafe, run-Covers}
use bbkar.Sync.{Host, States, load_config}
use bbkar.Tests.Coding.{total_codec, total_codec-IsCodec}
use bbkar.Tests.Configuring.{with_path, one_name, sync_spec}
use bbkar.Tests.Data.{days-IsAscii, source_state, snapshots-IsOldestFirst}
use bbkar.Tests.Real.{
  two_bytes, two_bytes-LeavesFiles, nothing_kept, chunks_in_memory, in_memory, in_memory-Keeps,
}
use bbkar.Tests.Real.{chunks_in_memory-IsChunkStore, in_memory-Works, backup, meta_in_memory}
use bbkar.Tests.Running.{context, no_totals}
use bbkar.Tests.Storing.{Memory, memory, memory-IsStorage, v-IsVolumeName}
use bbkar.Tests.Whole.{volumes, only, listed, directory}

-- A machine whose streams all fail
abbrev broken : Machine Memory (Unit {0})
broken = record two_bytes { encode = λ s. record { calls = []; ended = err (execution []) } }

broken-LeavesFiles : LeavesFiles broken (λ w. w)
broken-LeavesFiles = record { measure_leaves = λ s w k. refl; clock_leaves = λ w k. refl }

abbrev failing : Executor Memory (Unit {0})
failing = real_executor memory chunks_in_memory total_codec nothing_kept broken backup

failing-Keeps : Keeps failing meta_in_memory
failing-Keeps =
    real_executor-Keeps nothing_kept memory-IsStorage chunks_in_memory-IsChunkStore
      total_codec-IsCodec broken-LeavesFiles backup

abbrev nothing : Memory
nothing k = none

nothing-IsSound : IsSound []
unfolding lookup
nothing-IsSound = record { distinct = tt; rooted = λ r a p found parent. ground arith }

run_volume-IsSafe_example :
    IsSafe meta_in_memory (b'v' ∷ []) [] (run_volume failing context no_totals nothing).1
run_volume-IsSafe_example =
    run_volume-IsSafe failing-Keeps context v-IsVolumeName no_totals nothing snapshots-IsOldestFirst
      nothing-IsSound (omega arith)

succeeded : Succeeds (run_volume in_memory context no_totals nothing)
succeeded =
    let (first, second, third) = days-IsAscii in
    (run_volume-ok in_memory-Works context v-IsVolumeName in_memory-Keeps no_totals nothing
      nothing-IsSound (omega arith) (tt, (first, (second, (third, tt)))) tt).0

run_volume-Covers_example :
    Covers source_state.volume.snapshots (
      stored_archives meta_in_memory (b'v' ∷ []) (run_volume in_memory context no_totals nothing).1)
run_volume-Covers_example =
    run_volume-Covers in_memory-Keeps context v-IsVolumeName no_totals nothing
      snapshots-IsOldestFirst nothing-IsSound (omega arith) succeeded.0 succeeded.1

abbrev host_with : Executor Memory (Unit {0}) → Host Memory (Unit {0})
host_with ex = record {
  read_to_string = λ path w. ok path;
  from_str = λ content. ok (with_path (b'/' ∷ b's' ∷ []));
  directory = λ path w. directory;
  executor = λ src dest. ex;
}

nothing-AllSound : AllSound meta_in_memory nothing
nothing-AllSound v named = nothing-IsSound

volumes-AreNamed : AreNamed volumes
volumes-AreNamed =
    (v-IsVolumeName, (((refl, tt), (λ e. ground arith, λ e. ground arith, λ e. ground arith)), tt))

few : AreFew meta_in_memory nothing volumes
few = (omega arith, (omega arith, tt))

named_and_few :
    (states : States)
    → inspect_source directory only.src ≡ ok states
    → AreNamed states × AreFew meta_in_memory nothing states
named_and_few states h =
    subst (λ s. AreNamed s × AreFew meta_in_memory nothing s) (ok_injective (sym listed ∙ h))
      (volumes-AreNamed, few)

loaded :
    (ex : Executor Memory (Unit {0}))
    → load_config (host_with ex) [] nothing ≡ (ok (with_path (b'/' ∷ b's' ∷ [])), nothing)
unfolding load_config
loaded ex = refl

-- The first stream fails.
run-IsSafe_example :
    SafeFrom meta_in_memory nothing (run (host_with failing) [] (some one_name) nothing).1
run-IsSafe_example =
    run-IsSafe (host_with failing) (with_path (b'/' ∷ b's' ∷ [])) only failing-Keeps nothing
      nothing-AllSound named_and_few [] (some one_name) (loaded failing)

abbrev resolved_policy : ResolvedSyncPolicy
resolved_policy = record {
  send = record { min_full_send_interval = record { days = 7 }; max_incremental_depth = some 3 };
  retention = record {
    archive_preserve_min = none;
    archive_preserve = some (record {
      buckets = record { count = finite 30; unit = day } ∷ record { count = all; unit = year } ∷ [];
    });
    preserve_day_of_week = sunday;
  };
}

resolved : from_sync_spec sync_spec ≡ ok resolved_policy
unfolding from_sync_spec
resolved = refl

volumes-Dated : All (OfVolume Dated meta_in_memory nothing) volumes
volumes-Dated =
    let (first, second, third) = days-IsAscii in
    ((tt, (first, (second, tt))), ((tt, (first, tt)), tt))

completed :
    Succeeds (run (host_with in_memory) [] none nothing)
    × CoversAll meta_in_memory sync_spec.filter volumes
        (run (host_with in_memory) [] none nothing).1
completed =
    run-Completes (host_with in_memory) (with_path (b'/' ∷ b's' ∷ [])) only in_memory-Keeps
      in_memory-Works nothing tt nothing-AllSound volumes listed volumes-AreNamed few volumes-Dated
      resolved_policy resolved [] none (loaded in_memory) refl

run-Completes_example :
    Succeeds (run (host_with in_memory) [] none nothing)
    × CoversAll meta_in_memory sync_spec.filter volumes
        (run (host_with in_memory) [] none nothing).1
run-Completes_example =
    run-Completes (host_with in_memory) (with_path (b'/' ∷ b's' ∷ [])) only in_memory-Keeps
      in_memory-Works nothing tt nothing-AllSound volumes listed volumes-AreNamed few volumes-Dated
      resolved_policy resolved [] none (loaded in_memory) refl

run-Covers_example :
    Archived
      (host_with in_memory)
      (with_path (b'/' ∷ b's' ∷ []))
      only
      in_memory-Keeps
      nothing
      nothing-AllSound
      named_and_few
      (run (host_with in_memory) [] none nothing).1
run-Covers_example =
    run-Covers (host_with in_memory) (with_path (b'/' ∷ b's' ∷ [])) only in_memory-Keeps nothing
      nothing-AllSound named_and_few [] none completed.0.0 (loaded in_memory) completed.0.1

real_executor-Keeps_example : Keeps in_memory meta_in_memory
real_executor-Keeps_example =
    real_executor-Keeps nothing_kept memory-IsStorage chunks_in_memory-IsChunkStore
      total_codec-IsCodec two_bytes-LeavesFiles backup

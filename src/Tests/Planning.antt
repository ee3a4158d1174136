-- ===== src/Tests/Planning.antt =====
-- The planner at the snapshots of the test data.
use mathlib.Core.Option.{bind}
use bbkar.Common.{◌≡◌, refl, true, some, [], ◌∷◌, All, is_some}
use bbkar.Common.{take, arith}
use bbkar.Common.Br.{ok}
use bbkar.Common.Text.{Text, text_eq, compare_text}
use bbkar.Dest.{VolumeArchive}
use bbkar.Dest.Lookup.{lookup, IsSound}
use bbkar.Common.Text.{rsplit_once}
use bbkar.Timestamp.{parse, split_seq}
use bbkar.Plan.{RestorePlan, RunPlan, send_full, send_incremental}
use bbkar.Planner.{build_plan, last_full_of}
use bbkar.Planner.Refine.{build_plan-Plans}
use bbkar.Planner.Result.{build_plan-IsSound, build_plan_complete, build_plan-KeepsLimit}
use bbkar.Planner.Effects.{IsMissing, AllDistinct}
use bbkar.Planner.Limit.{KeepsLimit}
use bbkar.Planner.Spec.{Plans, store_all}
use bbkar.RestorePlan.{build_restore_plan}
use bbkar.RestorePlan.Chain.{AllParsed, Restores}
use bbkar.RoundTrip.{build_plan-build_restore_plan}
use bbkar.Timestamp.{IsParsed}
use bbkar.Planner.Total.{build_plan-ok}
use bbkar.Tests.Data.{days-IsAscii}
use bbkar.Tests.Data.{snapshot, source_state, dest_state, metadata, policy, no_chunks}
use bbkar.Tests.Data.{snapshots-IsOldestFirst, metadata-IsSound}
use bbkar.Timestamp.{compare_timestamp}

abbrev expected : RunPlan
expected = record {
  steps = send_incremental (snapshot b'2') (snapshot b'1') ∷ send_full (snapshot b'3') ∷ [];
}

planned : build_plan source_state dest_state policy ≡ ok expected
unfolding build_plan text_eq compare_timestamp compare_text bind
planned = refl

build_plan-Plans_example :
    Plans policy source_state.volume.snapshots metadata.archives
      (last_full_of metadata.archives)
      source_state.volume.snapshots
      expected.steps
build_plan-Plans_example =
    build_plan-Plans source_state dest_state policy snapshots-IsOldestFirst metadata-IsSound
      (omega arith) planned

build_plan-IsSound_example : IsSound (store_all no_chunks metadata.archives (take 1 expected.steps))
build_plan-IsSound_example =
    build_plan-IsSound source_state dest_state policy no_chunks snapshots-IsOldestFirst
      metadata-IsSound (omega arith) planned 1

build_plan_complete_example :
    All
      (λ s. is_some (lookup (store_all no_chunks metadata.archives expected.steps) s.raw) ≡ true)
      source_state.volume.snapshots
    × ((r : Text) (a : VolumeArchive)
        → lookup metadata.archives r ≡ some a
        → lookup (store_all no_chunks metadata.archives expected.steps) r ≡ some a)
    × All (IsMissing metadata.archives) expected.steps
    × AllDistinct expected.steps
build_plan_complete_example =
    build_plan_complete source_state dest_state policy no_chunks snapshots-IsOldestFirst
      metadata-IsSound (omega arith) planned

build_plan-KeepsLimit_example :
    All
      (KeepsLimit policy source_state.volume.snapshots no_chunks
        (store_all no_chunks metadata.archives expected.steps))
      expected.steps
build_plan-KeepsLimit_example =
    build_plan-KeepsLimit source_state dest_state policy no_chunks snapshots-IsOldestFirst
      metadata-IsSound (omega arith) planned

snapshots-IsParsed : All IsParsed source_state.volume.snapshots
unfolding parse split_seq rsplit_once
snapshots-IsParsed = (refl, (refl, (refl, tt)))

metadata-AllParsed : AllParsed metadata.archives
unfolding parse split_seq rsplit_once
metadata-AllParsed = (refl, tt)

build_plan-build_restore_plan_example :
    All
      (λ s.
        (p : RestorePlan) × (build_restore_plan
            (store_all no_chunks metadata.archives expected.steps)
            s
          ≡ ok p)
        × Restores (store_all no_chunks metadata.archives expected.steps) s.raw p.steps)
      source_state.volume.snapshots
build_plan-build_restore_plan_example =
    build_plan-build_restore_plan source_state dest_state policy no_chunks snapshots-IsOldestFirst
      metadata-IsSound (omega arith) metadata-AllParsed snapshots-IsParsed planned

build_plan-ok_example : (plan : RunPlan) × (build_plan source_state dest_state policy ≡ ok plan)
build_plan-ok_example =
    build_plan-ok source_state dest_state policy metadata-IsSound (omega arith) (days-IsAscii.0, tt)
      (days-IsAscii.0, (days-IsAscii.1, (days-IsAscii.2, tt)))

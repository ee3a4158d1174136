-- ===== src/Planner/Result.antt =====
-- What a plan that follows the specification leaves at the destination when it is carried out.
use bbkar.Common.{ℕ, ◌+◌, ◌^◌, ◌<◌, ◌≡◌, true}
use bbkar.Common.{some, List, length, All, is_some}
use bbkar.Common.{take}
use bbkar.Common.Br.{ok}
use bbkar.Common.Text.{Text}
use bbkar.Dest.{VolumeArchive, DestState}
use bbkar.Dest.Lookup.{lookup, IsSound}
use bbkar.Plan.{RunPlan}
use bbkar.Planner.{build_plan, archives_of, last_full_of}
use bbkar.Planner.Refine.{build_plan-Plans}
use bbkar.Planner.Spec.{Uploads, store_all}
use bbkar.Planner.Spec.{Plans}
use bbkar.Policy.{SendPolicy}
use bbkar.Source.{SourceState, IsOldestFirst}
use bbkar.Timestamp.{Timestamp}
use bbkar.Planner.Effects.{
  IsMissing, AllDistinct, Plans-IsSound, Plans-keeps, Plans-covers, Plans-IsMissing, Plans-distinct,
}
use bbkar.Planner.Limit.{KeepsLimit, Plans-limit}

module _ (src : SourceState) (dest : DestState) (policy : SendPolicy) (uploads : Uploads)
    {plan : RunPlan} (sorted : IsOldestFirst src.volume.snapshots)
    (sound : IsSound (archives_of dest))
    (small : length (archives_of dest) + length src.volume.snapshots < 2 ^ 32)
    (planned : build_plan src dest policy ≡ ok plan) where
  abbrev snapshots : List Timestamp
  snapshots = src.volume.snapshots

  follows :
      Plans policy snapshots
        (archives_of dest)
        (last_full_of (archives_of dest))
        snapshots
        plan.steps
  follows = build_plan-Plans src dest policy sorted sound small planned

  -- For a plan that build_plan has returned for sorted snapshots, over sound metadata and with
  -- fewer than 2 ^ 32 archives and snapshots together: the metadata is sound after every number of
  -- its steps, so also where a run stops half way. Names are then unique, and the parent of each
  -- archive is archived under a smaller name.
  pub build_plan-IsSound :
      (n : ℕ) → IsSound (store_all uploads (archives_of dest) (take n plan.steps))
  build_plan-IsSound n = Plans-IsSound policy snapshots uploads follows sound n

  -- For a plan that build_plan has returned for sorted snapshots, over sound metadata and with
  -- fewer than 2 ^ 32 archives and snapshots together: when it is carried out, every snapshot of
  -- the source is archived and what was archived before is unchanged; it sends only snapshots that
  -- were not archived, and no name twice.
  pub build_plan_complete :
      All
        (λ s. is_some (lookup (store_all uploads (archives_of dest) plan.steps) s.raw) ≡ true)
        snapshots
      × ((r : Text) (a : VolumeArchive)
          → lookup (archives_of dest) r ≡ some a
          → lookup (store_all uploads (archives_of dest) plan.steps) r ≡ some a)
      × All (IsMissing (archives_of dest)) plan.steps
      × AllDistinct plan.steps
  build_plan_complete = (
    Plans-covers policy snapshots uploads follows sound,
    λ r a e. Plans-keeps policy snapshots uploads r a follows sound e,
    Plans-IsMissing policy snapshots uploads follows sound,
    Plans-distinct policy snapshots uploads follows sound,
  )

  -- For a plan that build_plan has returned for sorted snapshots, over sound metadata and with
  -- fewer than 2 ^ 32 archives and snapshots together: when it is carried out, each full step has
  -- made an archive of depth 0, and each incremental step one that is one deeper than its parent
  -- and, if there is a depth limit, of a depth below it.
  pub build_plan-KeepsLimit :
      All
        (KeepsLimit policy snapshots uploads (store_all uploads (archives_of dest) plan.steps))
        plan.steps
  build_plan-KeepsLimit = Plans-limit policy snapshots uploads follows sound

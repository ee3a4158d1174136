-- ===== src/RoundTrip.antt =====
-- A plan of a run carried out, and then a restore from what it has left: build_plan and
-- build_restore_plan of src/service/planner/mod.rs together.
use bbkar.Archive.{archive_of, timestamp-archive_of}
use bbkar.Common.{◌+◌, ◌^◌, ◌<◌, ◌≡◌, sym, ◌∙◌, subst, arith, Option, some, List}
use bbkar.Common.{length, All, All-append, All-zip, All-imp, is_some, some_of, true}
use bbkar.Common.Br.{ok}
use bbkar.Common.Sort.{All-sort}
use bbkar.Dest.{VolumeArchive, DestState}
use bbkar.Dest.Lookup.{lookup, IsSound, lookup-raw, lookup-All}
use bbkar.Plan.{RunStep, RunPlan, RestorePlan}
use bbkar.Planner.{build_plan, archives_of}
use bbkar.Planner.Refine.{build_plan-Plans}
use bbkar.Planner.Effects.{IsSound-store}
use bbkar.Planner.Result.{build_plan_complete}
use bbkar.Planner.Spec.{Uploads, store_all, Plans, done, skip, send, snapshot_of-Sends}
use bbkar.Policy.{SendPolicy}
use bbkar.RestorePlan.{build_restore_plan}
use bbkar.RestorePlan.Chain.{AllParsed, Restores, build_restore_plan-Restores}
use bbkar.Source.{SourceState, IsOldestFirst}
use bbkar.Timestamp.{Timestamp, timestamp_order, parse, IsParsed}

module _ (policy : SendPolicy) (snapshots : List Timestamp) (uploads : Uploads) where
  store_all-IsSound :
      {l : List VolumeArchive} {last : Option Timestamp} {rest : List Timestamp}
      {steps : List RunStep}
      → Plans policy snapshots l last rest steps
      → IsSound l
      → IsSound (store_all uploads l steps)
  store_all-IsSound done s = s
  store_all-IsSound (skip snap a e plans) s = store_all-IsSound plans s
  store_all-IsSound (send snap step new sends plans) s =
      store_all-IsSound (plans (uploads step)) (IsSound-store policy snapshots uploads sends s new)

  store_all-AllParsed :
      {l : List VolumeArchive} {last : Option Timestamp} {rest : List Timestamp}
      {steps : List RunStep}
      → Plans policy snapshots l last rest steps
      → AllParsed l
      → All IsParsed rest
      → AllParsed (store_all uploads l steps)
  store_all-AllParsed done h k = h
  store_all-AllParsed (skip snap a e plans) h k = store_all-AllParsed plans h k.1
  store_all-AllParsed (send {l = l} snap step new sends plans) h k =
      let same : (archive_of step (uploads step)).timestamp ≡ snap =
        timestamp-archive_of step (uploads step) ∙ snapshot_of-Sends policy snapshots sends in
      store_all-AllParsed (plans (uploads step))
        (All-sort timestamp_order (λ a. a.timestamp) (λ a. IsParsed a.timestamp) _
          (All-append (λ a. IsParsed a.timestamp) l _ h (subst IsParsed (sym same) k.0, tt)))
        k.1

restorable :
    (l : List VolumeArchive)
    → IsSound l
    → AllParsed l
    → (s : Timestamp) → IsParsed s
    → is_some (lookup l s.raw) ≡ true
    → (p : RestorePlan) × (build_restore_plan l s ≡ ok p) × Restores l s.raw p.steps
restorable l sound parsed s k h =
    let (a, found) = some_of (lookup l s.raw) h in
    let a_parsed : parse a.timestamp.raw ≡ some a.timestamp =
      lookup-All (λ b. IsParsed b.timestamp) l s.raw found parsed in
    let same : a.timestamp ≡ s = ground (arith, a_parsed, k, lookup-raw l s.raw found) in
    build_restore_plan-Restores l s a sound parsed found same

-- For a plan that build_plan has returned for sorted snapshots, over sound metadata and with fewer
-- than 2 ^ 32 archives and snapshots together: if all timestamps are parsed names, then after the
-- plan is carried out every snapshot of the source can be restored from the destination: its
-- restore plan exists and applies the snapshot's whole chain.
pub build_plan-build_restore_plan :
    (src : SourceState) (dest : DestState) (policy : SendPolicy) (uploads : Uploads)
    {plan : RunPlan}
    → IsOldestFirst src.volume.snapshots
    → IsSound (archives_of dest)
    → length (archives_of dest) + length src.volume.snapshots < 2 ^ 32
    → AllParsed (archives_of dest)
    → All IsParsed src.volume.snapshots
    → build_plan src dest policy ≡ ok plan
    → All
        (λ s.
          (p : RestorePlan) × (build_restore_plan
              (store_all uploads (archives_of dest) plan.steps)
              s
            ≡ ok p)
          × Restores (store_all uploads (archives_of dest) plan.steps) s.raw p.steps)
        src.volume.snapshots
build_plan-build_restore_plan src dest policy uploads {plan} sorted sound small parsed named
      planned =
    let snapshots = src.volume.snapshots in
    let after = store_all uploads (archives_of dest) plan.steps in
    let plans = build_plan-Plans src dest policy sorted sound small planned in
    let covered = (build_plan_complete src dest policy uploads sorted sound small planned).0 in
    let sound_after = store_all-IsSound policy snapshots uploads plans sound in
    let parsed_after = store_all-AllParsed policy snapshots uploads plans parsed named in
    All-imp {P = λ s. IsParsed s × (is_some (lookup after s.raw) ≡ true)}
      (λ s h. restorable after sound_after parsed_after s h.0 h.1) snapshots
      (All-zip IsParsed (λ s. is_some (lookup after s.raw) ≡ true) snapshots named covered)

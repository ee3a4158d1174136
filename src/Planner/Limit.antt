-- ===== src/Planner/Limit.antt =====
-- The depths of the archives that a plan makes.
use bbkar.Common.{ℕ, suc, ◌≡◌, refl, sym, Option}
use bbkar.Common.{none, List, subst, All}
use bbkar.Dest.{VolumeArchive}
use bbkar.Dest.Lookup.{lookup, IsSound}
use bbkar.Plan.{RunStep, send_full, send_incremental}
use bbkar.Planner.Depth.{Chain}
use bbkar.Planner.Spec.{Uploads, store, store_all, Sends, orphan, too_deep, too_old}
use bbkar.Planner.Spec.{incremental, Plans, done, skip, send, IsBelow}
use bbkar.Policy.{SendPolicy}
use bbkar.Timestamp.{Timestamp}
use bbkar.Planner.Effects.{Plans-Chain, sent-store, IsSound-store, Chain-store}

module _ (policy : SendPolicy) (snapshots : List Timestamp) (uploads : Uploads) where
  -- parent's.
  abbrev pub KeepsLimit : List VolumeArchive → RunStep → Type 0
  KeepsLimit l (send_full snap) = Chain l snap.raw 0
  KeepsLimit l (send_incremental snap parent) =
      (d : ℕ) × Chain l snap.raw (suc d)
      × Chain l parent.raw d
      × IsBelow policy.max_incremental_depth (suc d)

  full-limit :
      {l : List VolumeArchive} {last : Option Timestamp} {snap : Timestamp} {step : RunStep}
      → step ≡ send_full snap
      → Sends policy snapshots l last snap (send_full snap)
      → IsSound l
      → lookup l snap.raw ≡ none
      → KeepsLimit (store (uploads step) l step) step
  full-limit {l} e sends s new =
      subst (λ z. KeepsLimit (store (uploads z) l z) z) (sym e)
        (Chain.full _ (sent-store policy snapshots uploads sends s new) refl)

  limit-Sends :
      {l : List VolumeArchive} {last : Option Timestamp} {snap : Timestamp} {step : RunStep}
      (sends : Sends policy snapshots l last snap step)
      → IsSound l
      → lookup l snap.raw ≡ none
      → KeepsLimit (store (uploads step) l step) step
  limit-Sends {last} (orphan n e) s new = full-limit {last = last} e (orphan n refl) s new
  limit-Sends {last} (too_deep p d i c r e) s new =
      full-limit {last = last} e (too_deep p d i c r refl) s new
  limit-Sends (too_old p i c e) s new = full-limit e (too_old p i c refl) s new
  limit-Sends {l} {last} {snap} (incremental p d i c b k e) s new =
      let sends : Sends policy snapshots l last snap (send_incremental snap p) =
        incremental p d i c b k refl in
      let below = Chain-store policy snapshots uploads sends s new c in
      subst (λ z. KeepsLimit (store (uploads z) l z) z) (sym e)
        (
          d,
          Chain.above _ p.raw (sent-store policy snapshots uploads sends s new) refl below,
          below,
          b,
        )

  KeepsLimit-all :
      {l : List VolumeArchive} {last : Option Timestamp} {rest : List Timestamp}
      {steps : List RunStep} (step : RunStep)
      → Plans policy snapshots l last rest steps
      → IsSound l
      → KeepsLimit l step
      → KeepsLimit (store_all uploads l steps) step
  KeepsLimit-all (send_full snap) plans s c = Plans-Chain policy snapshots uploads _ _ plans s c
  KeepsLimit-all (send_incremental snap parent) plans s (d, c, below, fits) = (
    d,
    Plans-Chain policy snapshots uploads _ _ plans s c,
    Plans-Chain policy snapshots uploads _ _ plans s below,
    fits,
  )

  pub Plans-limit :
      {l : List VolumeArchive} {last : Option Timestamp} {rest : List Timestamp}
      {steps : List RunStep}
      → Plans policy snapshots l last rest steps
      → IsSound l
      → All (KeepsLimit (store_all uploads l steps)) steps
  Plans-limit done s = tt
  Plans-limit (skip snap a e plans) s = Plans-limit plans s
  Plans-limit (send {l = l} {steps = steps} snap step new sends plans) s =
      let s' = IsSound-store policy snapshots uploads sends s new in
      (
        KeepsLimit-all step (plans (uploads step)) s' (limit-Sends sends s new),
        Plans-limit (plans (uploads step)) s',
      )

-- ===== src/Run/Total.antt =====
-- A run of one volume ends well when nothing outside fails: src/cli/run.rs.
use bbkar.Common.{◌^◌, ◌<◌, ◌≡◌, refl, ap, Option, none, some, List, [], ◌∷◌, length, All}
use bbkar.Common.Io.{SucceedsIn, SucceedsIn-bind}
use bbkar.Common.Text.{Text}
use bbkar.Dest.{VolumeArchive, DestMeta}
use bbkar.Dest.Lookup.{IsSound}
use bbkar.Duration.Ascii.{IsAscii}
use bbkar.Executor.{Executor, Keeps, Works, add_archive-IsOrdered}
use bbkar.Archive.{archive_of}
use bbkar.Storage.Components.{IsVolumeName}
use bbkar.Plan.{RunStep}
use bbkar.Planner.{archives_of, build_plan}
use bbkar.Planner.Total.{build_plan-ok}
use bbkar.Run.{RunTotals, run_step, run_steps, run_plan, first_meta, run_volume}
use bbkar.Run.Steps.{stored_archives}
use bbkar.Sync.{VolumeContext}
use bbkar.Timestamp.{Timestamp}

-- The dates are ASCII, of archives and of snapshots.
abbrev pub AreDated : List VolumeArchive → List Timestamp → Type 0
AreDated l snapshots =
    All (λ a. IsAscii a.timestamp.timestamp) l × All (λ s. IsAscii s.timestamp) snapshots

module _ {W Stream : Type 0} {ex : Executor W Stream} {Fine : W → Type 0} (works : Works ex Fine)
    (ctx : VolumeContext) (named : IsVolumeName ctx.volume) where
  run_step-ok :
      (totals : RunTotals) (m : DestMeta) (step : RunStep) (w : W)
      → Fine w
      → SucceedsIn Fine (run_step ex ctx totals m step w)
  unfolding run_step
  run_step-ok totals m step w fine =
      SucceedsIn-bind {P = Fine}
        (ex.write_subvolume ctx.volume _ ctx.global.max_backup_chunk_size _ w) _
        (works.upload_works ctx.volume _ _ _ w fine)
        (λ chunks w₁ f₁ e.
          SucceedsIn-bind {P = Fine} (ex.now_timestamp w₁) _ (works.now_works w₁ f₁)
            (λ now w₂ f₂ e₂.
              SucceedsIn-bind {P = Fine} (ex.write_metadata ctx.volume _ w₂) _
                (works.write_works ctx.volume _ w₂ named
                  (add_archive-IsOrdered m (archive_of step chunks) now) f₂)
                (λ u w₃ f₃ e₃. ((_, refl), f₃))))

  run_steps-ok :
      (totals : RunTotals) (m : DestMeta) (steps : List RunStep) (w : W)
      → Fine w
      → SucceedsIn Fine (run_steps ex ctx totals m steps w)
  unfolding run_steps
  run_steps-ok totals m [] w fine = ((_, refl), fine)
  run_steps-ok totals m (step ∷ steps) w fine =
      SucceedsIn-bind {P = Fine} (run_step ex ctx totals m step w) _
        (run_step-ok totals m step w fine) (λ p w₁ f₁ e. run_steps-ok p.0 p.1 steps w₁ f₁)

  first_meta-ok :
      (meta : Option DestMeta) (w : W) → Fine w → SucceedsIn Fine (first_meta ex ctx meta w)
  first_meta-ok none w fine =
      SucceedsIn-bind {P = Fine} (ex.now_timestamp w) _ (works.now_works w fine)
        (λ now w₁ f₁ e. ((_, refl), f₁))
  first_meta-ok (some m) w fine = ((m, refl), fine)

  run_plan-ok :
      (totals : RunTotals) (meta : Option DestMeta) (steps : List RunStep) (w : W)
      → Fine w
      → SucceedsIn Fine (run_plan ex ctx totals meta steps w)
  run_plan-ok totals meta [] w fine = ((_, refl), fine)
  run_plan-ok totals meta (step ∷ steps) w fine =
      SucceedsIn-bind {P = Fine} (first_meta ex ctx meta w) _ (first_meta-ok meta w fine)
        (λ m w₁ f₁ e.
          SucceedsIn-bind {P = Fine} (run_steps ex ctx totals m (step ∷ steps) w₁) _
            (run_steps-ok totals m (step ∷ steps) w₁ f₁) (λ q w₂ f₂ e₂. ((_, refl), f₂)))

  pub run_volume-ok :
      {stored : W → Text → Option DestMeta} (laws : Keeps ex stored) (totals : RunTotals) (w : W)
      → IsSound (stored_archives stored ctx.volume w)
      → length (stored_archives stored ctx.volume w) < 2 ^ 32
      → AreDated (stored_archives stored ctx.volume w) ctx.src_state.volume.snapshots
      → Fine w
      → SucceedsIn Fine (run_volume ex ctx totals w)
  unfolding run_volume
  run_volume-ok {stored} laws totals w sound small dated fine =
      SucceedsIn-bind {P = Fine} (ex.inspect_dest_volume ctx.volume w) _
        (works.inspect_works ctx.volume w named fine)
        (λ d w₁ f₁ e.
          let reads : d.meta ≡ stored w ctx.volume =
            laws.inspect_reads ctx.volume w d named (ap (λ x. x.0) e) in
          let same : archives_of d ≡ stored_archives stored ctx.volume w =
            ap (λ o. archives_of (record { meta = o })) reads in
          let planned =
            build_plan-ok ctx.src_state d ctx.send_policy (rw same sound) (rw same small)
              (rw same dated.0) dated.1 in
          SucceedsIn-bind {P = Fine} (build_plan ctx.src_state d ctx.send_policy, w₁) _
            (planned, f₁) (λ plan w₂ f₂ e₂. run_plan-ok totals d.meta plan.steps w₂ f₂))

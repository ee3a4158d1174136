-- ===== src/Dryrun/Laws.antt =====
-- What `dryrun` of src/cli/dryrun.rs leaves as it is.
use bbkar.Common.{Bool, true, false, Option, List, [], ◌∷◌}
use bbkar.Common.Text.{Text}
use bbkar.Dryrun.{DryrunTotals, dryrun_step, dryrun_steps, dryrun_volume, dryrun, dryrun_callbacks}
use bbkar.Executor.{Executor}
use bbkar.Plan.{RunStep}
use bbkar.Planner.{build_plan}
use bbkar.Sync.{Host, VolumeContext}
use bbkar.Sync.Walk.{for_each_sync-Leaves}
use bbkar.Common.Io.{Leaves, Leaves-bind}

-- Reading the metadata of a destination and measuring a stream leave `P` true of the world.
pub record KeepsReads {W Stream : Type 0} (P : W → Type 0) (ex : Executor W Stream) : Type 0 where
  pub inspect_leaves : (v : Text) (w : W) → P w → P (ex.inspect_dest_volume v w).1
  pub measure_leaves : (chunks : Stream) (w : W) → P w → P (ex.measure_subvolume chunks w).1

module _ {W Stream : Type 0} {P : W → Type 0} {ex : Executor W Stream} (reads : KeepsReads P ex)
    (measure_send : Bool) (ctx : VolumeContext) where
  dryrun_step-Leaves :
      (measure : Bool) (totals : DryrunTotals) (step : RunStep) (w : W)
      → P w
      → Leaves P (dryrun_step ex measure ctx totals step w)
  unfolding dryrun_step
  dryrun_step-Leaves true totals step w p =
      Leaves-bind P (ex.measure_subvolume _ w) _ (reads.measure_leaves _ w p) (λ r w' p'. p')
  dryrun_step-Leaves false totals step w p = p

  dryrun_steps-Leaves :
      (steps : List RunStep) (totals : DryrunTotals) (w : W)
      → P w
      → Leaves P (dryrun_steps ex measure_send ctx totals steps w)
  unfolding dryrun_steps
  dryrun_steps-Leaves [] totals w p = p
  dryrun_steps-Leaves (step ∷ steps) totals w p =
      Leaves-bind P (dryrun_step ex measure_send ctx totals step w) _
        (dryrun_step-Leaves measure_send totals step w p)
        (λ t w' p'. dryrun_steps-Leaves steps t w' p')

  dryrun_volume-Leaves :
      (totals : DryrunTotals) (w : W) → P w → Leaves P (dryrun_volume ex measure_send ctx totals w)
  unfolding dryrun_volume
  dryrun_volume-Leaves totals w p =
      Leaves-bind P (ex.inspect_dest_volume ctx.volume w) _ (reads.inspect_leaves ctx.volume w p)
        (λ d w₁ p₁.
          Leaves-bind P (build_plan ctx.src_state d ctx.send_policy, w₁) _ p₁
            (λ plan w₂ p₂. dryrun_steps-Leaves plan.steps _ w₂ p₂))

-- What the reading of metadata and the measuring of streams leave true of the world, for every
-- source and destination, the whole command leaves true, whatever its outcome: it writes nothing
-- and sends nothing.
pub dryrun-Leaves :
    {W Stream : Type 0} (host : Host W Stream) (P : W → Type 0)
    → ((src : _) (dest : _) → KeepsReads P (host.executor src dest))
    → (measure_send : Bool) (path : Text) (name : Option Text) (w : W) → P w
    → P (dryrun host measure_send path name w).1
unfolding dryrun dryrun_callbacks
dryrun-Leaves host P reads measure_send path name w p =
    for_each_sync-Leaves host (dryrun_callbacks host measure_send) P
      (record {
        start_keeps = λ c name src dest policy w p. p;
        volume_keeps = λ c ctx w p.
            dryrun_volume-Leaves (reads ctx.src_spec ctx.dest_spec) measure_send ctx c w p;
        end_keeps = λ c name src dest policy w p. p;
      })
      path name _ w p

-- ===== src/Run/Others.antt =====
-- A run of one volume leaves the metadata of every other volume as it is.
use bbkar.Common.{◌≡◌, ◌≢◌, refl, ◌∙◌, Option, none, some, List, [], ◌∷◌}
use bbkar.Common.Br.{Br, ok}
use bbkar.Common.Io.{Ends, Ends-bind, Ends-done, Anything, continue}
use bbkar.Common.Text.{Text}
use bbkar.Dest.{DestMeta}
use bbkar.Executor.{Executor, Keeps, add_archive-IsOrdered}
use bbkar.Archive.{archive_of}
use bbkar.Storage.Components.{IsVolumeName}
use bbkar.Plan.{RunStep}
use bbkar.Planner.{build_plan}
use bbkar.Run.{RunTotals, run_step, run_steps, run_plan, first_meta, run_volume}
use bbkar.Sync.{VolumeContext}

module _ {W Stream : Type 0} {ex : Executor W Stream} {stored : W → Text → Option DestMeta}
    (laws : Keeps ex stored) (ctx : VolumeContext) (named : IsVolumeName ctx.volume) (u : Text)
    (named_other : IsVolumeName u) (other : u ≢ ctx.volume) (start : Option DestMeta) where
  -- The metadata of `u` is that of the start.
  IsKept : W → Type 0
  IsKept w = stored w u ≡ start

  Keeping : {A : Type 0} → Br A × W → Type 0
  Keeping r = Ends IsKept (λ a. Anything) r

  Keeping-of :
      {A : Type 0} (w : W) (r : Br A × W) → stored r.1 u ≡ stored w u → IsKept w → Keeping r
  unfolding Keeping IsKept
  Keeping-of w r e k = record { always = e ∙ k; on_ok = λ a h. tt }

  -- First one, then the other
  Keeping-bind :
      {A B : Type 0} (r : Br A × W) (f : A → W → Br B × W)
      → Keeping r
      → ((a : A) (w : W) → IsKept w → Keeping (f a w))
      → Keeping (continue r f)
  unfolding Keeping
  Keeping-bind r f h k = Ends-bind r f h (λ a w p q. k a w p)

  Keeping-done : {A : Type 0} (a : A) (w : W) → IsKept w → Keeping (ok a, w)
  unfolding Keeping
  Keeping-done a w k = Ends-done a w k tt

  run_step-Keeping :
      (totals : RunTotals) (m : DestMeta) (step : RunStep) (w : W)
      → IsKept w
      → Keeping (run_step ex ctx totals m step w)
  unfolding run_step
  run_step-Keeping totals m step w k =
      Keeping-bind (ex.write_subvolume ctx.volume _ _ _ w) _
        (Keeping-of w _ (laws.upload_keeps ctx.volume _ _ _ u w) k)
        (λ chunks w₁ k₁.
          Keeping-bind (ex.now_timestamp w₁) _ (Keeping-of w₁ _ (laws.now_keeps u w₁) k₁)
            (λ now w₂ k₂.
              Keeping-bind (ex.write_metadata ctx.volume _ w₂) _
                (Keeping-of w₂ _
                  (laws.write_other ctx.volume u _ w₂ named named_other
                    (add_archive-IsOrdered m (archive_of step chunks) now) other)
                  k₂)
                (λ written w₃ k₃. Keeping-done _ w₃ k₃)))

  run_steps-Keeping :
      (steps : List RunStep) (totals : RunTotals) (m : DestMeta) (w : W)
      → IsKept w
      → Keeping (run_steps ex ctx totals m steps w)
  unfolding run_steps
  run_steps-Keeping [] totals m w k = Keeping-done (totals, m) w k
  run_steps-Keeping (step ∷ steps) totals m w k =
      Keeping-bind (run_step ex ctx totals m step w) _ (run_step-Keeping totals m step w k)
        (λ p w₁ k₁. run_steps-Keeping steps p.0 p.1 w₁ k₁)

  first_meta-Keeping :
      (meta : Option DestMeta) (w : W) → IsKept w → Keeping (first_meta ex ctx meta w)
  first_meta-Keeping none w k =
      Keeping-bind (ex.now_timestamp w) _ (Keeping-of w _ (laws.now_keeps u w) k)
        (λ now w₁ k₁. Keeping-done _ w₁ k₁)
  first_meta-Keeping (some m) w k = Keeping-done m w k

  run_plan-Keeping :
      (totals : RunTotals) (meta : Option DestMeta) (steps : List RunStep) (w : W)
      → IsKept w
      → Keeping (run_plan ex ctx totals meta steps w)
  run_plan-Keeping totals meta [] w k = Keeping-done _ w k
  run_plan-Keeping totals meta (step ∷ steps) w k =
      Keeping-bind (first_meta ex ctx meta w) _ (first_meta-Keeping meta w k) (λ m w₁ k₁.
        Keeping-bind (run_steps ex ctx totals m (step ∷ steps) w₁) _
          (run_steps-Keeping (step ∷ steps) totals m w₁ k₁) (λ q w₂ k₂. Keeping-done _ w₂ k₂))

  pub run_volume-Keeping :
      (totals : RunTotals) (w : W)
      → stored w u ≡ start
      → stored (run_volume ex ctx totals w).1 u ≡ start
  unfolding run_volume Keeping IsKept
  run_volume-Keeping totals w k =
      (Keeping-bind (ex.inspect_dest_volume ctx.volume w) _
        (Keeping-of w _ (laws.inspect_keeps ctx.volume u w named) k)
        (λ d w₁ k₁.
          Keeping-bind (build_plan ctx.src_state d ctx.send_policy, w₁) _ (Keeping-of w₁ _ refl k₁)
            (λ plan w₂ k₂. run_plan-Keeping totals d.meta plan.steps w₂ k₂))).always

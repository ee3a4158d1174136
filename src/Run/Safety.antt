-- ===== src/Run/Safety.antt =====
-- A run of one volume against a destination that keeps what is written, whatever fails on the way.
use bbkar.Common.{◌+◌, ◌^◌, ◌<◌, ◌≡◌, refl, sym, ap, subst, Option}
use bbkar.Common.{List, length}
use bbkar.Common.Br.{ok}
use bbkar.Common.Io.{Ends, Ends-bind, Ends-lift}
use bbkar.Common.Text.{Text}
use bbkar.Dest.{VolumeArchive, DestMeta, DestState}
use bbkar.Dest.Lookup.{IsSound}
use bbkar.Executor.{Executor, Keeps}
use bbkar.Storage.Components.{IsVolumeName}
use bbkar.Planner.{archives_of, build_plan}
use bbkar.Planner.Refine.{build_plan-Plans}
use bbkar.Sync.{VolumeContext}
use bbkar.Run.{RunTotals, run_volume}
use bbkar.Source.{IsOldestFirst}
use bbkar.Run.Steps.{
  Covers, stored_archives, IsSafe, Good, Holds, Ends-same, AfterRun, run_plan-Ends,
}

module _ {W Stream : Type 0} {ex : Executor W Stream} {stored : W → Text → Option DestMeta}
    (laws : Keeps ex stored) (ctx : VolumeContext) (named : IsVolumeName ctx.volume)
    (totals : RunTotals) (w : W) (sorted : IsOldestFirst ctx.src_state.volume.snapshots)
    (sound : IsSound (stored_archives stored ctx.volume w))
    (small : length (stored_archives stored ctx.volume w) + length ctx.src_state.volume.snapshots
      < 2 ^ 32) where
  abbrev before_run : List VolumeArchive
  before_run = stored_archives stored ctx.volume w

  begin : Good laws ctx named before_run before_run
  unfolding Good
  begin = (sound, λ r a e. e)

  Inspected : DestState → W → Type 0
  Inspected d w' = (d.meta ≡ stored w ctx.volume) × Holds laws ctx named before_run before_run w'

  inspect-Ends :
      Ends (IsSafe stored ctx.volume before_run) Inspected (ex.inspect_dest_volume ctx.volume w)
  unfolding Inspected
  inspect-Ends =
      let same =
        Ends-same laws ctx named before_run before_run w _
          (laws.inspect_keeps ctx.volume ctx.volume w named) begin refl in
      record {
        always = same.always;
        on_ok = λ d e. (laws.inspect_reads ctx.volume w d named e, same.on_ok d e);
      }

  run_volume-Ends :
      Ends
        (IsSafe stored ctx.volume before_run)
        (λ t. AfterRun laws ctx named before_run ctx.src_state.volume.snapshots)
        (run_volume ex ctx totals w)
  unfolding run_volume Inspected
  run_volume-Ends = Ends-bind (ex.inspect_dest_volume ctx.volume w) _ inspect-Ends (λ d w₁ p₁ r₁.
      let same : archives_of d ≡ before_run = ap (λ o. archives_of (record { meta = o })) r₁.0 in
      let sound_d : IsSound (archives_of d) = rw same sound in
      let small_d : length (archives_of d) + length ctx.src_state.volume.snapshots < 2 ^ 32 =
        rw same small in
      Ends-bind (build_plan ctx.src_state d ctx.send_policy, w₁) _
        (Ends-lift
          {Q = λ plan w'.
            (build_plan ctx.src_state d ctx.send_policy ≡ ok plan)
            × Holds laws ctx named before_run (archives_of d) w'}
          _ w₁ p₁ (λ plan e. (e, rw same r₁.1)))
        (λ plan w₂ p₂ r₂.
          run_plan-Ends laws ctx named before_run totals d.meta plan.steps w₂
            ctx.src_state.volume.snapshots (subst (Good laws ctx named before_run) (sym same) begin)
            r₂.1 (build_plan-Plans ctx.src_state d ctx.send_policy sorted sound_d small_d r₂.0)))

  -- For a volume with a plain name (no slash, and none of ``, `.` and `..`), snapshots sorted from
  -- the oldest on, sound metadata before, and fewer than 2 ^ 32 archives
  -- and snapshots together, with an executor that satisfies Keeps: whatever the outcome of the run
  -- of a volume, an error or a panic at any step too, the metadata at the destination is sound
  -- afterwards, and every archive in it before the run is there unchanged.
  pub run_volume-IsSafe : IsSafe stored ctx.volume before_run (run_volume ex ctx totals w).1
  run_volume-IsSafe = run_volume-Ends.always

  -- For a volume with a plain name (no slash, and none of ``, `.` and `..`), snapshots sorted from
  -- the oldest on, sound metadata before, and fewer than 2 ^ 32 archives
  -- and snapshots together, with an executor that satisfies Keeps: if the run of a volume succeeds,
  -- every snapshot of the source is in the metadata at the destination.
  pub run_volume-Covers :
      (after : RunTotals)
      → (run_volume ex ctx totals w).0 ≡ ok after
      → Covers ctx.src_state.volume.snapshots
          (stored_archives stored ctx.volume (run_volume ex ctx totals w).1)
  unfolding AfterRun
  run_volume-Covers after e = run_volume-Ends.on_ok after e

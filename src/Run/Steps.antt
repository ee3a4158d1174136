-- ===== src/Run/Steps.antt =====
-- The steps of a run of one volume, against a destination that keeps what is written:
-- src/cli/run.rs.
use bbkar.Archive.{archive_of}
use bbkar.Common.{◌≡◌, refl, ap, ◌∙◌, true, Option, none, some}
use bbkar.Common.{List, [], ◌∷◌, All, is_some, inl, inr}
use bbkar.Common.Br.{Br}
use bbkar.Common.Io.{Ends, Ends-bind, Ends-done, Ends-imp}
use bbkar.Common.Sort.{sort}
use bbkar.Common.Text.{Text}
use bbkar.Dest.{
  ChunkFilename, VolumeArchive, DestMeta, DestState, add_archive, set_last_sync_timestamp,
}
use bbkar.Dest
use bbkar.Dest.Lookup.{lookup, IsSound}
use bbkar.Executor.{Executor, Keeps, IsOrdered, add_archive-IsOrdered}
use bbkar.Storage.Components.{IsVolumeName}
use bbkar.Plan.{RunStep}
use bbkar.Planner.{archives_of}
use bbkar.Planner.Effects.{kept-store, sent-store, IsSound-store, Plans-covers}
use bbkar.Planner.Spec.{store, Sends, Plans, done, skip, send}
use bbkar.Sync.{VolumeContext}
use bbkar.Run.{RunTotals, run_step, run_steps, run_plan, first_meta}
use bbkar.Timestamp.{Timestamp}

-- What is archived in `l` is archived in `m`, unchanged.
abbrev pub Extends : List VolumeArchive → List VolumeArchive → Type 0
Extends l m = (r : Text) (a : VolumeArchive) → lookup l r ≡ some a → lookup m r ≡ some a

-- Every one of the snapshots is archived.
abbrev pub Covers : List Timestamp → List VolumeArchive → Type 0
Covers snapshots l = All (λ s. is_some (lookup l s.raw) ≡ true) snapshots

-- The archives in the stored metadata of a volume
abbrev pub stored_archives :
    {W : Type 0} → (W → Text → Option DestMeta) → Text → W → List VolumeArchive
stored_archives stored v w = archives_of (record { meta = stored w v })

-- The metadata is sound and has all that it had.
abbrev pub IsSafe :
    {W : Type 0} → (W → Text → Option DestMeta) → Text → List VolumeArchive → W → Type 0
IsSafe stored v before w =
    IsSound (stored_archives stored v w) × Extends before (stored_archives stored v w)

module _ {W Stream : Type 0} {ex : Executor W Stream} {stored : W → Text → Option DestMeta}
    (laws : Keeps ex stored) (ctx : VolumeContext) (named : IsVolumeName ctx.volume)
    (before : List VolumeArchive) where
  unfoldable pub Good : List VolumeArchive → Type 0
  Good l = IsSound l × Extends before l

  abbrev pub Holds : List VolumeArchive → W → Type 0
  Holds l w = stored_archives stored ctx.volume w ≡ l

  Safe-of :
      (w : W) (l : List VolumeArchive) → Holds l w → Good l → IsSafe stored ctx.volume before w
  unfolding Good
  Safe-of w l e g = rw e g

  same_after :
      (l : List VolumeArchive) (w w' : W)
      → stored w' ctx.volume ≡ stored w ctx.volume
      → Holds l w
      → Holds l w'
  same_after l w w' e h = ap (λ o. archives_of (record { meta = o })) e ∙ h

  -- An operation that does not write the metadata
  pub Ends-same :
      {A : Type 0} (l : List VolumeArchive) (w : W) (r : Br A × W)
      → stored r.1 ctx.volume ≡ stored w ctx.volume
      → Good l
      → Holds l w
      → Ends (IsSafe stored ctx.volume before) (λ a w'. Holds l w') r
  Ends-same l w r e g h =
      let h' = same_after l w r.1 e h in record { always = Safe-of r.1 l h' g; on_ok = λ a k. h' }

  -- A write of the metadata, whether it succeeds or not
  Ends-write :
      (l : List VolumeArchive) (m : DestMeta) (w : W)
      → Good l
      → Good m.archives
      → IsOrdered m
      → Holds l w
      → Ends
          (IsSafe stored ctx.volume before)
          (λ u w'. Holds m.archives w')
          (ex.write_metadata ctx.volume m w)
  Ends-write l m w g g' ordered h = record {
    always = elim (laws.write_whole ctx.volume m w named ordered) [
      | inl kept ↦ Safe-of _ l (same_after l w _ kept h) g
      | inr written ↦ Safe-of _ m.archives (ap (λ o. archives_of (record { meta = o })) written) g'
    ];
    on_ok = λ u k.
        ap (λ o. archives_of (record { meta = o })) (laws.write_ok ctx.volume m w named ordered k);
  }

  abbrev AfterStep : DestMeta → RunStep → RunTotals × DestMeta → W → Type 0
  AfterStep m step p w =
      (chunks : List ChunkFilename) × (p.1.archives ≡ store chunks m.archives step)
      × Holds p.1.archives w

  abbrev AfterSteps : List Timestamp → List VolumeArchive → RunTotals × DestMeta → W → Type 0
  AfterSteps rest l p w = Covers rest p.1.archives × Extends l p.1.archives × Holds p.1.archives w

  run_step-Ends :
      (totals : RunTotals) (m : DestMeta) (step : RunStep) (w : W)
      → Good m.archives
      → ((chunks : List ChunkFilename) → Good (store chunks m.archives step))
      → Holds m.archives w
      → Ends (IsSafe stored ctx.volume before) (AfterStep m step) (run_step ex ctx totals m step w)
  unfolding run_step
  run_step-Ends totals m step w good next same =
      Ends-bind (ex.write_subvolume ctx.volume _ ctx.global.max_backup_chunk_size _ w) _
        (Ends-same m.archives w _ (laws.upload_keeps ctx.volume _ _ _ ctx.volume w) good same)
        (λ chunks w₁ p₁ h₁.
          Ends-bind (ex.now_timestamp w₁) _
            (Ends-same m.archives w₁ _ (laws.now_keeps ctx.volume w₁) good h₁)
            (λ now w₂ p₂ h₂.
              Ends-bind (ex.write_metadata ctx.volume _ w₂) _
                (Ends-write m.archives _ w₂ good (next chunks)
                  (add_archive-IsOrdered m (archive_of step chunks) now) h₂)
                (λ u w₃ p₃ h₃. Ends-done _ w₃ p₃ (chunks, refl, h₃))))

  module _ {l : List VolumeArchive} {last : Option Timestamp} {snap : Timestamp} {step : RunStep}
      (snapshots : List Timestamp) (sends : Sends ctx.send_policy snapshots l last snap step)
      (new : lookup l snap.raw ≡ none) (g : Good l) (chunks : List ChunkFilename) where
    kept : Extends l (store chunks l step)
    unfolding Good
    kept r a k = kept-store ctx.send_policy snapshots (λ step. chunks) sends g.0 new r k

    sent : lookup (store chunks l step) snap.raw ≡ some (archive_of step chunks)
    unfolding Good
    sent = sent-store ctx.send_policy snapshots (λ step. chunks) sends g.0 new

    Good-store : Good (store chunks l step)
    unfolding Good
    Good-store = (
      IsSound-store ctx.send_policy snapshots (λ step. chunks) sends g.0 new,
      λ r a k. kept r a (g.1 r a k),
    )

  -- Some steps of a plan: on success the snapshots that were left are archived.
  run_steps-Ends :
      (snapshots : List Timestamp) {l : List VolumeArchive} {last : Option Timestamp}
      {rest : List Timestamp} {steps : List RunStep} (totals : RunTotals) (m : DestMeta) (w : W)
      → Plans ctx.send_policy snapshots l last rest steps
      → m.archives ≡ l
      → Good l
      → Holds l w
      → Ends
          (IsSafe stored ctx.volume before)
          (AfterSteps rest l)
          (run_steps ex ctx totals m steps w)
  unfolding run_steps
  run_steps-Ends snapshots {l} totals m w done e g h =
      Ends-done (totals, m) w (Safe-of w l h g) (tt, λ r a k. rw e k, rw e h)
  run_steps-Ends snapshots {l} totals m w (skip snap a old plans) e g h =
      Ends-imp _ (run_steps-Ends snapshots totals m w plans e g h) (λ p w' q.
        let (covers, extends, holds) = q in
        ((rw (extends snap.raw a old) refl, covers), extends, holds))
  run_steps-Ends snapshots {l} totals m w (send snap step new sends plans) e g h =
      let next = Good-store snapshots sends new g in
      Ends-bind (run_step ex ctx totals m step w) _
        (run_step-Ends totals m step w (rw e g) (rw e next) (rw e h))
        (λ p w₁ safe₁ after.
          let (chunks, stored_now, holds) = after in
          let now : p.1.archives ≡ store chunks l step = rw e at stored_now in
          Ends-imp _
            (run_steps-Ends snapshots p.0 p.1 w₁ (plans chunks) now (next chunks) (rw now at holds))
            (λ q w' r.
              let (covers, extends, holds) = r in
              let here = sent snapshots sends new g chunks in
              (
                (rw (extends snap.raw _ here) refl, covers),
                λ r a k. extends r a (kept snapshots sends new g chunks r a k),
                holds,
              )))

  -- The whole of the volume's run, from its reading of the metadata on
  unfoldable pub AfterRun : List Timestamp → W → Type 0
  AfterRun snapshots w = Covers snapshots (stored_archives stored ctx.volume w)

  first_meta-Ends :
      (meta : Option DestMeta) (w : W)
      → Good (archives_of (record { meta = meta }))
      → Holds (archives_of (record { meta = meta })) w
      → Ends
          (IsSafe stored ctx.volume before)
          (λ m w'.
            (m.archives ≡ archives_of (record { meta = meta }))
            × Holds (archives_of (record { meta = meta })) w')
          (first_meta ex ctx meta w)
  unfolding Dest.new sort
  first_meta-Ends none w g h =
      Ends-bind (ex.now_timestamp w) _ (Ends-same [] w _ (laws.now_keeps ctx.volume w) g h)
        (λ now w₁ p₁ h₁. Ends-done _ w₁ p₁ (refl, h₁))
  first_meta-Ends (some m) w g h = Ends-done _ w (Safe-of w _ h g) (refl, h)

  pub run_plan-Ends :
      (totals : RunTotals) (meta : Option DestMeta) (steps : List RunStep) (w : W)
      {last : Option Timestamp} (snapshots : List Timestamp)
      → Good (archives_of (record { meta = meta }))
      → Holds (archives_of (record { meta = meta })) w
      → Plans ctx.send_policy snapshots (archives_of (record { meta = meta })) last snapshots steps
      → Ends
          (IsSafe stored ctx.volume before)
          (λ t. AfterRun snapshots)
          (run_plan ex ctx totals meta steps w)
  unfolding AfterRun Good
  run_plan-Ends totals meta [] w snapshots g h plans =
      Ends-done _ w (Safe-of w _ h g)
        (rw h (Plans-covers ctx.send_policy snapshots (λ step. []) plans g.0))
  run_plan-Ends totals meta (step ∷ steps) w snapshots g h plans =
      Ends-bind (first_meta ex ctx meta w) _ (first_meta-Ends meta w g h) (λ m w₁ p₁ r₁.
        Ends-bind (run_steps ex ctx totals m (step ∷ steps) w₁) _
          (run_steps-Ends snapshots totals m w₁ plans r₁.0 g r₁.1)
          (λ q w₂ p₂ r₂. let (covers, extends, holds) = r₂ in Ends-done _ w₂ p₂ (rw holds covers)))

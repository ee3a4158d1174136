-- ===== src/Restore/Whole.antt =====
-- The commands `restore` and `dryrestore` of src/cli/restore.rs as a whole.
use bbkar.Common.{◌≡◌, refl, sym, ap, ◌∙◌, subst, arith, Option, none, some, List, []}
use bbkar.Common.{◌∷◌, map, All}
use bbkar.Common.Br.{ok, bind-eq-ok, ok_injective, ok_or}
use bbkar.Common.Io.{continue-ok}
use bbkar.Common.Text.{Text}
use bbkar.Config.{SourceSpec, find_entry}
use bbkar.Dest.{VolumeArchive, DestMeta, DestState}
use bbkar.Dest.Lookup.{IsSound, lookup-raw}
use bbkar.Plan.{RestoreStep}
use bbkar.Restore.{
  resolve_targets, merge_plans, prepare_steps, dryrestore_steps, RestoreReport, would_skip,
}
use bbkar.Restore.{would_receive, step_timestamp}
use bbkar.Restore.Command.{Prepared, RestoreArgs, prepare_restore, restore, dryrestore}
use bbkar.Restore.Command.{choose_block, scan_existing}
use bbkar.Restore.Steps.{IsStepOf, AreDistinct}
use bbkar.Restore.Sequence.{Applies, receive_all, prepare_steps-ParentsFirst}
use bbkar.Restore.Order.{ParentsFirst}
use bbkar.Restore.Sequence.{restore_steps-receive_all, done, skip, apply}
use bbkar.RestorePlan.Chain.{AllParsed}
use bbkar.Sync.{Host, load_config}

some_or_err : {A : Type 0} (o : Option A) (e : _) {a : A} → ok_or o e ≡ ok a → o ≡ some a
some_or_err none e h = ground arith
some_or_err (some b) e h = ground arith

-- Steps that have been prepared, from what they were prepared
prepare_steps-ok :
    (volume : Text) (d : DestState) (snapshots : List Text) (min max : Option Text)
    {meta : DestMeta} {steps : List RestoreStep}
    → prepare_steps volume d snapshots min max ≡ ok (meta, steps)
    → IsSound meta.archives
    → AllParsed meta.archives
    → All (IsStepOf meta.archives) steps × AreDistinct steps × ParentsFirst [] steps
unfolding prepare_steps
prepare_steps-ok volume d snapshots min max {meta} {steps} h sound parsed =
    let (meta₀, e, h₁) = bind-eq-ok (ok_or d.meta _) _ h in
    let (targets, f, h₂) = bind-eq-ok (resolve_targets meta₀.archives snapshots min max) _ h₁ in
    let (merged, g, h₃) = bind-eq-ok (merge_plans meta₀.archives targets _) _ h₂ in
    let same : meta₀ ≡ meta = ap (λ (p : DestMeta × List RestoreStep). p.0) (ok_injective h₃) in
    let whole : d ≡ record { meta = some meta } =
      ap (λ (m : Option DestMeta). record { meta = m }) (some_or_err d.meta _ e ∙ ap some same) in
    let resolved : resolve_targets meta.archives snapshots min max ≡ ok targets =
      subst (λ (m : DestMeta). resolve_targets m.archives snapshots min max ≡ ok targets) same f in
    let (steps', prepared, of, distinct, first, reached) =
      prepare_steps-ParentsFirst volume meta snapshots min max targets sound parsed resolved in
    let equal : steps' ≡ steps =
      ap (λ (p : DestMeta × List RestoreStep). p.1)
        (ok_injective (
          sym prepared
          ∙ subst (λ (z : DestState). prepare_steps volume z snapshots min max ≡ ok (meta, steps))
              whole h)) in
    subst
      (λ (l : List RestoreStep). All (IsStepOf meta.archives) l × AreDistinct l × ParentsFirst [] l)
      equal (of, distinct, first)

-- The names that a dry run of a restore would receive
unfoldable pub received_names : List RestoreReport → List Text
received_names [] = []
received_names (would_skip name ∷ reports) = received_names reports
received_names (would_receive raw ∷ reports) = raw ∷ received_names reports

received_names-dryrestore_steps :
    (archives : List VolumeArchive) (volume : Text) (pre_existing : List Text)
    {steps : List RestoreStep} {applied : List VolumeArchive}
    → Applies archives volume pre_existing steps applied
    → received_names (dryrestore_steps volume pre_existing steps)
      ≡ map (λ a. a.timestamp.raw) applied
unfolding dryrestore_steps received_names
received_names-dryrestore_steps archives volume pre_existing done = refl
received_names-dryrestore_steps archives volume pre_existing (skip s there rest) =
    rw there (received_names-dryrestore_steps archives volume pre_existing rest)
received_names-dryrestore_steps archives volume pre_existing
      (apply {applied = applied} s a absent found rest) =
    rw absent (
      ap (λ l. (step_timestamp s).raw ∷ l)
        (received_names-dryrestore_steps archives volume pre_existing rest)
      ∙ ap (λ (r : Text). r ∷ map (λ a. a.timestamp.raw) applied)
          (sym (lookup-raw archives (step_timestamp s).raw found)))

module _ {W Stream : Type 0} (host : Host W Stream) (src : SourceSpec) (path : Text)
    (args : RestoreArgs) where
  -- The metadata and the steps of a restore that has been prepared
  prepared-ok :
      (w : W) {w' : W} {plan : Prepared}
      → prepare_restore host src path args w ≡ (ok plan, w')
      → (d : DestState) × (prepare_steps args.volume d args.snapshots args.min_timestamp
            args.max_timestamp
          ≡ ok (plan.meta, plan.steps))
  unfolding prepare_restore
  prepared-ok w {plan} h =
      let (conf, w₁, e₁, h₁) = continue-ok (load_config host path w) _ (ap (λ z. z.0) h) in
      let (block, w₂, e₂, h₂) = continue-ok (choose_block conf args.name, w₁) _ h₁ in
      let (dest, w₃, e₃, h₃) = continue-ok (ok_or (find_entry conf.dest block.1.dest) _, w₂) _ h₂ in
      let (d, w₄, e₄, h₄) =
        continue-ok ((host.executor src dest).inspect_dest_volume args.volume w₃) _ h₃ in
      let (p, w₅, e₅, h₅) =
        continue-ok
          (prepare_steps args.volume d args.snapshots args.min_timestamp args.max_timestamp, w₄) _
          h₄ in
      let (existing, w₆, e₆, h₆) =
        continue-ok (scan_existing (host.directory args.root w₅), w₅) _ h₅ in
      (d, ap (λ z. z.0) e₅ ∙ ap (λ (plan : Prepared). ok (plan.meta, plan.steps)) (ok_injective h₆))

  -- For a restore whose preparation succeeds, over sound metadata whose timestamps are parsed
  -- names: its steps have the parent of each incremental one before it; the command restore finds
  -- the archive of every step, and from the world of the preparation on it does the same as
  -- receiving, one after the other, the archives of the steps whose subvolume was not in the root
  -- before; the command dryrestore succeeds, changes nothing more, and the names that it would
  -- receive are those of these archives, in their order.
  pub restore-receive_all :
      (w : W) {w' : W} {plan : Prepared}
      → prepare_restore host src path args w ≡ (ok plan, w')
      → IsSound plan.meta.archives
      → AllParsed plan.meta.archives
      → ParentsFirst [] plan.steps
        × ((applied : List VolumeArchive) × Applies plan.meta.archives args.volume plan.pre_existing
              plan.steps applied
            × (restore host src path args w
                ≡ receive_all (host.executor src plan.dest_spec) args.volume args.root applied w')
            × ((reports : List RestoreReport) × (dryrestore host src path args w ≡ (ok reports, w'))
                × (received_names reports ≡ map (λ a. a.timestamp.raw) applied)))
  unfolding restore dryrestore
  restore-receive_all w {w'} {plan} h sound parsed =
      let (d, prepared) = prepared-ok w h in
      let (of, distinct, first) = prepare_steps-ok args.volume d _ _ _ prepared sound parsed in
      let (applied, applies, equal) =
        restore_steps-receive_all (host.executor src plan.dest_spec) args.volume args.root
          plan.meta.archives plan.pre_existing plan.steps of distinct in
      (
        first,
        (
          applied,
          applies,
          rw h (equal w'),
          (
            dryrestore_steps args.volume plan.pre_existing plan.steps,
            rw h refl,
            received_names-dryrestore_steps plan.meta.archives args.volume plan.pre_existing
                applies,
          ),
        ),
      )

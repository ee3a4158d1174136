-- ===== src/Restore/Sequence.antt =====
-- The order of the merged steps, and the loop of `restore` over them.
use bbkar.Common.{◌≡◌, refl, ◌∙◌, arith, true, false, Option, some}
use bbkar.Common.{List, [], ◌∷◌, All, All-imp, Bool-cases, inl, inr}
use bbkar.Common.Br.{ok}
use bbkar.Common.Io
use bbkar.Common.Io.{Io, continue_cong}
use bbkar.Common.Sort.{sort-IsSorted, All-sort}
use bbkar.Common.Text.{Text, text_eq_iff}
use bbkar.Dest.{VolumeArchive, DestMeta}
use bbkar.Dest.Lookup.{lookup, IsSound}
use bbkar.Executor.{Executor}
use bbkar.Plan.{RestoreStep}
use bbkar.Planner.{contains}
use bbkar.Restore.{step_timestamp, prepare_steps, restore_steps, resolve_targets}
use bbkar.Restore.Steps.{IsStepOf, has, AreDistinct}
use bbkar.Restore.Merge.{merge_plans-IsMergeOf}
use bbkar.Restore.Resolve.{resolve_targets-IsArchived}
use bbkar.RestorePlan.Chain.{AllParsed, find_archive-eq}
use bbkar.Run.{subvolume_name}
use bbkar.Timestamp.{Timestamp, timestamp_order}
use bbkar.Restore.Order.{ParentsFirst, sort_steps, has-sort, AreDistinct-sort, sorted-ParentsFirst}

-- The archives that a restore applies, in their order: those of the steps whose subvolume was not
-- there before.
pub data Applies (archives : List VolumeArchive) (volume : Text) (pre_existing : List Text)
    : List RestoreStep → List VolumeArchive → Type 0 where
  done : Applies archives volume pre_existing [] []
  skip :
      {steps : List RestoreStep} {applied : List VolumeArchive} (s : RestoreStep)
      → contains pre_existing (subvolume_name volume (step_timestamp s)) ≡ true
      → Applies archives volume pre_existing steps applied
      → Applies archives volume pre_existing (s ∷ steps) applied
  apply :
      {steps : List RestoreStep} {applied : List VolumeArchive} (s : RestoreStep)
      (a : VolumeArchive)
      → contains pre_existing (subvolume_name volume (step_timestamp s)) ≡ false
      → lookup archives (step_timestamp s).raw ≡ some a
      → Applies archives volume pre_existing steps applied
      → Applies archives volume pre_existing (s ∷ steps) (a ∷ applied)

-- One `btrfs receive` after the other, up to the first that fails
abbrev pub receive_all :
    {W Stream : Type 0} → Executor W Stream → Text → Text → List VolumeArchive → Io W (Unit {0})
receive_all ex volume root [] = Io.done tt
receive_all ex volume root (a ∷ applied) =
    Io.◌>>=◌ (ex.restore_archive volume a root) (λ u. receive_all ex volume root applied)

subvolume_name-injective :
    (volume : Text) (s t : Timestamp)
    → subvolume_name volume s ≡ subvolume_name volume t
    → s.raw ≡ t.raw
subvolume_name-injective [] s t h = ground arith
subvolume_name-injective (c ∷ volume) s t h = subvolume_name-injective volume s t (ground arith)

-- The names received so far are none of the steps that are left.
abbrev IsFresh : Text → List Text → List RestoreStep → Type 0
IsFresh volume received =
    All (λ s. contains received (subvolume_name volume (step_timestamp s)) ≡ false)

IsFresh-cons :
    (volume : Text) (received : List Text) (s : RestoreStep) (l : List RestoreStep)
    → has l (step_timestamp s).raw ≡ false
    → IsFresh volume received l
    → IsFresh volume (subvolume_name volume (step_timestamp s) ∷ received) l
unfolding has contains
IsFresh-cons volume received s [] h f = tt
IsFresh-cons volume received s (x ∷ l) h f = (
  ground (
    arith,
    text_eq_iff (subvolume_name volume (step_timestamp s))
        (subvolume_name volume (step_timestamp x)),
    subvolume_name-injective volume (step_timestamp s) (step_timestamp x),
    text_eq_iff (step_timestamp x).raw (step_timestamp s).raw,
  ),
  IsFresh-cons volume received s l (ground arith) f.1,
)

module _ {W Stream : Type 0} (ex : Executor W Stream) (volume root : Text)
    (archives : List VolumeArchive) (pre_existing : List Text) where
  restore_steps-Applies :
      (steps : List RestoreStep) (received : List Text)
      → All (IsStepOf archives) steps
      → AreDistinct steps
      → IsFresh volume received steps
      → (applied : List VolumeArchive) × Applies archives volume pre_existing steps applied
        × ((w : W)
            → restore_steps ex volume root archives pre_existing received steps w
              ≡ receive_all ex volume root applied w)
  unfolding restore_steps
  restore_steps-Applies [] received of distinct fresh = ([], done, λ w. refl)
  restore_steps-Applies (s ∷ steps) received ((a, found, same, parent), of) distinct (new, fresh) =
      elim (Bool-cases (contains pre_existing (subvolume_name volume (step_timestamp s)))) [
        | inl there ↦
            let (applied, applies, equal) =
              restore_steps-Applies steps received of distinct.1 fresh in
            (applied, skip s there applies, λ w. rw there (equal w))
        | inr absent ↦
            let (applied, applies, equal) =
              restore_steps-Applies steps (subvolume_name volume (step_timestamp s) ∷ received) of
                distinct.1 (IsFresh-cons volume received s steps distinct.0 fresh) in
            (
              a ∷ applied,
              apply s a absent found applies,
              λ w.
                  rw (absent, new, find_archive-eq archives (step_timestamp s) a found same)
                    (continue_cong (ex.restore_archive volume a root w) (λ u w'. equal w')),
            )
      ]

-- Over sound metadata whose timestamps are parsed names, a restore whose targets resolve has steps:
-- they apply archives of the metadata, each once, the parent of each incremental one before it, and
-- all targets are among them.
pub prepare_steps-ParentsFirst :
    (volume : Text) (meta : DestMeta) (snapshots : List Text) (min max : Option Text)
    (targets : List Timestamp)
    → IsSound meta.archives
    → AllParsed meta.archives
    → resolve_targets meta.archives snapshots min max ≡ ok targets
    → (steps : List RestoreStep) × (prepare_steps volume
          (record { meta = some meta })
          snapshots
          min
          max
        ≡ ok (meta, steps))
      × All (IsStepOf meta.archives) steps
      × AreDistinct steps
      × ParentsFirst [] steps
      × All (λ t. has steps t.raw ≡ true) targets
unfolding prepare_steps
prepare_steps-ParentsFirst volume meta snapshots min max targets sound parsed resolved =
    let archived =
      (resolve_targets-IsArchived meta.archives snapshots min max sound.distinct resolved).0 in
    let (st, merged, is_merge) =
      merge_plans-IsMergeOf meta.archives targets sound parsed archived in
    let steps_of =
      All-sort timestamp_order step_timestamp (IsStepOf meta.archives) st.all_steps
        is_merge.steps_of in
    (
      sort_steps st.all_steps,
      rw (resolved, merged) refl,
      steps_of,
      AreDistinct-sort st.all_steps is_merge.distinct,
      sorted-ParentsFirst meta.archives sound (sort_steps st.all_steps) []
          (sort-IsSorted timestamp_order step_timestamp st.all_steps) steps_of
          (All-sort timestamp_order step_timestamp _ st.all_steps (
            All-imp (λ s h p e. ground (arith, has-sort st.all_steps p, h p e)) st.all_steps
              is_merge.parents)),
      All-imp (λ t h. has-sort st.all_steps t.raw ∙ h) targets is_merge.reached,
    )

module _ {W Stream : Type 0} (ex : Executor W Stream) (volume root : Text)
    (archives : List VolumeArchive) (pre_existing : List Text) where
  -- Over steps that apply archives of the metadata, each once, the loop of `restore` finds the
  -- archive of every step: from any world on it does the same as receiving, one after the other,
  -- the archives of the steps whose subvolume was not in the root before.
  pub restore_steps-receive_all :
      (steps : List RestoreStep)
      → All (IsStepOf archives) steps
      → AreDistinct steps
      → (applied : List VolumeArchive) × Applies archives volume pre_existing steps applied
        × ((w : W)
            → restore_steps ex volume root archives pre_existing [] steps w
              ≡ receive_all ex volume root applied w)
  unfolding contains
  restore_steps-receive_all steps of distinct =
      restore_steps-Applies ex volume root archives pre_existing steps [] of distinct
        (All-imp (λ s h. refl) steps of)

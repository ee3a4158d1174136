-- ===== src/Restore/Merge.antt =====
-- The merge of the plans of several targets in `prepare_restore`.
use bbkar.Common.{◌≡◌, refl, arith, true, ◌||◌, some}
use bbkar.Common.{List, [], ◌∷◌, All, All-imp, All-append}
use bbkar.Common.Br.{ok}
use bbkar.Common.Text.{Text, text_eq, text_eq_iff}
use bbkar.Dest.{VolumeArchive}
use bbkar.Dest.Lookup.{lookup, IsSound}
use bbkar.Plan.{RestoreStep}
use bbkar.Planner.{contains}
use bbkar.Restore.{Merged, step_timestamp, push_new, push_all_new, merge_plans}
use bbkar.RestorePlan.Chain.{Restores, AllParsed, build_restore_plan-Restores}
use bbkar.Timestamp.{Timestamp}
use bbkar.Restore.Steps.{
  IsStepOf, has, has-append, HasParent, AreDistinct, AreDistinct-append, Restores-IsStepOf,
  Restores-has, Restores-HasParent,
}

-- The two variables of the merge agree.
abbrev pub IsMerged : Merged → Type 0
IsMerged st = (r : Text) → contains st.seen r ≡ has st.all_steps r

push_new-has :
    (st : Merged) (s : RestoreStep) (r : Text)
    → IsMerged st
    → has (push_new st s).all_steps r ≡ (has st.all_steps r || text_eq (step_timestamp s).raw r)
unfolding push_new
push_new-has st s r m = ground (
  arith,
  m (step_timestamp s).raw,
  has-append st.all_steps s r,
  text_eq_iff (step_timestamp s).raw r,
)

push_new-IsMerged : (st : Merged) (s : RestoreStep) → IsMerged st → IsMerged (push_new st s)
unfolding push_new contains
push_new-IsMerged st s m r =
    ground (arith, m r, m (step_timestamp s).raw, has-append st.all_steps s r)

push_new-All :
    (P : RestoreStep → Type 0) (st : Merged) (s : RestoreStep)
    → All P st.all_steps
    → P s
    → All P (push_new st s).all_steps
unfolding push_new
push_new-All P st s all p = ground (arith, All-append P st.all_steps (s ∷ []) all (p, tt))

push_new-AreDistinct :
    (st : Merged) (s : RestoreStep)
    → IsMerged st
    → AreDistinct st.all_steps
    → AreDistinct (push_new st s).all_steps
unfolding push_new
push_new-AreDistinct st s m d =
    ground (arith, m (step_timestamp s).raw, AreDistinct-append st.all_steps s d)

record IsGood (l : List VolumeArchive) (st : Merged) : Type 0 where
  merged : IsMerged st
  steps_of : All (IsStepOf l) st.all_steps
  distinct : AreDistinct st.all_steps

push_all_new-IsGood :
    (l : List VolumeArchive) (st : Merged) (steps : List RestoreStep)
    → IsGood l st
    → All (IsStepOf l) steps
    → IsGood l (push_all_new st steps)
unfolding push_all_new
push_all_new-IsGood l st [] g all = g
push_all_new-IsGood l st (s ∷ steps) g all =
    push_all_new-IsGood l (push_new st s) steps
      (record {
        merged = push_new-IsMerged st s g.merged;
        steps_of = push_new-All (IsStepOf l) st s g.steps_of all.0;
        distinct = push_new-AreDistinct st s g.merged g.distinct;
      })
      all.1

push_all_new-has :
    (st : Merged) (steps : List RestoreStep) (r : Text)
    → IsMerged st
    → has (push_all_new st steps).all_steps r ≡ (has st.all_steps r || has steps r)
unfolding push_all_new has
push_all_new-has st [] r m = ground arith
push_all_new-has st (s ∷ steps) r m = ground (
  arith,
  push_new-has st s r m,
  push_all_new-has (push_new st s) steps r (push_new-IsMerged st s m),
)

push_all_new-All :
    (P : RestoreStep → Type 0) (st : Merged) (steps : List RestoreStep)
    → All P st.all_steps
    → All P steps
    → All P (push_all_new st steps).all_steps
unfolding push_all_new
push_all_new-All P st [] all p = all
push_all_new-All P st (s ∷ steps) all p =
    push_all_new-All P (push_new st s) steps (push_new-All P st s all p.0) p.1

-- The merged steps, with their parents among them and the targets that are done.
pub record IsMergeOf (l : List VolumeArchive) (targets : List Timestamp) (steps : List RestoreStep)
    : Type 0 where
  pub steps_of : All (IsStepOf l) steps
  pub distinct : AreDistinct steps
  pub parents : All (HasParent steps) steps
  pub reached : All (λ t. has steps t.raw ≡ true) targets

-- The target is the timestamp of an archive.
abbrev pub IsArchived : List VolumeArchive → Timestamp → Type 0
IsArchived l t = (a : VolumeArchive) × (lookup l t.raw ≡ some a) × (a.timestamp ≡ t)

merge_step :
    (l : List VolumeArchive) (st : Merged) (target : Timestamp) (steps : List RestoreStep)
    → IsGood l st
    → All (HasParent st.all_steps) st.all_steps
    → Restores l target.raw steps
    → All (HasParent (push_all_new st steps).all_steps) (push_all_new st steps).all_steps
merge_step l st target steps g parents there =
    push_all_new-All (HasParent (push_all_new st steps).all_steps) st steps
      (All-imp (λ s h q k. ground (arith, push_all_new-has st steps q g.merged, h q k)) st.all_steps
        parents)
      (All-imp (λ s h q k. ground (arith, push_all_new-has st steps q g.merged, h q k)) steps
        (Restores-HasParent there))

merge_plans-IsGood :
    (l : List VolumeArchive) (sound : IsSound l) (parsed : AllParsed l) (targets : List Timestamp)
    (st : Merged)
    → All (IsArchived l) targets
    → IsGood l st
    → All (HasParent st.all_steps) st.all_steps
    → (st' : Merged) × (merge_plans l targets st ≡ ok st')
      × IsMergeOf l targets st'.all_steps
      × ((r : Text) → has st.all_steps r ≡ true → has st'.all_steps r ≡ true)
unfolding merge_plans
merge_plans-IsGood l sound parsed [] st archived g parents = (
  st,
  refl,
  record { steps_of = g.steps_of; distinct = g.distinct; parents = parents; reached = tt },
  λ r h. h,
)
merge_plans-IsGood l sound parsed (t ∷ targets) st ((a, found, same), archived) g parents =
    let (p, built, there) = build_restore_plan-Restores l t a sound parsed found same in
    let (st', merged, is_merge, keeps) =
      merge_plans-IsGood l sound parsed targets (push_all_new st p.steps) archived
        (push_all_new-IsGood l st p.steps g (Restores-IsStepOf there))
        (merge_step l st t p.steps g parents there) in
    (
      st',
      rw built merged,
      record {
        steps_of = is_merge.steps_of;
        distinct = is_merge.distinct;
        parents = is_merge.parents;
        reached = (
          keeps t.raw
              (ground (arith, push_all_new-has st p.steps t.raw g.merged, Restores-has there)),
          is_merge.reached,
        );
      },
      λ r h. keeps r (ground (arith, push_all_new-has st p.steps r g.merged, h)),
    )

-- The merge from nothing
pub merge_plans-IsMergeOf :
    (l : List VolumeArchive) (targets : List Timestamp)
    → IsSound l
    → AllParsed l
    → All (IsArchived l) targets
    → (st : Merged) × (merge_plans l targets (record { seen = []; all_steps = [] }) ≡ ok st)
      × IsMergeOf l targets st.all_steps
unfolding contains has
merge_plans-IsMergeOf l targets sound parsed archived =
    let (st, merged, is_merge, keeps) =
      merge_plans-IsGood l sound parsed targets (record { seen = []; all_steps = [] }) archived
        (record { merged = λ r. refl; steps_of = tt; distinct = tt }) tt in
    (st, merged, is_merge)

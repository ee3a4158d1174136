-- ===== src/Restore/Order.antt =====
-- Sorted steps have parents before children: the sort in prepare_restore of src/cli/restore.rs.
use Prim.Native.Nat.Ordering.{lt}
use bbkar.Common.{◌≡◌, refl, ap, ◌∙◌, arith, true, false, ◌||◌, some}
use bbkar.Common.{List, [], ◌∷◌, All, All-imp, Bool-cases, inl, inr}
use bbkar.Common.Sort.{before, insert, sort, IsSorted}
use bbkar.Common.Text.{Text, text_eq, text_eq_iff, compare_text, compare_text_refl}
use bbkar.Dest.{VolumeArchive}
use bbkar.Dest.Lookup.{IsSound}
use bbkar.Plan.{RestoreStep}
use bbkar.Planner.{contains}
use bbkar.Restore.{step_timestamp}
use bbkar.Restore.Steps.{step_parent, IsStepOf, has, AreDistinct}
use bbkar.Timestamp.{timestamp_order, compare_timestamp}

-- Each incremental step comes after the step of its parent, or its parent is one of `have`.
abbrev pub ParentsFirst : List Text → List RestoreStep → Type 0
ParentsFirst have [] = Unit
ParentsFirst have (s ∷ l) =
    ((p : Text) → step_parent s ≡ some p → contains have p ≡ true)
    × ParentsFirst ((step_timestamp s).raw ∷ have) l

abbrev pub sort_steps : List RestoreStep → List RestoreStep
sort_steps = sort timestamp_order step_timestamp

has-insert :
    (s : RestoreStep) (l : List RestoreStep) (r : Text)
    → has (insert timestamp_order step_timestamp s l) r
      ≡ (text_eq (step_timestamp s).raw r || has l r)
unfolding has insert
has-insert s [] r = refl
has-insert s (x ∷ l) r = ground (arith, has-insert s l r)

pub has-sort : (l : List RestoreStep) (r : Text) → has (sort_steps l) r ≡ has l r
unfolding has sort
has-sort [] r = refl
has-sort (s ∷ l) r =
    has-insert s (sort_steps l) r ∙ ap (λ b. text_eq (step_timestamp s).raw r || b) (has-sort l r)

AreDistinct-insert :
    (s : RestoreStep) (l : List RestoreStep)
    → AreDistinct l
    → has l (step_timestamp s).raw ≡ false
    → AreDistinct (insert timestamp_order step_timestamp s l)
unfolding has insert
AreDistinct-insert s [] d h = (refl, tt)
AreDistinct-insert s (x ∷ l) d h = elim (Bool-cases (before timestamp_order step_timestamp x s)) [
  | inl less ↦ rw less (
    ground (
      arith,
      has-insert s l (step_timestamp x).raw,
      text_eq_iff (step_timestamp x).raw (step_timestamp s).raw,
      text_eq_iff (step_timestamp s).raw (step_timestamp x).raw,
    ),
    AreDistinct-insert s l d.1 (ground arith),
  )
  | inr more ↦ rw more (h, d)
]

pub AreDistinct-sort : (l : List RestoreStep) → AreDistinct l → AreDistinct (sort_steps l)
unfolding sort
AreDistinct-sort [] d = tt
AreDistinct-sort (s ∷ l) d =
    AreDistinct-insert s (sort_steps l) (AreDistinct-sort l d.1)
      (has-sort l (step_timestamp s).raw ∙ d.0)

-- None of the steps that are not before `s` has a smaller name.
has-later :
    (s : RestoreStep) (l : List RestoreStep) (p : Text)
    → compare_text p (step_timestamp s).raw ≡ lt
    → All (λ y. before timestamp_order step_timestamp y s ≡ false) l
    → has l p ≡ false
unfolding has compare_timestamp
has-later s [] p less all = refl
has-later s (x ∷ l) p less (later, all) =
    ground (arith, has-later s l p less all, text_eq_iff (step_timestamp x).raw p)

has_self :
    (s : RestoreStep) (p : Text)
    → compare_text p (step_timestamp s).raw ≡ lt
    → text_eq (step_timestamp s).raw p ≡ false
has_self s p less = ground (arith, text_eq_iff (step_timestamp s).raw p, compare_text_refl p)

pub sorted-ParentsFirst :
    (archives : List VolumeArchive) (sound : IsSound archives) (l : List RestoreStep)
    (have : List Text)
    → IsSorted timestamp_order step_timestamp l
    → All (IsStepOf archives) l
    → All (λ s. (p : Text) → step_parent s ≡ some p → (contains have p || has l p) ≡ true) l
    → ParentsFirst have l
unfolding has contains
sorted-ParentsFirst archives sound [] have sorted steps parents = tt
sorted-ParentsFirst archives sound (s ∷ l) have sorted ((a, found, same, parent), steps)
      (here, parents) =
    (
      λ p e.
          let (b, at_p, less) = sound.rooted (step_timestamp s).raw a p found (parent ∙ e) in
          ground (arith, here p e, has_self s p less, has-later s l p less sorted.0),
      sorted-ParentsFirst archives sound l ((step_timestamp s).raw ∷ have) sorted.1 steps
          (All-imp (λ t h p e. ground (arith, h p e)) l parents),
    )

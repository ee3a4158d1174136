-- ===== src/Restore/Steps.antt =====
-- The steps of a restore plan, and lists of them without repetition: src/cli/restore.rs.
use bbkar.Common.{
  ◌≡◌, refl, sym, ap, ◌∙◌, subst, arith, Bool, true, false, ◌||◌, Option, none, some,
}
use bbkar.Common.{List, [], ◌∷◌, ◌++◌, All, All-imp, All-append}
use bbkar.Common.Text.{Text, text_eq, text_eq_iff, text_eq_refl}
use bbkar.Dest.{VolumeArchive}
use bbkar.Dest.Lookup.{lookup, lookup-raw}
use bbkar.Plan.{RestoreStep, receive_full, receive_incremental}
use bbkar.Restore.{step_timestamp}
use bbkar.RestorePlan.Chain.{Restores, full, above}
use bbkar.Timestamp.{parse_parts}

abbrev pub step_parent : RestoreStep → Option Text
step_parent (receive_full ts) = none
step_parent (receive_incremental ts parent) = some parent.raw

-- The step applies an archive, on top of the parent that the archive names.
abbrev pub IsStepOf : List VolumeArchive → RestoreStep → Type 0
IsStepOf l step =
    (a : VolumeArchive) × (lookup l (step_timestamp step).raw ≡ some a)
    × (a.timestamp ≡ step_timestamp step)
    × (a.parent_timestamp ≡ step_parent step)

-- One of the steps applies the archive of this name.
unfoldable pub has : List RestoreStep → Text → Bool
has [] r = false
has (s ∷ l) r = text_eq (step_timestamp s).raw r || has l r

pub has-append :
    (l : List RestoreStep) (s : RestoreStep) (r : Text)
    → has (l ++ s ∷ []) r ≡ (has l r || text_eq (step_timestamp s).raw r)
unfolding has
has-append [] s r = ground arith
has-append (x ∷ l) s r = ground (arith, has-append l s r)

-- The parent of the step is applied by one of `l`.
abbrev pub HasParent : List RestoreStep → RestoreStep → Type 0
HasParent l step = (p : Text) → step_parent step ≡ some p → has l p ≡ true

-- No archive is applied twice.
abbrev pub AreDistinct : List RestoreStep → Type 0
AreDistinct [] = Unit
AreDistinct (s ∷ l) = (has l (step_timestamp s).raw ≡ false) × AreDistinct l

pub AreDistinct-append :
    (l : List RestoreStep) (s : RestoreStep)
    → AreDistinct l
    → has l (step_timestamp s).raw ≡ false
    → AreDistinct (l ++ s ∷ [])
unfolding has
AreDistinct-append [] s d h = (refl, tt)
AreDistinct-append (x ∷ l) s d h = (
  ground (
    arith,
    has-append l s (step_timestamp x).raw,
    text_eq_iff (step_timestamp x).raw (step_timestamp s).raw,
    text_eq_iff (step_timestamp s).raw (step_timestamp x).raw,
  ),
  AreDistinct-append l s d.1 (ground arith),
)

pub Restores-IsStepOf :
    {l : List VolumeArchive} {r : Text} {steps : List RestoreStep}
    → Restores l r steps
    → All (IsStepOf l) steps
Restores-IsStepOf {l} {r} (full a e f) =
    ((a, subst (λ q. lookup l q ≡ some a) (sym (lookup-raw l r e)) e, refl, f), tt)
Restores-IsStepOf {l} {r} (above {steps = steps} a p t e f g rest) =
    All-append (IsStepOf l) steps _ (Restores-IsStepOf rest) (
      (
        a,
        subst (λ q. lookup l q ≡ some a) (sym (lookup-raw l r e)) e,
        refl,
        f ∙ ap some (sym (parse_parts p g).0),
      ),
      tt,
    )

pub Restores-has :
    {l : List VolumeArchive} {r : Text} {steps : List RestoreStep}
    → Restores l r steps
    → has steps r ≡ true
unfolding has
Restores-has {l} {r} (full a e f) = ground (arith, lookup-raw l r e, text_eq_refl r)
Restores-has {l} {r} (above {steps = steps} a p t e f g rest) = ground (
  arith,
  lookup-raw l r e,
  text_eq_refl r,
  has-append steps (receive_incremental a.timestamp t) r,
)

pub Restores-HasParent :
    {l : List VolumeArchive} {r : Text} {steps : List RestoreStep}
    → Restores l r steps
    → All (HasParent steps) steps
Restores-HasParent (full a e f) = (λ p h. ground arith, tt)
Restores-HasParent {l} {r} (above {steps = steps} a p t e f g rest) =
    let last = receive_incremental a.timestamp t in
    All-append (HasParent (steps ++ last ∷ [])) steps _
      (All-imp (λ s h q k. ground (arith, has-append steps last q, h q k)) steps
        (Restores-HasParent rest))
      (λ q k. ground (arith, has-append steps last q, Restores-has rest, (parse_parts p g).0), tt)

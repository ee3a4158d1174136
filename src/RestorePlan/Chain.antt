-- ===== src/RestorePlan/Chain.antt =====
-- Over sound metadata the restore plan of an archive exists and applies its chain, full one first.
use mathlib.Core.List.{reverse-cons, append_assoc, append-nil}
use bbkar.Common.{ℕ, zero, suc, ◌<◌, ◌≡◌, refl}
use bbkar.Common.{none, some, List, [], ◌∷◌, ◌++◌, reverse, arith, subst, length, All}
use bbkar.Common.{Option-cases, inl, inr}
use bbkar.Common.Br.{ok, bind-eq-ok}
use bbkar.Common.Text.{Text, text_eq_iff}
use bbkar.Dest.{VolumeArchive}
use bbkar.Dest.Lookup.{lookup, IsSound, rank, rank-lt, rank-le-length, lookup-All, lookup-raw}
use bbkar.Plan.{RestoreStep, receive_full, receive_incremental, RestorePlan}
use bbkar.RestorePlan.{find_archive, walk, to_steps, step_from, build_restore_plan}
use bbkar.Timestamp.{Timestamp, timestamp_eq_iff, parse}

-- The steps that rebuild the archive of a name: those of its parent, if it has one, and its own.
pub data Restores (l : List VolumeArchive) : Text → List RestoreStep → Type 0 where
  full :
      {r : Text} (a : VolumeArchive)
      → lookup l r ≡ some a
      → a.parent_timestamp ≡ none
      → Restores l r (receive_full a.timestamp ∷ [])
  above :
      {r : Text} {steps : List RestoreStep} (a : VolumeArchive) (p : Text) (t : Timestamp)
      → lookup l r ≡ some a
      → a.parent_timestamp ≡ some p
      → parse p ≡ some t
      → Restores l p steps
      → Restores l r (steps ++ receive_incremental a.timestamp t ∷ [])

-- The timestamps are those that the program parses from names.
abbrev pub AllParsed : List VolumeArchive → Type 0
AllParsed = All (λ a. parse a.timestamp.raw ≡ some a.timestamp)

-- The archives above which `a` stands, the nearest first.
data Ancestry (l : List VolumeArchive) : VolumeArchive → List VolumeArchive → Type 0 where
  root : {a : VolumeArchive} → a.parent_timestamp ≡ none → Ancestry l a []
  up :
      {a : VolumeArchive} {bs : List VolumeArchive} (p : Text) (b : VolumeArchive)
      → a.parent_timestamp ≡ some p
      → lookup l p ≡ some b
      → Ancestry l b bs
      → Ancestry l a (b ∷ bs)

module _ (l : List VolumeArchive) (sound : IsSound l) where
  ancestry :
      (k : ℕ) (r : Text) (a : VolumeArchive)
      → rank l r < k
      → lookup l r ≡ some a
      → (bs : List VolumeArchive) × Ancestry l a bs × (length bs < k)
  ancestry zero r a h e = absurd (omega arith)
  ancestry (suc k) r a h e = elim (Option-cases a.parent_timestamp) [
    | inl none_there ↦ ([], root none_there, omega arith)
    | inr (p, parent) ↦
        let (b, at_p, less) = sound.rooted r a p e parent in
        let (bs, up_there, short) = ancestry k p b (omega (arith, rank-lt l p r at_p less)) at_p in
        (b ∷ bs, up p b parent at_p up_there, omega arith)
  ]

walk-Ancestry :
    {l : List VolumeArchive} {a : VolumeArchive} {bs : List VolumeArchive}
    → Ancestry l a bs
    → (fuel : ℕ) (chain : List VolumeArchive) → length bs < fuel
    → walk fuel l a chain ≡ ok (chain ++ bs)
unfolding walk
walk-Ancestry c zero chain h = absurd (omega arith)
walk-Ancestry (root e) (suc fuel) chain h = ground (arith, append-nil chain)
walk-Ancestry (up {bs = bs} p b e f c) (suc fuel) chain h =
    ground
      (arith, walk-Ancestry c fuel (chain ++ b ∷ []) (omega arith), append_assoc chain (b ∷ []) bs)

to_steps-append :
    (xs : List VolumeArchive) (a : VolumeArchive) {steps : List RestoreStep} {step : RestoreStep}
    → to_steps xs ≡ ok steps
    → step_from a.timestamp a.parent_timestamp ≡ ok step
    → to_steps (xs ++ a ∷ []) ≡ ok (steps ++ step ∷ [])
unfolding to_steps
to_steps-append [] a h k = ground arith
to_steps-append (x ∷ xs) a {steps} {step} h k =
    let (first, e, h₁) = bind-eq-ok (step_from x.timestamp x.parent_timestamp) _ h in
    let (others, f, made) = bind-eq-ok (to_steps xs) _ h₁ in
    ground (arith, to_steps-append xs a {steps = others} f k)

step_from-eq :
    (a : VolumeArchive) (p : Text) (t : Timestamp)
    → a.parent_timestamp ≡ some p
    → parse p ≡ some t
    → step_from a.timestamp a.parent_timestamp ≡ ok (receive_incremental a.timestamp t)
unfolding step_from
step_from-eq a p t e f = ground arith

step_from-root :
    (a : VolumeArchive)
    → a.parent_timestamp ≡ none
    → step_from a.timestamp a.parent_timestamp ≡ ok (receive_full a.timestamp)
unfolding step_from
step_from-root a e = ground arith

nil-to_steps : to_steps [] ≡ ok []
unfolding to_steps
nil-to_steps = refl

Ancestry-Restores :
    {l : List VolumeArchive} {a : VolumeArchive} {bs : List VolumeArchive}
    → Ancestry l a bs
    → (r : Text) → lookup l r ≡ some a
    → AllParsed l
    → (steps : List RestoreStep) × (to_steps (reverse (a ∷ bs)) ≡ ok steps) × Restores l r steps
Ancestry-Restores {a} (root e) r found parsed = (
  receive_full a.timestamp ∷ [],
  to_steps-append [] a nil-to_steps (step_from-root a e),
  full a found e,
)
Ancestry-Restores {l} {a} (up {bs = bs} p b e f c) r found parsed =
    let (steps, built, there) = Ancestry-Restores c p f parsed in
    let named_p : parse p ≡ some b.timestamp =
      subst (λ q. parse q ≡ some b.timestamp) (lookup-raw l p f)
        (lookup-All (λ z. parse z.timestamp.raw ≡ some z.timestamp) l p f parsed) in
    (
      steps ++ receive_incremental a.timestamp b.timestamp ∷ [],
      rw reverse-cons
          (to_steps-append (reverse (b ∷ bs)) a built (step_from-eq a p b.timestamp e named_p)),
      above a p b.timestamp found e named_p there,
    )

pub find_archive-eq :
    (l : List VolumeArchive) (t : Timestamp) (a : VolumeArchive)
    → lookup l t.raw ≡ some a
    → a.timestamp ≡ t
    → find_archive l t ≡ some a
unfolding find_archive lookup
find_archive-eq [] t a h k = ground arith
find_archive-eq (b ∷ l) t a h k = ground (
  arith,
  find_archive-eq l t a,
  text_eq_iff b.timestamp.raw t.raw,
  timestamp_eq_iff b.timestamp t,
)

-- Over sound metadata whose timestamps are parsed names, the plan to restore an archive exists: the
-- walk ends, and the steps are those that rebuild the archive, its whole parent chain from a full
-- archive on.
pub build_restore_plan-Restores :
    (l : List VolumeArchive) (target : Timestamp) (a : VolumeArchive)
    → IsSound l
    → AllParsed l
    → lookup l target.raw ≡ some a
    → a.timestamp ≡ target
    → (p : RestorePlan) × (build_restore_plan l target ≡ ok p) × Restores l target.raw p.steps
unfolding build_restore_plan
build_restore_plan-Restores l target a sound parsed found same =
    let (bs, c, short) =
      ancestry l sound (suc (length l)) target.raw a (omega (arith, rank-le-length l target.raw))
        found in
    let (steps, built, there) = Ancestry-Restores c target.raw found parsed in
    let walked = walk-Ancestry c (suc (length l)) (a ∷ []) short in
    (record { steps = steps }, ground (arith, find_archive-eq l target a found same), there)

-- ===== src/RestorePlan.antt =====
-- src/service/planner/mod.rs: `build_restore_plan`, which walks the parent chain of an archive back
-- to a full one. The walk runs on fuel.
pub mod Chain
use bbkar.Common.{ℕ, zero, suc, Option, none, some, List, [], ◌∷◌, ◌++◌, reverse, find?, length}
use bbkar.Common.Br.{Br, ok, plan, out_of_fuel, ◌>>=◌, ok_or, unwrap}
use bbkar.Common.Text.{Text, text}
use bbkar.Dest.{VolumeArchive}
use bbkar.Dest.Lookup.{lookup}
use bbkar.Plan.{RestoreStep, receive_full, receive_incremental, RestorePlan}
use bbkar.Timestamp.{Timestamp, timestamp_eq, parse}

-- The `find` of the target, by the whole timestamp.
unfoldable pub find_archive : List VolumeArchive → Timestamp → Option VolumeArchive
unfolding timestamp_eq
find_archive archives target = find? (λ a. timestamp_eq a.timestamp target) archives

abbrev target_missing : Timestamp → Text
target_missing target = text "snapshot '" ++ (target.raw ++ text "' not found in archives")

abbrev parent_missing : Text → VolumeArchive → Text
parent_missing parent current =
    text "parent snapshot '"
    ++ (parent
        ++ (text "' not found in archives (required by '" ++ (current.timestamp.raw ++ text "')")))

-- The `while let` loop.
pub walk : ℕ → List VolumeArchive → VolumeArchive → List VolumeArchive → Br (List VolumeArchive)
unfolding lookup text
walk zero archives current chain = out_of_fuel
walk (suc fuel) archives current chain = elim current.parent_timestamp [
  | none ↦ ok chain
  | some parent ↦ do
    next ← ok_or (lookup archives parent) (plan (parent_missing parent current))
    walk fuel archives next (chain ++ next ∷ [])
]

step_from : Timestamp → Option Text → Br RestoreStep
step_from timestamp none = ok (receive_full timestamp)
step_from timestamp (some parent) = do
  p ← unwrap (parse parent)
  ok (receive_incremental timestamp p)

pub to_steps : List VolumeArchive → Br (List RestoreStep)
unfolding step_from parse
to_steps [] = ok []
to_steps (a ∷ chain) = do
  step ← step_from a.timestamp a.parent_timestamp
  steps ← to_steps chain
  ok (step ∷ steps)

unfoldable pub build_restore_plan : List VolumeArchive → Timestamp → Br RestorePlan
unfolding find_archive walk to_steps text
build_restore_plan archives target = do
  target_archive ← ok_or (find_archive archives target) (plan (target_missing target))
  chain ← walk (suc (length archives)) archives target_archive (target_archive ∷ [])
  steps ← to_steps (reverse chain)
  ok (record { steps = steps })

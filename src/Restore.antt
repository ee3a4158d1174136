-- ===== src/Restore.antt =====
-- src/cli/restore.rs: which archives a restore applies, and the loop that applies them.
pub mod Command
pub mod Merge
pub mod Steps
pub mod Whole
pub mod Sequence
pub mod Order
pub mod Resolve
use bbkar.Common.{
  ℕ, Bool, true, false, ◌&&◌, not, ◌++◌, Option, none, some, List, [], ◌∷◌, if◌then◌else◌,
}
use bbkar.Common.Br.{Br, ok, execution, ◌>>=◌, ok_or, unwrap, err}
use bbkar.Common.Io
use bbkar.Common.Io.{Io, lift}
use bbkar.Common.Order.{is_lt, is_gt}
use bbkar.Common.Sort.{sort}
use bbkar.Common.Text.{Text, text, compare_text, is_empty}
use bbkar.Dest.{VolumeArchive, DestMeta, DestState}
use bbkar.Dest.Lookup.{lookup}
use bbkar.Executor.{Executor}
use bbkar.Plan.{RestoreStep, receive_full, receive_incremental, RestorePlan}
use bbkar.Planner.{contains}
use bbkar.RestorePlan.{build_restore_plan, find_archive}
use bbkar.Run.{subvolume_name}
use bbkar.Timestamp.{Timestamp, timestamp_order, compare_timestamp}

-- The two variables of `resolve_targets`
pub record Targets : Type 0 where
  pub seen : List Text
  pub targets : List Timestamp

-- `max_by_key`, which returns the last of several greatest archives
unfoldable pub newest_from : VolumeArchive → List VolumeArchive → VolumeArchive
unfolding compare_timestamp
newest_from best [] = best
newest_from best (a ∷ l) =
    newest_from (if is_lt (compare_timestamp a.timestamp best.timestamp) then best else a) l

abbrev pub max_by_timestamp : List VolumeArchive → Option VolumeArchive
max_by_timestamp [] = none
max_by_timestamp (a ∷ l) = some (newest_from a l)

unfoldable pub push_target : Timestamp → Targets → Targets
unfolding contains
push_target t st =
    if contains st.seen t.raw
    then st
    else record { seen = t.raw ∷ st.seen; targets = st.targets ++ t ∷ [] }

abbrev pub not_found : Text → Text
not_found raw = text "snapshot '" ++ (raw ++ text "' not found in archives")

unfoldable pub add_explicit : List VolumeArchive → List Text → Targets → Br Targets
unfolding lookup push_target text
add_explicit archives [] st = ok st
add_explicit archives (raw ∷ rest) st = do
  archive ← ok_or (lookup archives raw) (execution (not_found raw))
  add_explicit archives rest (push_target archive.timestamp st)

unfoldable pub in_range : Option Text → Option Text → Text → Bool
unfolding compare_text
in_range min max raw =
    (elim min [ none ↦ true | some m ↦ not (is_lt (compare_text raw m)) ])
    && (elim max [ none ↦ true | some m ↦ not (is_gt (compare_text raw m)) ])

unfoldable pub add_range : Option Text → Option Text → List VolumeArchive → Targets → Targets
unfolding in_range push_target
add_range min max [] st = st
add_range min max (a ∷ l) st =
    add_range min max l
      (if in_range min max a.timestamp.raw then push_target a.timestamp st else st)

abbrev pub has_range : Option Text → Option Text → Bool
has_range none none = false
has_range none (some max) = true
has_range (some min) max = true

abbrev pub finish : List Timestamp → Br (List Timestamp)
finish [] = err (execution (text "no archives match the given snapshot/timestamp filters"))
finish (t ∷ targets) = ok (sort timestamp_order (λ x. x) (t ∷ targets))

abbrev pub latest_target : List VolumeArchive → Br (List Timestamp)
latest_target archives = do
  newest ← ok_or (max_by_timestamp archives) (execution (text "no archives found"))
  ok (newest.timestamp ∷ [])

abbrev pub chosen_targets :
    List VolumeArchive → List Text → Option Text → Option Text → Br (List Timestamp)
chosen_targets archives snapshots min max = do
  explicit ← add_explicit archives snapshots (record { seen = []; targets = [] })
  finish (if has_range min max then add_range min max archives explicit else explicit).targets

unfoldable pub resolve_targets :
    List VolumeArchive → List Text → Option Text → Option Text → Br (List Timestamp)
unfolding newest_from add_explicit add_range sort text
resolve_targets archives [] none none = latest_target archives
resolve_targets archives [] none (some max) = chosen_targets archives [] none (some max)
resolve_targets archives [] (some min) max = chosen_targets archives [] (some min) max
resolve_targets archives (raw ∷ rest) min max = chosen_targets archives (raw ∷ rest) min max

-- The two variables of the merge in `prepare_restore`
pub record Merged : Type 0 where
  pub seen : List Text
  pub all_steps : List RestoreStep

abbrev pub step_timestamp : RestoreStep → Timestamp
step_timestamp (receive_full ts) = ts
step_timestamp (receive_incremental ts parent) = ts

unfoldable pub push_new : Merged → RestoreStep → Merged
unfolding contains
push_new st step = if contains st.seen (step_timestamp step).raw then st else record {
  seen = (step_timestamp step).raw ∷ st.seen;
  all_steps = st.all_steps ++ step ∷ [];
}

unfoldable pub push_all_new : Merged → List RestoreStep → Merged
unfolding push_new
push_all_new st [] = st
push_all_new st (step ∷ steps) = push_all_new (push_new st step) steps

unfoldable pub merge_plans : List VolumeArchive → List Timestamp → Merged → Br Merged
unfolding build_restore_plan push_all_new
merge_plans archives [] st = ok st
merge_plans archives (target ∷ targets) st = do
  p ← build_restore_plan archives target
  merge_plans archives targets (push_all_new st p.steps)

-- The part of `prepare_restore` from the metadata on: the steps, in the order of their timestamps.
unfoldable pub prepare_steps :
    Text → DestState → List Text → Option Text → Option Text → Br (DestMeta × List RestoreStep)
unfolding resolve_targets merge_plans sort text
prepare_steps volume dest_state snapshots min max = do
  meta ←
      ok_or dest_state.meta
        (execution (text "no archives found for volume '" ++ (volume ++ text "'")))
  targets ← resolve_targets meta.archives snapshots min max
  merged ← merge_plans meta.archives targets (record { seen = []; all_steps = [] })
  ok (meta, sort timestamp_order step_timestamp merged.all_steps)

module _ {W Stream : Type 0} (ex : Executor W Stream) (volume root : Text)
    (archives : List VolumeArchive) (pre_existing : List Text) where
  abbrev apply_step : RestoreStep → Io W (Unit {0})
  apply_step step =
      Io.◌>>=◌ (lift (unwrap (find_archive archives (step_timestamp step))))
        (λ archive. ex.restore_archive volume archive root)

  -- The loop of `restore`, with the names received so far
  unfoldable pub restore_steps : List Text → List RestoreStep → Io W (Unit {0})
  unfolding contains find_archive
  restore_steps received [] = Io.done tt
  restore_steps received (step ∷ steps) =
      let subvol_name = subvolume_name volume (step_timestamp step) in
      let rest = restore_steps received steps in
      let applied =
        Io.◌>>=◌ (apply_step step) (λ u. restore_steps (subvol_name ∷ received) steps) in
      if contains pre_existing subvol_name
      then rest
      else if contains received subvol_name
      then rest
      else applied

-- `dryrestore`: the names that a restore would skip and those that it would receive.
pub data RestoreReport : Type 0 where
  would_skip : Text → RestoreReport
  would_receive : Text → RestoreReport

unfoldable pub dryrestore_steps : Text → List Text → List RestoreStep → List RestoreReport
unfolding contains
dryrestore_steps volume pre_existing [] = []
dryrestore_steps volume pre_existing (step ∷ steps) =
    let subvol_name = subvolume_name volume (step_timestamp step) in
    (if contains pre_existing subvol_name
      then would_skip subvol_name
      else would_receive (step_timestamp step).raw)
    ∷ dryrestore_steps volume pre_existing steps

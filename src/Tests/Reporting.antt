-- ===== src/Tests/Reporting.antt =====
-- The commands that report, at concrete inputs.
use bbkar.Common.{◌≡◌, refl, true, none, some, List, [], ◌∷◌, map}
use bbkar.Common.Br.{ok}
use bbkar.Common.Text.{Text, text_order}
use bbkar.Dryrun.{dryrun}
use bbkar.Dryrun.Laws.{dryrun-Leaves}
use bbkar.Inspect.{Directory}
use bbkar.Ls.{snapshot_table, restore_table, scan_root}
use bbkar.Ls.Command.{ls}
use bbkar.Ls.Reads.{reports-Leaves}
use bbkar.Ls.Tables.{AreAll, snapshot_row, restore_row, archived_timestamps, archived_names}
use bbkar.Ls.Tables.{snapshot_table-AreAll, restore_table-AreAll}
use bbkar.Status.{status}
use bbkar.Tests.Configuring.{one_name}
use bbkar.Tests.Data.{day, snapshot, dest_state}
use bbkar.Tests.Running.{World, one_volume}
use bbkar.Tests.Whole.{host}
use bbkar.Timestamp.{Timestamp, timestamp_order}

snapshot_table-AreAll_example :
    (names : List Timestamp) × AreAll timestamp_order
      (snapshot b'2' ∷ snapshot b'1' ∷ [])
      (archived_timestamps dest_state)
      names
    × (snapshot_table (b'v' ∷ []) dest_state (snapshot b'2' ∷ snapshot b'1' ∷ [])
        ≡ ok (
            map
              (snapshot_row
                (b'v' ∷ [])
                (snapshot b'2' ∷ snapshot b'1' ∷ [])
                (archived_timestamps dest_state))
              names))
snapshot_table-AreAll_example =
    snapshot_table-AreAll (b'v' ∷ []) dest_state (snapshot b'2' ∷ snapshot b'1' ∷ [])

abbrev root : Directory
root = record { is_dir = true; read_dir = ok (ok (b'v' ∷ b'.' ∷ day b'1') ∷ ok (b'z' ∷ []) ∷ []) }

restore_table-AreAll_example :
    (names : List Text) × AreAll text_order
      (archived_names dest_state)
      (scan_root (b'v' ∷ []) root)
      names
    × (restore_table (b'v' ∷ []) dest_state root
        ≡ ok (
            map
              (restore_row (b'v' ∷ []) (archived_names dest_state) (scan_root (b'v' ∷ []) root))
              names))
restore_table-AreAll_example = restore_table-AreAll (b'v' ∷ []) dest_state root

abbrev start : World
start = (one_volume, 4)

-- The world is the one of the start.
abbrev IsStart : World → Type 0
IsStart w = w ≡ start

dryrun-Leaves_example : IsStart (dryrun host true [] (some one_name) start).1
dryrun-Leaves_example =
    dryrun-Leaves host IsStart
      (λ src dest. record { inspect_leaves = λ v w p. p; measure_leaves = λ chunks w p. p }) true []
      (some one_name) start refl

reports-Leaves_example :
    IsStart (status host [] none start).1 × IsStart (ls host [] none (some []) start).1
reports-Leaves_example =
    reports-Leaves host IsStart (λ src dest v w p. p) [] none (some []) start refl

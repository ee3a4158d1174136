-- ===== src/Ls.antt =====
-- src/cli/ls.rs: the choice of a sync and the two tables of the command `ls`. A table is the list
-- of its rows, a name and a state; the widths of the columns are left out. Directories are read
-- through a parameter.
pub mod Tables
pub mod Command
pub mod Reads
use bbkar.Common.{Bool, true, false, Option, none, some, List, [], ◌∷◌, ◌++◌, map, length, ltb}
use bbkar.Common.{if◌then◌else◌, is_some, head?, ◌==◌}
use bbkar.Common.Br.{Br, ok, err, panic, config, ◌>>=◌, ok_or}
use bbkar.Common.Sets.{set_of, set_union, set_contains}
use bbkar.Common.Text.{Text, text, text_eq, text_order}
use bbkar.Config.{BbkarConfigFile, find_entry}
use bbkar.Dest.{DestState}
use bbkar.Inspect.{Directory}
use bbkar.Planner.{archives_of}
use bbkar.Sync.{sync_names, no_sync}
use bbkar.Timestamp.{Timestamp, timestamp_order}

abbrev pub several_syncs : BbkarConfigFile → Text
several_syncs c =
    text "multiple syncs defined (" ++ (sync_names c ++ text "), use --name to select one")

-- With the name, or the only sync there is
unfoldable pub choose_sync : BbkarConfigFile → Option Text → Br Text
unfolding find_entry no_sync sync_names text
choose_sync c (some n) =
    if is_some (find_entry c.sync n) then ok n else err (config (no_sync n c ∷ []))
choose_sync c none =
    if ltb 1 (length c.sync)
    then err (config (several_syncs c ∷ []))
    else ok_or (head? (map (λ s. s.0) c.sync)) (config (text "no sync defined in config" ∷ []))

abbrev pub Row : Type 0
Row = Text × Text

abbrev pub row_name : Text → Text → Text
row_name volume raw = volume ++ b'.' ∷ raw

-- The `match` on the two memberships, whose last case is `unreachable!`
unfoldable pub snapshot_state : Bool → Bool → Br Text
unfolding text
snapshot_state true false = ok (text "local-only")
snapshot_state false true = ok (text "remote-only")
snapshot_state true true = ok (text "synced")
snapshot_state false false = panic

unfoldable pub snapshot_rows :
    Text → List Timestamp → List Timestamp → List Timestamp → Br (List Row)
unfolding snapshot_state set_contains
snapshot_rows volume near remote [] = ok []
snapshot_rows volume near remote (snapshot ∷ l) = do
  state ←
      snapshot_state (set_contains timestamp_order near snapshot)
        (set_contains timestamp_order remote snapshot)
  rows ← snapshot_rows volume near remote l
  ok ((row_name volume snapshot.raw, state) ∷ rows)

-- The timestamps in the metadata, as a set
abbrev pub archived_set : DestState → List Timestamp
archived_set dest_state = set_of timestamp_order (map (λ a. a.timestamp) (archives_of dest_state))

unfoldable pub snapshot_table : Text → DestState → List Timestamp → Br (List Row)
unfolding snapshot_rows set_union
snapshot_table volume dest_state local_snapshots =
    let near = set_of timestamp_order local_snapshots in
    let remote = archived_set dest_state in
    snapshot_rows volume near remote (set_union timestamp_order near remote)

unfoldable pub restore_state : Bool → Bool → Br Text
unfolding text
restore_state true false = ok (text "not-restored")
restore_state true true = ok (text "restored")
restore_state false true = ok (text "restored-only")
restore_state false false = panic

unfoldable pub restore_rows : Text → List Text → List Text → List Text → Br (List Row)
unfolding restore_state set_contains
restore_rows volume archived restored [] = ok []
restore_rows volume archived restored (raw ∷ l) = do
  state ←
      restore_state (set_contains text_order archived raw) (set_contains text_order restored raw)
  rows ← restore_rows volume archived restored l
  ok ((row_name volume raw, state) ∷ rows)

-- `starts_with` and the rest behind the prefix
unfoldable pub strip_prefix : Text → Text → Option Text
strip_prefix [] s = some s
strip_prefix (c ∷ p) [] = none
strip_prefix (c ∷ p) (d ∷ s) = let rest = strip_prefix p s in if c == d then rest else none

abbrev push_some : Option Text → List Text → List Text
push_some none l = l
push_some (some a) l = a ∷ l

-- The entries of the restore root that are the volume's; errors are passed over.
unfoldable pub restored_of : Text → List (Br Text) → List Text
unfolding strip_prefix
restored_of prefix [] = []
restored_of prefix (ok name ∷ entries) =
    push_some (strip_prefix prefix name) (restored_of prefix entries)
restored_of prefix (entry ∷ entries) = restored_of prefix entries

abbrev entries_or_none : Br (List (Br Text)) → List (Br Text)
entries_or_none (ok entries) = entries
entries_or_none r = []

unfoldable pub scan_root : Text → Directory → List Text
unfolding restored_of
scan_root volume root =
    if root.is_dir then restored_of (volume ++ b'.' ∷ []) (entries_or_none root.read_dir) else []

unfoldable pub restore_table : Text → DestState → Directory → Br (List Row)
unfolding restore_rows scan_root set_union
restore_table volume dest_state root =
    let archived = set_of text_order (map (λ t. t.raw) (archived_set dest_state)) in
    let restored = set_of text_order (scan_root volume root) in
    restore_rows volume archived restored (set_union text_order archived restored)

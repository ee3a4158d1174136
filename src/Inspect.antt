-- ===== src/Inspect.antt =====
-- src/service/executor/inspect_source.rs: the volumes of a source directory and their snapshots.
-- The file system is a parameter: whether the path is a directory, and the entries that `read_dir`
-- gives, each a name or an error. The counters of skipped entries, which are only logged, are left
-- out. The hash maps are lists of entries, here in the order of their insertion.
pub mod Groups
pub mod Volumes
use bbkar.Common.{Bool, true, false, Option, none, some, List, [], ◌∷◌, ◌++◌, if◌then◌else◌, any}
use bbkar.Common.Br.{Br, ok, err, invalid_source_path, ◌>>=◌}
use bbkar.Common.Text.{Text, text_eq, rsplit_once}
use bbkar.Config.{SourceSpec}
use bbkar.Source.{Series, SourceState}
use bbkar.Source
use bbkar.Timestamp.{Timestamp, parse}
use bbkar.Wildcard.{wildcard_match}

pub record Directory : Type 0 where
  pub is_dir : Bool
  pub read_dir : Br (List (Br Text))

abbrev pub Grouped : Type 0
Grouped = List (Text × List Timestamp)

-- `entry(basename).or_default().push(snapshot)`
unfoldable pub push_snapshot : Grouped → Text → Timestamp → Grouped
unfolding text_eq
push_snapshot [] basename snapshot = (basename, snapshot ∷ []) ∷ []
push_snapshot ((k, l) ∷ g) basename snapshot =
    let rest = push_snapshot g basename snapshot in
    if text_eq k basename then (k, l ++ snapshot ∷ []) ∷ g else (k, l) ∷ rest

-- The two parts of a name that the source tells apart: a name with no dot or with no timestamp
-- behind it is skipped.
abbrev pub with_snapshot : Text → Option Timestamp → Option (Text × Timestamp)
with_snapshot basename none = none
with_snapshot basename (some snapshot) = some (basename, snapshot)

abbrev pub of_split : Option (Text × Text) → Option (Text × Timestamp)
of_split none = none
of_split (some (basename, suffix)) = with_snapshot basename (parse suffix)

unfoldable pub split_name : Text → Option (Text × Timestamp)
unfolding rsplit_once parse
split_name name = of_split (rsplit_once b'.' name)

abbrev pub group_split : Grouped → Option (Text × Timestamp) → Grouped
group_split g none = g
group_split g (some (basename, snapshot)) = push_snapshot g basename snapshot

-- The loop over the entries, which ends with the first that is an error.
unfoldable pub group_entries : Grouped → List (Br Text) → Br Grouped
unfolding push_snapshot split_name
group_entries g [] = ok g
group_entries g (entry ∷ entries) = do
  name ← entry
  group_entries (group_split g (split_name name)) entries

abbrev pub matches : List Text → Text → Bool
matches filters volume = any (λ p. wildcard_match p volume) filters

-- The loop over the groups
unfoldable pub filter_groups : List Text → Grouped → List (Text × SourceState)
unfolding wildcard_match Source.new
filter_groups filters [] = []
filter_groups filters ((basename, snapshots) ∷ g) =
    let rest = filter_groups filters g in
    if matches filters basename
    then (basename, record { volume = Source.new basename snapshots }) ∷ rest
    else rest

unfoldable pub inspect_source : Directory → SourceSpec → Br (List (Text × SourceState))
unfolding group_entries filter_groups
inspect_source dir spec =
    if dir.is_dir
    then (do
      entries ← dir.read_dir
      grouped ← group_entries [] entries
      ok (filter_groups spec.filter grouped))
    else err (invalid_source_path spec.path)

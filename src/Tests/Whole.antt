-- ===== src/Tests/Whole.antt =====
-- The command `run` with a source directory of two volumes, one of which is archived in part.
use bbkar.Common.{ℕ, ◌≡◌, refl, true, none, some, List, [], ◌∷◌, All}
use bbkar.Common.{if◌then◌else◌}
use mathlib.Core.Option.{bind}
use bbkar.Common.Br.{Br, ok}
use bbkar.Common.Text.{Text, text_eq, compare_text}
use bbkar.Config.{find_entry, SourceSpec, local}
use bbkar.Inspect.{Directory, inspect_source, matches}
use bbkar.Inspect.Groups.{series_of, snapshots_of, find_entry-inspect_source}
use bbkar.Inspect.Volumes.{IsVolume, Distinct, inspect_source-IsVolume}
use bbkar.Run.{run}
use bbkar.Run.Whole.{OneSync}
use bbkar.Sync.{Host, States}
use bbkar.Timestamp.{compare_timestamp, split_seq}
use bbkar.Tests.Configuring.{with_path, slash, one_name, sync_spec}
use bbkar.Tests.Data.{day, snapshot}
use bbkar.Tests.Running.{World, counted, keeper, one_volume}

abbrev pub entry : ℕ → ℕ → Br Text
entry volume d = ok (volume ∷ b'.' ∷ day d)

abbrev pub entries : List (Br Text)
entries =
    entry b'v' b'2'
    ∷ ok (b'x' ∷ [])
    ∷ entry b'w' b'1'
    ∷ entry b'v' b'1'
    ∷ ok (b'v' ∷ b'.' ∷ [])
    ∷ []

abbrev pub directory : Directory
directory = record { is_dir = true; read_dir = ok entries }

abbrev pub spec : SourceSpec
spec = record { path = b'/' ∷ b's' ∷ []; filter = (b'*' ∷ []) ∷ [] }

abbrev pub volumes : States
volumes =
    (
      b'v' ∷ [],
      record {
        volume = record { orig_name = b'v' ∷ []; snapshots = snapshot b'1' ∷ snapshot b'2' ∷ [] };
      },
    )
    ∷ (
      b'w' ∷ [],
      record { volume = record { orig_name = b'w' ∷ []; snapshots = snapshot b'1' ∷ [] } },
    )
    ∷ []

pub listed : inspect_source directory spec ≡ ok volumes
unfolding inspect_source compare_timestamp split_seq compare_text
listed = refl

inspect_source-IsVolume_example : All (IsVolume spec.filter) volumes × Distinct volumes
inspect_source-IsVolume_example = inspect_source-IsVolume directory spec listed

find_entry-inspect_source_example : find_entry volumes (b'v' ∷ []) ≡ (
    if matches spec.filter (b'v' ∷ [])
    then series_of (b'v' ∷ []) (snapshots_of (b'v' ∷ []) entries)
    else none)
find_entry-inspect_source_example = find_entry-inspect_source directory spec (b'v' ∷ []) refl listed

abbrev pub host : Host World (Unit {0})
host = record {
  read_to_string = λ path w. ok path;
  from_str = λ content. ok (with_path (b'/' ∷ b's' ∷ []));
  directory = λ path w. directory;
  executor = λ src dest. keeper;
}

pub source_found : find_entry (with_path (b'/' ∷ b's' ∷ [])).source one_name ≡ some spec
unfolding find_entry
source_found = refl

pub dest_found :
    find_entry (with_path (b'/' ∷ b's' ∷ [])).dest one_name
    ≡ some (record { backend_spec = local slash })
unfolding find_entry
dest_found = refl

abbrev pub only : OneSync (with_path (b'/' ∷ b's' ∷ []))
only = record {
  sync_name = one_name;
  sync = sync_spec;
  src = spec;
  dest = record { backend_spec = local slash };
  one = refl;
  source_there = source_found;
  dest_there = dest_found;
}

ran : (run host [] none (one_volume, 9)).0 ≡ ok counted
unfolding run text_eq compare_text compare_timestamp split_seq bind
ran = refl

-- ===== src/Config.antt =====
-- src/model/config.rs: the configuration, its validation and its defaults. The TOML reader is a
-- parameter. Maps are lists of entries, in the order in which the program walks them.
pub mod Valid
use bbkar.Common.{
  ℕ, ◌+◌, ◌*◌, ◌/◌, ◌%◌, zero, suc, ◌==◌, leb, ltb, Bool, true, false, ◌&&◌, ◌||◌, not,
}
use bbkar.Common.{
  Option, none, some, List, [], ◌∷◌, ◌++◌, map, reverse, if◌then◌else◌, length, is_some,
}
use bbkar.Common.Br.{Br, BbkarError, ok, err, config, ◌>>=◌}
use bbkar.Common.Text.{Text, text, text_eq, is_empty}
use bbkar.Duration.{CalendarDuration, PreserveSchedule, parse_duration, parse_schedule}
use bbkar.Duration.{parse_weekday, trim}
use bbkar.Policy.{SyncSpec}

pub record GlobalConfig : Type 0 where
  pub compression : Text
  pub max_backup_chunk_size : ℕ
  pub btrfs_send_concurrency : ℕ
  pub write_archive_concurrency : ℕ

pub record SourceSpec : Type 0 where
  pub path : Text
  pub filter : List Text

pub record S3Spec : Type 0 where
  pub bucket : Text
  pub path : Text
  pub region : Option Text
  pub endpoint : Option Text
  pub access_key_id : Option Text
  pub secret_access_key : Option Text
  pub session_token : Option Text
  pub disable_config_load : Bool

pub record GcsSpec : Type 0 where
  pub bucket : Text
  pub path : Text
  pub endpoint : Option Text
  pub credential_path : Option Text

pub data BackendSpec : Type 0 where
  local : Text → BackendSpec
  s3 : S3Spec → BackendSpec
  gcs : GcsSpec → BackendSpec

pub record DestSpec : Type 0 where
  pub backend_spec : BackendSpec

pub record BbkarConfigFile : Type 0 where
  pub global : GlobalConfig
  pub source : List (Text × SourceSpec)
  pub dest : List (Text × DestSpec)
  pub sync : List (Text × SyncSpec)

-- `HashMap::get` on a configuration map
unfoldable pub find_entry {ℓ} : {A : Type ℓ} → List (Text × A) → Text → Option A
unfolding text_eq
find_entry [] k = none
find_entry ((j, a) ∷ l) k = if text_eq j k then some a else find_entry l k

-- Decimal digits, for the messages
unfoldable pub digits : ℕ → ℕ → Text → Text
digits zero n acc = acc
digits (suc fuel) n acc =
    let more = digits fuel (n / 10) ((b'0' + n % 10) ∷ acc) in
    if ltb n 10 then (b'0' + n) ∷ acc else more

unfoldable pub display : ℕ → Text
unfolding digits
display n = digits (suc n) n []

-- One message if the test fails
unfoldable pub check : Bool → Text → List Text
check good message = if good then [] else message ∷ []

unfoldable pub quoted : Text → Text
quoted s = b'"' ∷ (s ++ b'"' ∷ [])

unfoldable pub global_errors : GlobalConfig → List Text
unfolding text text_eq quoted display check
global_errors g =
    check (text_eq g.compression (text "zstd"))
      (text "global.compression must be \"zstd\", got " ++ quoted g.compression)
    ++ (check (not (ltb g.max_backup_chunk_size 1 || ltb 2048 g.max_backup_chunk_size)) (
          text "global.max_backup_chunk_size must be in range 1..=2048, got "
          ++ display g.max_backup_chunk_size)
        ++ (check (g.btrfs_send_concurrency == 1) (
              text "global.btrfs_send_concurrency must be 1, got "
              ++ display g.btrfs_send_concurrency)
            ++ check (g.write_archive_concurrency == 1) (
                text "global.write_archive_concurrency must be 1, got "
                ++ display g.write_archive_concurrency)))

unfoldable pub count_errors : BbkarConfigFile → List Text
unfolding text display check
count_errors c =
    check (leb (length c.source) 1)
      (text "at most 1 source is supported, got " ++ display (length c.source))
    ++ (check (leb (length c.dest) 1)
          (text "at most 1 dest is supported, got " ++ display (length c.dest))
        ++ check (leb (length c.sync) 1)
            (text "at most 1 sync is supported, got " ++ display (length c.sync)))

abbrev pub starts_with_slash : Text → Bool
starts_with_slash [] = false
starts_with_slash (c ∷ s) = c == b'/'

unfoldable pub bucket_errors : Text → Text → List Text
unfolding check text trim is_empty
bucket_errors name bucket =
    check (not (is_empty (trim bucket)))
      (text "dest." ++ (name ++ text ".bucket must not be empty"))

unfoldable pub dest_errors : Text → DestSpec → List Text
unfolding text quoted check bucket_errors
dest_errors name dest = elim dest.backend_spec [
  | local path ↦ check (starts_with_slash path) (
      text "dest."
      ++ (name ++ (text ".path must be absolute for local backend, got " ++ quoted path)))
  | s3 spec ↦ bucket_errors name spec.bucket
  | gcs spec ↦ bucket_errors name spec.bucket
]

unfoldable pub all_dest_errors : List (Text × DestSpec) → List Text
unfolding dest_errors
all_dest_errors [] = []
all_dest_errors ((name, dest) ∷ l) = dest_errors name dest ++ all_dest_errors l

-- `is_none` on a duration that is not `all`
abbrev pub min_is_valid : Text → Br Bool
min_is_valid s =
    if text_eq s (text "all") then ok true else parse_duration s >>= λ d. ok (is_some d)

abbrev pub schedule_is_valid : Option Text → Br Bool
schedule_is_valid none = ok true
schedule_is_valid (some s) = parse_schedule s >>= λ p. ok (is_some p)

abbrev pub depth_is_valid : Option ℕ → Bool
depth_is_valid none = true
depth_is_valid (some depth) = not (ltb depth 1)

abbrev pub shown_depth : Option ℕ → Text
shown_depth none = []
shown_depth (some depth) = display depth

abbrev pub shown_schedule : Option Text → Text
shown_schedule none = []
shown_schedule (some s) = quoted s

-- `sync.NAME` and a message
abbrev pub about_sync : Text → Text → Text
about_sync name message = text "sync." ++ (name ++ message)

unfoldable pub sync_errors : BbkarConfigFile → Text → SyncSpec → Br (List Text)
unfolding text find_entry parse_duration parse_schedule parse_weekday text_eq display quoted check
sync_errors c name sync = do
  interval ← parse_duration sync.min_full_send_interval
  min_valid ← min_is_valid sync.archive_preserve_min
  schedule_valid ← schedule_is_valid sync.archive_preserve
  ok (
      check (is_some (find_entry c.source sync.source))
        (about_sync name (text ".source refers to unknown source " ++ quoted sync.source))
      ++ (check (is_some (find_entry c.dest sync.dest))
            (about_sync name (text ".dest refers to unknown dest " ++ quoted sync.dest))
          ++ (check (is_some interval) (
                about_sync name (
                  text ".min_full_send_interval: invalid duration "
                  ++ quoted sync.min_full_send_interval))
              ++ (check (depth_is_valid sync.max_incremental_depth) (
                    about_sync name (
                      text ".max_incremental_depth must be >= 1, got "
                      ++ shown_depth sync.max_incremental_depth))
                  ++ (check min_valid (
                        about_sync name (
                          text ".archive_preserve_min: must be \"all\" or valid duration, got "
                          ++ quoted sync.archive_preserve_min))
                      ++ (check schedule_valid (
                            about_sync name (
                              text ".archive_preserve: invalid schedule "
                              ++ shown_schedule sync.archive_preserve))
                          ++ check (is_some (parse_weekday sync.preserve_day_of_week)) (
                              about_sync name (
                                text ".preserve_day_of_week: invalid weekday "
                                ++ quoted sync.preserve_day_of_week))))))))

unfoldable pub all_sync_errors : BbkarConfigFile → List (Text × SyncSpec) → Br (List Text)
unfolding sync_errors
all_sync_errors c [] = ok []
all_sync_errors c ((name, sync) ∷ l) = do
  errors ← sync_errors c name sync
  others ← all_sync_errors c l
  ok (errors ++ others)

-- The loop that pops slashes, on the reversed path; one character stays.
unfoldable pub pop_slashes : Text → Text
pop_slashes [] = []
pop_slashes (c ∷ s) =
    let rest = pop_slashes s in
    elim s [ [] ↦ c ∷ [] | ◌∷◌ d t ↦ if c == b'/' then rest else c ∷ d ∷ t ]

unfoldable pub normalize_path : Text → Text
unfolding pop_slashes
normalize_path path = reverse (pop_slashes (reverse path))

abbrev pub normalize_source : Text × SourceSpec → Text × SourceSpec
normalize_source (name, spec) = (name, record spec { path = normalize_path spec.path })

abbrev pub normalize : BbkarConfigFile → BbkarConfigFile
normalize c = record c { source = map normalize_source c.source }

abbrev pub accept : List Text → BbkarConfigFile → Br BbkarConfigFile
accept [] c = ok (normalize c)
accept (e ∷ errors) c = err (config (e ∷ errors))

-- `from_toml` after the TOML reader
unfoldable pub from_config : BbkarConfigFile → Br BbkarConfigFile
unfolding global_errors count_errors all_dest_errors all_sync_errors normalize_path
from_config c = do
  of_syncs ← all_sync_errors c c.sync
  accept (global_errors c.global ++ (count_errors c ++ (all_dest_errors c.dest ++ of_syncs))) c

-- `from_toml`, over a reader
unfoldable pub from_toml : (Text → Br BbkarConfigFile) → Text → Br BbkarConfigFile
unfolding from_config
from_toml from_str content = from_str content >>= from_config

-- `SourceSpec::build_path`
unfoldable pub build_path : SourceSpec → Text → Text
build_path spec rest = spec.path ++ b'/' ∷ rest

unfoldable pub trim_start_slashes : Text → Text
trim_start_slashes [] = []
trim_start_slashes (c ∷ s) = let rest = trim_start_slashes s in if c == b'/' then rest else c ∷ s

abbrev pub trim_end_slashes : Text → Text
trim_end_slashes s = reverse (trim_start_slashes (reverse s))

unfoldable pub root_path : DestSpec → Text
root_path d = elim d.backend_spec [ local path ↦ path | s3 spec ↦ spec.path | gcs spec ↦ spec.path ]

abbrev pub object_location : Text → Text → Text → Text
object_location scheme bucket [] = scheme ++ bucket
object_location scheme bucket (c ∷ path) =
    scheme ++ (bucket ++ b'/' ∷ trim_end_slashes (trim_start_slashes (c ∷ path)))

unfoldable pub display_location : DestSpec → Text
unfolding text trim_start_slashes
display_location d = elim d.backend_spec [
  | local path ↦ trim_end_slashes path
  | s3 spec ↦ object_location (text "s3://") spec.bucket spec.path
  | gcs spec ↦ object_location (text "gcs://") spec.bucket spec.path
]

-- The defaults
unfoldable pub default_global : GlobalConfig
unfolding text
default_global = record {
  compression = text "zstd";
  max_backup_chunk_size = 32;
  btrfs_send_concurrency = 1;
  write_archive_concurrency = 1;
}

unfoldable pub default_sync : Text → Text → SyncSpec
unfolding text
default_sync source dest = record {
  source = source;
  dest = dest;
  filter = text "*" ∷ [];
  min_full_send_interval = text "1w";
  max_incremental_depth = none;
  archive_preserve_min = text "all";
  archive_preserve = none;
  preserve_day_of_week = text "sunday";
}

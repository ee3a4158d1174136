-- ===== src/Policy.antt =====
-- src/model/policy.rs: the sending policy and the retention policy of a sync.
use bbkar.Common.{ℕ, Option, none, some, List, if◌then◌else◌}
use bbkar.Common.Br.{Br, ok, ◌>>=◌, unwrap}
use bbkar.Common.Text.{Text, text, text_eq}
use bbkar.Duration.{CalendarDuration, PreserveSchedule, Weekday, sunday, parse_duration}
use bbkar.Duration.{parse_schedule, parse_weekday}

pub record SendPolicy : Type 0 where
  pub min_full_send_interval : CalendarDuration
  pub max_incremental_depth : Option ℕ

-- No minimum stands for `all`.
pub record RetentionPolicy : Type 0 where
  pub archive_preserve_min : Option CalendarDuration
  pub archive_preserve : Option PreserveSchedule
  pub preserve_day_of_week : Weekday

pub record ResolvedSyncPolicy : Type 0 where
  pub send : SendPolicy
  pub retention : RetentionPolicy

-- `SyncSpec` of src/model/config.rs
pub record SyncSpec : Type 0 where
  pub source : Text
  pub dest : Text
  pub filter : List Text
  pub min_full_send_interval : Text
  pub max_incremental_depth : Option ℕ
  pub archive_preserve_min : Text
  pub archive_preserve : Option Text
  pub preserve_day_of_week : Text

-- `as_ref().and_then(..)`
abbrev pub preserve_of : Option Text → Br (Option PreserveSchedule)
preserve_of none = ok none
preserve_of (some s) = parse_schedule s

abbrev pub preserve_min_of : Text → Br (Option CalendarDuration)
preserve_min_of s = if text_eq s (text "all") then ok none else parse_duration s

abbrev pub day_or_sunday : Option Weekday → Weekday
day_or_sunday none = sunday
day_or_sunday (some d) = d

-- `ResolvedSyncPolicy::from_sync_spec`
unfoldable pub from_sync_spec : SyncSpec → Br ResolvedSyncPolicy
unfolding parse_duration parse_schedule parse_weekday text text_eq
from_sync_spec spec = do
  archive_preserve ← preserve_of spec.archive_preserve
  interval ← parse_duration spec.min_full_send_interval
  min_full_send_interval ← unwrap interval
  archive_preserve_min ← preserve_min_of spec.archive_preserve_min
  ok (record {
    send = record {
      min_full_send_interval = min_full_send_interval;
      max_incremental_depth = spec.max_incremental_depth;
    };
    retention = record {
      archive_preserve_min = archive_preserve_min;
      archive_preserve = archive_preserve;
      preserve_day_of_week = day_or_sunday (parse_weekday spec.preserve_day_of_week);
    };
  })

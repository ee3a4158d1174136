-- ===== src/Source.antt =====
-- src/model/source.rs: `Series`, the snapshots of one volume, oldest first; and `SourceState` of
-- src/service/executor/inspect_source.rs.
use bbkar.Common.{List, head?, get_last?}
use bbkar.Common.Br.{Br, unwrap}
use bbkar.Common.Sort.{sort, IsSorted, sort-IsSorted}
use bbkar.Common.Text.{Text}
use bbkar.Timestamp.{Timestamp, timestamp_order}

pub record Series : Type 0 where
  pub orig_name : Text
  pub snapshots : List Timestamp

unfoldable pub new : Text → List Timestamp → Series
unfolding sort
new orig_name snapshots = record {
  orig_name = orig_name;
  snapshots = sort timestamp_order (λ t. t) snapshots;
}

-- Both panic on an empty series, which no caller builds.
unfoldable pub oldest_snapshot : Series → Br Timestamp
oldest_snapshot s = unwrap (head? s.snapshots)

unfoldable pub newest_snapshot : Series → Br Timestamp
newest_snapshot s = unwrap (get_last? s.snapshots)

pub record SourceState : Type 0 where
  pub volume : Series

abbrev pub IsOldestFirst : List Timestamp → Type 0
IsOldestFirst = IsSorted timestamp_order (λ t. t)

pub new-IsOldestFirst : (name : Text) (l : List Timestamp) → IsOldestFirst (new name l).snapshots
unfolding new
new-IsOldestFirst name l = sort-IsSorted timestamp_order (λ t. t) l

-- ===== src/Planner.antt =====
-- src/service/planner/mod.rs: which snapshots to send, full or incremental. Hash sets and maps are
-- lists of names and of entries, the newest first; `compute_depth` runs on fuel.
pub mod Depth
pub mod Candidate
pub mod Spec
pub mod Step
pub mod Refine
pub mod Total
pub mod Effects
pub mod Limit
pub mod Result
use mathlib.Core.Option
use bbkar.Common.{
  ℕ, zero, suc, ◌+◌, ◌%◌, ◌^◌, Bool, true, false, not, ◌&&◌, ◌||◌, Option, none, some,
}
use bbkar.Common.{List, [], ◌∷◌, ◌++◌, map, reverse, filter, find?, length, ltb, leb, if◌then◌else◌}
use bbkar.Common.Br.{Br, ok, out_of_fuel, ◌>>=◌, unwrap}
use bbkar.Common.Int.{ℤ, pos, ◌+ℤ◌, ◌-ℤ◌, ◌*ℤ◌, leb_ℤ}
use bbkar.Common.Order.{is_lt}
use bbkar.Common.Text.{Text, text_eq, len, split_at, parse_i64}
use bbkar.Dest.{VolumeArchive, DestState, is_incremental}
use bbkar.Dest.Lookup.{named}
use bbkar.Plan.{RunStep, send_full, send_incremental, RunPlan}
use bbkar.Policy.{SendPolicy}
use bbkar.Source.{SourceState}
use bbkar.Timestamp.{Timestamp, compare_timestamp}

-- `HashSet::contains` and `HashMap::get`; an entry is inserted in front and hides older ones.
unfoldable pub contains : List Text → Text → Bool
contains [] r = false
contains (s ∷ l) r = text_eq s r || contains l r

abbrev pub DepthCache : Type 0
DepthCache = List (Text × ℕ)

unfoldable pub cache_get : DepthCache → Text → Option ℕ
cache_get [] r = none
cache_get ((s, d) ∷ l) r = if text_eq s r then some d else cache_get l r

-- `archives.iter().map(..).collect()` into a map: of two archives of a name the later one stays.
unfoldable pub archive_map : List VolumeArchive → Text → Option VolumeArchive
archive_map [] r = none
archive_map (a ∷ l) r = elim (archive_map l r) [
  | some b ↦ some b
  | none ↦ if named r a then some a else none
]

-- `u32` addition, which wraps in a release build
abbrev pub add_u32 : ℕ → ℕ → ℕ
add_u32 a b = (a + b) % 2 ^ 32

abbrev parent_name : Option VolumeArchive → Option Text
parent_name none = none
parent_name (some a) = a.parent_timestamp

-- The `match` of `compute_depth`; `below` is the recursive call.
depth_above :
    Option Text → (Text → DepthCache → Br (ℕ × DepthCache)) → DepthCache → Br (ℕ × DepthCache)
depth_above none below cache = ok (0, cache)
depth_above (some parent) below cache = do
  (d, cache') ← below parent cache
  ok (add_u32 d 1, cache')

pub compute_depth : ℕ → List VolumeArchive → Text → DepthCache → Br (ℕ × DepthCache)
unfolding depth_above
compute_depth zero archives name cache = out_of_fuel
compute_depth (suc fuel) archives name cache = elim (cache_get cache name) [
  | some d ↦ ok (d, cache)
  | none ↦ do
    (d, cache') ←
        depth_above (parent_name (archive_map archives name)) (compute_depth fuel archives) cache
    ok (d, (name, d) ∷ cache')
]

-- The loop that fills the cache.
pub cache_depths : ℕ → List VolumeArchive → List VolumeArchive → DepthCache → Br DepthCache
unfolding compute_depth
cache_depths fuel archives [] cache = ok cache
cache_depths fuel archives (a ∷ rest) cache = do
  (_, cache') ← compute_depth fuel archives a.timestamp.raw cache
  cache_depths fuel archives rest cache'

-- A slice of the next `n` bytes and what follows it.
pub slice : ℕ → Text → Br (Text × Text)
slice n s = unwrap (split_at n s)

abbrev days_of : ℤ → ℤ → ℤ → Option ℤ
days_of year month day = some (year *ℤ pos 365 +ℤ month *ℤ pos 30 +ℤ day)

-- The two `?` after the year; the last slice ends where the eight bytes end.
abbrev pub with_year : Option ℤ → Text → Br (Option ℤ)
with_year none rest = ok none
with_year (some year) rest = do
  (month_str, day_str) ← slice 2 rest
  ok (
      Option.bind (parse_i64 month_str)
        λ month. Option.bind (parse_i64 day_str) λ day. days_of year month day)

unfoldable pub parse_date_to_days : Text → Br (Option ℤ)
unfolding slice len split_at parse_i64 ◌*ℤ◌ ◌+ℤ◌
parse_date_to_days timestamp = if ltb (len timestamp) 8 then ok none else do
  (date_str, _) ← slice 8 timestamp
  (year_str, rest) ← slice 4 date_str
  with_year (parse_i64 year_str) rest

-- The last test of `check_interval_exceeded`, when both dates parse.
abbrev is_interval_over : Option ℤ → Option ℤ → ℕ → Bool
is_interval_over none current days = true
is_interval_over (some last) none days = true
is_interval_over (some last) (some current) days = leb_ℤ (pos days) (current -ℤ last)

-- The current date is read only if the last one parses.
abbrev pub interval_from : Option ℤ → Timestamp → ℕ → Br Bool
interval_from none current days = ok true
interval_from (some last) current days = do
  now ← parse_date_to_days current.timestamp
  ok (is_interval_over (some last) now days)

unfoldable pub check_interval_exceeded : Option Timestamp → Timestamp → ℕ → Br Bool
unfolding ◌-ℤ◌
check_interval_exceeded none current days = ok true
check_interval_exceeded (some last) current days = do
  start ← parse_date_to_days last.timestamp
  interval_from start current days

-- The newest snapshot older than `snap` that the source and the destination both have.
unfoldable pub find_parent_candidate :
    Timestamp → List Text → List Text → List Timestamp → Option Timestamp
unfolding contains
find_parent_candidate snap dest_set src_names snapshots =
    find? (λ s. contains dest_set s.raw && contains src_names s.raw)
      (filter (λ s. is_lt (compare_timestamp s snap)) (reverse snapshots))

-- The local variables of `build_plan` that its loop changes.
pub record PlanState : Type 0 where
  pub dest_set : List Text
  pub depth_cache : DepthCache
  pub last_full : Option Timestamp
  pub steps : List RunStep

abbrev get_or_zero : Option ℕ → ℕ
get_or_zero none = 0
get_or_zero (some d) = d

abbrev pub depth_of : DepthCache → Timestamp → ℕ
depth_of cache t = get_or_zero (cache_get cache t.raw)

abbrev pub would_exceed_depth : Option ℕ → ℕ → Bool
would_exceed_depth none parent_depth = false
would_exceed_depth (some limit) parent_depth = leb limit (add_u32 parent_depth 1)

-- The `match parent` that decides between a full and an incremental send.
unfoldable pub needs_full : SendPolicy → PlanState → Timestamp → Option Timestamp → Br Bool
needs_full policy st snap none = ok true
needs_full policy st snap (some parent) = do
  exceeded ← check_interval_exceeded st.last_full snap policy.min_full_send_interval.days
  ok (would_exceed_depth policy.max_incremental_depth (depth_of st.depth_cache parent) || exceeded)

abbrev push_full : PlanState → Timestamp → PlanState
push_full st snap = record {
  dest_set = snap.raw ∷ st.dest_set;
  depth_cache = (snap.raw, 0) ∷ st.depth_cache;
  last_full = some snap;
  steps = st.steps ++ send_full snap ∷ [];
}

abbrev push_incremental : PlanState → Timestamp → Timestamp → PlanState
push_incremental st snap parent = record {
  dest_set = snap.raw ∷ st.dest_set;
  depth_cache = (snap.raw, add_u32 (depth_of st.depth_cache parent) 1) ∷ st.depth_cache;
  last_full = st.last_full;
  steps = st.steps ++ send_incremental snap parent ∷ [];
}

-- `parent.unwrap()` stands in the second branch only.
abbrev pub push_step : PlanState → Timestamp → Option Timestamp → Bool → Br PlanState
push_step st snap parent true = ok (push_full st snap)
push_step st snap parent false = do p ← unwrap parent; ok (push_incremental st snap p)

-- The body of the loop over the snapshots.
unfoldable pub plan_snapshot :
    SendPolicy → List Timestamp → List Text → PlanState → Timestamp → Br PlanState
unfolding contains cache_get
plan_snapshot policy snapshots src_names st snap =
    if contains st.dest_set snap.raw
    then ok st
    else (let parent = find_parent_candidate snap st.dest_set src_names snapshots in
        do full ← needs_full policy st snap parent; push_step st snap parent full)

unfoldable pub plan_snapshots :
    SendPolicy → List Timestamp → List Text → List Timestamp → PlanState → Br PlanState
plan_snapshots policy snapshots src_names [] st = ok st
plan_snapshots policy snapshots src_names (snap ∷ rest) st = do
  st' ← plan_snapshot policy snapshots src_names st snap
  plan_snapshots policy snapshots src_names rest st'

abbrev pub archives_of : DestState → List VolumeArchive
archives_of dest = elim dest.meta [ none ↦ [] | some m ↦ m.archives ]

abbrev names : List Timestamp → List Text
names = map (λ s. s.raw)

-- The newest full archive.
unfoldable pub last_full_of : List VolumeArchive → Option Timestamp
unfolding is_incremental
last_full_of archives =
    Option.map (λ a. a.timestamp) (find? (λ a. not (is_incremental a)) (reverse archives))

unfoldable pub start_plan : List VolumeArchive → Br PlanState
unfolding cache_depths archive_map cache_get
start_plan archives = do
  cache ← cache_depths (suc (length archives)) archives archives []
  ok (record {
    dest_set = map (λ a. a.timestamp.raw) archives;
    depth_cache = cache;
    last_full = last_full_of archives;
    steps = [];
  })

-- The volume and the destination's place are logged only.
unfoldable pub build_plan : SourceState → DestState → SendPolicy → Br RunPlan
unfolding start_plan last_full_of plan_snapshots plan_snapshot find_parent_candidate needs_full
    check_interval_exceeded parse_date_to_days
build_plan src dest policy = do
  let snapshots = src.volume.snapshots
  st ← start_plan (archives_of dest)
  st' ← plan_snapshots policy snapshots (names snapshots) snapshots st
  ok (record { steps = st'.steps })

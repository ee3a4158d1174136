-- ===== src/Config/Valid.antt =====
-- What a configuration that passes the validation of `from_toml` is like.
use bbkar.Common.{
  ◌≤◌, ◌≡◌, refl, ap, ◌∙◌, subst, arith, Bool, true, false, not, ◌||◌, ltb, Option, none,
}
use bbkar.Common.{
  some, List, [], ◌∷◌, ◌++◌, map, All, All-imp, is_some, some_of, Bool-cases, inl, inr,
}
use bbkar.Common.Br.{ok, bind-eq-ok, ok_injective}
use bbkar.Common.Text.{Text, text, text_eq}
use bbkar.Config.{BbkarConfigFile, GlobalConfig, SourceSpec, find_entry, check, from_config, accept}
use bbkar.Config.{
  normalize, normalize_source, sync_errors, all_sync_errors, global_errors, count_errors,
}
use bbkar.Config.{all_dest_errors, min_is_valid, schedule_is_valid, depth_is_valid}
use bbkar.Duration.{
  CalendarDuration, PreserveSchedule, parse_duration, parse_schedule, parse_weekday,
}
use bbkar.Policy.{
  SyncSpec, ResolvedSyncPolicy, from_sync_spec, preserve_of, preserve_min_of, day_or_sunday,
}

empty-append : {A : Type 0} (xs ys : List A) → xs ++ ys ≡ [] → (xs ≡ []) × (ys ≡ [])
empty-append [] ys h = (refl, h)
empty-append (x ∷ xs) ys h = ground arith

check-true : (good : Bool) (message : Text) → check good message ≡ [] → good ≡ true
unfolding check
check-true true message h = refl
check-true false message h = ground arith

-- The first of several checks
first_check :
    (good : Bool) (message : Text) (others : List Text)
    → check good message ++ others ≡ []
    → (good ≡ true) × (others ≡ [])
first_check good message others h =
    let (e, rest) = empty-append (check good message) others h in (check-true good message e, rest)

-- The sync refers to a source and a destination of the configuration, and its policy resolves,
-- with a depth limit that is not zero.
pub record IsValidSync (c : BbkarConfigFile) (sync : SyncSpec) : Type 0 where
  pub source_there : is_some (find_entry c.source sync.source) ≡ true
  pub dest_there : is_some (find_entry c.dest sync.dest) ≡ true
  pub resolves : (policy : ResolvedSyncPolicy) × (from_sync_spec sync ≡ ok policy)
  pub depth : depth_is_valid sync.max_incremental_depth ≡ true

min-resolves : (s : Text) {b : Bool} → min_is_valid s ≡ ok b → (d : _) × (preserve_min_of s ≡ ok d)
min-resolves s h = elim (Bool-cases (text_eq s (text "all"))) [
  | inl whole ↦ (none, rw whole refl)
  | inr other ↦
      let (d, e, k) = bind-eq-ok (parse_duration s) _ (rw other at h) in (d, rw (other, e) refl)
]

schedule-resolves :
    (s : Option Text) {b : Bool} → schedule_is_valid s ≡ ok b → (p : _) × (preserve_of s ≡ ok p)
schedule-resolves none h = (none, refl)
schedule-resolves (some s) h = let (p, e, k) = bind-eq-ok (parse_schedule s) _ h in (p, e)

resolve_sync :
    (sync : SyncSpec) (d : CalendarDuration) (min : Option CalendarDuration)
    (p : Option PreserveSchedule)
    → parse_duration sync.min_full_send_interval ≡ ok (some d)
    → preserve_min_of sync.archive_preserve_min ≡ ok min
    → preserve_of sync.archive_preserve ≡ ok p
    → (policy : ResolvedSyncPolicy) × (from_sync_spec sync ≡ ok policy)
unfolding from_sync_spec
resolve_sync sync d min p e f g = (
  record {
    send = record {
      min_full_send_interval = d;
      max_incremental_depth = sync.max_incremental_depth;
    };
    retention = record {
      archive_preserve_min = min;
      archive_preserve = p;
      preserve_day_of_week = day_or_sunday (parse_weekday sync.preserve_day_of_week);
    };
  },
  ground (arith, e, f, g),
)

sync_errors-IsValidSync :
    (c : BbkarConfigFile) (name : Text) (sync : SyncSpec)
    → sync_errors c name sync ≡ ok []
    → IsValidSync c sync
unfolding sync_errors
sync_errors-IsValidSync c name sync h =
    let (interval, e₁, h₁) = bind-eq-ok (parse_duration sync.min_full_send_interval) _ h in
    let (min, e₂, h₂) = bind-eq-ok (min_is_valid sync.archive_preserve_min) _ h₁ in
    let (schedule, e₃, h₃) = bind-eq-ok (schedule_is_valid sync.archive_preserve) _ h₂ in
    let no_errors = ok_injective h₃ in
    let (source, r₁) = first_check _ _ _ no_errors in
    let (dest, r₂) = first_check _ _ _ r₁ in
    let (parsed, r₃) = first_check _ _ _ r₂ in
    let (depth, r₄) = first_check _ _ _ r₃ in
    let (d, some_d) = some_of interval parsed in
    let (min_d, min_ok) = min-resolves sync.archive_preserve_min e₂ in
    let (p, schedule_ok) = schedule-resolves sync.archive_preserve e₃ in
    record {
      source_there = source;
      dest_there = dest;
      resolves = resolve_sync sync d min_d p (e₁ ∙ ap ok some_d) min_ok schedule_ok;
      depth = depth;
    }

all_sync_errors-IsValidSync :
    (c : BbkarConfigFile) (l : List (Text × SyncSpec))
    → all_sync_errors c l ≡ ok []
    → All (λ s. IsValidSync c s.1) l
unfolding all_sync_errors
all_sync_errors-IsValidSync c [] h = tt
all_sync_errors-IsValidSync c ((name, sync) ∷ l) h =
    let (errors, e, h₁) = bind-eq-ok (sync_errors c name sync) _ h in
    let (others, f, h₂) = bind-eq-ok (all_sync_errors c l) _ h₁ in
    let (none_here, none_there) = empty-append errors others (ok_injective h₂) in
    (
      sync_errors-IsValidSync c name sync (e ∙ ap ok none_here),
      all_sync_errors-IsValidSync c l (f ∙ ap ok none_there),
    )

find_entry-normalize :
    (l : List (Text × SourceSpec)) (k : Text)
    → is_some (find_entry (map normalize_source l) k) ≡ is_some (find_entry l k)
unfolding find_entry
find_entry-normalize [] k = refl
find_entry-normalize ((j, spec) ∷ l) k = ground (arith, find_entry-normalize l k)

global_errors-bounds :
    (g : GlobalConfig)
    → global_errors g ≡ []
    → (1 ≤ g.max_backup_chunk_size) × (g.max_backup_chunk_size ≤ 2048)
unfolding global_errors
global_errors-bounds g h =
    let (zstd, r₁) = first_check (text_eq g.compression (text "zstd")) _ _ h in
    let (size, r₂) =
      first_check (not (ltb g.max_backup_chunk_size 1 || ltb 2048 g.max_backup_chunk_size)) _ _
        r₁ in
    (ground arith, ground arith)

accept-eq :
    (errors : List Text) (c : BbkarConfigFile) {c' : BbkarConfigFile}
    → accept errors c ≡ ok c'
    → (errors ≡ []) × (normalize c ≡ c')
accept-eq [] c h = (refl, ok_injective h)
accept-eq (e ∷ errors) c h = ground arith

-- A configuration that passes the validation refers in every sync to a source and a destination
-- that it has, every sync's policy resolves without a panic and with a depth limit that is not
-- zero, and the chunk size is from 1 to 2048 MiB.
pub from_config-IsValidSync :
    (c : BbkarConfigFile) {c' : BbkarConfigFile}
    → from_config c ≡ ok c'
    → All (λ s. IsValidSync c' s.1) c'.sync
      × (1 ≤ c'.global.max_backup_chunk_size)
      × (c'.global.max_backup_chunk_size ≤ 2048)
unfolding from_config
from_config-IsValidSync c {c'} h =
    let (of_syncs, e, h₁) = bind-eq-ok (all_sync_errors c c.sync) _ h in
    let (no_errors, same) = accept-eq _ c h₁ in
    let (no_global, r₁) = empty-append (global_errors c.global) _ no_errors in
    let (no_count, r₂) = empty-append (count_errors c) _ r₁ in
    let (no_dest, no_sync) = empty-append (all_dest_errors c.dest) of_syncs r₂ in
    let bounds = global_errors-bounds c.global no_global in
    let valid : All (λ s. IsValidSync (normalize c) s.1) c.sync =
      All-imp
        (λ s v. record {
          source_there = find_entry-normalize c.source s.1.source ∙ v.source_there;
          dest_there = v.dest_there;
          resolves = v.resolves;
          depth = v.depth;
        })
        c.sync (all_sync_errors-IsValidSync c c.sync (e ∙ ap ok no_sync)) in
    subst
      (λ (z : BbkarConfigFile).
        All (λ s. IsValidSync z s.1) z.sync
        × (1 ≤ z.global.max_backup_chunk_size)
        × (z.global.max_backup_chunk_size ≤ 2048))
      same (valid, bounds.0, bounds.1)

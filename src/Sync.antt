-- ===== src/Sync.antt =====
-- src/cli/mod.rs: the walk over the syncs of a configuration and the volumes of their sources, with
-- the callbacks of a command, which share the cells of the state `C`. What is printed and logged is
-- left out; a file system that reads files and lists directories is a parameter.
pub mod Walk
use bbkar.Common.{Bool, true, Option, none, some, List, [], ◌∷◌, ◌++◌, map, is_some}
use bbkar.Common.{if◌then◌else◌}
use bbkar.Common.Br.{Br, ok, err, config, unwrap}
use bbkar.Common.Io.{Io, ◌>>=◌, done, lift}
use bbkar.Common.Text.{Text, text, text_eq}
use bbkar.Config.{BbkarConfigFile, GlobalConfig, SourceSpec, DestSpec, find_entry, from_toml}
use bbkar.Executor.{Executor}
use bbkar.Inspect.{Directory, inspect_source, matches}
use bbkar.Policy.{SendPolicy, SyncSpec, ResolvedSyncPolicy, from_sync_spec}
use bbkar.Source.{SourceState}

pub record VolumeContext : Type 0 where
  pub sync_name : Text
  pub global : GlobalConfig
  pub src_spec : SourceSpec
  pub dest_spec : DestSpec
  pub volume : Text
  pub src_state : SourceState
  pub send_policy : SendPolicy

abbrev pub volume_context :
    Text → GlobalConfig → SourceSpec → DestSpec → SendPolicy → Text → SourceState → VolumeContext
volume_context sync_name global src_spec dest_spec send_policy volume src_state = record {
  sync_name = sync_name;
  global = global;
  src_spec = src_spec;
  dest_spec = dest_spec;
  volume = volume;
  src_state = src_state;
  send_policy = send_policy;
}

-- The machine: its files, the TOML reader, and an executor for each source and destination
pub record Host (W Stream : Type 0) : Type 0 where
  pub read_to_string : Text → W → Br Text
  pub from_str : Text → Br BbkarConfigFile
  pub directory : Text → W → Directory
  pub executor : SourceSpec → DestSpec → Executor W Stream

-- The three closures that a command passes
pub record Callbacks (W C : Type 0) : Type 0 where
  pub on_sync_start : C → Text → SourceSpec → DestSpec → SendPolicy → Io W C
  pub on_volume : C → VolumeContext → Io W C
  pub on_sync_end : C → Text → SourceSpec → DestSpec → SendPolicy → Io W C

-- `names.join(", ")`
unfoldable pub join : Text → List Text → Text
join separator [] = []
join separator (name ∷ []) = name
join separator (name ∷ next ∷ names) = name ++ (separator ++ join separator (next ∷ names))

unfoldable pub sync_names : BbkarConfigFile → Text
unfolding join text
sync_names c = join (text ", ") (map (λ s. s.0) c.sync)

-- `sync 'NAME' not found in config (available: NAMES)`
unfoldable pub no_sync : Text → BbkarConfigFile → Text
unfolding sync_names text
no_sync name c =
    text "sync '"
    ++ (name ++ (text "' not found in config (available: " ++ (sync_names c ++ text ")")))

-- The check of `--name`
unfoldable pub check_name : BbkarConfigFile → Option Text → Br (Unit {0})
unfolding find_entry no_sync
check_name c none = ok tt
check_name c (some name) =
    if is_some (find_entry c.sync name) then ok tt else err (config (no_sync name c ∷ []))

abbrev pub is_named : Option Text → Text → Bool
is_named none sync_name = true
is_named (some name) sync_name = text_eq sync_name name

abbrev pub States : Type 0
States = List (Text × SourceState)

abbrev pub SourceCache : Type 0
SourceCache = List (Text × States)

module _ {W Stream : Type 0} (host : Host W Stream) where
  unfoldable pub load_config : Text → Io W BbkarConfigFile
  unfolding from_toml
  load_config path = do
    content ← (λ w. (host.read_to_string path w, w))
    lift (from_toml host.from_str content)

  unfoldable pub inspect : SourceSpec → Io W States
  unfolding inspect_source
  inspect spec w = (inspect_source (host.directory spec.path w) spec, w)

  -- A source that an earlier sync has walked is not inspected again.
  unfoldable pub inspect_new :
      SourceCache → Text → SourceSpec → Option States → Io W (SourceCache × States)
  unfolding inspect
  inspect_new cache source spec (some states) = done (cache, states)
  inspect_new cache source spec none = do
    states ← inspect spec
    done ((source, states) ∷ cache, states)

module _ {W Stream C : Type 0} (host : Host W Stream) (cb : Callbacks W C) where
  -- The loop over the volumes of one sync
  unfoldable pub on_volumes : List Text → (Text → SourceState → VolumeContext) → C → States → Io W C
  on_volumes filters context c [] = done c
  on_volumes filters context c ((volume, state) ∷ states) = do
    c' ← if matches filters volume then cb.on_volume c (context volume state) else done c
    on_volumes filters context c' states

  -- A sync whose source, destination and policy are resolved
  unfoldable pub on_resolved :
      BbkarConfigFile
      → C
      → SourceCache
      → Text
      → SyncSpec
      → SourceSpec
      → DestSpec
      → ResolvedSyncPolicy
      → Io W (C × SourceCache)
  unfolding find_entry inspect_new on_volumes
  on_resolved conf c cache sync_name sync_spec src_spec dest_spec policy = do
    c₁ ← cb.on_sync_start c sync_name src_spec dest_spec policy.send
    (cache', states) ←
        inspect_new host cache sync_spec.source src_spec (find_entry cache sync_spec.source)
    c₂ ←
        on_volumes sync_spec.filter
          (volume_context sync_name conf.global src_spec dest_spec policy.send) c₁ states
    c₃ ← cb.on_sync_end c₂ sync_name src_spec dest_spec policy.send
    done (c₃, cache')

  unfoldable pub on_sync :
      BbkarConfigFile → C → SourceCache → Text → SyncSpec → Io W (C × SourceCache)
  unfolding find_entry from_sync_spec on_resolved
  on_sync conf c cache sync_name sync_spec = do
    src_spec ← lift (unwrap (find_entry conf.source sync_spec.source))
    dest_spec ← lift (unwrap (find_entry conf.dest sync_spec.dest))
    policy ← lift (from_sync_spec sync_spec)
    on_resolved conf c cache sync_name sync_spec src_spec dest_spec policy

  -- The loop over the syncs
  unfoldable pub on_syncs :
      BbkarConfigFile → Option Text → C → SourceCache → List (Text × SyncSpec) → Io W C
  unfolding on_sync
  on_syncs conf name c cache [] = done c
  on_syncs conf name c cache ((sync_name, sync_spec) ∷ syncs) = do
    (c', cache') ←
        if is_named name sync_name
        then on_sync conf c cache sync_name sync_spec
        else done (c, cache)
    on_syncs conf name c' cache' syncs

  unfoldable pub walk_config : BbkarConfigFile → Option Text → C → Io W C
  unfolding check_name on_syncs
  walk_config conf name c = do
    named ← lift (check_name conf name)
    on_syncs conf name c [] conf.sync

  unfoldable pub for_each_sync : Text → Option Text → C → Io W C
  unfolding load_config walk_config
  for_each_sync path name c = do conf ← load_config host path; walk_config conf name c

-- `for_each_volume`
unfoldable pub only_volumes : {W C : Type 0} → (C → VolumeContext → Io W C) → Callbacks W C
only_volumes on_volume = record {
  on_sync_start = λ c name src dest policy. done c;
  on_volume = on_volume;
  on_sync_end = λ c name src dest policy. done c;
}

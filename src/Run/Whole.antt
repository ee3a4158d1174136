-- ===== src/Run/Whole.antt =====
-- The whole command `run` of src/cli/run.rs, for a configuration with one sync, the most that its
-- validation lets through.
use bbkar.Common.{◌≡◌, refl, arith, Bool, true, false, Option, none, some}
use bbkar.Common.{
  [], ◌∷◌, All, All-zip, All-imp, length, ◌+◌, ◌^◌, ◌<◌, if◌then◌else◌, Bool-cases, inl, inr,
}
use bbkar.Common.Br.{ok}
use bbkar.Common.Io.{Ends, Ends-bind, Ends-done, Ends-lift, Ends-imp, done}
use bbkar.Common.Text.{Text, text_eq}
use bbkar.Config.{BbkarConfigFile, SourceSpec, DestSpec, find_entry}
use bbkar.Dest.{DestMeta}
use bbkar.Executor.{Keeps}
use bbkar.Inspect.{inspect_source}
use bbkar.Inspect.Volumes.{IsVolume, inspect_source-IsVolume}
use bbkar.Policy.{SyncSpec, ResolvedSyncPolicy, from_sync_spec}
use bbkar.Run.{RunTotals, no_sync_stats, run, run_callbacks}
use bbkar.Run.Steps.{stored_archives}
use bbkar.Run.Volumes.{AreNamed, AllSound, SafeFrom, SafeFrom-refl, CoversAll, on_volumes-Ends}
use bbkar.Sync.{
  Host, States, SourceCache, load_config, inspect, on_resolved, on_sync, on_syncs, walk_config,
}
use bbkar.Sync.{is_named, check_name, for_each_sync, inspect_new, volume_context, on_volumes}

-- Every volume has few snapshots.
abbrev pub AreFew : {W : Type 0} → (W → Text → Option DestMeta) → W → States → Type 0
AreFew stored w states =
    All (λ p. length (stored_archives stored p.0 w) + length p.1.volume.snapshots < 2 ^ 32) states

-- The one sync of a configuration, with its source and its destination
pub record OneSync (conf : BbkarConfigFile) : Type 0 where
  pub sync_name : Text
  pub sync : SyncSpec
  pub src : SourceSpec
  pub dest : DestSpec
  pub one : conf.sync ≡ (sync_name, sync) ∷ []
  pub source_there : find_entry conf.source sync.source ≡ some src
  pub dest_there : find_entry conf.dest sync.dest ≡ some dest

module _ {W Stream : Type 0} (host : Host W Stream) (conf : BbkarConfigFile) (only : OneSync conf)
    {stored : W → Text → Option DestMeta} (laws : Keeps (host.executor only.src only.dest) stored)
    (w : W) (sound : AllSound stored w)
    (few : (states : States)
      → inspect_source (host.directory only.src.path w) only.src ≡ ok states
      → AreNamed states × AreFew stored w states) where
  open only use {sync_name, sync, src, dest}

  -- What the source had, and that it is archived.
  abbrev pub Archived : W → Type 0
  Archived w' =
      (states : States) × (inspect_source (host.directory src.path w) src ≡ ok states)
      × CoversAll stored sync.filter states w'

  safe : SafeFrom stored w w
  safe = SafeFrom-refl stored w sound

  states-Ends :
      (totals : RunTotals) (policy : ResolvedSyncPolicy) (states : States)
      → inspect_source (host.directory src.path w) src ≡ ok states
      → Ends
          (SafeFrom stored w)
          (λ t. CoversAll stored sync.filter states)
          (on_volumes host
            (run_callbacks host)
            sync.filter
            (volume_context sync_name conf.global src dest policy.send)
            totals
            states
            w)
  states-Ends totals policy states h =
      let (volumes, distinct) = inspect_source-IsVolume (host.directory src.path w) src h in
      on_volumes-Ends host sync.filter sync_name conf.global policy.send laws states totals w
        distinct (few states h).0 sound
        (All-imp (λ p q. (q.0, q.1.oldest_first)) states
          (All-zip _ (IsVolume src.filter) states (few states h).1 volumes))

  inspected-Ends :
      Ends
        (SafeFrom stored w)
        (λ (p : SourceCache × States) w'.
          (inspect_source (host.directory src.path w) src ≡ ok p.1) × (w' ≡ w))
        (inspect_new host [] sync.source src none w)
  unfolding inspect_new inspect
  inspected-Ends =
      Ends-bind (inspect host src w) _
        (Ends-lift (inspect_source (host.directory src.path w) src) w safe (λ states h. (h, refl)))
        (λ states w₁ p q. Ends-done _ w₁ p q)

  resolved-Ends :
      (totals : RunTotals) (policy : ResolvedSyncPolicy)
      → Ends
          (SafeFrom stored w)
          (λ p. Archived)
          (on_resolved host (run_callbacks host) conf totals [] sync_name sync src dest policy w)
  unfolding on_resolved find_entry run_callbacks
  resolved-Ends totals policy =
      Ends-bind (inspect_new host [] sync.source src none w) _ inspected-Ends (λ found w₁ p q.
        Ends-bind
          (on_volumes host (run_callbacks host) sync.filter
            (volume_context sync_name conf.global src dest policy.send) (no_sync_stats totals)
            found.1 w₁)
          _ (rw q.1 (states-Ends _ policy found.1 q.0))
          (λ c w₂ p₂ covers. Ends-done _ w₂ p₂ (found.1, q.0, covers)))

  on_sync-Ends :
      (totals : RunTotals)
      → Ends
          (SafeFrom stored w)
          (λ p. Archived)
          (on_sync host (run_callbacks host) conf totals [] sync_name sync w)
  unfolding on_sync find_entry
  on_sync-Ends totals =
      rw (only.source_there, only.dest_there)
        (Ends-bind (from_sync_spec sync, w) _
          (Ends-lift {Q = λ policy w'. w' ≡ w} (from_sync_spec sync) w safe (λ policy h. refl))
          (λ policy w₁ p e. rw e (resolved-Ends totals policy)))

  -- The sync, if it is asked for
  asked-Ends :
      (asked : Bool) (totals : RunTotals)
      → Ends
          (SafeFrom stored w)
          (λ (p : RunTotals × SourceCache) w'. asked ≡ true → Archived w')
          ((if asked
              then on_sync host (run_callbacks host) conf totals [] sync_name sync
              else done (totals, []))
            w)
  asked-Ends true totals = Ends-imp _ (on_sync-Ends totals) (λ p w' archived always. archived)
  asked-Ends false totals = Ends-done (totals, []) w safe (λ e. ground arith)

  check_name-named :
      (name : Option Text) {u : Unit {0}}
      → check_name conf name ≡ ok u
      → is_named name sync_name ≡ true
  unfolding check_name find_entry
  check_name-named none h = refl
  check_name-named (some name) h = elim (Bool-cases (text_eq sync_name name)) [
    | inl same ↦ same
    | inr other ↦ ground (arith, rw (only.one, other) at h)
  ]

  walk-Ends :
      (name : Option Text) (totals : RunTotals)
      → Ends
          (SafeFrom stored w)
          (λ t. Archived)
          (walk_config host (run_callbacks host) conf name totals w)
  unfolding walk_config on_syncs
  walk-Ends name totals =
      Ends-bind (check_name conf name, w) _
        (Ends-lift {Q = λ u w'. (is_named name sync_name ≡ true) × (w' ≡ w)} (check_name conf name)
          w safe (λ u h. (check_name-named name h, refl)))
        (λ u w₁ p e.
          rw (e.1, only.one)
            (Ends-bind _ _ (asked-Ends (is_named name sync_name) totals)
              (λ q w₂ p₂ archived. Ends-done q.0 w₂ p₂ (archived e.0))))

  run-Ends :
      (path : Text) (name : Option Text)
      → load_config host path w ≡ (ok conf, w)
      → Ends (SafeFrom stored w) (λ t. Archived) (run host path name w)
  unfolding run for_each_sync
  run-Ends path name loaded = rw loaded (walk-Ends name _)

  -- For a configuration that has loaded, with one sync whose source and destination it has, an
  -- executor for them that satisfies Keeps, sound metadata of every volume with a plain name
  -- before, and, for every
  -- volume that the inspection of the source gives, a plain name and fewer than 2 ^ 32 archives and
  -- snapshots together: whatever the outcome of the whole command, an error or a panic in any
  -- volume too, the
  -- metadata of every volume with a plain name at the destination is sound afterwards, and every
  -- archive in it before
  -- is there unchanged.
  pub run-IsSafe :
      (path : Text) (name : Option Text)
      → load_config host path w ≡ (ok conf, w)
      → SafeFrom stored w (run host path name w).1
  run-IsSafe path name loaded = (run-Ends path name loaded).always

  -- For a configuration that has loaded, with one sync whose source and destination it has, an
  -- executor for them that satisfies Keeps, sound metadata of every volume with a plain name
  -- before, and, for every
  -- volume that the inspection of the source gives, a plain name and fewer than 2 ^ 32 archives and
  -- snapshots together: if the whole command succeeds, the source was inspected, and of every
  -- volume found
  -- there that matches the filters of the sync
  -- every snapshot is in the metadata at the destination.
  pub run-Covers :
      (path : Text) (name : Option Text) (totals : RunTotals)
      → load_config host path w ≡ (ok conf, w)
      → (run host path name w).0 ≡ ok totals
      → Archived (run host path name w).1
  run-Covers path name totals loaded h = (run-Ends path name loaded).on_ok totals h

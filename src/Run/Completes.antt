-- ===== src/Run/Completes.antt =====
-- The whole command `run` of src/cli/run.rs when nothing outside of it fails.
use bbkar.Common.{
  ◌≡◌, refl, sym, subst, arith, Bool, true, false, Option, none, some, List, [], ◌∷◌,
}
use bbkar.Common.{◌∙◌, All, All-zip, All-imp, if◌then◌else◌}
use bbkar.Common.Br.{ok, ok_injective}
use bbkar.Common.Io.{SucceedsIn, Succeeds, Succeeds-bind, Succeeds-after, done}
use bbkar.Common.Text.{Text}
use bbkar.Config.{BbkarConfigFile, GlobalConfig, SourceSpec, DestSpec, find_entry}
use bbkar.Dest.{VolumeArchive, DestMeta}
use bbkar.Executor.{Keeps, Works}
use bbkar.Inspect.{inspect_source, matches}
use bbkar.Inspect.Volumes.{Distinct, IsVolume, inspect_source-IsVolume}
use bbkar.Policy.{SendPolicy, ResolvedSyncPolicy, from_sync_spec}
use bbkar.Run.{RunTotals, no_sync_stats, run, run_callbacks}
use bbkar.Run.Total.{AreDated, run_volume-ok}
use bbkar.Run.Volumes.{
  AreNamed, SafeFrom, AllSound, CoversAll, OfVolume, Fits, FitsVolume, visit-Ends, still,
  AfterVolume,
}
use bbkar.Run.Whole.{OneSync, AreFew, run-Covers}
use bbkar.Storage.Components.{IsVolumeName}
use bbkar.Source.{SourceState}
use bbkar.Sync.{
  VolumeContext, Host, States, load_config, inspect, on_resolved, on_sync, on_syncs, walk_config,
}
use bbkar.Sync.{is_named, check_name, for_each_sync, inspect_new, volume_context, on_volumes}

abbrev pub Dated : List VolumeArchive → SourceState → Type 0
Dated l state = AreDated l state.volume.snapshots

module _ {W Stream : Type 0} (host : Host W Stream) {stored : W → Text → Option DestMeta}
    (filters : List Text) (name : Text) (global : GlobalConfig) {src : SourceSpec} {dest : DestSpec}
    (policy : SendPolicy) (laws : Keeps (host.executor src dest) stored) {Fine : W → Type 0}
    (works : Works (host.executor src dest) Fine) where
  abbrev context : Text → SourceState → VolumeContext
  context = volume_context name global src dest policy

  visit-ok :
      (chosen : Bool) (totals : RunTotals) (v : Text) (state : SourceState) (w : W)
      → IsVolumeName v
      → AllSound stored w
      → FitsVolume stored w (v, state)
      → OfVolume Dated stored w (v, state)
      → Fine w
      → SucceedsIn Fine (
          (if chosen then (run_callbacks host).on_volume totals (context v state) else done totals)
            w)
  unfolding run_callbacks
  visit-ok true totals v state w named sound fits dated fine =
      run_volume-ok works (context v state) named laws totals w (sound v named)
        (omega (arith, fits.0)) dated fine
  visit-ok false totals v state w named sound fits dated fine = ((totals, refl), fine)

  on_volumes-ok :
      (states : States) (totals : RunTotals) (w : W)
      → Distinct states
      → AreNamed states
      → AllSound stored w
      → All (FitsVolume stored w) states
      → All (OfVolume Dated stored w) states
      → Fine w
      → Succeeds (on_volumes host (run_callbacks host) filters context totals states w)
  unfolding on_volumes
  on_volumes-ok [] totals w d named sound fits dated fine = (totals, refl)
  on_volumes-ok ((v, state) ∷ states) totals w (absent, d) (name_v, named) sound (here, there)
        (dated, rest) fine =
      let visited = visit-ok (matches filters v) totals v state w name_v sound here dated fine in
      let ended =
        visit-Ends host filters name global policy laws (matches filters v) totals v state w name_v
          sound here in
      Succeeds-after {P = λ w'. SafeFrom stored w w' × Fine w'}
        {Q = λ t w'.
          AfterVolume host filters name global policy laws (matches filters v) w v state w'}
        _ _ visited.0 (record { always = (ended.always, visited.1); on_ok = ended.on_ok })
        (λ t w₁ (safe, fine₁) after.
          on_volumes-ok states t w₁ d named (λ u named_u. (safe u named_u).0)
            (still host filters name global policy laws Fits states v w w₁ after.1 named absent
              there)
            (still host filters name global policy laws Dated states v w w₁ after.1 named absent
              rest)
            fine₁)

module _ {W Stream : Type 0} (host : Host W Stream) (conf : BbkarConfigFile) (only : OneSync conf)
    {stored : W → Text → Option DestMeta} (laws : Keeps (host.executor only.src only.dest) stored)
    {Fine : W → Type 0} (works : Works (host.executor only.src only.dest) Fine) (w : W)
    (fine : Fine w) (sound : AllSound stored w) (states : States)
    (inspected : inspect_source (host.directory only.src.path w) only.src ≡ ok states)
    (named : AreNamed states) (few : AreFew stored w states)
    (dated : All (OfVolume Dated stored w) states) (policy : ResolvedSyncPolicy)
    (resolves : from_sync_spec only.sync ≡ ok policy) where
  open only use {sync_name, sync, src, dest}

  fits : All (FitsVolume stored w) states
  fits =
      All-imp (λ p q. (q.0, q.1.oldest_first)) states
        (All-zip _ (IsVolume src.filter) states few
          (inspect_source-IsVolume (host.directory src.path w) src inspected).0)

  resolved-ok :
      (totals : RunTotals)
      → Succeeds
          (on_resolved host (run_callbacks host) conf totals [] sync_name sync src dest policy w)
  unfolding on_resolved find_entry run_callbacks inspect_new inspect
  resolved-ok totals = rw inspected (
      Succeeds-bind
        (on_volumes host (run_callbacks host) sync.filter
          (volume_context sync_name conf.global src dest policy.send) (no_sync_stats totals) states
          w)
        _
        (on_volumes-ok host sync.filter sync_name conf.global policy.send laws works states
          (no_sync_stats totals) w
          (inspect_source-IsVolume (host.directory src.path w) src inspected).1 named sound fits
          dated fine)
        (λ c w₂ e. (_, refl)))

  on_sync-ok :
      (totals : RunTotals)
      → Succeeds (on_sync host (run_callbacks host) conf totals [] sync_name sync w)
  unfolding on_sync find_entry
  on_sync-ok totals = rw (only.source_there, only.dest_there, resolves) (resolved-ok totals)

  check_name-ok :
      (name : Option Text) → is_named name sync_name ≡ true → check_name conf name ≡ ok tt
  unfolding check_name find_entry
  check_name-ok none h = refl
  check_name-ok (some name) h = rw (only.one, h) refl

  one_sync-ok :
      (name : Option Text) (totals : RunTotals)
      → is_named name sync_name ≡ true
      → Succeeds (on_syncs host (run_callbacks host) conf name totals [] ((sync_name, sync) ∷ []) w)
  unfolding on_syncs
  one_sync-ok name totals asked = rw asked (
      Succeeds-bind (on_sync host (run_callbacks host) conf totals [] sync_name sync w) _
        (on_sync-ok totals) (λ q w₂ e. (_, refl)))

  walk-ok :
      (name : Option Text) (totals : RunTotals)
      → is_named name sync_name ≡ true
      → Succeeds (walk_config host (run_callbacks host) conf name totals w)
  unfolding walk_config
  walk-ok name totals asked = rw (check_name-ok name asked) (
      subst (λ l. Succeeds (on_syncs host (run_callbacks host) conf name totals [] l w))
        (sym only.one) (one_sync-ok name totals asked))

  run-Succeeds :
      (path : Text) (name : Option Text)
      → load_config host path w ≡ (ok conf, w)
      → is_named name sync_name ≡ true
      → Succeeds (run host path name w)
  unfolding run for_each_sync
  run-Succeeds path name loaded asked = rw loaded (walk-ok name _ asked)

  all_few :
      (found : States)
      → inspect_source (host.directory src.path w) src ≡ ok found
      → AreNamed found × AreFew stored w found
  all_few found h =
      subst (λ l. AreNamed l × AreFew stored w l) (ok_injective (sym inspected ∙ h)) (named, few)

  -- For a configuration that has loaded, with one sync, which is asked for, whose source and
  -- destination it has and whose policy resolves, a source whose inspection succeeds, an executor
  -- that satisfies Keeps and Works, so that none of its operations fails, sound metadata of every
  -- volume with a plain name before, and, for every volume found, a plain name, fewer than 2 ^ 32
  -- archives and snapshots together and dates in ASCII: the whole command succeeds, and then of
  -- every volume found that matches the filters of
  -- the sync every snapshot is in the metadata at the destination.
  pub run-Completes :
      (path : Text) (name : Option Text)
      → load_config host path w ≡ (ok conf, w)
      → is_named name sync_name ≡ true
      → Succeeds (run host path name w)
        × CoversAll stored sync.filter states (run host path name w).1
  run-Completes path name loaded asked =
      let (totals, ended) = run-Succeeds path name loaded asked in
      let (found, listed, covers) =
        run-Covers host conf only laws w sound all_few path name totals loaded ended in
      let same : found ≡ states = ok_injective (sym listed ∙ inspected) in
      (
        (totals, ended),
        subst (λ l. CoversAll stored sync.filter l (run host path name w).1) same covers,
      )

-- ===== src/Restore/Command.antt =====
-- src/cli/restore.rs: the commands `restore` and `dryrestore` as a whole.
use bbkar.Common.{Option, none, some, List, [], ◌∷◌, ◌++◌, length, ltb, head?}
use bbkar.Common.{if◌then◌else◌}
use bbkar.Common.Br.{Br, ok, err, panic, out_of_fuel, config, ok_or}
use bbkar.Common.Br
use bbkar.Common.Io.{Io, ◌>>=◌, done, lift}
use bbkar.Common.Text.{Text, text}
use bbkar.Config.{BbkarConfigFile, SourceSpec, DestSpec, find_entry}
use bbkar.Dest.{DestMeta}
use bbkar.Inspect.{Directory}
use bbkar.Ls.{several_syncs}
use bbkar.Plan.{RestoreStep}
use bbkar.Policy.{SyncSpec}
use bbkar.Restore.{prepare_steps, restore_steps, dryrestore_steps, RestoreReport}
use bbkar.Sync.{Host, load_config, no_sync}

-- The struct `RestorePlan` of the file
pub record Prepared : Type 0 where
  pub dest_spec : DestSpec
  pub meta : DestMeta
  pub steps : List RestoreStep
  pub pre_existing : List Text

-- The choice of the sync block
unfoldable pub choose_block : BbkarConfigFile → Option Text → Br (Text × SyncSpec)
unfolding find_entry no_sync text
choose_block c (some n) =
    Br.◌>>=◌ (ok_or (find_entry c.sync n) (config (no_sync n c ∷ []))) (λ spec. ok (n, spec))
choose_block c none =
    if ltb 1 (length c.sync)
    then err (config (several_syncs c ∷ []))
    else ok_or (head? c.sync) (config (text "no sync defined in config" ∷ []))

unfoldable pub names_of : List (Br Text) → List Text
names_of [] = []
names_of (ok name ∷ entries) = name ∷ names_of entries
names_of (entry ∷ entries) = names_of entries

-- The subvolumes that are in the root before the restore; errors of single entries are passed over.
unfoldable pub scan_existing : Directory → Br (List Text)
unfolding names_of
scan_existing root =
    if root.is_dir then Br.◌>>=◌ root.read_dir (λ entries. ok (names_of entries)) else ok []

-- The arguments of the commands
pub record RestoreArgs : Type 0 where
  pub root : Text
  pub volume : Text
  pub snapshots : List Text
  pub min_timestamp : Option Text
  pub max_timestamp : Option Text
  pub name : Option Text

-- A restore calls only operations on the destination, so that the executor is one for any source.
module _ {W Stream : Type 0} (host : Host W Stream) (src : SourceSpec) where
  unfoldable pub prepare_restore : Text → RestoreArgs → Io W Prepared
  unfolding load_config choose_block find_entry text prepare_steps scan_existing
  prepare_restore config_path args = do
    conf ← load_config host config_path
    (sync_name, sync_spec) ← lift (choose_block conf args.name)
    dest_spec ← lift (
        ok_or (find_entry conf.dest sync_spec.dest) (
          config
            ((text "dest '" ++ (sync_spec.dest ++ text "' referenced by sync not found")) ∷ [])))
    dest_state ← (host.executor src dest_spec).inspect_dest_volume args.volume
    (meta, steps) ←
        lift (
          prepare_steps args.volume dest_state args.snapshots args.min_timestamp args.max_timestamp)
    pre_existing ← (λ w. (scan_existing (host.directory args.root w), w))
    done (record { dest_spec = dest_spec; meta = meta; steps = steps; pre_existing = pre_existing })

  unfoldable pub restore : Text → RestoreArgs → Io W (Unit {0})
  unfolding prepare_restore restore_steps
  restore config_path args = do
    plan ← prepare_restore config_path args
    restore_steps (host.executor src plan.dest_spec) args.volume args.root plan.meta.archives
        plan.pre_existing [] plan.steps

  unfoldable pub dryrestore : Text → RestoreArgs → Io W (List RestoreReport)
  unfolding prepare_restore dryrestore_steps
  dryrestore config_path args = do
    plan ← prepare_restore config_path args
    done (dryrestore_steps args.volume plan.pre_existing plan.steps)

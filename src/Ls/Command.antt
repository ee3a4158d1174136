-- ===== src/Ls/Command.antt =====
-- src/cli/ls.rs: the command `ls`. What it prints is returned, a list of tables.
use bbkar.Common.{Option, none, some, List, [], ◌∷◌, ◌++◌}
use bbkar.Common.Br.{Br}
use bbkar.Common.Io.{Io, ◌>>=◌, done, lift}
use bbkar.Common.Text.{Text}
use bbkar.Dest.{DestState}
use bbkar.Ls.{Row, choose_sync, snapshot_table, restore_table}
use bbkar.Sync.{Host, Callbacks, VolumeContext, load_config, for_each_sync, only_volumes}

module _ {W Stream : Type 0} (host : Host W Stream) where
  unfoldable pub resolve_sync_name : Text → Option Text → Io W Text
  unfolding load_config choose_sync
  resolve_sync_name config_path name = do
    conf ← load_config host config_path
    lift (choose_sync conf name)

  -- The closures, for a table from the metadata of a volume
  unfoldable pub table_callbacks :
      (VolumeContext → DestState → W → Br (List Row)) → Callbacks W (List (List Row))
  unfolding only_volumes
  table_callbacks table = only_volumes (λ tables ctx. do
    dest_state ← (host.executor ctx.src_spec ctx.dest_spec).inspect_dest_volume ctx.volume
    rows ← (λ w. (table ctx dest_state w, w))
    done (tables ++ rows ∷ []))

  unfoldable pub ls : Text → Option Text → Option Text → Io W (List (List Row))
  unfolding resolve_sync_name table_callbacks snapshot_table restore_table for_each_sync
  ls config_path name (some root) = do
    resolved_name ← resolve_sync_name config_path name
    for_each_sync host
        (table_callbacks
          (λ ctx dest_state w. restore_table ctx.volume dest_state (host.directory root w)))
        config_path (some resolved_name) []
  ls config_path name none =
      for_each_sync host
        (table_callbacks
          (λ ctx dest_state w. snapshot_table ctx.volume dest_state ctx.src_state.volume.snapshots))
        config_path name []

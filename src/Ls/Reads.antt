-- ===== src/Ls/Reads.antt =====
-- The commands that report leave the world as it is.
use bbkar.Common.{Option, none, some, List, []}
use bbkar.Common.Br.{Br}
use bbkar.Common.Text.{Text}
use bbkar.Config.{SourceSpec, DestSpec}
use bbkar.Dest.{DestState}
use bbkar.Ls.{Row, snapshot_table, restore_table}
use bbkar.Ls.Command.{resolve_sync_name, table_callbacks, ls}
use bbkar.Status.{StatusReport, status, status_volume}
use bbkar.Source.{oldest_snapshot, newest_snapshot}
use bbkar.Sync.{Host, VolumeContext, load_config, only_volumes, for_each_sync}
use bbkar.Sync.Walk.{KeepsCalls, for_each_sync-Leaves}
use bbkar.Common.Io.{Leaves, Leaves-bind}

module _ {W Stream : Type 0} (host : Host W Stream) (P : W → Type 0)
    (reads : (src : SourceSpec) (dest : DestSpec) (v : Text) (w : W)
      → P w
      → P ((host.executor src dest).inspect_dest_volume v w).1) where
  only_volumes-KeepsCalls :
      {C : Type 0} (on_volume : C → VolumeContext → W → Br C × W)
      → ((c : C) (ctx : VolumeContext) (w : W) → P w → P (on_volume c ctx w).1)
      → KeepsCalls P (only_volumes on_volume)
  unfolding only_volumes
  only_volumes-KeepsCalls on_volume h = record {
    start_keeps = λ c name src dest policy w p. p;
    volume_keeps = h;
    end_keeps = λ c name src dest policy w p. p;
  }

  tables-Leaves :
      (table : VolumeContext → DestState → W → Br (List Row)) (path : Text) (name : Option Text)
      (w : W)
      → P w
      → P (for_each_sync host (table_callbacks host table) path name [] w).1
  unfolding table_callbacks
  tables-Leaves table path name w p =
      for_each_sync-Leaves host (table_callbacks host table) P
        (only_volumes-KeepsCalls _ (λ c ctx w p.
          Leaves-bind P
            ((host.executor ctx.src_spec ctx.dest_spec).inspect_dest_volume ctx.volume w) _
            (reads ctx.src_spec ctx.dest_spec ctx.volume w p)
            (λ d w₁ p₁. Leaves-bind P (table ctx d w₁, w₁) _ p₁ (λ rows w₂ p₂. p₂))))
        path name [] w p

  ls-Leaves :
      (path : Text) (name : Option Text) (restore_root : Option Text) (w : W)
      → P w
      → P (ls host path name restore_root w).1
  unfolding ls resolve_sync_name load_config
  ls-Leaves path name none w p =
      tables-Leaves (λ ctx d w'. snapshot_table ctx.volume d ctx.src_state.volume.snapshots) path
        name w p
  ls-Leaves path name (some root) w p =
      Leaves-bind P (resolve_sync_name host path name w) _
        (Leaves-bind P (load_config host path w) _
          (Leaves-bind P (host.read_to_string path w, w) _ p (λ content w₁ p₁. p₁))
          (λ conf w₁ p₁. p₁))
        (λ n w₁ p₁.
          tables-Leaves (λ ctx d w'. restore_table ctx.volume d (host.directory root w')) path
            (some n) w₁ p₁)

  status_volume-Leaves :
      (c : List StatusReport) (ctx : VolumeContext) (w : W)
      → P w
      → Leaves P (status_volume host c ctx w)
  unfolding status_volume
  status_volume-Leaves c ctx w p =
      Leaves-bind P (oldest_snapshot ctx.src_state.volume, w) _ p
        (λ a w₁ p₁.
          Leaves-bind P (newest_snapshot ctx.src_state.volume, w₁) _ p₁
            (λ b w₂ p₂.
              Leaves-bind P
                ((host.executor ctx.src_spec ctx.dest_spec).inspect_dest_volume ctx.volume w₂) _
                (reads ctx.src_spec ctx.dest_spec ctx.volume w₂ p₂) (λ d w₃ p₃. p₃)))

  -- What the reading of metadata leaves true of the world, for every source and destination, the
  -- commands status and ls leave true, with and without a restore root and whatever their outcome.
  pub reports-Leaves :
      (path : Text) (name : Option Text) (restore_root : Option Text) (w : W)
      → P w
      → P (status host path name w).1 × P (ls host path name restore_root w).1
  unfolding status
  reports-Leaves path name restore_root w p = (
    for_each_sync-Leaves host (only_volumes (status_volume host)) P
        (only_volumes-KeepsCalls (status_volume host) status_volume-Leaves) path name [] w p,
    ls-Leaves path name restore_root w p,
  )

-- ===== src/Sync/Walk.antt =====
-- What every command keeps that walks the syncs with for_each_sync of src/cli/mod.rs.
use bbkar.Common.{Bool, true, false, Option, none, some, List, [], ◌∷◌, if◌then◌else◌}
use bbkar.Common.Br.{unwrap}
use bbkar.Common.Io.{Io, done, Leaves, Leaves-bind}
use bbkar.Common.Text.{Text}
use bbkar.Config.{BbkarConfigFile, SourceSpec, DestSpec, find_entry}
use bbkar.Inspect.{inspect_source, matches}
use bbkar.Policy.{SendPolicy, SyncSpec, ResolvedSyncPolicy, from_sync_spec}
use bbkar.Source.{SourceState}
use bbkar.Sync.{Host, Callbacks, VolumeContext, States, SourceCache, load_config, inspect}
use bbkar.Sync.{inspect_new, on_volumes, on_resolved, on_sync, on_syncs, walk_config, check_name}
use bbkar.Sync.{for_each_sync, is_named, volume_context}

-- Every call of the callbacks leaves `P` true.
pub record KeepsCalls {W C : Type 0} (P : W → Type 0) (cb : Callbacks W C) : Type 0 where
  pub start_keeps :
      (c : C) (name : Text) (src : SourceSpec) (dest : DestSpec) (policy : SendPolicy) (w : W)
      → P w
      → Leaves P (cb.on_sync_start c name src dest policy w)
  pub volume_keeps : (c : C) (ctx : VolumeContext) (w : W) → P w → Leaves P (cb.on_volume c ctx w)
  pub end_keeps :
      (c : C) (name : Text) (src : SourceSpec) (dest : DestSpec) (policy : SendPolicy) (w : W)
      → P w
      → Leaves P (cb.on_sync_end c name src dest policy w)

module _ {W Stream C : Type 0} (host : Host W Stream) (cb : Callbacks W C) (P : W → Type 0)
    (keeps : KeepsCalls P cb) where
  Leaves-if :
      {A : Type 0} (b : Bool) (m : Io W A) (a : A) (w : W)
      → Leaves P (m w)
      → P w
      → Leaves P ((if b then m else done a) w)
  Leaves-if true m a w h p = h
  Leaves-if false m a w h p = p

  on_volumes-Leaves :
      (filters : List Text) (context : Text → SourceState → VolumeContext) (states : States) (c : C)
      (w : W)
      → P w
      → Leaves P (on_volumes host cb filters context c states w)
  unfolding on_volumes
  on_volumes-Leaves filters context [] c w p = p
  on_volumes-Leaves filters context ((v, state) ∷ states) c w p =
      Leaves-bind P _ _
        (Leaves-if (matches filters v) (cb.on_volume c (context v state)) c w
          (keeps.volume_keeps c (context v state) w p) p)
        (λ c' w' p'. on_volumes-Leaves filters context states c' w' p')

  inspect_new-Leaves :
      (cache : SourceCache) (source : Text) (spec : SourceSpec) (found : Option States) (w : W)
      → P w
      → Leaves P (inspect_new host cache source spec found w)
  unfolding inspect_new inspect
  inspect_new-Leaves cache source spec (some states) w p = p
  inspect_new-Leaves cache source spec none w p =
      Leaves-bind P (inspect_source (host.directory spec.path w) spec, w) _ p (λ states w' p'. p')

  on_resolved-Leaves :
      (conf : BbkarConfigFile) (c : C) (cache : SourceCache) (name : Text) (sync : SyncSpec)
      (src : SourceSpec) (dest : DestSpec) (policy : ResolvedSyncPolicy) (w : W)
      → P w
      → Leaves P (on_resolved host cb conf c cache name sync src dest policy w)
  unfolding on_resolved
  on_resolved-Leaves conf c cache name sync src dest policy w p =
      Leaves-bind P (cb.on_sync_start c name src dest policy.send w) _
        (keeps.start_keeps c name src dest policy.send w p)
        (λ c₁ w₁ p₁.
          Leaves-bind P (inspect_new host cache sync.source src (find_entry cache sync.source) w₁) _
            (inspect_new-Leaves cache sync.source src (find_entry cache sync.source) w₁ p₁)
            (λ found w₂ p₂.
              Leaves-bind P
                (on_volumes host cb sync.filter
                  (volume_context name conf.global src dest policy.send) c₁ found.1 w₂)
                _ (on_volumes-Leaves sync.filter _ found.1 c₁ w₂ p₂)
                (λ c₂ w₃ p₃.
                  Leaves-bind P (cb.on_sync_end c₂ name src dest policy.send w₃) _
                    (keeps.end_keeps c₂ name src dest policy.send w₃ p₃) (λ c₃ w₄ p₄. p₄))))

  on_sync-Leaves :
      (conf : BbkarConfigFile) (c : C) (cache : SourceCache) (name : Text) (sync : SyncSpec) (w : W)
      → P w
      → Leaves P (on_sync host cb conf c cache name sync w)
  unfolding on_sync
  on_sync-Leaves conf c cache name sync w p =
      Leaves-bind P (unwrap (find_entry conf.source sync.source), w) _ p
        (λ src w₁ p₁.
          Leaves-bind P (unwrap (find_entry conf.dest sync.dest), w₁) _ p₁
            (λ dest w₂ p₂.
              Leaves-bind P (from_sync_spec sync, w₂) _ p₂
                (λ policy w₃ p₃. on_resolved-Leaves conf c cache name sync src dest policy w₃ p₃)))

  on_syncs-Leaves :
      (conf : BbkarConfigFile) (name : Option Text) (syncs : List (Text × SyncSpec)) (c : C)
      (cache : SourceCache) (w : W)
      → P w
      → Leaves P (on_syncs host cb conf name c cache syncs w)
  unfolding on_syncs
  on_syncs-Leaves conf name [] c cache w p = p
  on_syncs-Leaves conf name ((n, sync) ∷ syncs) c cache w p =
      Leaves-bind P _ _
        (Leaves-if (is_named name n) (on_sync host cb conf c cache n sync) (c, cache) w
          (on_sync-Leaves conf c cache n sync w p) p)
        (λ (q : C × SourceCache) w' p'. on_syncs-Leaves conf name syncs q.0 q.1 w' p')

  -- What every call of the callbacks leaves true of the world, the whole walk leaves true.
  pub for_each_sync-Leaves :
      (path : Text) (name : Option Text) (c : C) (w : W)
      → P w
      → Leaves P (for_each_sync host cb path name c w)
  unfolding for_each_sync walk_config load_config
  for_each_sync-Leaves path name c w p =
      Leaves-bind P (load_config host path w) _
        (Leaves-bind P (host.read_to_string path w, w) _ p (λ content w' p'. p'))
        (λ conf w₁ p₁.
          Leaves-bind P (check_name conf name, w₁) _ p₁
            (λ u w₂ p₂. on_syncs-Leaves conf name conf.sync c [] w₂ p₂))

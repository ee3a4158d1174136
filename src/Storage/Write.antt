-- ===== src/Storage/Write.antt =====
-- What a write leaves in the files, on a local destination and on an object store:
-- write_metadata_to_dest of src/service/executor/write_dest.rs.
use bbkar.Common.{◌≡◌, ◌≢◌, ◌⊎◌, refl, sym, ap, ◌∙◌, subst, some}
use bbkar.Common.{inl, inr}
use bbkar.Common.Io.{Ends, Ends-bind, Ends-lift}
use bbkar.Common.Text.{Text}
use bbkar.Config.{DestSpec, BackendSpec, local, s3, gcs, root_path}
use bbkar.Storage.{Bytes, Storage, Codec, path_in_volume, join}
use bbkar.Storage.{meta_filename, tmp_filename, replace_file, write_object, write_content}
use bbkar.Storage.Paths.{meta_key, tmp_key}
use bbkar.Storage.Components.{components, IsVolumeName, meta-IsName}
use bbkar.Storage.Paths.{components-join-join, components-path_in_volume, meta_key-IsApart}
use bbkar.Storage.Components.{IsApart}
use bbkar.Storage.Paths.{tmp_key-IsApart}
use bbkar.Storage.Components.{tmp-IsName}
use bbkar.Storage.Laws.{Files, IsStorage}

module _ {W : Type 0} {storage : Storage W} {files : Files W} (laws : IsStorage storage files)
    (codec : Codec) (dest : DestSpec) (v : Text) (name : IsVolumeName v) where
  abbrev root : Text
  root = root_path dest

  -- After a write of the data `d`: the other volumes' metadata is as it was, and that of `v` is as
  -- it was or is `d`.
  pub record AfterWrite (d : Bytes) (w w' : W) : Type 0 where
    pub others :
        (u : Text) → IsVolumeName u → u ≢ v → files w' (meta_key root u) ≡ files w (meta_key root u)
    pub whole :
        (files w' (meta_key root v) ≡ files w (meta_key root v))
        ⊎ (files w' (meta_key root v) ≡ some d)

  abbrev Written : Bytes → Unit {0} → W → Type 0
  Written d u w' = files w' (meta_key root v) ≡ some d

  write_object-Ends :
      (d : Bytes) (w : W)
      → Ends (AfterWrite d w) (Written d) (write_object storage codec dest v d w)
  unfolding write_object
  write_object-Ends d w =
      let key = components-path_in_volume root v name.0 in
      Ends-bind (storage.summon dest, w) _
        (Ends-lift {Q = λ u w'. w' ≡ w} (storage.summon dest) w
          (record { others = λ u nu other. refl; whole = inl refl }) (λ u e. refl))
        (λ u w₁ p e. rw e (record {
          always = record {
            others = λ x nx other. laws.object_other root _ d w (meta_key root x) (
                subst (λ p. IsApart p (meta_key root x)) (sym key)
                  (meta_key-IsApart root x v nx name other));
            whole = rw key at (laws.object_whole root (path_in_volume v meta_filename) d w);
          };
          on_ok = λ t h. rw key at (laws.object_ok root (path_in_volume v meta_filename) d w h);
        }))

  -- The metadata of every volume is as it was.
  Untouched : W → W → Type 0
  Untouched w w' =
      (u : Text) → IsVolumeName u → files w' (meta_key root u) ≡ files w (meta_key root u)

  untouched : (d : Bytes) (w w' : W) → Untouched w w' → AfterWrite d w w'
  unfolding Untouched
  untouched d w w' same = record { others = λ u nu other. same u nu; whole = inl (same v name) }

  abbrev tmp_name : Text
  tmp_name = join (join root v) tmp_filename

  abbrev meta_name : Text
  meta_name = join (join root v) meta_filename

  tmp_path : components (join (join root v) tmp_filename) ≡ tmp_key root v
  unfolding tmp_key
  tmp_path = components-join-join root v tmp_filename name.0 tmp-IsName

  meta_path : components (join (join root v) meta_filename) ≡ meta_key root v
  unfolding meta_key
  meta_path = components-join-join root v meta_filename name.0 meta-IsName

  not_tmp : (u : Text) → IsApart (components (join (join root v) tmp_filename)) (meta_key root u)
  not_tmp u = subst (λ p. IsApart p (meta_key root u)) (sym tmp_path) (tmp_key-IsApart root u v)

  rename-Ends :
      (d : Bytes) (w w₂ : W)
      → Untouched w w₂
      → files w₂ (tmp_key root v) ≡ some d
      → Ends
          (AfterWrite d w)
          (Written d)
          (storage.rename (join (join root v) tmp_filename) (join (join root v) meta_filename) w₂)
  unfolding Untouched
  rename-Ends d w w₂ same there = record {
    always = record {
      others = λ u nu other.
          laws.rename_other tmp_name meta_name d w₂ (meta_key root u)
            (ap (files w₂) tmp_path ∙ there) (not_tmp u)
            (subst (λ p. IsApart p (meta_key root u)) (sym meta_path)
              (meta_key-IsApart root u v nu name other))
          ∙ same u nu;
      whole = elim (laws.rename_whole tmp_name meta_name w₂) [
        | inl kept ↦ inl ((rw meta_path at kept) ∙ same v name)
        | inr moved ↦ inr ((rw (meta_path, tmp_path) at moved) ∙ there)
      ];
    };
    on_ok = λ t h. (rw (meta_path, tmp_path) at (laws.rename_ok tmp_name meta_name w₂ h)) ∙ there;
  }

  replace_file-Ends :
      (d : Bytes) (w : W)
      → Ends (AfterWrite d w) (Written d) (replace_file storage codec dest (join root v) d w)
  unfolding replace_file Untouched
  replace_file-Ends d w =
      Ends-bind (storage.create_dir_all (join root v) w) _
        (record {
          always = untouched d w _ (λ u nu. laws.dir_keeps _ w (meta_key root u));
          on_ok = λ t h u nu. laws.dir_keeps _ w (meta_key root u);
        })
        (λ made w₁ p₁ (same : Untouched w w₁).
          let kept : Untouched w (storage.write_file (join (join root v) tmp_filename) d w₁).1 =
            λ u nu. laws.write_other _ d w₁ (meta_key root u) (not_tmp u) ∙ same u nu in
          Ends-bind {Q = λ t w₂. Untouched w w₂ × (files w₂ (tmp_key root v) ≡ some d)}
            (storage.write_file tmp_name d w₁) _
            (record {
              always = untouched d w _ kept;
              on_ok = λ t h. (kept, rw tmp_path at (laws.write_ok tmp_name d w₁ h));
            })
            (λ written w₂ p₂ q. rename-Ends d w w₂ q.0 q.1))

  pub write_content-Ends :
      (backend : BackendSpec) (d : Bytes) (w : W)
      → dest.backend_spec ≡ backend
      → Ends (AfterWrite d w) (Written d) (write_content storage codec dest backend v d w)
  unfolding write_content root_path
  write_content-Ends (local path) d w e =
      subst
        (λ p. Ends (AfterWrite d w) (Written d) (replace_file storage codec dest (join p v) d w))
        (ap (λ (b : BackendSpec). root_path (record { backend_spec = b })) e)
        (replace_file-Ends d w)
  write_content-Ends (s3 spec) d w e = write_object-Ends d w
  write_content-Ends (gcs spec) d w e = write_object-Ends d w

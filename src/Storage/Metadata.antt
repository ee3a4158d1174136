-- ===== src/Storage/Metadata.antt =====
-- The metadata of a volume in the storage: write_metadata_to_dest and inspect_dest_volume of
-- src/service/executor/ against each other. These are the laws of an executor on the metadata, for
-- volume names.
use bbkar.Common.{◌≡◌, ◌≢◌, ◌⊎◌, refl, sym, ap, ◌∙◌, arith, Option, none, some}
use bbkar.Common.{inl, inr}
use bbkar.Common.Br.{Br, ok, bind-eq-ok, ok_injective}
use bbkar.Common.Io.{Ends, Ends-bind, Ends-lift, Ends-weaken}
use bbkar.Common.Text.{Text}
use bbkar.Config.{DestSpec, root_path}
use bbkar.Dest.{DestMeta, DestState, sort_archives}
use bbkar.Dest
use bbkar.Storage.{Bytes, Found, data_of, not_found, failed, Storage, Codec, path_in_volume}
use bbkar.Storage.{meta_filename, decode}
use bbkar.Storage.{write_metadata_to_dest, of_found, inspect_dest_volume}
use bbkar.Storage.Paths.{meta_key}
use bbkar.Storage.Components.{IsName, IsVolumeName}
use bbkar.Storage.Paths.{components-path_in_volume}
use bbkar.Storage.Laws.{Files, IsStorage, IsCodec}
use bbkar.Storage.Write.{write_content-Ends}

abbrev some_ok : Br DestMeta → Option DestMeta
some_ok (ok m) = some m
some_ok r = none

-- The metadata in a file, if there is any that can be read
abbrev pub load : Codec → Option Bytes → Option DestMeta
load codec none = none
load codec (some d) = some_ok (decode codec d)

module _ {W : Type 0} {storage : Storage W} {files : Files W} (laws : IsStorage storage files)
    {codec : Codec} (codec_laws : IsCodec codec) (dest : DestSpec) where
  -- The metadata of a volume in a world
  abbrev pub kept_at : W → Text → Option DestMeta
  kept_at w v = load codec (files w (meta_key (root_path dest) v))

  load-written :
      (m : DestMeta) {c : Text}
      → codec.to_string m ≡ ok c
      → sort_archives m.archives ≡ m.archives
      → load codec (some (codec.into_bytes c)) ≡ some m
  unfolding decode Dest.new
  load-written m {c} e sorted =
      rw (codec_laws.from_utf8_into_bytes c, codec_laws.from_str_to_string m c e)
        (ap (λ l. some (record m { archives = l })) sorted)

  -- After a write of the metadata `m`: the other volumes' metadata is as it was, and that of `v` is
  -- as it was or is `m`.
  pub record IsAtomic (v : Text) (m : DestMeta) (w w' : W) : Type 0 where
    pub others : (u : Text) → IsVolumeName u → u ≢ v → kept_at w' u ≡ kept_at w u
    pub whole : (kept_at w' v ≡ kept_at w v) ⊎ (kept_at w' v ≡ some m)

  -- For the name of a volume, which has no slash and is none of ``, `.` and `..`, and metadata
  -- whose
  -- archives are sorted, over storage and a codec that do what
  -- they document: whatever the outcome of a write of the metadata, that of every other volume with
  -- such a name is
  -- what it was, and that of the volume is what it was or what was written; if the write succeeds
  -- it is what was written.
  pub write_metadata_to_dest-IsAtomic :
      (v : Text) (m : DestMeta) (w : W)
      → IsVolumeName v
      → sort_archives m.archives ≡ m.archives
      → Ends
          (IsAtomic v m w)
          (λ u w'. kept_at w' v ≡ some m)
          (write_metadata_to_dest storage codec dest v m w)
  unfolding write_metadata_to_dest
  write_metadata_to_dest-IsAtomic v m w name sorted =
      Ends-bind (codec.to_string m, w) _
        (Ends-lift {Q = λ c w'. (codec.to_string m ≡ ok c) × (w' ≡ w)} (codec.to_string m) w
          (record { others = λ u nu other. refl; whole = inl refl }) (λ c e. (e, refl)))
        (λ c w₁ p e. rw e.1 (
          Ends-weaken _
            (write_content-Ends laws codec dest v name dest.backend_spec (codec.into_bytes c) w
              refl)
            (λ w' a. record {
              others = λ u nu other. ap (load codec) (a.others u nu other);
              whole = elim a.whole [
                | inl kept ↦ inl (ap (load codec) kept)
                | inr new ↦ inr (ap (load codec) new ∙ load-written m e.0 sorted)
              ];
            })
            (λ u w' a written. ap (load codec) written ∙ load-written m e.0 sorted)))

  found-kept :
      (f : Found) (o : Option Bytes)
      → ((d : Bytes) → f ≡ data_of d → o ≡ some d)
      → (f ≡ not_found → o ≡ none)
      → {d : DestState} → of_found codec f ≡ ok d
      → d.meta ≡ load codec o
  unfolding of_found
  found-kept (data_of b) o there gone {d} h =
      let (m, e, h₁) = bind-eq-ok (decode codec b) _ h in
      ap (λ (d : DestState). d.meta) (sym (ok_injective h₁))
      ∙ sym (ap (load codec) (there b refl) ∙ ap some_ok e)
  found-kept not_found o there gone h =
      ap (λ (d : DestState). d.meta) (sym (ok_injective h)) ∙ sym (ap (load codec) (gone refl))
  found-kept (failed x) o there gone h = ground arith

  -- For a volume name, over storage that does what it documents: a read of the metadata changes
  -- that of no volume, and if it succeeds it gives what is kept for the volume.
  pub inspect_dest_volume-kept_at :
      (v : Text) (w : W)
      → IsName v
      → Ends
          (λ w'. (u : Text) → kept_at w' u ≡ kept_at w u)
          (λ d w'. d.meta ≡ kept_at w v)
          (inspect_dest_volume storage codec dest v w)
  unfolding inspect_dest_volume
  inspect_dest_volume-kept_at v w name =
      Ends-bind (storage.summon dest, w) _
        (Ends-lift {Q = λ u w'. w' ≡ w} (storage.summon dest) w (λ u. refl) (λ u e. refl))
        (λ u w₁ p e. rw e (record {
          always = λ u. ap (load codec) (laws.read_keeps _ _ w (meta_key (root_path dest) u));
          on_ok = λ d h.
              found-kept (storage.op_read (root_path dest) (path_in_volume v meta_filename) w).0
                (files w (meta_key (root_path dest) v))
                (λ b f.
                  rw (components-path_in_volume (root_path dest) v name) at
                    (laws.read_data (root_path dest) (path_in_volume v meta_filename) w b f))
                (λ f.
                  rw (components-path_in_volume (root_path dest) v name) at
                    (laws.read_nothing (root_path dest) (path_in_volume v meta_filename) w f))
                h;
        }))

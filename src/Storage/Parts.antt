-- ===== src/Storage/Parts.antt =====
-- The chunks that src/service/executor/write_dest.rs writes are other files than the metadata.
use bbkar.Common.{ℕ, zero, suc, ◌-◌, ◌/◌, ◌==◌, ltb, ◌≡◌, ◌≢◌, refl, sym, ap, ◌∙◌}
use bbkar.Common.{arith, false, List, [], ◌∷◌, ◌++◌, All-append, replicate, length}
use bbkar.Common.{Option, Bool-cases, inl, inr}
use mathlib.Core.List.{append_assoc}
use bbkar.Common.Text.{Text, text}
use bbkar.Common.Io.{Leaves-bind}
use bbkar.ChunkWriter.{part_name}
use bbkar.ChunkWriter.Frame.{LeavesParts}
use bbkar.Config.{DestSpec, BackendSpec, local, s3, gcs, root_path, digits, display}
use bbkar.Storage.{Bytes, Storage, join, path_in_snapshot, trim_slashes, meta_filename}
use bbkar.Storage.Chunks.{
  ChunkStore, local_path, object_path, remote_open, open_next_chunk, write_output, close_output,
  chunk_output,
}
use bbkar.Storage.Laws.{Files, IsStorage}
use bbkar.Storage.Paths.{components-IsName}
use bbkar.Storage.Components.{components, components_from-slash, components-join}
use bbkar.Storage.Paths.{push_name-IsPlain, other-IsApart, meta_key}
use bbkar.Storage.Components.{trim_slashes-name}
use bbkar.Storage.Components.{IsName, IsPlain, IsApart}

-- What the files and the writers of chunks document: an operation touches its own file.
pub record IsChunkStore {W : Type 0} (store : ChunkStore W) (files : Files W) : Type 0 where
  pub create_other :
      (p : Text) (w : W) (k : List Text)
      → IsApart (components p) k
      → files (store.create p w).1 k ≡ files w k
  pub write_other :
      (p : Text) (d : Bytes) (w : W) (k : List Text)
      → IsApart (components p) k
      → files (store.write p d w).1 k ≡ files w k
  pub flush_keeps : (p : Text) (w : W) (k : List Text) → files (store.flush p w).1 k ≡ files w k
  pub open_other :
      (root p : Text) (w : W) (k : List Text)
      → IsApart (components (root ++ b'/' ∷ p)) k
      → files (store.open_writer root p w).1 k ≡ files w k
  pub write_writer_other :
      (root p : Text) (d : Bytes) (w : W) (k : List Text)
      → IsApart (components (root ++ b'/' ∷ p)) k
      → files (store.write_writer root p d w).1 k ≡ files w k
  pub close_other :
      (root p : Text) (w : W) (k : List Text)
      → IsApart (components (root ++ b'/' ∷ p)) k
      → files (store.close_writer root p w).1 k ≡ files w k

digits-IsName : (fuel n : ℕ) (acc : Text) → IsName acc → IsName (digits fuel n acc)
unfolding digits
digits-IsName zero n acc h = h
digits-IsName (suc fuel) n acc h = elim (Bool-cases (ltb n 10)) [
  | inl small ↦ rw small (ground arith, h)
  | inr large ↦ rw large (digits-IsName fuel (n / 10) _ (ground arith, h))
]

zeros-IsName : (k : ℕ) → IsName (replicate k b'0')
zeros-IsName zero = tt
zeros-IsName (suc k) = (refl, zeros-IsName k)

part_name-IsName : (n : ℕ) → IsName (part_name n)
unfolding part_name text display
part_name-IsName n =
    let no_slash = λ (c : ℕ). (c == b'/') ≡ false in
    (
      refl,
      (
        refl,
        (
          refl,
          (
            refl,
            All-append no_slash (replicate (6 - length (display n)) b'0') _ (zeros-IsName _) (
                All-append no_slash (display n) _ (digits-IsName (suc n) n [] tt) (
                  refl,
                  (
                    refl,
                    (refl, (refl, (refl, (refl, (refl, (refl, (refl, (refl, (refl, tt))))))))),
                  ),
                )),
          ),
        ),
      ),
    )

part_name-IsPlain : (n : ℕ) → IsPlain (part_name n)
unfolding part_name text
part_name-IsPlain n = (λ e. ground arith, λ e. ground arith, λ e. ground arith)

part_name-other : (n : ℕ) → part_name n ≢ meta_filename
unfolding part_name meta_filename text
part_name-other n e = ground arith

part_components : (n : ℕ) → components (part_name n) ≡ part_name n ∷ []
part_components n =
    components-IsName (part_name n) (part_name-IsName n)
    ∙ push_name-IsPlain (part_name n) (part_name-IsPlain n).0

module _ {W : Type 0} {storage : Storage W} {store : ChunkStore W} {files : Files W}
    (laws : IsStorage storage files) (chunk_laws : IsChunkStore store files) (dest : DestSpec)
    (volume snapshot : Text) (root u : Text) where
  part-IsApart : (n : ℕ) (p x : List Text) → p ≡ x ++ part_name n ∷ [] → IsApart p (meta_key root u)
  part-IsApart n p x e =
      other-IsApart root u (part_name n) p x e (part_name-IsPlain n) (part_name-other n)

  local-IsApart :
      (path : Text) (n : ℕ)
      → IsApart
          (components (local_path storage store dest volume snapshot path (part_name n)))
          (meta_key root u)
  local-IsApart path n =
      let base = join (join path volume) snapshot in
      part-IsApart n _ (components base) (
        components-join base (part_name n) (part_name-IsName n)
        ∙ ap (λ l. components base ++ l) (part_components n))

  object-IsApart :
      (n : ℕ)
      → IsApart
          (components
            (root_path dest ++ b'/' ∷ object_path storage store dest volume snapshot (part_name n)))
          (meta_key root u)
  unfolding path_in_snapshot
  object-IsApart n =
      let top = trim_slashes volume in
      let low = trim_slashes snapshot in
      let last = trim_slashes (part_name n) in
      part-IsApart n _ (components (root_path dest) ++ (components top ++ components low)) (
        components_from-slash (root_path dest) (top ++ b'/' ∷ (low ++ b'/' ∷ last)) []
        ∙ ap (λ l. components (root_path dest) ++ l)
            (components_from-slash top (low ++ b'/' ∷ last) []
              ∙ ap (λ l. components top ++ l)
                  (components_from-slash low last []
                    ∙ ap (λ s. components low ++ components s)
                        (trim_slashes-name (part_name n) (part_name-IsName n))
                    ∙ ap (λ l. components low ++ l) (part_components n))
              ∙ sym (append_assoc (components top) (components low) (part_name n ∷ [])))
        ∙ sym (
            append_assoc (components (root_path dest)) (components top ++ components low)
              (part_name n ∷ [])))

  -- The metadata of `u` is `d`.
  abbrev pub HasMeta : Option Bytes → W → Type 0
  HasMeta d w = files w (meta_key root u) ≡ d

  remote-HasMeta :
      (d : Option Bytes) (n : ℕ) (w : W)
      → HasMeta d w
      → HasMeta d (remote_open storage store dest volume snapshot (part_name n) w).1
  remote-HasMeta d n w h =
      Leaves-bind (HasMeta d) (storage.summon dest, w) _ h
        (λ op w₁ q. chunk_laws.open_other _ _ w₁ (meta_key root u) (object-IsApart n) ∙ q)

  open-HasMeta :
      (backend : BackendSpec) (d : Option Bytes) (n : ℕ) (w : W)
      → HasMeta d w
      → HasMeta d (open_next_chunk storage store dest volume snapshot backend (part_name n) w).1
  unfolding open_next_chunk
  open-HasMeta (local path) d n w h =
      Leaves-bind (HasMeta d) (storage.create_dir_all (join (join path volume) snapshot) w) _
        (laws.dir_keeps _ w (meta_key root u) ∙ h)
        (λ made w₁ q. chunk_laws.create_other _ w₁ (meta_key root u) (local-IsApart path n) ∙ q)
  open-HasMeta (s3 spec) d n w h = remote-HasMeta d n w h
  open-HasMeta (gcs spec) d n w h = remote-HasMeta d n w h

  write-HasMeta :
      (backend : BackendSpec) (d : Option Bytes) (n : ℕ) (buf : Bytes) (w : W)
      → HasMeta d w
      → HasMeta d (write_output storage store dest volume snapshot backend (part_name n) buf w).1
  unfolding write_output
  write-HasMeta (local path) d n buf w h =
      chunk_laws.write_other _ buf w (meta_key root u) (local-IsApart path n) ∙ h
  write-HasMeta (s3 spec) d n buf w h =
      chunk_laws.write_writer_other _ _ buf w (meta_key root u) (object-IsApart n) ∙ h
  write-HasMeta (gcs spec) d n buf w h =
      chunk_laws.write_writer_other _ _ buf w (meta_key root u) (object-IsApart n) ∙ h

  close-HasMeta :
      (backend : BackendSpec) (d : Option Bytes) (n : ℕ) (w : W)
      → HasMeta d w
      → HasMeta d (close_output storage store dest volume snapshot backend (part_name n) w).1
  unfolding close_output
  close-HasMeta (local path) d n w h = chunk_laws.flush_keeps _ w (meta_key root u) ∙ h
  close-HasMeta (s3 spec) d n w h =
      chunk_laws.close_other _ _ w (meta_key root u) (object-IsApart n) ∙ h
  close-HasMeta (gcs spec) d n w h =
      chunk_laws.close_other _ _ w (meta_key root u) (object-IsApart n) ∙ h

  pub chunk_output-LeavesParts :
      (d : Option Bytes) → LeavesParts (chunk_output storage store dest volume snapshot) (HasMeta d)
  chunk_output-LeavesParts d = record {
    open_leaves = open-HasMeta dest.backend_spec d;
    write_leaves = write-HasMeta dest.backend_spec d;
    close_leaves = close-HasMeta dest.backend_spec d;
  }

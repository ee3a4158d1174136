-- ===== src/Executor/Real.antt =====
-- src/service/executor/impl.rs: `RealExecutor`, for one source and one destination, and the laws of
-- its metadata. What lies outside is a parameter: the storage, the streams of btrfs and their
-- measurement, the calls that the encoder makes on the chunk writer for a stream, and the clock.
use bbkar.Common.{◌∙◌, sym, ℕ, ◌*◌, ◌%◌, ◌^◌, ◌≡◌, refl, ap, List}
use bbkar.Common.Br.{Br, ok}
use bbkar.Common.Io.{
  done, continue, continue_cong, continue_assoc, continue-done, Io, ◌>>=◌, lift, Ends-bind,
  Ends-lift, Anything,
}
use bbkar.Common.Text.{Text}
use bbkar.ChunkWriter.{
  ChunkedWriter, Bytes, Digest, write_calls, new, finish, write_and_finish, write_subvolume_to_dest,
}
use bbkar.ChunkWriter.Frame.{write_calls-Frame, finish-Frame}
use bbkar.Config.{DestSpec, root_path}
use bbkar.Dest.{ChunkFilename, VolumeArchive}
use bbkar.Executor.{Executor, Keeps, MeasureResult}
use bbkar.Storage.{Storage, Codec, inspect_dest_volume, write_metadata_to_dest}
use bbkar.Storage.Chunks.{ChunkStore, chunk_output, open_next_chunk, write_output, close_output}
use bbkar.Storage.Laws.{Files, IsStorage, IsCodec}
use bbkar.Storage.Metadata.{
  load, kept_at, write_metadata_to_dest-IsAtomic, inspect_dest_volume-kept_at,
}
use bbkar.Storage.Parts.{IsChunkStore, chunk_output-LeavesParts}
use bbkar.Storage.Paths.{meta_key}

-- The calls of the encoder on the writer for a stream, each with the value of the counter, and how
-- the stream ends: with the last value of the counter, or with an error.
pub record Encoded : Type 0 where
  pub calls : List (ℕ × Bytes)
  pub ended : Br ℕ

-- The source of one sync, its streams, and the clock
pub record Machine (W Stream : Type 0) : Type 0 where
  pub send_full : Text → Stream
  pub send_incremental : Text → Text → Stream
  pub encode : Stream → Encoded
  pub measure : Stream → Io W MeasureResult
  pub receive : Text → VolumeArchive → Text → Io W (Unit {0})
  pub clock : Io W ℕ

-- Measuring and the clock leave the files as they are.
pub record LeavesFiles {W Stream : Type 0} (machine : Machine W Stream) (files : Files W)
    : Type 0 where
  pub measure_leaves :
      (chunks : Stream) (w : W) (k : List Text) → files (machine.measure chunks w).1 k ≡ files w k
  pub clock_leaves : (w : W) (k : List Text) → files (machine.clock w).1 k ≡ files w k

module _ {W Stream H : Type 0} (storage : Storage W) (store : ChunkStore W) (codec : Codec)
    (digest : Digest H) (machine : Machine W Stream) (dest : DestSpec) where
  -- `write_subvolume_to_dest`, with an error in the stream
  unfoldable pub upload : Text → Text → ℕ → Stream → Io W (List ChunkFilename)
  unfolding write_calls new finish open_next_chunk write_output close_output
  upload volume snapshot max_chunk_size_mib chunks =
      let out = chunk_output storage store dest volume snapshot in
      let encoded = machine.encode chunks in
      do
        (st, written) ←
            write_calls out digest (new out digest (max_chunk_size_mib * 1024 * 1024 % 2 ^ 64))
              encoded.calls
        raw ← lift encoded.ended
        finish out digest raw st

  unfoldable pub real_executor : Executor W Stream
  unfolding inspect_dest_volume write_metadata_to_dest upload
  real_executor = record {
    inspect_dest_volume = inspect_dest_volume storage codec dest;
    read_subvolume_full = machine.send_full;
    read_subvolume_incremental = machine.send_incremental;
    write_metadata = write_metadata_to_dest storage codec dest;
    write_subvolume = upload;
    measure_subvolume = machine.measure;
    restore_archive = machine.receive;
    now_timestamp = machine.clock;
  }

module _ {W Stream H : Type 0} (storage : Storage W) (store : ChunkStore W) (codec : Codec)
    (digest : Digest H) (machine : Machine W Stream) (dest : DestSpec) where
  -- Of a stream without an error the upload is write_subvolume_to_dest, without the count of bytes.
  upload-write_subvolume_to_dest :
      (v snapshot : Text) (size : ℕ) (chunks : Stream) (raw : ℕ) (w : W)
      → (machine.encode chunks).ended ≡ ok raw
      → upload storage store codec digest machine dest v snapshot size chunks w
        ≡ continue
            (write_subvolume_to_dest
              (chunk_output storage store dest v snapshot)
              digest
              size
              (machine.encode chunks).calls
              raw
              w)
            (λ p. done p.0)
  unfolding upload write_subvolume_to_dest write_and_finish
  upload-write_subvolume_to_dest v snapshot size chunks raw w e =
      let out = chunk_output storage store dest v snapshot in
      let first : ChunkedWriter H = new out digest (size * 1024 * 1024 % 2 ^ 64) in
      let r = write_calls out digest first (machine.encode chunks).calls w in
      rw e (
        continue_cong r (λ (q : ChunkedWriter H × ℕ) w₁.
          let f = finish out digest raw q.0 w₁ in
          sym (continue_assoc f (λ files. done (files, q.1)) (λ p. done p.0) ∙ continue-done f))
        ∙ sym (
            continue_assoc r (λ q. finish out digest raw q.0 >>= λ files. done (files, q.1))
              (λ p. done p.0)))

module _ {W Stream H : Type 0} {storage : Storage W} {store : ChunkStore W} {codec : Codec}
    (digest : Digest H) {machine : Machine W Stream} {files : Files W}
    (laws : IsStorage storage files) (chunk_laws : IsChunkStore store files)
    (codec_laws : IsCodec codec) (leaves : LeavesFiles machine files) (dest : DestSpec) where
  upload_leaves :
      (v snapshot : Text) (size : ℕ) (chunks : Stream) (u : Text) (w : W)
      → files
          (upload storage store codec digest machine dest v snapshot size chunks w).1
          (meta_key (root_path dest) u)
        ≡ files w (meta_key (root_path dest) u)
  unfolding upload new
  upload_leaves v snapshot size chunks u w =
      let parts =
        chunk_output-LeavesParts laws chunk_laws dest v snapshot (root_path dest) u
          (files w (meta_key (root_path dest) u)) in
      (Ends-bind {R = λ a. Anything} _ _
        (write_calls-Frame digest parts _ (machine.encode chunks).calls w tt refl)
        (λ q w₁ p₁ q₁.
          Ends-bind {R = λ a. Anything} _ _
            (Ends-lift {Q = λ raw w'. w' ≡ w₁} (machine.encode chunks).ended w₁ p₁ (λ raw e. refl))
            (λ raw w₂ p₂ e.
              let ended = finish-Frame digest parts raw q.0 w₂ q₁.1 p₂ in
              record { always = ended.always; on_ok = λ a h. tt }))).always

  -- Over storage, a codec and a store of chunks that do what they document, and measuring and a
  -- clock
  -- that leave files alone: the executor that reads and writes the metadata with
  -- inspect_dest_volume
  -- and write_metadata_to_dest and uploads with the chunk writer satisfies Keeps, on every backend.
  -- What is stored of a volume is the metadata in the file at its path.
  pub real_executor-Keeps :
      Keeps (real_executor storage store codec digest machine dest) (kept_at laws codec_laws dest)
  unfolding real_executor
  real_executor-Keeps = record {
    inspect_keeps =
        λ v u w name. (inspect_dest_volume-kept_at laws codec_laws dest v w name.0).always u;
    inspect_reads =
        λ v w d name e. (inspect_dest_volume-kept_at laws codec_laws dest v w name.0).on_ok d e;
    now_keeps = λ v w. ap (load codec) (leaves.clock_leaves w (meta_key (root_path dest) v));
    upload_keeps =
        λ v snapshot size chunks u w. ap (load codec) (upload_leaves v snapshot size chunks u w);
    measure_keeps = λ chunks u w.
        ap (load codec) (leaves.measure_leaves chunks w (meta_key (root_path dest) u));
    write_whole = λ v m w name ordered.
        (write_metadata_to_dest-IsAtomic laws codec_laws dest v m w name ordered).always.whole;
    write_other = λ v u m w name named ordered other.
        (write_metadata_to_dest-IsAtomic laws codec_laws dest v m w name ordered).always.others u
          named other;
    write_ok = λ v m w name ordered e.
        (write_metadata_to_dest-IsAtomic laws codec_laws dest v m w name ordered).on_ok tt e;
  }

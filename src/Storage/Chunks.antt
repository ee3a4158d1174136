-- ===== src/Storage/Chunks.antt =====
-- src/service/executor/write_dest.rs: `open_next_chunk` and `ChunkOutput`, the files and the
-- objects
-- that chunks are written to. The file system and the OpenDAL writers are parameters; a file or a
-- writer that is open goes by its path.
use bbkar.Common.{ℕ}
use bbkar.Common.Io.{Io, ◌>>=◌, lift}
use bbkar.Common.Text.{Text}
use bbkar.ChunkWriter.{Output}
use bbkar.Config.{DestSpec, BackendSpec, local, s3, gcs, root_path}
use bbkar.Storage.{Bytes, Storage, join, path_in_snapshot}

-- `File::create`, `File::write` and `File::flush`, and an OpenDAL writer below a root
pub record ChunkStore (W : Type 0) : Type 0 where
  pub create : Text → Io W (Unit {0})
  pub write : Text → Bytes → Io W ℕ
  pub flush : Text → Io W (Unit {0})
  pub open_writer : Text → Text → Io W (Unit {0})
  pub write_writer : Text → Text → Bytes → Io W ℕ
  pub close_writer : Text → Text → Io W (Unit {0})

module _ {W : Type 0} (storage : Storage W) (store : ChunkStore W) (dest : DestSpec)
    (volume snapshot : Text) where
  abbrev pub local_path : Text → Text → Text
  local_path path filename = join (join (join path volume) snapshot) filename

  abbrev pub object_path : Text → Text
  object_path filename = path_in_snapshot volume snapshot filename

  abbrev pub remote_open : Text → Io W (Unit {0})
  remote_open filename = do
    op ← lift (storage.summon dest)
    store.open_writer (root_path dest) (object_path filename)

  unfoldable pub open_next_chunk : BackendSpec → Text → Io W (Unit {0})
  unfolding join path_in_snapshot root_path
  open_next_chunk (local path) filename = do
    made ← storage.create_dir_all (join (join path volume) snapshot)
    store.create (local_path path filename)
  open_next_chunk (s3 spec) filename = remote_open filename
  open_next_chunk (gcs spec) filename = remote_open filename

  -- `write` of a chunk that is open
  unfoldable pub write_output : BackendSpec → Text → Bytes → Io W ℕ
  unfolding join path_in_snapshot root_path
  write_output (local path) filename buf = store.write (local_path path filename) buf
  write_output (s3 spec) filename buf =
      store.write_writer (root_path dest) (object_path filename) buf
  write_output (gcs spec) filename buf =
      store.write_writer (root_path dest) (object_path filename) buf

  -- `close`
  unfoldable pub close_output : BackendSpec → Text → Io W (Unit {0})
  unfolding join path_in_snapshot root_path
  close_output (local path) filename = store.flush (local_path path filename)
  close_output (s3 spec) filename = store.close_writer (root_path dest) (object_path filename)
  close_output (gcs spec) filename = store.close_writer (root_path dest) (object_path filename)

  abbrev pub chunk_output : Output W
  chunk_output = record {
    open_chunk = open_next_chunk dest.backend_spec;
    write_chunk = write_output dest.backend_spec;
    close_chunk = close_output dest.backend_spec;
  }

-- ===== src/Storage.antt =====
-- src/service/executor/inspect_dest.rs, opendal.rs and write_metadata_to_dest of write_dest.rs:
-- where the metadata of a volume is kept. The file system, the OpenDAL operators and the YAML codec
-- are parameters.
pub mod Paths
pub mod Components
pub mod Laws
pub mod Write
pub mod Metadata
pub mod Chunks
pub mod Parts
use bbkar.Common.{ℕ, ◌==◌, Bool, true, false, Option, none, some, List, [], ◌∷◌, ◌++◌, get_last?}
use bbkar.Common.{if◌then◌else◌}
use bbkar.Common.Br.{Br, BbkarError, ok, err}
use bbkar.Common.Br
use bbkar.Common.Io.{Io, ◌>>=◌, done, lift}
use bbkar.Common.Text.{Text, text}
use bbkar.Config.{
  DestSpec, BackendSpec, local, s3, gcs, root_path, starts_with_slash, trim_start_slashes,
}
use bbkar.Config.{trim_end_slashes}
use bbkar.Dest.{DestMeta, DestState}
use bbkar.Dest

abbrev pub Bytes : Type 0
Bytes = List ℕ

-- `op.read`: the data, or the kind `NotFound`, or another error
pub data Found : Type 0 where
  data_of : Bytes → Found
  not_found : Found
  failed : BbkarError → Found

-- `fs::create_dir_all`, `fs::write`, `fs::rename`, and an OpenDAL operator by its root: `summon` is
-- the making of the operator, and what it reads and writes lies below its root.
pub record Storage (W : Type 0) : Type 0 where
  pub create_dir_all : Text → Io W (Unit {0})
  pub write_file : Text → Bytes → Io W (Unit {0})
  pub rename : Text → Text → Io W (Unit {0})
  pub summon : DestSpec → Br (Unit {0})
  pub op_read : Text → Text → W → Found × W
  pub op_write : Text → Text → Bytes → Io W (Unit {0})

-- `serde_yaml` on the metadata, with its fields as they are, and the UTF-8 of a text
pub record Codec : Type 0 where
  pub to_string : DestMeta → Br Text
  pub from_str : Text → Br DestMeta
  pub into_bytes : Text → Bytes
  pub from_utf8 : Bytes → Br Text

unfoldable pub meta_filename : Text
unfolding text
meta_filename = text "bbkar-meta.yaml"

unfoldable pub tmp_filename : Text
unfolding text
tmp_filename = text ".bbkar-meta.yaml.tmp"

-- `trim_matches('/')`
unfoldable pub trim_slashes : Text → Text
unfolding trim_start_slashes
trim_slashes s = trim_end_slashes (trim_start_slashes s)

unfoldable pub path_in_volume : Text → Text → Text
unfolding trim_slashes
path_in_volume volume name = trim_slashes volume ++ b'/' ∷ trim_slashes name

unfoldable pub path_in_snapshot : Text → Text → Text → Text
unfolding trim_slashes
path_in_snapshot volume snapshot name =
    trim_slashes volume ++ b'/' ∷ (trim_slashes snapshot ++ b'/' ∷ trim_slashes name)

abbrev pub ends_with_slash : Option ℕ → Bool
ends_with_slash none = false
ends_with_slash (some c) = c == b'/'

-- `Path::join`: an absolute path replaces the base.
unfoldable pub join : Text → Text → Text
join [] rest = rest
join (c ∷ base) rest =
    if starts_with_slash rest
    then rest
    else if ends_with_slash (get_last? (c ∷ base))
    then c ∷ (base ++ rest)
    else c ∷ (base ++ b'/' ∷ rest)

-- `Deserialize` of the metadata sorts its archives.
unfoldable pub decode : Codec → Bytes → Br DestMeta
unfolding Dest.new
decode codec data_bytes = Br.◌>>=◌ (codec.from_utf8 data_bytes) (λ content.
    Br.◌>>=◌ (codec.from_str content)
      (λ raw. ok (Dest.new raw.first_sync_timestamp raw.last_sync_timestamp raw.archives)))

unfoldable pub of_found : Codec → Found → Br DestState
unfolding decode
of_found codec (data_of data_bytes) =
    Br.◌>>=◌ (decode codec data_bytes) (λ meta. ok (record { meta = some meta }))
of_found codec not_found = ok (record { meta = none })
of_found codec (failed e) = err e

module _ {W : Type 0} (storage : Storage W) (codec : Codec) (dest : DestSpec) where
  -- On a local destination: all of it under another name first, which then replaces the old one.
  unfoldable pub replace_file : Text → Bytes → Io W (Unit {0})
  unfolding join meta_filename tmp_filename
  replace_file volume_dir content = do
    made ← storage.create_dir_all volume_dir
    written ← storage.write_file (join volume_dir tmp_filename) content
    storage.rename (join volume_dir tmp_filename) (join volume_dir meta_filename)

  unfoldable pub write_object : Text → Bytes → Io W (Unit {0})
  unfolding path_in_volume meta_filename root_path
  write_object volume content = do
    op ← lift (storage.summon dest)
    storage.op_write (root_path dest) (path_in_volume volume meta_filename) content

  -- The `match` on the backend
  unfoldable pub write_content : BackendSpec → Text → Bytes → Io W (Unit {0})
  unfolding replace_file write_object join
  write_content (local path) volume content = replace_file (join path volume) content
  write_content (s3 spec) volume content = write_object volume content
  write_content (gcs spec) volume content = write_object volume content

  unfoldable pub write_metadata_to_dest : Text → DestMeta → Io W (Unit {0})
  unfolding write_content
  write_metadata_to_dest volume meta = do
    content ← lift (codec.to_string meta)
    write_content dest.backend_spec volume (codec.into_bytes content)

  abbrev read_object : Text → Io W DestState
  read_object volume w =
      let (found, w') = storage.op_read (root_path dest) (path_in_volume volume meta_filename) w in
      (of_found codec found, w')

  unfoldable pub inspect_dest_volume : Text → Io W DestState
  unfolding of_found path_in_volume meta_filename root_path
  inspect_dest_volume volume = do op ← lift (storage.summon dest); read_object volume

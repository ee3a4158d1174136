-- ===== src/Storage/Laws.antt =====
-- What the storage and the YAML codec document: the interface that the metadata stands on.
use bbkar.Common.{◌≡◌, ◌⊎◌, Option, none, some, List, ◌∷◌}
use bbkar.Common.{◌++◌}
use bbkar.Common.Br.{ok}
use bbkar.Common.Text.{Text}
use bbkar.Dest.{DestMeta}
use bbkar.Storage.{Bytes, data_of, not_found, Storage, Codec}
use bbkar.Storage.Components.{components, IsApart}

-- The file, if there is one, that a path leads to in a world, by the components of the path
abbrev pub Files : Type 0 → Type 0
Files W = W → List Text → Option Bytes

-- What POSIX and OpenDAL document, of a destination without links to files: a write touches its own
-- file, so that a file that a path apart from it leads to is as it was; a rename replaces the
-- target as a
-- whole or does nothing; a read changes nothing and finds what is there; an object is written as a
-- whole or not at all.
pub record IsStorage {W : Type 0} (storage : Storage W) (files : Files W) : Type 0 where
  pub dir_keeps :
      (p : Text) (w : W) (k : List Text) → files (storage.create_dir_all p w).1 k ≡ files w k
  pub write_other :
      (p : Text) (d : Bytes) (w : W) (k : List Text)
      → IsApart (components p) k
      → files (storage.write_file p d w).1 k ≡ files w k
  pub write_ok :
      (p : Text) (d : Bytes) (w : W)
      → (storage.write_file p d w).0 ≡ ok tt
      → files (storage.write_file p d w).1 (components p) ≡ some d
  -- What is renamed is a file, not a directory with files below it.
  pub rename_other :
      (a b : Text) (d : Bytes) (w : W) (k : List Text)
      → files w (components a) ≡ some d
      → IsApart (components a) k
      → IsApart (components b) k
      → files (storage.rename a b w).1 k ≡ files w k
  pub rename_whole :
      (a b : Text) (w : W)
      → (files (storage.rename a b w).1 (components b) ≡ files w (components b))
        ⊎ (files (storage.rename a b w).1 (components b) ≡ files w (components a))
  pub rename_ok :
      (a b : Text) (w : W)
      → (storage.rename a b w).0 ≡ ok tt
      → files (storage.rename a b w).1 (components b) ≡ files w (components a)
  pub read_keeps :
      (root p : Text) (w : W) (k : List Text) → files (storage.op_read root p w).1 k ≡ files w k
  pub read_data :
      (root p : Text) (w : W) (d : Bytes)
      → (storage.op_read root p w).0 ≡ data_of d
      → files w (components (root ++ b'/' ∷ p)) ≡ some d
  pub read_nothing :
      (root p : Text) (w : W)
      → (storage.op_read root p w).0 ≡ not_found
      → files w (components (root ++ b'/' ∷ p)) ≡ none
  pub object_other :
      (root p : Text) (d : Bytes) (w : W) (k : List Text)
      → IsApart (components (root ++ b'/' ∷ p)) k
      → files (storage.op_write root p d w).1 k ≡ files w k
  pub object_whole :
      (root p : Text) (d : Bytes) (w : W)
      → (files (storage.op_write root p d w).1 (components (root ++ b'/' ∷ p))
          ≡ files w (components (root ++ b'/' ∷ p)))
        ⊎ (files (storage.op_write root p d w).1 (components (root ++ b'/' ∷ p)) ≡ some d)
  pub object_ok :
      (root p : Text) (d : Bytes) (w : W)
      → (storage.op_write root p d w).0 ≡ ok tt
      → files (storage.op_write root p d w).1 (components (root ++ b'/' ∷ p)) ≡ some d

-- What is written is read again.
pub record IsCodec (codec : Codec) : Type 0 where
  pub from_utf8_into_bytes : (c : Text) → codec.from_utf8 (codec.into_bytes c) ≡ ok c
  pub from_str_to_string :
      (m : DestMeta) (c : Text) → codec.to_string m ≡ ok c → codec.from_str c ≡ ok m

-- ===== src/Dest.antt =====
-- src/model/dest.rs: the metadata of a backup location, `LOCATION/VOLUME/bbkar-meta.yaml`.
pub mod Lookup
use bbkar.Common.{ℕ, ◌+◌, ◌%◌, ◌^◌, Bool, true, false, Option, none, some, List, [], ◌∷◌, ◌++◌}
use bbkar.Common.{head?, get_last?}
use bbkar.Common.Sort.{sort}
use bbkar.Common.Text.{Text}
use bbkar.Timestamp.{Timestamp, timestamp_order}

pub record ChunkFilename : Type 0 where
  pub filename : Text
  pub size : ℕ
  pub sha256sum : Option Text
  pub compression : Option Text
  pub raw_size : Option ℕ

pub record VolumeArchive : Type 0 where
  pub timestamp : Timestamp
  pub parent_timestamp : Option Text
  pub chunks : List ChunkFilename

pub record DestMeta : Type 0 where
  pub first_sync_timestamp : ℕ
  pub last_sync_timestamp : ℕ
  pub archives : List VolumeArchive

pub record DestState : Type 0 where
  pub meta : Option DestMeta

abbrev pub sort_archives : List VolumeArchive → List VolumeArchive
sort_archives = sort timestamp_order (λ a. a.timestamp)

-- Loading the metadata goes through `new` too, so that the archives are sorted.
unfoldable pub new : ℕ → ℕ → List VolumeArchive → DestMeta
unfolding sort
new first last archives = record {
  first_sync_timestamp = first;
  last_sync_timestamp = last;
  archives = sort_archives archives;
}

unfoldable pub oldest_archive : DestMeta → Option VolumeArchive
oldest_archive m = head? m.archives

unfoldable pub newest_archive : DestMeta → Option VolumeArchive
newest_archive m = get_last? m.archives

unfoldable pub add_archive : DestMeta → VolumeArchive → DestMeta
unfolding sort
add_archive m a = record m { archives = sort_archives (m.archives ++ a ∷ []) }

unfoldable pub set_last_sync_timestamp : DestMeta → ℕ → DestMeta
set_last_sync_timestamp m ts = record m { last_sync_timestamp = ts }

unfoldable pub is_incremental : VolumeArchive → Bool
is_incremental a = elim a.parent_timestamp [ none ↦ false | some p ↦ true ]

-- `u64` addition, which wraps in a release build
abbrev pub add_u64 : ℕ → ℕ → ℕ
add_u64 a b = (a + b) % 2 ^ 64

sum_sizes : ℕ → List ChunkFilename → ℕ
sum_sizes acc [] = acc
sum_sizes acc (c ∷ cs) = sum_sizes (add_u64 acc c.size) cs

unfoldable pub total_size : VolumeArchive → ℕ
unfolding sum_sizes
total_size a = sum_sizes 0 a.chunks

-- `try_fold`: the first chunk with no raw size ends it.
fold_raw_sizes : ℕ → List ChunkFilename → Option ℕ
fold_raw_sizes acc [] = some acc
fold_raw_sizes acc (c ∷ cs) = elim c.raw_size [
  | none ↦ none
  | some size ↦ fold_raw_sizes (add_u64 acc size) cs
]

unfoldable pub total_raw_size : VolumeArchive → Option ℕ
unfolding fold_raw_sizes
total_raw_size a = fold_raw_sizes 0 a.chunks

-- ===== src/Stats.antt =====
-- src/cli/mod.rs: `ArchiveStats`, the counts and sizes that the commands print.
use bbkar.Common.{ℕ, Bool, Option, none, some, List, [], ◌∷◌, if◌then◌else◌}
use bbkar.Dest.{VolumeArchive, DestMeta, add_u64, is_incremental, total_size}

pub record ArchiveStats : Type 0 where
  pub all_count : ℕ
  pub all_size : ℕ
  pub full_count : ℕ
  pub full_size : ℕ
  pub incremental_count : ℕ
  pub incremental_size : ℕ

abbrev pub default : ArchiveStats
default = record {
  all_count = 0;
  all_size = 0;
  full_count = 0;
  full_size = 0;
  incremental_count = 0;
  incremental_size = 0;
}

-- The sizes and the counts are `u64` and `usize`, of 64 bits.
unfoldable pub add_size : ArchiveStats → Bool → ℕ → ArchiveStats
add_size s incremental size =
    if incremental
    then record {
      all_count = add_u64 s.all_count 1;
      all_size = add_u64 s.all_size size;
      full_count = s.full_count;
      full_size = s.full_size;
      incremental_count = add_u64 s.incremental_count 1;
      incremental_size = add_u64 s.incremental_size size;
    }
    else record {
      all_count = add_u64 s.all_count 1;
      all_size = add_u64 s.all_size size;
      full_count = add_u64 s.full_count 1;
      full_size = add_u64 s.full_size size;
      incremental_count = s.incremental_count;
      incremental_size = s.incremental_size;
    }

unfoldable pub add_archive : ArchiveStats → VolumeArchive → ArchiveStats
unfolding add_size is_incremental total_size
add_archive s archive = add_size s (is_incremental archive) (total_size archive)

pub add_archives : ArchiveStats → List VolumeArchive → ArchiveStats
unfolding add_archive
add_archives s [] = s
add_archives s (a ∷ l) = add_archives (add_archive s a) l

unfoldable pub from_meta : Option DestMeta → ArchiveStats
unfolding add_archives
from_meta none = default
from_meta (some meta) = add_archives default meta.archives

unfoldable pub merge : ArchiveStats → ArchiveStats → ArchiveStats
merge s other = record {
  all_count = add_u64 s.all_count other.all_count;
  all_size = add_u64 s.all_size other.all_size;
  full_count = add_u64 s.full_count other.full_count;
  full_size = add_u64 s.full_size other.full_size;
  incremental_count = add_u64 s.incremental_count other.incremental_count;
  incremental_size = add_u64 s.incremental_size other.incremental_size;
}

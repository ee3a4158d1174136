-- ===== src/Tests/Configuring.antt =====
-- Configurations, durations and the chunk writer at concrete inputs.
use bbkar.Common.{
  none, ℕ, ◌≡◌, refl, ◌≤◌, ◌^◌, ◌*◌, ◌+◌, arith, Option, some, List, [], ◌∷◌, All, length, subst,
}
use bbkar.Common.Br.{ok, ok_injective}
use bbkar.Common.Text.{Text}
use bbkar.ChunkWriter.{Bytes, Output, Digest, write_subvolume_to_dest}
use bbkar.ChunkWriter.Sizes.{sum_of, SizesBelow, TakesPart, write_subvolume_to_dest-SizesBelow}
use bbkar.ChunkReader.{ChunkStreamReader, read}
use bbkar.ChunkReader.Stream.{Yields, read-Yields}
use bbkar.Config.{BbkarConfigFile, local, from_config}
use bbkar.Config.Valid.{IsValidSync, from_config-IsValidSync}
use bbkar.Dest.{ChunkFilename}
use bbkar.Duration.{CalendarDuration, parse_duration}
use bbkar.Duration.Ascii.{IsAscii, parse_duration-IsAscii}
use bbkar.Policy.{SyncSpec}

abbrev pub slash : Text
slash = b'/' ∷ []

abbrev pub one_name : Text
one_name = b'a' ∷ []

abbrev pub sync_spec : SyncSpec
sync_spec = record {
  source = one_name;
  dest = one_name;
  filter = (b'*' ∷ []) ∷ [];
  min_full_send_interval = b'1' ∷ b'w' ∷ [];
  max_incremental_depth = some 3;
  archive_preserve_min = b'a' ∷ b'l' ∷ b'l' ∷ [];
  archive_preserve = some (b'3' ∷ b'0' ∷ b'd' ∷ b' ' ∷ b'*' ∷ b'y' ∷ []);
  preserve_day_of_week = b'S' ∷ b'u' ∷ b'n' ∷ b'd' ∷ b'a' ∷ b'y' ∷ [];
}

abbrev pub with_path : Text → BbkarConfigFile
with_path path = record {
  global = record {
    compression = b'z' ∷ b's' ∷ b't' ∷ b'd' ∷ [];
    max_backup_chunk_size = 32;
    btrfs_send_concurrency = 1;
    write_archive_concurrency = 1;
  };
  source = (one_name, record { path = path; filter = (b'*' ∷ []) ∷ [] }) ∷ [];
  dest = (one_name, record { backend_spec = local slash }) ∷ [];
  sync = (one_name, sync_spec) ∷ [];
}

accepted :
    from_config (with_path (b'/' ∷ b's' ∷ b'/' ∷ b'/' ∷ [])) ≡ ok (with_path (b'/' ∷ b's' ∷ []))
unfolding from_config
accepted = refl

from_config-IsValidSync_example :
    All
      (λ (s : Text × SyncSpec). IsValidSync (with_path (b'/' ∷ b's' ∷ [])) s.1)
      ((one_name, sync_spec) ∷ [])
    × (1 ≤ 32)
    × (32 ≤ 2048)
from_config-IsValidSync_example =
    from_config-IsValidSync (with_path (b'/' ∷ b's' ∷ b'/' ∷ b'/' ∷ [])) accepted

three_weeks-IsAscii : IsAscii (b' ' ∷ b'3' ∷ b'w' ∷ [])
three_weeks-IsAscii = (omega arith, (omega arith, (omega arith, tt)))

parse_duration-IsAscii_example :
    (d : Option CalendarDuration) × (parse_duration (b' ' ∷ b'3' ∷ b'w' ∷ []) ≡ ok d)
parse_duration-IsAscii_example =
    parse_duration-IsAscii (b' ' ∷ b'3' ∷ b'w' ∷ []) three_weeks-IsAscii

-- A digest that keeps nothing, and files that take one byte less than they are given
abbrev pub no_digest : Digest (Unit {0})
no_digest = record { start = tt; update = λ h buf. tt; finalize = λ h. [] }

abbrev pub but_one : Bytes → ℕ
but_one [] = 0
but_one (b ∷ buf) = length buf

abbrev slow_files : Output (Unit {0})
slow_files = record {
  open_chunk = λ name w. (ok tt, w);
  write_chunk = λ name buf w. (ok (but_one buf), w);
  close_chunk = λ name w. (ok tt, w);
}

pub but_one-le : (buf : Bytes) → but_one buf ≤ length buf
but_one-le [] = omega arith
but_one-le (b ∷ buf) = omega arith

slow_files-TakesPart : TakesPart slow_files
slow_files-TakesPart file buf w n e = subst (λ m. m ≤ length buf) (ok_injective e) (but_one-le buf)

abbrev pub calls : List (ℕ × Bytes)
calls = (9, 1 ∷ 2 ∷ 3 ∷ []) ∷ (12, 3 ∷ []) ∷ (12, 5 ∷ 6 ∷ []) ∷ []

abbrev chunk_files : List ChunkFilename
chunk_files =
    record {
      filename =
          b'p' ∷ b'a' ∷ b'r' ∷ b't' ∷ b'0' ∷ b'0' ∷ b'0' ∷ b'0' ∷ b'0' ∷ b'1' ∷ b'.' ∷ b'b' ∷ b't'
          ∷ b'r' ∷ b'f' ∷ b's' ∷ b'.' ∷ b'z' ∷ b's' ∷ b't' ∷ b'd' ∷ [];
      size = 3;
      sha256sum = some [];
      compression = some (b'z' ∷ b's' ∷ b't' ∷ b'd' ∷ []);
      raw_size = some 12;
    }
    ∷ []

wrote : (write_subvolume_to_dest slow_files no_digest 1 calls 12 tt).0 ≡ ok (chunk_files, 3)
unfolding write_subvolume_to_dest
wrote = refl

write_subvolume_to_dest-SizesBelow_example :
    (sum_of chunk_files ≡ 3) × SizesBelow (1 * 2 ^ 20 + 3) chunk_files
write_subvolume_to_dest-SizesBelow_example =
    write_subvolume_to_dest-SizesBelow slow_files no_digest 1 3 calls 12 tt slow_files-TakesPart
      (omega arith) (omega arith) (omega arith) (omega arith, (omega arith, (omega arith, tt)))
      wrote

-- Two chunks, of the bytes of their names
abbrev reader : ChunkStreamReader
reader = record {
  chunk_filenames = (1 ∷ 2 ∷ 3 ∷ []) ∷ (4 ∷ []) ∷ [];
  current_idx = 0;
  current_cursor = none;
}

abbrev same_bytes : Text → Bytes
same_bytes name = name

read-Yields_example :
    (r : Bytes × ChunkStreamReader) × (read (λ name. ok (same_bytes name)) 3 2 reader ≡ ok r)
    × Yields same_bytes (λ name. ok (same_bytes name)) (λ name. refl) 2 reader r
read-Yields_example =
    read-Yields same_bytes (λ name. ok (same_bytes name)) (λ name. refl) 3 2 reader (omega arith)
      (omega arith)

-- ===== src/ChunkWriter.antt =====
-- src/service/executor/write_dest.rs: `ChunkedWriter`, which splits the compressed stream into
-- numbered files. The files and the digest are parameters; the clock's readings, which are only
-- printed, are left out. `raw` is the value of the shared counter at the call.
pub mod Sizes
pub mod Names
pub mod Frame
use bbkar.Common.{
  ℕ, zero, suc, ◌+◌, ◌-◌, ◌%◌, ◌^◌, ◌*◌, leb, ltb, Bool, true, false, ◌||◌, Option, none, some,
}
use bbkar.Common.{List, [], ◌∷◌, ◌++◌, replicate, length, take, if◌then◌else◌, is_some, not}
use bbkar.Common.Br.{Br, unwrap}
use bbkar.Common.Io.{Io, ◌>>=◌, done, lift}
use bbkar.Common.Text.{Text, text}
use bbkar.Config.{display}
use bbkar.Dest.{ChunkFilename, add_u64}

abbrev pub Bytes : Type 0
Bytes = List ℕ

-- `ChunkOutput`, local or remote, by the name of its chunk; a write may take only a part.
pub record Output (W : Type 0) : Type 0 where
  pub open_chunk : Text → Io W (Unit {0})
  pub write_chunk : Text → Bytes → Io W ℕ
  pub close_chunk : Text → Io W (Unit {0})

-- `Sha256` of the crate sha2, with the hexadecimal text of the result
pub record Digest (H : Type 0) : Type 0 where
  pub start : H
  pub update : H → Bytes → H
  pub finalize : H → Text

pub record ChunkedWriter (H : Type 0) : Type 0 where
  pub max_chunk_bytes : ℕ
  pub current_file : Option Text
  pub current_filename : Text
  pub current_size : ℕ
  pub part_number : ℕ
  pub written_chunks : List ChunkFilename
  pub current_hasher : H
  pub raw_at_last_roll : ℕ

-- `format!("part{:06}.btrfs.zstd", n)`
unfoldable pub part_name : ℕ → Text
unfolding display text
part_name n =
    text "part" ++ (replicate (6 - length (display n)) b'0' ++ (display n ++ text ".btrfs.zstd"))

module _ {W H : Type 0} (out : Output W) (digest : Digest H) where
  unfoldable pub new : ℕ → ChunkedWriter H
  new max = record {
    max_chunk_bytes = max;
    current_file = none;
    current_filename = [];
    current_size = 0;
    part_number = 0;
    written_chunks = [];
    current_hasher = digest.start;
    raw_at_last_roll = 0;
  }

  -- The entry for the chunk that is closed; its size is cut to 32 bits.
  unfoldable pub chunk_entry : ℕ → ChunkedWriter H → ChunkFilename
  unfolding text
  chunk_entry raw st = record {
    filename = st.current_filename;
    size = st.current_size % 2 ^ 32;
    compression = some (text "zstd");
    raw_size = some ((raw + 2 ^ 64 - st.raw_at_last_roll) % 2 ^ 64);
    sha256sum = some (digest.finalize st.current_hasher);
  }

  unfoldable pub closed : ℕ → ChunkedWriter H → ChunkedWriter H
  unfolding chunk_entry
  closed raw st = record st {
    written_chunks = st.written_chunks ++ chunk_entry raw st ∷ [];
    raw_at_last_roll = raw;
    current_hasher = digest.start;
    current_file = none;
  }

  unfoldable pub finalize_file : ℕ → ChunkedWriter H → Option Text → Io W (ChunkedWriter H)
  unfolding closed
  finalize_file raw st none = done st
  finalize_file raw st (some file) = out.close_chunk file >>= λ u. done (closed raw st)

  abbrev pub finalize_current : ℕ → ChunkedWriter H → Io W (ChunkedWriter H)
  finalize_current raw st = finalize_file raw st st.current_file

  abbrev pub next_part : ChunkedWriter H → ℕ
  next_part st = (st.part_number + 1) % 2 ^ 32

  unfoldable pub opened : ChunkedWriter H → ChunkedWriter H
  unfolding part_name
  opened st = record st {
    part_number = next_part st;
    current_file = some (part_name (next_part st));
    current_filename = part_name (next_part st);
    current_size = 0;
    current_hasher = digest.start;
  }

  unfoldable pub roll_next : ℕ → ChunkedWriter H → Io W (ChunkedWriter H)
  unfolding finalize_file opened part_name
  roll_next raw st = do
    st' ← finalize_current raw st
    u ← out.open_chunk (part_name (next_part st'))
    done (opened st')

  unfoldable pub must_roll : ChunkedWriter H → Bool
  must_roll st = not (is_some st.current_file) || leb st.max_chunk_bytes st.current_size

  abbrev pub roll_if : Bool → ℕ → ChunkedWriter H → Io W (ChunkedWriter H)
  roll_if true raw st = roll_next raw st
  roll_if false raw st = done st

  -- The roll before a write, if there is no file or it has reached its size
  unfoldable pub start_write : ℕ → ChunkedWriter H → Io W (ChunkedWriter H)
  unfolding roll_next must_roll
  start_write raw st = roll_if (must_roll st) raw st

  -- `Write::write`
  unfoldable pub write : ℕ → ChunkedWriter H → Bytes → Io W (ChunkedWriter H × ℕ)
  unfolding start_write
  write raw st buf = do
    st' ← start_write raw st
    file ← lift (unwrap st'.current_file)
    written ← out.write_chunk file buf
    done (
      record st' {
        current_hasher = digest.update st'.current_hasher (take written buf);
        current_size = add_u64 st'.current_size written;
      },
      written,
    )

  unfoldable pub finish : ℕ → ChunkedWriter H → Io W (List ChunkFilename)
  unfolding finalize_file
  finish raw st = do st' ← finalize_current raw st; done st'.written_chunks

  -- The calls that the encoder makes, each with the counter at that time, and the bytes they took
  unfoldable pub write_calls : ChunkedWriter H → List (ℕ × Bytes) → Io W (ChunkedWriter H × ℕ)
  unfolding write
  write_calls st [] = done (st, 0)
  write_calls st ((raw, buf) ∷ calls) = do
    (st', n) ← write raw st buf
    (st'', m) ← write_calls st' calls
    done (st'', n + m)

  unfoldable pub write_and_finish : ℕ → List (ℕ × Bytes) → ℕ → Io W (List ChunkFilename × ℕ)
  unfolding new write_calls finish
  write_and_finish max_chunk_bytes calls raw = do
    (st, written) ← write_calls (new max_chunk_bytes) calls
    chunk_files ← finish raw st
    done (chunk_files, written)

  -- `write_subvolume_to_dest`, with the calls of the encoder and the last value of the counter
  unfoldable pub write_subvolume_to_dest : ℕ → List (ℕ × Bytes) → ℕ → Io W (List ChunkFilename × ℕ)
  unfolding write_and_finish
  write_subvolume_to_dest max_chunk_size_mib calls raw =
      write_and_finish (max_chunk_size_mib * 1024 * 1024 % 2 ^ 64) calls raw

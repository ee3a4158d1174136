-- ===== src/ChunkReader.antt =====
-- src/service/executor/read_dest.rs: `ChunkStreamReader`, which reads the chunks of an archive one
-- after the other. The read of an object is a parameter. The loop of `read` runs on fuel.
pub mod Stream
pub mod Parts
pub mod Written
use bbkar.Common.{
  ℕ, zero, suc, ◌+◌, Option, none, some, List, [], ◌∷◌, ◌++◌, map, take, drop, length,
}
use bbkar.Common.Br.{Br, ok, out_of_fuel, ◌>>=◌}
use bbkar.Common.Text.{Text}
use bbkar.ChunkWriter.{Bytes}
use bbkar.Dest.{VolumeArchive}

-- The cursor is what it has not yielded yet.
pub record ChunkStreamReader : Type 0 where
  pub chunk_filenames : List Text
  pub current_idx : ℕ
  pub current_cursor : Option Bytes

unfoldable pub new : VolumeArchive → ChunkStreamReader
new archive = record {
  chunk_filenames = map (λ c. c.filename) archive.chunks;
  current_idx = 0;
  current_cursor = none;
}

-- `Cursor::read` into a buffer: as much as fits
abbrev pub cursor_read : ℕ → Option Bytes → Bytes
cursor_read size none = []
cursor_read size (some bytes) = take size bytes

abbrev pub cursor_rest : ℕ → Option Bytes → Option Bytes
cursor_rest size none = none
cursor_rest size (some bytes) = some (drop size bytes)

module _ (read_object : Text → Br Bytes) where
  abbrev load_first : ChunkStreamReader → List Text → Br (Option ChunkStreamReader)
  load_first st [] = ok none
  load_first st (name ∷ names) = do
    data_read ← read_object name
    ok (some (record st { current_cursor = some data_read; current_idx = st.current_idx + 1 }))

  -- `none` stands for the answer `false`, at the end of the archive.
  unfoldable pub load_next_chunk : ChunkStreamReader → Br (Option ChunkStreamReader)
  load_next_chunk st = load_first st (drop st.current_idx st.chunk_filenames)

  -- `read` into a buffer of `size` bytes: the bytes read and the reader after it
  unfoldable pub read : ℕ → ℕ → ChunkStreamReader → Br (Bytes × ChunkStreamReader)
  unfolding load_next_chunk
  read zero size st = out_of_fuel
  read (suc fuel) size st =
      let again = λ (st' : ChunkStreamReader). read fuel size st' in
      elim (cursor_read size st.current_cursor) [
        | ◌∷◌ b bytes ↦
            ok (b ∷ bytes, record st { current_cursor = cursor_rest size st.current_cursor })
        | [] ↦
            load_next_chunk st >>= λ next. elim next [ none ↦ ok ([], st) | some st' ↦ again st' ]
      ]

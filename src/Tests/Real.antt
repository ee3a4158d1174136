-- ===== src/Tests/Real.antt =====
-- The executor of the program, over storage in memory.
use bbkar.Common.{ℕ, ◌≡◌, refl, Option, none, some, List, [], ◌∷◌, ◌++◌, length}
use bbkar.Common.Br.{ok}
use bbkar.Common.Br
use bbkar.Common.Text.{Text}
use bbkar.ChunkWriter.{Digest}
use bbkar.Config.{DestSpec, local}
use bbkar.Dest.{DestMeta, DestState}
use bbkar.Dest
use bbkar.Executor.{Executor, Keeps, Works}
use bbkar.Executor.Real.{Machine, LeavesFiles, real_executor, real_executor-Keeps, upload}
use bbkar.Storage.{Bytes, inspect_dest_volume, write_metadata_to_dest, decode, of_found, data_of}
use bbkar.Storage.Chunks.{ChunkStore}
use bbkar.Storage.Metadata.{kept_at}
use bbkar.Storage.Parts.{IsChunkStore}
use bbkar.Storage.Components.{components}
use bbkar.Tests.Coding.{meta, meta_or_empty, total_codec, total_codec-IsCodec}
use bbkar.Tests.Storing.{Memory, found_of, put, put_other, under, memory, memory-IsStorage}

abbrev pub or_nothing : Option Bytes → Bytes
or_nothing none = []
or_nothing (some d) = d

-- The files and writers of chunks, which take what they are given
unfoldable pub chunks_in_memory : ChunkStore Memory
unfolding put
chunks_in_memory = record {
  create = λ p w. (ok tt, put (components p) (some []) w);
  write =
      λ p d w. (ok (length d), put (components p) (some (or_nothing (w (components p)) ++ d)) w);
  flush = λ p w. (ok tt, w);
  open_writer = λ root p w. (ok tt, put (under root p) (some []) w);
  write_writer = λ root p d w.
      (ok (length d), put (under root p) (some (or_nothing (w (under root p)) ++ d)) w);
  close_writer = λ root p w. (ok tt, w);
}

pub chunks_in_memory-IsChunkStore : IsChunkStore chunks_in_memory (λ w. w)
unfolding chunks_in_memory
chunks_in_memory-IsChunkStore = record {
  create_other = λ p w k apart. put_other (components p) _ w k apart;
  write_other = λ p d w k apart. put_other (components p) _ w k apart;
  flush_keeps = λ p w k. refl;
  open_other = λ root p w k apart. put_other (under root p) _ w k apart;
  write_writer_other = λ root p d w k apart. put_other (under root p) _ w k apart;
  close_other = λ root p w k apart. refl;
}

-- A machine whose streams are compressed to two bytes
abbrev pub two_bytes : Machine Memory (Unit {0})
two_bytes = record {
  send_full = λ s. tt;
  send_incremental = λ s p. tt;
  encode = λ s. record { calls = (3, 1 ∷ 2 ∷ []) ∷ []; ended = ok 3 };
  measure = λ s w. (ok (record { compressed = 2; uncompressed = 3 }), w);
  receive = λ v a root w. (ok tt, w);
  clock = λ w. (ok 7, w);
}

pub two_bytes-LeavesFiles : LeavesFiles two_bytes (λ w. w)
two_bytes-LeavesFiles = record { measure_leaves = λ s w k. refl; clock_leaves = λ w k. refl }

-- A digest that keeps nothing
abbrev pub nothing_kept : Digest (Unit {0})
nothing_kept = record { start = tt; update = λ h buf. tt; finalize = λ h. [] }

abbrev pub backup : DestSpec
backup = record { backend_spec = local (b'/' ∷ b'd' ∷ []) }

abbrev pub in_memory : Executor Memory (Unit {0})
in_memory = real_executor memory chunks_in_memory total_codec nothing_kept two_bytes backup

abbrev pub meta_in_memory : Memory → Text → Option DestMeta
meta_in_memory = kept_at memory-IsStorage total_codec-IsCodec backup

pub in_memory-Keeps : Keeps in_memory meta_in_memory
in_memory-Keeps =
    real_executor-Keeps nothing_kept memory-IsStorage chunks_in_memory-IsChunkStore
      total_codec-IsCodec two_bytes-LeavesFiles backup

-- Any world
abbrev pub Any : Memory → Type 0
Any w = Unit

read_from :
    (r : Option (DestMeta × List ℕ))
    → (x : DestState) × (Br.◌>>=◌
          (Br.◌>>=◌
            (meta_or_empty r)
            (λ raw. ok (Dest.new raw.first_sync_timestamp raw.last_sync_timestamp raw.archives)))
          (λ m. ok (record { meta = some m }))
        ≡ ok x)
read_from none = (_, refl)
read_from (some r) = (_, refl)

read_ok : (d : Bytes) → (x : DestState) × (of_found total_codec (data_of d) ≡ ok x)
unfolding of_found decode
read_ok d = read_from (meta.get d)

found_ok : (o : Option Bytes) → (x : DestState) × (of_found total_codec (found_of o) ≡ ok x)
unfolding of_found
found_ok none = (_, refl)
found_ok (some d) = read_ok d

pub in_memory-Works : Works in_memory Any
unfolding real_executor upload inspect_dest_volume write_metadata_to_dest memory chunks_in_memory
in_memory-Works = record {
  inspect_works = λ v w named fine. (found_ok _, tt);
  now_works = λ w fine. ((_, refl), tt);
  upload_works = λ v s size chunks w fine. ((_, refl), tt);
  write_works = λ v m w named ordered fine. ((_, refl), tt);
}

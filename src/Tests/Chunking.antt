-- ===== src/Tests/Chunking.antt =====
-- Chunks that are written to files and read from there.
use bbkar.Common.{
  List, ◌*◌, ◌%◌, ◌^◌, ℕ, ◌≡◌, refl, subst, ◌≤◌, arith, some, none, [], ◌∷◌, ◌++◌, take, length,
}
use bbkar.Common.{if◌then◌else◌}
use bbkar.Common.Br.{ok, ok_injective}
use bbkar.Common.Text.{Text, text, text_eq, text_eq_refl, text_eq_iff}
use bbkar.ChunkReader
use bbkar.ChunkReader.Stream.{unread}
use bbkar.ChunkReader.Parts.{IsFiles}
use bbkar.ChunkReader.Written.{answers, accepted, AreAnswers, write_subvolume_to_dest-unread}
use bbkar.ChunkWriter.{Bytes, Output, new, part_name, write_subvolume_to_dest}
use bbkar.ChunkWriter.Sizes.{TakesPart}
use bbkar.Dest.{ChunkFilename, VolumeArchive}
use bbkar.Tests.Configuring.{no_digest, but_one, but_one-le, calls}
use bbkar.Tests.Data.{snapshot}

abbrev Files : Type 0
Files = Text → Bytes

abbrev put : Text → Bytes → Files → Files
put f bytes w u = if text_eq u f then bytes else w u

-- Files in memory, which take one byte less than they are given
abbrev memory : Output Files
memory = record {
  open_chunk = λ f w. (ok tt, put f [] w);
  write_chunk = λ f buf w. (ok (but_one buf), put f (w f ++ take (but_one buf) buf) w);
  close_chunk = λ f w. (ok tt, w);
}

abbrev content : Files → Text → Bytes
content w = w

memory-IsFiles : IsFiles memory content
memory-IsFiles = record {
  open_empty = λ f w e. rw (text_eq_refl f) refl;
  open_other = λ f u w h. ground (arith, text_eq_iff u f);
  write_appends = λ f buf w n e.
      subst (λ m. content (memory.write_chunk f buf w).1 f ≡ w f ++ take m buf) (ok_injective e)
        (rw (text_eq_refl f) refl);
  write_other = λ f u buf w h. ground (arith, text_eq_iff u f);
  close_keeps = λ f u w. refl;
}

memory-TakesPart : TakesPart memory
memory-TakesPart file buf w n e = subst (λ m. m ≤ length buf) (ok_injective e) (but_one-le buf)

abbrev chunk : ℕ → ℕ → ℕ → ChunkFilename
unfolding part_name text
chunk part size raw = record {
  filename = part_name part;
  size = size;
  compression = some (text "zstd");
  raw_size = some raw;
  sha256sum = some [];
}

-- With a chunk size of 0 each call starts a chunk.
abbrev archive : VolumeArchive
archive = record {
  timestamp = snapshot b'1';
  parent_timestamp = none;
  chunks = chunk 1 2 12 ∷ chunk 2 0 0 ∷ chunk 3 1 0 ∷ [];
}

no_files : Files
no_files u = []

wrote : (write_subvolume_to_dest memory no_digest 0 calls 12 no_files).0 ≡ ok (archive.chunks, 3)
unfolding write_subvolume_to_dest part_name text
wrote = refl

write_subvolume_to_dest-unread_example :
    (ns : List ℕ) × ((answers memory no_digest
        (new memory no_digest (0 * 1024 * 1024 % 2 ^ 64))
        calls
        no_files).0
      ≡ ok ns)
    × AreAnswers memory calls ns
    × (unread
          (content (write_subvolume_to_dest memory no_digest 0 calls 12 no_files).1)
          (ChunkReader.new archive)
        ≡ accepted calls ns)
    × (length (accepted calls ns) ≡ 3)
write_subvolume_to_dest-unread_example =
    write_subvolume_to_dest-unread memory no_digest 0 calls 12 no_files archive memory-IsFiles
      memory-TakesPart (omega arith) wrote

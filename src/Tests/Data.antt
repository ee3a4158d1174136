-- ===== src/Tests/Data.antt =====
-- Five snapshots of a volume, of the days 1 to 5 of January 2023, the first archived.
use Prim.Native.Nat.Ordering.{lt}
use bbkar.Common.{subst, ◌≡◌, refl, arith, none, some, List, [], ◌∷◌}
use bbkar.Common.Sort.{sort}
use bbkar.Common.Text.{Text, text_eq, compare_text}
use bbkar.Dest.{ChunkFilename, VolumeArchive, DestMeta, DestState}
use bbkar.Duration.Ascii.{IsAscii}
use bbkar.Common.{ℕ, ◌<◌}
use bbkar.Dest.Lookup.{lookup, IsSound, IsSound-snoc}
use bbkar.Plan.{RunStep}
use bbkar.Policy.{SendPolicy}
use bbkar.Source.{SourceState, IsOldestFirst}
use bbkar.Timestamp.{Timestamp, compare_timestamp}

-- `2023010` and a digit
abbrev pub day : ℕ → Text
day d = b'2' ∷ b'0' ∷ b'2' ∷ b'3' ∷ b'0' ∷ b'1' ∷ b'0' ∷ d ∷ []

abbrev pub snapshot : ℕ → Timestamp
snapshot d = record { raw = day d; timestamp = day d; seq = none }

abbrev pub full_archive : ℕ → VolumeArchive
full_archive d = record { timestamp = snapshot d; parent_timestamp = none; chunks = [] }

abbrev pub archive_above : ℕ → ℕ → VolumeArchive
archive_above d p = record { timestamp = snapshot d; parent_timestamp = some (day p); chunks = [] }

abbrev pub source_state : SourceState
source_state = record {
  volume = record {
    orig_name = b'v' ∷ [];
    snapshots = snapshot b'1' ∷ snapshot b'2' ∷ snapshot b'3' ∷ [];
  };
}

abbrev pub metadata : DestMeta
metadata = record {
  first_sync_timestamp = 1;
  last_sync_timestamp = 1;
  archives = full_archive b'1' ∷ [];
}

abbrev pub dest_state : DestState
dest_state = record { meta = some metadata }

-- At most one incremental archive on top of a full one
abbrev pub policy : SendPolicy
policy = record { max_incremental_depth = some 2; min_full_send_interval = record { days = 30 } }

abbrev pub no_chunks : RunStep → List ChunkFilename
no_chunks step = []

pub snapshots-IsOldestFirst : IsOldestFirst source_state.volume.snapshots
unfolding compare_timestamp compare_text
snapshots-IsOldestFirst = ((refl, (refl, tt)), ((refl, tt), (tt, tt)))

pub metadata-IsSound : IsSound metadata.archives
unfolding lookup
metadata-IsSound = record { distinct = (refl, tt); rooted = λ r a p found parent. ground arith }

-- A full archive and an incremental one on top of it
abbrev pub chain : List VolumeArchive
chain = full_archive b'1' ∷ archive_above b'2' b'1' ∷ []

pub chain-IsSound : IsSound chain
unfolding lookup text_eq compare_text compare_timestamp sort
chain-IsSound =
    IsSound-snoc metadata.archives (archive_above b'2' b'1') metadata-IsSound refl (λ p e.
      let same : day b'1' ≡ p = ground arith in
      subst
        (λ q.
          (b : VolumeArchive) × (lookup metadata.archives q ≡ some b)
          × (compare_text q (day b'2') ≡ lt))
        same (full_archive b'1', refl, refl))

day-IsAscii : (d : ℕ) → d < 128 → IsAscii (day d)
day-IsAscii d h = (
  omega arith,
  (omega arith, (omega arith, (omega arith, (omega arith, (omega arith, (omega arith, (h, tt))))))),
)

pub days-IsAscii : IsAscii (day b'1') × IsAscii (day b'2') × IsAscii (day b'3')
days-IsAscii =
    (day-IsAscii b'1' (omega arith), day-IsAscii b'2' (omega arith), day-IsAscii b'3' (omega arith))

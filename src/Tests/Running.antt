-- ===== src/Tests/Running.antt =====
-- A run against an executor that keeps the metadata of one volume, and whose third upload fails.
use bbkar.Common.{ℕ, zero, suc, ◌≡◌, refl, Option, none, some, if◌then◌else◌, List, [], ◌∷◌}
use bbkar.Common.Br.{Br, ok, err, execution}
use mathlib.Core.Option.{bind}
use bbkar.Common.Text.{Text, text_eq, compare_text}
use bbkar.Timestamp.{compare_timestamp}
use bbkar.Dest.{ChunkFilename, DestMeta}
use bbkar.Executor.{Executor}
use bbkar.Common.Io.{Io}
use bbkar.Sync.{VolumeContext}
use bbkar.Run.{RunTotals, run_volume}
use bbkar.Config.{local}
use bbkar.Tests.Configuring.{with_path}
use bbkar.Stats.{default}
use bbkar.Tests.Data.{source_state, metadata, policy}

-- The metadata, and how many uploads are left before they fail
abbrev pub World : Type 0
World = (Text → Option DestMeta) × ℕ

-- What is kept of each volume, after a write of one
abbrev keep : (Text → Option DestMeta) → Text → DestMeta → Text → Option DestMeta
keep metas v m u = if text_eq u v then some m else metas u

abbrev upload : ℕ → (Text → Option DestMeta) → Br (List ChunkFilename) × World
upload zero metas = (err (execution []), (metas, 0))
upload (suc n) metas = (ok [], (metas, n))

-- The metadata of the volume `v`
abbrev pub one_volume : Text → Option DestMeta
one_volume u = if text_eq u (b'v' ∷ []) then some metadata else none

abbrev pub Upload : Type 0
Upload = Text → Text → ℕ → Unit {0} → Io World (List ChunkFilename)

abbrev pub keeper_with : Upload → Executor World (Unit {0})
keeper_with write_subvolume = record {
  inspect_dest_volume = λ v w. (ok (record { meta = w.0 v }), w);
  read_subvolume_full = λ s. tt;
  read_subvolume_incremental = λ s p. tt;
  write_metadata = λ v m w. (ok tt, (keep w.0 v m, w.1));
  write_subvolume = write_subvolume;
  measure_subvolume = λ chunks w. (ok (record { compressed = 5; uncompressed = 9 }), w);
  restore_archive = λ v a root w. (ok tt, w);
  now_timestamp = λ w. (ok 7, w);
}

abbrev pub kept_meta : World → Text → Option DestMeta
kept_meta w v = w.0 v

-- Uploads, as many as the world says
abbrev pub keeper : Executor World (Unit {0})
keeper = keeper_with (λ v s size chunks w. upload w.1 w.0)

abbrev pub context : VolumeContext
context = record {
  sync_name = [];
  global = (with_path []).global;
  src_spec = record { path = []; filter = [] };
  dest_spec = record { backend_spec = local [] };
  volume = b'v' ∷ [];
  src_state = source_state;
  send_policy = policy;
}

abbrev pub no_totals : RunTotals
no_totals = record { sync_sent_stats = default; sync_remote_stats = default; total_bytes_sent = 0 }

abbrev pub counted : RunTotals
counted = record {
  sync_sent_stats = record {
    all_count = 2;
    all_size = 0;
    full_count = 1;
    full_size = 0;
    incremental_count = 1;
    incremental_size = 0;
  };
  sync_remote_stats = record {
    all_count = 3;
    all_size = 0;
    full_count = 2;
    full_size = 0;
    incremental_count = 1;
    incremental_size = 0;
  };
  total_bytes_sent = 0;
}

ran : (run_volume keeper context no_totals (one_volume, 5)).0 ≡ ok counted
unfolding run_volume text_eq compare_timestamp compare_text bind
ran = refl

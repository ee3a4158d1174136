-- ===== src/Tests/RestoreWhole.antt =====
-- The commands `restore` and `dryrestore` with a chain of two archives, the first of which is in
-- the root already.
use bbkar.Common.{ℕ, ◌≡◌, refl, true, none, some, List, [], ◌∷◌, map}
use bbkar.Common.Br.{ok}
use bbkar.Common.Text.{rsplit_once}
use bbkar.Config.{SourceSpec, local}
use bbkar.Dest.{VolumeArchive}
use bbkar.Plan.{receive_full, receive_incremental}
use bbkar.Restore.{RestoreReport}
use bbkar.Restore.Command.{RestoreArgs, Prepared, prepare_restore, restore, dryrestore}
use bbkar.Restore.Sequence.{Applies, receive_all}
use bbkar.Restore.Order.{ParentsFirst}
use bbkar.Restore.Whole.{received_names, restore-receive_all}
use bbkar.Sync.{Host}
use bbkar.Tests.Configuring.{with_path, one_name, slash}
use bbkar.Tests.Data.{chain, chain-IsSound, day, snapshot}
use bbkar.Tests.Restoring.{counter, chain_metadata, chain-AllParsed}
use bbkar.Timestamp.{split_seq}

abbrev host : Host ℕ (Unit {0})
host = record {
  read_to_string = λ path w. ok path;
  from_str = λ content. ok (with_path (b'/' ∷ b's' ∷ []));
  directory = λ path w. record { is_dir = true; read_dir = ok (ok (b'v' ∷ b'.' ∷ day b'1') ∷ []) };
  executor = λ src dest. counter;
}

abbrev args : RestoreArgs
args = record {
  root = b'/' ∷ b'r' ∷ [];
  volume = b'v' ∷ [];
  snapshots = [];
  min_timestamp = none;
  max_timestamp = none;
  name = some one_name;
}

abbrev source : SourceSpec
source = record { path = []; filter = [] }

abbrev plan : Prepared
plan = record {
  dest_spec = record { backend_spec = local slash };
  meta = chain_metadata;
  steps = receive_full (snapshot b'1') ∷ receive_incremental (snapshot b'2') (snapshot b'1') ∷ [];
  pre_existing = (b'v' ∷ b'.' ∷ day b'1') ∷ [];
}

prepared : prepare_restore host source [] args 0 ≡ (ok plan, 0)
unfolding prepare_restore split_seq rsplit_once
prepared = refl

restore-receive_all_example :
    ParentsFirst [] plan.steps
    × ((applied : List VolumeArchive) × Applies chain args.volume plan.pre_existing plan.steps
          applied
        × (restore host source [] args 0 ≡ receive_all counter args.volume args.root applied 0)
        × ((reports : List RestoreReport) × (dryrestore host source [] args 0 ≡ (ok reports, 0))
            × (received_names reports ≡ map (λ a. a.timestamp.raw) applied)))
restore-receive_all_example =
    restore-receive_all host source [] args 0 prepared chain-IsSound chain-AllParsed

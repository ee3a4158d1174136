-- ===== src/Tests/Restoring.antt =====
-- Restores at the snapshots of the test data, patterns and parsing.
use bbkar.Common.{ℕ, suc, ◌≡◌, refl, true, none, some, List, [], ◌∷◌, ◌++◌, All, ◌↔◌}
use bbkar.Common.Br.{ok}
use bbkar.Common.Sort.{IsSorted}
use bbkar.Common.Text.{Text, text_eq, compare_text, rsplit_once}
use bbkar.Dest.{VolumeArchive, DestMeta}
use bbkar.Dest.Lookup.{lookup}
use bbkar.Executor.{Executor}
use bbkar.Plan.{RestoreStep, RestorePlan, receive_full, receive_incremental}
use bbkar.Restore.{resolve_targets, prepare_steps, restore_steps}
use bbkar.Restore.Merge.{IsArchived}
use bbkar.Restore.Steps.{IsStepOf, AreDistinct, has}
use bbkar.Restore.Resolve.{resolve_targets-IsArchived}
use bbkar.Restore.Sequence.{
  prepare_steps-ParentsFirst, restore_steps-receive_all, Applies, receive_all,
}
use bbkar.Restore.Order.{ParentsFirst}
use bbkar.RestorePlan.{build_restore_plan}
use bbkar.RestorePlan.Chain.{AllParsed, Restores, build_restore_plan-Restores}
use bbkar.Tests.Data.{snapshot, day, chain, chain-IsSound, full_archive, archive_above}
use bbkar.Timestamp.{split_seq, parse, parse_parts, seq_text, timestamp_order, compare_timestamp}
use bbkar.Wildcard.{wildcard_match}
use bbkar.Wildcard.Match.{Matches, wildcard_match_iff}

pub chain-AllParsed : AllParsed chain
unfolding parse split_seq rsplit_once
chain-AllParsed = (refl, (refl, tt))

build_restore_plan-Restores_example :
    (p : RestorePlan) × (build_restore_plan chain (snapshot b'2') ≡ ok p)
    × Restores chain (day b'2') p.steps
unfolding lookup text_eq
build_restore_plan-Restores_example =
    build_restore_plan-Restores chain (snapshot b'2') (archive_above b'2' b'1') chain-IsSound
      chain-AllParsed refl refl

abbrev pub chain_metadata : DestMeta
chain_metadata = record { first_sync_timestamp = 1; last_sync_timestamp = 2; archives = chain }

resolved : resolve_targets chain [] none none ≡ ok (snapshot b'2' ∷ [])
unfolding resolve_targets compare_timestamp compare_text
resolved = refl

resolved_range : resolve_targets chain [] none (some (day b'1')) ≡ ok (snapshot b'1' ∷ [])
unfolding resolve_targets compare_timestamp compare_text
resolved_range = refl

resolve_targets-IsArchived_example :
    All (IsArchived chain) (snapshot b'1' ∷ [])
    × IsSorted timestamp_order (λ x. x) (snapshot b'1' ∷ [])
resolve_targets-IsArchived_example =
    resolve_targets-IsArchived chain [] none (some (day b'1')) chain-IsSound.distinct resolved_range

prepare_steps-ParentsFirst_example :
    (steps : List RestoreStep) × (prepare_steps
        (b'v' ∷ [])
        (record { meta = some chain_metadata })
        []
        none
        none
      ≡ ok (chain_metadata, steps))
    × All (IsStepOf chain) steps
    × AreDistinct steps
    × ParentsFirst [] steps
    × All (λ t. has steps t.raw ≡ true) (snapshot b'2' ∷ [])
prepare_steps-ParentsFirst_example =
    prepare_steps-ParentsFirst (b'v' ∷ []) chain_metadata [] none none (snapshot b'2' ∷ [])
      chain-IsSound chain-AllParsed resolved

-- An executor that counts the archives it receives
abbrev pub counter : Executor ℕ (Unit {0})
counter = record {
  inspect_dest_volume = λ v w. (ok (record { meta = some chain_metadata }), w);
  read_subvolume_full = λ s. tt;
  read_subvolume_incremental = λ s p. tt;
  write_metadata = λ v m w. (ok tt, w);
  write_subvolume = λ v s size chunks w. (ok [], w);
  measure_subvolume = λ chunks w. (ok (record { compressed = 0; uncompressed = 0 }), w);
  restore_archive = λ v a root w. (ok tt, suc w);
  now_timestamp = λ w. (ok 1, w);
}

abbrev chain_steps : List RestoreStep
chain_steps =
    receive_full (snapshot b'1') ∷ receive_incremental (snapshot b'2') (snapshot b'1') ∷ []

steps_of : All (IsStepOf chain) chain_steps
unfolding lookup text_eq
steps_of =
    ((full_archive b'1', refl, refl, refl), ((archive_above b'2' b'1', refl, refl, refl), tt))

steps_distinct : AreDistinct chain_steps
unfolding has text_eq
steps_distinct = (refl, (refl, tt))

restore_steps-receive_all_example :
    (applied : List VolumeArchive) × Applies chain
      (b'v' ∷ [])
      ((b'v' ∷ b'.' ∷ day b'1') ∷ [])
      chain_steps
      applied
    × ((w : ℕ)
        → restore_steps counter
            (b'v' ∷ [])
            (b'/' ∷ [])
            chain
            ((b'v' ∷ b'.' ∷ day b'1') ∷ [])
            []
            chain_steps
            w
          ≡ receive_all counter (b'v' ∷ []) (b'/' ∷ []) applied w)
restore_steps-receive_all_example =
    restore_steps-receive_all counter (b'v' ∷ []) (b'/' ∷ []) chain ((b'v' ∷ b'.' ∷ day b'1') ∷ [])
      chain_steps steps_of steps_distinct

wildcard_match_iff_example :
    (wildcard_match (b'a' ∷ b'*' ∷ b'?' ∷ []) (b'a' ∷ b'/' ∷ b'c' ∷ []) ≡ true)
    ↔ Matches (b'a' ∷ b'*' ∷ b'?' ∷ []) (b'a' ∷ b'/' ∷ b'c' ∷ [])
wildcard_match_iff_example = wildcard_match_iff (b'a' ∷ b'*' ∷ b'?' ∷ []) (b'a' ∷ b'/' ∷ b'c' ∷ [])

abbrev numbered : Text
numbered = day b'1' ++ b'_' ∷ b'2' ∷ []

parsed_number :
    parse numbered
    ≡ some (record { raw = numbered; timestamp = day b'1'; seq = some (b'_' ∷ b'2' ∷ []) })
unfolding parse split_seq rsplit_once
parsed_number = refl

parse_parts_example :
    (numbered ≡ numbered) × (day b'1' ++ seq_text (some (b'_' ∷ b'2' ∷ [])) ≡ numbered)
parse_parts_example = parse_parts numbered parsed_number

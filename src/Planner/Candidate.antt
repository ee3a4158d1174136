-- ===== src/Planner/Candidate.antt =====
-- `find_parent_candidate`, described: the newest snapshot older than the given one that both the
-- source and the destination have.
use Prim.Native.Nat.Ordering.{lt}
use mathlib.Core.List.{Mem}
use bbkar.Common.{◌≡◌, ◌∙◌, sym, Bool, true, false, ◌&&◌, none, some, List, [], ◌∷◌}
use bbkar.Common.{map, reverse, arith, find?, All, All-imp, All-zip, is_some, some_of}
use bbkar.Common.Order.{is_lt}
use bbkar.Common.Search.{find?-true, find?-filter, find?-All, find?-none, All-reverse, All-self}
use bbkar.Common.Search.{All-of_reverse, find?-reverse-IsLast}
use bbkar.Common.Text.{Text, text_eq_refl}
use bbkar.Dest.{VolumeArchive}
use bbkar.Dest.Lookup.{lookup}
use bbkar.Planner.{contains, find_parent_candidate}
use bbkar.Source.{IsOldestFirst}
use bbkar.Timestamp.{Timestamp, compare_timestamp, timestamp_order}

-- The set holds the names of the archives.
abbrev pub SameNames : List Text → List VolumeArchive → Type 0
SameNames dest_set l = (r : Text) → contains dest_set r ≡ is_some (lookup l r)

pub record IsParent (l : List VolumeArchive) (snapshots : List Timestamp) (snap p : Timestamp)
    : Type 0 where
  pub listed : Mem p snapshots
  pub older : compare_timestamp p snap ≡ lt
  pub archive : VolumeArchive
  pub archived : lookup l p.raw ≡ some archive
  -- Another older and archived snapshot is not newer than `p`.
  pub newest :
      All
        (λ q.
          compare_timestamp q snap ≡ lt
          → is_some (lookup l q.raw) ≡ true
          → is_lt (compare_timestamp p q) ≡ false)
        snapshots

-- No older snapshot is archived.
abbrev pub NoParent : List VolumeArchive → List Timestamp → Timestamp → Type 0
NoParent l snapshots snap =
    All (λ q. compare_timestamp q snap ≡ lt → lookup l q.raw ≡ none) snapshots

contains-cons : (r s : Text) (l : List Text) → contains l r ≡ true → contains (s ∷ l) r ≡ true
unfolding contains
contains-cons r s l h = ground arith

contains-names : (l : List Timestamp) → All (λ s. contains (map (λ t. t.raw) l) s.raw ≡ true) l
unfolding contains
contains-names [] = tt
contains-names (t ∷ l) = (
  ground (arith, text_eq_refl t.raw),
  All-imp (λ s h. contains-cons s.raw t.raw (map (λ t. t.raw) l) h) l (contains-names l),
)

module _ (l : List VolumeArchive) (snapshots : List Timestamp) (dest_set : List Text)
    (same : SameNames dest_set l) (snap : Timestamp) where
  abbrev src_names : List Text
  src_names = map (λ t. t.raw) snapshots

  abbrev hit : Timestamp → Bool
  hit s = is_lt (compare_timestamp s snap) && (contains dest_set s.raw && contains src_names s.raw)

  find-eq-hit :
      find_parent_candidate snap dest_set src_names snapshots ≡ find? hit (reverse snapshots)
  unfolding find_parent_candidate
  find-eq-hit = find?-filter _ _ (reverse snapshots)

  pub find_parent_candidate-IsParent :
      {p : Timestamp}
      → IsOldestFirst snapshots
      → find_parent_candidate snap dest_set src_names snapshots ≡ some p
      → IsParent l snapshots snap p
  find_parent_candidate-IsParent {p} sorted found =
      let e = sym find-eq-hit ∙ found in
      let ok' = find?-true hit (reverse snapshots) e in
      let (b, at_p) = some_of (lookup l p.raw) (ground (arith, same p.raw)) in
      record {
        listed =
            find?-All (λ z. Mem z snapshots) hit (reverse snapshots) e
              (All-reverse _ snapshots (All-self snapshots));
        older = ground arith;
        archive = b;
        archived = at_p;
        newest =
            All-imp (λ q h lower known. h.1 (ground (arith, same q.raw, h.0))) snapshots
              (All-zip _ _ snapshots (contains-names snapshots)
                (find?-reverse-IsLast timestamp_order (λ t. t) hit snapshots sorted e));
      }

  pub find_parent_candidate-NoParent :
      find_parent_candidate snap dest_set src_names snapshots ≡ none → NoParent l snapshots snap
  find_parent_candidate-NoParent missing =
      All-imp (λ q h lower. ground (arith, same q.raw, h.0, h.1)) snapshots
        (All-zip _ _ snapshots (contains-names snapshots) (
          All-of_reverse _ snapshots
            (find?-none hit (reverse snapshots) (sym find-eq-hit ∙ missing))))

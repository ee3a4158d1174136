-- ===== src/Ls/Tables.antt =====
-- What the two tables of src/cli/ls.rs list.
use bbkar.Common.{◌≡◌, refl, sym, ap, ◌∙◌, arith, Bool, true, false, ◌||◌, List, [], ◌∷◌, map, All}
use bbkar.Common.Br.{ok}
use bbkar.Common.Order.{Order, is_eq}
use bbkar.Common.Sets.{set_of, set_union, set_contains, IsAscending, set_contains-set_union}
use bbkar.Common.Sets.{set_insert, set_union-IsAscending, All-contains}
use bbkar.Common.Text.{Text, text, text_order}
use bbkar.Dest.{VolumeArchive, DestState}
use bbkar.Inspect.{Directory}
use bbkar.Ls.{Row, row_name, snapshot_state, snapshot_rows, snapshot_table, restore_state}
use bbkar.Ls.{restore_rows, restore_table, scan_root, archived_set}
use bbkar.Planner.{archives_of}
use bbkar.Timestamp.{Timestamp, timestamp_order}

-- The state of a snapshot that is in one of two places or in both
abbrev pub label : Text → Text → Text → Bool → Bool → Text
label first second both true true = both
label first second both true false = first
label first second both false b = second

module _ {ℓ} {K : Type ℓ} (o : Order K) where
  set_contains-set_of : (l : List K) (k : K) → set_contains o (set_of o l) k ≡ set_contains o l k
  unfolding set_contains
  set_contains-set_of l k = set_contains-set_union o [] l k

  -- The items of either list, each once and in ascending order
  pub record AreAll (near far names : List K) : Type ℓ where
    pub ascending : IsAscending o names
    pub listed : (k : K) → set_contains o names k ≡ (set_contains o near k || set_contains o far k)

  union-AreAll : (near far : List K) → AreAll near far (set_union o (set_of o near) (set_of o far))
  union-AreAll near far = record {
    ascending = set_union-IsAscending o _ _ (set_union-IsAscending o [] near tt);
    listed = λ k. ground (
      arith,
      set_contains-set_union o (set_of o near) (set_of o far) k,
      set_contains-set_of near k,
      set_contains-set_of far k,
    );
  }

-- The row of a snapshot
abbrev pub snapshot_row : Text → List Timestamp → List Timestamp → Timestamp → Row
snapshot_row volume near far s = (
  row_name volume s.raw,
  label (text "local-only") (text "remote-only") (text "synced")
      (set_contains timestamp_order near s) (set_contains timestamp_order far s),
)

-- Two lists that contain the same
abbrev pub Alike {ℓ} : {K : Type ℓ} → Order K → List K → List K → Type ℓ
Alike {K = K} o xs ys = (k : K) → set_contains o xs k ≡ set_contains o ys k

snapshot_rows-map :
    (volume : Text) (near far near' far' names : List Timestamp)
    → Alike timestamp_order near' near
    → Alike timestamp_order far' far
    → All
        (λ s. (set_contains timestamp_order near s || set_contains timestamp_order far s) ≡ true)
        names
    → snapshot_rows volume near' far' names ≡ ok (map (snapshot_row volume near far) names)
unfolding snapshot_rows snapshot_state
snapshot_rows-map volume near far near' far' [] e f h = refl
snapshot_rows-map volume near far near' far' (s ∷ names) e f (here, there) =
    ground (arith, e s, f s, snapshot_rows-map volume near far near' far' names e f there)

-- The timestamps and their raw texts in the metadata
abbrev pub archived_timestamps : DestState → List Timestamp
archived_timestamps d = map (λ a. a.timestamp) (archives_of d)

abbrev pub archived_names : DestState → List Text
archived_names d = map (λ a. a.timestamp.raw) (archives_of d)

-- The snapshot table has a row for every timestamp that is at the source or in the metadata, each
-- once and in ascending order, and its state says in which of the two it is; the `unreachable!` is
-- never reached.
pub snapshot_table-AreAll :
    (volume : Text) (d : DestState) (near : List Timestamp)
    → (names : List Timestamp) × AreAll timestamp_order near (archived_timestamps d) names
      × (snapshot_table volume d near
          ≡ ok (map (snapshot_row volume near (archived_timestamps d)) names))
unfolding snapshot_table
snapshot_table-AreAll volume d near =
    let far = archived_timestamps d in
    let all = union-AreAll timestamp_order near far in
    (
      set_union timestamp_order (set_of timestamp_order near) (set_of timestamp_order far),
      all,
      snapshot_rows-map volume near far _ _ _ (set_contains-set_of timestamp_order near)
          (set_contains-set_of timestamp_order far)
          (All-contains timestamp_order _ _ (λ k c. sym (all.listed k) ∙ c)),
    )

-- The row of a name in the restore table
abbrev pub restore_row : Text → List Text → List Text → Text → Row
restore_row volume archived restored raw = (
  row_name volume raw,
  label (text "not-restored") (text "restored-only") (text "restored")
      (set_contains text_order archived raw) (set_contains text_order restored raw),
)

restore_rows-map :
    (volume : Text) (near far near' far' names : List Text)
    → Alike text_order near' near
    → Alike text_order far' far
    → All (λ s. (set_contains text_order near s || set_contains text_order far s) ≡ true) names
    → restore_rows volume near' far' names ≡ ok (map (restore_row volume near far) names)
unfolding restore_rows restore_state
restore_rows-map volume near far near' far' [] e f h = refl
restore_rows-map volume near far near' far' (s ∷ names) e f (here, there) =
    ground (arith, e s, f s, restore_rows-map volume near far near' far' names e f there)

raws-set_insert :
    (t : Timestamp) (xs : List Timestamp) (k : Text)
    → set_contains text_order (map (λ s. s.raw) (set_insert timestamp_order t xs)) k
      ≡ (is_eq (text_order.cmp t.raw k) || set_contains text_order (map (λ s. s.raw) xs) k)
unfolding set_insert set_contains
raws-set_insert t [] k = ground arith
raws-set_insert t (x ∷ xs) k = ground (arith, timestamp_order.eq_of_cmp t x, raws-set_insert t xs k)

raws-set_union :
    (s l : List Timestamp) (k : Text)
    → set_contains text_order (map (λ t. t.raw) (set_union timestamp_order s l)) k ≡ (
        set_contains text_order (map (λ t. t.raw) s) k
        || set_contains text_order (map (λ t. t.raw) l) k)
unfolding set_union set_contains
raws-set_union s [] k = ground arith
raws-set_union s (t ∷ l) k =
    ground (arith, raws-set_union (set_insert timestamp_order t s) l k, raws-set_insert t s k)

archived_names-Alike :
    (d : DestState)
    → Alike text_order (set_of text_order (map (λ t. t.raw) (archived_set d))) (archived_names d)
unfolding set_contains
archived_names-Alike d k =
    set_contains-set_of text_order (map (λ t. t.raw) (archived_set d)) k
    ∙ raws-set_union [] (archived_timestamps d) k
    ∙ ap (λ l. set_contains text_order l k) (map-map (archives_of d))
  where
    map-map :
        (l : List VolumeArchive)
        → map (λ (t : Timestamp). t.raw) (map (λ a. a.timestamp) l) ≡ map (λ a. a.timestamp.raw) l
    map-map [] = refl
    map-map (a ∷ l) = ap (λ z. a.timestamp.raw ∷ z) (map-map l)

-- The restore table has a row for every name that is in the metadata or behind the volume's prefix
-- in the restore root, each once and in ascending order, and its state says in which of the two it
-- is; the `unreachable!` is never reached.
pub restore_table-AreAll :
    (volume : Text) (d : DestState) (root : Directory)
    → (names : List Text) × AreAll text_order (archived_names d) (scan_root volume root) names
      × (restore_table volume d root
          ≡ ok (map (restore_row volume (archived_names d) (scan_root volume root)) names))
unfolding restore_table
restore_table-AreAll volume d root =
    let restored = scan_root volume root in
    let archived = map (λ (t : Timestamp). t.raw) (archived_set d) in
    let all = union-AreAll text_order archived restored in
    let same = archived_names-Alike d in
    let alike : Alike text_order archived (archived_names d) =
      λ k. sym (set_contains-set_of text_order archived k) ∙ same k in
    let listed =
      λ (k : Text). all.listed k ∙ ap (λ b. b || set_contains text_order restored k) (alike k) in
    (
      set_union text_order (set_of text_order archived) (set_of text_order restored),
      record { ascending = all.ascending; listed = listed },
      restore_rows-map volume (archived_names d) restored _ _ _ same
          (set_contains-set_of text_order restored)
          (All-contains text_order _ _ (λ k c. sym (listed k) ∙ c)),
    )

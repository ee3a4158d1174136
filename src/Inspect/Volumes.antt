-- ===== src/Inspect/Volumes.antt =====
-- What the volumes are like that inspect_source of src/service/executor/inspect_source.rs returns.
use bbkar.Common.{◌≡◌, ◌≢◌, refl, ap, ◌∙◌, subst, arith, true, Option, none}
use bbkar.Common.{some, List, [], ◌∷◌, length, All, All-append, Bool-cases}
use bbkar.Common.{inl, inr, head?, get_last?, length-append, ◌<◌}
use bbkar.Common.Br.{Br, ok, err, panic, out_of_fuel, bind-eq-ok, ok_injective, then_branch}
use bbkar.Common.Sort.{All-sort, sort, length-sort}
use bbkar.Common.Text.{Text, text_eq, text_eq_iff, rsplit_once}
use bbkar.Config.{SourceSpec, find_entry}
use bbkar.Inspect.{Directory, Grouped, push_snapshot, split_name, group_split, group_entries}
use bbkar.Inspect.{matches, filter_groups, inspect_source, with_snapshot, of_split}
use bbkar.Inspect.Groups.{find_entry-push_snapshot, joined, find_entry-filter_groups, state_of}
use bbkar.Source.{Series, SourceState, IsOldestFirst, new-IsOldestFirst, oldest_snapshot}
use bbkar.Source.{newest_snapshot}
use bbkar.Source
use bbkar.Timestamp.{Timestamp, timestamp_order, parse, parse_parts, IsParsed}

-- A group has a snapshot, and all are parsed names.
abbrev IsGroup : List Timestamp → Type 0
IsGroup l = (0 < length l) × All IsParsed l

abbrev AreGroups : Grouped → Type 0
AreGroups = All (λ p. IsGroup p.1)

split_name-IsParsed :
    (name : Text) {b : Text} {s : Timestamp} → split_name name ≡ some (b, s) → IsParsed s
unfolding split_name
split_name-IsParsed name {b} {s} = go (rsplit_once b'.' name)
  where
    parsed :
        (b' suffix : Text) (found : Option Timestamp)
        → parse suffix ≡ found
        → with_snapshot b' found ≡ some (b, s)
        → IsParsed s
    parsed b' suffix none e h = ground arith
    parsed b' suffix (some t) e h =
        let same : t ≡ s = ground arith in
        let raw = (parse_parts suffix e).0 in subst IsParsed same (ap parse raw ∙ e)

    go : (o : Option (Text × Text)) → of_split o ≡ some (b, s) → IsParsed s
    go none h = ground arith
    go (some (b', suffix)) h = parsed b' suffix (parse suffix) refl h

AreGroups-push_snapshot :
    (g : Grouped) (b : Text) (s : Timestamp)
    → IsParsed s
    → AreGroups g
    → AreGroups (push_snapshot g b s)
unfolding push_snapshot
AreGroups-push_snapshot [] b s p h = ((omega arith, (p, tt)), tt)
AreGroups-push_snapshot ((k, l) ∷ g) b s p ((some_there, parsed), rest) =
    elim (Bool-cases (text_eq k b)) [
      | inl same ↦ rw same (
        (omega (arith, length-append l (s ∷ [])), All-append IsParsed l (s ∷ []) parsed (p, tt)),
        rest,
      )
      | inr other ↦ rw other ((some_there, parsed), AreGroups-push_snapshot g b s p rest)
    ]

AreGroups-group_split :
    (g : Grouped) (part : Option (Text × Timestamp))
    → ((b : Text) (s : Timestamp) → part ≡ some (b, s) → IsParsed s)
    → AreGroups g
    → AreGroups (group_split g part)
AreGroups-group_split g none p h = h
AreGroups-group_split g (some (b, s)) p h = AreGroups-push_snapshot g b s (p b s refl) h

group_entries-AreGroups :
    (entries : List (Br Text)) (g : Grouped) {g' : Grouped}
    → group_entries g entries ≡ ok g'
    → AreGroups g
    → AreGroups g'
unfolding group_entries
group_entries-AreGroups [] g h a = subst AreGroups (ok_injective h) a
group_entries-AreGroups (ok name ∷ entries) g h a =
    group_entries-AreGroups entries (group_split g (split_name name)) h
      (AreGroups-group_split g (split_name name) (λ b s e. split_name-IsParsed name e) a)
group_entries-AreGroups (err e ∷ entries) g h a = ground arith
group_entries-AreGroups (panic ∷ entries) g h a = ground arith
group_entries-AreGroups (out_of_fuel ∷ entries) g h a = ground arith

-- A volume with its series
pub record IsVolume (filters : List Text) (volume : Text × SourceState) : Type 0 where
  pub selected : matches filters volume.0 ≡ true
  pub named : volume.1.volume.orig_name ≡ volume.0
  pub oldest_first : IsOldestFirst volume.1.volume.snapshots
  pub parsed : All IsParsed volume.1.volume.snapshots
  pub has_oldest : (t : Timestamp) × (oldest_snapshot volume.1.volume ≡ ok t)
  pub has_newest : (t : Timestamp) × (newest_snapshot volume.1.volume ≡ ok t)

ends_of :
    (l : List Timestamp)
    → 0 < length l
    → ((t : Timestamp) × (head? l ≡ some t)) × ((t : Timestamp) × (get_last? l ≡ some t))
ends_of [] h = absurd (omega arith)
ends_of (t ∷ []) h = ((t, refl), (t, refl))
ends_of (t ∷ u ∷ l) h = ((t, refl), (ends_of (u ∷ l) (omega arith)).1)

new-IsVolume :
    (filters : List Text) (v : Text) (l : List Timestamp)
    → matches filters v ≡ true
    → IsGroup l
    → IsVolume filters (v, record { volume = Source.new v l })
unfolding Source.new oldest_snapshot newest_snapshot sort
new-IsVolume filters v l m (some_there, parsed) =
    let sorted = sort timestamp_order (λ t. t) l in
    let ((a, first), (b, last)) =
      ends_of sorted (omega (arith, length-sort timestamp_order (λ t. t) l, some_there)) in
    record {
      selected = m;
      named = refl;
      oldest_first = new-IsOldestFirst v l;
      parsed = All-sort timestamp_order (λ t. t) IsParsed l parsed;
      has_oldest = (a, rw first refl);
      has_newest = (b, rw last refl);
    }

filter_groups-IsVolume :
    (filters : List Text) (g : Grouped)
    → AreGroups g
    → All (IsVolume filters) (filter_groups filters g)
unfolding filter_groups
filter_groups-IsVolume filters [] a = tt
filter_groups-IsVolume filters ((v, l) ∷ g) (here, there) = elim (Bool-cases (matches filters v)) [
  | inl chosen ↦
      rw chosen (new-IsVolume filters v l chosen here, filter_groups-IsVolume filters g there)
  | inr dropped ↦ rw dropped (filter_groups-IsVolume filters g there)
]

-- No key stands twice.
abbrev pub Distinct {ℓ} : {A : Type ℓ} → List (Text × A) → Type ℓ
Distinct [] = Unit
Distinct ((k, a) ∷ l) = (find_entry l k ≡ none) × Distinct l

-- A key that has no entry is the key of none.
pub find_entry-absent :
    {A : Type 0} (l : List (Text × A)) (k : Text) → find_entry l k ≡ none → All (λ p. p.0 ≢ k) l
unfolding find_entry
find_entry-absent [] k h = tt
find_entry-absent ((j, a) ∷ l) k h = elim (Bool-cases (text_eq j k)) [
  | inl same ↦ ground arith
  | inr other ↦ (λ e. ground (arith, text_eq_iff j k), find_entry-absent l k (rw other at h))
]

push_snapshot-Distinct :
    (g : Grouped) (b : Text) (s : Timestamp) → Distinct g → Distinct (push_snapshot g b s)
unfolding push_snapshot find_entry joined
push_snapshot-Distinct [] b s d = (refl, tt)
push_snapshot-Distinct ((k, l) ∷ g) b s (new, d) = elim (Bool-cases (text_eq k b)) [
  | inl same ↦ rw same (new, d)
  | inr other ↦ rw other (
    ground (arith, find_entry-push_snapshot g b s k, text_eq_iff k b, text_eq_iff b k),
    push_snapshot-Distinct g b s d,
  )
]

group_split-Distinct :
    (g : Grouped) (part : Option (Text × Timestamp)) → Distinct g → Distinct (group_split g part)
group_split-Distinct g none d = d
group_split-Distinct g (some (b, s)) d = push_snapshot-Distinct g b s d

group_entries-Distinct :
    (entries : List (Br Text)) (g : Grouped) {g' : Grouped}
    → group_entries g entries ≡ ok g'
    → Distinct g
    → Distinct g'
unfolding group_entries
group_entries-Distinct [] g h d = subst Distinct (ok_injective h) d
group_entries-Distinct (ok name ∷ entries) g h d =
    group_entries-Distinct entries (group_split g (split_name name)) h
      (group_split-Distinct g (split_name name) d)
group_entries-Distinct (err e ∷ entries) g h d = ground arith
group_entries-Distinct (panic ∷ entries) g h d = ground arith
group_entries-Distinct (out_of_fuel ∷ entries) g h d = ground arith

filter_groups-Distinct :
    (filters : List Text) (g : Grouped) → Distinct g → Distinct (filter_groups filters g)
unfolding filter_groups state_of
filter_groups-Distinct filters [] d = tt
filter_groups-Distinct filters ((v, l) ∷ g) (new, d) = elim (Bool-cases (matches filters v)) [
  | inl chosen ↦
      rw chosen
        (ground (arith, find_entry-filter_groups filters g v), filter_groups-Distinct filters g d)
  | inr dropped ↦ rw dropped (filter_groups-Distinct filters g d)
]

-- When the inspection of a source succeeds, no volume is listed twice, every volume matches a
-- filter, and its series has its name, at least one snapshot, and the snapshots from the oldest on,
-- each the parse of its own raw text.
pub inspect_source-IsVolume :
    (dir : Directory) (spec : SourceSpec) {states : List (Text × SourceState)}
    → inspect_source dir spec ≡ ok states
    → All (IsVolume spec.filter) states × Distinct states
unfolding inspect_source
inspect_source-IsVolume dir spec {states} h =
    let (is_dir, h₀) = then_branch dir.is_dir _ _ h in
    let (entries, e, h₁) = bind-eq-ok dir.read_dir _ h₀ in
    let (grouped, f, h₂) = bind-eq-ok (group_entries [] entries) _ h₁ in
    subst (λ (s : List (Text × SourceState)). All (IsVolume spec.filter) s × Distinct s)
      (ok_injective h₂)
      (
        filter_groups-IsVolume spec.filter grouped (group_entries-AreGroups entries [] f tt),
        filter_groups-Distinct spec.filter grouped (group_entries-Distinct entries [] f tt),
      )

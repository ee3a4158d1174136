-- ===== src/Inspect/Groups.antt =====
-- What inspect_source of src/service/executor/inspect_source.rs returns, against the names of the
-- directory.
use mathlib.Core.List.{append_assoc, append-nil}
use bbkar.Common.{◌≡◌, refl, sym, ap, ◌∙◌, arith, Bool, Option, none, some, List, []}
use bbkar.Common.{◌∷◌, ◌++◌, if◌then◌else◌}
use bbkar.Common.Br.{Br, ok, bind-eq-ok, ok_injective, then_branch}
use bbkar.Common.Text.{Text, text_eq, text_eq_iff}
use bbkar.Config.{SourceSpec, find_entry}
use bbkar.Inspect.{Directory, Grouped, push_snapshot, split_name, group_split, group_entries}
use bbkar.Inspect.{matches, filter_groups, inspect_source}
use bbkar.Source.{Series, SourceState, IsOldestFirst, new-IsOldestFirst}
use bbkar.Source
use bbkar.Timestamp.{Timestamp}

-- The snapshots of a volume, straight from the names
abbrev pub snapshot_if : Text → Option (Text × Timestamp) → List Timestamp → List Timestamp
snapshot_if volume none l = l
snapshot_if volume (some (basename, snapshot)) l =
    if text_eq basename volume then snapshot ∷ l else l

unfoldable pub snapshots_of : Text → List (Br Text) → List Timestamp
snapshots_of volume [] = []
snapshots_of volume (ok name ∷ entries) =
    snapshot_if volume (split_name name) (snapshots_of volume entries)
snapshots_of volume (entry ∷ entries) = snapshots_of volume entries

-- A volume that has some snapshots
unfoldable pub series_of : Text → List Timestamp → Option SourceState
series_of volume [] = none
series_of volume (t ∷ l) = some (record { volume = Source.new volume (t ∷ l) })

-- The snapshots of a volume that a group has, and some more
unfoldable pub joined : Option (List Timestamp) → List Timestamp → Option (List Timestamp)
joined none [] = none
joined none (t ∷ l) = some (t ∷ l)
joined (some k) l = some (k ++ l)

joined_nil : (o : Option (List Timestamp)) → joined o [] ≡ o
unfolding joined
joined_nil none = refl
joined_nil (some k) = ap some (append-nil k)

joined_append :
    (o : Option (List Timestamp)) (a b : List Timestamp) → joined (joined o a) b ≡ joined o (a ++ b)
unfolding joined
joined_append none [] b = refl
joined_append none (t ∷ a) b = refl
joined_append (some k) a b = ap some (append_assoc k a b)

abbrev one_if : Bool → Timestamp → List Timestamp
one_if mine snapshot = if mine then snapshot ∷ [] else []

pub find_entry-push_snapshot :
    (g : Grouped) (b : Text) (s : Timestamp) (v : Text)
    → find_entry (push_snapshot g b s) v ≡ joined (find_entry g v) (one_if (text_eq b v) s)
unfolding find_entry push_snapshot joined
find_entry-push_snapshot [] b s v = ground arith
find_entry-push_snapshot ((k, l) ∷ g) b s v = ground (
  arith,
  append-nil l,
  text_eq_iff k b,
  text_eq_iff k v,
  text_eq_iff b v,
  find_entry-push_snapshot g b s v,
  joined_nil (find_entry g v),
)

find_entry-group_split :
    (g : Grouped) (part : Option (Text × Timestamp)) (v : Text) (l : List Timestamp)
    → joined (find_entry (group_split g part) v) l ≡ joined (find_entry g v) (snapshot_if v part l)
find_entry-group_split g none v l = refl
find_entry-group_split g (some (b, s)) v l =
    ap (λ o. joined o l) (find_entry-push_snapshot g b s v)
    ∙ joined_append (find_entry g v) (one_if (text_eq b v) s) l
    ∙ ground arith

find_entry-group_entries :
    (entries : List (Br Text)) (g : Grouped) {g' : Grouped} (v : Text)
    → group_entries g entries ≡ ok g'
    → find_entry g' v ≡ joined (find_entry g v) (snapshots_of v entries)
unfolding group_entries snapshots_of
find_entry-group_entries [] g v h =
    ap (λ z. find_entry z v) (sym (ok_injective h)) ∙ sym (joined_nil (find_entry g v))
find_entry-group_entries (ok name ∷ entries) g v h =
    find_entry-group_entries entries (group_split g (split_name name)) v h
    ∙ find_entry-group_split g (split_name name) v (snapshots_of v entries)
find_entry-group_entries (Br.err e ∷ entries) g v h = ground arith
find_entry-group_entries (Br.panic ∷ entries) g v h = ground arith
find_entry-group_entries (Br.out_of_fuel ∷ entries) g v h = ground arith

unfoldable pub state_of : Text → Option (List Timestamp) → Option SourceState
state_of v none = none
state_of v (some l) = some (record { volume = Source.new v l })

pub find_entry-filter_groups :
    (filters : List Text) (g : Grouped) (v : Text)
    → find_entry (filter_groups filters g) v
      ≡ (if matches filters v then state_of v (find_entry g v) else none)
unfolding find_entry filter_groups state_of
find_entry-filter_groups filters [] v = ground arith
find_entry-filter_groups filters ((k, l) ∷ g) v =
    ground (arith, text_eq_iff k v, find_entry-filter_groups filters g v)

series_of-joined : (v : Text) (l : List Timestamp) → state_of v (joined none l) ≡ series_of v l
unfolding state_of joined series_of
series_of-joined v [] = refl
series_of-joined v (t ∷ l) = refl

-- When the inspection of a source succeeds, the entry of every volume name is the series of the
-- snapshots that the names of the directory give it, one for each name that is the volume's up to
-- its last dot and has a timestamp behind it, if the name matches a filter and has at least one
-- such snapshot; otherwise there is none.
pub find_entry-inspect_source :
    (dir : Directory) (spec : SourceSpec) {entries : List (Br Text)}
    {states : List (Text × SourceState)} (volume : Text)
    → dir.read_dir ≡ ok entries
    → inspect_source dir spec ≡ ok states
    → find_entry states volume ≡ (
        if matches spec.filter volume then series_of volume (snapshots_of volume entries) else none)
unfolding inspect_source find_entry
find_entry-inspect_source dir spec {entries} {states} volume listed h =
    let (is_dir, h₀) = then_branch dir.is_dir _ _ h in
    let h₁ = rw listed at h₀ in
    let (grouped, f, h₂) = bind-eq-ok (group_entries [] entries) _ h₁ in
    ap (λ s. find_entry s volume) (sym (ok_injective h₂))
    ∙ find_entry-filter_groups spec.filter grouped volume
    ∙ ap (λ o. if matches spec.filter volume then state_of volume o else none)
        (find_entry-group_entries entries [] volume f)
    ∙ ap (λ o. if matches spec.filter volume then o else none)
        (series_of-joined volume (snapshots_of volume entries))

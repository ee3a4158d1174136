-- ===== src/Dest/Lookup.antt =====
-- Archives as a finite map from snapshot names, and the invariant of the metadata that makes every
-- archive restorable.
use Prim.Native.Nat.Ordering.{lt}
use bbkar.Common.{ℕ, subst, ◌+◌, ◌≤◌, ◌<◌, ◌≡◌, refl, ap, ◌∙◌, Bool}
use bbkar.Common.{Option, none, some, List, [], ◌∷◌, ◌++◌, arith, find?, length, if◌then◌else◌}
use bbkar.Common.{All, All-imp, Bool-cases, Option-cases, inl, inr}
use bbkar.Common.Order.{is_lt}
use bbkar.Common.Sort.{sort, insert, find?-insert_other, find?-insert_self}
use bbkar.Common.Text.{text_eq_refl, Text, text_eq, text_eq_iff, compare_text, compare_text_refl}
use bbkar.Common.Text.{compare_text_trans}
use bbkar.Dest.{VolumeArchive, sort_archives}
use bbkar.Timestamp.{timestamp_order}

abbrev pub named : Text → VolumeArchive → Bool
named r a = text_eq a.timestamp.raw r

-- The first archive of a name, as `iter().find(..)` has it.
unfoldable pub lookup : List VolumeArchive → Text → Option VolumeArchive
lookup archives r = find? (named r) archives

-- No two archives have the same name.
abbrev pub IsDistinct : List VolumeArchive → Type 0
IsDistinct [] = Unit
IsDistinct (a ∷ l) = (lookup l a.timestamp.raw ≡ none) × IsDistinct l

pub lookup-raw :
    (l : List VolumeArchive) (r : Text) {a : VolumeArchive}
    → lookup l r ≡ some a
    → a.timestamp.raw ≡ r
unfolding lookup
lookup-raw [] r h = ground arith
lookup-raw (b ∷ l) r {a} h = ground (arith, text_eq_iff b.timestamp.raw r, lookup-raw l r {a = a})

pub lookup-append :
    (l : List VolumeArchive) (a : VolumeArchive) (r : Text)
    → lookup (l ++ a ∷ []) r
      ≡ elim (lookup l r) [ some b ↦ some b | none ↦ if named r a then some a else none ]
unfolding lookup
lookup-append [] a r = refl
lookup-append (b ∷ l) a r = ground (arith, lookup-append l a r)

lookup-insert :
    (a : VolumeArchive) (l : List VolumeArchive) (r : Text)
    → lookup l a.timestamp.raw ≡ none
    → lookup (insert timestamp_order (λ b. b.timestamp) a l) r
      ≡ (if named r a then some a else lookup l r)
unfolding lookup
lookup-insert a l r h = elim (Bool-cases (named r a)) [
  | inl e ↦
      let absent = subst (λ s. lookup l s ≡ none) ((text_eq_iff _ r).0 e) h in
      rw e (find?-insert_self timestamp_order (λ b. b.timestamp) (named r) a l e absent)
  | inr e ↦ rw e (find?-insert_other timestamp_order (λ b. b.timestamp) (named r) a l e)
]

named_sym : (a b : VolumeArchive) → named b.timestamp.raw a ≡ named a.timestamp.raw b
named_sym a b = ground (
  arith,
  text_eq_iff a.timestamp.raw b.timestamp.raw,
  text_eq_iff b.timestamp.raw a.timestamp.raw,
)

IsDistinct-insert :
    (a : VolumeArchive) (l : List VolumeArchive)
    → lookup l a.timestamp.raw ≡ none
    → IsDistinct l
    → IsDistinct (insert timestamp_order (λ b. b.timestamp) a l)
unfolding insert lookup
IsDistinct-insert a [] h d = (refl, tt)
IsDistinct-insert a (b ∷ l) h d =
    ground (arith, IsDistinct-insert a l, named_sym a b, lookup-insert a l b.timestamp.raw)

pub lookup-sort :
    (l : List VolumeArchive) → IsDistinct l → (r : Text) → lookup (sort_archives l) r ≡ lookup l r
unfolding sort lookup
lookup-sort [] d r = refl
lookup-sort (a ∷ l) d r =
    let same : lookup (sort_archives l) a.timestamp.raw ≡ none = lookup-sort l d.1 _ ∙ d.0 in
    lookup-insert a (sort_archives l) r same
    ∙ ap (λ (o : Option VolumeArchive). if named r a then some a else o) (lookup-sort l d.1 r)

pub IsDistinct-sort : (l : List VolumeArchive) → IsDistinct l → IsDistinct (sort_archives l)
unfolding sort
IsDistinct-sort [] d = tt
IsDistinct-sort (a ∷ l) d =
    IsDistinct-insert a (sort_archives l) (lookup-sort l d.1 _ ∙ d.0) (IsDistinct-sort l d.1)

pub IsDistinct-append :
    (l : List VolumeArchive) (a : VolumeArchive)
    → IsDistinct l
    → lookup l a.timestamp.raw ≡ none
    → IsDistinct (l ++ a ∷ [])
unfolding lookup
IsDistinct-append [] a d h = (refl, tt)
IsDistinct-append (b ∷ l) a d h =
    ground (arith, IsDistinct-append l a, named_sym a b, lookup-append l a b.timestamp.raw)

-- How many archives have a smaller name.
pub rank : List VolumeArchive → Text → ℕ
rank [] r = 0
rank (a ∷ l) r = (if is_lt (compare_text a.timestamp.raw r) then 1 else 0) + rank l r

pub rank-le-length : (l : List VolumeArchive) (r : Text) → rank l r ≤ length l
unfolding rank
rank-le-length [] r = omega arith
rank-le-length (a ∷ l) r = ground (arith, rank-le-length l r)

rank-le : (l : List VolumeArchive) (p r : Text) → compare_text p r ≡ lt → rank l p ≤ rank l r
unfolding rank
rank-le [] p r h = omega arith
rank-le (a ∷ l) p r h = ground (arith, rank-le l p r, compare_text_trans a.timestamp.raw p r)

-- A parent that is archived has a smaller rank than its child.
pub rank-lt :
    (l : List VolumeArchive) (p r : Text) {b : VolumeArchive}
    → lookup l p ≡ some b
    → compare_text p r ≡ lt
    → rank l p < rank l r
unfolding rank lookup
rank-lt [] p r h k = ground arith
rank-lt (a ∷ l) p r {b} h k = ground (
  arith,
  rank-lt l p r {b = b},
  rank-le l p r,
  compare_text_trans a.timestamp.raw p r,
  text_eq_iff a.timestamp.raw p,
  compare_text_refl p,
)

-- What the program keeps true of the metadata: names are unique, and the parent of every archive
-- is archived too, under a smaller name.
pub record IsSound (l : List VolumeArchive) : Type 0 where
  pub distinct : IsDistinct l
  pub rooted :
      (r : Text) (a : VolumeArchive) (p : Text)
      → lookup l r ≡ some a
      → a.parent_timestamp ≡ some p
      → (b : VolumeArchive) × (lookup l p ≡ some b) × (compare_text p r ≡ lt)

-- The map that sorting and adding an archive gives.
pub lookup-snoc :
    (l : List VolumeArchive) (a : VolumeArchive) (r : Text)
    → IsDistinct l
    → lookup l a.timestamp.raw ≡ none
    → lookup (sort_archives (l ++ a ∷ [])) r ≡ (if named r a then some a else lookup l r)
lookup-snoc l a r d h =
    lookup-sort (l ++ a ∷ []) (IsDistinct-append l a d h) r
    ∙ lookup-append l a r
    ∙ elim (Option-cases (lookup l r)) [
      | inl e ↦ rw e refl
      | inr (b, e) ↦ ground (arith, text_eq_iff a.timestamp.raw r)
    ]

-- The archives that were there keep their entries.
pub lookup-snoc_old :
    (l : List VolumeArchive) (a : VolumeArchive) (r : Text) {b : VolumeArchive}
    → IsDistinct l
    → lookup l a.timestamp.raw ≡ none
    → lookup l r ≡ some b
    → lookup (sort_archives (l ++ a ∷ [])) r ≡ some b
lookup-snoc_old l a r d h k = ground (arith, lookup-snoc l a r d h, text_eq_iff a.timestamp.raw r)

-- Adding an archive with a new name, whose parent is archived under a smaller name.
pub IsSound-snoc :
    (l : List VolumeArchive) (a : VolumeArchive)
    → IsSound l
    → lookup l a.timestamp.raw ≡ none
    → ((p : Text)
        → a.parent_timestamp ≡ some p
        → (b : VolumeArchive) × (lookup l p ≡ some b) × (compare_text p a.timestamp.raw ≡ lt))
    → IsSound (sort_archives (l ++ a ∷ []))
IsSound-snoc l a s h older = record {
  distinct = IsDistinct-sort _ (IsDistinct-append l a s.distinct h);
  rooted = λ r b p at_r parent. elim (Bool-cases (named r a)) [
    | inl new ↦
        let (c, at_p, less) = older p (ground (arith, lookup-snoc l a r s.distinct h)) in
        (c, lookup-snoc_old l a p s.distinct h at_p, rw (← (text_eq_iff _ _).0 new) less)
    | inr old ↦
        let (c, at_p, less) =
          s.rooted r b p (ground (arith, lookup-snoc l a r s.distinct h)) parent in
        (c, lookup-snoc_old l a p s.distinct h at_p, less)
  ];
}

-- The name of every archive is found.
pub lookup_self :
    (l : List VolumeArchive)
    → All (λ a. (b : VolumeArchive) × (lookup l a.timestamp.raw ≡ some b)) l
unfolding lookup
lookup_self [] = tt
lookup_self (a ∷ l) = (
  (a, rw (text_eq_refl a.timestamp.raw)),
  All-imp
      (λ b (c, e). elim (Bool-cases (named b.timestamp.raw a)) [
        | inl same ↦ (a, rw same)
        | inr other ↦ (c, rw other e)
      ])
      l (lookup_self l),
)

-- The archive that a name finds is in the list.
pub lookup-All {κ} :
    (P : VolumeArchive → Type κ) (l : List VolumeArchive) (r : Text) {a : VolumeArchive}
    → lookup l r ≡ some a
    → All P l
    → P a
unfolding lookup
lookup-All P [] r h all = ground arith
lookup-All P (b ∷ l) r h all = elim (Bool-cases (named r b)) [
  | inl here ↦ let same : b ≡ _ = ground arith in subst P same all.0
  | inr other ↦ lookup-All P l r (rw other at h) all.1
]

pub lookup-snoc_self :
    (l : List VolumeArchive) (a : VolumeArchive)
    → IsDistinct l
    → lookup l a.timestamp.raw ≡ none
    → lookup (sort_archives (l ++ a ∷ [])) a.timestamp.raw ≡ some a
lookup-snoc_self l a d h =
    ground (arith, lookup-snoc l a a.timestamp.raw d h, text_eq_refl a.timestamp.raw)

-- ===== src/Restore/Resolve.antt =====
-- What `resolve_targets` returns.
use bbkar.Common.{◌≡◌, refl, sym, subst, arith, Option, none, some}
use bbkar.Common.{List, [], ◌∷◌, All, All-imp, All-append, Bool-cases, Option-cases, inl, inr}
use bbkar.Common.Br.{ok, bind-eq-ok}
use bbkar.Common.Order.{is_lt}
use bbkar.Common.Sort.{sort, IsSorted, sort-IsSorted, All-sort}
use bbkar.Common.Text.{Text, text_eq_iff, text_eq_refl}
use bbkar.Dest.{VolumeArchive}
use bbkar.Dest.Lookup.{lookup, lookup-raw, IsDistinct}
use bbkar.Restore.{
  Targets, newest_from, push_target, add_explicit, add_range, finish, resolve_targets,
}
use bbkar.Restore.{latest_target, chosen_targets, in_range, has_range}
use bbkar.Common.{if◌then◌else◌}
use bbkar.Restore.Merge.{IsArchived}
use bbkar.Timestamp.{Timestamp, timestamp_order, compare_timestamp}

lookup_distinct :
    (l : List VolumeArchive) → IsDistinct l → All (λ a. lookup l a.timestamp.raw ≡ some a) l
unfolding lookup
lookup_distinct [] d = tt
lookup_distinct (a ∷ l) d = (
  ground (arith, text_eq_refl a.timestamp.raw),
  All-imp (λ x h. ground (arith, text_eq_iff a.timestamp.raw x.timestamp.raw)) l
      (lookup_distinct l d.1),
)

module _ (archives : List VolumeArchive) where
  push_target-IsArchived :
      (t : Timestamp) (st : Targets)
      → IsArchived archives t
      → All (IsArchived archives) st.targets
      → All (IsArchived archives) (push_target t st).targets
  unfolding push_target
  push_target-IsArchived t st a all =
      ground (arith, All-append (IsArchived archives) st.targets (t ∷ []) all (a, tt))

  add_explicit-IsArchived :
      (snapshots : List Text) (st : Targets) {st' : Targets}
      → add_explicit archives snapshots st ≡ ok st'
      → All (IsArchived archives) st.targets
      → All (IsArchived archives) st'.targets
  unfolding add_explicit
  add_explicit-IsArchived [] st {st'} e all =
      let same : st ≡ st' = ground arith in
      subst (λ (z : Targets). All (IsArchived archives) z.targets) same all
  add_explicit-IsArchived (raw ∷ snapshots) st {st'} e all =
      elim (Option-cases (lookup archives raw)) [
        | inl missing ↦ ground arith
        | inr (a, found) ↦
            let here : IsArchived archives a.timestamp = (
              a,
              subst (λ r. lookup archives r ≡ some a) (sym (lookup-raw archives raw found)) found,
              refl,
            ) in
            add_explicit-IsArchived snapshots (push_target a.timestamp st) (rw found at e)
              (push_target-IsArchived a.timestamp st here all)
      ]

  add_range-IsArchived :
      (min max : Option Text) (l : List VolumeArchive) (st : Targets)
      → All (λ a. IsArchived archives a.timestamp) l
      → All (IsArchived archives) st.targets
      → All (IsArchived archives) (add_range min max l st).targets
  unfolding add_range
  add_range-IsArchived min max [] st of all = all
  add_range-IsArchived min max (a ∷ l) st of all =
      add_range-IsArchived min max l
        (if in_range min max a.timestamp.raw then push_target a.timestamp st else st) of.1
        (elim (Bool-cases (in_range min max a.timestamp.raw)) [
          | inl inside ↦ rw inside (push_target-IsArchived a.timestamp st of.0 all)
          | inr outside ↦ rw outside all
        ])

  newest_from-All :
      (P : VolumeArchive → Type 0) (l : List VolumeArchive) (best : VolumeArchive)
      → P best
      → All P l
      → P (newest_from best l)
  unfolding newest_from
  newest_from-All P [] best p all = p
  newest_from-All P (a ∷ l) best p all =
      newest_from-All P l (if is_lt (compare_timestamp a.timestamp best.timestamp) then best else a)
        (elim (Bool-cases (is_lt (compare_timestamp a.timestamp best.timestamp))) [
          | inl older ↦ rw older p
          | inr newer ↦ rw newer all.0
        ])
        all.1

  finish-IsArchived :
      (found : List Timestamp) {targets : List Timestamp}
      → finish found ≡ ok targets
      → All (IsArchived archives) found
      → All (IsArchived archives) targets × IsSorted timestamp_order (λ x. x) targets
  finish-IsArchived [] e all = ground arith
  finish-IsArchived (t ∷ found) {targets} e all =
      let same : sort timestamp_order (λ x. x) (t ∷ found) ≡ targets = ground arith in
      subst (λ z. All (IsArchived archives) z × IsSorted timestamp_order (λ x. x) z) same
        (
          All-sort timestamp_order (λ x. x) (IsArchived archives) (t ∷ found) all,
          sort-IsSorted timestamp_order (λ x. x) (t ∷ found),
        )

  All-IsArchived : IsDistinct archives → All (λ a. IsArchived archives a.timestamp) archives
  All-IsArchived d = All-imp (λ a e. (a, e, refl)) archives (lookup_distinct archives d)

  latest-IsArchived :
      (l : List VolumeArchive) {targets : List Timestamp}
      → latest_target l ≡ ok targets
      → All (λ a. IsArchived archives a.timestamp) l
      → All (IsArchived archives) targets × IsSorted timestamp_order (λ x. x) targets
  latest-IsArchived [] e all = ground arith
  latest-IsArchived (a ∷ l) {targets} e all =
      let same : (newest_from a l).timestamp ∷ [] ≡ targets = ground arith in
      subst (λ z. All (IsArchived archives) z × IsSorted timestamp_order (λ x. x) z) same
        ((newest_from-All (λ b. IsArchived archives b.timestamp) l a all.0 all.1, tt), (tt, tt))

  chosen-IsArchived :
      (snapshots : List Text) (min max : Option Text) {targets : List Timestamp}
      → IsDistinct archives
      → chosen_targets archives snapshots min max ≡ ok targets
      → All (IsArchived archives) targets × IsSorted timestamp_order (λ x. x) targets
  chosen-IsArchived snapshots min max {targets} d e =
      let (explicit, added, finished) = bind-eq-ok (add_explicit archives snapshots _) _ e in
      let of_explicit = add_explicit-IsArchived snapshots _ added tt in
      elim (Bool-cases (has_range min max)) [
        | inl ranged ↦
            finish-IsArchived (add_range min max archives explicit).targets (rw ranged at finished)
              (add_range-IsArchived min max archives explicit (All-IsArchived d) of_explicit)
        | inr explicit_only ↦
            finish-IsArchived explicit.targets (rw explicit_only at finished) of_explicit
      ]

  -- Every target that `resolve_targets` returns is the timestamp of an archive, and the targets are
  -- sorted, if the archives have different names.
  pub resolve_targets-IsArchived :
      (snapshots : List Text) (min max : Option Text) {targets : List Timestamp}
      → IsDistinct archives
      → resolve_targets archives snapshots min max ≡ ok targets
      → All (IsArchived archives) targets × IsSorted timestamp_order (λ x. x) targets
  unfolding resolve_targets
  resolve_targets-IsArchived [] none none d e = latest-IsArchived archives e (All-IsArchived d)
  resolve_targets-IsArchived [] none (some max) d e = chosen-IsArchived [] none (some max) d e
  resolve_targets-IsArchived [] (some min) max d e = chosen-IsArchived [] (some min) max d e
  resolve_targets-IsArchived (raw ∷ rest) min max d e = chosen-IsArchived (raw ∷ rest) min max d e

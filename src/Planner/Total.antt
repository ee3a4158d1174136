-- ===== src/Planner/Total.antt =====
-- `build_plan` returns a plan where its slices cannot panic.
use bbkar.Common.{ℕ, zero, suc, ◌+◌, ◌^◌, ◌≤◌, ◌<◌, ◌≡◌, refl, ap, subst, arith, Bool, true}
use bbkar.Common.{
  Option, none, some, List, [], ◌∷◌, map, reverse, length, All, Bool-cases, Option-cases, inl, inr,
  ltb, find?,
}
use bbkar.Common.{some_of, not, ◌||◌}
use bbkar.Common.Br.{Br, ok, unwrap, ◌>>=◌}
use bbkar.Common.Int.{ℤ}
use bbkar.Common.Search.{All-reverse, find?-All}
use bbkar.Common.Text.{Text, len, split_at, len_utf8, parse_i64}
use bbkar.Dest.{VolumeArchive, DestState, is_incremental}
use bbkar.Dest.Lookup.{IsSound}
use bbkar.Duration.Ascii.{IsAscii, len-IsAscii, split_at-IsAscii}
use bbkar.Plan.{RunPlan}
use bbkar.Planner.{
  PlanState, would_exceed_depth, depth_of, slice, with_year, parse_date_to_days, interval_from,
  check_interval_exceeded,
}
use bbkar.Planner.{
  needs_full, push_full, push_incremental, push_step, plan_snapshot, plan_snapshots, contains,
  find_parent_candidate,
}
use bbkar.Planner.{build_plan, archives_of, last_full_of}
use bbkar.Planner.Refine.{start_plan-Agrees}
use bbkar.Policy.{SendPolicy}
use bbkar.Source.{SourceState}
use bbkar.Timestamp.{Timestamp}

-- What a slice of `n` bytes leaves: both parts in ASCII, the first of `n` characters.
abbrev Parts : ℕ → Text → Text × Text → Type 0
Parts n s p = IsAscii p.0 × IsAscii p.1 × (length p.0 ≡ n) × (n + length p.1 ≡ length s)

split_at-Parts :
    (n : ℕ) (s : Text) {p : Text × Text} → IsAscii s → split_at n s ≡ some p → Parts n s p
unfolding split_at len_utf8
split_at-Parts zero s {p} h e =
    let same : ([], s) ≡ p = ground arith in subst (Parts 0 s) same (tt, h, refl, omega arith)
split_at-Parts (suc n) [] h e = ground arith
split_at-Parts (suc n) (c ∷ s) {p} h e = elim (Option-cases (split_at n s)) [
  | inl nothing ↦ ground (arith, h.0)
  | inr ((a, b), f) ↦
      let (ascii_a, ascii_b, of_n, all) = split_at-Parts n s h.1 f in
      let same : (c ∷ a, b) ≡ p = ground (arith, h.0) in
      subst (Parts (suc n) (c ∷ s)) same ((h.0, ascii_a), ascii_b, omega arith, omega arith)
]

slice-ok :
    (n : ℕ) (s : Text)
    → IsAscii s
    → n ≤ length s
    → (p : Text × Text) × (slice n s ≡ ok p) × Parts n s p
unfolding slice
slice-ok n s h le =
    let (p, e) = some_of (split_at n s) (split_at-IsAscii n s le h) in
    (p, ap unwrap e, split_at-Parts n s h e)

bound :
    {A B : Type 0} (m : Br A) {a : A} (f : A → B)
    → m ≡ ok a
    → (b : B) × ((m >>= λ q. ok (f q)) ≡ ok b)
bound m {a} f e = (f a, ap (λ z. z >>= λ q. ok (f q)) e)

with_year-ok :
    (year : Option ℤ) (rest : Text)
    → IsAscii rest
    → 2 ≤ length rest
    → (d : Option ℤ) × (with_year year rest ≡ ok d)
with_year-ok none rest h le = (none, refl)
with_year-ok (some year) rest h le =
    let (p, e, parts) = slice-ok 2 rest h le in bound (slice 2 rest) _ e

parse_date_to_days-ok : (t : Text) → IsAscii t → (d : Option ℤ) × (parse_date_to_days t ≡ ok d)
unfolding parse_date_to_days
parse_date_to_days-ok t h = elim (Bool-cases (ltb (len t) 8)) [
  | inl short ↦ (none, rw short refl)
  | inr long ↦
      let same = len-IsAscii t h in
      let (p, e, parts) = slice-ok 8 t h (ground arith) in
      let (q, f, pieces) = slice-ok 4 p.0 parts.0 (omega (arith, parts.2)) in
      let (d, g) = with_year-ok (parse_i64 q.0) q.1 pieces.1 (omega (arith, parts.2, pieces.3)) in
      (d, rw (long, e, f) g)
]

abbrev IsAsciiDate : Timestamp → Type 0
IsAsciiDate t = IsAscii t.timestamp

abbrev IsAsciiLast : Option Timestamp → Type 0
IsAsciiLast none = Unit
IsAsciiLast (some t) = IsAsciiDate t

check_interval_exceeded-ok :
    (last : Option Timestamp) (snap : Timestamp) (days : ℕ)
    → IsAsciiLast last
    → IsAsciiDate snap
    → (b : Bool) × (check_interval_exceeded last snap days ≡ ok b)
unfolding check_interval_exceeded
check_interval_exceeded-ok none snap days h k = (true, refl)
check_interval_exceeded-ok (some last) snap days h k =
    let (start, e) = parse_date_to_days-ok last.timestamp h in
    let (now, f) = parse_date_to_days-ok snap.timestamp k in rw e (from start now f)
  where
    from :
        (start now : Option ℤ)
        → parse_date_to_days snap.timestamp ≡ ok now
        → (b : Bool) × (interval_from start snap days ≡ ok b)
    from none now f = (true, refl)
    from (some start) now f = bound (parse_date_to_days snap.timestamp) _ f

push_step-ok :
    (policy : SendPolicy) (st : PlanState) (snap : Timestamp) (parent : Option Timestamp)
    → IsAsciiLast st.last_full
    → IsAsciiDate snap
    → (st' : PlanState) × ((needs_full policy st snap parent >>= push_step st snap parent) ≡ ok st')
      × IsAsciiLast st'.last_full
unfolding needs_full
push_step-ok policy st snap none h k = (push_full st snap, refl, k)
push_step-ok policy st snap (some parent) h k =
    let (b, e) =
      check_interval_exceeded-ok st.last_full snap policy.min_full_send_interval.days h k in
    elim (Bool-cases
      (would_exceed_depth policy.max_incremental_depth (depth_of st.depth_cache parent) || b)) [
        | inl full ↦ (push_full st snap, ground (arith, e, full), k)
        | inr incremental ↦ (push_incremental st snap parent, ground (arith, e, incremental), h)
      ]

plan_snapshots-ok :
    (policy : SendPolicy) (snapshots : List Timestamp) (names : List Text) (rest : List Timestamp)
    (st : PlanState)
    → IsAsciiLast st.last_full
    → All IsAsciiDate rest
    → (st' : PlanState) × (plan_snapshots policy snapshots names rest st ≡ ok st')
unfolding plan_snapshots plan_snapshot
plan_snapshots-ok policy snapshots names [] st h k = (st, refl)
plan_snapshots-ok policy snapshots names (snap ∷ rest) st h k =
    elim (Bool-cases (contains st.dest_set snap.raw)) [
      | inl there ↦ rw there (plan_snapshots-ok policy snapshots names rest st h k.1)
      | inr new ↦
          let (st', e, h') =
            push_step-ok policy st snap (find_parent_candidate snap st.dest_set names snapshots) h
              k.0 in
          let (st'', f) = plan_snapshots-ok policy snapshots names rest st' h' k.1 in
          (st'', rw (new, e) f)
    ]

last_full_of-ascii :
    (l : List VolumeArchive) → All (λ a. IsAsciiDate a.timestamp) l → IsAsciiLast (last_full_of l)
unfolding last_full_of
last_full_of-ascii l h = elim (Option-cases (find? (λ a. not (is_incremental a)) (reverse l))) [
  | inl nothing ↦ rw nothing tt
  | inr (a, found) ↦
      rw found (find?-All (λ b. IsAsciiDate b.timestamp) _ (reverse l) found (All-reverse _ l h))
]

-- Over sound metadata with fewer than 2 ^ 32 archives, and with dates in ASCII, build_plan returns
-- a plan: it neither fails nor panics, and its recursion on the parents ends.
pub build_plan-ok :
    (src : SourceState) (dest : DestState) (policy : SendPolicy)
    → IsSound (archives_of dest)
    → length (archives_of dest) < 2 ^ 32
    → All (λ a. IsAscii a.timestamp.timestamp) (archives_of dest)
    → All (λ s. IsAscii s.timestamp) src.volume.snapshots
    → (plan : RunPlan) × (build_plan src dest policy ≡ ok plan)
unfolding build_plan
build_plan-ok src dest policy sound small dates snapshot_dates =
    let (st, started, agrees, last, none_yet) = start_plan-Agrees (archives_of dest) sound small in
    let ascii_last : IsAsciiLast st.last_full =
      rw last (last_full_of-ascii (archives_of dest) dates) in
    let (st', looped) =
      plan_snapshots-ok policy src.volume.snapshots (map (λ s. s.raw) src.volume.snapshots)
        src.volume.snapshots st ascii_last snapshot_dates in
    (record { steps = st'.steps }, rw (started, looped) refl)

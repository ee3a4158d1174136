-- ===== src/Planner/Step.antt =====
-- One round of the loop of `build_plan` follows the specification of its step.
use bbkar.Archive.{archive_of}
use bbkar.Common.{ℕ, suc, ◌^◌, ◌<◌, ◌≡◌, refl, ◌∙◌, false, none}
use bbkar.Common.{
  some, List, [], ◌∷◌, ◌++◌, map, arith, subst, length, Bool-cases, Option-cases, inl,
}
use bbkar.Common.{inr}
use bbkar.Common.Br.{ok, ◌>>=◌, bind-eq-ok}
use bbkar.Common.Text.{Text}
use bbkar.Dest.{ChunkFilename, VolumeArchive, sort_archives}
use bbkar.Dest.Lookup.{named, lookup, IsSound, lookup-snoc, lookup-snoc_self}
use bbkar.Plan.{RunStep, send_full, send_incremental}
use bbkar.Planner.{PlanState, contains, cache_get, needs_full, plan_snapshot, push_full}
use bbkar.Planner.{
  push_step, push_incremental, find_parent_candidate, check_interval_exceeded, add_u32, depth_of,
}
use bbkar.Planner.Candidate.{SameNames, IsParent, find_parent_candidate-IsParent}
use bbkar.Planner.Candidate.{find_parent_candidate-NoParent}
use bbkar.Planner.Depth.{Chain, Chain-snoc, IsRight, IsRight-cons, IsCached, add_u32-suc}
use bbkar.Planner.Spec.{store, next_full, Sends, orphan, too_deep, too_old, incremental}
use bbkar.Planner.Spec.{less-IsParent, Limit-cases}
use bbkar.Policy.{SendPolicy}
use bbkar.Source.{IsOldestFirst}
use bbkar.Timestamp.{Timestamp}

-- The loop's variables describe the archives that the steps so far give.
pub record Agrees (l : List VolumeArchive) (st : PlanState) : Type 0 where
  pub same : SameNames st.dest_set l
  pub right : IsRight l st.depth_cache
  pub cached : (r : Text) (a : VolumeArchive) → lookup l r ≡ some a → IsCached st.depth_cache r

pub SameNames-names : (l : List VolumeArchive) → SameNames (map (λ a. a.timestamp.raw) l) l
unfolding contains lookup
SameNames-names [] r = refl
SameNames-names (a ∷ l) r = ground (arith, SameNames-names l r)

module _ (policy : SendPolicy) (snapshots : List Timestamp) (sorted : IsOldestFirst snapshots) where
  abbrev pub src_names : List Text
  src_names = map (λ t. t.raw) snapshots

  SameNames-store :
      (l : List VolumeArchive) (dest_set : List Text) (a : VolumeArchive)
      → IsSound l
      → lookup l a.timestamp.raw ≡ none
      → SameNames dest_set l
      → SameNames (a.timestamp.raw ∷ dest_set) (sort_archives (l ++ a ∷ []))
  unfolding contains
  SameNames-store l dest_set a s new same r =
      ground (arith, lookup-snoc l a r s.distinct new, same r)

  IsCached-store :
      (l : List VolumeArchive) (st : PlanState) (a : VolumeArchive) (d : ℕ)
      → IsSound l
      → lookup l a.timestamp.raw ≡ none
      → Agrees l st
      → (r : Text) (b : VolumeArchive) → lookup (sort_archives (l ++ a ∷ [])) r ≡ some b
      → IsCached ((a.timestamp.raw, d) ∷ st.depth_cache) r
  unfolding cache_get
  IsCached-store l st a d s new agrees r b h = elim (Bool-cases (named r a)) [
    | inl here ↦ (d, rw here)
    | inr other ↦
        let (e, hit) = agrees.cached r b (ground (arith, lookup-snoc l a r s.distinct new)) in
        (e, rw other hit)
  ]

  -- The state after a step for the archive `a`, of depth `d`.
  Agrees-store :
      (l : List VolumeArchive) (st st' : PlanState) (a : VolumeArchive) (d : ℕ)
      → IsSound l
      → lookup l a.timestamp.raw ≡ none
      → Agrees l st
      → Chain (sort_archives (l ++ a ∷ [])) a.timestamp.raw d
      → st'.dest_set ≡ a.timestamp.raw ∷ st.dest_set
      → st'.depth_cache ≡ (a.timestamp.raw, d) ∷ st.depth_cache
      → Agrees (sort_archives (l ++ a ∷ [])) st'
  Agrees-store l st st' a d s new agrees chain e f = record {
    same = rw e (SameNames-store l st.dest_set a s new agrees.same);
    right = rw f (
        IsRight-cons chain
          (record { at = λ r k h. Chain-snoc a s.distinct new (agrees.right.at r k h) }));
    cached = rw f (IsCached-store l st a d s new agrees);
  }

  -- What the body of the loop does with a snapshot that is not archived.
  pub record Stepped (l : List VolumeArchive) (st : PlanState) (snap : Timestamp) (st' : PlanState)
      : Type 0 where
    pub step : RunStep
    pub sends : Sends policy snapshots l st.last_full snap step
    pub pushed : st'.steps ≡ st.steps ++ step ∷ []
    pub agrees : (chunks : List ChunkFilename) → Agrees (store chunks l step) st'
    pub last : st'.last_full ≡ next_full st.last_full step

  Stepped-full :
      (l : List VolumeArchive) (st : PlanState) (snap : Timestamp)
      → IsSound l
      → lookup l snap.raw ≡ none
      → Agrees l st
      → Sends policy snapshots l st.last_full snap (send_full snap)
      → Stepped l st snap (push_full st snap)
  Stepped-full l st snap s new agrees sends = record {
    step = send_full snap;
    sends = sends;
    pushed = refl;
    agrees = λ chunks.
        Agrees-store l st (push_full st snap) (archive_of (send_full snap) chunks) 0 s new agrees
          (Chain.full _ (lookup-snoc_self l _ s.distinct new) refl) refl refl;
    last = refl;
  }

  Stepped-incremental :
      (l : List VolumeArchive) (st : PlanState) (snap p : Timestamp) (d : ℕ)
      → IsSound l
      → lookup l snap.raw ≡ none
      → Agrees l st
      → Chain l p.raw d
      → add_u32 (depth_of st.depth_cache p) 1 ≡ suc d
      → Sends policy snapshots l st.last_full snap (send_incremental snap p)
      → Stepped l st snap (push_incremental st snap p)
  Stepped-incremental l st snap p d s new agrees c depth sends = record {
    step = send_incremental snap p;
    sends = sends;
    pushed = refl;
    agrees = λ chunks.
        Agrees-store l st (push_incremental st snap p) (archive_of (send_incremental snap p) chunks)
          (suc d) s new agrees
          (Chain.above _ p.raw (lookup-snoc_self l _ s.distinct new) refl
            (Chain-snoc _ s.distinct new c))
          refl (rw depth);
    last = refl;
  }

  -- A candidate was found.
  Stepped-parent :
      (l : List VolumeArchive) (st st' : PlanState) (snap p : Timestamp)
      → IsSound l
      → length l < 2 ^ 32
      → lookup l snap.raw ≡ none
      → Agrees l st
      → IsParent l snapshots snap p
      → (needs_full policy st snap (some p) >>= push_step st snap (some p)) ≡ ok st'
      → Stepped l st snap st'
  unfolding needs_full
  Stepped-parent l st st' snap p s small new agrees i h =
      let (d, hit) = agrees.cached p.raw i.archive i.archived in
      let c = agrees.right.at p.raw d hit in
      let depth : add_u32 (depth_of st.depth_cache p) 1 ≡ suc d = rw hit (
        add_u32-suc l s small p.raw snap.raw i.archived (less-IsParent l snapshots snap p i new)
          c) in
      let (full, decided, pushed) =
        bind-eq-ok (needs_full policy st snap (some p)) (push_step st snap (some p)) h in
      let (exceeded, checked, both) =
        bind-eq-ok (check_interval_exceeded st.last_full snap policy.min_full_send_interval.days) _
          decided in
      elim (Bool-cases exceeded) [
        | inl old ↦
            subst (Stepped l st snap) (ground arith)
              (Stepped-full l st snap s new agrees (too_old p i (rw old at checked) refl))
        | inr young ↦ elim (Limit-cases policy.max_incremental_depth (suc d)) [
          | inl deep ↦
              subst (Stepped l st snap) (ground arith)
                (Stepped-full l st snap s new agrees (too_deep p d i c deep.0 refl))
          | inr fits ↦ subst (Stepped l st snap) (ground arith) (
              Stepped-incremental l st snap p d s new agrees c depth
                (incremental p d i c fits.0 (rw young at checked) refl))
        ]
      ]

  pub plan_snapshot-Stepped :
      (l : List VolumeArchive) (st st' : PlanState) (snap : Timestamp)
      → IsSound l
      → length l < 2 ^ 32
      → lookup l snap.raw ≡ none
      → Agrees l st
      → plan_snapshot policy snapshots src_names st snap ≡ ok st'
      → Stepped l st snap st'
  unfolding plan_snapshot
  plan_snapshot-Stepped l st st' snap s small new agrees h =
      let absent : contains st.dest_set snap.raw ≡ false = agrees.same snap.raw ∙ rw new in
      let h' = rw absent at h in
      elim (Option-cases (find_parent_candidate snap st.dest_set src_names snapshots)) [
        | inl missing ↦ subst (Stepped l st snap) (ground arith) (
            Stepped-full l st snap s new agrees (
              orphan
                (find_parent_candidate-NoParent l snapshots st.dest_set agrees.same snap missing)
                refl))
        | inr (p, found) ↦
            Stepped-parent l st st' snap p s small new agrees
              (find_parent_candidate-IsParent l snapshots st.dest_set agrees.same snap sorted found)
              (rw found at h')
      ]

  pub plan_snapshot-archived :
      (l : List VolumeArchive) (st : PlanState) (snap : Timestamp) (a : VolumeArchive)
      → lookup l snap.raw ≡ some a
      → Agrees l st
      → plan_snapshot policy snapshots src_names st snap ≡ ok st
  unfolding plan_snapshot
  plan_snapshot-archived l st snap a old agrees = ground (arith, agrees.same snap.raw)

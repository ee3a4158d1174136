-- ===== src/Planner/Refine.antt =====
-- The loop of `build_plan` follows the specification of its steps.
use bbkar.Archive.{archive_of}
use bbkar.Common.{suc, ◌+◌, ◌^◌, ◌<◌, ◌≡◌, refl, sym, ◌∙◌}
use bbkar.Common.{List, [], ◌∷◌, ◌++◌, map, arith, subst, length, Option-cases, inl}
use bbkar.Common.{inr}
use mathlib.Core.Path.{subst₂}
use mathlib.Core.List.{append-nil, append_assoc}
use native.Mathlib.Numerals.{add-one}
use bbkar.Common.{length-append}
use bbkar.Common.Sort.{length-sort}
use bbkar.Common.Br.{ok, bind-eq-ok}
use bbkar.Common.Text.{Text}
use bbkar.Dest.{ChunkFilename, VolumeArchive, DestState}
use bbkar.Dest.Lookup.{lookup, IsSound, lookup_self, lookup-All, lookup-raw}
use bbkar.Plan.{RunStep, RunPlan}
use bbkar.Planner.{PlanState, plan_snapshot, plan_snapshots}
use bbkar.Planner.{build_plan, archives_of, start_plan, last_full_of}
use bbkar.Planner.Depth.{IsRight-nil, IsCached, cache_depths-Filled}
use bbkar.Planner.Spec.{store, Plans}
use bbkar.Planner.Spec.{Sends-IsSound, done, skip, send}
use bbkar.Policy.{SendPolicy}
use bbkar.Source.{SourceState, IsOldestFirst}
use bbkar.Timestamp.{Timestamp, timestamp_order}
use bbkar.Planner.Step.{Agrees, SameNames-names, plan_snapshot-Stepped, plan_snapshot-archived}

append-cancel {ℓ} : {A : Type ℓ} (xs : List A) {ys zs : List A} → xs ++ ys ≡ xs ++ zs → ys ≡ zs
append-cancel [] h = h
append-cancel (x ∷ xs) h = append-cancel xs (ground arith)

module _ (policy : SendPolicy) (snapshots : List Timestamp) (sorted : IsOldestFirst snapshots) where
  abbrev src_names : List Text
  src_names = map (λ t. t.raw) snapshots

  length-store :
      (l : List VolumeArchive) (chunks : List ChunkFilename) (step : RunStep)
      → length (store chunks l step) ≡ suc (length l)
  length-store l chunks step =
      length-sort timestamp_order (λ a. a.timestamp) (l ++ archive_of step chunks ∷ [])
      ∙ length-append l (archive_of step chunks ∷ [])
      ∙ add-one (length l)

  -- The whole loop, from any point of it.
  pub plan_snapshots-Plans :
      (rest : List Timestamp) (l : List VolumeArchive) (st st' : PlanState)
      → IsSound l
      → length l + length rest < 2 ^ 32
      → Agrees l st
      → plan_snapshots policy snapshots src_names rest st ≡ ok st'
      → (steps : List RunStep) × (st'.steps ≡ st.steps ++ steps)
        × Plans policy snapshots l st.last_full rest steps
  unfolding plan_snapshots
  plan_snapshots-Plans [] l st st' s small agrees h =
      ([], ground (arith, append-nil st.steps), done)
  plan_snapshots-Plans (snap ∷ rest) l st st' s small agrees h =
      let (st₁, one, others) = bind-eq-ok (plan_snapshot policy snapshots src_names st snap) _ h in
      elim (Option-cases (lookup l snap.raw)) [
        | inl new ↦
            let now =
              plan_snapshot-Stepped policy snapshots sorted l st st₁ snap s (omega arith) new agrees
                one in
            let after : (chunks : List ChunkFilename)
                → (steps : List RunStep) × (st'.steps ≡ st₁.steps ++ steps)
                  × Plans policy snapshots (store chunks l now.step) st₁.last_full rest steps =
              λ chunks.
                plan_snapshots-Plans rest (store chunks l now.step) st₁ st'
                  (Sends-IsSound policy snapshots chunks now.sends new s)
                  (omega (arith, length-store l chunks now.step)) (now.agrees chunks) others in
            let (steps, e, plans) = after [] in
            (
              now.step ∷ steps,
              ground (arith, now.pushed, append_assoc st.steps (now.step ∷ []) steps),
              send snap now.step new now.sends (λ chunks.
                  subst (λ z. Plans policy snapshots (store chunks l now.step) z rest steps)
                    now.last
                    (subst (Plans policy snapshots (store chunks l now.step) st₁.last_full rest)
                      (append-cancel st₁.steps (sym (after chunks).1 ∙ e)) (after chunks).2)),
            )
        | inr (a, old) ↦
            let same : st ≡ st₁ =
              ground
                (arith, plan_snapshot-archived policy snapshots sorted l st snap a old agrees) in
            let (steps, e, plans) = plan_snapshots-Plans rest l st st' s (omega arith) agrees (
              subst (λ z. plan_snapshots policy snapshots src_names rest z ≡ ok st') (sym same)
                others) in
            (steps, e, skip snap a old plans)
      ]

-- The state before the loop describes the archives at the destination.
pub start_plan-Agrees :
    (l : List VolumeArchive)
    → IsSound l
    → length l < 2 ^ 32
    → (st : PlanState) × (start_plan l ≡ ok st)
      × Agrees l st
      × (st.last_full ≡ last_full_of l)
      × (st.steps ≡ [])
unfolding start_plan
start_plan-Agrees l s small =
    let filled =
      cache_depths-Filled l s small (suc (length l)) l [] (omega arith) (lookup_self l)
        (IsRight-nil l) in
    (
      record {
        dest_set = map (λ a. a.timestamp.raw) l;
        depth_cache = filled.after;
        last_full = last_full_of l;
        steps = [];
      },
      rw filled.returned,
      record {
        same = SameNames-names l;
        right = filled.right;
        cached = λ r a e.
            subst (IsCached filled.after) (lookup-raw l r e)
              (lookup-All (λ b. IsCached filled.after b.timestamp.raw) l r e filled.all_cached);
      },
      refl,
      refl,
    )

-- For a plan that build_plan has returned for sorted snapshots, over sound metadata and with fewer
-- than 2 ^ 32 archives and snapshots together: it follows the specification. From the oldest
-- snapshot on, each one that is not archived is sent, in full if no older snapshot is archived, if
-- the chain below it has reached the depth limit or if the interval is over, and otherwise on top
-- of the newest older archived snapshot.
pub build_plan-Plans :
    (src : SourceState) (dest : DestState) (policy : SendPolicy) {plan : RunPlan}
    → IsOldestFirst src.volume.snapshots
    → IsSound (archives_of dest)
    → length (archives_of dest) + length src.volume.snapshots < 2 ^ 32
    → build_plan src dest policy ≡ ok plan
    → Plans policy src.volume.snapshots
        (archives_of dest)
        (last_full_of (archives_of dest))
        src.volume.snapshots
        plan.steps
unfolding build_plan
build_plan-Plans src dest policy {plan} sorted s small h =
    let l = archives_of dest in
    let snapshots = src.volume.snapshots in
    let (st, started, agrees, last, none_yet) = start_plan-Agrees l s (omega arith) in
    let (st', looped, made) =
      bind-eq-ok (plan_snapshots policy snapshots (map (λ t. t.raw) snapshots) snapshots st) _
        (rw started at h) in
    let (steps, e, plans) =
      plan_snapshots-Plans policy snapshots sorted snapshots l st st' s small agrees looped in
    subst₂ (λ z w. Plans policy snapshots l z snapshots w) last (ground arith) plans

-- ===== src/Planner/Spec.antt =====
-- What the planner promises: a relation between the archives, the snapshots still to look at and
-- the steps of the plan. Each step is stored before the next snapshot is looked at.
use Prim.Native.Nat.Ordering.{lt}
use bbkar.Archive.{archive_of, snapshot_of, timestamp-archive_of}
use bbkar.Common.{
  ℕ, suc, ◌≤◌, ◌<◌, ◌≡◌, refl, ap, ◌∙◌, Bool, leb, ◌⊎◌, inr, true, false, Option, none, some, List,
  [], ◌∷◌, ◌++◌,
}
use bbkar.Common.{arith, subst}
use bbkar.Common.Br.{ok}
use bbkar.Common.Text.{compare_text, eq_of_compare_text}
use bbkar.Dest.{ChunkFilename, VolumeArchive, sort_archives}
use bbkar.Dest.Lookup.{lookup, IsSound, IsSound-snoc}
use bbkar.Plan.{RunStep, send_full, send_incremental}
use bbkar.Planner.{check_interval_exceeded}
use bbkar.Planner.Candidate.{IsParent, NoParent}
use bbkar.Planner.Depth.{Chain}
use bbkar.Policy.{SendPolicy}
use bbkar.Timestamp.{Timestamp, compare_timestamp}

-- The chunks that sending a step leaves at the destination.
abbrev pub Uploads : Type 0
Uploads = RunStep → List ChunkFilename

-- The archives after a step that left these chunks.
abbrev pub store : List ChunkFilename → List VolumeArchive → RunStep → List VolumeArchive
store chunks l step = sort_archives (l ++ archive_of step chunks ∷ [])

-- The archives after all steps.
abbrev pub store_all : Uploads → List VolumeArchive → List RunStep → List VolumeArchive
store_all uploads l [] = l
store_all uploads l (step ∷ steps) = store_all uploads (store (uploads step) l step) steps

abbrev pub next_full : Option Timestamp → RunStep → Option Timestamp
next_full last (send_full snap) = some snap
next_full last (send_incremental snap parent) = last

abbrev pub would_reach : Option ℕ → ℕ → Bool
would_reach none depth = false
would_reach (some limit) depth = leb limit depth

-- With no limit any depth is allowed.
abbrev pub IsBelow : Option ℕ → ℕ → Type 0
IsBelow none depth = Unit
IsBelow (some limit) depth = depth < limit

abbrev pub Reaches : Option ℕ → ℕ → Type 0
Reaches none depth = ⊥
Reaches (some limit) depth = limit ≤ depth

pub Limit-cases :
    (limit : Option ℕ) (depth : ℕ)
    → Reaches limit depth × (would_reach limit depth ≡ true)
      ⊎ IsBelow limit depth × (would_reach limit depth ≡ false)
Limit-cases none depth = inr (tt, refl)
Limit-cases (some limit) depth = ground arith

module _ (policy : SendPolicy) (snapshots : List Timestamp) where
  -- The step for a snapshot that is not archived yet.
  pub data Sends (l : List VolumeArchive) (last : Option Timestamp) (snap : Timestamp)
      (step : RunStep) : Type 0 where
    orphan : NoParent l snapshots snap → step ≡ send_full snap → Sends l last snap step
    too_deep :
        (p : Timestamp) (d : ℕ)
        → IsParent l snapshots snap p
        → Chain l p.raw d
        → Reaches policy.max_incremental_depth (suc d)
        → step ≡ send_full snap
        → Sends l last snap step
    too_old :
        (p : Timestamp)
        → IsParent l snapshots snap p
        → check_interval_exceeded last snap policy.min_full_send_interval.days ≡ ok true
        → step ≡ send_full snap
        → Sends l last snap step
    incremental :
        (p : Timestamp) (d : ℕ)
        → IsParent l snapshots snap p
        → Chain l p.raw d
        → IsBelow policy.max_incremental_depth (suc d)
        → check_interval_exceeded last snap policy.min_full_send_interval.days ≡ ok false
        → step ≡ send_incremental snap p
        → Sends l last snap step

  -- The plan does not depend on the chunks that its steps leave.
  pub data Plans
      : List VolumeArchive → Option Timestamp → List Timestamp → List RunStep → Type 0 where
    done : {l : List VolumeArchive} {last : Option Timestamp} → Plans l last [] []
    skip :
        {l : List VolumeArchive} {last : Option Timestamp} {rest : List Timestamp}
        {steps : List RunStep} (snap : Timestamp) (a : VolumeArchive)
        → lookup l snap.raw ≡ some a
        → Plans l last rest steps
        → Plans l last (snap ∷ rest) steps
    send :
        {l : List VolumeArchive} {last : Option Timestamp} {rest : List Timestamp}
        {steps : List RunStep} (snap : Timestamp) (step : RunStep)
        → lookup l snap.raw ≡ none
        → Sends l last snap step
        → ((chunks : List ChunkFilename)
            → Plans (store chunks l step) (next_full last step) rest steps)
        → Plans l last (snap ∷ rest) (step ∷ steps)

  pub snapshot_of-Sends :
      {l : List VolumeArchive} {last : Option Timestamp} {snap : Timestamp} {step : RunStep}
      → Sends l last snap step
      → snapshot_of step ≡ snap
  snapshot_of-Sends (orphan n e) = ground arith
  snapshot_of-Sends (too_deep p d i c r e) = ground arith
  snapshot_of-Sends (too_old p i c e) = ground arith
  snapshot_of-Sends (incremental p d i c b k e) = ground arith

  pub raw-Sends :
      {l : List VolumeArchive} {last : Option Timestamp} {snap : Timestamp} {step : RunStep}
      (chunks : List ChunkFilename)
      → Sends l last snap step
      → (archive_of step chunks).timestamp.raw ≡ snap.raw
  raw-Sends {step} chunks s =
      ap (λ (t : Timestamp). t.raw) (timestamp-archive_of step chunks ∙ snapshot_of-Sends s)

-- An older archived snapshot has a smaller name than one that is not archived.
pub less-IsParent :
    (l : List VolumeArchive) (snapshots : List Timestamp) (snap p : Timestamp)
    → IsParent l snapshots snap p
    → lookup l snap.raw ≡ none
    → compare_text p.raw snap.raw ≡ lt
unfolding compare_timestamp
less-IsParent l snapshots snap p i new =
    ground (arith, i.older, i.archived, eq_of_compare_text p.raw snap.raw)

module _ (policy : SendPolicy) (snapshots : List Timestamp) where
  -- A step that the planner may take keeps the metadata sound.
  pub Sends-IsSound :
      {l : List VolumeArchive} {last : Option Timestamp} {snap : Timestamp} {step : RunStep}
      (chunks : List ChunkFilename)
      → Sends policy snapshots l last snap step
      → lookup l snap.raw ≡ none
      → IsSound l
      → IsSound (store chunks l step)
  Sends-IsSound {l} chunks (orphan n e) new s = rw e (IsSound-snoc l _ s new (λ p h. ground arith))
  Sends-IsSound {l} chunks (too_deep p d i c r e) new s =
      rw e (IsSound-snoc l _ s new (λ p h. ground arith))
  Sends-IsSound {l} chunks (too_old p i c e) new s =
      rw e (IsSound-snoc l _ s new (λ p h. ground arith))
  Sends-IsSound {l} {snap} chunks (incremental p d i c b k e) new s = rw e (
      IsSound-snoc l _ s new (λ q h.
        let same : p.raw ≡ q = ground arith in
        let less = less-IsParent l snapshots snap p i new in
        (i.archive, subst (λ r. lookup l r ≡ some i.archive) same i.archived, rw (← same) less)))

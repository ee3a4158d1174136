-- ===== src/Planner/Effects.antt =====
-- What carrying out a plan that follows the specification does, step by step.
use bbkar.Archive.{archive_of, snapshot_of}
use bbkar.Common.{ℕ, zero, suc, ◌≡◌, sym, true, Option}
use bbkar.Common.{none, some, List, [], ◌∷◌, arith, subst, All, All-imp, is_some}
use bbkar.Common.{Option-cases, ◌≢◌, inl, inr, take}
use bbkar.Common.Text.{Text}
use bbkar.Dest.{VolumeArchive}
use bbkar.Dest.Lookup.{lookup, IsSound, lookup-snoc_old, lookup-snoc_self}
use bbkar.Plan.{RunStep}
use bbkar.Planner.Depth.{Chain, Chain-snoc}
use bbkar.Planner.Spec.{Uploads, store, store_all, Sends}
use bbkar.Planner.Spec.{Plans, done, skip, send, snapshot_of-Sends, raw-Sends, Sends-IsSound}
use bbkar.Policy.{SendPolicy}
use bbkar.Timestamp.{Timestamp}

-- The snapshot of the step is not archived.
abbrev pub IsMissing : List VolumeArchive → RunStep → Type 0
IsMissing l step = lookup l (snapshot_of step).raw ≡ none

-- No name is sent twice.
abbrev pub AllDistinct : List RunStep → Type 0
AllDistinct [] = Unit
AllDistinct (step ∷ steps) =
    All (λ t. (snapshot_of t).raw ≢ (snapshot_of step).raw) steps × AllDistinct steps

module _ (policy : SendPolicy) (snapshots : List Timestamp) (uploads : Uploads) where
  -- After any number of steps the metadata is sound.
  pub Plans-IsSound :
      {l : List VolumeArchive} {last : Option Timestamp} {rest : List Timestamp}
      {steps : List RunStep}
      → Plans policy snapshots l last rest steps
      → IsSound l
      → (n : ℕ) → IsSound (store_all uploads l (take n steps))
  Plans-IsSound done s n = s
  Plans-IsSound (skip snap a e plans) s n = Plans-IsSound plans s n
  Plans-IsSound (send snap step new sends plans) s zero = s
  Plans-IsSound (send snap step new sends plans) s (suc n) =
      Plans-IsSound (plans (uploads step))
        (Sends-IsSound policy snapshots (uploads step) sends new s) n

  module _ {l : List VolumeArchive} {last : Option Timestamp} {snap : Timestamp} {step : RunStep}
      (sends : Sends policy snapshots l last snap step) (s : IsSound l)
      (new : lookup l snap.raw ≡ none) where
    is_new : lookup l (archive_of step (uploads step)).timestamp.raw ≡ none
    is_new =
        subst (λ r. lookup l r ≡ none) (sym (raw-Sends policy snapshots (uploads step) sends)) new

    pub kept-store :
        (r : Text) {a : VolumeArchive}
        → lookup l r ≡ some a
        → lookup (store (uploads step) l step) r ≡ some a
    kept-store r e = lookup-snoc_old l _ r s.distinct is_new e

    pub sent-store :
        lookup (store (uploads step) l step) snap.raw ≡ some (archive_of step (uploads step))
    sent-store =
        subst (λ r. lookup (store (uploads step) l step) r ≡ some (archive_of step (uploads step)))
          (raw-Sends policy snapshots (uploads step) sends) (lookup-snoc_self l _ s.distinct is_new)

    pub Chain-store : {r : Text} {d : ℕ} → Chain l r d → Chain (store (uploads step) l step) r d
    Chain-store c = Chain-snoc _ s.distinct is_new c

    pub IsSound-store : IsSound (store (uploads step) l step)
    IsSound-store = Sends-IsSound policy snapshots (uploads step) sends new s

  -- An archive that is there stays as it is.
  pub Plans-keeps :
      {l : List VolumeArchive} {last : Option Timestamp} {rest : List Timestamp}
      {steps : List RunStep} (r : Text) (a : VolumeArchive)
      → Plans policy snapshots l last rest steps
      → IsSound l
      → lookup l r ≡ some a
      → lookup (store_all uploads l steps) r ≡ some a
  Plans-keeps r a done s e = e
  Plans-keeps r a (skip snap b f plans) s e = Plans-keeps r a plans s e
  Plans-keeps {l} r a (send snap step new sends plans) s e =
      Plans-keeps r a (plans (uploads step)) (IsSound-store sends s new)
        (kept-store sends s new r e)

  pub Plans-Chain :
      {l : List VolumeArchive} {last : Option Timestamp} {rest : List Timestamp}
      {steps : List RunStep} (r : Text) (d : ℕ)
      → Plans policy snapshots l last rest steps
      → IsSound l
      → Chain l r d
      → Chain (store_all uploads l steps) r d
  Plans-Chain r d done s c = c
  Plans-Chain r d (skip snap b f plans) s c = Plans-Chain r d plans s c
  Plans-Chain {l} r d (send snap step new sends plans) s c =
      Plans-Chain r d (plans (uploads step)) (IsSound-store sends s new) (Chain-store sends s new c)

  -- Every snapshot is archived at the end.
  pub Plans-covers :
      {l : List VolumeArchive} {last : Option Timestamp} {rest : List Timestamp}
      {steps : List RunStep}
      → Plans policy snapshots l last rest steps
      → IsSound l
      → All (λ snap. is_some (lookup (store_all uploads l steps) snap.raw) ≡ true) rest
  Plans-covers done s = tt
  Plans-covers (skip snap a e plans) s =
      (rw (Plans-keeps snap.raw a plans s e), Plans-covers plans s)
  Plans-covers {l} (send snap step new sends plans) s =
      let s' = IsSound-store sends s new in
      (
        rw (Plans-keeps snap.raw _ (plans (uploads step)) s' (sent-store sends s new)),
        Plans-covers (plans (uploads step)) s',
      )

  IsMissing-before :
      {l : List VolumeArchive} {last : Option Timestamp} {snap : Timestamp} {step : RunStep}
      (sends : Sends policy snapshots l last snap step)
      → IsSound l
      → lookup l snap.raw ≡ none
      → (t : RunStep) → IsMissing (store (uploads step) l step) t
      → IsMissing l t
  IsMissing-before {l} sends s new t e = elim (Option-cases (lookup l (snapshot_of t).raw)) [
    | inl none_there ↦ none_there
    | inr (a, old) ↦ ground (arith, kept-store sends s new (snapshot_of t).raw old)
  ]

  -- Only snapshots that were not archived are sent.
  pub Plans-IsMissing :
      {l : List VolumeArchive} {last : Option Timestamp} {rest : List Timestamp}
      {steps : List RunStep}
      → Plans policy snapshots l last rest steps
      → IsSound l
      → All (IsMissing l) steps
  Plans-IsMissing done s = tt
  Plans-IsMissing (skip snap a e plans) s = Plans-IsMissing plans s
  Plans-IsMissing (send {l = l} {steps = steps} snap step new sends plans) s = (
    rw (snapshot_of-Sends policy snapshots sends) new,
    All-imp (IsMissing-before sends s new) steps
        (Plans-IsMissing (plans (uploads step)) (IsSound-store sends s new)),
  )

  pub Plans-distinct :
      {l : List VolumeArchive} {last : Option Timestamp} {rest : List Timestamp}
      {steps : List RunStep}
      → Plans policy snapshots l last rest steps
      → IsSound l
      → AllDistinct steps
  Plans-distinct done s = tt
  Plans-distinct (skip snap a e plans) s = Plans-distinct plans s
  Plans-distinct (send {l = l} {steps = steps} snap step new sends plans) s =
      let s' = IsSound-store sends s new in
      (
        All-imp
            (λ t e same.
              ground (arith, sent-store sends s new, snapshot_of-Sends policy snapshots sends))
            steps (Plans-IsMissing (plans (uploads step)) s'),
        Plans-distinct (plans (uploads step)) s',
      )
  -- A full step starts a chain, and an incremental one stays below the limit on top of its

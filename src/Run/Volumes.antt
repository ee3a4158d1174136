-- ===== src/Run/Volumes.antt =====
-- A run over the volumes of one sync: cli/run.rs through the walk of cli/mod.rs.
use bbkar.Common.{◌≡◌, ◌≢◌, refl, sym, ap, subst, ◌+◌, ◌^◌, ◌<◌, arith, Bool, true, false}
use bbkar.Common.{Option, none, List, [], ◌∷◌, length, All, All-imp, All-zip, Bool-cases, inl, inr}
use bbkar.Common.{if◌then◌else◌, some_of}
use bbkar.Common.Io.{Ends, Ends-bind, Ends-done, Ends-weaken, done}
use bbkar.Common.Text.{Text, text_eq, text_eq_iff}
use bbkar.Config.{GlobalConfig, SourceSpec, DestSpec, find_entry}
use bbkar.Dest.{VolumeArchive, DestMeta}
use bbkar.Dest.Lookup.{lookup, IsSound}
use bbkar.Executor.{Keeps}
use bbkar.Inspect.{matches}
use bbkar.Inspect.Volumes.{Distinct, find_entry-absent}
use bbkar.Planner.{archives_of}
use bbkar.Policy.{SendPolicy}
use bbkar.Run.{RunTotals, run_volume, run_callbacks}
use bbkar.Run.Safety.{run_volume-IsSafe, run_volume-Covers}
use bbkar.Run.Steps.{IsSafe, Covers, Extends, stored_archives}
use bbkar.Run.Others.{run_volume-Keeping}
use bbkar.Storage.Components.{IsVolumeName}
use bbkar.Source.{SourceState, IsOldestFirst}
use bbkar.Sync.{VolumeContext, Host, States, volume_context, on_volumes}
use bbkar.Timestamp.{Timestamp}

pub Covers-Extends :
    (l : List Timestamp) (a b : List VolumeArchive) → Covers l a → Extends a b → Covers l b
Covers-Extends l a b c e =
    All-imp
      (λ (s : Timestamp) h.
        let (archive, found) = some_of (lookup a s.raw) h in rw (e s.raw archive found) refl)
      l c

-- The metadata of every volume with a plain name is sound.
abbrev pub AllSound : {W : Type 0} → (W → Text → Option DestMeta) → W → Type 0
AllSound stored w = (v : Text) → IsVolumeName v → IsSound (stored_archives stored v w)

-- From the world `w` on, the metadata of every volume is sound and has all that it had.
abbrev pub SafeFrom : {W : Type 0} → (W → Text → Option DestMeta) → W → W → Type 0
SafeFrom stored w w' = (v : Text) → IsVolumeName v → IsSafe stored v (stored_archives stored v w) w'

-- Every volume has a name that every backend tells apart.
abbrev pub AreNamed : States → Type 0
AreNamed = All (λ p. IsVolumeName p.0)

-- What is said of the archives and the snapshots of a volume
abbrev pub OfVolume :
    {W : Type 0}
    → (List VolumeArchive → SourceState → Type 0)
    → (W → Text → Option DestMeta)
    → W
    → Text × SourceState
    → Type 0
OfVolume P stored w p = P (stored_archives stored p.0 w) p.1

-- Few snapshots, from the oldest on
abbrev pub Fits : List VolumeArchive → SourceState → Type 0
Fits l state =
    (length l + length state.volume.snapshots < 2 ^ 32) × IsOldestFirst state.volume.snapshots

abbrev pub FitsVolume :
    {W : Type 0} → (W → Text → Option DestMeta) → W → Text × SourceState → Type 0
FitsVolume = OfVolume Fits

-- Every selected volume's snapshots are archived.
abbrev pub CoversAll : {W : Type 0} → (W → Text → Option DestMeta) → List Text → States → W → Type 0
CoversAll stored filters states w =
    All
      (λ p. matches filters p.0 ≡ true → Covers p.1.volume.snapshots (stored_archives stored p.0 w))
      states

pub SafeFrom-refl :
    {W : Type 0} (stored : W → Text → Option DestMeta) (w : W)
    → AllSound stored w
    → SafeFrom stored w w
SafeFrom-refl stored w sound v named = (sound v named, λ r a h. h)

SafeFrom-trans :
    {W : Type 0} (stored : W → Text → Option DestMeta) (w₀ w₁ w₂ : W)
    → SafeFrom stored w₀ w₁
    → SafeFrom stored w₁ w₂
    → SafeFrom stored w₀ w₂
SafeFrom-trans stored w₀ w₁ w₂ s t v named =
    ((t v named).0, λ r a h. (t v named).1 r a ((s v named).1 r a h))

module _ {W : Type 0} (stored : W → Text → Option DestMeta) where
  same_archives :
      (u : Text) (w w' : W)
      → stored w' u ≡ stored w u
      → stored_archives stored u w' ≡ stored_archives stored u w
  same_archives u w w' e = ap (λ o. archives_of (record { meta = o })) e

  same-IsSafe :
      (u : Text) (w w' : W)
      → IsSound (stored_archives stored u w)
      → stored w' u ≡ stored w u
      → IsSafe stored u (stored_archives stored u w) w'
  same-IsSafe u w w' sound e = rw (same_archives u w w' e) (sound, λ r a h. h)

module _ {W Stream : Type 0} (host : Host W Stream) {stored : W → Text → Option DestMeta}
    (filters : List Text) (name : Text) (global : GlobalConfig) {src : SourceSpec} {dest : DestSpec}
    (policy : SendPolicy) (laws : Keeps (host.executor src dest) stored) where
  abbrev context : Text → SourceState → VolumeContext
  context = volume_context name global src dest policy

  -- After the volume `v`: what is known of it, and that the others are as they were.
  abbrev pub AfterVolume : Bool → W → Text → SourceState → W → Type 0
  AfterVolume chosen w v state w' =
      (chosen ≡ true → Covers state.volume.snapshots (stored_archives stored v w'))
      × ((u : Text) → IsVolumeName u → u ≢ v → stored w' u ≡ stored w u)

  run_one-Ends :
      (totals : RunTotals) (v : Text) (state : SourceState) (w : W)
      → IsVolumeName v
      → AllSound stored w
      → FitsVolume stored w (v, state)
      → Ends
          (SafeFrom stored w)
          (λ t w'. AfterVolume true w v state w')
          (run_volume (host.executor src dest) (context v state) totals w)
  run_one-Ends totals v state w named sound (small, sorted) =
      let ran = run_volume (host.executor src dest) (context v state) totals w in
      let others : (u : Text) → IsVolumeName u → u ≢ v → stored ran.1 u ≡ stored w u =
        λ u named_u other.
          run_volume-Keeping laws (context v state) named u named_u other (stored w u) totals w
            refl in
      record {
        always = λ u named_u. elim (Bool-cases (text_eq u v)) [
          | inl same ↦
              subst (λ z. IsSafe stored z (stored_archives stored z w) ran.1)
                (sym ((text_eq_iff u v).0 same))
                (run_volume-IsSafe laws (context v state) named totals w sorted (sound v named)
                  small)
          | inr different ↦
              same-IsSafe stored u w ran.1 (sound u named_u)
                (others u named_u (λ e. ground (arith, text_eq_iff u v)))
        ];
        on_ok = λ t e. (
          λ always.
              run_volume-Covers laws (context v state) named totals w sorted (sound v named) small t
                e,
          others,
        );
      }

  pub visit-Ends :
      (chosen : Bool) (totals : RunTotals) (v : Text) (state : SourceState) (w : W)
      → IsVolumeName v
      → AllSound stored w
      → FitsVolume stored w (v, state)
      → Ends
          (SafeFrom stored w)
          (λ t w'. AfterVolume chosen w v state w')
          ((if chosen then (run_callbacks host).on_volume totals (context v state) else done totals)
            w)
  unfolding run_callbacks
  visit-Ends true totals v state w named sound fits = run_one-Ends totals v state w named sound fits
  visit-Ends false totals v state w named sound fits =
      Ends-done totals w (SafeFrom-refl stored w sound) (λ e. ground arith, λ u named_u other. refl)

  -- What holds of the other volumes still does after one of them.
  pub still :
      (P : List VolumeArchive → SourceState → Type 0) (states : States) (v : Text) (w w' : W)
      → ((u : Text) → IsVolumeName u → u ≢ v → stored w' u ≡ stored w u)
      → AreNamed states
      → find_entry states v ≡ none
      → All (OfVolume P stored w) states
      → All (OfVolume P stored w') states
  still P states v w w' others named absent holds =
      All-imp
        (λ (p : Text × SourceState) h.
          rw (same_archives stored p.0 w w' (others p.0 h.0.0 h.0.1)) h.1)
        states
        (All-zip (λ p. IsVolumeName p.0 × (p.0 ≢ v)) (OfVolume P stored w) states
          (All-zip (λ p. IsVolumeName p.0) (λ p. p.0 ≢ v) states named
            (find_entry-absent states v absent))
          holds)

  pub on_volumes-Ends :
      (states : States) (totals : RunTotals) (w : W)
      → Distinct states
      → AreNamed states
      → AllSound stored w
      → All (FitsVolume stored w) states
      → Ends
          (SafeFrom stored w)
          (λ t w'. CoversAll stored filters states w')
          (on_volumes host (run_callbacks host) filters context totals states w)
  unfolding on_volumes
  on_volumes-Ends [] totals w d named sound fits =
      Ends-done totals w (SafeFrom-refl stored w sound) tt
  on_volumes-Ends ((v, state) ∷ states) totals w (absent, d) (name_v, named) sound (here, there) =
      Ends-bind _ _ (visit-Ends (matches filters v) totals v state w name_v sound here)
        (λ t w₁ safe₁ after.
          Ends-weaken _
            (on_volumes-Ends states t w₁ d named (λ u named_u. (safe₁ u named_u).0)
              (still Fits states v w w₁ after.1 named absent there))
            (λ w₂ safe₂. SafeFrom-trans stored w w₁ w₂ safe₁ safe₂)
            (λ t₂ w₂ safe₂ covers. (
              λ chosen.
                  Covers-Extends state.volume.snapshots _ _ (after.0 chosen) (safe₂ v name_v).1,
              covers,
            )))

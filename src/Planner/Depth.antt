-- ===== src/Planner/Depth.antt =====
-- `compute_depth` and its cache: the depth of an archive is the length of its parent chain.
use Prim.Native.Nat.Ordering.{lt}
use mathlib.Core.Path.{subst₂}
use bbkar.Common.{ℕ, zero, suc, ◌^◌, ◌≤◌, ◌<◌, ◌≡◌, refl}
use bbkar.Common.{none, some, List, [], ◌∷◌, ◌++◌, arith, length, All}
use bbkar.Common.{Bool-cases, Option-cases, inl, inr}
use bbkar.Common.Br.{Br, ok}
use bbkar.Common.Text.{Text, text_eq, text_eq_iff, text_eq_refl, compare_text}
use bbkar.Dest.{VolumeArchive, sort_archives}
use bbkar.Dest.Lookup.{lookup, IsDistinct, IsSound, rank, rank-lt, rank-le-length}
use bbkar.Dest.Lookup.{lookup-snoc_old}
use bbkar.Planner.{archive_map, DepthCache, cache_get, compute_depth, cache_depths, add_u32}

-- The archive of a name is `d` incremental archives above a full one.
pub data Chain (l : List VolumeArchive) : Text → ℕ → Type 0 where
  full :
      {r : Text} (a : VolumeArchive)
      → lookup l r ≡ some a
      → a.parent_timestamp ≡ none
      → Chain l r zero
  above :
      {r : Text} {d : ℕ} (a : VolumeArchive) (p : Text)
      → lookup l r ≡ some a
      → a.parent_timestamp ≡ some p
      → Chain l p d
      → Chain l r (suc d)

pub Chain-le-rank :
    {l : List VolumeArchive} {r : Text} {d : ℕ} → IsSound l → Chain l r d → d ≤ rank l r
Chain-le-rank s (full a e f) = omega arith
Chain-le-rank {l} {r} s (above {d = d} a p e f c) =
    let (b, at_p, less) = s.rooted r a p e f in
    omega (arith, Chain-le-rank s c, rank-lt l p r at_p less)

pub Chain-snoc :
    {l : List VolumeArchive} {r : Text} {d : ℕ} (a : VolumeArchive)
    → IsDistinct l
    → lookup l a.timestamp.raw ≡ none
    → Chain l r d
    → Chain (sort_archives (l ++ a ∷ [])) r d
Chain-snoc {l} {r} a dist new (full b e f) = full b (lookup-snoc_old l a r dist new e) f
Chain-snoc {l} {r} a dist new (above b p e f c) =
    above b p (lookup-snoc_old l a r dist new e) f (Chain-snoc a dist new c)

archive_map-eq-lookup :
    (l : List VolumeArchive) (r : Text) → IsDistinct l → archive_map l r ≡ lookup l r
unfolding archive_map lookup
archive_map-eq-lookup [] r d = refl
archive_map-eq-lookup (a ∷ l) r d =
    ground (arith, archive_map-eq-lookup l r d.1, text_eq_iff a.timestamp.raw r)

abbrev pub IsCached : DepthCache → Text → Type 0
IsCached cache r = (d : ℕ) × (cache_get cache r ≡ some d)

-- Every entry of the cache is a depth.
pub record IsRight (l : List VolumeArchive) (cache : DepthCache) : Type 0 where
  pub at : (r : Text) (d : ℕ) → cache_get cache r ≡ some d → Chain l r d

pub IsRight-nil : (l : List VolumeArchive) → IsRight l []
unfolding cache_get
IsRight-nil l = record { at = λ r d h. ground arith }

pub IsRight-cons :
    {l : List VolumeArchive} {cache : DepthCache} {r : Text} {d : ℕ}
    → Chain l r d
    → IsRight l cache
    → IsRight l ((r, d) ∷ cache)
unfolding cache_get
IsRight-cons {l} {cache} {r} {d} c right = record {
  at = λ s e h. elim (Bool-cases (text_eq r s)) [
    | inl same ↦
        let value : d ≡ e = ground arith in subst₂ (Chain l) ((text_eq_iff r s).0 same) value c
    | inr other ↦ right.at s e (rw other at h)
  ];
}

pub IsCached-cons :
    (cache : DepthCache) (r : Text) (d : ℕ) (s : Text)
    → IsCached cache s
    → IsCached ((r, d) ∷ cache) s
unfolding cache_get
IsCached-cons cache r d s (e, h) = elim (Bool-cases (text_eq r s)) [
  | inl same ↦ (d, rw same)
  | inr other ↦ (e, rw other h)
]

pub IsCached-here : (cache : DepthCache) (r : Text) (d : ℕ) → IsCached ((r, d) ∷ cache) r
unfolding cache_get
IsCached-here cache r d = (d, rw (text_eq_refl r))

-- What a call of `compute_depth` leaves.
pub record Computed (l : List VolumeArchive) (r : Text) (cache : DepthCache)
    (out : Br (ℕ × DepthCache)) : Type 0 where
  pub depth : ℕ
  pub after : DepthCache
  pub returned : out ≡ ok (depth, after)
  pub chain : Chain l r depth
  pub right : IsRight l after
  pub kept : (s : Text) → IsCached cache s → IsCached after s
  pub here : IsCached after r

module _ (l : List VolumeArchive) (sound : IsSound l) (small : length l < 2 ^ 32) where
  -- The depth that the source adds one to does not overflow.
  pub add_u32-suc :
      (p r : Text) {d : ℕ} {b : VolumeArchive}
      → lookup l p ≡ some b
      → compare_text p r ≡ lt
      → Chain l p d
      → add_u32 d 1 ≡ suc d
  add_u32-suc p r at_p less c =
      omega (arith, Chain-le-rank sound c, rank-lt l p r at_p less, rank-le-length l r)

  -- With fuel above the rank of the name `compute_depth` returns the length of the parent chain.
  pub compute_depth-Computed :
      (fuel : ℕ) (r : Text) (cache : DepthCache) (a : VolumeArchive)
      → rank l r < fuel
      → lookup l r ≡ some a
      → IsRight l cache
      → Computed l r cache (compute_depth fuel l r cache)
  unfolding compute_depth
  compute_depth-Computed zero r cache a h e right = absurd (omega arith)
  compute_depth-Computed (suc fuel) r cache a h e right = elim (Option-cases (cache_get cache r)) [
    | inr (d, hit) ↦ record {
      depth = d;
      after = cache;
      returned = ground arith;
      chain = right.at r d hit;
      right = right;
      kept = λ s c. c;
      here = (d, hit);
    }
    | inl miss ↦ elim (Option-cases a.parent_timestamp) [
      | inl is_full ↦ record {
        depth = 0;
        after = (r, 0) ∷ cache;
        returned = ground (arith, archive_map-eq-lookup l r sound.distinct);
        chain = full a e is_full;
        right = IsRight-cons (full a e is_full) right;
        kept = IsCached-cons cache r 0;
        here = IsCached-here cache r 0;
      }
      | inr (p, parent) ↦
          let (b, at_p, less) = sound.rooted r a p e parent in
          let below =
            compute_depth-Computed fuel p cache b (omega (arith, rank-lt l p r at_p less)) at_p
              right in
          let c = above a p e parent below.chain in
          record {
            depth = suc below.depth;
            after = (r, suc below.depth) ∷ below.after;
            returned = ground (
              arith,
              archive_map-eq-lookup l r sound.distinct,
              below.returned,
              add_u32-suc p r at_p less below.chain,
            );
            chain = c;
            right = IsRight-cons c below.right;
            kept = λ s h. IsCached-cons below.after r _ s (below.kept s h);
            here = IsCached-here below.after r _;
          }
    ]
  ]

  -- What `cache_depths` leaves, from a right cache.
  pub record Filled (rest : List VolumeArchive) (cache : DepthCache) (out : Br DepthCache)
      : Type 0 where
    pub after : DepthCache
    pub returned : out ≡ ok after
    pub right : IsRight l after
    pub kept : (s : Text) → IsCached cache s → IsCached after s
    pub all_cached : All (λ a. IsCached after a.timestamp.raw) rest

  pub cache_depths-Filled :
      (fuel : ℕ) (rest : List VolumeArchive) (cache : DepthCache)
      → length l < fuel
      → All (λ a. (b : VolumeArchive) × (lookup l a.timestamp.raw ≡ some b)) rest
      → IsRight l cache
      → Filled rest cache (cache_depths fuel l rest cache)
  unfolding cache_depths
  cache_depths-Filled fuel [] cache h found right = record {
    after = cache;
    returned = refl;
    right = right;
    kept = λ s c. c;
    all_cached = tt;
  }
  cache_depths-Filled fuel (a ∷ rest) cache h found right =
      let r = a.timestamp.raw in
      let one =
        compute_depth-Computed fuel r cache found.0.0 (omega (arith, rank-le-length l r)) found.0.1
          right in
      let others = cache_depths-Filled fuel rest one.after h found.1 one.right in
      record {
        after = others.after;
        returned = rw one.returned others.returned;
        right = others.right;
        kept = λ s c. others.kept s (one.kept s c);
        all_cached = (others.kept r one.here, others.all_cached);
      }

-- ===== src/Common/Sets.antt =====
-- `BTreeSet` as the list of its items in strictly ascending order.
use Prim.Native.Nat.{Ordering}
use Prim.Native.Nat.Ordering.{lt, eq, gt}
use mathlib.Core.Path.{◌≡◌, refl}
use mathlib.Core.Bool.{Bool, true, false, ◌||◌}
use mathlib.Core.List.{List, [], ◌∷◌}
use native.Mathlib.Omega.{arith}
use bbkar.Common.Lists.{All, All-imp}
use bbkar.Common.Order.{Order, is_eq}

module _ {ℓ} {K : Type ℓ} (o : Order K) where
  unfoldable pub set_contains : List K → K → Bool
  set_contains [] k = false
  set_contains (x ∷ xs) k = is_eq (o.cmp x k) || set_contains xs k

  abbrev place : Ordering → K → K → List K → List K → List K
  place lt k x xs rest = k ∷ x ∷ xs
  place eq k x xs rest = x ∷ xs
  place gt k x xs rest = x ∷ rest

  unfoldable pub set_insert : K → List K → List K
  set_insert k [] = k ∷ []
  set_insert k (x ∷ xs) = place (o.cmp k x) k x xs (set_insert k xs)

  -- `union`, and `collect` on top of a set
  unfoldable pub set_union : List K → List K → List K
  unfolding set_insert
  set_union s [] = s
  set_union s (k ∷ l) = set_union (set_insert k s) l

  abbrev pub set_of : List K → List K
  set_of l = set_union [] l

  -- Each item is strictly smaller than all later ones.
  abbrev pub IsAscending : List K → Type ℓ
  IsAscending [] = Unit
  IsAscending (x ∷ xs) = All (λ y. o.cmp x y ≡ lt) xs × IsAscending xs

  pub set_contains-set_insert :
      (k : K) (xs : List K) (j : K)
      → set_contains (set_insert k xs) j ≡ (is_eq (o.cmp k j) || set_contains xs j)
  unfolding set_contains set_insert
  set_contains-set_insert k [] j = ground arith
  set_contains-set_insert k (x ∷ xs) j =
      ground (arith, o.eq_of_cmp k x, set_contains-set_insert k xs j)

  pub set_contains-set_union :
      (s l : List K) (j : K)
      → set_contains (set_union s l) j ≡ (set_contains s j || set_contains l j)
  unfolding set_contains set_union
  set_contains-set_union s [] j = ground arith
  set_contains-set_union s (k ∷ l) j =
      ground (arith, set_contains-set_union (set_insert k s) l j, set_contains-set_insert k s j)

  All-place {κ} :
      (P : K → Type κ) (c : Ordering) (k x : K) (xs rest : List K)
      → P k
      → P x × All P xs
      → All P rest
      → All P (place c k x xs rest)
  All-place P lt k x xs rest p h r = (p, h)
  All-place P eq k x xs rest p h r = h
  All-place P gt k x xs rest p h r = (h.0, r)

  All-set_insert {κ} :
      (P : K → Type κ) (k : K) (xs : List K) → P k → All P xs → All P (set_insert k xs)
  unfolding set_insert
  All-set_insert P k [] p h = (p, tt)
  All-set_insert P k (x ∷ xs) p h =
      All-place P (o.cmp k x) k x xs (set_insert k xs) p h (All-set_insert P k xs p h.1)

  above :
      (k x : K) (xs : List K)
      → IsAscending (x ∷ xs)
      → (c : Ordering) → o.cmp k x ≡ c
      → IsAscending (set_insert k xs)
      → IsAscending (place c k x xs (set_insert k xs))
  above k x xs a lt e r = ((e, All-imp (λ y less. o.lt_trans k x y e less) xs a.0), a)
  above k x xs a eq e r = a
  above k x xs a gt e r =
      (All-set_insert (λ y. o.cmp x y ≡ lt) k xs (ground (arith, o.cmp_flip k x)) a.0, r)

  pub set_insert-IsAscending :
      (k : K) (xs : List K) → IsAscending xs → IsAscending (set_insert k xs)
  unfolding set_insert
  set_insert-IsAscending k [] a = (tt, tt)
  set_insert-IsAscending k (x ∷ xs) a =
      above k x xs a (o.cmp k x) refl (set_insert-IsAscending k xs a.1)

  pub set_union-IsAscending : (s l : List K) → IsAscending s → IsAscending (set_union s l)
  unfolding set_union
  set_union-IsAscending s [] a = a
  set_union-IsAscending s (k ∷ l) a =
      set_union-IsAscending (set_insert k s) l (set_insert-IsAscending k s a)

  -- What holds of all items of a set, when it holds of what the set contains
  pub All-contains {κ} :
      (P : K → Type κ) (xs : List K) → ((k : K) → set_contains xs k ≡ true → P k) → All P xs
  unfolding set_contains
  All-contains P [] h = tt
  All-contains P (x ∷ xs) h =
      (h x (ground (arith, o.cmp_refl x)), All-contains P xs (λ k c. h k (ground (arith, c))))

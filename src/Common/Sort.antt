-- ===== src/Common/Sort.antt =====
-- `slice::sort` and `sort_by`: stable, so an insertion that passes only strictly smaller items
-- gives the same list. Stated for a key with an order.
use Prim.Native.Nat.{suc}
use mathlib.Core.Path.{◌≡◌, refl, ap, ◌∙◌}
use mathlib.Core.Bool.{Bool, true, false}
use mathlib.Core.Logic.{inl, inr}
use mathlib.Core.List.{List, [], ◌∷◌, Perm}
use mathlib.Core.List.Perm
use mathlib.Core.Option.{none, some}
use native.Mathlib.Omega.{arith}
use bbkar.Common.Tests.{if◌then◌else◌, Bool-cases}
use bbkar.Common.Lists.{All, All-imp, find?, length}
use bbkar.Common.Order.{Order, is_lt}

module _ {ℓ κ} {K : Type ℓ} {A : Type κ} (o : Order K) (key : A → K) where
  abbrev pub before : A → A → Bool
  before a b = is_lt (o.cmp (key a) (key b))

  unfoldable pub insert : A → List A → List A
  insert x [] = x ∷ []
  insert x (y ∷ ys) = let rest = insert x ys in if before y x then y ∷ rest else x ∷ y ∷ ys

  unfoldable pub sort : List A → List A
  unfolding insert
  sort [] = []
  sort (x ∷ xs) = insert x (sort xs)

  -- No later item is strictly smaller.
  abbrev pub IsSorted : List A → Type κ
  IsSorted [] = Unit
  IsSorted (x ∷ xs) = All (λ y. before y x ≡ false) xs × IsSorted xs

  pub All-insert {μ} : (P : A → Type μ) (x : A) (xs : List A) → P x → All P xs → All P (insert x xs)
  unfolding insert
  All-insert P x [] p h = (p, tt)
  All-insert P x (y ∷ ys) p h = ground (arith, All-insert P x ys p)

  pub All-sort {μ} : (P : A → Type μ) (xs : List A) → All P xs → All P (sort xs)
  unfolding sort
  All-sort P [] h = tt
  All-sort P (x ∷ xs) h = All-insert P x (sort xs) h.0 (All-sort P xs h.1)

  pub before_trans : (x y z : A) → before y x ≡ false → before z y ≡ false → before z x ≡ false
  before_trans x y z h k = ground (
    arith,
    o.cmp_flip (key y) (key z),
    o.eq_of_cmp (key z) (key y),
    o.lt_trans (key y) (key z) (key x),
  )

  pub before_asym : (x y : A) → before y x ≡ true → before x y ≡ false
  before_asym x y h = ground (arith, o.cmp_flip (key y) (key x))

  insert-IsSorted : (x : A) (xs : List A) → IsSorted xs → IsSorted (insert x xs)
  unfolding insert
  insert-IsSorted x [] s = (tt, tt)
  insert-IsSorted x (y ∷ ys) s = elim (Bool-cases (before y x)) [
    | inl less ↦ rw less (
      All-insert (λ z. before z y ≡ false) x ys (before_asym x y less) s.0,
      insert-IsSorted x ys s.1,
    )
    | inr more ↦ rw more ((more, All-imp (λ z h. before_trans x y z more h) ys s.0), s)
  ]

  pub sort-IsSorted : (xs : List A) → IsSorted (sort xs)
  unfolding sort
  sort-IsSorted [] = tt
  sort-IsSorted (x ∷ xs) = insert-IsSorted x (sort xs) (sort-IsSorted xs)

  insert-of_least : (x : A) (xs : List A) → All (λ y. before y x ≡ false) xs → insert x xs ≡ x ∷ xs
  unfolding insert
  insert-of_least x [] h = refl
  insert-of_least x (y ∷ ys) h = rw h.0

  -- Sorting a sorted list changes nothing.
  pub sort-of_IsSorted : (xs : List A) → IsSorted xs → sort xs ≡ xs
  unfolding sort
  sort-of_IsSorted [] s = refl
  sort-of_IsSorted (x ∷ xs) s = rw (sort-of_IsSorted xs s.1) (insert-of_least x xs s.0)

  insert-perm : (x : A) (xs : List A) → Perm (insert x xs) (x ∷ xs)
  unfolding insert
  insert-perm x [] = Perm.refl (x ∷ [])
  insert-perm x (y ∷ ys) = elim (Bool-cases (before y x)) [
    | inl less ↦ rw less (Perm.trans (Perm.cons y (insert-perm x ys)) (Perm.swap x y ys))
    | inr more ↦ rw more (Perm.refl (x ∷ y ∷ ys))
  ]

  -- Sorting keeps the items.
  pub sort-perm : (xs : List A) → Perm (sort xs) xs
  unfolding sort
  sort-perm [] = Perm.refl []
  sort-perm (x ∷ xs) = Perm.trans (insert-perm x (sort xs)) (Perm.cons x (sort-perm xs))

  pub length-insert : (x : A) (xs : List A) → length (insert x xs) ≡ suc (length xs)
  unfolding insert
  length-insert x [] = refl
  length-insert x (y ∷ ys) = ground (arith, length-insert x ys)

  pub length-sort : (xs : List A) → length (sort xs) ≡ length xs
  unfolding sort
  length-sort [] = refl
  length-sort (x ∷ xs) = length-insert x (sort xs) ∙ ap suc (length-sort xs)

  module _ (p : A → Bool) where
    pub find?-insert_other :
        (x : A) (xs : List A) → p x ≡ false → find? p (insert x xs) ≡ find? p xs
    unfolding insert
    find?-insert_other x [] h = rw h
    find?-insert_other x (y ∷ ys) h = ground (arith, find?-insert_other x ys)

    pub find?-insert_self :
        (x : A) (xs : List A) → p x ≡ true → find? p xs ≡ none → find? p (insert x xs) ≡ some x
    unfolding insert
    find?-insert_self x [] h k = rw h
    find?-insert_self x (y ∷ ys) h k = ground (arith, find?-insert_self x ys)

-- ===== src/Common/Order.antt =====
-- Rust's `Ord`, with the laws that the trait asks of `cmp`, and the orders of numbers, options and
-- lists. Derived orders compare field by field, by `then_with`.
use Prim.Native.Nat.{ℕ, compare, Ordering}
use Prim.Native.Nat.Ordering.{lt, eq, gt}
use mathlib.Core.Path.{◌≡◌, refl}
use mathlib.Core.Bool.{Bool, true, false}
use mathlib.Core.List.{List, [], ◌∷◌}
use mathlib.Core.Option.{Option, none, some}
use native.Mathlib.Omega.{arith}

-- `Ordering::reverse` and `Ordering::then`
abbrev pub flip : Ordering → Ordering
flip lt = gt
flip eq = eq
flip gt = lt

abbrev pub then_with : Ordering → Ordering → Ordering
then_with lt next = lt
then_with eq next = next
then_with gt next = gt

abbrev pub is_gt : Ordering → Bool
is_gt lt = false
is_gt eq = false
is_gt gt = true

abbrev pub is_lt : Ordering → Bool
is_lt lt = true
is_lt eq = false
is_lt gt = false

abbrev pub is_eq : Ordering → Bool
is_eq lt = false
is_eq eq = true
is_eq gt = false

pub record Order {ℓ} (A : Type ℓ) : Type ℓ where
  pub cmp : A → A → Ordering
  pub cmp_refl : (a : A) → cmp a a ≡ eq
  pub eq_of_cmp : (a b : A) → cmp a b ≡ eq → a ≡ b
  pub cmp_flip : (a b : A) → cmp b a ≡ flip (cmp a b)
  pub lt_trans : (a b c : A) → cmp a b ≡ lt → cmp b c ≡ lt → cmp a c ≡ lt

pub nat_cmp_refl : (a : ℕ) → compare a a ≡ eq
nat_cmp_refl a = ground arith

pub nat_eq_of_cmp : (a b : ℕ) → compare a b ≡ eq → a ≡ b
nat_eq_of_cmp a b h = ground arith

pub nat_cmp_flip : (a b : ℕ) → compare b a ≡ flip (compare a b)
nat_cmp_flip a b = ground arith

pub nat_lt_trans : (a b c : ℕ) → compare a b ≡ lt → compare b c ≡ lt → compare a c ≡ lt
nat_lt_trans a b c h k = ground arith

abbrev pub nat_order : Order ℕ
nat_order = record {
  cmp = compare;
  cmp_refl = nat_cmp_refl;
  eq_of_cmp = nat_eq_of_cmp;
  cmp_flip = nat_cmp_flip;
  lt_trans = nat_lt_trans;
}

module _ {ℓ} {A : Type ℓ} (o : Order A) where
  -- `None` comes before every `Some`.
  abbrev pub cmp_option : Option A → Option A → Ordering
  cmp_option none none = eq
  cmp_option none (some b) = lt
  cmp_option (some a) none = gt
  cmp_option (some a) (some b) = o.cmp a b

  abbrev pub cmp_list : List A → List A → Ordering
  cmp_list [] [] = eq
  cmp_list [] (b ∷ bs) = lt
  cmp_list (a ∷ as') [] = gt
  cmp_list (a ∷ as') (b ∷ bs) = then_with (o.cmp a b) (cmp_list as' bs)

  pub cmp_list_refl : (x : List A) → cmp_list x x ≡ eq
  cmp_list_refl [] = refl
  cmp_list_refl (a ∷ x) = ground (arith, o.cmp_refl a, cmp_list_refl x)

  pub cmp_list-eq : (x y : List A) → cmp_list x y ≡ eq → x ≡ y
  cmp_list-eq [] [] h = refl
  cmp_list-eq [] (b ∷ y) h = ground arith
  cmp_list-eq (a ∷ x) [] h = ground arith
  cmp_list-eq (a ∷ x) (b ∷ y) h = ground (arith, o.eq_of_cmp a b, cmp_list-eq x y)

  pub cmp_list-flip : (x y : List A) → cmp_list y x ≡ flip (cmp_list x y)
  cmp_list-flip [] [] = refl
  cmp_list-flip [] (b ∷ y) = refl
  cmp_list-flip (a ∷ x) [] = refl
  cmp_list-flip (a ∷ x) (b ∷ y) = ground (arith, o.cmp_flip a b, cmp_list-flip x y)

  pub cmp_list_trans : (x y z : List A) → cmp_list x y ≡ lt → cmp_list y z ≡ lt → cmp_list x z ≡ lt
  cmp_list_trans x [] [] h k = ground arith
  cmp_list_trans [] y [] h k = ground arith
  cmp_list_trans (a ∷ x) [] (c ∷ z) h k = ground arith
  cmp_list_trans (a ∷ x) (b ∷ y) [] h k = ground arith
  cmp_list_trans [] y (c ∷ z) h k = refl
  cmp_list_trans (a ∷ x) (b ∷ y) (c ∷ z) h k = ground (
    arith,
    o.eq_of_cmp a b,
    o.eq_of_cmp b c,
    o.lt_trans a b c,
    o.cmp_refl a,
    cmp_list_trans x y z,
  )

  abbrev pub list_order : Order (List A)
  list_order = record {
    cmp = cmp_list;
    cmp_refl = cmp_list_refl;
    eq_of_cmp = cmp_list-eq;
    cmp_flip = cmp_list-flip;
    lt_trans = cmp_list_trans;
  }

  pub cmp_option_refl : (x : Option A) → cmp_option x x ≡ eq
  cmp_option_refl none = refl
  cmp_option_refl (some a) = o.cmp_refl a

  pub cmp_option-eq : (x y : Option A) → cmp_option x y ≡ eq → x ≡ y
  cmp_option-eq none none h = refl
  cmp_option-eq none (some b) h = ground arith
  cmp_option-eq (some a) none h = ground arith
  cmp_option-eq (some a) (some b) h = ground (arith, o.eq_of_cmp a b)

  pub cmp_option-flip : (x y : Option A) → cmp_option y x ≡ flip (cmp_option x y)
  cmp_option-flip none none = refl
  cmp_option-flip none (some b) = refl
  cmp_option-flip (some a) none = refl
  cmp_option-flip (some a) (some b) = o.cmp_flip a b

  pub cmp_option_trans :
      (x y z : Option A) → cmp_option x y ≡ lt → cmp_option y z ≡ lt → cmp_option x z ≡ lt
  cmp_option_trans none y none h k = ground arith
  cmp_option_trans none y (some c) h k = refl
  cmp_option_trans (some a) none z h k = ground arith
  cmp_option_trans (some a) (some b) none h k = ground arith
  cmp_option_trans (some a) (some b) (some c) h k = o.lt_trans a b c h k

  abbrev pub option_order : Order (Option A)
  option_order = record {
    cmp = cmp_option;
    cmp_refl = cmp_option_refl;
    eq_of_cmp = cmp_option-eq;
    cmp_flip = cmp_option-flip;
    lt_trans = cmp_option_trans;
  }

module _ {ℓ} {A : Type ℓ} (o : Order A) where
  -- One field of a derived order.
  pub then_with_trans :
      (a b c : A) (r s t : Ordering)
      → (r ≡ lt → s ≡ lt → t ≡ lt)
      → then_with (o.cmp a b) r ≡ lt
      → then_with (o.cmp b c) s ≡ lt
      → then_with (o.cmp a c) t ≡ lt
  then_with_trans a b c r s t next h k =
      ground (arith, next, o.eq_of_cmp a b, o.eq_of_cmp b c, o.lt_trans a b c, o.cmp_refl a)

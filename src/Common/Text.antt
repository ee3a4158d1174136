-- ===== src/Common/Text.antt =====
-- Rust's `str` as the list of its characters (code points). `len` and slices count bytes of UTF-8;
-- a slice that does not fall between characters panics. The order of `str` is that of the bytes,
-- which for UTF-8 is the lexicographic order of the code points.
use Prim.Native.Nat.{ℕ, zero, suc, ◌+◌, ◌-◌, ◌*◌, ◌^◌, Ordering}
use Prim.Native.Nat.Ordering.{lt, eq}
use Prim.Native.Char.{code}
use Prim.Native.String.{String}
use mathlib.Core.Path.{◌≡◌, refl}
use mathlib.Core.Logic.{◌↔◌, inl, inr}
use mathlib.Core.Bool.{Bool, true, false, ◌&&◌}
use mathlib.Core.Option.{Option, none, some}
use mathlib.Core.List.{List, [], ◌∷◌, ◌++◌}
use mathlib.Core.Option
use native.Mathlib.Omega.{arith}
use bbkar.Common.Int.{ℤ, pos, ◌-ℤ◌}
use bbkar.Common.Tests.{ltb, leb, ◌==◌, if◌then◌else◌, Option-cases}
use bbkar.Common.Order.{Order, flip, nat_order, cmp_list}
use bbkar.Common.Order.{cmp_list_refl, cmp_list-eq, cmp_list-flip, cmp_list_trans}

abbrev pub Text : Type 0
Text = List ℕ

-- The characters of a literal.
unfoldable pub text : String → Text
text String.[] = []
text (String.◌∷◌ c s) = code c ∷ text s

unfoldable pub text_eq : Text → Text → Bool
text_eq [] [] = true
text_eq [] (b ∷ t) = false
text_eq (a ∷ s) [] = false
text_eq (a ∷ s) (b ∷ t) = a == b && text_eq s t

pub text_eq_iff : (s t : Text) → (text_eq s t ≡ true) ↔ (s ≡ t)
unfolding text_eq
text_eq_iff [] [] = ground arith
text_eq_iff [] (b ∷ t) = ground arith
text_eq_iff (a ∷ s) [] = ground arith
text_eq_iff (a ∷ s) (b ∷ t) = ground (arith, text_eq_iff s t)

pub text_eq_refl : (s : Text) → text_eq s s ≡ true
text_eq_refl s = (text_eq_iff s s).1 refl

unfoldable pub compare_text : Text → Text → Ordering
compare_text = cmp_list nat_order

pub compare_text_refl : (s : Text) → compare_text s s ≡ eq
unfolding compare_text
compare_text_refl s = cmp_list_refl nat_order s

pub eq_of_compare_text : (s t : Text) → compare_text s t ≡ eq → s ≡ t
unfolding compare_text
eq_of_compare_text s t h = cmp_list-eq nat_order s t h

pub compare_text-flip : (s t : Text) → compare_text t s ≡ flip (compare_text s t)
unfolding compare_text
compare_text-flip s t = cmp_list-flip nat_order s t

pub compare_text_trans :
    (s t u : Text) → compare_text s t ≡ lt → compare_text t u ≡ lt → compare_text s u ≡ lt
unfolding compare_text
compare_text_trans s t u h k = cmp_list_trans nat_order s t u h k

abbrev pub text_order : Order Text
text_order = record {
  cmp = compare_text;
  cmp_refl = compare_text_refl;
  eq_of_cmp = eq_of_compare_text;
  cmp_flip = compare_text-flip;
  lt_trans = compare_text_trans;
}

-- `str::rsplit_once`, and `rfind` with the two slices beside the character that it finds.
unfoldable pub rsplit_once : ℕ → Text → Option (Text × Text)
rsplit_once c [] = none
rsplit_once c (x ∷ s) = elim (rsplit_once c s) [
  | some (a, b) ↦ some (x ∷ a, b)
  | none ↦ if x == c then some ([], s) else none
]

pub rsplit_once-append :
    (c : ℕ) (s : Text) {a b : Text} → rsplit_once c s ≡ some (a, b) → s ≡ a ++ c ∷ b
unfolding rsplit_once
rsplit_once-append c [] h = ground arith
rsplit_once-append c (x ∷ s) {a} {b} h = elim (Option-cases (rsplit_once c s)) [
  | inl e ↦ ground arith
  | inr ((a', b'), e) ↦ ground (arith, rsplit_once-append c s {a = a'} {b = b'})
]

-- `char::is_ascii_digit`
unfoldable pub is_ascii_digit : ℕ → Bool
is_ascii_digit c = leb b'0' c && leb c b'9'

unfoldable pub is_empty : Text → Bool
is_empty [] = true
is_empty (c ∷ s) = false

-- `char::len_utf8` and `str::len`
unfoldable pub len_utf8 : ℕ → ℕ
len_utf8 c = if ltb c 0x80 then 1 else if ltb c 0x800 then 2 else if ltb c 0x10000 then 3 else 4

unfoldable pub len : Text → ℕ
unfolding len_utf8
len [] = 0
len (c ∷ s) = len_utf8 c + len s

abbrev cons_first : ℕ → Option (Text × Text) → Option (Text × Text)
cons_first c none = none
cons_first c (some (a, b)) = some (c ∷ a, b)

-- `str::split_at`; `none` where the offset is past the end or inside a character, which panics.
unfoldable pub split_at : ℕ → Text → Option (Text × Text)
unfolding len_utf8
split_at zero s = some ([], s)
split_at (suc n) [] = none
split_at (suc n) (c ∷ s) =
    let rest = cons_first c (split_at (suc n - len_utf8 c) s) in
    if ltb (suc n) (len_utf8 c) then none else rest

unfoldable pub parse_digits : ℕ → Text → Option ℕ
unfolding is_ascii_digit
parse_digits n [] = some n
parse_digits n (c ∷ s) =
    let rest = parse_digits (n * 10 + (c - b'0')) s in if is_ascii_digit c then rest else none

-- At least one digit, and no more than the bound.
unfoldable pub parse_unsigned : ℕ → Text → Option ℕ
unfolding parse_digits
parse_unsigned bound [] = none
parse_unsigned bound (c ∷ s) = elim (parse_digits 0 (c ∷ s)) [
  | none ↦ none
  | some n ↦ if leb n bound then some n else none
]

abbrev pub max_u32 : ℕ
max_u32 = 2 ^ 32 - 1

-- `str::parse::<u32>`: a plus sign may stand in front.
unfoldable pub parse_u32 : Text → Option ℕ
unfolding parse_unsigned
parse_u32 [] = none
parse_u32 (c ∷ s) = if c == b'+' then parse_unsigned max_u32 s else parse_unsigned max_u32 (c ∷ s)

-- `str::parse::<i64>`: a plus or a minus sign may stand in front.
unfoldable pub parse_i64 : Text → Option ℤ
unfolding parse_unsigned ◌-ℤ◌
parse_i64 [] = none
parse_i64 (c ∷ s) =
    if c == b'-'
    then Option.map (λ n. pos 0 -ℤ pos n) (parse_unsigned (2 ^ 63) s)
    else Option.map pos (parse_unsigned (2 ^ 63 - 1) (if c == b'+' then s else c ∷ s))

-- ===== src/Timestamp.antt =====
-- src/model/source.rs: `Timestamp`, the suffix that btrbk gives a snapshot, and its derived order.
use mathlib.Core.List.{append-nil}
use Prim.Native.Nat.{Ordering}
use Prim.Native.Nat.Ordering.{lt, eq}
use bbkar.Common.{◌↔◌, ◌≡◌, Bool, true, false, not, ◌&&◌, Option}
use bbkar.Common.{none, some, [], ◌∷◌, ◌++◌, arith, if◌then◌else◌, all}
use bbkar.Common.Order.{Order, then_with, flip, cmp_option, cmp_option_refl}
use bbkar.Common.Order.{cmp_option-eq, cmp_option-flip, cmp_option_trans, then_with_trans}
use bbkar.Common.Text.{Text, text_eq, text_eq_iff, compare_text, text_order, compare_text_refl}
use bbkar.Common.Text.{eq_of_compare_text, compare_text-flip, rsplit_once}
use bbkar.Common.Text.{rsplit_once-append, is_ascii_digit, is_empty}

pub record Timestamp : Type 0 where
  pub raw : Text
  pub timestamp : Text
  pub seq : Option Text

-- The `match suffix.rfind('_')`: the two parts of a non-empty suffix.
unfoldable pub split_seq : Text → Option (Text × Text) → Text × Option Text
unfolding is_empty is_ascii_digit
split_seq suffix none = (suffix, none)
split_seq suffix (some (stem, after)) =
    if not (is_empty after) && all is_ascii_digit after
    then (stem, some (b'_' ∷ after))
    else (suffix, none)

abbrev pub seq_text : Option Text → Text
seq_text none = []
seq_text (some digits) = digits

of_parts : Text → Text × Option Text → Timestamp
of_parts suffix (timestamp, seq) = record { raw = suffix; timestamp = timestamp; seq = seq }

unfoldable pub parse : Text → Option Timestamp
unfolding of_parts is_empty
parse suffix =
    if is_empty suffix
    then none
    else some (of_parts suffix (split_seq suffix (rsplit_once b'_' suffix)))

abbrev pub IsParsed : Timestamp → Type 0
IsParsed t = parse t.raw ≡ some t

-- The derived `PartialEq` and `Ord` go field by field.
unfoldable pub eq_option : Option Text → Option Text → Bool
eq_option none none = true
eq_option none (some b) = false
eq_option (some a) none = false
eq_option (some a) (some b) = text_eq a b

eq_option_iff : (a b : Option Text) → (eq_option a b ≡ true) ↔ (a ≡ b)
unfolding eq_option
eq_option_iff none none = ground arith
eq_option_iff none (some b) = ground arith
eq_option_iff (some a) none = ground arith
eq_option_iff (some a) (some b) = ground (arith, text_eq_iff a b)

unfoldable pub timestamp_eq : Timestamp → Timestamp → Bool
unfolding eq_option
timestamp_eq a b = text_eq a.raw b.raw && text_eq a.timestamp b.timestamp && eq_option a.seq b.seq

unfoldable pub compare_timestamp : Timestamp → Timestamp → Ordering
compare_timestamp a b =
    then_with (compare_text a.raw b.raw)
      (then_with (compare_text a.timestamp b.timestamp) (cmp_option text_order a.seq b.seq))

pub timestamp_eq_iff : (a b : Timestamp) → (timestamp_eq a b ≡ true) ↔ (a ≡ b)
unfolding timestamp_eq
timestamp_eq_iff a b =
    ground (
      arith,
      text_eq_iff a.raw b.raw,
      text_eq_iff a.timestamp b.timestamp,
      eq_option_iff a.seq b.seq,
    )

pub compare_timestamp_refl : (a : Timestamp) → compare_timestamp a a ≡ eq
unfolding compare_timestamp
compare_timestamp_refl a = ground (
  arith,
  compare_text_refl a.raw,
  compare_text_refl a.timestamp,
  cmp_option_refl text_order a.seq,
)

pub eq_of_compare_timestamp : (a b : Timestamp) → compare_timestamp a b ≡ eq → a ≡ b
unfolding compare_timestamp
eq_of_compare_timestamp a b h = ground (
  arith,
  eq_of_compare_text a.raw b.raw,
  eq_of_compare_text a.timestamp b.timestamp,
  cmp_option-eq text_order a.seq b.seq,
)

pub compare_timestamp-flip :
    (a b : Timestamp) → compare_timestamp b a ≡ flip (compare_timestamp a b)
unfolding compare_timestamp
compare_timestamp-flip a b = ground (
  arith,
  compare_text-flip a.raw b.raw,
  compare_text-flip a.timestamp b.timestamp,
  cmp_option-flip text_order a.seq b.seq,
)

pub compare_timestamp_trans :
    (a b c : Timestamp)
    → compare_timestamp a b ≡ lt
    → compare_timestamp b c ≡ lt
    → compare_timestamp a c ≡ lt
unfolding compare_timestamp
compare_timestamp_trans a b c h k =
    then_with_trans text_order a.raw b.raw c.raw _ _ _
      (then_with_trans text_order a.timestamp b.timestamp c.timestamp _ _ _
        (cmp_option_trans text_order a.seq b.seq c.seq))
      h k

abbrev pub timestamp_order : Order Timestamp
timestamp_order = record {
  cmp = compare_timestamp;
  cmp_refl = compare_timestamp_refl;
  eq_of_cmp = eq_of_compare_timestamp;
  cmp_flip = compare_timestamp-flip;
  lt_trans = compare_timestamp_trans;
}

split_seq_parts :
    (s : Text) (found : Option (Text × Text))
    → ((a b : Text) → found ≡ some (a, b) → s ≡ a ++ b'_' ∷ b)
    → (split_seq s found).0 ++ seq_text (split_seq s found).1 ≡ s
unfolding split_seq
split_seq_parts s none h = append-nil s
split_seq_parts s (some (a, b)) h = ground (arith, h a b, append-nil s)

-- What `parse` returns has the suffix as its raw text, and its timestamp and sequence number make
-- up the suffix again.
pub parse_parts :
    (s : Text) {t : Timestamp}
    → parse s ≡ some t
    → (t.raw ≡ s) × (t.timestamp ++ seq_text t.seq ≡ s)
unfolding parse
parse_parts [] h = ground arith
parse_parts (c ∷ s) {t} h =
    let parts =
      split_seq_parts (c ∷ s) (rsplit_once b'_' (c ∷ s))
        λ a b e. rsplit_once-append b'_' (c ∷ s) e in
    ground arith

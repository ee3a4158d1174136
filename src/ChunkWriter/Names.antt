-- ===== src/ChunkWriter/Names.antt =====
-- Different chunks have different names: the format of src/service/executor/write_dest.rs.
use bbkar.Common.{ℕ, zero, suc, ◌+◌, ◌-◌, ◌*◌, ◌%◌, ◌/◌, ◌<◌, ◌≡◌, refl, sym, ap, ◌∙◌, arith}
use bbkar.Common.{
  [], ◌∷◌, ◌++◌, length, replicate, if◌then◌else◌, ltb, ◌==◌, false, drop, Bool-cases, inl, inr,
}
use bbkar.ChunkWriter.{part_name}
use bbkar.Common.Text.{Text, text}
use bbkar.Config.{digits, display}

-- The number that decimal digits spell, up to the first point
value : ℕ → Text → ℕ
value v [] = v
value v (c ∷ s) = let rest = value (v * 10 + (c - b'0')) s in if c == b'.' then v else rest

digits-append : (fuel n : ℕ) (acc s : Text) → digits fuel n acc ++ s ≡ digits fuel n (acc ++ s)
unfolding digits
digits-append zero n acc s = refl
digits-append (suc fuel) n acc s = elim (Bool-cases (ltb n 10)) [
  | inl small ↦ rw small refl
  | inr large ↦ rw large (digits-append fuel (n / 10) _ s)
]

value-digit :
    (v d m : ℕ) (s : Text) → d < 10 → v * 10 + d ≡ m → value v ((b'0' + d) ∷ s) ≡ value m s
unfolding value
value-digit v d m s h e =
    let no_point : (b'0' + d) == b'.' ≡ false = ground arith in
    let same : v * 10 + (b'0' + d - b'0') ≡ m = omega arith in rw (no_point, same) refl

value-digits : (fuel n : ℕ) (acc : Text) → n < fuel → value 0 (digits fuel n acc) ≡ value n acc
unfolding digits
value-digits zero n acc h = absurd (omega arith)
value-digits (suc fuel) n acc h = elim (Bool-cases (ltb n 10)) [
  | inl small ↦ rw small (value-digit 0 n n acc (ground arith) (omega arith))
  | inr large ↦
      let less : n / 10 < fuel = ground arith in
      rw large (
        value-digits fuel (n / 10) _ less
        ∙ value-digit (n / 10) (n % 10) n acc (omega arith) (omega arith))
]

value-zeros : (k : ℕ) (s : Text) → value 0 (replicate k b'0' ++ s) ≡ value 0 s
unfolding value
value-zeros zero s = refl
value-zeros (suc k) s = value-zeros k s

-- The number in the name of a chunk
number : Text → ℕ
number name = value 0 (drop 4 name)

number-part_name : (n : ℕ) → number (part_name n) ≡ n
unfolding number part_name text display value
number-part_name n =
    value-zeros (6 - length (display n)) _
    ∙ ap (value 0) (digits-append (suc n) n [] (text ".btrfs.zstd"))
    ∙ value-digits (suc n) n (text ".btrfs.zstd") (omega arith)

pub part_name-injective : (n m : ℕ) → part_name n ≡ part_name m → n ≡ m
part_name-injective n m h = sym (number-part_name n) ∙ ap number h ∙ number-part_name m

-- ===== src/Wildcard/Rows.antt =====
-- The loops of `wildcard_match` compute each entry of the new row from the old row.
use mathlib.Core.Path.{ap, ap₂, subst}
use native.Mathlib.Decide.{ℕ_discrete}
use native.Mathlib.Numerals.{add-one}
use bbkar.Common.{ℕ, zero, suc, ◌+◌, ◌-◌, ◌≤◌, ◌<◌, ◌≡◌, ◌∙◌, Bool, false, ◌&&◌}
use bbkar.Common.{◌||◌, arith, ◌==◌, if◌then◌else◌, length, get_or, set, Bool-cases, inl, inr}
use bbkar.Common.{length-set, get_or-set_self, get_or-set_ne}
use bbkar.Common.Text.{Text}
use bbkar.Wildcard.{Row, at, star_loop, char_loop, fits, row_step}

zero_of : (k : ℕ) → k < 1 → k ≡ 0
zero_of k h = omega arith

sub-one_suc : (i : ℕ) → suc i - 1 ≡ i
sub-one_suc i = omega arith

-- The entries that a row should have.
abbrev pub Entries : Type 0
Entries = ℕ → Bool

abbrev pub star_entries : Entries → Entries
star_entries old zero = old zero
star_entries old (suc j) = old (suc j) || star_entries old j

abbrev pub char_entries : ℕ → Text → Entries → Entries
char_entries pc txt old zero = false
char_entries pc txt old (suc j) = old j && fits pc (get_or txt j 0)

-- The first `n + 1` entries.
abbrev pub HasEntries : ℕ → Row → Entries → Type 0
HasEntries n dp f = (length dp ≡ suc n) × ((j : ℕ) → j ≤ n → at dp j ≡ f j)

-- Before round `j` of the star's loop the entries below `j` are new and the others old.
record StarInv (n j : ℕ) (old : Entries) (dp : Row) : Type 0 where
  size : length dp ≡ suc n
  new_below : (k : ℕ) → k < j → k ≤ n → at dp k ≡ star_entries old k
  old_above : (k : ℕ) → j ≤ k → k ≤ n → at dp k ≡ old k

StarInv-step :
    (n i : ℕ) (old : Entries) (dp : Row)
    → suc i ≤ n
    → StarInv n (suc i) old dp
    → StarInv n (suc (suc i)) old (set dp (suc i) (at dp (suc i) || at dp i))
StarInv-step n i old dp h v = record {
  size = omega (arith, v.size, length-set {0} dp (suc i) (at dp (suc i) || at dp i));
  new_below = λ k below fits_n. elim (ℕ_discrete (suc i) k) [
    | yes here ↦
        subst (λ m. at (set dp (suc i) (at dp (suc i) || at dp i)) m ≡ star_entries old m) here
          (get_or-set_self dp (suc i) _ false (omega (arith, v.size))
            ∙ ap₂ ◌||◌ (v.old_above (suc i) (omega arith) h)
                (v.new_below i (omega arith) (omega arith)))
    | no other ↦ get_or-set_ne dp (suc i) k _ false other ∙ v.new_below k (omega arith) fits_n
  ];
  old_above = λ k above fits_n.
      get_or-set_ne dp (suc i) k _ false (λ e. omega arith) ∙ v.old_above k (omega arith) fits_n;
}

star_loop-StarInv :
    (rounds n j : ℕ) (old : Entries) (dp : Row)
    → j + rounds ≡ suc n
    → 0 < j
    → StarInv n j old dp
    → StarInv n (suc n) old (star_loop rounds j dp)
unfolding star_loop
star_loop-StarInv zero n j old dp e pos v = subst (λ m. StarInv n m old dp) (omega arith) v
star_loop-StarInv (suc rounds) n zero old dp e pos v = absurd (omega arith)
star_loop-StarInv (suc rounds) n (suc i) old dp e pos v =
    rw (sub-one_suc i, add-one)
      (star_loop-StarInv rounds n (suc (suc i)) old _ (omega arith) (omega arith)
        (StarInv-step n i old dp (omega arith) v))

-- Before the round of `j`, counting down, the entries above `j` are new and the others old.
record CharInv (pc : ℕ) (txt : Text) (n j : ℕ) (old : Entries) (dp : Row) : Type 0 where
  size : length dp ≡ suc n
  new_above : (k : ℕ) → j < k → k ≤ n → at dp k ≡ char_entries pc txt old k
  old_below : (k : ℕ) → k ≤ j → k ≤ n → at dp k ≡ old k

CharInv-step :
    (pc : ℕ) (txt : Text) (n j : ℕ) (old : Entries) (dp : Row)
    → suc j ≤ n
    → CharInv pc txt n (suc j) old dp
    → CharInv pc txt n j old (set dp (suc j) (at dp j && fits pc (get_or txt j 0)))
CharInv-step pc txt n j old dp h v = record {
  size = omega (arith, v.size, length-set {0} dp (suc j) (at dp j && fits pc (get_or txt j 0)));
  new_above = λ k above fits_n. elim (ℕ_discrete (suc j) k) [
    | yes here ↦
        subst
          (λ m.
            at (set dp (suc j) (at dp j && fits pc (get_or txt j 0))) m ≡ char_entries pc txt old m)
          here
          (get_or-set_self dp (suc j) _ false (omega (arith, v.size))
            ∙ ap (λ b. b && fits pc (get_or txt j 0)) (v.old_below j (omega arith) (omega arith)))
    | no other ↦ get_or-set_ne dp (suc j) k _ false other ∙ v.new_above k (omega arith) fits_n
  ];
  old_below = λ k below fits_n.
      get_or-set_ne dp (suc j) k _ false (λ e. omega arith) ∙ v.old_below k (omega arith) fits_n;
}

char_loop-CharInv :
    (pc : ℕ) (txt : Text) (n j : ℕ) (old : Entries) (dp : Row)
    → j ≤ n
    → CharInv pc txt n j old dp
    → CharInv pc txt n 0 old (char_loop pc txt j dp)
unfolding char_loop
char_loop-CharInv pc txt n zero old dp h v = v
char_loop-CharInv pc txt n (suc j) old dp h v =
    char_loop-CharInv pc txt n j old _ (omega arith) (CharInv-step pc txt n j old dp h v)

-- The entries after a pattern character.
abbrev pub next_entries : Text → ℕ → Entries → Entries
next_entries txt pc old = if pc == b'*' then star_entries old else char_entries pc txt old

pub row_step-HasEntries :
    (txt : Text) (pc : ℕ) (dp : Row) (old : Entries)
    → HasEntries (length txt) dp old
    → HasEntries (length txt) (row_step txt pc dp) (next_entries txt pc old)
unfolding row_step
row_step-HasEntries txt pc dp old (size, same) = elim (Bool-cases (pc == b'*')) [
  | inl star ↦
      let v =
        star_loop-StarInv (length txt) (length txt) 1 old dp (omega arith) (omega arith) (record {
          size = size;
          new_below = λ k below h. rw (zero_of k (omega arith)) (same 0 (omega arith));
          old_above = λ k above h. same k h;
        }) in
      rw star (v.size, λ j h. v.new_below j (omega arith) h)
  | inr char ↦
      let v = char_loop-CharInv pc txt (length txt) (length txt) old dp (omega arith) (record {
        size = size;
        new_above = λ k above h. absurd (omega arith);
        old_below = λ k below h. same k h;
      }) in
      let dp' = char_loop pc txt (length txt) dp in
      rw char (omega (arith, v.size, length-set {0} dp' 0 false), λ j h. entry j h v)
]
  where
    entry :
        (j : ℕ)
        → j ≤ length txt
        → CharInv pc txt (length txt) 0 old (char_loop pc txt (length txt) dp)
        → at (set (char_loop pc txt (length txt) dp) 0 false) j ≡ char_entries pc txt old j
    entry zero h v = get_or-set_self _ 0 false false (omega (arith, v.size))
    entry (suc j) h v =
        get_or-set_ne _ 0 (suc j) false false (λ e. omega arith)
        ∙ v.new_above (suc j) (omega arith) h

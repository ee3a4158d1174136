-- ===== src/Wildcard/Match.antt =====
-- What a wildcard pattern means, and that `wildcard_match` decides it.
use mathlib.Core.Path.{ap, subst}
use native.Mathlib.Decide.{ℕ_discrete}
use bbkar.Common.{ℕ, zero, suc, ◌+◌, ◌-◌, ◌≤◌, ◌<◌, ◌≡◌, refl, sym, ◌∙◌, ◌↔◌, true, false}
use bbkar.Common.{[], ◌∷◌, arith, ◌==◌, length, set}
use bbkar.Common.{
  replicate, length-replicate, length-set, get_or-replicate, get_or-set_self, get_or-set_ne,
}
use bbkar.Common.{drop, drop-cons, drop-length, drop-drop, length-drop, Bool-cases, inl, inr}
use bbkar.Common.Text.{Text}
use bbkar.Wildcard.{Row, at, fits, rows, wildcard_match}
use bbkar.Wildcard.Rows.{Entries, star_entries, char_entries, next_entries, HasEntries}
use bbkar.Wildcard.Rows.{row_step-HasEntries}

-- `*` stands for any characters, `?` for any one character, and each other character for itself.
pub data Matches : Text → Text → Type 0 where
  empty : Matches [] []
  one :
      {c x : ℕ} {p s : Text}
      → (c == b'*') ≡ false
      → fits c x ≡ true
      → Matches p s
      → Matches (c ∷ p) (x ∷ s)
  leave : {c : ℕ} {p s : Text} → (c == b'*') ≡ true → Matches p s → Matches (c ∷ p) s
  take : {c x : ℕ} {p s : Text} → (c == b'*') ≡ true → Matches (c ∷ p) s → Matches (c ∷ p) (x ∷ s)

-- A star stands for some number of characters.
star_inv :
    {c : ℕ} {p s : Text}
    → (c == b'*') ≡ true
    → Matches (c ∷ p) s
    → (n : ℕ) × (n ≤ length s) × Matches p (drop n s)
star_inv h (one n f m) = ground arith
star_inv h (leave e m) = (0, omega arith, m)
star_inv h (take e m) = let (n, le, rest) = star_inv h m in (suc n, omega arith, rest)

one-nonempty : {c : ℕ} {p s : Text} → (c == b'*') ≡ false → Matches (c ∷ p) s → 0 < length s
one-nonempty h (one n f m) = omega arith
one-nonempty h (leave e m) = ground arith
one-nonempty h (take e m) = ground arith

one_inv :
    {c x : ℕ} {p s : Text}
    → (c == b'*') ≡ false
    → Matches (c ∷ p) (x ∷ s)
    → (fits c x ≡ true) × Matches p s
one_inv h (one n f m) = (f, m)
one_inv h (leave e m) = ground arith
one_inv h (take e m) = ground arith

empty_inv : {s : Text} → Matches [] s → s ≡ []
empty_inv empty = refl

star_entries-true : (f : Entries) (i j : ℕ) → j ≤ i → f j ≡ true → star_entries f i ≡ true
star_entries-true f zero j h e =
    let zero_j : j ≡ 0 = omega arith in subst (λ k. f k ≡ true) zero_j e
star_entries-true f (suc i) j h e = elim (ℕ_discrete j (suc i)) [
  | yes here ↦ let now : f (suc i) ≡ true = subst (λ k. f k ≡ true) here e in rw now refl
  | no below ↦
      let rest = star_entries-true f i j (omega arith) e in
      elim (Bool-cases (f (suc i))) [ inl now ↦ rw now refl | inr later ↦ rw (later, rest) refl ]
]

star_entries-from :
    (f : Entries) (i : ℕ) → star_entries f i ≡ true → (j : ℕ) × (j ≤ i) × (f j ≡ true)
star_entries-from f zero h = (0, omega arith, h)
star_entries-from f (suc i) h = elim (Bool-cases (f (suc i))) [
  | inl now ↦ (suc i, omega arith, now)
  | inr later ↦ let (j, le, e) = star_entries-from f i (rw later at h) in (j, omega arith, e)
]

module _ (txt : Text) where
  abbrev entries_after : Text → Entries → Entries
  entries_after [] f = f
  entries_after (c ∷ p) f = entries_after p (next_entries txt c f)

  -- A marked position from which the pattern matches the rest of the text.
  abbrev From : Text → Entries → Type 0
  From p f = (j : ℕ) × (j ≤ length txt) × (f j ≡ true) × Matches p (drop j txt)

  take_all :
      (m j : ℕ) {c : ℕ} {p : Text}
      → j + m ≤ length txt
      → (c == b'*') ≡ true
      → Matches p (drop (j + m) txt)
      → Matches (c ∷ p) (drop j txt)
  take_all zero j {c} {p} h e m = leave e (subst (λ n. Matches p (drop n txt)) (omega arith) m)
  take_all (suc k) j {c} {p} h e m = rw (drop-cons j txt 0 (omega arith)) (
      take e
        (take_all k (suc j) (omega arith) e (subst (λ n. Matches p (drop n txt)) (omega arith) m)))

  sound : (p : Text) (f : Entries) → entries_after p f (length txt) ≡ true → From p f
  sound [] f h =
      (length txt, omega arith, h, subst (λ t. Matches [] t) (sym (drop-length txt)) empty)
  sound (c ∷ p) f h = elim (Bool-cases (c == b'*')) [
    | inl star ↦
        let (i, i_le, e, m) = sound p (star_entries f) (rw star at h) in
        let (j, j_le, f_j) = star_entries-from f i e in
        (
          j,
          omega arith,
          f_j,
          take_all (i - j) j (omega arith) star
              (subst (λ n. Matches p (drop n txt)) (omega arith) m),
        )
    | inr char ↦ from_char p f c char (sound p (char_entries c txt f) (rw char at h))
  ]
    where
      from_char :
          (p : Text) (f : Entries) (c : ℕ)
          → (c == b'*') ≡ false
          → From p (char_entries c txt f)
          → From (c ∷ p) f
      from_char p f c char (zero, le, e, m) = ground arith
      from_char p f c char (suc j, le, e, m) = (
        j,
        omega arith,
        ground arith,
        rw (drop-cons j txt 0 (omega arith)) (one char (ground arith) m),
      )

  complete : (p : Text) (f : Entries) → From p f → entries_after p f (length txt) ≡ true
  complete [] f (j, le, e, m) =
      let none_left = empty_inv m in
      let at_end : j ≡ length txt = omega (arith, length-drop j txt, ap length none_left) in
      subst (λ k. f k ≡ true) at_end e
  complete (c ∷ p) f (j, le, e, m) = elim (Bool-cases (c == b'*')) [
    | inl star ↦
        let (n, n_le, m') = star_inv star m in
        let in_text : j + n ≤ length txt = omega (arith, length-drop j txt) in
        rw star (
          complete p (star_entries f) (
            j + n,
            in_text,
            star_entries-true f (j + n) j (omega arith) e,
            subst (λ t. Matches p t) (drop-drop n j txt) m',
          ))
    | inr char ↦
        let in_text : j < length txt = omega (arith, length-drop j txt, one-nonempty char m) in
        let (fit, m') = one_inv char (rw (drop-cons j txt 0 in_text) at m) in
        rw char (complete p (char_entries c txt f) (suc j, omega arith, rw (e, fit) refl, m'))
  ]

HasEntries-rows :
    (txt p : Text) (dp : Row) (f : Entries)
    → HasEntries (length txt) dp f
    → HasEntries (length txt) (rows txt p dp) (entries_after txt p f)
unfolding rows
HasEntries-rows txt [] dp f h = h
HasEntries-rows txt (c ∷ p) dp f h = HasEntries-rows txt p _ _ (row_step-HasEntries txt c dp f h)

abbrev is_zero : Entries
is_zero zero = true
is_zero (suc j) = false

first_row : (n : ℕ) → HasEntries n (set (replicate (n + 1) false) 0 true) is_zero
first_row n = (
  omega
      (arith, length-set {0} (replicate (n + 1) false) 0 true, length-replicate {0} (n + 1) false),
  λ j h. entry j h,
)
  where
    entry : (j : ℕ) → j ≤ n → at (set (replicate (n + 1) false) 0 true) j ≡ is_zero j
    entry zero h =
        get_or-set_self {0} (replicate (n + 1) false) 0 true false
          (omega (arith, length-replicate {0} (n + 1) false))
    entry (suc j) h =
        get_or-set_ne (replicate (n + 1) false) 0 (suc j) true false (λ e. omega arith)
        ∙ get_or-replicate (n + 1) (suc j) false

wildcard_match-entries :
    (p txt : Text) → wildcard_match p txt ≡ entries_after txt p is_zero (length txt)
unfolding wildcard_match
wildcard_match-entries p txt =
    let (size, same) = HasEntries-rows txt p _ _ (first_row (length txt)) in
    same (length txt) (omega arith)

-- The table decides the pattern: `wildcard_match` answers true exactly if the pattern matches the
-- whole text.
pub wildcard_match_iff : (p txt : Text) → (wildcard_match p txt ≡ true) ↔ Matches p txt
wildcard_match_iff p txt = (
  λ h. from_start (sound txt p is_zero (sym (wildcard_match-entries p txt) ∙ h)),
  λ m. wildcard_match-entries p txt ∙ complete txt p is_zero (0, omega arith, refl, m),
)
  where
    from_start : From txt p is_zero → Matches p txt
    from_start (zero, le, e, m) = m
    from_start (suc j, le, e, m) = ground arith

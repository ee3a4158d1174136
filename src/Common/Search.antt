-- ===== src/Common/Search.antt =====
-- `Iterator::find` over filtered and reversed lists.
use mathlib.Core.List.{Mem, reverse-cons, reverse-reverse, mem-cons_self, mem-cons_of_mem}
use bbkar.Common.{◌≡◌, refl, Bool, true, false, ◌&&◌, none, some, List, [], ◌∷◌}
use bbkar.Common.{
  ◌++◌, reverse, arith, find?, filter, All, All-append, All-imp, Bool-cases, Option-cases, inl, inr,
  subst, if◌then◌else◌,
}
use bbkar.Common.Order.{Order}
use bbkar.Common.Sort.{before, IsSorted}

module _ {ℓ} {A : Type ℓ} where
  pub find?-true : (p : A → Bool) (l : List A) {a : A} → find? p l ≡ some a → p a ≡ true
  find?-true p [] h = ground arith
  find?-true p (x ∷ l) {a} h = ground (arith, find?-true p l {a = a})

  pub find?-filter :
      (p q : A → Bool) (l : List A) → find? p (filter q l) ≡ find? (λ x. q x && p x) l
  find?-filter p q [] = refl
  find?-filter p q (x ∷ l) = ground (arith, find?-filter p q l)

  pub find?-All {κ} :
      (P : A → Type κ) (p : A → Bool) (l : List A) {a : A} → find? p l ≡ some a → All P l → P a
  find?-All P p [] h all = ground arith
  find?-All P p (x ∷ l) h all = elim (Bool-cases (p x)) [
    | inl here ↦ let same : x ≡ _ = ground arith in subst P same all.0
    | inr other ↦ find?-All P p l (rw other at h) all.1
  ]

  pub find?-none : (p : A → Bool) (l : List A) → find? p l ≡ none → All (λ x. p x ≡ false) l
  find?-none p [] h = tt
  find?-none p (x ∷ l) h = (ground arith, find?-none p l (ground arith))

  pub All-reverse {κ} : (P : A → Type κ) (l : List A) → All P l → All P (reverse l)
  All-reverse P [] h = tt
  All-reverse P (x ∷ l) h =
      rw reverse-cons (All-append P (reverse l) (x ∷ []) (All-reverse P l h.1) (h.0, tt))

  pub All-of_reverse {κ} : (P : A → Type κ) (l : List A) → All P (reverse l) → All P l
  All-of_reverse P l h = rw reverse-reverse at (All-reverse P (reverse l) h)

  find?-append :
      (p : A → Bool) (l : List A) (x : A)
      → find? p (l ++ x ∷ [])
        ≡ elim (find? p l) [ some a ↦ some a | none ↦ if p x then some x else none ]
  find?-append p [] x = refl
  find?-append p (y ∷ l) x = ground (arith, find?-append p l x)

  pub All-self : (l : List A) → All (λ x. Mem x l) l
  All-self [] = tt
  All-self (x ∷ l) = (mem-cons_self, All-imp (λ y m. mem-cons_of_mem x m) l (All-self l))

module _ {ℓ κ} {K : Type ℓ} {A : Type κ} (o : Order K) (key : A → K) where
  -- In a sorted list the search from the end finds an item that no other hit comes after.
  pub find?-reverse-IsLast :
      (p : A → Bool) (l : List A) {a : A}
      → IsSorted o key l
      → find? p (reverse l) ≡ some a
      → All (λ q. p q ≡ true → before o key a q ≡ false) l
  find?-reverse-IsLast p [] s h = tt
  find?-reverse-IsLast p (x ∷ l) {a} s h =
      let split = find?-append p (reverse l) x in
      let h' = rw reverse-cons at h in
      elim (Option-cases (find? p (reverse l))) [
        | inl e ↦
            let same : x ≡ a = ground arith in
            subst (λ z. All (λ q. p q ≡ true → before o key z q ≡ false) (x ∷ l)) same
              (
                λ _. ground (arith, o.cmp_refl (key x)),
                All-imp (λ q n y. ground arith) l (All-of_reverse _ l (find?-none p (reverse l) e)),
              )
        | inr (b, e) ↦
            let same : b ≡ a = ground arith in
            let e' = subst (λ z. find? p (reverse l) ≡ some z) same e in
            (
              λ _. find?-All (λ z. before o key z x ≡ false) p (reverse l) e' (All-reverse _ l s.0),
              find?-reverse-IsLast p l s.1 e',
            )
      ]

-- ===== src/Common/Io.antt =====
-- Code that acts on a world: every outcome, an error or a panic too, leaves a world behind.
use bbkar.Common.{◌≡◌, refl, ap, subst, arith}
use bbkar.Common.Br.{Br, ok, err, panic, out_of_fuel, ok_injective}

abbrev pub Io : Type 0 → Type 0 → Type 0
Io W A = W → Br A × W

abbrev pub continue : {W A B : Type 0} → Br A × W → (A → Io W B) → Br B × W
continue (ok a, w) f = f a w
continue (err e, w) f = (err e, w)
continue (panic, w) f = (panic, w)
continue (out_of_fuel, w) f = (out_of_fuel, w)

infixl 5 ◌>>=◌
abbrev pub ◌>>=◌ : {W A B : Type 0} → Io W A → (A → Io W B) → Io W B
m >>= f = λ w. continue (m w) f

abbrev pub done : {W A : Type 0} → A → Io W A
done a = λ w. (ok a, w)

-- Code that does not touch the world
abbrev pub lift : {W A : Type 0} → Br A → Io W A
lift r = λ w. (r, w)

-- The world satisfies `P` whatever the outcome, and `Q` too with the value of a success.
pub record Ends {W A : Type 0} (P : W → Type 0) (Q : A → W → Type 0) (r : Br A × W) : Type 0 where
  pub always : P r.1
  pub on_ok : (a : A) → r.0 ≡ ok a → Q a r.1

pub Ends-bind :
    {W A B : Type 0} {P : W → Type 0} {Q : A → W → Type 0} {R : B → W → Type 0} (r : Br A × W)
    (f : A → Io W B)
    → Ends P Q r
    → ((a : A) (w : W) → P w → Q a w → Ends P R (f a w))
    → Ends P R (continue r f)
Ends-bind (ok a, w) f e k = k a w e.always (e.on_ok a refl)
Ends-bind (err x, w) f e k = record { always = e.always; on_ok = λ a h. ground arith }
Ends-bind (panic, w) f e k = record { always = e.always; on_ok = λ a h. ground arith }
Ends-bind (out_of_fuel, w) f e k = record { always = e.always; on_ok = λ a h. ground arith }

pub Ends-done :
    {W A : Type 0} {P : W → Type 0} {Q : A → W → Type 0} (a : A) (w : W)
    → P w
    → Q a w
    → Ends P Q (ok a, w)
Ends-done {Q} a w p q = record { always = p; on_ok = λ b h. subst (λ c. Q c w) (ok_injective h) q }

-- What is weaker holds too.
pub Ends-imp :
    {W A : Type 0} {P : W → Type 0} {Q R : A → W → Type 0} (r : Br A × W)
    → Ends P Q r
    → ((a : A) (w : W) → Q a w → R a w)
    → Ends P R r
Ends-imp r e k = record { always = e.always; on_ok = λ a h. k a r.1 (e.on_ok a h) }

pub Ends-weaken :
    {W A : Type 0} {P P' : W → Type 0} {Q Q' : A → W → Type 0} (r : Br A × W)
    → Ends P Q r
    → ((w : W) → P w → P' w)
    → ((a : A) (w : W) → P w → Q a w → Q' a w)
    → Ends P' Q' r
Ends-weaken r e f g = record {
  always = f r.1 e.always;
  on_ok = λ a h. g a r.1 e.always (e.on_ok a h);
}

-- A result that does not touch the world
pub Ends-lift :
    {W A : Type 0} {P : W → Type 0} {Q : A → W → Type 0} (r : Br A) (w : W)
    → P w
    → ((a : A) → r ≡ ok a → Q a w)
    → Ends P Q (r, w)
Ends-lift r w p q = record { always = p; on_ok = q }

-- Code that goes on in the same way
pub continue_cong :
    {W A B : Type 0} (r : Br A × W) {f g : A → Io W B}
    → ((a : A) (w : W) → f a w ≡ g a w)
    → continue r f ≡ continue r g
continue_cong (ok a, w) h = h a w
continue_cong (err e, w) h = refl
continue_cong (panic, w) h = refl
continue_cong (out_of_fuel, w) h = refl

pub continue_assoc :
    {W A B C : Type 0} (r : Br A × W) (f : A → Io W B) (g : B → Io W C)
    → continue (continue r f) g ≡ continue r (λ a w. continue (f a w) g)
continue_assoc (ok a, w) f g = refl
continue_assoc (err e, w) f g = refl
continue_assoc (panic, w) f g = refl
continue_assoc (out_of_fuel, w) f g = refl

pub continue-done : {W A : Type 0} (r : Br A × W) → continue r done ≡ r
continue-done (ok a, w) = refl
continue-done (err e, w) = refl
continue-done (panic, w) = refl
continue-done (out_of_fuel, w) = refl

-- Code that ends well, in two parts
pub continue-ok :
    {W A B : Type 0} (r : Br A × W) (f : A → Io W B) {b : B}
    → (continue r f).0 ≡ ok b
    → (a : A) × (w : W) × (r ≡ (ok a, w)) × ((f a w).0 ≡ ok b)
continue-ok (ok a, w) f h = (a, w, refl, h)
continue-ok (err e, w) f h = ground arith
continue-ok (panic, w) f h = ground arith
continue-ok (out_of_fuel, w) f h = ground arith

abbrev pub Anything : {W : Type 0} → W → Type 0
Anything w = Unit {0}

-- Nothing is known of the result.
pub Ends-any : {W A : Type 0} (r : Br A × W) → Ends Anything (λ a. Anything) r
Ends-any r = record { always = tt; on_ok = λ a h. tt }

-- What is known of the end, with the end itself
pub Ends-known :
    {W A : Type 0} {P : W → Type 0} {Q : A → W → Type 0} (r : Br A × W)
    → Ends P Q r
    → Ends P (λ a w. Q a w × (r ≡ (ok a, w))) r
Ends-known r e = record { always = e.always; on_ok = λ a h. (e.on_ok a h, ap (λ x. (x, r.1)) h) }

-- What code ends with is its own result.
pub Ends-self : {W A : Type 0} (r : Br A × W) → Ends Anything (λ a w. r ≡ (ok a, w)) r
Ends-self r = record { always = tt; on_ok = λ a h. ap (λ x. (x, r.1)) h }

abbrev pub Succeeds : {W A : Type 0} → Br A × W → Type 0
Succeeds {A} r = (a : A) × (r.0 ≡ ok a)

pub Succeeds-bind :
    {W A B : Type 0} (r : Br A × W) (f : A → Io W B)
    → Succeeds r
    → ((a : A) (w : W) → r ≡ (ok a, w) → Succeeds (f a w))
    → Succeeds (continue r f)
Succeeds-bind (ok a, w) f s k = k a w refl
Succeeds-bind (err e, w) f s k = ground (arith, s.1)
Succeeds-bind (panic, w) f s k = ground (arith, s.1)
Succeeds-bind (out_of_fuel, w) f s k = ground (arith, s.1)

-- With what is known of the first part
pub Succeeds-after :
    {W A B : Type 0} {P : W → Type 0} {Q : A → W → Type 0} (r : Br A × W) (f : A → Io W B)
    → Succeeds r
    → Ends P Q r
    → ((a : A) (w : W) → P w → Q a w → Succeeds (f a w))
    → Succeeds (continue r f)
Succeeds-after (ok a, w) f s e k = k a w e.always (e.on_ok a refl)
Succeeds-after (err x, w) f s e k = ground (arith, s.1)
Succeeds-after (panic, w) f s e k = ground (arith, s.1)
Succeeds-after (out_of_fuel, w) f s e k = ground (arith, s.1)

-- The result of some code leaves `P` true of the world, whatever the outcome.
abbrev pub Leaves : {W A : Type 0} → (W → Type 0) → Br A × W → Type 0
Leaves P r = P r.1

pub Leaves-bind :
    {W A B : Type 0} (P : W → Type 0) (r : Br A × W) (f : A → Io W B)
    → Leaves P r
    → ((a : A) (w : W) → P w → Leaves P (f a w))
    → Leaves P (continue r f)
Leaves-bind P (ok a, w) f h k = k a w h
Leaves-bind P (err e, w) f h k = h
Leaves-bind P (panic, w) f h k = h
Leaves-bind P (out_of_fuel, w) f h k = h

-- A success in a world of `P`
abbrev pub SucceedsIn : {W A : Type 0} → (W → Type 0) → Br A × W → Type 0
SucceedsIn P r = Succeeds r × P r.1

pub SucceedsIn-bind :
    {W A B : Type 0} {P : W → Type 0} (r : Br A × W) (f : A → Io W B)
    → SucceedsIn P r
    → ((a : A) (w : W) → P w → r ≡ (ok a, w) → SucceedsIn P (f a w))
    → SucceedsIn P (continue r f)
SucceedsIn-bind (ok a, w) f s k = k a w s.1 refl
SucceedsIn-bind (err e, w) f s k = ground (arith, s.0.1)
SucceedsIn-bind (panic, w) f s k = ground (arith, s.0.1)
SucceedsIn-bind (out_of_fuel, w) f s k = ground (arith, s.0.1)

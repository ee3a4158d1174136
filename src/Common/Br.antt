-- ===== src/Common/Br.antt =====
-- model/error.rs: `BbkarError` and `BR`. A result of the model is also a panic (an `unwrap` of
-- `None`, a slice inside a character, a failed `expect`) or a run out of fuel, which stands for a
-- loop or a recursion of the source that does not end.
use mathlib.Core.Path.{◌≡◌, refl, ap}
use mathlib.Core.Option.{Option, none, some}
use mathlib.Core.List.{List}
use mathlib.Core.Bool.{Bool, true, false}
use native.Mathlib.Omega.{arith}
use bbkar.Common.Tests.{if◌then◌else◌}
use bbkar.Common.Text.{Text}

-- The payloads of `io`, `toml`, `yaml` and `open_dal` are errors of other libraries, kept as text.
pub data BbkarError : Type 0 where
  io : Text → BbkarError
  toml : Text → BbkarError
  yaml : Text → BbkarError
  open_dal : Text → BbkarError
  config : List Text → BbkarError
  plan : Text → BbkarError
  execution : Text → BbkarError
  invalid_source_path : Text → BbkarError
  other_error : Text → BbkarError

pub data Br {ℓ} (A : Type ℓ) : Type ℓ where
  ok : A → Br A
  err : BbkarError → Br A
  panic : Br A
  out_of_fuel : Br A

infixl 5 ◌>>=◌ ◌>>◌
abbrev pub ◌>>=◌ {ℓ κ} : {A : Type ℓ} {B : Type κ} → Br A → (A → Br B) → Br B
ok a >>= f = f a
err e >>= f = err e
panic >>= f = panic
out_of_fuel >>= f = out_of_fuel

abbrev pub ◌>>◌ {ℓ} : {B : Type ℓ} → Br (Unit {0}) → Br B → Br B
m >> k = m >>= λ _. k

-- `Option::ok_or_else` and `Option::unwrap`
abbrev pub ok_or {ℓ} : {A : Type ℓ} → Option A → BbkarError → Br A
ok_or none e = err e
ok_or (some a) e = ok a

abbrev pub unwrap {ℓ} : {A : Type ℓ} → Option A → Br A
unwrap none = panic
unwrap (some a) = ok a

pub bind-eq-ok {ℓ κ} :
    {A : Type ℓ} {B : Type κ} (m : Br A) (f : A → Br B) {b : B}
    → (m >>= f) ≡ ok b
    → (a : A) × (m ≡ ok a) × (f a ≡ ok b)
bind-eq-ok (ok a) f h = (a, refl, h)
bind-eq-ok (err e) f h = ground arith
bind-eq-ok panic f h = ground arith
bind-eq-ok out_of_fuel f h = ground arith

pub ok_injective {ℓ} : {A : Type ℓ} {a b : A} → ok a ≡ ok b → a ≡ b
ok_injective h = ground arith

-- A test that an error stands behind
pub then_branch :
    {A : Type 0} {a : A} (b : Bool) (m : Br A) (e : BbkarError)
    → (if b then m else err e) ≡ ok a
    → (b ≡ true) × (m ≡ ok a)
then_branch true m e h = (refl, h)
then_branch false m e h = ground arith

pub unwrap-some : {A : Type 0} (o : Option A) (a : A) → unwrap o ≡ ok a → o ≡ some a
unwrap-some none a h = ground arith
unwrap-some (some b) a h = ap some (ok_injective h)

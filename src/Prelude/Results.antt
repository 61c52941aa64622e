-- ===== src/Prelude/Results.antt =====
-- Go's `(value, error)` pairs: a value or an error of the model's own.
use mathlib.Core.Path.{◌≡◌, refl}
use mathlib.Core.Option.{Option, none, some}

pub data Result {ℓ} (E A : Type ℓ) : Type ℓ where
  ok : A → Result E A
  err : E → Result E A

infixl 5 ◌>>=◌
abbrev pub ◌>>=◌ {ℓ} : {E A B : Type ℓ} → Result E A → (A → Result E B) → Result E B
ok a >>= f = f a
err e >>= f = err e

-- `if err != nil { return ..., wrap(err) }`
abbrev pub map_err {ℓ} : {E F A : Type ℓ} → (E → F) → Result E A → Result F A
map_err w (ok a) = ok a
map_err w (err e) = err (w e)

-- A chain that succeeds has a first step that succeeds, with a value for the second.
pub >>=-eq-ok {ℓ} :
    {E S T : Type ℓ} (r : Result E S) (k : S → Result E T) {y : T}
    → (r >>= k) ≡ ok y
    → (x : S) × (r ≡ ok x) × (k x ≡ ok y)
>>=-eq-ok (ok x) k h = (x, refl, h)
>>=-eq-ok (err e) k h = cc

pub ok-injective {ℓ} : {E A : Type ℓ} {x y : A} → ◌≡◌ {A = Result E A} (ok x) (ok y) → x ≡ y
ok-injective h = cc

-- A failure of called code that says no more than that.
abbrev pub or_err {ℓ} : {E A : Type ℓ} → Option A → E → Result E A
or_err none e = err e
or_err (some a) e = ok a

pub map_err-ok {ℓ} :
    {E F A : Type ℓ} (w : E → F) (r : Result E A) {x : A} → map_err w r ≡ ok x → r ≡ ok x
map_err-ok w (ok a) h = cc
map_err-ok w (err e) h = cc

pub or_err-ok {ℓ} : {E A : Type ℓ} (o : Option A) (e : E) {x : A} → or_err o e ≡ ok x → o ≡ some x
or_err-ok none e h = cc
or_err-ok (some a) e h = cc

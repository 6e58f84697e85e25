-- ===== src/Common/Outcome.antt =====
-- What a piece of Go code does: it returns a value or an error, or it panics, as on an index that
-- is out of range. `stuck` is no Go behaviour: a loop of the model ran out of its fuel.
use mathlib.Core.Path.{◌≡◌, refl}
use mathlib.Core.Bool.{Bool, true, false}

pub data Outcome (E : Type 0) (A : Type 0) : Type 0 where
  ok : A → Outcome E A
  err : E → Outcome E A
  panic : Outcome E A
  stuck : Outcome E A

infixl 5 ◌>>=◌ ◌>>◌
abbrev pub ◌>>=◌ : {E A B : Type 0} → Outcome E A → (A → Outcome E B) → Outcome E B
ok a >>= f = f a
err e >>= f = err e
panic >>= f = panic
stuck >>= f = stuck

abbrev pub ◌>>◌ : {E B : Type 0} → Outcome E (Unit {0}) → Outcome E B → Outcome E B
m >> k = m >>= λ _. k

-- A bounds check that Go makes: the code panics where it fails.
abbrev pub in_bounds : {E : Type 0} → Bool → Outcome E (Unit {0})
in_bounds true = ok tt
in_bounds false = panic

-- The parts of a bind that succeeds.
pub >>=-eq-ok :
    {E A B : Type 0} (step : Outcome E A) (next : A → Outcome E B) {result : B}
    → (step >>= next) ≡ ok result
    → (value : A) × (step ≡ ok value) × (next value ≡ ok result)
>>=-eq-ok panic next returned = cc
>>=-eq-ok stuck next returned = cc
>>=-eq-ok (err reason) next returned = cc
>>=-eq-ok (ok value) next returned = (value, refl, returned)

-- Code behind a bounds check that returned.
pub in_bounds-eq-ok :
    {E A : Type 0} (b : Bool) (m : Outcome E A) {a : A}
    → (in_bounds b >> m) ≡ ok a
    → (b ≡ true) × (m ≡ ok a)
in_bounds-eq-ok true m h = (refl, h)
in_bounds-eq-ok false m h = cc

pub ok-injective : {E A : Type 0} {a b : A} → ◌≡◌ {A = Outcome E A} (ok a) (ok b) → a ≡ b
ok-injective h = cc

pub in_bounds-returns :
    {E A : Type 0} (b : Bool) (x : A)
    → b ≡ true
    → (a : A) × ◌≡◌ {A = Outcome E A} (in_bounds b >> ok x) (ok a)
in_bounds-returns true x e = (x, refl)
in_bounds-returns false x e = cc

-- ===== src/Prelude/Results.antt =====
-- Code that throws: a result, its exceptions by class, and `do` blocks over it.
use mathlib.Core.Path.{◌≡◌, refl}
use mathlib.Core.Logic.{◌⊎◌, inl, inr}
use mathlib.Core.Bool.{Bool, true, false, false≢true}

-- The standard exception classes that the program throws.
pub data Error : Type 0 where
  invalid_argument out_of_range overflow_error runtime_error length_error : Error

pub data Result {ℓ} (A : Type ℓ) : Type ℓ where
  err : Error → Result A
  ok : A → Result A

-- The rest of a function runs on the value; an exception leaves it.
infixl 5 ◌>>=◌ ◌>>◌
abbrev pub ◌>>=◌ {ℓ κ} : {V : Type ℓ} {W : Type κ} → Result V → (V → Result W) → Result W
err thrown >>= rest = err thrown
ok value >>= rest = rest value

abbrev pub ◌>>◌ {κ} : {W : Type κ} → Result (Unit {0}) → Result W → Result W
test >> rest = test >>= λ passed. rest

-- `if (!test) throw e;`
abbrev pub require : Bool → Error → Result (Unit {0})
require true e = ok tt
require false e = err e

-- `if (test) throw e;`
abbrev pub throw_if : Bool → Error → Result (Unit {0})
throw_if true e = err e
throw_if false e = ok tt

-- A call that returned: the value of its first part, and the rest on it.
pub >>=-eq-ok {ℓ κ} :
    {V : Type ℓ} {W : Type κ} (first : Result V) (rest : V → Result W) {w : W}
    → (first >>= rest) ≡ ok w
    → (v : V) × (first ≡ ok v) × (rest v ≡ ok w)
>>=-eq-ok (err thrown) rest returned = cc
>>=-eq-ok (ok value) rest returned = (value, refl, returned)

pub ok-injective : {A : Type 0} {a b : A} → ok a ≡ ok b → a ≡ b
ok-injective h = cc

-- The value of a result that is known to be one.
abbrev pub is_ok {ℓ} : {A : Type ℓ} → Result A → Bool
is_ok (ok a) = true
is_ok (err e) = false

abbrev pub get_ok {ℓ} : {A : Type ℓ} → (m : Result A) → is_ok m ≡ true → A
get_ok (ok a) h = a
get_ok (err e) h = absurd (false≢true h)

pub get_ok_lem : {A : Type 0} (m : Result A) (h : is_ok m ≡ true) → m ≡ ok (get_ok m h)
get_ok_lem (ok a) h = refl
get_ok_lem (err e) h = cc

-- A call throws, or returns a value.
pub Result-cases {ℓ} :
    {A : Type ℓ} (m : Result A) → ((e : Error) × (m ≡ err e)) ⊎ ((a : A) × (m ≡ ok a))
Result-cases (err e) = inl (e, refl)
Result-cases (ok a) = inr (a, refl)

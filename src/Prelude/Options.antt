-- ===== src/Prelude/Options.antt =====
-- Code that answers `std::nullopt`: `do` blocks over an option, and the first of several answers.
use mathlib.Core.Path.{◌≡◌, refl}
use mathlib.Core.Logic.{◌⊎◌, inl, inr}
use mathlib.Core.Bool.{Bool, true, false}
use mathlib.Core.Option.{Option, none, some}

infixl 5 ◌>>=◌ ◌>>◌
abbrev pub ◌>>=◌ {ℓ κ} : {V : Type ℓ} {W : Type κ} → Option V → (V → Option W) → Option W
none >>= rest = none
some v >>= rest = rest v

abbrev pub ◌>>◌ {κ} : {W : Type κ} → Option (Unit {0}) → Option W → Option W
test >> rest = test >>= λ passed. rest

-- `if (!test) return std::nullopt;`
abbrev pub require : Bool → Option (Unit {0})
require true = some tt
require false = none

-- `if (first) return first;`, and what follows.
abbrev pub or_else {ℓ} : {A : Type ℓ} → Option A → Option A → Option A
or_else none rest = rest
or_else (some a) rest = some a

pub >>=-eq-some {ℓ κ} :
    {V : Type ℓ} {W : Type κ} (first : Option V) (rest : V → Option W) {w : W}
    → (first >>= rest) ≡ some w
    → (v : V) × (first ≡ some v) × (rest v ≡ some w)
>>=-eq-some none rest answered = cc
>>=-eq-some (some v) rest answered = (v, refl, answered)

-- The first answer, or the ones behind it.
pub or_else-eq-some {ℓ} :
    {A : Type ℓ} (first rest : Option A) {a : A}
    → or_else first rest ≡ some a
    → (first ≡ some a) ⊎ ((first ≡ none) × (rest ≡ some a))
or_else-eq-some none rest h = inr (refl, h)
or_else-eq-some (some b) rest h = inl h

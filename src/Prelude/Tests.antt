-- ===== src/Prelude/Tests.antt =====
-- Boolean tests on the native numbers, the conditional, and case splits that keep an equation.
use Prim.Native.Nat.{ℕ, zero, suc, ◌≤◌, ◌<◌, compare, Ordering}
use mathlib.Core.Path.{◌≡◌, refl, subst}
use mathlib.Core.Logic.{◌≢◌, ◌↔◌, ◌⊎◌, inl, inr}
use mathlib.Core.Bool.{Bool, true, false, ◌&&◌}
use mathlib.Core.Option.{Option, none, some}
use mathlib.Core.List.{List, [], ◌∷◌}
use native.Mathlib.Omega.{arith}

abbrev pub ltb : ℕ → ℕ → Bool
ltb a b = elim (compare a b) [ Ordering.lt ↦ true | _ ↦ false ]

abbrev pub leb : ℕ → ℕ → Bool
leb a b = elim (compare a b) [ Ordering.gt ↦ false | _ ↦ true ]

infix 50 ◌==◌
abbrev pub ◌==◌ : ℕ → ℕ → Bool
a == b = elim (compare a b) [ Ordering.eq ↦ true | _ ↦ false ]

infix 1 if◌then◌else◌
abbrev pub if◌then◌else◌ {ℓ} : {A : Type ℓ} → Bool → A → A → A
if true then x else y = x
if false then x else y = y

pub ltb→lt : (a b : ℕ) → ltb a b ≡ true → a < b
ltb→lt a b h = ground arith

pub lt→ltb : (a b : ℕ) → a < b → ltb a b ≡ true
lt→ltb a b h = ground arith

pub leb→le : (a b : ℕ) → leb a b ≡ true → a ≤ b
leb→le a b h = ground arith

pub le→leb : (a b : ℕ) → a ≤ b → leb a b ≡ true
le→leb a b h = ground arith

pub ==_iff : (a b : ℕ) → ((a == b) ≡ true) ↔ (a ≡ b)
==_iff a b = ground arith

pub Bool-cases : (b : Bool) → (b ≡ true) ⊎ (b ≡ false)
Bool-cases true = inl refl
Bool-cases false = inr refl

pub Option-cases {ℓ} : {A : Type ℓ} (o : Option A) → (o ≡ none) ⊎ ((a : A) × (o ≡ some a))
Option-cases none = inl refl
Option-cases (some a) = inr (a, refl)

-- A property of every number below a bound, by evaluation.
unfoldable pub holds_below : ℕ → (ℕ → Bool) → Bool
holds_below zero test = true
holds_below (suc n) test = test n && holds_below n test

pub holds_below→holds :
    (n : ℕ) (test : ℕ → Bool) (x : ℕ) → holds_below n test ≡ true → x < n → test x ≡ true
unfolding holds_below
holds_below→holds zero test x h lt = absurd (omega arith)
holds_below→holds (suc n) test x h lt = ground (arith, holds_below→holds n test x)

-- Texts are equal code by code.
abbrev pub equal_text : List ℕ → List ℕ → Bool
equal_text [] [] = true
equal_text [] (d ∷ t) = false
equal_text (c ∷ s) [] = false
equal_text (c ∷ s) (d ∷ t) = (c == d) && equal_text s t

pub equal_text_self : (s : List ℕ) → equal_text s s ≡ true
equal_text_self [] = refl
equal_text_self (c ∷ s) = ground (arith, equal_text_self s)

pub equal_text-false : (s t : List ℕ) → equal_text s t ≡ false → s ≢ t
equal_text-false s t differ e =
    let same : equal_text s t ≡ true = subst (λ u. equal_text s u ≡ true) e (equal_text_self s) in
    cc

-- Signed numbers.
pub data ℤ : Type 0 where
  pos : ℕ → ℤ
  negsuc : ℕ → ℤ

abbrev pub equal_int : ℤ → ℤ → Bool
equal_int (pos m) (pos n) = m == n
equal_int (negsuc m) (negsuc n) = m == n
equal_int (pos m) (negsuc n) = false
equal_int (negsuc m) (pos n) = false

pub equal_int_self : (i : ℤ) → equal_int i i ≡ true
equal_int_self (pos m) = ground arith
equal_int_self (negsuc m) = ground arith

pub equal_text-true : (s t : List ℕ) → equal_text s t ≡ true → s ≡ t
equal_text-true [] [] h = refl
equal_text-true [] (d ∷ t) h = cc
equal_text-true (c ∷ s) [] h = cc
equal_text-true (c ∷ s) (d ∷ t) h = ground (arith, equal_text-true s t)

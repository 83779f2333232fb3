-- ===== src/Hex/Digits.antt =====
-- src/util/hex.cpp: one byte and its two digits, from tables.
use btccpu.Prelude.{
  ℕ, ◌+◌, ◌*◌, ◌/◌, ◌%◌, ◌<◌, ◌≡◌, refl, ap, ◌∙◌, Bool, true, false, not, ◌&&◌, ◌||◌, Option, none,
  some, ltb, ◌==◌, get_or, ok, arith, holds_below, holds_below→holds,
}
use btccpu.Prelude.Bits.{bit_or-field, bit_and-mask}
use btccpu.Hex.{hex_digits, high_digit, low_digit, hex_value, is_lower_hex_digit, byte_of_digits}

abbrev value_is : Option ℕ → ℕ → Bool
value_is none n = false
value_is (some v) n = v == n

value_is→eq : (o : Option ℕ) (n : ℕ) → value_is o n ≡ true → o ≡ some n
value_is→eq none n h = cc
value_is→eq (some v) n h = ground arith

abbrev pub digit : ℕ → ℕ
digit n = get_or hex_digits n 0

digit_table :
    holds_below 16 (λ n. is_lower_hex_digit (digit n) && value_is (hex_value (digit n)) n) ≡ true
unfolding holds_below is_lower_hex_digit hex_value
digit_table = refl

pub digit_fits :
    (n : ℕ) → n < 16 → (is_lower_hex_digit (digit n) ≡ true) × (hex_value (digit n) ≡ some n)
digit_fits n h = split (holds_below→holds 16 _ n digit_table h)
  where
    split :
        (is_lower_hex_digit (digit n) && value_is (hex_value (digit n)) n) ≡ true
        → (is_lower_hex_digit (digit n) ≡ true) × (hex_value (digit n) ≡ some n)
    split e = (ground arith, value_is→eq (hex_value (digit n)) n (ground arith))

abbrev pub nibble : ℕ → ℕ
nibble c = elim (hex_value c) [ none ↦ 0 | some v ↦ v ]

abbrev nibble_fits : ℕ → Bool
nibble_fits c =
    not (is_lower_hex_digit c)
    || (value_is (hex_value c) (nibble c) && (ltb (nibble c) 16 && digit (nibble c) == c))

nibble_table : holds_below 103 nibble_fits ≡ true
unfolding holds_below is_lower_hex_digit hex_value
nibble_table = refl

lower-lt : (c : ℕ) → is_lower_hex_digit c ≡ true → c < 103
unfolding is_lower_hex_digit
lower-lt c h = ground arith

-- A lowercase digit is the digit of its value.
pub digit_of_lower :
    (c : ℕ)
    → is_lower_hex_digit c ≡ true
    → (hex_value c ≡ some (nibble c)) × (nibble c < 16) × (digit (nibble c) ≡ c)
digit_of_lower c h = split (holds_below→holds 103 nibble_fits c nibble_table (lower-lt c h))
  where
    split :
        nibble_fits c ≡ true
        → (hex_value c ≡ some (nibble c)) × (nibble c < 16) × (digit (nibble c) ≡ c)
    split e = (value_is→eq (hex_value c) (nibble c) (ground arith), ground arith, ground arith)

pub digit_not_lower : (c : ℕ) → is_lower_hex_digit c ≡ false → hex_value c ≡ none
unfolding is_lower_hex_digit hex_value
digit_not_lower c h = ground arith

pub high_digit_lem : (b : ℕ) → b < 256 → high_digit b ≡ digit (b / 16)
high_digit_lem b h =
    ap (λ (t : ℕ). digit t)
      (bit_and-mask 4 (b / 16) ∙ (let e : b / 16 % 16 ≡ b / 16 = omega arith in e))

pub low_digit_lem : (b : ℕ) → low_digit b ≡ digit (b % 16)
low_digit_lem b = ap (λ (t : ℕ). digit t) (bit_and-mask 4 b)

byte_of_digits_lem :
    (hi lo : ℕ) → hi < 16 → lo < 16 → byte_of_digits (some hi) (some lo) ≡ ok (hi * 16 + lo)
unfolding byte_of_digits
byte_of_digits_lem hi lo h l = ap ok (omega (arith, bit_or-field 4 hi lo l))

-- One byte written and read.
pub byte_back :
    (b : ℕ)
    → b < 256
    → (is_lower_hex_digit (high_digit b) ≡ true)
      × (is_lower_hex_digit (low_digit b) ≡ true)
      × (byte_of_digits (hex_value (high_digit b)) (hex_value (low_digit b)) ≡ ok b)
byte_back b h =
    let (hl, hv) = digit_fits (b / 16) (omega arith) in
    let (ll, lv) = digit_fits (b % 16) (omega arith) in
    rw (high_digit_lem b h, low_digit_lem b)
      (
        hl,
        ll,
        rw (hv, lv)
            (byte_of_digits_lem (b / 16) (b % 16) (omega arith) (omega arith)
              ∙ ap ok (omega arith)),
      )

-- Two digits read and written.
pub digits_back :
    (c d : ℕ)
    → is_lower_hex_digit c ≡ true
    → is_lower_hex_digit d ≡ true
    → let b = nibble c * 16 + nibble d in
      (b < 256)
      × (byte_of_digits (hex_value c) (hex_value d) ≡ ok b)
      × (high_digit b ≡ c)
      × (low_digit b ≡ d)
digits_back c d hc hd =
    let (cv, cl, cd) = digit_of_lower c hc in
    let (dv, dl, dd) = digit_of_lower d hd in
    let b = nibble c * 16 + nibble d in
    (
      omega arith,
      rw (cv, dv) (byte_of_digits_lem (nibble c) (nibble d) cl dl),
      high_digit_lem b (omega arith) ∙ ap (λ (t : ℕ). digit t) (omega arith) ∙ cd,
      low_digit_lem b ∙ ap (λ (t : ℕ). digit t) (omega arith) ∙ dd,
    )

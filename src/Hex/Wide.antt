-- ===== src/Hex/Wide.antt =====
-- src/util/hex.cpp: `hex_from_u64_be`, whose size is a parameter.
use btccpu.Prelude.{
  ℕ, zero, suc, ◌+◌, ◌*◌, ◌/◌, ◌%◌, ◌^◌, ◌≤◌, ◌<◌, ◌≡◌, refl, sym, ap, ◌∙◌, List, [], ◌∷◌, length,
  All, IsByte, ok, err, invalid_argument, arith, lt→ltb,
}
use btccpu.Prelude.Bits.{mod-field}
use btccpu.Hex.{hex_from_u64_loop, hex_from_u64_be, hex_to_bytes, bytes_to_hex}
use btccpu.Hex.Bytes.{hex_to_bytes-bytes_to_hex, length-bytes_to_hex}
use native.Mathlib.Nat.{div-add-mod', one-le-pow, mod-lt, mod-eq_of_lt}
use native.Mathlib.Numerals.{towards_suc}

-- The low `n` bytes of a value, most significant first.
abbrev pub be_bytes : ℕ → ℕ → List ℕ
be_bytes v zero = []
be_bytes v (suc n) = v / 2 ^ (n * 8) % 256 ∷ be_bytes v n

-- The number that a string of bytes spells, most significant first.
abbrev pub be_value : List ℕ → ℕ
be_value [] = 0
be_value (b ∷ bs) = b * 2 ^ (length bs * 8) + be_value bs

be_bytes-IsByte : (v n : ℕ) → All IsByte (be_bytes v n)
be_bytes-IsByte v zero = tt
be_bytes-IsByte v (suc n) = (omega arith, be_bytes-IsByte v n)

pub length-be_bytes : (v n : ℕ) → length (be_bytes v n) ≡ n
length-be_bytes v zero = refl
length-be_bytes v (suc n) = ap suc (length-be_bytes v n)

pub pow-byte : (n : ℕ) → 2 ^ (suc n * 8) ≡ 256 * 2 ^ (n * 8)
pow-byte n =
    ap (λ (t : ℕ). 2 ^ t) (let e : suc n * 8 ≡ n * 8 + 8 = omega arith in e) ∙ shift (n * 8)
  where
    shift : (s : ℕ) → 2 ^ (s + 8) ≡ 256 * 2 ^ s
    shift s = simp towards_suc (omega arith)

-- A number modulo `256 p` from its part above `p` and its part below.
mod-byte : (v p : ℕ) → 0 < p → v % (256 * p) ≡ v / p % 256 * p + v % p
mod-byte v p pos =
    mod-field v (v / p / 256) (v / p % 256 * p + v % p) (256 * p)
      (omega (arith, div-add-mod' v p, ap (λ (t : ℕ). t * p) (div-add-mod' (v / p) 256)))
      (omega (arith, mod-lt v pos, bound (v / p % 256) (omega arith)))
  where
    bound : (d : ℕ) → d < 256 → d * p ≤ 255 * p
    bound d h = grind arith

pub be_value-be_bytes : (v n : ℕ) → be_value (be_bytes v n) ≡ v % 2 ^ (n * 8)
be_value-be_bytes v zero = omega arith
be_value-be_bytes v (suc n) =
    rw (length-be_bytes v n, be_value-be_bytes v n, pow-byte n)
      (sym (mod-byte v (2 ^ (n * 8)) (one-le-pow (n * 8) 2 (omega arith))))

hex_from_u64_loop_lem : (v n : ℕ) → hex_from_u64_loop v n ≡ bytes_to_hex (be_bytes v n)
unfolding hex_from_u64_loop bytes_to_hex
hex_from_u64_loop_lem v zero = refl
hex_from_u64_loop_lem v (suc n) = rw (hex_from_u64_loop_lem v n)

-- With a size of at most 8 bytes `hex_from_u64_be` returns two digits for each byte, and they
-- read back as bytes that spell the value modulo 2 ^ (8 * size), most significant first.
pub hex_from_u64_be_reads :
    (v n : ℕ)
    → n ≤ 8
    → (s bs : List ℕ) × (hex_from_u64_be v n ≡ ok s)
      × (length s ≡ 2 * n)
      × (hex_to_bytes s ≡ ok bs)
      × (be_value bs ≡ v % 2 ^ (n * 8))
unfolding hex_from_u64_be
hex_from_u64_be_reads v n h = (
  hex_from_u64_loop v n,
  be_bytes v n,
  ground arith,
  rw (hex_from_u64_loop_lem v n)
      (omega (arith, length-bytes_to_hex (be_bytes v n), length-be_bytes v n)),
  rw (hex_from_u64_loop_lem v n) (hex_to_bytes-bytes_to_hex (be_bytes v n) (be_bytes-IsByte v n)),
  be_value-be_bytes v n,
)

pub hex_from_u64_be_refuses : (v n : ℕ) → 8 < n → hex_from_u64_be v n ≡ err invalid_argument
unfolding hex_from_u64_be
hex_from_u64_be_refuses v n h = rw (lt→ltb 8 n h)

-- Two values below 2 ^ (8 * size) with the same text are the same.
pub hex_from_u64_be_injective :
    (v w n : ℕ)
    → n ≤ 8
    → v < 2 ^ (n * 8)
    → w < 2 ^ (n * 8)
    → hex_from_u64_be v n ≡ hex_from_u64_be w n
    → v ≡ w
hex_from_u64_be_injective v w n h hv hw e =
    let (s, bs, es, ls, rs, vs) = hex_from_u64_be_reads v n h in
    let (t, cs, et, lt, rt, vt) = hex_from_u64_be_reads w n h in
    let st : s ≡ t = cc in
    let bc : bs ≡ cs = cc in omega (arith, ap be_value bc, mod-eq_of_lt hv, mod-eq_of_lt hw)

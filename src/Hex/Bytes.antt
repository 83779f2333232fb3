-- ===== src/Hex/Bytes.antt =====
-- src/util/hex.cpp: the codec between bytes and hex text, whole strings.
use btccpu.Prelude.{
  ℕ, ◌+◌, ◌*◌, ◌%◌, ◌≡◌, refl, ◌↔◌, ◌⊎◌, true, false, List, [], ◌∷◌, length, All, IsByte, ok, err,
  invalid_argument, arith, Bool-cases, inl, inr,
}
use btccpu.Hex.{all_lower_hex, is_lower_hex_string, hex_to_bytes_loop, hex_to_bytes, bytes_to_hex}
use btccpu.Hex.Digits.{nibble, byte_back, digits_back}

pub length-bytes_to_hex : (bs : List ℕ) → length (bytes_to_hex bs) ≡ 2 * length bs
unfolding bytes_to_hex
length-bytes_to_hex [] = omega arith
length-bytes_to_hex (b ∷ bs) = omega (arith, length-bytes_to_hex bs)

all_lower_hex-bytes_to_hex : (bs : List ℕ) → All IsByte bs → all_lower_hex (bytes_to_hex bs) ≡ true
unfolding bytes_to_hex all_lower_hex
all_lower_hex-bytes_to_hex [] h = refl
all_lower_hex-bytes_to_hex (b ∷ bs) h =
    let (hi, lo, v) = byte_back b h.0 in rw (hi, lo) (all_lower_hex-bytes_to_hex bs h.1)

pub is_lower-bytes_to_hex :
    (bs : List ℕ) → All IsByte bs → is_lower_hex_string (bytes_to_hex bs) ≡ true
unfolding is_lower_hex_string
is_lower-bytes_to_hex bs h = ground (arith, length-bytes_to_hex bs, all_lower_hex-bytes_to_hex bs h)

loop-bytes_to_hex : (bs : List ℕ) → All IsByte bs → hex_to_bytes_loop (bytes_to_hex bs) ≡ ok bs
unfolding bytes_to_hex hex_to_bytes_loop
loop-bytes_to_hex [] h = refl
loop-bytes_to_hex (b ∷ bs) h = let (hi, lo, v) = byte_back b h.0 in rw (v, loop-bytes_to_hex bs h.1)

-- Reading back the hex text of any bytes gives those bytes.
pub hex_to_bytes-bytes_to_hex :
    (bs : List ℕ) → All IsByte bs → hex_to_bytes (bytes_to_hex bs) ≡ ok bs
unfolding hex_to_bytes
hex_to_bytes-bytes_to_hex bs h = rw (is_lower-bytes_to_hex bs h) (loop-bytes_to_hex bs h)

-- What a successful read of `s` gives.
abbrev pub Reads : List ℕ → List ℕ → Type 0
Reads s bs =
    (hex_to_bytes s ≡ ok bs) × All IsByte bs × (bytes_to_hex bs ≡ s) × (length s ≡ 2 * length bs)

loop_reads :
    (s : List ℕ)
    → length s % 2 ≡ 0
    → all_lower_hex s ≡ true
    → (bs : List ℕ) × (hex_to_bytes_loop s ≡ ok bs)
      × All IsByte bs
      × (bytes_to_hex bs ≡ s)
      × (length s ≡ 2 * length bs)
unfolding bytes_to_hex hex_to_bytes_loop all_lower_hex
loop_reads [] e h = ([], refl, tt, refl, omega arith)
loop_reads (c ∷ []) e h = absurd (omega arith)
loop_reads (c ∷ d ∷ s) e h =
    let (small, v, hi, lo) = digits_back c d (ground arith) (ground arith) in
    let (bs, eb, ab, tb, lb) = loop_reads s (omega arith) (ground arith) in
    ((nibble c * 16 + nibble d) ∷ bs, rw (v, eb), (small, ab), rw (hi, lo, tb), omega arith)

is_lower_parts :
    (s : List ℕ) → is_lower_hex_string s ≡ true → (length s % 2 ≡ 0) × (all_lower_hex s ≡ true)
unfolding is_lower_hex_string
is_lower_parts s h = ground arith

-- A lowercase string of even length is read, and its bytes print as the string again.
pub hex_to_bytes-Reads : (s : List ℕ) → is_lower_hex_string s ≡ true → (bs : List ℕ) × Reads s bs
unfolding hex_to_bytes
hex_to_bytes-Reads s h =
    let (e, l) = is_lower_parts s h in
    let (bs, eb, ab, tb, lb) = loop_reads s e l in (bs, (rw h eb, ab, tb, lb))

-- Any other string is refused.
pub hex_to_bytes_refuses :
    (s : List ℕ) → is_lower_hex_string s ≡ false → hex_to_bytes s ≡ err invalid_argument
unfolding hex_to_bytes
hex_to_bytes_refuses s h = rw h

pub is_lower_of_ok : (s bs : List ℕ) → hex_to_bytes s ≡ ok bs → is_lower_hex_string s ≡ true
is_lower_of_ok s bs e = elim (Bool-cases (is_lower_hex_string s)) [
  | inl h ↦ h
  | inr h ↦ cc (hex_to_bytes_refuses s h)
]

pub Reads-of_ok : (s bs : List ℕ) → hex_to_bytes s ≡ ok bs → Reads s bs
Reads-of_ok s bs e = let (cs, r) = hex_to_bytes-Reads s (is_lower_of_ok s bs e) in same cs r
  where
    same : (cs : List ℕ) → Reads s cs → Reads s bs
    same cs r = let q : cs ≡ bs = cc (r.0) in rw q at r

-- `hex_to_bytes` returns `bs` on `s` exactly when `bs` are bytes and `s` is what `bytes_to_hex`
-- prints for them.
pub hex_to_bytes-bytes_to_hex_iff :
    (s bs : List ℕ) → (hex_to_bytes s ≡ ok bs) ↔ (All IsByte bs × (bytes_to_hex bs ≡ s))
hex_to_bytes-bytes_to_hex_iff s bs = (
  λ e. let r = Reads-of_ok s bs e in (r.1, r.2),
  λ h. rw h.1 at (hex_to_bytes-bytes_to_hex bs h.0),
)

-- `hex_to_bytes` succeeds on the strings that `is_lower_hex_string` accepts, with half as many
-- bytes as digits, and throws `invalid_argument` on all others.
pub hex_to_bytes_cases :
    (s : List ℕ)
    → ((is_lower_hex_string s ≡ true)
        × ((bs : List ℕ) × (hex_to_bytes s ≡ ok bs) × (length s ≡ 2 * length bs)))
      ⊎ ((is_lower_hex_string s ≡ false) × (hex_to_bytes s ≡ err invalid_argument))
hex_to_bytes_cases s = elim (Bool-cases (is_lower_hex_string s)) [
  | inl h ↦ let (bs, r) = hex_to_bytes-Reads s h in inl (h, (bs, r.0, r.3))
  | inr h ↦ inr (h, hex_to_bytes_refuses s h)
]

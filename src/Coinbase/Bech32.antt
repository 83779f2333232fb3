-- ===== src/Coinbase/Bech32.antt =====
-- src/mining_job/coinbase.cpp: the bech32 encoder of witness addresses.
use btccpu.Prelude.{
  ℕ, zero, suc, ◌+◌, ◌-◌, ◌*◌, ◌/◌, ◌%◌, ◌^◌, true, false, List, [], ◌∷◌, ◌++◌, map, replicate,
  get_or, bit_and, bit_or, bit_xor, leb, ltb, ◌==◌, not, if◌then◌else◌,
}

-- "qpzry9x8gf2tvdw0s3jn54khce6mua7l"
abbrev pub bech32_charset : List ℕ
bech32_charset =
    b'q' ∷ b'p' ∷ b'z' ∷ b'r' ∷ b'y' ∷ b'9' ∷ b'x' ∷ b'8' ∷ b'g' ∷ b'f' ∷ b'2' ∷ b't' ∷ b'v' ∷ b'd'
    ∷ b'w' ∷ b'0' ∷ b's' ∷ b'3' ∷ b'j' ∷ b'n' ∷ b'5' ∷ b'4' ∷ b'k' ∷ b'h' ∷ b'c' ∷ b'e' ∷ b'6'
    ∷ b'm' ∷ b'u' ∷ b'a' ∷ b'7' ∷ b'l' ∷ []

abbrev pub generators : List ℕ
generators = 0x3b6a57b2 ∷ 0x26508e6d ∷ 0x1ea119fa ∷ 0x3d4233dd ∷ 0x2a1462b3 ∷ []

-- The inner loop from `i` on, over the generators that are left.
unfoldable pub polymod_generators : ℕ → ℕ → List ℕ → ℕ → ℕ
polymod_generators top i [] chk = chk
polymod_generators top i (g ∷ gs) chk =
    polymod_generators top (suc i) gs
      (if not (bit_and (top / 2 ^ i) 1 == 0) then bit_xor chk g else chk)

unfoldable pub polymod_loop : List ℕ → ℕ → ℕ
polymod_loop [] chk = chk
polymod_loop (v ∷ vs) chk = polymod_loop vs (
    polymod_generators (chk / 2 ^ 25) 0 generators
      (bit_xor (bit_and chk 0x1ffffff * 2 ^ 5 % 2 ^ 32) v))

unfoldable pub bech32_polymod : List ℕ → ℕ
bech32_polymod values = polymod_loop values 1

unfoldable pub bech32_hrp_expand : List ℕ → List ℕ
bech32_hrp_expand hrp = map (λ c. c / 2 ^ 5) hrp ++ (0 ∷ map (λ c. bit_and c 31) hrp)

-- The `while` loop: every round takes 5 bits, so `bits` rounds are enough.
unfoldable pub take_groups : ℕ → ℕ → ℕ → List ℕ → ℕ × List ℕ
take_groups zero acc bits out = (bits, out)
take_groups (suc rounds) acc bits out = elim (leb 5 bits) [
  | true ↦ take_groups rounds acc (bits - 5) (out ++ (bit_and (acc / 2 ^ (bits - 5)) 31 ∷ []))
  | false ↦ (bits, out)
]

-- `acc` is an `int`, kept as its 32 bits: only its low 12 bits are ever read.
unfoldable pub convert_loop : List ℕ → ℕ → ℕ → List ℕ → List ℕ
convert_loop [] acc bits out =
    if ltb 0 bits then out ++ (bit_and (acc * 2 ^ (5 - bits)) 31 ∷ []) else out
convert_loop (b ∷ bs) acc bits out =
    let acc = bit_or (acc * 2 ^ 8 % 2 ^ 32) b in
    let taken = take_groups (bits + 8) acc (bits + 8) out in convert_loop bs acc taken.0 taken.1

unfoldable pub convert_bits_8_to_5 : List ℕ → List ℕ
convert_bits_8_to_5 bytes = convert_loop bytes 0 0 []

unfoldable pub bech32_encode : List ℕ → List ℕ → List ℕ
bech32_encode hrp values =
    let polymod = bit_xor (bech32_polymod (bech32_hrp_expand hrp ++ (values ++ replicate 6 0))) 1 in
    let checksum =
      map (λ (i : ℕ). bit_and (polymod / 2 ^ (5 * (5 - i))) 31) (0 ∷ 1 ∷ 2 ∷ 3 ∷ 4 ∷ 5 ∷ []) in
    let text = map (λ (v : ℕ). get_or bech32_charset v 0) in
    hrp ++ (b'1' ∷ (text values ++ text checksum))

-- ===== src/Tests/Addresses.antt =====
-- The address of the key hash in BIP 173, by the bech32 encoder of src/mining_job/coinbase.cpp.
use btccpu.Prelude.{ℕ, ◌≡◌, refl, List, [], ◌∷◌}
use btccpu.Coinbase.Bech32.{
  polymod_generators, polymod_loop, bech32_polymod, bech32_hrp_expand, take_groups, convert_loop,
  convert_bits_8_to_5, bech32_encode,
}

abbrev key_hash : List ℕ
key_hash =
    0x75 ∷ 0x1e ∷ 0x76 ∷ 0xe8 ∷ 0x19 ∷ 0x91 ∷ 0x96 ∷ 0xd4 ∷ 0x54 ∷ 0x94 ∷ 0x1c ∷ 0x45 ∷ 0xd1 ∷ 0xb3
    ∷ 0xa3 ∷ 0x23 ∷ 0xf1 ∷ 0x43 ∷ 0x3b ∷ 0xd6 ∷ []

key_hash_address :
    bech32_encode (b'b' ∷ b'c' ∷ []) (0 ∷ convert_bits_8_to_5 key_hash)
    ≡ b'b' ∷ b'c' ∷ b'1' ∷ b'q' ∷ b'w' ∷ b'5' ∷ b'0' ∷ b'8' ∷ b'd' ∷ b'6' ∷ b'q' ∷ b'e' ∷ b'j'
      ∷ b'x' ∷ b't' ∷ b'd' ∷ b'g' ∷ b'4' ∷ b'y' ∷ b'5' ∷ b'r' ∷ b'3' ∷ b'z' ∷ b'a' ∷ b'r' ∷ b'v'
      ∷ b'a' ∷ b'r' ∷ b'y' ∷ b'0' ∷ b'c' ∷ b'5' ∷ b'x' ∷ b'w' ∷ b'7' ∷ b'k' ∷ b'v' ∷ b'8' ∷ b'f'
      ∷ b'3' ∷ b't' ∷ b'4' ∷ []
unfolding polymod_generators polymod_loop bech32_polymod bech32_hrp_expand take_groups convert_loop
    convert_bits_8_to_5 bech32_encode
key_hash_address = refl

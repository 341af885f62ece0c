-- ===== src/Crc32.antt =====
-- Go's hash/crc32 with the Castagnoli polynomial, bit by bit.
use Prim.Native.Nat.{bit_xor}
use kage.Prelude.{ℕ, zero, suc, ◌/◌, ◌%◌, ◌≡◌, refl, [], ◌∷◌, Bytes, ◌==◌, if◌then◌else◌}

-- One bit: the polynomial 0x82f63b78 is added if the bit that is shifted out is 1.
shift_bit : ℕ → ℕ
shift_bit crc = if crc % 2 == 0 then crc / 2 else bit_xor (crc / 2) 0x82f6_3b78

shift_bits : ℕ → ℕ → ℕ
shift_bits zero crc = crc
shift_bits (suc n) crc = shift_bits n (shift_bit crc)

update : ℕ → Bytes → ℕ
update crc [] = crc
update crc (b ∷ bs) = update (shift_bits 8 (bit_xor crc b)) bs

unfoldable pub checksum : Bytes → ℕ
unfolding update shift_bits shift_bit
checksum bs = bit_xor (update 0xffff_ffff bs) 0xffff_ffff

-- The check value of CRC-32C, for the text "123456789".
checksum_check :
    checksum (b'1' ∷ b'2' ∷ b'3' ∷ b'4' ∷ b'5' ∷ b'6' ∷ b'7' ∷ b'8' ∷ b'9' ∷ []) ≡ 0xe306_9283
unfolding checksum
checksum_check = refl

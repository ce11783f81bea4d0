-- ===== src/Checksum/Crc16/Detection.antt =====
-- What a CRC of the class CRC16 tells apart: each round of its loops is one-to-one.
use Prim.Native.Nat.{bit_xor}
use native.Mathlib.Decide.{dec_lt}
use rk_firmware_flashd.Prelude.{
  ℕ, zero, suc, ◌+◌, ◌-◌, ◌*◌, ◌^◌, ◌<◌, ◌≡◌, refl, ap, sym, ◌∙◌, ◌≢◌, [], ◌∷◌, ◌++◌, arith, All,
}
use rk_firmware_flashd.Prelude.Bits.{
  bit_xor_injective, bit_xor-lt, bit_xor_high, bit_xor-mod, bit_xor_comm,
}
use rk_firmware_flashd.Prelude.Text.{Bytes}
use rk_firmware_flashd.Checksum.Crc16.{
  Crc16, shift_bit, shift_bits, update_byte, update_bytes, update, crc16_compute, u16,
}

abbrev pub IsByte : ℕ → Type 0
IsByte b = b < 256

shift_clear : (c : ℕ) → c < 2 ^ 15 → shift_bit c ≡ c * 2
unfolding shift_bit
shift_clear c h = ground arith

-- With bit 15 set the bit that leaves the register is replaced by the polynomial.
shift_set : (r : ℕ) → r < 2 ^ 15 → shift_bit (2 ^ 15 + r) ≡ bit_xor (r * 2) 0x1021
unfolding shift_bit
shift_set r h = ground (
  arith,
  bit_xor_high 16 (r * 2) 0x1021 (omega arith) (omega arith),
  bit_xor-lt 16 (r * 2) 0x1021 (omega arith) (omega arith),
)

-- Of the bit that leaves, the lowest bit of the result keeps a copy.
data Msb (c : ℕ) : Type 0 where
  clear : c < 2 ^ 15 → shift_bit c ≡ c * 2 → Msb c
  raised : (r : ℕ) → c ≡ 2 ^ 15 + r → r < 2 ^ 15 → shift_bit c ≡ bit_xor (r * 2) 0x1021 → Msb c

msb : (c : ℕ) → c < 2 ^ 16 → Msb c
msb c h = elim (dec_lt c (2 ^ 15)) [
  | yes low ↦ clear low (shift_clear c low)
  | no high ↦
      let e : c ≡ 2 ^ 15 + (c - 2 ^ 15) = omega arith in
      raised (c - 2 ^ 15) e (omega arith) (ap shift_bit e ∙ shift_set (c - 2 ^ 15) (omega arith))
]

shift_bit_injective : (c c' : ℕ) → Msb c → Msb c' → shift_bit c ≡ shift_bit c' → c ≡ c'
shift_bit_injective c c' (clear h s) (clear h' s') e = omega arith
shift_bit_injective c c' (clear h s) (raised r p h' s') e =
    absurd (omega (arith, bit_xor-mod (r * 2) 0x1021))
shift_bit_injective c c' (raised r p h s) (clear h' s') e =
    absurd (omega (arith, bit_xor-mod (r * 2) 0x1021))
shift_bit_injective c c' (raised r p h s) (raised r' p' h' s') e =
    let same : r * 2 ≡ r' * 2 =
      bit_xor_injective 16 (r * 2) (r' * 2) 0x1021 (omega arith) (omega arith) (omega arith)
        (sym s ∙ e ∙ s') in
    omega arith

pub shift_bit-lt : (c : ℕ) → shift_bit c < 2 ^ 16
unfolding shift_bit
shift_bit-lt c = ground arith

pub shift_bits-lt : (j c : ℕ) → c < 2 ^ 16 → shift_bits j c < 2 ^ 16
unfolding shift_bits
shift_bits-lt zero c h = h
shift_bits-lt (suc j) c h = shift_bits-lt j (shift_bit c) (shift_bit-lt c)

shift_bits_injective :
    (j c c' : ℕ) → c < 2 ^ 16 → c' < 2 ^ 16 → shift_bits j c ≡ shift_bits j c' → c ≡ c'
unfolding shift_bits
shift_bits_injective zero c c' h h' e = e
shift_bits_injective (suc j) c c' h h' e =
    shift_bit_injective c c' (msb c h) (msb c' h')
      (shift_bits_injective j (shift_bit c) (shift_bit c') (shift_bit-lt c) (shift_bit-lt c') e)

-- The register with the next byte mixed in.
abbrev mixed : ℕ → ℕ → ℕ
mixed crc byte = u16 (bit_xor crc (byte * 2 ^ 8))

mixed_lem :
    (crc byte : ℕ) → crc < 2 ^ 16 → IsByte byte → mixed crc byte ≡ bit_xor crc (byte * 2 ^ 8)
mixed_lem crc byte h b = omega (arith, bit_xor-lt 16 crc (byte * 2 ^ 8) h (omega arith))

pub update_byte-lt : (crc byte : ℕ) → update_byte crc byte < 2 ^ 16
unfolding update_byte
update_byte-lt crc byte = shift_bits-lt 8 (mixed crc byte) (omega arith)

update_byte_injective_crc :
    (c c' byte : ℕ)
    → c < 2 ^ 16
    → c' < 2 ^ 16
    → IsByte byte
    → update_byte c byte ≡ update_byte c' byte
    → c ≡ c'
unfolding update_byte
update_byte_injective_crc c c' byte h h' b e =
    bit_xor_injective 16 c c' (byte * 2 ^ 8) h h' (omega arith) (
      sym (mixed_lem c byte h b)
      ∙ shift_bits_injective 8 (mixed c byte) (mixed c' byte) (omega arith) (omega arith) e
      ∙ mixed_lem c' byte h' b)

update_byte_injective_byte :
    (c byte byte' : ℕ)
    → c < 2 ^ 16
    → IsByte byte
    → IsByte byte'
    → update_byte c byte ≡ update_byte c byte'
    → byte ≡ byte'
unfolding update_byte
update_byte_injective_byte c byte byte' h b b' e =
    let same : byte * 2 ^ 8 ≡ byte' * 2 ^ 8 =
      bit_xor_injective 16 (byte * 2 ^ 8) (byte' * 2 ^ 8) c (omega arith) (omega arith) h (
        bit_xor_comm 16 (byte * 2 ^ 8) c (omega arith) h
        ∙ sym (mixed_lem c byte h b)
        ∙ shift_bits_injective 8 (mixed c byte) (mixed c byte') (omega arith) (omega arith) e
        ∙ mixed_lem c byte' h b'
        ∙ bit_xor_comm 16 c (byte' * 2 ^ 8) h (omega arith)) in
    omega arith

pub update_bytes-lt : (crc : ℕ) (bytes : Bytes) → crc < 2 ^ 16 → update_bytes crc bytes < 2 ^ 16
unfolding update_bytes
update_bytes-lt crc [] h = h
update_bytes-lt crc (b ∷ bytes) h = update_bytes-lt (update_byte crc b) bytes (update_byte-lt crc b)

pub update_bytes-append :
    (crc : ℕ) (xs ys : Bytes) → update_bytes crc (xs ++ ys) ≡ update_bytes (update_bytes crc xs) ys
unfolding update_bytes
update_bytes-append crc [] ys = refl
update_bytes-append crc (x ∷ xs) ys = update_bytes-append (update_byte crc x) xs ys

update_bytes_injective :
    (c c' : ℕ) (bytes : Bytes)
    → c < 2 ^ 16
    → c' < 2 ^ 16
    → All IsByte bytes
    → update_bytes c bytes ≡ update_bytes c' bytes
    → c ≡ c'
unfolding update_bytes
update_bytes_injective c c' [] h h' _ e = e
update_bytes_injective c c' (b ∷ bytes) h h' (p, ps) e = update_byte_injective_crc c c' b h h' p (
    update_bytes_injective (update_byte c b) (update_byte c' b) bytes (update_byte-lt c b)
      (update_byte-lt c' b) ps e)

-- The checksum of any data fits 16 bits.
pub crc16_compute-lt : (bytes : Bytes) → crc16_compute bytes < 2 ^ 16
unfolding crc16_compute
crc16_compute-lt bytes = update_bytes-lt 0xffff bytes (omega arith)

-- Feeding data in two parts gives the state that feeding it whole gives.
pub update-append : (c : Crc16) (xs ys : Bytes) → update (update c xs) ys ≡ update c (xs ++ ys)
unfolding update
update-append c xs ys = λ i. record { crc = sym (update_bytes-append c.crc xs ys) i }

-- A frame in which exactly one byte was changed on the way, whichever it is and however long the
-- frame, has another checksum.
pub crc16_compute-detects :
    (before after : Bytes) (sent received : ℕ)
    → IsByte sent
    → IsByte received
    → All IsByte after
    → sent ≢ received
    → crc16_compute (before ++ sent ∷ after) ≢ crc16_compute (before ++ received ∷ after)
unfolding crc16_compute
crc16_compute-detects before after sent received b b' bs differ same = differ (
    update_byte_injective_byte crc sent received small b b' (
      update_bytes_injective (update_byte crc sent) (update_byte crc received) after
        (update_byte-lt crc sent) (update_byte-lt crc received) bs
        (sym (update_bytes-append 0xffff before (sent ∷ after))
          ∙ same
          ∙ update_bytes-append 0xffff before (received ∷ after))))
  where
    crc : ℕ
    crc = update_bytes 0xffff before

    small : crc < 2 ^ 16
    small = update_bytes-lt 0xffff before (omega arith)

-- ===== src/Checksum/Crc16.antt =====
-- The class CRC16 of include/checksum.h, and `crc16_compute`. Bytes are numbers below 256.
pub mod Detection
use Prim.Native.Nat.{bit_xor}
use rk_firmware_flashd.Prelude.{ℕ, zero, suc, ◌*◌, ◌/◌, ◌%◌, ◌^◌, ◌==◌, [], ◌∷◌, if◌then◌else◌}
use rk_firmware_flashd.Prelude.Number.{upper_hex4}
use rk_firmware_flashd.Prelude.Text.{Bytes}

abbrev pub u16 : ℕ → ℕ
u16 n = n % 2 ^ 16

pub record Crc16 : Type 0 where
  pub crc : ℕ

-- The constructor; `reset` stores the same value.
abbrev pub init : Crc16
init = record { crc = 0xffff }

abbrev pub reset : Crc16 → Crc16
reset c = record c { crc = 0xffff }

-- One round of the inner loop: `crc_ & 0x8000` reads bit 15.
unfoldable pub shift_bit : ℕ → ℕ
shift_bit crc = if crc / 2 ^ 15 % 2 == 1 then u16 (bit_xor (crc * 2) 0x1021) else u16 (crc * 2)

unfoldable pub shift_bits : ℕ → ℕ → ℕ
shift_bits zero crc = crc
shift_bits (suc j) crc = shift_bits j (shift_bit crc)

-- One round of the outer loop.
unfoldable pub update_byte : ℕ → ℕ → ℕ
unfolding shift_bits shift_bit
update_byte crc byte = shift_bits 8 (u16 (bit_xor crc (byte * 2 ^ 8)))

unfoldable pub update_bytes : ℕ → Bytes → ℕ
unfolding update_byte
update_bytes crc [] = crc
update_bytes crc (byte ∷ bytes) = update_bytes (update_byte crc byte) bytes

unfoldable pub update : Crc16 → Bytes → Crc16
unfolding update_bytes
update c bytes = record c { crc = update_bytes c.crc bytes }

abbrev pub digest : Crc16 → ℕ
digest c = c.crc

-- `snprintf("%04X")`.
abbrev pub hex : Crc16 → Bytes
hex c = upper_hex4 c.crc

unfoldable pub crc16_compute : Bytes → ℕ
unfolding update
crc16_compute bytes = digest (update init bytes)

-- ===== src/Checksum/Tests.antt =====
-- Checksums of concrete data.
use rk_firmware_flashd.Checksum.Crc16.{crc16_compute}
use rk_firmware_flashd.Checksum.Crc16.Detection.{crc16_compute-detects}
use rk_firmware_flashd.Checksum.Md5.{
  reset, update, hex, md5_compute, hex_bytes, finalize, little_endian, finish, blocks, transform,
}
use rk_firmware_flashd.Checksum.Md5.Digest.{hex-updates, updates}
use rk_firmware_flashd.Checksum.Md5.Rfc1321.{
  rfc1321, on_block, on_blocks, operations, count_up, low_first, padded_message, printed,
}
use rk_firmware_flashd.Checksum.Md5.Standard.{hex-rfc1321}
use rk_firmware_flashd.Checksum.Md5.Stream.{reset-Holds, update-Holds}
use rk_firmware_flashd.Prelude.{◌≡◌, ◌≢◌, refl, [], ◌∷◌, arith}
use rk_firmware_flashd.Prelude.Text.{text}

-- The check value of CRC-16/CCITT-FALSE.
crc16_check : crc16_compute (text "123456789") ≡ 0x29b1
unfolding text crc16_compute
crc16_check = refl

-- A value from the test suite of RFC 1321.
md5_abc : md5_compute (text "abc") ≡ text "900150983cd24fb0d6963f7d28e17f72"
unfolding text md5_compute hex hex_bytes finalize little_endian finish update blocks transform
md5_abc = refl

rfc1321_abc : rfc1321 (text "abc") ≡ text "900150983cd24fb0d6963f7d28e17f72"
unfolding text rfc1321 on_block on_blocks operations count_up low_first padded_message printed
rfc1321_abc = refl

crc16_compute-detects_example :
    crc16_compute (0x10 ∷ 0x41 ∷ 0x20 ∷ []) ≢ crc16_compute (0x10 ∷ 0x43 ∷ 0x20 ∷ [])
crc16_compute-detects_example =
    crc16_compute-detects (0x10 ∷ []) (0x20 ∷ []) 0x41 0x43 (omega arith) (omega arith)
      (ground arith) (omega arith)

hex-rfc1321_example : hex (update reset (1 ∷ 2 ∷ 3 ∷ [])) ≡ rfc1321 (1 ∷ 2 ∷ 3 ∷ [])
hex-rfc1321_example =
    hex-rfc1321 (update reset (1 ∷ 2 ∷ 3 ∷ [])) (1 ∷ 2 ∷ 3 ∷ [])
      (update-Holds reset [] (1 ∷ 2 ∷ 3 ∷ []) reset-Holds)

hex-updates_example :
    hex (updates reset ((1 ∷ 2 ∷ []) ∷ (3 ∷ []) ∷ [])) ≡ md5_compute (1 ∷ 2 ∷ 3 ∷ [])
hex-updates_example = hex-updates ((1 ∷ 2 ∷ []) ∷ (3 ∷ []) ∷ [])

-- ===== src/Upload/Frames.antt =====
-- The checks of `handle_upload_frame` before the checksum, and the decoding of the hexadecimal data.
-- Positions are `size_t`, with its wrap-around. `size_t` and `unsigned long` have 64 bits, as in a
-- 64-bit build: in a 32-bit one `strtoul` gives 2 ^ 32 - 1 for a longer frame length.
use rk_firmware_flashd.Prelude.{
  ℕ, zero, suc, ◌+◌, ◌-◌, ◌*◌, ◌/◌, ◌%◌, ◌^◌, ◌==◌, [], ◌∷◌, if◌then◌else◌, all, length, take, drop,
}
use rk_firmware_flashd.Prelude.Number.{strtoull, hex_value}
use rk_firmware_flashd.Prelude.Result.{Result, ok, ◌>>=◌, ◌>>◌, guard, or_fail}
use rk_firmware_flashd.Prelude.Text.{
  Bytes, drop_while, is_digit, is_space, is_xdigit, rfind, rfind_from, substr,
}
use rk_firmware_flashd.Upload.Replies.{
  Reply, missing_crc, missing_data, crc_length, crc_digits, invalid_frame_length, odd_length,
  frame_len_mismatch,
}
use rk_firmware_flashd.Upload.Requests.{comma}

-- Behind the first byte `c` that is no space, at most one more byte is read: the width is 2.
-- A number with a minus sign wraps, and the conversion to `char` keeps its low byte. The value is
-- that of `0` for the prefix `0x`, and 0 stays where nothing matches.
one_digit : Bytes → ℕ
one_digit [] = 0
one_digit (c ∷ s) = if is_xdigit c then hex_value c else 0

two_digits : ℕ → Bytes → ℕ
two_digits high [] = high
two_digits high (c ∷ s) = if is_xdigit c then high * 16 + hex_value c else high

scan_pair : Bytes → ℕ
unfolding one_digit two_digits
scan_pair [] = 0
scan_pair (c ∷ s) =
    if is_xdigit c
    then two_digits (hex_value c) s
    else if c == b'+'
    then one_digit s
    else if c == b'-'
    then (256 - one_digit s) % 256
    else 0

-- `unsigned int byte = 0; sscanf(s, "%2x", &byte); (char)byte`.
unfoldable pub scan_byte : Bytes → ℕ
unfolding scan_pair
scan_byte s = scan_pair (drop_while is_space s)

-- The loop over `bin_len` pairs of digits.
unfoldable pub decode : ℕ → Bytes → Bytes
decode zero hex_data = []
decode (suc n) hex_data = scan_byte hex_data ∷ decode n (drop 2 hex_data)

pub record Frame : Type 0 where
  pub crc16_hex : Bytes
  pub bin_data : Bytes

-- The checks on the three fields, in the order of the code.
unfoldable pub checked_frame : Bytes → Bytes → Bytes → Result Reply Frame
unfolding decode
checked_frame hex_data crc16_hex len_str = do
  guard (length crc16_hex == 4) crc_length
  guard (all is_xdigit crc16_hex) crc_digits
  guard (all is_digit len_str) invalid_frame_length
  let frame_len = strtoull len_str % 2 ^ 32
  guard (length hex_data % 2 == 0) odd_length
  let bin_len = length hex_data / 2
  guard (bin_len == frame_len) (frame_len_mismatch frame_len bin_len)
  ok (record { crc16_hex = crc16_hex; bin_data = decode bin_len hex_data })

-- The data may itself hold commas: the last two separate the fields. With the last comma at 0, the
-- position before it wraps to the end of the string.
unfoldable pub frame_request : Bytes → Result Reply Frame
frame_request arg = do
  last_comma ← or_fail (rfind arg comma) missing_crc
  prev_comma ← or_fail (rfind_from arg comma ((last_comma + 2 ^ 64 - 1) % 2 ^ 64)) missing_data
  checked_frame (take prev_comma arg)
      (substr arg (prev_comma + 1) ((last_comma + 2 ^ 64 - prev_comma - 1) % 2 ^ 64))
      (drop (last_comma + 1) arg)

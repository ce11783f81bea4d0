-- ===== src/Upload/Requests.antt =====
-- The checks of `handle_preupload` before the temporary file is opened.
use rk_firmware_flashd.Prelude.{
  ℕ, ◌+◌, ◌-◌, Bool, not, ◌||◌, ◌==◌, ltb, all, length, take, drop, is_some,
}
use rk_firmware_flashd.Prelude.Number.{strtoull}
use rk_firmware_flashd.Prelude.Result.{Result, ok, ◌>>=◌, ◌>>◌, guard, or_fail}
use rk_firmware_flashd.Prelude.Text.{
  Bytes, find, find_from, has_pair, is_digit, is_empty, is_xdigit, substr,
}
use rk_firmware_flashd.Upload.Replies.{
  Reply, preupload_no_arguments, already_active, missing_size_and_md5, missing_md5, invalid_size,
  zero_size, md5_length, md5_digits, invalid_filename, filename_slash, filename_dots,
}

abbrev pub comma : ℕ
comma = b','

abbrev pub slash : ℕ
slash = b'/'

abbrev pub dot : ℕ
dot = b'.'

pub record Request : Type 0 where
  pub filename : Bytes
  pub total_size : ℕ
  pub md5_hex : Bytes

-- The checks on the three fields, in the order of the code.
unfoldable pub checked : Bytes → Bytes → Bytes → Result Reply Request
checked filename size_str md5_hex = do
  guard (all is_digit size_str) invalid_size
  let total_size = strtoull size_str
  guard (not (total_size == 0)) zero_size
  guard (length md5_hex == 32) md5_length
  guard (all is_xdigit md5_hex) md5_digits
  guard (not (is_empty filename || ltb 255 (length filename))) invalid_filename
  guard (not (is_some (find filename slash))) filename_slash
  guard (not (has_pair filename dot dot)) filename_dots
  ok (record { filename = filename; total_size = total_size; md5_hex = md5_hex })

unfoldable pub preupload_request : Bool → Bytes → Result Reply Request
preupload_request active arg = do
  guard (not (is_empty arg)) preupload_no_arguments
  guard (not active) already_active
  comma1 ← or_fail (find arg comma) missing_size_and_md5
  comma2 ← or_fail (find_from arg comma (comma1 + 1)) missing_md5
  checked (take comma1 arg) (substr arg (comma1 + 1) (comma2 - comma1 - 1)) (drop (comma2 + 1) arg)

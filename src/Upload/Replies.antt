-- ===== src/Upload/Replies.antt =====
-- The answers of the four upload commands (src/at_handler/handler_upload.cpp), one constructor for
-- each return statement, and the text that each stands for.
use rk_firmware_flashd.Prelude.{ℕ, ◌++◌, Bool, true, false}
use rk_firmware_flashd.Prelude.Number.{to_string}
use rk_firmware_flashd.Prelude.Text.{Bytes, text}

pub data Reply : Type 0 where
  preupload_no_arguments already_active missing_size_and_md5 missing_md5 : Reply
  invalid_size zero_size md5_length md5_digits : Reply
  invalid_filename filename_slash filename_dots cannot_create ready : Reply
  upload_no_arguments no_active_upload missing_crc missing_data : Reply
  crc_length crc_digits invalid_frame_length odd_length : Reply
  frame_len_mismatch : (declared actual : ℕ) → Reply
  crc_mismatch : (frame : ℕ) → (expected got : Bytes) → Reply
  write_failed : Reply
  received_ok : (received : ℕ) → Reply
  done_no_upload : Reply
  size_mismatch : (expected got : ℕ) → Reply
  md5_mismatch : (expected got : Bytes) → Reply
  rename_failed : Reply
  saved : (filename : Bytes) → (received : ℕ) → (md5 : Bytes) → Reply
  nothing_to_cancel cancelled : Reply

unfoldable pub render : Reply → Bytes
render preupload_no_arguments = text "ERROR: AT+PREUPLOAD requires <file>,<size>,<md5>"
render already_active = text "ERROR: upload already in progress — send AT+UPLOADCANCEL first"
render missing_size_and_md5 = text "ERROR: missing size and md5"
render missing_md5 = text "ERROR: missing md5"
render invalid_size = text "ERROR: invalid size"
render zero_size = text "ERROR: size must be > 0"
render md5_length = text "ERROR: md5 must be 32 hex chars"
render md5_digits = text "ERROR: invalid md5 hex"
render invalid_filename = text "ERROR: invalid filename"
render filename_slash = text "ERROR: filename contains /"
render filename_dots = text "ERROR: invalid filename"
render cannot_create = text "ERROR: cannot create temp file"
render ready = text "OK READY"
render upload_no_arguments = text "ERROR: AT+UPLOAD requires arguments"
render no_active_upload = text "ERROR: no active upload — send AT+PREUPLOAD first"
render missing_crc = text "ERROR: missing crc16 and frame_len"
render missing_data = text "ERROR: missing hex_data"
render crc_length = text "ERROR: crc16 must be 4 hex chars"
render crc_digits = text "ERROR: invalid crc16 hex"
render invalid_frame_length = text "ERROR: invalid frame length"
render odd_length = text "ERROR: hex data must have even length"
render (frame_len_mismatch declared actual) =
    text "ERROR: frame_len mismatch (declared="
    ++ to_string declared
    ++ text " actual="
    ++ to_string actual
    ++ text ")"
render (crc_mismatch frame expected got) =
    text "ERROR CRC mismatch frame "
    ++ to_string frame
    ++ text " expected="
    ++ expected
    ++ text " got="
    ++ got
render write_failed = text "ERROR: write failed"
render (received_ok received) = text "OK " ++ to_string received
render done_no_upload = text "ERROR: no active upload"
render (size_mismatch expected got) =
    text "ERROR size mismatch expected=" ++ to_string expected ++ text " got=" ++ to_string got
render (md5_mismatch expected got) =
    text "ERROR MD5 mismatch expected=" ++ expected ++ text " got=" ++ got
render rename_failed = text "ERROR: failed to save firmware file"
render (saved filename received md5) =
    text "OK " ++ filename ++ text " " ++ to_string received ++ text " " ++ md5
render nothing_to_cancel = text "OK no upload in progress"
render cancelled = text "OK"

-- Whether the text starts with "ERROR".
abbrev pub is_error : Reply → Bool
is_error ready = false
is_error (received_ok received) = false
is_error (saved filename received md5) = false
is_error nothing_to_cancel = false
is_error cancelled = false
is_error _ = true

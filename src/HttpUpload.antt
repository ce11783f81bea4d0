-- ===== src/HttpUpload.antt =====
-- Uploads of files by HTTP: src/http_handler/handler_upload.cpp, and the filename validator, the
-- callback of the post processor and the destructor of `ConnectionState` in src/http_server.cpp.
-- The multipart parser is the HTTP library's: a call brings the fields that it finds in the data.
pub mod Names
pub mod Parts
pub mod Saving
mod Tests
use rk_firmware_flashd.Files.{Files, create, append, unlink, rename}
use rk_firmware_flashd.Prelude.{
  ℕ, ◌+◌, ◌%◌, ◌^◌, Bool, true, false, not, ◌&&◌, ◌||◌, ◌==◌, ltb, leb, all, Option, none, some,
  is_some, List, [], ◌∷◌, ◌++◌, if◌then◌else◌, length, take,
}
use rk_firmware_flashd.Prelude.Number.{to_string}
use rk_firmware_flashd.Prelude.Text.{
  Bytes, beq, find, has_pair, is_digit, is_empty, is_lower, is_upper, text,
}
use rk_firmware_flashd.Upload.{in_dir}
use rk_firmware_flashd.Upload.Requests.{slash, dot}

-- `isalnum(c) || c == '-' || c == '_' || c == '.'`.
abbrev pub is_plain : ℕ → Bool
is_plain c = is_digit c || is_lower c || is_upper c || c == b'-' || c == b'_' || c == dot

unfoldable pub validate_filename : Bytes → Bool
validate_filename name =
    if is_empty name || ltb 255 (length name)
    then false
    else if beq name (dot ∷ []) || beq name (dot ∷ dot ∷ [])
    then false
    else if is_some (find name slash)
    then false
    else if is_some (find name 92)
    then false
    else if has_pair name dot dot
    then false
    else all is_plain name

pub record ConnectionState : Type 0 where
  pub upload_filename : Bytes
  pub upload_tmp_path : Bytes
  pub upload_file : Option Bytes
  pub upload_size : ℕ
  pub upload_data_received : Bool
  pub upload_error : Bytes

abbrev pub init : ConnectionState
init = record {
  upload_filename = [];
  upload_tmp_path = [];
  upload_file = none;
  upload_size = 0;
  upload_data_received = false;
  upload_error = [];
}

pub record Uploading : Type 0 where
  pub state : ConnectionState
  pub files : Files

-- A call of the callback: the name of the field, the file name in it, and a part of its data; and
-- what the system answers: the time, whether fopen succeeds, and how much fwrite can store.
pub record Field : Type 0 where
  pub key : Option Bytes
  pub filename : Option Bytes
  pub bytes : Bytes
  pub timestamp : ℕ
  pub opens : Bool
  pub room : ℕ

abbrev pub firmware : Bytes
firmware = text "firmware"

-- What is written is counted whole, whatever fwrite stores of it.
abbrev pub write_to : Field → Option Bytes → Uploading → Uploading
write_to f none u = u
write_to f (some path) u =
    if ltb 0 (length f.bytes)
    then record {
      state = record u.state { upload_size = (u.state.upload_size + length f.bytes) % 2 ^ 64 };
      files = append u.files path (take f.room f.bytes);
    }
    else u

-- The open file gets the data; the answer is MHD_YES.
abbrev pub write : Field → Uploading → Uploading × Bool
write f u = (write_to f u.state.upload_file u, true)

abbrev set_error : Uploading → Bytes → Uploading
set_error u reason = record u { state = record u.state { upload_error = reason } }

-- The first part of a file opens the temporary file.
open_first : Bytes → Field → Bytes → Uploading → Uploading × Bool
open_first upload_dir f name u =
    let path = in_dir upload_dir (to_string f.timestamp ++ (b'_' ∷ name)) in
    let named = record u.state { upload_filename = name; upload_tmp_path = path } in
    if f.opens
    then write f
        (record { state = record named { upload_file = some path }; files = create u.files path })
    else (record u { state = record named { upload_file = none } }, false)

accept_file : Bytes → Field → Bytes → Uploading → Uploading × Bool
unfolding open_first
accept_file upload_dir f name u =
    if not (validate_filename name)
    then (set_error u (text "rejected filename '" ++ name ++ text "'"), true)
    else if is_empty u.state.upload_tmp_path
    then open_first upload_dir f name u
    else write f u

on_named : Bytes → Field → Bytes → Option Bytes → Uploading → Uploading × Bool
unfolding accept_file
on_named upload_dir f key filename u =
    if not (beq key firmware)
    then (set_error u (text "unexpected field '" ++ key ++ text "' (expected 'firmware')"), true)
    else elim filename [ none ↦ write f u | some name ↦ accept_file upload_dir f name u ]

-- The callback, with its answer.
on_field : Bytes → Field → Option Bytes → Uploading → Uploading × Bool
unfolding on_named
on_field upload_dir f none u = write f u
on_field upload_dir f (some key) u = on_named upload_dir f key f.filename u

-- `MHD_post_process` calls the callback for each field, until one answers MHD_NO.
pub post_process : Bytes → List Field → Uploading → Uploading
unfolding on_field
post_process upload_dir [] u = u
post_process upload_dir (f ∷ fields) u =
    let (u', go_on) = on_field upload_dir f f.key u in
    let rest = post_process upload_dir fields u' in if go_on then rest else u'

pub data UploadReply : Type 0 where
  waits no_multipart_data invalid_filename failed_to_save rejected_by_validator upload_failed :
      UploadReply
  failed : (reason : Bytes) → UploadReply
  uploaded : (filename path : Bytes) → (size : ℕ) → UploadReply

abbrev pub closed : Uploading → Uploading
closed u = record u { state = record u.state { upload_file = none } }

-- All data is there and the file is open.
finalize : Bytes → Bool → Uploading → Uploading × UploadReply
finalize upload_dir renames u =
    let s = u.state in
    let path = in_dir upload_dir s.upload_filename in
    if not (validate_filename s.upload_filename)
    then (record (closed u) { files = unlink u.files s.upload_tmp_path }, invalid_filename)
    else if is_some (u.files s.upload_tmp_path)
    then (if renames
        then (
          record (closed u) { files = rename u.files s.upload_tmp_path path },
          uploaded s.upload_filename path s.upload_size,
        )
        else (closed u, failed_to_save))
    else (closed u, uploaded s.upload_filename path s.upload_size)

complete : Bytes → Bool → Uploading → Uploading × UploadReply
unfolding finalize
complete upload_dir renames u =
    let s = u.state in
    if (s.upload_size == 0) && not (is_some s.upload_file)
    then (if not s.upload_data_received then (u, waits) else (
      u,
      failed (if is_empty s.upload_error then text "no firmware data" else s.upload_error),
    ))
    else if is_some s.upload_file
    then finalize upload_dir renames u
    else if ltb 0 s.upload_size || not (is_empty s.upload_filename)
    then (u, rejected_by_validator)
    else (u, upload_failed)

-- A call of `handleUpload`: with the fields in the data that came, or with no data. `pp` tells
-- whether there is a post processor.
unfoldable pub handle_upload :
    (upload_dir : Bytes) (renames pp : Bool)
    → Option (List Field)
    → Uploading
    → Uploading × UploadReply
unfolding complete
handle_upload upload_dir renames false fields u = (u, no_multipart_data)
handle_upload upload_dir renames true none u = complete upload_dir renames u
handle_upload upload_dir renames true (some fields) u = (
  post_process upload_dir fields
      (record u { state = record u.state { upload_data_received = true } }),
  waits,
)

-- The destructor of the connection's state, on the files.
pub destroy : Uploading → Files
destroy u =
    if is_some u.state.upload_file
      && (u.state.upload_size == 0)
      && not (is_empty u.state.upload_tmp_path)
    then unlink u.files u.state.upload_tmp_path
    else u.files

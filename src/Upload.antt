-- ===== src/Upload.antt =====
-- src/at_handler/handler_upload.cpp: the state of a firmware upload and its four commands.
-- A handler takes the configured upload directory, what the calls of the C library make of their
-- requests, and the state with the files; it returns the new state, the files and the answer.
-- `file` is the path that the open `FILE*` writes to; what is written is in the file at once.
pub mod Replies
pub mod Requests
pub mod Frames
pub mod Contract
pub mod Integrity
pub mod Wire
pub mod Sending
pub mod RoundTrip
pub mod Faults
pub mod ShortWrite
pub mod Capitals
mod Tests
use rk_firmware_flashd.Checksum.Crc16.{crc16_compute}
use rk_firmware_flashd.Checksum.Md5
use rk_firmware_flashd.Checksum.Md5.{Md5, hex}
use rk_firmware_flashd.Files.{Files, create, append, unlink, rename}
use rk_firmware_flashd.Prelude.{
  ℕ, ◌+◌, ◌-◌, ◌%◌, ◌^◌, Bool, true, false, not, ◌&&◌, ◌==◌, Option, none, some, [], ◌∷◌, ◌++◌,
  if◌then◌else◌, leb, is_some, length, take,
}
use rk_firmware_flashd.Prelude.Number.{hexadecimal, upper_hex4}
use rk_firmware_flashd.Prelude.Result.{Result, ok, err}
use rk_firmware_flashd.Prelude.Text.{Bytes, beq, is_empty, text}
use Replies.{
  Reply, cannot_create, ready, upload_no_arguments, no_active_upload, crc_mismatch, write_failed,
  received_ok, done_no_upload, size_mismatch, md5_mismatch, rename_failed, saved, nothing_to_cancel,
  cancelled,
}
use Requests.{Request, preupload_request, slash}
use Frames.{Frame, frame_request}

pub record UploadState : Type 0 where
  pub active : Bool
  pub filename : Bytes
  pub tmp_path : Bytes
  pub expected_size : ℕ
  pub received : ℕ
  pub frame_count : ℕ
  pub file : Option Bytes
  pub expected_md5 : Bytes
  pub md5_ctx : Md5

abbrev pub init : UploadState
init = record {
  active = false;
  filename = [];
  tmp_path = [];
  expected_size = 0;
  received = 0;
  frame_count = 0;
  file = none;
  expected_md5 = [];
  md5_ctx = Md5.reset;
}

-- `reset` leaves the file handle alone.
abbrev pub reset : UploadState → UploadState
reset u = record init { file = u.file }

pub record World : Type 0 where
  pub upload : UploadState
  pub files : Files

-- What the environment answers: whether fopen and rename succeed, and how many bytes fwrite can
-- still store.
pub record Calls : Type 0 where
  pub opens : Bool
  pub room : ℕ
  pub renames : Bool

abbrev pub in_dir : Bytes → Bytes → Bytes
in_dir upload_dir name = upload_dir ++ (slash ∷ name)

abbrev pub tmp_name : Bytes → Bytes
tmp_name filename = text "upload_" ++ (filename ++ text ".tmp")

pub begin : Bytes → World → Request → World
begin upload_dir w r =
    let tmp_path = in_dir upload_dir (tmp_name r.filename) in
    record {
      upload = record {
        active = true;
        filename = r.filename;
        tmp_path = tmp_path;
        expected_size = r.total_size;
        received = 0;
        frame_count = 0;
        file = some tmp_path;
        expected_md5 = r.md5_hex;
        md5_ctx = Md5.reset;
      };
      files = create w.files tmp_path;
    }

pub start : Bytes → Calls → World → Result Reply Request → World × Reply
start upload_dir calls w (err e) = (w, e)
start upload_dir calls w (ok r) =
    if calls.opens then (begin upload_dir w r, ready) else (w, cannot_create)

pub handle_preupload : Bytes → Calls → Bytes → World → World × Reply
unfolding begin start
handle_preupload upload_dir calls arg w =
    start upload_dir calls w (preupload_request w.upload.active arg)

-- A frame whose checksum fits is written, and counted if all of it was stored.
pub store : Calls → Bytes → Bytes → World → World × Reply
store calls path bin_data w =
    let u = w.upload in
    let received = (u.received + length bin_data) % 2 ^ 64 in
    let files = append w.files path (take calls.room bin_data) in
    if leb (length bin_data) calls.room
    then (
      record {
        upload = record u {
          md5_ctx = Md5.update u.md5_ctx bin_data;
          received = received;
          frame_count = (u.frame_count + 1) % 2 ^ 32;
        };
        files = files;
      },
      received_ok received,
    )
    else (record w { files = files }, write_failed)

pub accept : Calls → Bytes → Frame → World → World × Reply
accept calls path f w =
    let computed_crc = crc16_compute f.bin_data in
    let counted = (w.upload.frame_count + 1) % 2 ^ 32 in
    if computed_crc == hexadecimal 0 f.crc16_hex % 2 ^ 16 then store calls path f.bin_data w else (
      record w { upload = record w.upload { frame_count = counted } },
      crc_mismatch ((counted + 2 ^ 32 - 1) % 2 ^ 32) f.crc16_hex (upper_hex4 computed_crc),
    )

pub receive : Calls → Bytes → World → Result Reply Frame → World × Reply
receive calls path w (err e) = (w, e)
receive calls path w (ok f) = accept calls path f w

pub receive_open : Calls → Bytes → World → Option Bytes → World × Reply
receive_open calls arg w none = (w, no_active_upload)
receive_open calls arg w (some path) = receive calls path w (frame_request arg)

pub handle_upload_frame : Calls → Bytes → World → World × Reply
unfolding store accept receive receive_open
handle_upload_frame calls arg w =
    if is_empty arg
    then (w, upload_no_arguments)
    else if w.upload.active
    then receive_open calls arg w w.upload.file
    else (w, no_active_upload)

-- `unlink(u.tmp_path)` and `u.reset()`.
abbrev drop_upload : World → UploadState → World
drop_upload w u = record { upload = reset u; files = unlink w.files u.tmp_path }

-- The checks once the file is closed.
pub conclude : Bytes → Calls → World → UploadState → World × Reply
conclude upload_dir calls w u =
    let actual_md5 = hex u.md5_ctx in
    let final_path = in_dir upload_dir u.filename in
    if not (u.received == u.expected_size)
    then (drop_upload w u, size_mismatch u.expected_size u.received)
    else if not (beq actual_md5 u.expected_md5)
    then (drop_upload w u, md5_mismatch u.expected_md5 actual_md5)
    else if not calls.renames
    then (drop_upload w u, rename_failed)
    else (
      record { upload = reset u; files = rename w.files u.tmp_path final_path },
      saved u.filename u.received actual_md5,
    )

pub handle_uploaddone : Bytes → Calls → World → World × Reply
unfolding conclude
handle_uploaddone upload_dir calls w =
    if w.upload.active && is_some w.upload.file
    then conclude upload_dir calls w (record w.upload { file = none })
    else (w, done_no_upload)

pub handle_uploadcancel : World → World × Reply
handle_uploadcancel w =
    if w.upload.active
    then (drop_upload w (record w.upload { file = none }), cancelled)
    else (w, nothing_to_cancel)

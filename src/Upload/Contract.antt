-- ===== src/Upload/Contract.antt =====
-- The contract of the upload commands: a small machine over the bytes received, and the relation
-- between its phases and the state of the code.
pub mod Requested
pub mod Receiving
pub mod Concluding
pub mod Simulation
use rk_firmware_flashd.Checksum.Crc16.{crc16_compute}
use rk_firmware_flashd.Checksum.Md5.{md5_compute}
use rk_firmware_flashd.Checksum.Md5.Stream.{Holds}
use rk_firmware_flashd.Files.{Files}
use rk_firmware_flashd.Prelude.{
  ℕ, ◌%◌, ◌^◌, ◌≤◌, ◌<◌, all, ◌≡◌, ◌≢◌, ◌⊎◌, true, false, some, none, [], ◌++◌, length,
}
use rk_firmware_flashd.Prelude.Number.{hexadecimal}
use rk_firmware_flashd.Prelude.Result.{ok, err}
use rk_firmware_flashd.Prelude.Text.{Bytes, find, has_pair, is_empty, is_xdigit}
use rk_firmware_flashd.Upload.{
  World, Calls, in_dir, tmp_name, handle_preupload, handle_upload_frame, handle_uploaddone,
  handle_uploadcancel,
}
use rk_firmware_flashd.Upload.Frames.{Frame, frame_request}
use rk_firmware_flashd.Upload.Replies.{
  Reply, is_error, ready, received_ok, saved, nothing_to_cancel, cancelled, size_mismatch,
  md5_mismatch, rename_failed, cannot_create, upload_no_arguments, no_active_upload, done_no_upload,
}
use rk_firmware_flashd.Upload.Requests.{Request, preupload_request, slash, dot}

-- A command with its argument and what its calls of the C library answer.
pub data Command : Type 0 where
  preupload : Calls → Bytes → Command
  frame : Calls → Bytes → Command
  finish : Calls → Command
  cancel : Command

unfoldable pub step : Bytes → World → Command → World × Reply
step dir w (preupload calls arg) = handle_preupload dir calls arg w
step dir w (frame calls arg) = handle_upload_frame calls arg w
step dir w (finish calls) = handle_uploaddone dir calls w
step dir w cancel = handle_uploadcancel w

pub data Phase : Type 0 where
  idle : Phase
  receiving : Request → (content : Bytes) → Phase

-- What the checks of AT+PREUPLOAD establish.
pub record IsValid (r : Request) : Type 0 where
  pub named : is_empty r.filename ≡ false
  pub short_name : length r.filename ≤ 255
  pub no_slash : find r.filename slash ≡ none
  pub no_dots : has_pair r.filename dot dot ≡ false
  pub some_size : 0 < r.total_size
  pub md5_size : length r.md5_hex ≡ 32
  pub md5_xdigits : all is_xdigit r.md5_hex ≡ true

-- The checksum that came with a frame is that of its data.
abbrev pub Fits : Frame → Type 0
Fits f = crc16_compute f.bin_data ≡ hexadecimal 0 f.crc16_hex % 2 ^ 16

-- Why AT+PREUPLOAD refuses: its argument does not pass the checks, or the file cannot be created.
-- While an upload is active no argument passes.
abbrev pub RefusesStart : Calls → Bytes → Phase → Reply → Type 0
RefusesStart calls arg idle reply =
    (preupload_request false arg ≡ err reply)
    ⊎ ((r : Request) × (preupload_request false arg ≡ ok r)
        × (calls.opens ≡ false)
        × (reply ≡ cannot_create))
RefusesStart calls arg (receiving r content) reply = preupload_request true arg ≡ err reply

-- Why AT+UPLOAD refuses: there is no upload or no argument, or the argument does not pass the checks,
-- or the checksum is another.
abbrev pub RefusesFrame : Bytes → Phase → Reply → Type 0
RefusesFrame arg idle reply = (reply ≡ upload_no_arguments) ⊎ (reply ≡ no_active_upload)
RefusesFrame arg (receiving r content) reply =
    (is_empty arg ≡ true)
    ⊎ (frame_request arg ≡ err reply)
    ⊎ ((f : Frame) × (frame_request arg ≡ ok f) × ¬ Fits f)

-- The moves that the machine makes for a command, with the answer that each gives.
pub data Moves : Command → Phase → Reply → Phase → Type 0 where
  starts :
      (calls : Calls) (arg : Bytes) (r : Request)
      → preupload_request false arg ≡ ok r
      → IsValid r
      → Moves (preupload calls arg) idle ready (receiving r [])
  not_started :
      (calls : Calls) (arg : Bytes) (p : Phase) (reply : Reply)
      → is_error reply ≡ true
      → RefusesStart calls arg p reply
      → Moves (preupload calls arg) p reply p
  extends :
      (calls : Calls) (arg : Bytes) (r : Request) (content : Bytes) (f : Frame) (n : ℕ)
      → frame_request arg ≡ ok f
      → Fits f
      → n ≡ length (content ++ f.bin_data) % 2 ^ 64
      → Moves
          (frame calls arg)
          (receiving r content)
          (received_ok n)
          (receiving r (content ++ f.bin_data))
  not_extended :
      (calls : Calls) (arg : Bytes) (p : Phase) (reply : Reply)
      → is_error reply ≡ true
      → RefusesFrame arg p reply
      → Moves (frame calls arg) p reply p
  finishes :
      (calls : Calls) (r : Request) (content : Bytes)
      → length content % 2 ^ 64 ≡ r.total_size
      → md5_compute content ≡ r.md5_hex
      → calls.renames ≡ true
      → Moves (finish calls) (receiving r content) (saved r.filename r.total_size r.md5_hex) idle
  wrong_size :
      (calls : Calls) (r : Request) (content : Bytes)
      → length content % 2 ^ 64 ≢ r.total_size
      → Moves
          (finish calls)
          (receiving r content)
          (size_mismatch r.total_size (length content % 2 ^ 64))
          idle
  wrong_md5 :
      (calls : Calls) (r : Request) (content : Bytes)
      → md5_compute content ≢ r.md5_hex
      → Moves
          (finish calls)
          (receiving r content)
          (md5_mismatch r.md5_hex (md5_compute content))
          idle
  not_renamed :
      (calls : Calls) (r : Request) (content : Bytes)
      → calls.renames ≡ false
      → Moves (finish calls) (receiving r content) rename_failed idle
  not_finished : (calls : Calls) → Moves (finish calls) idle done_no_upload idle
  cancels : (r : Request) (content : Bytes) → Moves cancel (receiving r content) cancelled idle
  ignores : Moves cancel idle nothing_to_cancel idle

pub record IsIdle (w : World) : Type 0 where
  pub inactive : w.upload.active ≡ false
  pub closed : w.upload.file ≡ none

-- An upload under way: the temporary file holds the bytes received, the checksum object has been
-- fed the same, and they are counted.
pub record Receives (dir : Bytes) (w : World) (r : Request) (content : Bytes) : Type 0 where
  pub valid : IsValid r
  pub active : w.upload.active ≡ true
  pub filename : w.upload.filename ≡ r.filename
  pub tmp_path : w.upload.tmp_path ≡ in_dir dir (tmp_name r.filename)
  pub expected_size : w.upload.expected_size ≡ r.total_size
  pub expected_md5 : w.upload.expected_md5 ≡ r.md5_hex
  pub open_file : w.upload.file ≡ some (in_dir dir (tmp_name r.filename))
  pub stored : w.files (in_dir dir (tmp_name r.filename)) ≡ some content
  pub fed : Holds w.upload.md5_ctx content
  pub counted : w.upload.received ≡ length content % 2 ^ 64

abbrev pub Stands : Bytes → World → Phase → Type 0
Stands dir w idle = IsIdle w
Stands dir w (receiving r content) = Receives dir w r content

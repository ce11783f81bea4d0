-- ===== src/HttpServer/Answers.antt =====
-- The answers of the HTTP server: `sendJson` in src/http_server.cpp, and the texts and status codes
-- that the handlers in src/http_handler give them. The JSON library and the HTTP library are
-- arguments: `dump` gives no text where it throws. Only `json::parse_error` is caught anywhere, and
-- no `dump` throws that, so that what it throws ends the program.
pub mod Codes
pub mod Texts
pub mod Utf8
pub mod Unchanged
pub mod Undumped
mod Tests
use rk_firmware_flashd.Command.{Daemon}
use rk_firmware_flashd.Command.Local.{Surroundings}
use rk_firmware_flashd.Flash.{Outcome, replied, terminated}
use rk_firmware_flashd.HttpServer.{
  Reply, waits, upload_reply, command_reply, status_reply, reset_reply, not_found, lock_acquired,
  lock_held,
}
use rk_firmware_flashd.HttpUpload.{
  UploadReply, no_multipart_data, invalid_filename, failed_to_save, rejected_by_validator,
  upload_failed, failed, uploaded,
}
use rk_firmware_flashd.HttpUpload as HttpUpload
use rk_firmware_flashd.Prelude.{
  ℕ, Bool, true, false, not, Option, none, some, List, [], ◌∷◌, ◌++◌, if◌then◌else◌,
}
use rk_firmware_flashd.Prelude.Text.{Bytes, text}
use rk_firmware_flashd.Session.{HttpReply, missing_cmd, busy, invalid_json, answer, Status}
use rk_firmware_flashd.Session as Session

-- A value that a field of an answer gets.
pub data Value : Type 0 where
  string : Bytes → Value
  number : ℕ → Value
  boolean : Bool → Value
  null : Value

-- The fields of a `json`, in the order in which they are set.
abbrev pub Json : Type 0
Json = List (Bytes × Value)

-- The libraries: `dump`, and whether a response can be made and queued.
pub record Libraries : Type 0 where
  pub dump : Json → Option Bytes
  pub creates : Bool
  pub queues : Bool

pub record Response : Type 0 where
  pub status_code : ℕ
  pub headers : List (Bytes × Bytes)
  pub body : Bytes

-- What a handler comes to: MHD_YES without a response, MHD_YES with one, MHD_NO, or an exception
-- that is not caught.
pub data Sent : Type 0 where
  nothing refused threw : Sent
  queued : Response → Sent

-- A text with a status and a message that is sent as it stands.
abbrev pub literal : (status message : Bytes) → Bytes
literal status message =
    text "{\"status\":\"" ++ status ++ text "\",\"message\":\"" ++ message ++ text "\"}"

abbrev pub status_and_message : (status message : Bytes) → Json
status_and_message status message =
    (text "status", string status) ∷ (text "message", string message) ∷ []

abbrev pub owner_value : Option Bytes → Value
owner_value none = null
owner_value (some owner) = string owner

module _ (lib : Libraries) where
  abbrev send : ℕ → List (Bytes × Bytes) → Bytes → Sent
  send status_code headers body =
      if not lib.creates
      then refused
      else if lib.queues
      then queued (record { status_code = status_code; headers = headers; body = body })
      else refused

  unfoldable pub send_json : ℕ → Bytes → Sent
  send_json status_code json =
      send status_code
        ((text "Content-Type", text "application/json")
          ∷ (text "Access-Control-Allow-Origin", text "*")
          ∷ [])
        json

  -- `sendJson(connection, status_code, resp.dump())`.
  abbrev pub send_dumped : ℕ → Option Bytes → Sent
  send_dumped status_code none = threw
  send_dumped status_code (some json) = send_json status_code json

  abbrev pub dump_and_send : ℕ → Json → Sent
  dump_and_send status_code resp = send_dumped status_code (lib.dump resp)

  abbrev pub send_error : ℕ → Bytes → Sent
  send_error status_code message = send_json status_code (literal (text "error") message)

  unfoldable pub send_command : HttpReply → Sent
  send_command Session.waits = nothing
  send_command missing_cmd = send_error 400 (text "Missing 'cmd' field")
  send_command busy =
      dump_and_send 503
        (status_and_message (text "busy") (text "serial daemon is busy, wait for AT+RESET"))
  send_command (invalid_json what) =
      dump_and_send 400 (status_and_message (text "error") (text "Invalid JSON: " ++ what))
  send_command (answer response) =
      dump_and_send 200
        ((text "status", string (text "ok")) ∷ (text "response", string response) ∷ [])

  unfoldable pub send_upload : UploadReply → Sent
  send_upload HttpUpload.waits = nothing
  send_upload no_multipart_data = send_error 400 (text "No multipart data")
  send_upload (failed reason) = send_error 400 (text "Upload failed: " ++ reason)
  send_upload invalid_filename =
      dump_and_send 400 (status_and_message (text "error") (text "invalid filename"))
  send_upload failed_to_save = send_error 500 (text "Failed to save file")
  send_upload rejected_by_validator = send_error 400 (text "filename rejected by validator")
  send_upload upload_failed = send_error 400 (text "Upload failed")
  send_upload (uploaded filename path size) = dump_and_send 200 (
      (text "status", string (text "ok"))
      ∷ (text "filename", string filename)
      ∷ (text "path", string path)
      ∷ (text "size", number size)
      ∷ [])

  -- `port` is that of the configuration.
  unfoldable pub send_status : Surroundings → (port : ℕ) → Status → Sent
  send_status env port s = dump_and_send 200 (
      (text "status", string (text "ok"))
      ∷ (text "version", string (text "0.1.0"))
      ∷ (text "uptime_seconds", number s.uptime_seconds)
      ∷ (text "serial_port", string env.device)
      ∷ (text "serial_connected", boolean s.serial_connected)
      ∷ (text "daemon_busy", boolean s.daemon_busy)
      ∷ (text "lock_owner", owner_value s.lock_owner)
      ∷ (text "port", number port)
      ∷ (text "upload_dir", string env.upload_dir)
      ∷ [])

  abbrev pub send_reset : Sent
  send_reset = dump_and_send 200 ((text "status", string (text "ok")) ∷ [])

  unfoldable pub send_reply : Surroundings → (port : ℕ) → Reply → Sent
  send_reply env port waits = nothing
  send_reply env port (upload_reply reply) = send_upload reply
  send_reply env port (command_reply reply) = send_command reply
  send_reply env port (status_reply s) = send_status env port s
  send_reply env port reset_reply = send_reset
  send_reply env port not_found = send_error 404 (text "Not found")
  send_reply env port lock_acquired =
      send_json 200 (literal (text "ok") (text "Lock acquired for SERIAL"))
  send_reply env port lock_held = send_error 409 (text "Lock is already held")

-- An exception leaves the thread of the HTTP library, which ends the program.
abbrev pub survived : Outcome Daemon → Sent → Outcome Daemon × Sent
survived outcome threw = (terminated, threw)
survived outcome sent = (outcome, sent)

-- A request with its answer.
abbrev pub finish :
    Libraries → Surroundings → (port : ℕ) → Outcome Daemon × Reply → Outcome Daemon × Sent
finish lib env port (outcome, reply) = survived outcome (send_reply lib env port reply)

-- ===== src/HttpServer/Answers/Codes.antt =====
-- Status codes and the replies that they are sent for.
use rk_firmware_flashd.Command.{Daemon}
use rk_firmware_flashd.Command.Local.{Surroundings}
use rk_firmware_flashd.Flash.{Outcome}
use rk_firmware_flashd.HttpServer.{
  Reply, waits, upload_reply, command_reply, status_reply, reset_reply, not_found, lock_acquired,
  lock_held,
}
use rk_firmware_flashd.HttpServer.Answers.{
  Libraries, Response, Sent, nothing, refused, threw, queued, send_json, send_dumped, send_command,
  send_upload, send_status, send_reply, survived,
}
use rk_firmware_flashd.HttpUpload.{
  UploadReply, Uploading, no_multipart_data, invalid_filename, failed_to_save,
  rejected_by_validator, upload_failed, failed, uploaded,
}
use rk_firmware_flashd.HttpUpload as HttpUpload
use rk_firmware_flashd.Prelude.{
  ℕ, ◌≡◌, ◌≢◌, refl, sym, ap, Bool, true, false, Option, none, some, arith,
}
use rk_firmware_flashd.Prelude.Text.{Bytes}
use rk_firmware_flashd.Session.{
  HttpReply, Parsed, invalid, no_cmd, given, missing_cmd, busy, invalid_json, answer, Status,
  respond, bypass_lock, run_command, on_parsed,
}
use rk_firmware_flashd.Session as Session

-- The replies that are sent with another code than 200.
abbrev pub is_error : Reply → Bool
is_error waits = false
is_error (upload_reply HttpUpload.waits) = false
is_error (upload_reply (uploaded _ _ _)) = false
is_error (upload_reply _) = true
is_error (command_reply Session.waits) = false
is_error (command_reply (answer _)) = false
is_error (command_reply _) = true
is_error (status_reply _) = false
is_error reset_reply = false
is_error not_found = true
is_error lock_acquired = false
is_error lock_held = true

module _ (lib : Libraries) where
  json_code :
      (code : ℕ) (json : Bytes) (r : Response)
      → send_json lib code json ≡ queued r
      → code ≡ r.status_code
  unfolding send_json
  json_code code json r e = ground arith

  dumped_code :
      (code : ℕ) (json : Option Bytes) (r : Response)
      → send_dumped lib code json ≡ queued r
      → code ≡ r.status_code
  dumped_code code none r e = cc
  dumped_code code (some json) r e = json_code code json r e

  pub survived_lem :
      (o o' : Outcome Daemon) (sent : Sent) (r : Response)
      → survived o sent ≡ (o', queued r)
      → (o ≡ o') × (sent ≡ queued r)
  survived_lem o o' nothing r e = cc
  survived_lem o o' refused r e = cc
  survived_lem o o' threw r e = cc
  survived_lem o o' (queued r') r e = (ap (λ x. x.0) e, ap (λ x. x.1) e)

  command_code :
      (reply : HttpReply) (r : Response)
      → send_command lib reply ≡ queued r
      → r.status_code ≢ 200
      → is_error (command_reply reply) ≡ true
  unfolding send_command
  command_code Session.waits r e h = cc
  command_code missing_cmd r e h = refl
  command_code busy r e h = refl
  command_code (invalid_json what) r e h = refl
  command_code (answer response) r e h = absurd (h (sym (dumped_code 200 _ r e)))

  upload_code :
      (reply : UploadReply) (r : Response)
      → send_upload lib reply ≡ queued r
      → r.status_code ≢ 200
      → is_error (upload_reply reply) ≡ true
  unfolding send_upload
  upload_code HttpUpload.waits r e h = cc
  upload_code no_multipart_data r e h = refl
  upload_code (failed reason) r e h = refl
  upload_code invalid_filename r e h = refl
  upload_code failed_to_save r e h = refl
  upload_code rejected_by_validator r e h = refl
  upload_code upload_failed r e h = refl
  upload_code (uploaded filename path size) r e h = absurd (h (sym (dumped_code 200 _ r e)))

  pub reply_code :
      (env : Surroundings) (port : ℕ) (reply : Reply) (r : Response)
      → send_reply lib env port reply ≡ queued r
      → r.status_code ≢ 200
      → is_error reply ≡ true
  unfolding send_reply send_status
  reply_code env port waits r e h = cc
  reply_code env port (upload_reply reply) r e h = upload_code reply r e h
  reply_code env port (command_reply reply) r e h = command_code reply r e h
  reply_code env port (status_reply s) r e h = absurd (h (sym (dumped_code 200 _ r e)))
  reply_code env port reset_reply r e h = absurd (h (sym (dumped_code 200 _ r e)))
  reply_code env port not_found r e h = refl
  reply_code env port lock_acquired r e h = absurd (h (sym (json_code 200 _ r e)))
  reply_code env port lock_held r e h = refl

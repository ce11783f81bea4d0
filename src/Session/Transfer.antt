-- ===== src/Session/Transfer.antt =====
-- An upload by commands that come by HTTP, while lines come from the serial side.
pub mod Answers
use rk_firmware_flashd.Checksum.Crc16.{crc16_compute}
use rk_firmware_flashd.Checksum.Md5.{md5_compute, hex_bytes, update, reset}
use rk_firmware_flashd.Checksum.Md5.Digest.{joined}
use rk_firmware_flashd.Command.{Daemon, process}
use rk_firmware_flashd.Command.Local.{Surroundings}
use rk_firmware_flashd.Flash.{Outcome, replied, terminated}
use rk_firmware_flashd.Lock.{Owner, http, serial}
use rk_firmware_flashd.Prelude.{
  ◌^◌, ◌<◌, ◌≡◌, ◌≢◌, inl, inr, refl, ap, ◌∙◌, true, false, all, some, List, [], ◌∷◌, ◌++◌, arith,
  length, All,
}
use rk_firmware_flashd.Prelude.Number.{to_string, upper_hex4, all-to_string}
use rk_firmware_flashd.Prelude.Text.{Bytes, beq, find_from, is_digit, is_xdigit, text}
use rk_firmware_flashd.Session.{
  HttpReply, answer, waits, respond, bypass_lock, run_command, reader_line,
}
use rk_firmware_flashd.Session.Holding.{sides_excluded, reader_busy}
use rk_firmware_flashd.Upload.{
  World, in_dir, handle_preupload, handle_upload_frame, handle_uploaddone,
}
use rk_firmware_flashd.Upload.Contract.{IsIdle}
use rk_firmware_flashd.Upload.Replies.{Reply, render, saved}
use rk_firmware_flashd.Upload.Requests.{Request, comma}
use rk_firmware_flashd.Upload.RoundTrip.{IsName, announce, upload, upload_round_trip}
use rk_firmware_flashd.Upload.Sending.{send, CanSend}
use rk_firmware_flashd.Upload.Wire.{frame_text}
use rk_firmware_flashd.Upload.Wire.Announce.{preupload_text, all-hex}
use rk_firmware_flashd.Command.Uploading.{
  all-IsTrimmed, behind-IsTrimmed, digit_kept, xdigit_kept, process-preupload, process-upload,
  process-uploaddone,
}

not_bypassed :
    (arg : Bytes)
    → (bypass_lock (text "AT+PREUPLOAD=" ++ arg) ≡ false)
      × (bypass_lock (text "AT+UPLOAD=" ++ arg) ≡ false)
unfolding bypass_lock text find_from beq
not_bypassed arg = (ground arith, ground arith)

-- A command that HTTP may give, with what the processor makes of it.
allowed :
    (env : Surroundings) (cmd : Bytes) (d : Daemon)
    → bypass_lock cmd ≡ false
    → d.owner ≢ serial
    → run_command env cmd d ≡ respond (process env http cmd (record d { owner = http }))
allowed env cmd d checked other = elim (sides_excluded env cmd [] d checked).0 [
  | inl (owns, _) ↦ absurd (other owns)
  | inr (_, run) ↦ run
]

-- What comes in: a command by HTTP or a line from the serial side.
pub data Event : Type 0 where
  by_http by_serial : Bytes → Event

-- The commands among the events.
abbrev pub http_commands : List Event → List Bytes
http_commands [] = []
http_commands (by_http cmd ∷ events) = cmd ∷ http_commands events
http_commands (by_serial line ∷ events) = http_commands events

-- What an event does, with the last answer by HTTP.
abbrev pub run_event : Surroundings → Event → Daemon → HttpReply → Outcome Daemon × HttpReply
run_event env (by_http cmd) d reply = run_command env cmd d
run_event env (by_serial line) d reply = (reader_line env line d, reply)

abbrev pub unless_terminated :
    Outcome Daemon × HttpReply
    → (Daemon → HttpReply → Outcome Daemon × HttpReply)
    → Outcome Daemon × HttpReply
unless_terminated (replied d _, reply) next = next d reply
unless_terminated (terminated, reply) next = (terminated, reply)

unfoldable pub run_events :
    Surroundings → List Event → Daemon → HttpReply → Outcome Daemon × HttpReply
run_events env [] d reply = (replied d [], reply)
run_events env (event ∷ events) d reply =
    unless_terminated (run_event env event d reply) (λ d' reply'. run_events env events d' reply')

-- The commands of a client behind its announcement.
abbrev pub frames : List Bytes → List Bytes
frames [] = text "AT+UPLOADDONE" ∷ []
frames (piece ∷ pieces) =
    (text "AT+UPLOAD=" ++ frame_text piece (crc16_compute piece)) ∷ frames pieces

pub not_serial : (owner : Owner) → owner ≡ http → owner ≢ serial
not_serial owner h e = cc

pub cons_injective :
    (c c' : Bytes) (cs cs' : List Bytes) → c ∷ cs ≡ c' ∷ cs' → (c ≡ c') × (cs ≡ cs')
cons_injective c c' cs cs' e = (cc, cc)

abbrev pub answered_upload : Daemon → World × Reply → Outcome Daemon × HttpReply
answered_upload d (world, reply) =
    (replied (record d { owner = http; world = world }) (render reply), answer (render reply))

module _ (env : Surroundings) where
  pub preupload_given :
      (r : Request) (d : Daemon)
      → all is_xdigit r.md5_hex ≡ true
      → d.owner ≢ serial
      → run_command env (text "AT+PREUPLOAD=" ++ preupload_text r) d
        ≡ answered_upload d (handle_preupload env.upload_dir env.calls (preupload_text r) d.world)
  preupload_given r d h other =
      allowed env _ d (not_bypassed (preupload_text r)).0 other
      ∙ ap respond (
          process-preupload env (record d { owner = http }) (preupload_text r)
            (behind-IsTrimmed r.filename _ comma refl (
              behind-IsTrimmed (to_string r.total_size) r.md5_hex comma refl
                (all-IsTrimmed is_xdigit xdigit_kept r.md5_hex h))))

  pub upload_given :
      (piece : Bytes) (d : Daemon)
      → length piece < 2 ^ 32
      → d.owner ≢ serial
      → run_command env (text "AT+UPLOAD=" ++ frame_text piece (crc16_compute piece)) d
        ≡ answered_upload d
            (handle_upload_frame env.calls (frame_text piece (crc16_compute piece)) d.world)
  upload_given piece d small other =
      allowed env _ d (not_bypassed (frame_text piece (crc16_compute piece))).1 other
      ∙ ap respond (
          process-upload env (record d { owner = http }) (frame_text piece (crc16_compute piece))
            (behind-IsTrimmed (hex_bytes piece) _ comma refl (
              behind-IsTrimmed (upper_hex4 (crc16_compute piece)) _ comma refl (
                all-IsTrimmed is_digit digit_kept (to_string (length piece))
                  (all-to_string (length piece) (omega (arith, small)))))))

  pub uploaddone_given :
      (d : Daemon)
      → d.owner ≢ serial
      → run_command env (text "AT+UPLOADDONE") d
        ≡ answered_upload d (handle_uploaddone env.upload_dir env.calls d.world)
  uploaddone_given d other =
      allowed env (text "AT+UPLOADDONE") d (unfold bypass_lock text find_from beq in refl) other
      ∙ ap respond (process-uploaddone env (record d { owner = http }))

  -- While HTTP holds the lock, lines from the serial side change nothing.
  lines_lem :
      (events : List Event) (d : Daemon) (reply : HttpReply)
      → d.owner ≡ http
      → http_commands events ≡ []
      → run_events env events d reply ≡ (replied d [], reply)
  unfolding run_events
  lines_lem [] d reply owns e = refl
  lines_lem (by_http cmd ∷ events) d reply owns e = cc
  lines_lem (by_serial line ∷ events) d reply owns e =
      rw (reader_busy env line d owns) (lines_lem events d reply owns e)

  -- What is behind the announcement.
  frames_lem :
      (events : List Event) (pieces : List Bytes) (d : Daemon) (reply : HttpReply)
      → d.owner ≡ http
      → All (CanSend env.calls) pieces
      → http_commands events ≡ frames pieces
      → let (world, last) =
          handle_uploaddone env.upload_dir env.calls (send env.calls pieces d.world) in
        run_events env events d reply
        ≡ (replied (record d { owner = http; world = world }) [], answer (render last))
  unfolding run_events send
  frames_lem [] [] d reply owns can e = cc
  frames_lem [] (piece ∷ pieces) d reply owns can e = cc
  frames_lem (by_serial line ∷ events) pieces d reply owns can e =
      rw (reader_busy env line d owns) (frames_lem events pieces d reply owns can e)
  frames_lem (by_http cmd ∷ events) [] d reply owns can e =
      let (first, others) = cons_injective cmd _ (http_commands events) _ e in
      rw (first, uploaddone_given d (not_serial d.owner owns)) (lines_lem events _ _ refl others)
  frames_lem (by_http cmd ∷ events) (piece ∷ pieces) d reply owns (h, hs) e =
      let (first, others) = cons_injective cmd _ (http_commands events) _ e in
      rw (first, upload_given piece d h.1 (not_serial d.owner owns))
        (frames_lem events pieces _ _ refl hs others)

  -- A whole upload by commands.
  pub upload_by_http :
      (name : Bytes) (pieces : List Bytes) (events : List Event) (d : Daemon)
      → d.owner ≢ serial
      → IsIdle d.world
      → IsName name
      → All (CanSend env.calls) pieces
      → 0 < length (joined pieces)
      → length (joined pieces) < 2 ^ 64
      → env.calls.opens ≡ true
      → env.calls.renames ≡ true
      → http_commands events ≡ frames pieces
      → (world : World) × (run_events env
            (by_http (text "AT+PREUPLOAD=" ++ preupload_text (announce name (joined pieces)))
              ∷ events)
            d
            waits
          ≡ (
            replied (record d { owner = http; world = world }) [],
            answer (render (saved name (length (joined pieces)) (md5_compute (joined pieces)))),
          ))
        × (world.files (in_dir env.upload_dir name) ≡ some (joined pieces))
  unfolding run_events upload
  upload_by_http name pieces events d other idle n can some_size fits opens renames e =
      let (reply, stored) =
        upload_round_trip env.upload_dir env.calls name pieces d.world idle n can some_size fits
          opens renames in
      let world = (upload env.upload_dir env.calls name pieces d.world).0 in
      (
        world,
        rw
            (preupload_given (announce name (joined pieces)) d
              (unfold md5_compute in all-hex (update reset (joined pieces))) other)
            (frames_lem events pieces _ _ refl can e
              ∙ ap
                  (λ last.
                    (replied (record d { owner = http; world = world }) [], answer (render last)))
                  reply),
        stored,
      )

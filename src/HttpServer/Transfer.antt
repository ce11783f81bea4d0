-- ===== src/HttpServer/Transfer.antt =====
-- An upload by POST requests to /api/command, while lines come from the serial side.
use rk_firmware_flashd.Checksum.Md5.{md5_compute}
use rk_firmware_flashd.Checksum.Md5.Digest.{joined}
use rk_firmware_flashd.Command.{Daemon}
use rk_firmware_flashd.Command.Local.{Surroundings}
use rk_firmware_flashd.Flash.{Outcome, replied, terminated}
use rk_firmware_flashd.HttpServer.{Part, request}
use rk_firmware_flashd.HttpServer.Answers.{
  Libraries, Json, string, Sent, nothing, send_json, send_dumped, send_command, send_reply,
  survived, finish,
}
use rk_firmware_flashd.HttpServer.Answers.Texts.{
  answer_fields, answer_fields-IsText, ready-IsUtf8, received_ok-IsUtf8, saved-IsUtf8,
}
use rk_firmware_flashd.HttpServer.Answers.Utf8.{IsUtf8, IsText}
use rk_firmware_flashd.Session.Transfer.Answers.{OfReply, Goes, Answers, upload-Answers}
use rk_firmware_flashd.HttpServer.Requests.{body, command_done, command_lem}
use rk_firmware_flashd.Lock.{http, serial}
use rk_firmware_flashd.Prelude.{
  ℕ, ◌^◌, ◌<◌, ◌≡◌, ◌≢◌, refl, ap, ◌∙◌, Bool, true, false, some, List, [], ◌∷◌, ◌++◌, length, All,
}
use rk_firmware_flashd.Prelude.Text.{Bytes, is_empty, text}
use rk_firmware_flashd.Session.{
  Parsed, given, HttpReply, waits, missing_cmd, busy, invalid_json, answer, run_command,
  reader_line, on_parsed,
}
use rk_firmware_flashd.Session.Transfer.{
  Event, by_http, by_serial, http_commands, unless_terminated, run_events, frames, upload_by_http,
}
use rk_firmware_flashd.Upload.{World, in_dir}
use rk_firmware_flashd.Upload.Contract.{IsIdle}
use rk_firmware_flashd.Upload.Replies.{render, saved}
use rk_firmware_flashd.Upload.RoundTrip.{IsName, announce}
use rk_firmware_flashd.Upload.Sending.{CanSend}
use rk_firmware_flashd.Upload.Wire.Announce.{preupload_text}

-- What arrives: a request with its data in parts, or a line from the serial side.
pub data Arrival : Type 0 where
  post : List Part → Arrival
  line : Bytes → Arrival

-- The libraries take every answer whose texts are UTF-8.
pub record IsWorking (lib : Libraries) : Type 0 where
  pub prints : (fields : Json) → IsText fields → (json : Bytes) × (lib.dump fields ≡ some json)
  pub creates : lib.creates ≡ true
  pub queues : lib.queues ≡ true

module _ (lib : Libraries) (env : Surroundings) (port : ℕ) (parse : Bytes → Parsed)
    (renames debug_build pp : Bool) where
  -- What an arrival does, with the last answer to a request.
  abbrev pub run_arrival : Arrival → Daemon → Sent → Outcome Daemon × Sent
  run_arrival (post parts) d sent =
      finish lib env port
        (request env parse renames debug_build pp (text "/api/command") (text "POST") parts d)
  run_arrival (line bytes) d sent = (reader_line env bytes d, sent)

  abbrev pub unless_ended :
      Outcome Daemon × Sent → (Daemon → Sent → Outcome Daemon × Sent) → Outcome Daemon × Sent
  unless_ended (replied d _, sent) next = next d sent
  unless_ended (terminated, sent) next = (terminated, sent)

  unfoldable pub run_arrivals : List Arrival → Daemon → Sent → Outcome Daemon × Sent
  run_arrivals [] d sent = (replied d [], sent)
  run_arrivals (arrival ∷ arrivals) d sent =
      unless_ended (run_arrival arrival d sent) (λ d' sent'. run_arrivals arrivals d' sent')

  -- The requests carry the commands: each has a body, in parts that are not empty, that the parser
  -- reads as its command. The lines are the same.
  unfoldable pub Carries : List Arrival → List Event → Type 0
  Carries [] [] = Unit
  Carries (post parts ∷ arrivals) (by_http cmd ∷ events) =
      All (λ part. is_empty part.bytes ≡ false) parts
      × (is_empty (body parts) ≡ false)
      × (parse (body parts) ≡ given cmd)
      × Carries arrivals events
  Carries (line bytes ∷ arrivals) (by_serial bytes' ∷ events) =
      (bytes ≡ bytes') × Carries arrivals events
  Carries _ _ = ⊥

  abbrev sent_for : Outcome Daemon × HttpReply → Outcome Daemon × Sent
  sent_for (outcome, reply) = (outcome, send_command lib reply)

  survived_json :
      (outcome : Outcome Daemon) (code : ℕ) (json : Bytes)
      → IsWorking lib
      → survived outcome (send_json lib code json) ≡ (outcome, send_json lib code json)
  unfolding send_json
  survived_json outcome code json w = rw (w.creates, w.queues) refl

  finish-sent_for :
      (outcome : Outcome Daemon) (reply : HttpReply)
      → IsWorking lib
      → OfReply IsUtf8 env reply
      → finish lib env port (command_done (outcome, reply)) ≡ sent_for (outcome, reply)
  unfolding send_reply send_command
  finish-sent_for outcome waits w u = absurd u
  finish-sent_for outcome missing_cmd w u = absurd u
  finish-sent_for outcome busy w u = absurd u
  finish-sent_for outcome (invalid_json what) w u = absurd u
  finish-sent_for outcome (answer response) w u =
      let (json, e) = w.prints (answer_fields response) (answer_fields-IsText response u) in
      rw e (survived_json outcome 200 json w)

  continued :
      (outcome : Outcome Daemon) (reply : HttpReply) (next : Daemon → Sent → Outcome Daemon × Sent)
      (next' : Daemon → HttpReply → Outcome Daemon × HttpReply) (Then : Daemon → Type 0)
      → Goes IsUtf8 env outcome Then
      → ((d : Daemon) (reply' : HttpReply)
          → Then d
          → next d (send_command lib reply') ≡ sent_for (next' d reply'))
      → unless_ended (sent_for (outcome, reply)) next
        ≡ sent_for (unless_terminated (outcome, reply) next')
  continued (replied d _) reply next next' Then t h = h d reply t
  continued terminated reply next next' Then t h = refl

  -- What arrives comes to what the commands and the lines do, one by one.
  arrivals_lem :
      (arrivals : List Arrival) (events : List Event) (d : Daemon) (reply : HttpReply)
      → IsWorking lib
      → Answers IsUtf8 env events d
      → Carries arrivals events
      → run_arrivals arrivals d (send_command lib reply) ≡ sent_for (run_events env events d reply)
  unfolding run_arrivals run_events Carries Answers
  arrivals_lem [] [] d reply w u c = refl
  arrivals_lem [] (event ∷ events) d reply w u c = absurd c
  arrivals_lem (post parts ∷ arrivals) [] d reply w u c = absurd c
  arrivals_lem (line bytes ∷ arrivals) [] d reply w u c = absurd c
  arrivals_lem (post parts ∷ arrivals) (by_serial bytes ∷ events) d reply w u c = absurd c
  arrivals_lem (line bytes ∷ arrivals) (by_http cmd ∷ events) d reply w u c = absurd c
  arrivals_lem (post parts ∷ arrivals) (by_http cmd ∷ events) d reply w (u, us)
        (whole_parts, some_body, read, c) =
      ap (λ x. unless_ended x (λ d' sent. run_arrivals arrivals d' sent))
        (ap (finish lib env port) (
            command_lem env parse renames debug_build pp parts d whole_parts some_body
            ∙ ap (λ parsed. command_done (on_parsed env parsed d)) read)
          ∙ finish-sent_for (run_command env cmd d).0 (run_command env cmd d).1 w u)
      ∙ continued (run_command env cmd d).0 (run_command env cmd d).1 _ _
          (Answers IsUtf8 env events) us
          (λ d' reply' t. arrivals_lem arrivals events d' reply' w t c)
  arrivals_lem (line bytes ∷ arrivals) (by_serial bytes' ∷ events) d reply w us (same, c) =
      ap
        (λ b.
          unless_ended (reader_line env b d, send_command lib reply)
            (λ d' sent. run_arrivals arrivals d' sent))
        same
      ∙ continued (reader_line env bytes' d) reply _ _ (Answers IsUtf8 env events) us
          (λ d' reply' t. arrivals_lem arrivals events d' reply' w t c)

  -- A client uploads a file by POST requests to /api/command, each with one command in its body,
  -- which comes in any parts that are not empty, with the serial side not holding the lock at the
  -- start, no upload active, a usable name in UTF-8, some content of less than 2 ^ 64 bytes in
  -- pieces that the disk has room for, an fopen and a rename that work, and libraries that take
  -- every answer whose texts are UTF-8. Whatever lines come from the serial side behind the first
  -- request: the last answer has status 200 and, as its response, the text of OK with the name, the
  -- size and the digest, and the file is saved with the content that was sent; HTTP holds the lock,
  -- and the flash operation is as it was.
  pub upload_by_requests :
      (name : Bytes) (pieces : List Bytes) (arrivals : List Arrival) (events : List Event)
      (d : Daemon)
      → IsWorking lib
      → d.owner ≢ serial
      → IsIdle d.world
      → IsName name
      → IsUtf8 name
      → All (CanSend env.calls) pieces
      → 0 < length (joined pieces)
      → length (joined pieces) < 2 ^ 64
      → env.calls.opens ≡ true
      → env.calls.renames ≡ true
      → Carries arrivals (
          by_http (text "AT+PREUPLOAD=" ++ preupload_text (announce name (joined pieces))) ∷ events)
      → http_commands events ≡ frames pieces
      → (world : World) × (json : Bytes) × (lib.dump (
            (text "status", string (text "ok"))
            ∷ (
              text "response",
              string (render (saved name (length (joined pieces)) (md5_compute (joined pieces)))),
            )
            ∷ [])
          ≡ some json)
        × (run_arrivals arrivals d nothing
            ≡ (replied (record d { owner = http; world = world }) [], send_json lib 200 json))
        × (world.files (in_dir env.upload_dir name) ≡ some (joined pieces))
  unfolding send_command
  upload_by_requests name pieces arrivals events d w other idle n u can some_size fits opens renames
        c e =
      let (world, done, stored) =
        upload_by_http env name pieces events d other idle n can some_size fits opens renames e in
      let answers =
        upload-Answers IsUtf8 env name pieces events d other idle n can some_size fits opens renames
          e ready-IsUtf8 received_ok-IsUtf8 (saved-IsUtf8 name (joined pieces) u fits) in
      let response = render (saved name (length (joined pieces)) (md5_compute (joined pieces))) in
      let (json, printed) =
        w.prints (answer_fields response)
          (answer_fields-IsText response (saved-IsUtf8 name (joined pieces) u fits)) in
      (
        world,
        json,
        printed,
        arrivals_lem arrivals _ d waits w answers c
            ∙ ap sent_for done
            ∙ ap
                (λ dumped. (
                  replied (record d { owner = http; world = world }) [],
                  send_dumped lib 200 dumped,
                ))
                printed,
        stored,
      )

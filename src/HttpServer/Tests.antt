-- ===== src/HttpServer/Tests.antt =====
-- Requests on a daemon whose lock is free.
use rk_firmware_flashd.HttpServer.Answers.{
  Libraries, Json, string, number, boolean, null, nothing, send_json,
}
use rk_firmware_flashd.HttpServer.Answers.Undumped.{is_foreign, has_foreign}
use rk_firmware_flashd.HttpServer.Answers.Utf8 as Utf8
use rk_firmware_flashd.HttpServer.Answers.Utf8.{IsUtf8, IsText, one, two, three, four}
use rk_firmware_flashd.HttpServer.Transfer.{
  Arrival, post, line, run_arrivals, Carries, upload_by_requests,
}
use rk_firmware_flashd.Session.Transfer.{by_http, by_serial, Event, http_commands, frames}
use rk_firmware_flashd.Checksum.Md5.{md5_compute}
use rk_firmware_flashd.Checksum.Md5.Digest.{joined}
use rk_firmware_flashd.Upload.{World, in_dir}
use rk_firmware_flashd.Upload.Replies.{render, saved}
use rk_firmware_flashd.Upload.RoundTrip.{announce}
use rk_firmware_flashd.Upload.Wire.Announce.{preupload_text}
use rk_firmware_flashd.Command.{Daemon}
use rk_firmware_flashd.Flash as Flash
use rk_firmware_flashd.Flash.{Outcome, replied}
use rk_firmware_flashd.HttpServer.{
  RequestType, waits, command_reply, not_found, lock_acquired, Part, is_debug_lock, type_of,
  request, first_call, serve, dispatch,
}
use rk_firmware_flashd.HttpServer.Requests.{whole}
use rk_firmware_flashd.HttpServer.Requests.Routes.{IsLock, Serves, locked, request_lem}
use rk_firmware_flashd.Command.Local.{Surroundings}
use rk_firmware_flashd.Lock.{http, no_owner, serial}
use rk_firmware_flashd.Prelude.{
  ◌≡◌, ◌⊎◌, ap, ◌∙◌, some, ◌++◌, All, append-nil, arith, refl, true, false, none, List, [], ◌∷◌,
  if◌then◌else◌,
}
use rk_firmware_flashd.Prelude.Text.{Bytes, find, has_pair, is_empty, beq, text}
use rk_firmware_flashd.Session.{given, no_cmd, missing_cmd, handle_command}
use rk_firmware_flashd.Upload as Upload

abbrev env : Surroundings
env = record {
  upload_dir = text "/data";
  scripts_dir = text "/scripts";
  device = [];
  serial_enabled = false;
  is_open = false;
  uptime = 5;
  now = 5000000000;
  calls = record { opens = true; room = 4096; renames = true };
  popen = λ _. none;
  system = λ _. (text "256", false);
  allow_rce = false;
  allow_reboot = false;
  version = text "0.1.0";
  arch = text "x86_64";
  build = [];
}

abbrev free : Daemon
free = record {
  owner = no_owner;
  world = record { upload = Upload.init; files = λ _. none };
  flash = Flash.init;
}

abbrev two_parts : List Part
two_parts =
    record { bytes = 123 ∷ []; fields = [] } ∷ record { bytes = 125 ∷ 10 ∷ []; fields = [] } ∷ []

-- The parser finds no command.
request_lem_example :
    (IsLock false (text "/api/command") (text "POST")
      × (request env
            (λ _. no_cmd)
            true
            false
            true
            (text "/api/command")
            (text "POST")
            two_parts
            free
          ≡ locked free.owner free))
    ⊎ ((type : RequestType) × Serves false (text "/api/command") (text "POST") type
        × (request env
              (λ _. no_cmd)
              true
              false
              true
              (text "/api/command")
              (text "POST")
              two_parts
              free
            ≡ whole env (λ _. no_cmd) true type true two_parts free))
request_lem_example =
    request_lem env (λ _. no_cmd) true false true (text "/api/command") (text "POST") two_parts free
      (refl, (refl, tt))

command_test :
    request env (λ _. no_cmd) true false true (text "/api/command") (text "POST") two_parts free
    ≡ (replied free [], command_reply missing_cmd)
unfolding request first_call serve dispatch type_of is_debug_lock handle_command text beq
command_test = refl

-- A command without a body gets no answer.
empty_test :
    request env (λ _. no_cmd) true false true (text "/api/command") (text "POST") [] free
    ≡ (replied free [], waits)
unfolding request first_call serve dispatch type_of is_debug_lock handle_command text beq
empty_test = refl

unknown_test :
    request env (λ _. no_cmd) true false true (text "/api/debug/lock-serial") (text "POST") [] free
    ≡ (replied free [], not_found)
unfolding request first_call serve dispatch type_of is_debug_lock text beq
unknown_test = refl

debug_test :
    request env (λ _. no_cmd) true true true (text "/api/debug/lock-serial") (text "POST") [] free
    ≡ (replied (record free { owner = serial }) [], lock_acquired)
unfolding request first_call is_debug_lock text beq
debug_test = refl

abbrev pieces : List Bytes
pieces = (1 ∷ 2 ∷ 255 ∷ []) ∷ (7 ∷ []) ∷ []

-- Behind each command a line from the serial side asks for the lock.
abbrev with_lines : List Bytes → List Event
with_lines [] = []
with_lines (cmd ∷ cmds) = by_http cmd ∷ by_serial (text "AT+FORCERESET") ∷ with_lines cmds

-- Each command is the whole body of its request.
abbrev arrivals_for : List Event → List Arrival
arrivals_for [] = []
arrivals_for (by_http cmd ∷ events) =
    post (record { bytes = cmd; fields = [] } ∷ []) ∷ arrivals_for events
arrivals_for (by_serial bytes ∷ events) = line bytes ∷ arrivals_for events

abbrev lib : Libraries
lib = record {
  dump = λ fields. if has_foreign fields then none else some (text "{}");
  creates = true;
  queues = true;
}

-- This library throws on some texts, but on none of UTF-8.
utf8_lem : (s : Bytes) → IsUtf8 s → is_foreign s ≡ false
unfolding is_foreign
utf8_lem _ Utf8.nothing = refl
utf8_lem _ (one a s h u) = let rest = utf8_lem s u in ground arith
utf8_lem _ (two a b s h h' tb u) = let rest = utf8_lem s u in ground arith
utf8_lem _ (three a b c s h h' low high tb tc u) = let rest = utf8_lem s u in ground arith
utf8_lem _ (four a b c d s h h' low high tb tc td u) = let rest = utf8_lem s u in ground arith

text_lem : (fields : Json) → IsText fields → has_foreign fields ≡ false
unfolding has_foreign
text_lem [] t = refl
text_lem ((key, string value) ∷ fields) (_, u, t) = rw (utf8_lem value u) (text_lem fields t)
text_lem ((key, number value) ∷ fields) (_, t) = text_lem fields t
text_lem ((key, boolean value) ∷ fields) (_, t) = text_lem fields t
text_lem ((key, null) ∷ fields) (_, t) = text_lem fields t

carried :
    (events : List Event)
    → All (λ cmd. is_empty cmd ≡ false) (http_commands events)
    → Carries lib env 80 given true false true (arrivals_for events) events
unfolding Carries
carried [] h = tt
carried (by_http cmd ∷ events) (some_cmd, h) = (
  (some_cmd, tt),
  ap is_empty (append-nil cmd) ∙ some_cmd,
  ap given (append-nil cmd),
  carried events h,
)
carried (by_serial bytes ∷ events) h = (refl, carried events h)

abbrev announcement : Bytes
announcement = text "AT+PREUPLOAD=" ++ preupload_text (announce (text "a.b") (joined pieces))

upload_by_requests_example :
    (world : World) × (json : Bytes) × (lib.dump (
        (text "status", string (text "ok"))
        ∷ (text "response", string (render (saved (text "a.b") 4 (md5_compute (joined pieces)))))
        ∷ [])
      ≡ some json)
    × (run_arrivals lib env 80 given true false true
          (arrivals_for (by_http announcement ∷ with_lines (frames pieces)))
          free
          nothing
        ≡ (replied (record free { owner = http; world = world }) [], send_json lib 200 json))
    × (world.files (in_dir (text "/data") (text "a.b")) ≡ some (joined pieces))
upload_by_requests_example =
    upload_by_requests lib env 80 given true false true (text "a.b") pieces
      (arrivals_for (by_http announcement ∷ with_lines (frames pieces)))
      (with_lines (frames pieces)) free
      (record {
        prints = λ fields t. (text "{}", rw (text_lem fields t) refl);
        creates = refl;
        queues = refl;
      })
      (λ e. cc) (record { inactive = refl; closed = refl })
      (record {
        named = unfold text in refl;
        short_name = unfold text in omega arith;
        no_slash = unfold text find in refl;
        no_dots = unfold text has_pair in refl;
        no_comma = unfold text in ground arith;
      })
      (unfold text in
        one 97 (46 ∷ 98 ∷ []) (omega arith)
          (one 46 (98 ∷ []) (omega arith) (one 98 [] (omega arith) Utf8.nothing)))
      (ground arith) (omega arith) (omega arith) refl refl
      (carried (by_http announcement ∷ with_lines (frames pieces))
        (unfold text in (refl, (refl, (refl, (refl, tt))))))
      refl

-- ===== src/HttpServer/Answers/Tests.antt =====
-- Requests with their answers, on a daemon whose lock HTTP holds and whose flash operation has ended.
use rk_firmware_flashd.Command.{Daemon}
use rk_firmware_flashd.Command.Local.{Surroundings}
use rk_firmware_flashd.Flash.{replied, terminated, reported, exited}
use rk_firmware_flashd.HttpServer.{
  Part, is_debug_lock, type_of, request, first_call, serve, dispatch, upload,
}
use rk_firmware_flashd.HttpServer.Answers.{
  Libraries, Response, literal, threw, finish, send_json, send_command, send_reply,
}
use rk_firmware_flashd.HttpServer.Answers.Unchanged.{Kept, error_unchanged}
use rk_firmware_flashd.HttpServer.Answers.Undumped.{is_foreign, has_foreign, undumped_ends}
use rk_firmware_flashd.Lock.{http}
use rk_firmware_flashd.Prelude.{
  ◌≡◌, ◌⊎◌, inr, refl, true, false, none, some, List, [], ◌∷◌, if◌then◌else◌, arith,
}
use rk_firmware_flashd.Prelude.Text.{beq, text}
use rk_firmware_flashd.Session.{no_cmd, given, handle_command}
use rk_firmware_flashd.Upload as Upload

abbrev env : Surroundings
env = record {
  upload_dir = text "/data";
  scripts_dir = text "/scripts";
  device = [];
  serial_enabled = false;
  is_open = false;
  uptime = 5;
  now = 5000000000;
  calls = record { opens = true; room = 4096; renames = true };
  popen = λ _. none;
  system = λ _. (text "256", false);
  allow_rce = false;
  allow_reboot = false;
  version = text "0.1.0";
  arch = text "x86_64";
  build = [];
}

-- The script has written the byte 255.
abbrev flashed : Daemon
flashed = record {
  owner = http;
  world = record { upload = Upload.init; files = λ _. none };
  flash = record {
    worker = reported;
    running = false;
    done = true;
    exit_code = exited 0;
    output = 255 ∷ [];
    cmd = text "/scripts/flash_full.sh fw";
    start_time = 0;
  };
}

abbrev lib : Libraries
lib = record {
  dump = λ fields. if has_foreign fields then none else some (text "{}");
  creates = true;
  queues = true;
}

abbrev parts : List Part
parts = record { bytes = 123 ∷ 125 ∷ []; fields = [] } ∷ []

undumped_ends_example :
    finish lib env 80 (
      request env
        (λ _. given (text "AT+TRYFLASHDONE"))
        true
        false
        true
        (text "/api/command")
        (text "POST")
        parts
        flashed)
    ≡ (terminated, threw)
unfolding is_foreign
undumped_ends_example =
    undumped_ends lib env 80 (λ _. given (text "AT+TRYFLASHDONE")) true false true parts flashed
      (λ fields h. rw h refl) (refl, tt) refl (inr (refl, (λ e. cc), refl, refl))

-- A body without a command.
abbrev missing : Response
missing = record {
  status_code = 400;
  headers =
      (text "Content-Type", text "application/json")
      ∷ (text "Access-Control-Allow-Origin", text "*")
      ∷ [];
  body = literal (text "error") (text "Missing 'cmd' field");
}

error_unchanged_example :
    (replied flashed [] ≡ replied flashed [])
    ⊎ ((type_of (text "/api/command") (text "POST") ≡ upload) × Kept flashed (replied flashed []))
unfolding request first_call serve dispatch type_of is_debug_lock handle_command text beq send_reply
    send_command send_json
error_unchanged_example =
    error_unchanged env lib (λ _. no_cmd) true 80 false true (text "/api/command") (text "POST")
      parts flashed (replied flashed []) missing (refl, tt) refl (λ e. omega arith)

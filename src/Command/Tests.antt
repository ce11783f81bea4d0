-- ===== src/Command/Tests.antt =====
-- AT+VERIFY on small files, and a command behind a semicolon.
use rk_firmware_flashd.Checksum.Md5.{md5_compute}
use rk_firmware_flashd.Command.Injection.{shell_line, flash_runs_any_command}
use rk_firmware_flashd.Command.Local.{Surroundings, handle_exec, handle_verify}
use rk_firmware_flashd.Command.Verify.{verify_uploaded}
use rk_firmware_flashd.Files.{Files}
use rk_firmware_flashd.Flash as Flash
use rk_firmware_flashd.Flash.{replied, handle_flash, handle_flashdone, worker_steps, result_text}
use rk_firmware_flashd.Flash.Runs.{outcome, submitted}
use rk_firmware_flashd.Prelude.{◌≡◌, refl, true, false, none, some, List, [], ◌∷◌, ◌++◌, arith}
use rk_firmware_flashd.Prelude.Number.{to_string}
use rk_firmware_flashd.Prelude.Text.{Bytes, find, has_pair, text}
use rk_firmware_flashd.Upload.{World, Calls, init}
use rk_firmware_flashd.Upload.RoundTrip.{IsName, upload}

abbrev files : Files
files path = some (7 ∷ 8 ∷ [])

abbrev dir : Bytes
dir = text "/data"

abbrev name : Bytes
name = text "a.b"

abbrev calls : Calls
calls = record { opens = true; room = 4096; renames = true }

abbrev fresh : World
fresh = record { upload = init; files = λ _. none }

abbrev pieces : List Bytes
pieces = (1 ∷ 2 ∷ []) ∷ (3 ∷ []) ∷ []

name-IsName : IsName name
unfolding text find has_pair
name-IsName = record {
  named = refl;
  short_name = omega arith;
  no_slash = refl;
  no_dots = refl;
  no_comma = ground arith;
}

verify_uploaded_example :
    handle_verify dir calls.opens name (upload dir calls name pieces fresh).0.files
    ≡ text "OK " ++ md5_compute (1 ∷ 2 ∷ 3 ∷ []) ++ text " " ++ to_string 3
verify_uploaded_example =
    verify_uploaded dir calls name pieces fresh (record { inactive = refl; closed = refl })
      name-IsName (ground arith) (omega arith) (omega arith) refl refl

abbrev env : Surroundings
env = record {
  upload_dir = dir;
  scripts_dir = text "/sbin";
  device = [];
  serial_enabled = false;
  is_open = false;
  uptime = 0;
  now = 0;
  calls = calls;
  popen = λ _. none;
  system = λ _. ([], false);
  allow_rce = false;
  allow_reboot = false;
  version = [];
  arch = [];
  build = [];
}

-- The shell gets "/sbin/flash_full.sh a;reboot".
flash_runs_any_command_example :
    let line = shell_line env (text "a") (text "reboot") in
    let op' = worker_steps env.popen (1 ∷ 2 ∷ 3 ∷ 4 ∷ []) (submitted Flash.init line) in
    (handle_exec env (text "reboot")
      ≡ text "ERROR: AT+EXEC is disabled (rebuild with -DALLOW_RCE to enable)")
    × (handle_flash env.scripts_dir (text "a" ++ (b';' ∷ text "reboot")) Flash.init
        ≡ replied (submitted Flash.init line) (text "OK submitted: " ++ line))
    × ((handle_flashdone env.popen 5 op').1
        ≡ result_text (outcome (env.popen line)).0 line (outcome (env.popen line)).1)
flash_runs_any_command_example =
    flash_runs_any_command env (text "a") (text "reboot") Flash.init [] 1 2 3 4 5 refl
      (unfold text in ground arith) (refl, refl)

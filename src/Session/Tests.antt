-- ===== src/Session/Tests.antt =====
-- Commands and lines that meet the session lock.
use rk_firmware_flashd.Upload.{World, in_dir}
use rk_firmware_flashd.Command.{Daemon, process}
use rk_firmware_flashd.Command.Local.{Surroundings}
use rk_firmware_flashd.Command.Parse.{parse_at, trim}
use rk_firmware_flashd.Flash as Flash
use rk_firmware_flashd.Flash.{Outcome, replied}
use rk_firmware_flashd.Lock.{Owner, no_owner, http, serial}
use rk_firmware_flashd.Prelude.{◌≡◌, ◌≢◌, ◌⊎◌, refl, true, false, none, []}
use rk_firmware_flashd.Prelude.Text.{Bytes, beq, find, find_from, text, to_upper, trim_end}
use rk_firmware_flashd.Session.{busy, answer, respond, bypass_lock, run_command, reader_line}
use rk_firmware_flashd.Session.Holding.{sides_excluded, session_kept}
use rk_firmware_flashd.Upload as Upload

abbrev env : Surroundings
env = record {
  upload_dir = text "/data";
  scripts_dir = text "/scripts";
  device = text "/dev/ttyS0";
  serial_enabled = true;
  is_open = true;
  uptime = 5;
  now = 5000000000;
  calls = record { opens = true; room = 4096; renames = true };
  popen = λ _. none;
  system = λ _. (text "256", false);
  allow_rce = false;
  allow_reboot = false;
  version = text "0.1.0";
  arch = text "x86_64";
  build = [];
}

abbrev held_by : Owner → Daemon
held_by owner = record {
  owner = owner;
  world = record { upload = Upload.init; files = λ _. none };
  flash = Flash.init;
}

abbrev help_command : Bytes
help_command = text "AT+HELP"

checked : bypass_lock help_command ≡ false
unfolding bypass_lock text find_from beq
checked = refl

sides_excluded_example :
    (((held_by serial).owner ≡ serial)
        × (run_command env help_command (held_by serial) ≡ (replied (held_by serial) [], busy))
      ⊎ (((held_by serial).owner ≢ serial)
          × (run_command env help_command (held_by serial)
              ≡ respond (process env http help_command (held_by http)))))
    × (((held_by serial).owner ≡ http)
          × (reader_line env help_command (held_by serial) ≡ replied (held_by serial) (text "BUSY"))
        ⊎ (((held_by serial).owner ≢ http)
            × (reader_line env help_command (held_by serial)
                ≡ process env serial help_command (held_by serial))))
sides_excluded_example = sides_excluded env help_command help_command (held_by serial) checked

session_kept_example :
    (http ≡ http)
    × (reader_line env help_command (held_by http) ≡ replied (held_by http) (text "BUSY"))
unfolding text bypass_lock find_from find beq trim trim_end parse_at to_upper process
session_kept_example =
    session_kept env (text "AT") help_command (held_by no_owner) (held_by http)
      (text "ERROR: invalid AT command format") (answer (text "ERROR: invalid AT command format"))
      refl refl (λ e. cc) refl

abbrev reset_command : Bytes
reset_command = text "AT+RESET=now"

-- ===== src/SerialDaemon/Tests.antt =====
-- A daemon that is stopped while the device hangs up and comes back.
use rk_firmware_flashd.Command.{Daemon, process, perform}
use rk_firmware_flashd.Command.Local.{Surroundings}
use rk_firmware_flashd.Command.Parse.{parse_at, trim}
use rk_firmware_flashd.Flash as Flash
use rk_firmware_flashd.Upload as Upload
use rk_firmware_flashd.SerialDaemon.Commands.{at_handler, written, reader_line-steps}
use rk_firmware_flashd.Configuration.{Config, default_config}
use rk_firmware_flashd.Lock.{Owner, no_owner}
use rk_firmware_flashd.Prelude.{
  ℕ, ◌≤◌, ◌≡◌, refl, inl, true, false, none, some, List, [], map, ◌∷◌, ◌++◌, replicate, arith,
}
use rk_firmware_flashd.Prelude.Text.{Bytes, beq, find, find_from, text, to_upper, trim_end}
use rk_firmware_flashd.SerialDaemon.{
  no_thread, reading, acquiring, testing, SerialDaemon, Event, by_main, stopped, asking, Turn,
  main_turn, reader_turn, run, reader_step, main_step,
}
use rk_firmware_flashd.SerialDaemon.Reconnecting.{open_port_kept}
use rk_firmware_flashd.SerialDaemon.Stopping.{stop_ends}
use rk_firmware_flashd.SerialPort.Device.{Answers, is_open, open_port, close}

abbrev cfg : Config
cfg = record default_config { serial_device = text "/dev/ttyS1" }

abbrev handler : Bytes → Owner → Bytes × Owner
handler line owner = (text "OK", owner)

abbrev answers : Answers
answers = record { get_port_by_name = true; sp_open = false; posix_open = true; tcsetattr = true }

-- The device is not there.
abbrev absent : Answers
absent = record { get_port_by_name = false; sp_open = false; posix_open = false; tcsetattr = false }

abbrev silent : Event
silent = record { line = none; answers = answers; accepted = true }

abbrev command : Event
command = record { line = some (text "AT+HELP"); answers = answers; accepted = true }

-- The reader waits for a line.
abbrev at_work : SerialDaemon
at_work = record {
  port = record { port = false; raw_fd = true; device = []; settings = none; held = 1 };
  owner = no_owner;
  reader_running = true;
  thread = reading;
  sent = [];
}

abbrev first : List Turn
first = reader_turn command ∷ main_turn ∷ reader_turn silent ∷ main_turn ∷ []

abbrev second : List Turn
second = replicate 6 (reader_turn silent)

abbrev third : List Turn
third = main_turn ∷ reader_turn silent ∷ replicate 9 main_turn

stop_ends_example :
    let s =
      run cfg handler
        (first ++ (second ++ third))
        (record { daemon = at_work; main = asking by_main }) in
    (s.main ≡ stopped)
    × (s.daemon.thread ≡ no_thread)
    × (s.daemon.reader_running ≡ false)
    × (is_open s.daemon.port ≡ false)
    × (s.daemon.owner ≡ no_owner)
stop_ends_example =
    stop_ends cfg handler by_main at_work first second third refl (inl refl) (omega arith)
      (omega arith) (omega arith)

-- A line that came before is answered in between, and the lock that it took is given back.
answered_test :
    (run cfg handler
      (first ++ second)
      (record { daemon = at_work; main = asking by_main })).daemon.sent
    ≡ text "OK" ++ (13 ∷ 10 ∷ [])
unfolding run reader_step main_step text
answered_test = refl

-- The reader has seen the flag up when `stop_reader` takes it down and closes the port: it opens the
-- port again, and `stop` closes it for good.
abbrev reopening : List Turn
reopening =
    reader_turn silent
    ∷ reader_turn silent
    ∷ main_turn
    ∷ main_turn
    ∷ main_turn
    ∷ reader_turn silent
    ∷ reader_turn silent
    ∷ main_turn
    ∷ []

reopening_test :
    is_open
      (run cfg handler reopening (record { daemon = at_work; main = asking by_main })).daemon.port
    ≡ true
unfolding run reader_step main_step open_port close text
reopening_test = refl

-- The device was unplugged: no read gives a line.
open_port_kept_example :
    (run cfg handler
      (map reader_turn (silent ∷ silent ∷ silent ∷ silent ∷ []))
      (record { daemon = at_work; main = asking by_main })).daemon.port
    ≡ at_work.port
open_port_kept_example =
    open_port_kept cfg handler (silent ∷ silent ∷ silent ∷ silent ∷ [])
      (record { daemon = at_work; main = asking by_main }) refl

abbrev env : Surroundings
env = record {
  upload_dir = text "/data";
  scripts_dir = text "/scripts";
  device = text "/dev/ttyS1";
  serial_enabled = true;
  is_open = true;
  uptime = 5;
  now = 5000000000;
  calls = record { opens = true; room = 4096; renames = true };
  popen = λ _. none;
  system = λ _. (text "256", false);
  allow_rce = false;
  allow_reboot = false;
  version = text "0.1.0";
  arch = text "x86_64";
  build = [];
}

abbrev idle : Owner → Daemon
idle owner = record {
  owner = owner;
  world = record { upload = Upload.init; files = λ _. none };
  flash = Flash.init;
}

-- The reader takes the lock for a reset, which gives it back.
reader_line-steps_example :
    (k : ℕ) × (k ≤ 4)
    × (run cfg (at_handler env (idle no_owner)) (replicate k (reader_turn command)) (record {
      daemon = record {
        port = at_work.port;
        owner = no_owner;
        reader_running = true;
        thread = acquiring (text "AT+RESET");
        sent = [];
      };
      main = asking by_main;
    })
        ≡ record {
          daemon = record {
            port = at_work.port;
            owner = no_owner;
            reader_running = true;
            thread = testing;
            sent = [] ++ written (text "OK");
          };
          main = asking by_main;
        })
unfolding text beq find find_from trim trim_end parse_at to_upper process perform
reader_line-steps_example =
    reader_line-steps cfg env command (asking by_main) at_work.port true [] refl (text "AT+RESET")
      (text "OK") (idle no_owner) (idle no_owner) refl

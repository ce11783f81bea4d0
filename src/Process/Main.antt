-- ===== src/Process/Main.antt =====
-- `main` of main.cpp: the parts of the daemon brought up, its loop, and its end. The threads of the
-- HTTP library are left out; the reader of the serial line runs while the loop sleeps, and while the
-- daemon is stopped, in the order that is given.
use rk_firmware_flashd.Configuration.{Config, ArgError, default_config, parse_args}
use rk_firmware_flashd.Files.{Files}
use rk_firmware_flashd.HttpServer as HttpServer
use rk_firmware_flashd.Lock.{Owner}
use rk_firmware_flashd.Logger as Logger
use rk_firmware_flashd.Logger.{Logger}
use rk_firmware_flashd.Prelude.{
  ℕ, Bool, true, false, not, Option, none, some, List, [], ◌∷◌, if◌then◌else◌, map,
}
use rk_firmware_flashd.Prelude.Result.{Result, ok, err}
use rk_firmware_flashd.Prelude.Text.{Bytes}
use rk_firmware_flashd.Process.{
  Paths, Made, mkdir_p, prepare, Calls, Detached, exits, refused, detached, daemonize,
  cleanup_pid_file, Signal, signal_handler,
}
use rk_firmware_flashd.SerialDaemon as SerialDaemon
use rk_firmware_flashd.SerialDaemon.{
  SerialDaemon, constructed, start_reader, Event, Caller, by_main, by_stop, MainPhase, asking,
  stopped, System, Turn, reader_turn, run,
}
use rk_firmware_flashd.SerialPort.Device.{Answers}

-- What `main` meets: the answers of the system and of the libraries.
pub record Environment : Type 0 where
  pub realpath : Option Bytes
  pub mkdir : Bytes → Made
  pub calls : Calls
  pub opens_log : Bool
  pub log_reason : Bytes
  pub serial : Answers
  pub mhd_starts : Bool

pub record Process : Type 0 where
  pub paths : Paths
  pub logger : Logger
  pub serial : SerialDaemon
  pub http : Bool
  pub running : Bool

-- How far `main` gets: the process ends with a status before it has started anything, it returns a
-- status, it is in its loop, or in the stop of the serial daemon, or blocked for ever.
pub data End : Type 0 where
  gives_up : (status : ℕ) → End
  returned : (status : ℕ) → Process → End
  looping stopping : Process → End
  blocked : End

-- One round of the loop: what the reader does and which signals come while it sleeps.
pub record Second : Type 0 where
  pub events : List Event
  pub signals : List Signal

unfoldable pub deliver : List Signal → Bool → Bool
deliver [] running = running
deliver (signal ∷ signals) running = deliver signals (signal_handler signal running)

abbrev pub is_stopped : MainPhase → Bool
is_stopped stopped = true
is_stopped _ = false

module _ (cfg : Config) (handler : Bytes → Owner → Bytes × Owner) where
  -- The reader alone, with the main thread outside of `stop`.
  abbrev pub read_on : List Event → SerialDaemon → SerialDaemon
  read_on events d =
      (run cfg handler (map reader_turn events)
        (record { daemon = d; main = asking by_main })).daemon

  abbrev pub sleep : Second → Process → Process
  sleep second p = record p {
    serial = read_on second.events p.serial;
    running = deliver second.signals p.running;
  }

  -- The loop, with whether it was left.
  unfoldable pub main_loop : List Second → Process → Process × Bool
  main_loop [] p = (p, not p.running)
  main_loop (second ∷ seconds) p =
      let later = main_loop seconds (sleep second p) in if p.running then later else (p, true)

  -- `SerialDaemon::stop`, from `main` behind `stop_reader`.
  abbrev pub stop_serial : Caller → List Turn → Process → (Process → End) → End
  stop_serial caller turns p next =
      let s = run cfg handler turns (record { daemon = p.serial; main = asking caller }) in
      if is_stopped s.main
      then next (record p { serial = s.daemon })
      else stopping (record p { serial = s.daemon })

  abbrev pub remove_pid_file : Calls → Process → Process
  remove_pid_file calls p =
      if not cfg.foreground
      then record p {
        logger = record p.logger { files = cleanup_pid_file calls cfg p.logger.files };
      }
      else p

  abbrev pub shut_logger : Process → Process
  shut_logger p = record p { logger = Logger.shutdown p.logger }

  abbrev pub shut_down : Calls → List Turn → Process → End
  shut_down calls turns p =
      stop_serial by_main turns (record p { http = HttpServer.stop p.http })
        (λ q. returned 0 (shut_logger (remove_pid_file calls q)))

  abbrev pub on_loop : Calls → List Turn → Process × Bool → End
  on_loop calls turns (p, true) = shut_down calls turns p
  on_loop calls turns (p, false) = looping p

  abbrev pub on_http : Calls → List Second → List Turn → Process → Bool → End
  on_http calls seconds turns p true = on_loop calls turns (main_loop seconds p)
  on_http calls seconds turns p false =
      stop_serial by_stop turns p (λ q. returned 1 (remove_pid_file calls q))

  abbrev pub on_serial :
      Environment → List Second → List Turn → Paths → Logger → Option SerialDaemon → End
  on_serial env seconds turns paths logger none = blocked
  on_serial env seconds turns paths logger (some d) =
      let (http, answer) = HttpServer.start env.mhd_starts false in
      on_http env.calls seconds turns
        (record {
          paths = paths;
          logger = logger;
          serial = start_reader cfg d;
          http = http;
          running = true;
        })
        answer

  -- `main` from the opening of the log on.
  unfoldable pub run_daemon : Environment → List Second → List Turn → Paths → Files → End
  run_daemon env seconds turns paths files =
      on_serial env seconds turns paths
        (Logger.init env.opens_log cfg.log_file env.log_reason
          (record { log_file = none; level = Logger.debug; files = files; stderr = [] }))
        (SerialDaemon.start cfg env.serial constructed)

module _ (handler : Bytes → Owner → Bytes × Owner) (env : Environment) where
  abbrev pub on_detached : Config → List Second → List Turn → Paths → Detached → End
  on_detached cfg seconds turns paths exits = gives_up 0
  on_detached cfg seconds turns paths refused = gives_up 1
  on_detached cfg seconds turns paths (detached files) =
      run_daemon cfg handler env seconds turns paths files

  -- The upload directory may be missing: that is no more than a warning.
  abbrev pub prepared : Config → List Second → List Turn → Paths → Files → End
  prepared cfg seconds turns paths files =
      on_detached cfg seconds turns (mkdir_p env.mkdir cfg.upload_dir paths).0
        (if not cfg.foreground then daemonize env.calls cfg files else detached files)

  abbrev pub on_config : Result ArgError Config → List Second → List Turn → Paths → Files → End
  on_config (err e) seconds turns paths files = gives_up 1
  on_config (ok cfg) seconds turns paths files =
      if cfg.help then gives_up 0 else prepared (prepare env.realpath cfg) seconds turns paths files

  unfoldable pub main : (args : List Bytes) → List Second → List Turn → Paths → Files → End
  main args seconds turns paths files =
      on_config (parse_args args default_config) seconds turns paths files

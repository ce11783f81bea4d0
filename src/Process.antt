-- ===== src/Process.antt =====
-- src/daemon.cpp and the front part of `main` in main.cpp: the directories and paths of a start, and
-- the way into the background. What the calls of the system answer is an argument. The paths that the
-- system knows are a test on strings, so that "a/" and "a" are two of them. The messages on the
-- standard error of a start that fails are left out.
pub mod Main
pub mod Background
pub mod Directories
pub mod Ending
pub mod Loop
pub mod Paths
pub mod Shutdown
mod Tests
use rk_firmware_flashd.Configuration.{Config}
use rk_firmware_flashd.Files.{Files, put, unlink}
use rk_firmware_flashd.Prelude.{
  ℕ, Bool, true, false, not, ◌&&◌, ◌||◌, ◌==◌, Option, none, some, [], ◌∷◌, ◌++◌, if◌then◌else◌,
}
use rk_firmware_flashd.Prelude.Number.{to_string}
use rk_firmware_flashd.Prelude.Text.{Bytes, beq, is_empty, text}
use rk_firmware_flashd.Upload.Requests.{slash}

-- The paths for which `stat` succeeds.
abbrev pub Paths : Type 0
Paths = Bytes → Bool

-- What `mkdir` answers: success, EEXIST, or another error.
pub data Made : Type 0 where
  made exists failed : Made

abbrev pub add_path : Bytes → Paths → Paths
add_path path paths at = beq at path || paths at

abbrev pub on_made : Made → Bytes → Paths → Paths × Bool
on_made made path paths = (add_path path paths, true)
on_made exists path paths = (paths, true)
on_made failed path paths = (paths, false)

module _ (mkdir : Bytes → Made) where
  -- `stat`, and `mkdir` if it fails.
  abbrev pub ensure : Bytes → Paths → Paths × Bool
  ensure path paths = if paths path then (paths, true) else on_made (mkdir path) path paths

  -- The loop of `mkdir_p` with `tmp` as the part of the path behind it.
  unfoldable pub mkdir_loop : (tmp rest : Bytes) → Paths → Paths × Bool
  mkdir_loop tmp [] paths = (paths, true)
  mkdir_loop tmp (c ∷ rest) paths =
      let tmp' = tmp ++ (c ∷ []) in
      let (paths', go_on) = ensure tmp' paths in
      let behind = mkdir_loop tmp' rest paths' in
      let past = mkdir_loop tmp' rest paths in
      if c == slash || is_empty rest then (if go_on then behind else (paths', false)) else past

  abbrev pub mkdir_p : (path : Bytes) → Paths → Paths × Bool
  mkdir_p path paths = mkdir_loop [] path paths

abbrev pub is_absolute : Bytes → Bool
is_absolute [] = false
is_absolute (c ∷ path) = c == slash

-- `realpath(".")` gives the directory, or fails.
abbrev prefixed : Option Bytes → Bytes → Bytes
prefixed none path = path
prefixed (some dir) path = dir ++ (slash ∷ path)

unfoldable pub resolve : (realpath : Option Bytes) → (path : Bytes) → Bytes
resolve realpath path =
    if not (is_empty path) && not (is_absolute path) then prefixed realpath path else path

abbrev pub default_log : Bytes
default_log = text "/var/log/rk_firmware_flashd.log"

-- The configuration before the log is opened.
unfoldable pub prepare : (realpath : Option Bytes) → Config → Config
prepare realpath cfg =
    let log_file = resolve realpath cfg.log_file in
    record cfg {
      upload_dir = resolve realpath cfg.upload_dir;
      log_file = if not cfg.foreground && is_empty log_file then default_log else log_file;
    }

pub data Fork : Type 0 where
  fork_failed in_parent in_child : Fork

-- What the calls of `daemonize` answer.
pub record Calls : Type 0 where
  pub first_fork : Fork
  pub setsid : Bool
  pub second_fork : Fork
  pub chdir : Bool
  pub pid : ℕ
  pub opens_pid_file : Bool
  pub unlinks_pid_file : Bool

-- A process that exits with status 0, one in which `daemonize` answers false, and the daemon, with
-- the files that it finds.
pub data Detached : Type 0 where
  exits refused : Detached
  detached : Files → Detached

abbrev pub pid_line : ℕ → Bytes
pid_line pid = to_string pid ++ (10 ∷ [])

-- `daemonize` behind the second fork.
abbrev pub settle : Calls → Config → Files → Detached
settle calls cfg files =
    if not calls.chdir
    then refused
    else if calls.opens_pid_file
    then detached (put files cfg.pid_file (some (pid_line calls.pid)))
    else detached files

abbrev pub behind_fork : Fork → Detached → Detached
behind_fork fork_failed next = refused
behind_fork in_parent next = exits
behind_fork in_child next = next

unfoldable pub daemonize : Calls → Config → Files → Detached
daemonize calls cfg files =
    behind_fork calls.first_fork
      (if not calls.setsid then refused else behind_fork calls.second_fork (settle calls cfg files))

abbrev pub cleanup_pid_file : Calls → Config → Files → Files
cleanup_pid_file calls cfg files =
    if calls.unlinks_pid_file then unlink files cfg.pid_file else files

pub data Signal : Type 0 where
  sigterm sigint sighup : Signal

-- `signal_handler` on the flag `g_running`.
abbrev pub signal_handler : Signal → Bool → Bool
signal_handler sigterm running = false
signal_handler sigint running = false
signal_handler sighup running = running

-- ===== src/Session.antt =====
-- The two ways by which commands come in: the HTTP requests (src/http_handler/handler_command.cpp,
-- src/http_handler/handler_reset.cpp, src/http_handler/handler_status.cpp) and the reader of the
-- serial line (`SerialDaemon::start_reader` in src/serial_daemon.cpp), each handler run as a whole.
-- The JSON library is an argument: what it reads from a body.
pub mod Holding
pub mod Bypass
pub mod Body
pub mod Transfer
mod Tests
use rk_firmware_flashd.Command.{Daemon, process}
use rk_firmware_flashd.Command.Local.{Surroundings}
use rk_firmware_flashd.Flash.{Outcome, replied, terminated}
use rk_firmware_flashd.Lock.{
  Owner, no_owner, http, serial, same_owner, try_acquire, force_release, is_busy,
}
use rk_firmware_flashd.Prelude.{
  ℕ, ◌-◌, Bool, true, false, not, ◌&&◌, ◌||◌, ◌==◌, ltb, Option, none, some, [], ◌∷◌, ◌++◌,
  if◌then◌else◌, length, take, drop,
}
use rk_firmware_flashd.Prelude.Text.{Bytes, beq, find_from, is_empty, text}

-- What `json::parse` and the tests on its result give for a body.
pub data Parsed : Type 0 where
  invalid : (what : Bytes) → Parsed
  no_cmd : Parsed
  given : (cmd : Bytes) → Parsed

-- The answers of `handleCommand`; `waits` is `MHD_YES` without a response.
pub data HttpReply : Type 0 where
  waits missing_cmd busy : HttpReply
  invalid_json : (what : Bytes) → HttpReply
  answer : (response : Bytes) → HttpReply

-- The name between "AT+" and the first `=` behind it.
abbrev pub action_text : Bytes → Option ℕ → Bytes
action_text cmd none = drop 3 cmd
action_text cmd (some eq) = take (eq - 3) (drop 3 cmd)

abbrev pub starts_at_plus : Bytes → Bool
starts_at_plus (a ∷ t ∷ plus ∷ rest) = (a == b'A') && (t == b'T') && (plus == b'+')
starts_at_plus _ = false

unfoldable pub bypass_lock : Bytes → Bool
bypass_lock cmd =
    let action = action_text cmd (find_from cmd b'=' 3) in
    ltb 4 (length cmd)
    && starts_at_plus cmd
    && (beq action (text "FORCERESET") || beq action (text "RESET"))

-- The check of the session: the owner afterwards, and whether the command may run.
abbrev pub check_session : Owner → Owner × Bool
check_session owner =
    if not (is_busy owner) then try_acquire http owner else (owner, same_owner owner http)

abbrev pub respond : Outcome Daemon → Outcome Daemon × HttpReply
respond (replied d reply) = (replied d reply, answer reply)
respond terminated = (terminated, waits)

abbrev pub run_checked : Surroundings → Bytes → Daemon → Owner × Bool → Outcome Daemon × HttpReply
run_checked env cmd d (owner, true) = respond (process env http cmd (record d { owner = owner }))
run_checked env cmd d (owner, false) = (replied (record d { owner = owner }) [], busy)

abbrev pub run_command : Surroundings → Bytes → Daemon → Outcome Daemon × HttpReply
run_command env cmd d =
    if bypass_lock cmd
    then respond (process env http cmd d)
    else run_checked env cmd d (check_session d.owner)

abbrev pub on_parsed : Surroundings → Parsed → Daemon → Outcome Daemon × HttpReply
on_parsed env (invalid what) d = (replied d [], invalid_json what)
on_parsed env no_cmd d = (replied d [], missing_cmd)
on_parsed env (given cmd) d = run_command env cmd d

-- A call of `handleCommand` with a part of the body, or with none when the body is complete. The
-- first component is the body so far.
unfoldable pub handle_command :
    Surroundings
    → (Bytes → Parsed)
    → (upload_data cmd_body : Bytes) → Daemon
    → Bytes × (Outcome Daemon × HttpReply)
handle_command env parse upload_data cmd_body d =
    if not (is_empty upload_data)
    then (cmd_body ++ upload_data, (replied d [], waits))
    else if is_empty cmd_body
    then (cmd_body, (replied d [], waits))
    else (cmd_body, on_parsed env (parse cmd_body) d)

abbrev pub handle_reset : Daemon → Daemon
handle_reset d = record d { owner = force_release d.owner }

-- The fields of the answer of `handleStatus` that depend on the state.
pub record Status : Type 0 where
  pub uptime_seconds : ℕ
  pub serial_connected : Bool
  pub daemon_busy : Bool
  pub lock_owner : Option Bytes

abbrev pub handle_status : Surroundings → Daemon → Status
handle_status env d = record {
  uptime_seconds = env.uptime;
  serial_connected = env.is_open;
  daemon_busy = is_busy d.owner;
  lock_owner =
      if is_busy d.owner
      then some (if same_owner d.owner http then text "HTTP" else text "SERIAL")
      else none;
}

abbrev pub reader_checked : Surroundings → Bytes → Daemon → Owner × Bool → Outcome Daemon
reader_checked env line d (owner, true) = process env serial line (record d { owner = owner })
reader_checked env line d (owner, false) =
    if not (same_owner owner serial)
    then replied (record d { owner = owner }) (text "BUSY")
    else process env serial line (record d { owner = owner })

-- The reader's loop behind a line that was read: the text of the outcome is what it writes back,
-- unless it is empty.
abbrev pub reader_line : Surroundings → Bytes → Daemon → Outcome Daemon
reader_line env line d = reader_checked env line d (try_acquire serial d.owner)

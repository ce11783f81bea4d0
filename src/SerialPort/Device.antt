-- ===== src/SerialPort/Device.antt =====
-- src/serial_port.cpp: opening and closing the device, and the guard of writing. What libserialport
-- and the POSIX calls answer is an argument. A `std::mutex` that its holder locks again blocks for
-- ever. `held` counts the ports and the file descriptors that were got from the system and not yet
-- given back.
pub mod Ownership
use rk_firmware_flashd.Prelude.{
  ℕ, zero, suc, ◌-◌, Bool, true, false, not, ◌||◌, ◌==◌, Option, none, some, List, [],
  if◌then◌else◌,
}
use rk_firmware_flashd.Prelude.Text.{Bytes}
use rk_firmware_flashd.SerialPort.{Poll, Read, no_line, read_line, write_line}

-- What a device is set to: the speed and the bits of a character.
pub record Settings : Type 0 where
  pub speed : ℕ
  pub bits : ℕ

pub record SerialPort : Type 0 where
  pub port : Bool
  pub raw_fd : Bool
  pub device : Bytes
  pub settings : Option Settings
  pub held : ℕ

abbrev pub unopened : SerialPort
unopened = record { port = false; raw_fd = false; device = []; settings = none; held = 0 }

-- What the calls of `open` answer: sp_get_port_by_name, sp_open, ::open and tcsetattr.
pub record Answers : Type 0 where
  pub get_port_by_name : Bool
  pub sp_open : Bool
  pub posix_open : Bool
  pub tcsetattr : Bool

-- The answer of `open` with the port behind it, or a call that never returns.
pub data Opening : Type 0 where
  opened : SerialPort → Bool → Opening
  deadlock : Opening

abbrev pub baud_to_speed : ℕ → ℕ
baud_to_speed baud =
    if baud == 9600
    then 9600
    else if baud == 19200
    then 19200
    else if baud == 38400
    then 38400
    else if baud == 57600
    then 57600
    else if baud == 115200
    then 115200
    else if baud == 230400
    then 230400
    else 115200

-- `open_posix`: a descriptor that cannot be set up is closed again.
abbrev pub open_posix : Answers → (baud_rate : ℕ) → SerialPort → SerialPort × Bool
open_posix answers baud_rate p =
    if not answers.posix_open
    then (p, false)
    else let got = record p { held = suc p.held } in
      if not answers.tcsetattr then (record got { held = got.held - 1 }, false) else (
        record got { settings = some (record { speed = baud_to_speed baud_rate; bits = 8 }) },
        true,
      )

-- The fallback of `open`.
abbrev pub fall_back : Answers → (baud_rate : ℕ) → SerialPort → Opening
fall_back answers baud_rate p =
    let (p', got) = open_posix answers baud_rate p in opened (record p' { raw_fd = got }) got

-- `open` with a port that libserialport knows: if sp_open refuses it, it is freed.
abbrev pub sp_opening : Answers → (baud_rate : ℕ) → SerialPort → Opening
sp_opening answers baud_rate got =
    if answers.sp_open
    then opened (record got { settings = some (record { speed = baud_rate; bits = 8 }) }) true
    else fall_back answers baud_rate (record got { port = false; held = got.held - 1 })

-- `open` behind the test for an open port.
abbrev pub try_open : Answers → (baud_rate : ℕ) → SerialPort → Opening
try_open answers baud_rate p =
    if answers.get_port_by_name
    then sp_opening answers baud_rate (record p { port = true; held = suc p.held })
    else fall_back answers baud_rate p

-- `close`, which is called under the lock, locks the mutex again.
unfoldable pub open_port : Answers → (device : Bytes) → (baud_rate : ℕ) → SerialPort → Opening
open_port answers device baud_rate p =
    if p.port || p.raw_fd
    then deadlock
    else try_open answers baud_rate (record p { device = device })

abbrev pub is_open : SerialPort → Bool
is_open p = p.port || p.raw_fd

abbrev close_port : SerialPort → SerialPort
close_port p = if p.port then record p { port = false; held = p.held - 1 } else p

abbrev close_raw_fd : SerialPort → SerialPort
close_raw_fd p = if p.raw_fd then record p { raw_fd = false; held = p.held - 1 } else p

unfoldable pub close : SerialPort → SerialPort
close p = close_raw_fd (close_port p)

-- What `writeLine` sends of a command, and its answer. `accepted` tells whether the write succeeds.
abbrev pub send_line : (accepted : Bool) → Bytes → SerialPort → Bytes × Bool
send_line accepted cmd p = if is_open p then (write_line cmd, accepted) else ([], false)

-- `sendCommand`: what is sent, and what `readLine` gives if sending succeeded.
abbrev pub send_command :
    (accepted : Bool) → (timeout_ms start : ℕ) → Bytes → List Poll → SerialPort → Bytes × Read
send_command accepted timeout_ms start cmd polls p =
    let (sent, success) = send_line accepted cmd p in
    (sent, if success then read_line p.port p.raw_fd timeout_ms start polls else no_line polls)

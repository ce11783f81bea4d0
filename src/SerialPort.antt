-- ===== src/SerialPort.antt =====
-- src/serial_port.cpp: the lines that go over the serial device. What a read of one byte gives, and
-- when, is the device's: a stream of polls, each at a time in milliseconds. The device may be open
-- through libserialport (`port`) or by POSIX calls (`raw_fd`).
pub mod Device
pub mod Lines
mod Tests
use rk_firmware_flashd.Prelude.{
  ℕ, ◌-◌, Bool, true, false, not, ◌||◌, ◌==◌, leb, ltb, List, [], ◌∷◌, ◌++◌, if◌then◌else◌, length,
}
use rk_firmware_flashd.Prelude.Text.{Bytes}

pub data Poll : Type 0 where
  received : (at byte : ℕ) → Poll
  nothing failure : (at : ℕ) → Poll

-- A line, or the answer false; and the polls that were not made. `waiting` is a read that goes on.
pub data Read : Type 0 where
  got : (response : Bytes) → List Poll → Read
  no_line : List Poll → Read
  waiting : Read

-- `if (response.back() == '\r') response.pop_back();`
unfoldable pub drop_cr : Bytes → Bytes
drop_cr [] = []
drop_cr (c ∷ []) = if c == 13 then [] else c ∷ []
drop_cr (c ∷ d ∷ s) = c ∷ drop_cr (d ∷ s)

abbrev pub max_line_len : ℕ
max_line_len = 8192

unfoldable pub end_line : Bytes → List Poll → Read
end_line response polls =
    let line = drop_cr response in
    if ltb max_line_len (length line) then no_line polls else got line polls

-- The loop of `readLine`; the time is asked for before each poll.
unfoldable pub read_loop : (timeout_ms start : ℕ) → Bytes → List Poll → Read
unfolding end_line
read_loop timeout_ms start response [] = waiting
read_loop timeout_ms start response (received at c ∷ polls) =
    let more = read_loop timeout_ms start (response ++ (c ∷ [])) polls in
    if leb timeout_ms (at - start)
    then no_line (received at c ∷ polls)
    else if c == 10
    then end_line response polls
    else more
read_loop timeout_ms start response (nothing at ∷ polls) =
    let more = read_loop timeout_ms start response polls in
    if leb timeout_ms (at - start) then no_line (nothing at ∷ polls) else more
read_loop timeout_ms start response (failure at ∷ polls) =
    if leb timeout_ms (at - start) then no_line (failure at ∷ polls) else no_line polls

-- Each call starts with an empty line.
pub read_line : (port raw_fd : Bool) → (timeout_ms start : ℕ) → List Poll → Read
read_line port raw_fd timeout_ms start polls =
    if port || raw_fd then read_loop timeout_ms start [] polls else no_line polls

-- What `writeLine` sends of a command.
abbrev pub write_line : Bytes → Bytes
write_line cmd = cmd ++ (13 ∷ 10 ∷ [])

-- ===== src/SerialDaemon.antt =====
-- src/serial_daemon.cpp: the life of the serial port and of the reader thread. The main thread stops
-- the daemon while the reader runs: both are sequences of steps, where a step is one atomic access,
-- one block under `io_mutex_` (which no other block can interrupt), or the join. The command handler
-- is the argument of `start_reader`.
pub mod Potential
pub mod Phases
pub mod Commands
pub mod Ranks
pub mod Reconnecting
pub mod Steps
pub mod Stopping
mod Tests
use rk_firmware_flashd.Configuration.{Config}
use rk_firmware_flashd.Lock.{Owner, no_owner, serial, same_owner, try_acquire, force_release}
use rk_firmware_flashd.Prelude.{
  Bool, true, false, not, Option, none, some, List, [], ◌∷◌, ◌++◌, if◌then◌else◌,
}
use rk_firmware_flashd.Prelude.Text.{Bytes, is_empty, text}
use rk_firmware_flashd.SerialPort.Device.{
  SerialPort, unopened, Answers, Opening, opened, deadlock, open_port, is_open, close, send_line,
}

-- Where the reader thread is: not started or joined, at the test of the loop, in `readLine`, at the
-- test behind a read that gave no line, at the reconnection, at `try_acquire`, at the test of the
-- owner behind it, before the answer BUSY, in the handler, before the answer of the handler, at its
-- end; and blocked for ever.
pub data Thread : Type 0 where
  no_thread testing reading retesting reconnecting busy_reply finished hung : Thread
  acquiring checking handling : (line : Bytes) → Thread
  answering : (response : Bytes) → Thread

pub record SerialDaemon : Type 0 where
  pub port : SerialPort
  pub owner : Owner
  pub reader_running : Bool
  pub thread : Thread
  pub sent : Bytes

abbrev pub constructed : SerialDaemon
constructed = record {
  port = unopened;
  owner = no_owner;
  reader_running = false;
  thread = no_thread;
  sent = [];
}

abbrev pub use_serial : Config → Bool
use_serial cfg = not (is_empty cfg.serial_device)

-- `start` leaves the daemon, or never returns.
abbrev started : Opening → SerialDaemon → Option SerialDaemon
started (opened port answer) d = some (record d { port = port })
started deadlock d = none

unfoldable pub start : Config → Answers → SerialDaemon → Option SerialDaemon
start cfg answers d =
    if use_serial cfg
    then started (open_port answers cfg.serial_device cfg.baud_rate d.port) d
    else some d

abbrev pub start_reader : Config → SerialDaemon → SerialDaemon
start_reader cfg d =
    if not (use_serial cfg)
    then d
    else if d.reader_running
    then d
    else record d { reader_running = true; thread = testing }

-- What the device does in a step of the reader: the line that a read gives, if any, what opening
-- answers, and whether it takes a line.
pub record Event : Type 0 where
  pub line : Option Bytes
  pub answers : Answers
  pub accepted : Bool

-- `SerialDaemon::writeLine`.
abbrev pub write_line : Event → Bytes → SerialDaemon → SerialDaemon
write_line event line d = record d { sent = d.sent ++ (send_line event.accepted line d.port).0 }

abbrev pub goto : Thread → SerialDaemon → SerialDaemon
goto thread d = record d { thread = thread }

-- `SerialDaemon::readLine` and the branch behind it.
abbrev pub read : Option Bytes → SerialDaemon → SerialDaemon
read none d = goto retesting d
read (some line) d = if not (is_open d.port) then goto retesting d else goto (acquiring line) d

abbrev pub reconnect : Opening → SerialDaemon → SerialDaemon
reconnect (opened port answer) d = record d { port = port; thread = testing }
reconnect deadlock d = goto hung d

module _ (cfg : Config) (handler : Bytes → Owner → Bytes × Owner) where
  -- The next step of the reader.
  unfoldable pub reader_step : Event → Thread → SerialDaemon → SerialDaemon
  reader_step event testing d = if d.reader_running then goto reading d else goto finished d
  reader_step event reading d = read event.line d
  reader_step event retesting d = if d.reader_running then goto reconnecting d else goto finished d
  reader_step event reconnecting d =
      if not (is_open d.port)
      then reconnect (open_port event.answers cfg.serial_device cfg.baud_rate d.port) d
      else goto testing d
  reader_step event (acquiring line) d =
      let (owner, acquired) = try_acquire serial d.owner in
      record d { owner = owner; thread = if acquired then handling line else checking line }
  reader_step event (checking line) d =
      if not (same_owner d.owner serial) then goto busy_reply d else goto (handling line) d
  reader_step event busy_reply d = goto testing (write_line event (text "BUSY") d)
  reader_step event (handling line) d =
      let (response, owner) = handler line d.owner in
      record d {
        owner = owner;
        thread = if not (is_empty response) then answering response else testing;
      }
  reader_step event (answering response) d = goto testing (write_line event response d)
  reader_step event no_thread d = d
  reader_step event finished d = d
  reader_step event hung d = d

-- `stop_reader` is called by `main`, which calls `stop` behind it, and by `stop` itself.
pub data Caller : Type 0 where
  by_main by_stop : Caller

-- Where the main thread is: in `stop_reader` at the test of the flag, at the store, at the closing of
-- the port and at the join; and in `stop` at the closing of the port and at the release of the lock.
pub data MainPhase : Type 0 where
  asking storing closing joining : Caller → MainPhase
  shutting freeing stopped : MainPhase

abbrev pub returned : Caller → MainPhase
returned by_main = asking by_stop
returned by_stop = shutting

abbrev pub close_if_open : SerialDaemon → SerialDaemon
close_if_open d = record d { port = if is_open d.port then close d.port else d.port }

-- `if (!reader_running_.load()) return;`
abbrev pub asked : Caller → Bool → MainPhase
asked caller running = if not running then returned caller else storing caller

-- The join waits for the end of the thread.
abbrev pub join : Caller → Thread → SerialDaemon → SerialDaemon × MainPhase
join caller no_thread d = (d, returned caller)
join caller finished d = (goto no_thread d, returned caller)
join caller _ d = (d, joining caller)

unfoldable pub main_step : MainPhase → SerialDaemon → SerialDaemon × MainPhase
main_step (asking caller) d = (d, asked caller d.reader_running)
main_step (storing caller) d = (record d { reader_running = false }, closing caller)
main_step (closing caller) d = (close_if_open d, joining caller)
main_step (joining caller) d = join caller d.thread d
main_step shutting d = (close_if_open d, freeing)
main_step freeing d = (record d { owner = force_release d.owner }, stopped)
main_step stopped d = (d, stopped)

pub record System : Type 0 where
  pub daemon : SerialDaemon
  pub main : MainPhase

pub data Turn : Type 0 where
  main_turn : Turn
  reader_turn : Event → Turn

module _ (cfg : Config) (handler : Bytes → Owner → Bytes × Owner) where
  abbrev pub step : Turn → System → System
  step main_turn s = let (d, main) = main_step s.main s.daemon in record { daemon = d; main = main }
  step (reader_turn event) s = record s {
    daemon = reader_step cfg handler event s.daemon.thread s.daemon;
  }

  unfoldable pub run : List Turn → System → System
  run [] s = s
  run (turn ∷ turns) s = run turns (step turn s)

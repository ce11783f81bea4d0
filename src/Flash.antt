-- ===== src/Flash.antt =====
-- src/at_handler/handler_flash.cpp: the record of the flash operation, its worker thread, and the
-- commands AT+FLASH and AT+TRYFLASHDONE.
-- The clock counts nanoseconds. What the shell makes of a command is an argument: the strings that
-- `fgets` reads from it and its exit status, or nothing where `popen` fails. Exceptions of the
-- worker (memory) are left out.
pub mod Runs
pub mod Phases
pub mod Honesty
mod Tests
use rk_firmware_flashd.Prelude.{
  ℕ, zero, suc, ◌+◌, ◌-◌, ◌*◌, ◌/◌, ◌^◌, Bool, true, false, not, ◌&&◌, ◌||◌, ◌==◌, leb, Option,
  none, some, List, [], ◌∷◌, ◌++◌, if◌then◌else◌, take, drop,
}
use rk_firmware_flashd.Prelude.Number.{to_string}
use rk_firmware_flashd.Prelude.Result.{Result, ok, err, ◌>>=◌, ◌>>◌, guard, or_fail}
use rk_firmware_flashd.Prelude.Text.{Bytes, beq, find, is_empty, text, trim_end}

abbrev pub Popen : Type 0
Popen = Bytes → Option (List Bytes × ℕ)

-- `int exit_code`, -1 until the command has ended.
pub data ExitCode : Type 0 where
  unset : ExitCode
  exited : ℕ → ExitCode

-- The thread object: not joinable, or the place in `async_flash_worker` that the thread has reached:
-- created, behind `running = true`, behind the reading of the clock, behind `done = true`, at its
-- end. A thread is joinable from its creation until it is joined.
pub data Worker : Type 0 where
  no_thread : Worker
  created marked clocked : (cmd : Bytes) → Worker
  reported finished : Worker

abbrev pub joinable : Worker → Bool
joinable no_thread = false
joinable _ = true

pub record FlashOp : Type 0 where
  pub worker : Worker
  pub running : Bool
  pub done : Bool
  pub exit_code : ExitCode
  pub output : Bytes
  pub cmd : Bytes
  pub start_time : ℕ

abbrev pub init : FlashOp
init = record {
  worker = no_thread;
  running = false;
  done = false;
  exit_code = unset;
  output = [];
  cmd = [];
  start_time = 0;
}

abbrev pub elapsed_sec : ℕ → FlashOp → ℕ
elapsed_sec now op = (now - op.start_time) / 1000000000

-- The loop over `fgets`.
abbrev pub read_all : Bytes → List Bytes → Bytes
read_all output [] = output
read_all output (buf ∷ bufs) = read_all (output ++ buf) bufs

abbrev pub is_newline : ℕ → Bool
is_newline c = (c == 10) || (c == 13)

-- What the worker stores of the command's end.
unfoldable pub collect : Option (List Bytes × ℕ) → FlashOp → FlashOp
collect none op = record op { worker = reported; done = true }
collect (some (bufs, status)) op = record op {
  worker = reported;
  output = trim_end is_newline (read_all op.output bufs);
  exit_code = exited status;
  done = true;
}

unfoldable pub advance : Popen → ℕ → Worker → FlashOp → FlashOp
unfolding collect
advance popen now no_thread op = op
advance popen now (created cmd) op = record op { worker = marked cmd; running = true }
advance popen now (marked cmd) op = record op { worker = clocked cmd; start_time = now }
advance popen now (clocked cmd) op = collect (popen cmd) op
advance popen now reported op = record op { worker = finished; running = false }
advance popen now finished op = op

-- A step of the worker thread, to its next access to the shared record.
unfoldable pub worker_step : Popen → ℕ → FlashOp → FlashOp
unfolding advance
worker_step popen now op = advance popen now op.worker op

unfoldable pub worker_steps : Popen → List ℕ → FlashOp → FlashOp
worker_steps popen [] op = op
worker_steps popen (now ∷ times) op = worker_steps popen times (worker_step popen now op)

-- `join` waits for the end of the thread, which is at most four steps away.
pub join : Popen → ℕ → FlashOp → FlashOp
unfolding worker_steps
join popen now op = record (worker_steps popen (now ∷ now ∷ now ∷ now ∷ []) op) {
  worker = no_thread;
}

abbrev pub join_if_joinable : Popen → ℕ → FlashOp → FlashOp
join_if_joinable popen now op = if joinable op.worker then join popen now op else op

abbrev pub cancel : Popen → ℕ → FlashOp → FlashOp
cancel popen now op = record (join_if_joinable popen now op) { running = false; done = true }

-- What a handler does: an answer, or `std::terminate`.
pub data Outcome (S : Type 0) : Type 0 where
  replied : S → Bytes → Outcome S
  terminated : Outcome S

-- FLASH_SCRIPTS.
abbrev pub script_of : Bytes → Option Bytes
script_of mode =
    if beq mode (text "FULL")
    then some (text "flash_full.sh")
    else if beq mode (text "PARTIAL")
    then some (text "flash_partial.sh")
    else if beq mode (text "ASSETS")
    then some (text "flash_assets.sh")
    else none

abbrev pub split_mode : Bytes → Option ℕ → Bytes × Bytes
split_mode arg none = (arg, text "FULL")
split_mode arg (some comma) = (take comma arg, drop (comma + 1) arg)

-- The checks of `handle_flash` and the command line; the keys of the map are listed in their order.
unfoldable pub flash_command : Bytes → Bytes → Result Bytes Bytes
flash_command scripts_dir arg = do
  guard (not (is_empty arg)) (text "ERROR: AT+FLASH requires <file>[,MODE]")
  let (filename, mode) = split_mode arg (find arg b',')
  guard (not (is_empty filename)) (text "ERROR: AT+FLASH filename cannot be empty")
  script ←
      or_fail (script_of mode)
        (text "ERROR: unknown flash mode '" ++ mode ++ text "' (valid: ASSETS, FULL, PARTIAL)")
  ok (scripts_dir ++ text "/" ++ script ++ text " " ++ filename)

-- A thread object that is joinable may not be assigned to.
pub submit : FlashOp → Result Bytes Bytes → Outcome FlashOp
submit op (err e) = replied op e
submit op (ok cmd) =
    if op.running
    then replied op (text "ERROR: flash already in progress, use AT+TRYFLASHDONE to poll")
    else if joinable op.worker
    then terminated
    else replied
        (record op {
          cmd = cmd;
          done = false;
          output = [];
          exit_code = unset;
          worker = created cmd;
        })
        (text "OK submitted: " ++ cmd)

pub handle_flash : Bytes → Bytes → FlashOp → Outcome FlashOp
unfolding submit flash_command
handle_flash scripts_dir arg op = submit op (flash_command scripts_dir arg)

abbrev pub result_text : ExitCode → Bytes → Bytes → Bytes
result_text unset cmd output = text "ERROR " ++ cmd ++ text " failed (exit=-1) " ++ output
result_text (exited status) cmd output =
    if status == 0
    then text "OK " ++ cmd ++ text " " ++ output
    else text "ERROR " ++ cmd ++ text " failed (exit=" ++ to_string status ++ text ") " ++ output

abbrev pub timeout_text : Bytes
timeout_text = text "TIMEOUT: flash did not complete within 60s"

abbrev pub running_text : Bytes → ℕ → Bytes
running_text cmd elapsed = text "RUNNING: " ++ cmd ++ text " (" ++ to_string elapsed ++ text "/60s)"

abbrev pub no_pending_text : Bytes
no_pending_text = text "ERROR: no pending flash operation"

unfoldable pub handle_flashdone : Popen → ℕ → FlashOp → FlashOp × Bytes
unfolding join
handle_flashdone popen now op =
    if not op.running && not op.done
    then (op, no_pending_text)
    else if not op.done
    then (if leb 60 (elapsed_sec now op)
        then (cancel popen now op, timeout_text)
        else (op, running_text op.cmd (elapsed_sec now op)))
    else (
      record (join_if_joinable popen now op) { running = false; done = false },
      result_text op.exit_code op.cmd op.output,
    )

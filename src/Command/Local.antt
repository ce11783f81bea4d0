-- ===== src/Command/Local.antt =====
-- The handlers that keep no state of their own: src/at_handler/handler_basic.cpp,
-- src/at_handler/handler_version.cpp and src/at_handler/handler_exec.cpp.
use rk_firmware_flashd.Checksum.Md5.{Md5, hex}
use rk_firmware_flashd.Checksum.Md5 as Md5
use rk_firmware_flashd.Files.{Files}
use rk_firmware_flashd.Flash.{Popen, is_newline, read_all}
use rk_firmware_flashd.Lock.{Owner, is_busy}
use rk_firmware_flashd.Prelude.{
  ℕ, zero, suc, ◌+◌, ◌%◌, ◌^◌, Bool, not, ◌==◌, Option, none, some, List, [], ◌∷◌, ◌++◌,
  if◌then◌else◌, length, take, drop,
}
use rk_firmware_flashd.Prelude.Number.{to_string}
use rk_firmware_flashd.Prelude.Text.{Bytes, has_pair, is_empty, text, trim_end}
use rk_firmware_flashd.Upload.{Calls, in_dir}
use rk_firmware_flashd.Upload.Requests.{dot}

-- What a command meets: the configuration, the clock and the uptime, the state of the serial port,
-- the calls of the C library, what the shell makes of a command line, what `system` returns for one,
-- and the switches and texts of the build.
pub record Surroundings : Type 0 where
  pub upload_dir : Bytes
  pub scripts_dir : Bytes
  pub device : Bytes
  pub serial_enabled : Bool
  pub is_open : Bool
  pub uptime : ℕ
  pub now : ℕ
  pub calls : Calls
  pub popen : Popen
  pub system : Bytes → Bytes × Bool
  pub allow_rce : Bool
  pub allow_reboot : Bool
  pub version : Bytes
  pub arch : Bytes
  pub build : Bytes

abbrev pub handle_status : Surroundings → Owner → Bytes
handle_status env owner =
    text "OK uptime="
    ++ to_string env.uptime
    ++ text "s serial="
    ++ (if env.is_open then text "open" else text "closed")
    ++ text " busy="
    ++ (if is_busy owner then text "yes" else text "no")
    ++ text " device="
    ++ (if env.serial_enabled then env.device else text "none")

pub handle_help : Bytes
handle_help =
    text "OK AT+STATUS                — daemon status"
    ++ text " AT+VERSION               — daemon version"
    ++ text " AT+RESET                 — release session, reopen port"
    ++ text " AT+FORCERESET            — force-release lock (admin override)"
    ++ text " AT+FLASH=f[,FULL|PARTIAL|ASSETS....] — submit flash, returns immediately"
    ++ text " AT+TRYFLASHDONE            — poll flash result (60s timeout)"
    ++ text " AT+EXEC=cmd              — execute command (ENABLE_RCE only)"
    ++ text " AT+REBOOT                — reboot device (ENABLE_REBOOT only)"
    ++ text " AT+VERIFY=f              — compute MD5 of file"
    ++ text " AT+PREUPLOAD=f,n,md5     — begin upload (size + md5)"
    ++ text " AT+UPLOAD=data,crc16,len — send frame with CRC16"
    ++ text " AT+UPLOADDONE            — finalize, verify MD5"
    ++ text " AT+UPLOADCANCEL          — abort current upload"
    ++ text " AT+HELP                  — this help"

pub handle_version : Surroundings → Bytes
handle_version env =
    text "OK daemon=" ++ env.version ++ text " arch=" ++ env.arch ++ text " build=" ++ env.build

-- `system` gives the decimal text of what it returned, and whether that is 0.
pub handle_reboot : Surroundings → Bytes
handle_reboot env =
    let (first, rebooted) = env.system (text "reboot") in
    let (ret, shut_down) = env.system (text "shutdown -r now") in
    if not env.allow_reboot
    then text "ERROR: AT+REBOOT is disabled (rebuild with -DENABLE_REBOOT=ON)"
    else if rebooted
    then text "OK rebooting"
    else if shut_down
    then text "OK rebooting"
    else text "ERROR: reboot failed (exit code " ++ ret ++ text ")"

-- The answer for a command line that the shell has run.
abbrev pub exec_reply : Option (List Bytes × ℕ) → Bytes
exec_reply none = text "ERROR: failed to execute command"
exec_reply (some (bufs, exit_code)) =
    let output = trim_end is_newline (read_all [] bufs) in
    if exit_code == 0
    then text "OK" ++ (10 ∷ output)
    else text "ERROR exit=" ++ to_string exit_code ++ (10 ∷ output)

unfoldable pub handle_exec : Surroundings → Bytes → Bytes
handle_exec env arg =
    if not env.allow_rce
    then text "ERROR: AT+EXEC is disabled (rebuild with -DALLOW_RCE to enable)"
    else if is_empty arg
    then text "ERROR: AT+EXEC requires a command"
    else exec_reply (env.popen arg)

-- The loop over `fread` with a buffer of `size` bytes; the fuel is the number of bytes, of which
-- each round takes at least one.
unfoldable pub read_blocks : ℕ → ℕ → Md5 → ℕ → Bytes → Md5 × ℕ
read_blocks size zero md5 total rest = (md5, total)
read_blocks size (suc fuel) md5 total rest =
    let buf = take size rest in
    let more =
      read_blocks size fuel (Md5.update md5 buf) ((total + length buf) % 2 ^ 64) (drop size rest) in
    if length buf == 0 then (md5, total) else more

abbrev pub verify_reply : Md5 × ℕ → Bytes
verify_reply (md5, total) = text "OK " ++ hex md5 ++ text " " ++ to_string total

-- `opens` is false where `fopen` fails although the file is there.
abbrev pub verify_file : (opens : Bool) → Bytes → Option Bytes → Bytes
verify_file opens arg none = text "ERROR: cannot open file '" ++ arg ++ text "'"
verify_file opens arg (some content) =
    if not opens
    then text "ERROR: cannot open file '" ++ arg ++ text "'"
    else verify_reply (read_blocks 4096 (suc (length content)) Md5.reset 0 content)

unfoldable pub handle_verify : Bytes → (opens : Bool) → Bytes → Files → Bytes
handle_verify upload_dir opens arg files =
    if is_empty arg
    then text "ERROR: AT+VERIFY requires a filename"
    else if has_pair arg dot dot
    then text "ERROR: invalid filename"
    else verify_file opens arg (files (in_dir upload_dir arg))

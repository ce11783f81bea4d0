-- ===== src/Logger.antt =====
-- src/logger.cpp and include/logger.h: the log. The clock's time comes broken down by `localtime_r`,
-- its year and month as they are written. A message is what `snprintf` makes of a format and its
-- arguments; the macros cut it to their buffer of 1024 bytes, and `log` its line to 2048, the byte
-- for the end of the string counted.
pub mod Lines
mod Tests
use rk_firmware_flashd.Files.{Files, create, append}
use rk_firmware_flashd.Prelude.{
  ℕ, suc, ◌+◌, ◌-◌, ◌/◌, Bool, true, false, ltb, Option, none, some, is_some, [], ◌∷◌, ◌++◌,
  if◌then◌else◌, length, take, drop, replicate,
}
use rk_firmware_flashd.Prelude.Number.{to_string}
use rk_firmware_flashd.Prelude.Text.{Bytes, is_empty, rfind, text}
use rk_firmware_flashd.Upload.Requests.{slash}

pub data LogLevel : Type 0 where
  debug info warn error : LogLevel

abbrev pub level_rank : LogLevel → ℕ
level_rank debug = 0
level_rank info = 1
level_rank warn = 2
level_rank error = 3

unfoldable pub level_str : LogLevel → Bytes
level_str debug = text "DEBUG"
level_str info = text "INFO "
level_str warn = text "WARN "
level_str error = text "ERROR"

-- The logger, and what it writes to: the file under a path, and the standard error.
pub record Logger : Type 0 where
  pub log_file : Option Bytes
  pub level : LogLevel
  pub files : Files
  pub stderr : Bytes

-- `fopen(path, "a")` keeps what is there.
abbrev pub open_append : Files → Bytes → Files
open_append files path = if is_some (files path) then files else create files path

-- `reason` is the text of the errno.
abbrev pub open_log : (opens : Bool) → (path reason : Bytes) → Logger → Logger
open_log true path reason l = record l { log_file = some path; files = open_append l.files path }
open_log false path reason l = record l {
  log_file = none;
  stderr =
      l.stderr
      ++ text "Logger: failed to open log file "
      ++ path
      ++ text ": "
      ++ reason
      ++ (10 ∷ []);
}

unfoldable pub init : (opens : Bool) → (path reason : Bytes) → Logger → Logger
init opens path reason l = if is_empty path then l else open_log opens path reason l

abbrev pub shutdown : Logger → Logger
shutdown l = record l { log_file = none }

abbrev pub set_level : LogLevel → Logger → Logger
set_level level l = record l { level = level }

-- The broken-down time, with the milliseconds taken from microseconds.
pub record Time : Type 0 where
  pub year : ℕ
  pub month : ℕ
  pub day : ℕ
  pub hour : ℕ
  pub minute : ℕ
  pub second : ℕ
  pub usec : ℕ

-- `snprintf` into a buffer of `size` bytes, its last one for the end of the string.
abbrev pub snprintf : (size : ℕ) → Bytes → Bytes
snprintf size s = take (size - 1) s

-- `%0wd`.
unfoldable pub padded : ℕ → ℕ → Bytes
padded w n = let digits = to_string n in replicate (w - length digits) b'0' ++ digits

unfoldable pub timestamp : Time → Bytes
timestamp t = snprintf 32 (
    padded 4 t.year
    ++ (b'-' ∷ padded 2 t.month)
    ++ (b'-' ∷ padded 2 t.day)
    ++ (b' ' ∷ padded 2 t.hour)
    ++ (b':' ∷ padded 2 t.minute)
    ++ (b':' ∷ padded 2 t.second)
    ++ (b'.' ∷ padded 3 (t.usec / 1000)))

-- The part of a path behind its last slash.
abbrev behind : Bytes → Option ℕ → Bytes
behind file none = file
behind file (some i) = drop (suc i) file

unfoldable pub short_file : Bytes → Bytes
short_file file = behind file (rfind file slash)

-- The line before it is cut.
unfoldable pub heading : Time → LogLevel → (file : Bytes) → (line : ℕ) → Bytes
heading t level file line =
    (b'[' ∷ timestamp t)
    ++ (b']' ∷ b' ' ∷ b'[' ∷ level_str level)
    ++ (b']' ∷ b' ' ∷ b'(' ∷ short_file file)
    ++ (b':' ∷ to_string line)
    ++ (b')' ∷ b' ' ∷ [])

unfoldable pub formatted : Time → LogLevel → (file : Bytes) → (line : ℕ) → (msg : Bytes) → Bytes
formatted t level file line msg = snprintf 2048 (heading t level file line ++ msg)

-- `fprintf` of a line to the file, or to the standard error if there is none.
abbrev pub write : Option Bytes → Bytes → Logger → Logger
write (some path) line l = record l { files = append l.files path line }
write none line l = record l { stderr = l.stderr ++ line }

unfoldable pub log : Time → LogLevel → (file : Bytes) → (line : ℕ) → (msg : Bytes) → Logger → Logger
log t level file line msg l =
    if ltb (level_rank level) (level_rank l.level)
    then l
    else write l.log_file (formatted t level file line msg ++ (10 ∷ [])) l

-- LOG_DEBUG, LOG_INFO, LOG_WARN and LOG_ERROR.
unfoldable pub log_macro :
    Time → LogLevel → (file : Bytes) → (line : ℕ) → (msg : Bytes) → Logger → Logger
log_macro t level file line msg l = log t level file line (snprintf 1024 msg) l

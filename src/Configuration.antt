-- ===== src/Configuration.antt =====
-- src/config.cpp: the command line. `atoi` is that of the C library; its value is kept as a sign and
-- a magnitude of any size, while an `int` that is too small for it is undefined in C.
pub mod CommandLine
mod Tests
use rk_firmware_flashd.Prelude.{
  ℕ, zero, ◌-◌, ◌%◌, ◌^◌, Bool, true, false, not, ◌&&◌, ◌||◌, ◌==◌, List, [], ◌∷◌, ◌++◌,
  if◌then◌else◌,
}
use rk_firmware_flashd.Prelude.Number.{decimal}
use rk_firmware_flashd.Prelude.Result.{Result, ok, err, ◌>>=◌}
use rk_firmware_flashd.Prelude.Text.{Bytes, beq, drop_while, is_digit, is_space, text}

pub record Config : Type 0 where
  pub port : ℕ
  pub serial_device : Bytes
  pub baud_rate : ℕ
  pub upload_dir : Bytes
  pub scripts_dir : Bytes
  pub log_file : Bytes
  pub pid_file : Bytes
  pub foreground : Bool
  pub help : Bool

abbrev pub default_config : Config
default_config = record {
  port = 8080;
  serial_device = [];
  baud_rate = 115200;
  upload_dir = text "/tmp/rk_flashd_uploads";
  scripts_dir = text "/sbin";
  log_file = [];
  pid_file = text "/var/run/rk_firmware_flashd.pid";
  foreground = false;
  help = false;
}

unfoldable pub leading_digits : Bytes → Bytes
leading_digits [] = []
leading_digits (c ∷ s) = let rest = leading_digits s in if is_digit c then c ∷ rest else []

-- Whether the number is negative, and its magnitude.
abbrev signed : Bytes → Bool × ℕ
signed [] = (false, 0)
signed (c ∷ s) =
    if c == b'-'
    then (true, decimal 0 (leading_digits s))
    else if c == b'+'
    then (false, decimal 0 (leading_digits s))
    else (false, decimal 0 (leading_digits (c ∷ s)))

unfoldable pub atoi : Bytes → Bool × ℕ
atoi s = signed (drop_while is_space s)

-- `static_cast<uint16_t>`.
abbrev pub to_u16 : Bool × ℕ → ℕ
to_u16 (false, n) = n % 2 ^ 16
to_u16 (true, n) = (2 ^ 16 - n % 2 ^ 16) % 2 ^ 16

pub data ArgError : Type 0 where
  invalid_port invalid_baud_rate unknown_option requires_value : Bytes → ArgError

abbrev set_port : Bytes → ℕ → Config → Result ArgError Config
set_port value port cfg =
    if port == 0 then err (invalid_port value) else ok (record cfg { port = port })

abbrev set_baud_rate : Bytes → Bool × ℕ → Config → Result ArgError Config
set_baud_rate value (negative, n) cfg =
    if negative || (n == 0)
    then err (invalid_baud_rate value)
    else ok (record cfg { baud_rate = n })

-- An option with its value.
unfoldable pub set_option : (arg value : Bytes) → Config → Result ArgError Config
set_option arg value cfg =
    if beq arg (text "--port")
    then set_port value (to_u16 (atoi value)) cfg
    else if beq arg (text "--serial-device")
    then ok (record cfg { serial_device = value })
    else if beq arg (text "--baud-rate")
    then set_baud_rate value (atoi value) cfg
    else if beq arg (text "--upload-dir")
    then ok (record cfg { upload_dir = value })
    else if beq arg (text "--scripts-dir")
    then ok (record cfg { scripts_dir = value })
    else if beq arg (text "--log-file")
    then ok (record cfg { log_file = value })
    else if beq arg (text "--pid-file")
    then ok (record cfg { pid_file = value })
    else err (unknown_option arg)

-- The arguments behind the name of the program.
unfoldable pub parse_args : List Bytes → Config → Result ArgError Config
parse_args [] cfg = ok cfg
parse_args (arg ∷ []) cfg =
    if beq arg (text "--help")
    then ok (record cfg { help = true })
    else if beq arg (text "--foreground")
    then ok (record cfg { foreground = true })
    else err (requires_value arg)
parse_args (arg ∷ value ∷ args) cfg =
    let behind_flag = parse_args (value ∷ args) (record cfg { foreground = true }) in
    let behind_option = set_option arg value cfg >>= (λ c. parse_args args c) in
    if beq arg (text "--help")
    then ok (record cfg { help = true })
    else if beq arg (text "--foreground")
    then behind_flag
    else behind_option

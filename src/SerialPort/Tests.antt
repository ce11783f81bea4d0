-- ===== src/SerialPort/Tests.antt =====
-- Opening a pseudo terminal, and the text "AT" over the serial line, in time and cut in two by a
-- time-out of 500 ms.
use rk_firmware_flashd.Prelude.{
  ◌≡◌, refl, ◌⊎◌, Bool, true, false, none, some, [], ◌∷◌, arith, if◌then◌else◌,
}
use rk_firmware_flashd.Prelude.Text.{Bytes}
use rk_firmware_flashd.SerialPort.{received, nothing, got, no_line, read_line}
use rk_firmware_flashd.SerialPort.Device.{
  SerialPort, unopened, Answers, opened, deadlock, open_port, is_open, close,
}
use rk_firmware_flashd.SerialPort.Device.Ownership.{IsClosed, open_port-close}
use rk_firmware_flashd.SerialPort.Lines.{read_line-write_line, front_lost}

-- The device is quiet before the line, in it, and before its end.
read_line-write_line_example :
    read_line false true 500 1000 (
      nothing 1000
      ∷ received 1101 65
      ∷ nothing 1102
      ∷ received 1202 84
      ∷ received 1203 13
      ∷ nothing 1204
      ∷ received 1304 10
      ∷ [])
    ≡ got (65 ∷ 84 ∷ []) []
read_line-write_line_example =
    read_line-write_line false true 500 1000 1304 (65 ∷ 84 ∷ [])
      ((1000, none)
        ∷ (1101, some 65)
        ∷ (1102, none)
        ∷ (1202, some 84)
        ∷ (1203, some 13)
        ∷ (1204, none)
        ∷ [])
      [] refl refl (ground arith) (omega arith) (omega arith)

abbrev command : Bytes
command = 65 ∷ 84 ∷ []

-- The device stalls behind the first byte.
front_lost_example :
    (command ≡ 65 ∷ 84 ∷ [])
    × (read_line true false 500 1000 (
          received 1001 65
          ∷ nothing 1101
          ∷ nothing 1500
          ∷ received 1600 84
          ∷ received 1601 13
          ∷ received 1602 10
          ∷ [])
        ≡ no_line (nothing 1500 ∷ received 1600 84 ∷ received 1601 13 ∷ received 1602 10 ∷ []))
    × (read_line true false 500 1500
          (nothing 1500 ∷ received 1600 84 ∷ received 1601 13 ∷ received 1602 10 ∷ [])
        ≡ got (84 ∷ []) [])
front_lost_example =
    front_lost 500 1000 1602 command (84 ∷ []) ((1001, some 65) ∷ (1101, none) ∷ [])
      ((1600, some 84) ∷ (1601, some 13) ∷ []) (1500, none) [] refl refl (ground arith)
      (omega arith) (ground arith) (omega arith) (omega arith)

-- libserialport knows the name and cannot open the device; the POSIX calls can.
abbrev pseudo_terminal : Answers
pseudo_terminal = record {
  get_port_by_name = true;
  sp_open = false;
  posix_open = true;
  tcsetattr = true;
}

open_port-close_example :
    (p' : SerialPort) × (answer : Bool) × (open_port pseudo_terminal (1 ∷ []) 9600 unopened
      ≡ opened p' answer)
    × (is_open p' ≡ answer)
    × (p'.held ≡ (if answer then 1 else 0))
    × IsClosed (close p')
    × ((answer ≡ false) ⊎ (open_port pseudo_terminal (2 ∷ []) 115200 p' ≡ deadlock))
open_port-close_example =
    open_port-close pseudo_terminal pseudo_terminal (1 ∷ []) (2 ∷ []) 9600 115200 unopened
      (record { no_port = refl; no_raw_fd = refl; none_held = refl })

falls_back :
    open_port pseudo_terminal (1 ∷ []) 9600 unopened
    ≡ opened
        (record {
          port = false;
          raw_fd = true;
          device = 1 ∷ [];
          settings = some (record { speed = 9600; bits = 8 });
          held = 1;
        })
        true
unfolding open_port
falls_back = refl

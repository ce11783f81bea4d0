-- ===== src/SerialPort/Device/Ownership.antt =====
-- What `open` gets from the system, `close` gives back.
use rk_firmware_flashd.Prelude.{
  ℕ, ◌≡◌, ◌⊎◌, inl, inr, refl, Bool, true, false, Option, if◌then◌else◌,
}
use rk_firmware_flashd.Prelude.Text.{Bytes}
use rk_firmware_flashd.SerialPort.Device.{
  SerialPort, Answers, Settings, Opening, opened, deadlock, open_port, is_open, close,
}

-- A closed port that holds nothing of the system.
pub record IsClosed (p : SerialPort) : Type 0 where
  pub no_port : p.port ≡ false
  pub no_raw_fd : p.raw_fd ≡ false
  pub none_held : p.held ≡ 0

abbrev closed_port : Bytes → Option Settings → SerialPort
closed_port device settings = record {
  port = false;
  raw_fd = false;
  device = device;
  settings = settings;
  held = 0;
}

closed_form : (p : SerialPort) → IsClosed p → p ≡ closed_port p.device p.settings
closed_form p h = rw (h.no_port, h.no_raw_fd, h.none_held) refl

-- What an opening leaves: one handle for an open port and none for a closed one.
abbrev Accounted : Opening → (SerialPort → Opening) → Type 0
Accounted first second =
    (p' : SerialPort) × (answer : Bool) × (first ≡ opened p' answer)
    × (is_open p' ≡ answer)
    × (p'.held ≡ (if answer then 1 else 0))
    × IsClosed (close p')
    × ((answer ≡ false) ⊎ (second p' ≡ deadlock))

module _ (again : Answers) (device other before : Bytes) (baud_rate other_rate : ℕ) where
  open_port-Accounted :
      (get_port_by_name sp_open posix_open tcsetattr : Bool) (settings : Option Settings)
      → Accounted
          (open_port
            (record {
              get_port_by_name = get_port_by_name;
              sp_open = sp_open;
              posix_open = posix_open;
              tcsetattr = tcsetattr;
            })
            device
            baud_rate
            (closed_port before settings))
          (open_port again other other_rate)
  unfolding open_port close
  open_port-Accounted true true x t settings = (
    _,
    true,
    refl,
    refl,
    refl,
    (record { no_port = refl; no_raw_fd = refl; none_held = refl }),
    inr refl,
  )
  open_port-Accounted true false false t settings = (
    _,
    false,
    refl,
    refl,
    refl,
    (record { no_port = refl; no_raw_fd = refl; none_held = refl }),
    inl refl,
  )
  open_port-Accounted true false true false settings = (
    _,
    false,
    refl,
    refl,
    refl,
    (record { no_port = refl; no_raw_fd = refl; none_held = refl }),
    inl refl,
  )
  open_port-Accounted true false true true settings = (
    _,
    true,
    refl,
    refl,
    refl,
    (record { no_port = refl; no_raw_fd = refl; none_held = refl }),
    inr refl,
  )
  open_port-Accounted false s false t settings = (
    _,
    false,
    refl,
    refl,
    refl,
    (record { no_port = refl; no_raw_fd = refl; none_held = refl }),
    inl refl,
  )
  open_port-Accounted false s true false settings = (
    _,
    false,
    refl,
    refl,
    refl,
    (record { no_port = refl; no_raw_fd = refl; none_held = refl }),
    inl refl,
  )
  open_port-Accounted false s true true settings = (
    _,
    true,
    refl,
    refl,
    refl,
    (record { no_port = refl; no_raw_fd = refl; none_held = refl }),
    inr refl,
  )

-- Opening a closed port comes to an end, whatever libserialport and the POSIX calls answer: it
-- answers whether the port is open then, and holds one handle of the system if it is and none if it
-- is not, so that nothing leaks on the way to the fallback. Closing gives that handle back and
-- leaves a closed port again. Opening a port that is open never returns.
pub open_port-close :
    (answers again : Answers) (device other : Bytes) (baud_rate other_rate : ℕ) (p : SerialPort)
    → IsClosed p
    → (p' : SerialPort) × (answer : Bool) × (open_port answers device baud_rate p
        ≡ opened p' answer)
      × (is_open p' ≡ answer)
      × (p'.held ≡ (if answer then 1 else 0))
      × IsClosed (close p')
      × ((answer ≡ false) ⊎ (open_port again other other_rate p' ≡ deadlock))
open_port-close answers again device other baud_rate other_rate p h = rw (closed_form p h) (
    open_port-Accounted again device other p.device baud_rate other_rate answers.get_port_by_name
      answers.sp_open answers.posix_open answers.tcsetattr p.settings)

-- ===== src/SerialDaemon/Reconnecting.antt =====
-- When the reader opens the port again.
use rk_firmware_flashd.Configuration.{Config}
use rk_firmware_flashd.Lock.{Owner}
use rk_firmware_flashd.Prelude.{
  ◌≡◌, refl, ap, ◌∙◌, Bool, true, false, not, Option, none, some, List, [], ◌∷◌, map, if◌then◌else◌,
}
use rk_firmware_flashd.Prelude.Text.{Bytes}
use rk_firmware_flashd.SerialDaemon.{
  Thread, no_thread, testing, reading, retesting, reconnecting, busy_reply, finished, hung,
  acquiring, checking, handling, answering, SerialDaemon, Event, read, reader_step, System,
  reader_turn, step, run,
}
use rk_firmware_flashd.SerialPort.Device.{SerialPort, is_open}

branch-port :
    (test : Bool) (x y : SerialDaemon) (p : SerialPort)
    → x.port ≡ p
    → y.port ≡ p
    → (if test then x else y).port ≡ p
branch-port true x y p h k = h
branch-port false x y p h k = k

module _ (cfg : Config) (handler : Bytes → Owner → Bytes × Owner) where
  read-port : (line : Option Bytes) (d : SerialDaemon) → (read line d).port ≡ d.port
  read-port none d = refl
  read-port (some line) d = branch-port (not (is_open d.port)) _ _ d.port refl refl

  reader_step-port :
      (event : Event) (t : Thread) (d : SerialDaemon)
      → is_open d.port ≡ true
      → (reader_step cfg handler event t d).port ≡ d.port
  unfolding reader_step
  reader_step-port event testing d h = branch-port d.reader_running _ _ d.port refl refl
  reader_step-port event reading d h = read-port event.line d
  reader_step-port event retesting d h = branch-port d.reader_running _ _ d.port refl refl
  reader_step-port event reconnecting d h = rw h refl
  reader_step-port event (acquiring line) d h = refl
  reader_step-port event (checking line) d h = branch-port _ _ _ d.port refl refl
  reader_step-port event (handling line) d h = refl
  reader_step-port event busy_reply d h = refl
  reader_step-port event (answering response) d h = refl
  reader_step-port event no_thread d h = refl
  reader_step-port event finished d h = refl
  reader_step-port event hung d h = refl

  -- As long as nobody else closes it, a port that is open is never opened again by the reader,
  -- whatever the device does: reads that end with an error, as after the device was unplugged, leave
  -- it as it is.
  pub open_port_kept :
      (events : List Event) (s : System)
      → is_open s.daemon.port ≡ true
      → (run cfg handler (map reader_turn events) s).daemon.port ≡ s.daemon.port
  unfolding run
  open_port_kept [] s h = refl
  open_port_kept (event ∷ events) s h =
      let e = reader_step-port event s.daemon.thread s.daemon h in
      open_port_kept events (step cfg handler (reader_turn event) s) (ap is_open e ∙ h) ∙ e

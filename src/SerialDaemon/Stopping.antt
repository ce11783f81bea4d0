-- ===== src/SerialDaemon/Stopping.antt =====
-- `stop` comes to its end, however the steps of the main thread and of the reader interleave.
use rk_firmware_flashd.Configuration.{Config}
use rk_firmware_flashd.Lock.{Owner, no_owner}
use rk_firmware_flashd.Prelude.{◌≤◌, ◌≡◌, refl, ◌∙◌, ◌⊎◌, true, false, List, ◌++◌, arith}
use rk_firmware_flashd.Prelude.Text.{Bytes}
use rk_firmware_flashd.SerialDaemon.{
  no_thread, SerialDaemon, Caller, asking, stopped, System, Turn, main_turn, reader_turn, run,
}
use rk_firmware_flashd.SerialDaemon.Phases.{Inv, main_step-Inv, reader_step-Inv, Inv-Alive}
use rk_firmware_flashd.SerialDaemon.Potential.{
  is_main, is_reader, count, run-append, descend, Lowers,
}
use rk_firmware_flashd.SerialDaemon.Steps.{steps_left, is_hung, reader_step-IsStep}
use rk_firmware_flashd.SerialDaemon.Ranks.{
  to_clear, rank, clear_step, flag_step, rank_step, cleared_lem, stopped_lem, steps_left-le,
  rank-le, asking-to_clear,
}
use rk_firmware_flashd.SerialPort.Device.{is_open}

module _ (cfg : Config) (handler : Bytes → Owner → Bytes × Owner) where
  abbrev Kept : System → Type 0
  Kept s = Inv s.main s.daemon

  abbrev Cleared : System → Type 0
  Cleared s = Inv s.main s.daemon × (s.daemon.reader_running ≡ false)

  abbrev Ended : System → Type 0
  Ended s = Cleared s × (steps_left s.daemon.thread ≡ 0)

  clears : Lowers cfg handler Kept (λ s. to_clear s.main s.daemon.reader_running) is_main
  clears main_turn s h = (main_step-Inv s.main s.daemon h, clear_step s.main s.daemon h)
  clears (reader_turn event) s h =
      let d = s.daemon in
      let r = reader_step-IsStep cfg handler event d.thread d refl (Inv-Alive s.main d h) in
      (reader_step-Inv cfg handler event s.main d h, rw r.flag (omega arith))

  ends : Lowers cfg handler Cleared (λ s. steps_left s.daemon.thread) is_reader
  ends main_turn s (h, off) =
      let f = flag_step s.main s.daemon off in ((main_step-Inv s.main s.daemon h, f.0), f.1)
  ends (reader_turn event) s (h, off) =
      let d = s.daemon in
      let r = reader_step-IsStep cfg handler event d.thread d refl (Inv-Alive s.main d h) in
      ((reader_step-Inv cfg handler event s.main d h, r.flag ∙ off), r.nearer off)

  stops : Lowers cfg handler Ended (λ s. rank s.main) is_main
  stops main_turn s (c, done) =
      let e = ends main_turn s c in
      ((e.0, omega (arith, e.1)), rank_step s.main s.daemon c.0 c.1 done)
  stops (reader_turn event) s (c, done) =
      let e = ends (reader_turn event) s c in ((e.0, omega (arith, e.1)), omega arith)

  -- Whatever the device, the handler and the order of the steps do: once `stop_reader` or `stop` is
  -- called, with the reader running or none started, a schedule that gives the main thread two
  -- turns, then the reader six turns, then the main thread ten, comes to the end of `stop`. No
  -- thread is left then, the port is closed, and the lock is free, also where the reader opens the
  -- port again behind the first closing.
  pub stop_ends :
      (caller : Caller) (d : SerialDaemon) (first second third : List Turn)
      → is_hung d.thread ≡ false
      → (d.reader_running ≡ true) ⊎ ((d.thread ≡ no_thread) × (d.reader_running ≡ false))
      → 2 ≤ count is_main first
      → 6 ≤ count is_reader second
      → 10 ≤ count is_main third
      → let s =
          run cfg handler
            (first ++ (second ++ third))
            (record { daemon = d; main = asking caller }) in
        (s.main ≡ stopped)
        × (s.daemon.thread ≡ no_thread)
        × (s.daemon.reader_running ≡ false)
        × (is_open s.daemon.port ≡ false)
        × (s.daemon.owner ≡ no_owner)
  stop_ends caller d first second third alive flag n m k =
      let s0 : System = record { daemon = d; main = asking caller } in
      let (p1, clear) =
        descend cfg handler Kept (λ s. to_clear s.main s.daemon.reader_running) is_main clears first
          s0 (alive, flag) (omega (arith, asking-to_clear caller d.reader_running)) in
      let s1 = run cfg handler first s0 in
      let off = cleared_lem s1.main s1.daemon p1 clear in
      let (p2, ended) =
        descend cfg handler Cleared (λ s. steps_left s.daemon.thread) is_reader ends second s1
          (p1, off)
          (omega (arith, steps_left-le s1.daemon.thread (Inv-Alive s1.main s1.daemon p1))) in
      let s2 = run cfg handler second s1 in
      let (p3, low) =
        descend cfg handler Ended (λ s. rank s.main) is_main stops third s2 (p2, ended)
          (omega (arith, rank-le s2.main)) in
      let s3 = run cfg handler third s2 in
      let (at_end, inv) = stopped_lem s3.main s3.daemon p3.0.0 low in
      rw (run-append cfg handler first (second ++ third) s0, run-append cfg handler second third s1)
        (at_end, inv.0, inv.1, inv.2, inv.3)

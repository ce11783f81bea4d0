-- ===== src/Process/Shutdown.antt =====
-- The daemon comes to its end when it is told to.
use rk_firmware_flashd.Configuration.{Config}
use rk_firmware_flashd.Files.{Files, put_self}
use rk_firmware_flashd.HttpServer as HttpServer
use rk_firmware_flashd.Lock.{Owner, no_owner}
use rk_firmware_flashd.Prelude.{
  ℕ, ◌≤◌, ◌≡◌, refl, sym, subst, ◌∙◌, ◌⊎◌, inl, inr, Bool, true, false, none, some, List, [], ◌++◌,
  Bool-cases, if◌then◌else◌,
}
use rk_firmware_flashd.Prelude.Text.{Bytes}
use rk_firmware_flashd.Process.{Paths, Calls}
use rk_firmware_flashd.Process.Main.{
  Environment, Process, End, returned, Second, main_loop, stop_serial, remove_pid_file, shut_down,
  shut_logger, on_loop, on_http, run_daemon,
}
use rk_firmware_flashd.Process.Loop.{asked_to_end, Leaves, main_loop_lem}
use rk_firmware_flashd.SerialDaemon as SerialDaemon
use rk_firmware_flashd.SerialDaemon.{
  SerialDaemon, constructed, use_serial, start_reader, Event, Caller, by_main, by_stop, MainPhase,
  asking, stopped, System, Turn, reader_turn, run, no_thread,
}
use rk_firmware_flashd.SerialDaemon.Phases.{Inv}
use rk_firmware_flashd.SerialDaemon.Potential.{is_main, is_reader, count}
use rk_firmware_flashd.SerialDaemon.Stopping.{stop_ends}
use rk_firmware_flashd.SerialPort.Device.{Answers, is_open, unopened}
use rk_firmware_flashd.SerialPort.Device.Ownership.{open_port-close}

-- A daemon that has let go of the serial line.
pub record IsReleased (d : SerialDaemon) : Type 0 where
  pub joined : d.thread ≡ no_thread
  pub flag_down : d.reader_running ≡ false
  pub closed : is_open d.port ≡ false
  pub unlocked : d.owner ≡ no_owner

module _ (cfg : Config) (handler : Bytes → Owner → Bytes × Owner) where
  -- `start` and `start_reader` on a new daemon.
  start-Ready :
      (answers : Answers) (caller : Caller)
      → (d : SerialDaemon) × (SerialDaemon.start cfg answers constructed ≡ some d)
        × Inv (asking caller) (start_reader cfg d)
  unfolding SerialDaemon.start
  start-Ready answers caller = elim (Bool-cases (use_serial cfg)) [
    | inr without ↦ rw without (constructed, refl, (refl, inr (refl, refl)))
    | inl with ↦
        let (p, _, e, _, _, _, _) =
          open_port-close answers answers cfg.serial_device [] cfg.baud_rate 0 unopened
            (record { no_port = refl; no_raw_fd = refl; none_held = refl }) in
        rw (with, e) (record constructed { port = p }, refl, (refl, inl refl))
  ]

  -- The turns that `stop` needs.
  module _ (first second third : List Turn) (n : 2 ≤ count is_main first)
      (m : 6 ≤ count is_reader second) (k : 10 ≤ count is_main third) where
    stop_serial_lem :
        (caller : Caller) (p : Process) (next : Process → End)
        → Inv (asking caller) p.serial
        → (d : SerialDaemon) × IsReleased d
          × (stop_serial cfg handler caller (first ++ (second ++ third)) p next
              ≡ next (record p { serial = d }))
    stop_serial_lem caller p next inv =
        let s =
          run cfg handler (first ++ (second ++ third))
            (record { daemon = p.serial; main = asking caller }) in
        let (e, joined, flag_down, closed, unlocked) =
          stop_ends cfg handler caller p.serial first second third inv.0 inv.1 n m k in
        (
          s.daemon,
          record { joined = joined; flag_down = flag_down; closed = closed; unlocked = unlocked },
          rw e refl,
        )

  -- The end of `main`: its status, and what is left of the daemon.
  abbrev pub EndsWith : Calls → ℕ → End → Type 0
  EndsWith calls status end =
      (p : Process) × (end ≡ returned status p)
      × IsReleased p.serial
      × (p.http ≡ false)
      × ((cfg.foreground ≡ true)
          ⊎ (calls.unlinks_pid_file ≡ false)
          ⊎ (p.logger.files cfg.pid_file ≡ none))

  removed-lem :
      (calls : Calls) (p : Process)
      → ((remove_pid_file cfg handler calls p).serial ≡ p.serial)
        × ((remove_pid_file cfg handler calls p).http ≡ p.http)
        × ((cfg.foreground ≡ true)
            ⊎ (calls.unlinks_pid_file ≡ false)
            ⊎ ((remove_pid_file cfg handler calls p).logger.files cfg.pid_file ≡ none))
  removed-lem calls p = elim (Bool-cases cfg.foreground) [
    | inl front ↦ rw front (refl, refl, inl refl)
    | inr back ↦ elim (Bool-cases calls.unlinks_pid_file) [
      | inl gone ↦
          rw (back, gone) (refl, refl, inr (inr (put_self p.logger.files cfg.pid_file none)))
      | inr kept ↦ rw (back, kept) (refl, refl, inr (inl refl))
    ]
  ]

  module _ (first second third : List Turn) (n : 2 ≤ count is_main first)
      (m : 6 ≤ count is_reader second) (k : 10 ≤ count is_main third) where
    shut_down-EndsWith :
        (calls : Calls) (p : Process)
        → Inv (asking by_main) p.serial
        → EndsWith calls 0 (shut_down cfg handler calls (first ++ (second ++ third)) p)
    shut_down-EndsWith calls p inv =
        let (d, released, e) =
          stop_serial_lem first second third n m k by_main
            (record p { http = HttpServer.stop p.http })
            (λ q. returned 0 (shut_logger cfg handler (remove_pid_file cfg handler calls q))) inv in
        let (same, down, gone) =
          removed-lem calls (record p { http = HttpServer.stop p.http; serial = d }) in
        (
          shut_logger cfg handler (
              remove_pid_file cfg handler calls
                (record p { http = HttpServer.stop p.http; serial = d })),
          e,
          subst IsReleased (sym same) released,
          down,
          gone,
        )

    on_loop-EndsWith :
        (calls : Calls) (before : Process) (r : Process × Bool)
        → Leaves cfg handler true before r
        → EndsWith calls 0 (on_loop cfg handler calls (first ++ (second ++ third)) r)
    unfolding Leaves
    on_loop-EndsWith calls before (p, true) (_, inv, _) = shut_down-EndsWith calls p inv
    on_loop-EndsWith calls before (p, false) (e, _, _) = absurd cc

    on_http-EndsWith :
        (calls : Calls) (seconds : List Second) (p : Process) (starts : Bool)
        → asked_to_end seconds ≡ true
        → p.http ≡ starts
        → p.running ≡ true
        → Inv (asking by_main) p.serial
        → EndsWith calls
            (if starts then 0 else 1)
            (on_http cfg handler calls seconds (first ++ (second ++ third)) p starts)
    on_http-EndsWith calls seconds p true asked http running inv =
        on_loop-EndsWith calls p (main_loop cfg handler seconds p) (
          subst (λ b. Leaves cfg handler b p (main_loop cfg handler seconds p)) asked
            (main_loop_lem cfg handler seconds p running inv))
    on_http-EndsWith calls seconds p false asked http running inv =
        let (d, released, e) =
          stop_serial_lem first second third n m k by_stop p
            (λ q. returned 1 (remove_pid_file cfg handler calls q)) inv in
        let (same, down, gone) = removed-lem calls (record p { serial = d }) in
        (
          remove_pid_file cfg handler calls (record p { serial = d }),
          e,
          subst IsReleased (sym same) released,
          down ∙ http,
          gone,
        )

  pub run_daemon-EndsWith :
      (env : Environment) (seconds : List Second) (first second third : List Turn) (paths : Paths)
      (files : Files)
      → asked_to_end seconds ≡ true
      → 2 ≤ count is_main first
      → 6 ≤ count is_reader second
      → 10 ≤ count is_main third
      → EndsWith env.calls
          (if env.mhd_starts then 0 else 1)
          (run_daemon cfg handler env seconds (first ++ (second ++ third)) paths files)
  unfolding run_daemon
  run_daemon-EndsWith env seconds first second third paths files asked n m k =
      let (d, started, inv) = start-Ready env.serial by_main in
      rw started (
        on_http-EndsWith first second third n m k env.calls seconds _ env.mhd_starts asked refl refl
          inv)

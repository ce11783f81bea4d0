-- ===== src/Process/Loop.antt =====
-- The loop of `main`, and what a signal does to it.
use rk_firmware_flashd.Configuration.{Config}
use rk_firmware_flashd.Lock.{Owner}
use rk_firmware_flashd.Prelude.{
  ◌≡◌, refl, ap, ◌∙◌, inl, inr, Bool, true, false, not, ◌||◌, List, [], ◌∷◌, map, Bool-cases,
}
use rk_firmware_flashd.Prelude.Text.{Bytes}
use rk_firmware_flashd.Process.{Signal, sigterm, sigint, sighup}
use rk_firmware_flashd.Process.Main.{Process, Second, deliver, read_on, sleep, main_loop}
use rk_firmware_flashd.SerialDaemon.{
  SerialDaemon, Event, Caller, by_main, asking, System, reader_turn, run,
}
use rk_firmware_flashd.SerialDaemon.Phases.{Inv, reader_step-Inv}

-- SIGTERM or SIGINT is among the signals.
abbrev pub is_ending : Signal → Bool
is_ending sighup = false
is_ending _ = true

unfoldable pub asked_in : List Signal → Bool
asked_in [] = false
asked_in (signal ∷ signals) = is_ending signal || asked_in signals

unfoldable pub asked_to_end : List Second → Bool
asked_to_end [] = false
asked_to_end (second ∷ seconds) = asked_in second.signals || asked_to_end seconds

deliver-false : (signals : List Signal) → deliver signals false ≡ false
unfolding deliver
deliver-false [] = refl
deliver-false (sigterm ∷ signals) = deliver-false signals
deliver-false (sigint ∷ signals) = deliver-false signals
deliver-false (sighup ∷ signals) = deliver-false signals

deliver-asked : (signals : List Signal) → deliver signals true ≡ not (asked_in signals)
unfolding deliver asked_in
deliver-asked [] = refl
deliver-asked (sigterm ∷ signals) = deliver-false signals
deliver-asked (sigint ∷ signals) = deliver-false signals
deliver-asked (sighup ∷ signals) = deliver-asked signals

module _ (cfg : Config) (handler : Bytes → Owner → Bytes × Owner) where
  run-Ready :
      (events : List Event) (s : System) (caller : Caller)
      → s.main ≡ asking caller
      → Inv (asking caller) s.daemon
      → ((run cfg handler (map reader_turn events) s).main ≡ asking caller)
        × Inv (asking caller) (run cfg handler (map reader_turn events) s).daemon
  unfolding run
  run-Ready [] s caller e h = (e, h)
  run-Ready (event ∷ events) s caller e h =
      run-Ready events _ caller e (reader_step-Inv cfg handler event (asking caller) s.daemon h)

  read_on-Ready :
      (events : List Event) (d : SerialDaemon)
      → Inv (asking by_main) d
      → Inv (asking by_main) (read_on cfg handler events d)
  read_on-Ready events d h =
      (run-Ready events (record { daemon = d; main = asking by_main }) by_main refl h).1

  main_loop-left :
      (seconds : List Second) (p : Process)
      → p.running ≡ false
      → main_loop cfg handler seconds p ≡ (p, true)
  unfolding main_loop
  main_loop-left [] p h = rw h refl
  main_loop-left (second ∷ seconds) p h = rw h refl

  -- What the loop leaves: whether it was left, and a serial daemon that can be stopped.
  unfoldable pub Leaves : Bool → Process → Process × Bool → Type 0
  Leaves answer before (after, left) =
      (left ≡ answer) × Inv (asking by_main) after.serial × (after.logger ≡ before.logger)

  main_loop-step :
      (second : Second) (seconds : List Second) (p : Process)
      → p.running ≡ true
      → main_loop cfg handler (second ∷ seconds) p
        ≡ main_loop cfg handler seconds (sleep cfg handler second p)
  unfolding main_loop
  main_loop-step second seconds p h = rw h refl

  -- The flag behind a second.
  sleep-running :
      (second : Second) (p : Process) (answer : Bool)
      → p.running ≡ true
      → asked_in second.signals ≡ answer
      → (sleep cfg handler second p).running ≡ not answer
  sleep-running second p answer h e =
      ap (deliver second.signals) h ∙ deliver-asked second.signals ∙ ap not e

  left-Leaves :
      (second : Second) (p : Process)
      → Inv (asking by_main) p.serial
      → Leaves true p (sleep cfg handler second p, true)
  unfolding Leaves
  left-Leaves second p inv = (refl, read_on-Ready second.events p.serial inv, refl)

  later-Leaves :
      (second : Second) (p : Process) (answer : Bool) (r : Process × Bool)
      → Leaves answer (sleep cfg handler second p) r
      → Leaves answer p r
  unfolding Leaves
  later-Leaves second p answer r h = h

  pub main_loop_lem :
      (seconds : List Second) (p : Process)
      → p.running ≡ true
      → Inv (asking by_main) p.serial
      → Leaves (asked_to_end seconds) p (main_loop cfg handler seconds p)
  unfolding asked_to_end
  main_loop_lem [] p h inv = unfold main_loop Leaves in (ap not h, inv, refl)
  main_loop_lem (second ∷ seconds) p h inv = elim (Bool-cases (asked_in second.signals)) [
    | inl asked ↦
        rw
          (
            main_loop-step second seconds p h,
            asked,
            main_loop-left seconds (sleep cfg handler second p)
                (sleep-running second p true h asked),
          )
          (left-Leaves second p inv)
    | inr quiet ↦
        rw (main_loop-step second seconds p h, quiet)
          (later-Leaves second p _ _ (
            main_loop_lem seconds (sleep cfg handler second p)
              (sleep-running second p false h quiet) (read_on-Ready second.events p.serial inv)))
  ]

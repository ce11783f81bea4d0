-- ===== src/SerialDaemon/Commands.antt =====
-- The steps of the reader behind a line, against the treatment of a line as a whole.
use rk_firmware_flashd.Command.{Daemon, process}
use rk_firmware_flashd.Command.Local.{Surroundings}
use rk_firmware_flashd.Configuration.{Config}
use rk_firmware_flashd.Flash.{Outcome, replied, terminated}
use rk_firmware_flashd.Lock.{Owner, no_owner, http, serial, try_acquire}
use rk_firmware_flashd.Prelude.{
  ℕ, suc, ◌≤◌, ◌≡◌, refl, sym, ap, subst, Bool, true, [], ◌∷◌, ◌++◌, replicate, append-nil, arith,
  if◌then◌else◌,
}
use rk_firmware_flashd.Prelude.Text.{Bytes, is_empty, text}
use rk_firmware_flashd.SerialDaemon.{
  Thread, acquiring, checking, step, testing, handling, Event, reader_step, MainPhase, System,
  reader_turn, run,
}
use rk_firmware_flashd.SerialPort as SerialPort
use rk_firmware_flashd.SerialPort.Device.{SerialPort, is_open, send_line}
use rk_firmware_flashd.Session.{reader_line, reader_checked}

-- `at_cmd.process(line, Owner::SERIAL)`, with the state of the commands given: the answer and the
-- owner behind it.
abbrev pub answer_of : Owner → Outcome Daemon → Bytes × Owner
answer_of owner (replied d response) = (response, d.owner)
answer_of owner terminated = ([], owner)

abbrev pub at_handler : Surroundings → Daemon → Bytes → Owner → Bytes × Owner
at_handler env d line owner = answer_of owner (process env serial line (record d { owner = owner }))

-- What goes back over the line for an answer.
abbrev pub written : Bytes → Bytes
written response = if is_empty response then [] else SerialPort.write_line response

module _ (cfg : Config) (handler : Bytes → Owner → Bytes × Owner) (event : Event) (main : MainPhase)
    (port : SerialPort) (running : Bool) (sent : Bytes) (opened : is_open port ≡ true) where
  -- The reader at a place in its loop.
  abbrev at : Thread → Owner → Bytes → System
  at thread owner sent' = record {
    daemon = record {
      port = port;
      owner = owner;
      reader_running = running;
      thread = thread;
      sent = sent';
    };
    main = main;
  }

  -- Some turn of the next ones brings the reader back to the test of its loop.
  abbrev Within : ℕ → System → Owner → Bytes → Type 0
  Within n s owner response =
      (k : ℕ) × (k ≤ n)
      × (run cfg handler (replicate k (reader_turn event)) s
          ≡ at testing owner (sent ++ written response))

  sends :
      (response : Bytes)
      → (send_line event.accepted response port).0 ≡ SerialPort.write_line response
  sends response = rw opened refl

  handled :
      (line response : Bytes) (owner owner' : Owner)
      → handler line owner ≡ (response, owner')
      → Within 2 (at (handling line) owner sent) owner' response
  unfolding run reader_step
  handled line [] owner owner' e =
      (1, omega arith, rw e (ap (at testing owner') (sym (append-nil sent))))
  handled line (c ∷ response) owner owner' e =
      (2, omega arith, rw e (ap (λ b. at testing owner' (sent ++ b)) (sends (c ∷ response))))

  more :
      (n : ℕ) (s : System) (owner : Owner) (response : Bytes)
      → Within n (step cfg handler (reader_turn event) s) owner response
      → Within (suc n) s owner response
  unfolding run
  more n s owner response (k, le, e) = (suc k, omega arith, e)

  later :
      (n m : ℕ) (s : System) (owner : Owner) (response : Bytes)
      → n ≤ m
      → Within n s owner response
      → Within m s owner response
  later n m s owner response h (k, le, e) = (k, omega arith, e)

  refused : (line : Bytes) → Within 3 (at (acquiring line) http sent) http (text "BUSY")
  unfolding run reader_step text
  refused line = (3, omega arith, ap (λ b. at testing http (sent ++ b)) (sends (text "BUSY")))

  acquired :
      (line response : Bytes) (owner' : Owner)
      → handler line serial ≡ (response, owner')
      → Within 3 (at (acquiring line) no_owner sent) owner' response
  unfolding reader_step
  acquired line response owner' e =
      more 2 (at (acquiring line) no_owner sent) owner' response
        (handled line response serial owner' e)

  reused :
      (line response : Bytes) (owner' : Owner)
      → handler line serial ≡ (response, owner')
      → Within 4 (at (acquiring line) serial sent) owner' response
  unfolding reader_step
  reused line response owner' e = more 3 (at (acquiring line) serial sent) owner' response (
      more 2 (at (checking line) serial sent) owner' response
        (handled line response serial owner' e))

module _ (cfg : Config) (env : Surroundings) (event : Event) (main : MainPhase) (port : SerialPort)
    (running : Bool) (sent : Bytes) (opened : is_open port ≡ true) where
  by_owner :
      (owner : Owner) (line response : Bytes) (d d' : Daemon)
      → reader_checked env line d (try_acquire serial owner) ≡ replied d' response
      → Within cfg
          (at_handler env d)
          event
          main
          port
          running
          sent
          opened
          4
          (at cfg
            (at_handler env d)
            event
            main
            port
            running
            sent
            opened
            (acquiring line)
            owner
            sent)
          d'.owner
          response
  by_owner no_owner line response d d' h =
      later cfg (at_handler env d) event main port running sent opened 3 4
        (at cfg (at_handler env d) event main port running sent opened (acquiring line) no_owner
          sent)
        d'.owner response (omega arith)
        (acquired cfg (at_handler env d) event main port running sent opened line response d'.owner
          (ap (answer_of serial) h))
  by_owner serial line response d d' h =
      reused cfg (at_handler env d) event main port running sent opened line response d'.owner
        (ap (answer_of serial) h)
  by_owner http line response d d' h =
      subst
        (λ answer.
          Within cfg (at_handler env d) event main port running sent opened 4
            (at cfg (at_handler env d) event main port running sent opened (acquiring line) http
              sent)
            answer.1 answer.0)
        (ap (answer_of http) h)
        (later cfg (at_handler env d) event main port running sent opened 3 4
          (at cfg (at_handler env d) event main port running sent opened (acquiring line) http sent)
          http (text "BUSY") (omega arith)
          (refused cfg (at_handler env d) event main port running sent opened line))

  -- With the port open, at most four turns of the reader behind a line that it has read do what the
  -- treatment of the line as a whole does, if the program survives that and nobody else takes or
  -- gives up the lock in between: the owner is the one that it leaves, its answer goes over the line
  -- unless it is empty, and the reader is back at the test of its loop.
  pub reader_line-steps :
      (line response : Bytes) (d d' : Daemon)
      → reader_line env line d ≡ replied d' response
      → (k : ℕ) × (k ≤ 4)
        × (run cfg (at_handler env d) (replicate k (reader_turn event)) (record {
          daemon = record {
            port = port;
            owner = d.owner;
            reader_running = running;
            thread = acquiring line;
            sent = sent;
          };
          main = main;
        })
            ≡ record {
              daemon = record {
                port = port;
                owner = d'.owner;
                reader_running = running;
                thread = testing;
                sent = sent ++ written response;
              };
              main = main;
            })
  reader_line-steps line response d d' h = by_owner d.owner line response d d' h

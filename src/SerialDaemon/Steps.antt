-- ===== src/SerialDaemon/Steps.antt =====
-- The steps of the reader: none blocks for ever, and each comes nearer to the end once the flag is
-- down.
use rk_firmware_flashd.Configuration.{Config}
use rk_firmware_flashd.Lock.{Owner, serial, try_acquire, same_owner}
use rk_firmware_flashd.Prelude.{
  ℕ, ◌-◌, ◌≤◌, ◌≡◌, ◌≢◌, refl, Bool, true, false, not, Option, none, some, arith, if◌then◌else◌,
}
use rk_firmware_flashd.Prelude.Text.{Bytes, is_empty}
use rk_firmware_flashd.SerialDaemon.{
  Thread, no_thread, testing, reading, retesting, reconnecting, busy_reply, finished, hung,
  acquiring, checking, handling, answering, SerialDaemon, Event, goto, read, reconnect, reader_step,
}
use rk_firmware_flashd.SerialPort.Device.{
  SerialPort, Answers, Opening, opened, deadlock, open_port, is_open,
}

-- The steps that the reader is from its end once the flag is down.
abbrev pub steps_left : Thread → ℕ
steps_left no_thread = 0
steps_left finished = 0
steps_left hung = 7
steps_left testing = 1
steps_left retesting = 1
steps_left reconnecting = 2
steps_left busy_reply = 2
steps_left (answering _) = 2
steps_left (handling _) = 3
steps_left (checking _) = 4
steps_left (acquiring _) = 5
steps_left reading = 6

abbrev pub is_hung : Thread → Bool
is_hung hung = true
is_hung _ = false

-- What a step of the reader keeps, and that it comes nearer to the end once the flag is down.
pub record IsStep (before after : SerialDaemon) : Type 0 where
  pub flag : after.reader_running ≡ before.reader_running
  pub free : is_hung after.thread ≡ false
  pub nearer :
      before.reader_running ≡ false → steps_left after.thread ≤ steps_left before.thread - 1

-- The port is opened only where it was seen closed.
open_port-ne-deadlock :
    (answers : Answers) (device : Bytes) (baud_rate : ℕ) (p : SerialPort)
    → is_open p ≡ false
    → open_port answers device baud_rate p ≢ deadlock
unfolding open_port
open_port-ne-deadlock answers device baud_rate p h = rw h (ground arith)

reconnect-IsStep :
    (o : Opening) (d : SerialDaemon)
    → d.thread ≡ reconnecting
    → o ≢ deadlock
    → IsStep d (reconnect o d)
reconnect-IsStep (opened port answer) d at h = record {
  flag = refl;
  free = refl;
  nearer = λ _. rw at (omega arith);
}
reconnect-IsStep deadlock d at h = absurd (h refl)

branch-IsStep :
    (test : Bool) (d x y : SerialDaemon)
    → (test ≡ true → IsStep d x)
    → (test ≡ false → IsStep d y)
    → IsStep d (if test then x else y)
branch-IsStep true d x y h k = h refl
branch-IsStep false d x y h k = k refl

goto-IsStep :
    (t next : Thread) (d : SerialDaemon)
    → d.thread ≡ t
    → is_hung next ≡ false
    → (d.reader_running ≡ false → steps_left next ≤ steps_left t - 1)
    → IsStep d (goto next d)
goto-IsStep t next d at h k = record { flag = refl; free = h; nearer = λ f. rw at (k f) }

either :
    (test : Bool) (x y : Thread) (n : ℕ)
    → (is_hung x ≡ false) × (steps_left x ≤ n)
    → (is_hung y ≡ false) × (steps_left y ≤ n)
    → (is_hung (if test then x else y) ≡ false) × (steps_left (if test then x else y) ≤ n)
either true x y n h k = h
either false x y n h k = k

-- A step that changes the owner too.
choose-IsStep :
    (t : Thread) (owner : Owner) (test : Bool) (x y : Thread) (d : SerialDaemon)
    → d.thread ≡ t
    → (is_hung x ≡ false) × (steps_left x ≤ steps_left t - 1)
    → (is_hung y ≡ false) × (steps_left y ≤ steps_left t - 1)
    → IsStep d (record d { owner = owner; thread = if test then x else y })
choose-IsStep t owner test x y d at h k = record {
  flag = refl;
  free = (either test x y (steps_left t - 1) h k).0;
  nearer = λ _. rw at (either test x y (steps_left t - 1) h k).1;
}

module _ (cfg : Config) (handler : Bytes → Owner → Bytes × Owner) (event : Event) where
  read-IsStep :
      (line : Option Bytes) (d : SerialDaemon) → d.thread ≡ reading → IsStep d (read line d)
  read-IsStep none d at = goto-IsStep reading retesting d at refl (λ _. omega arith)
  read-IsStep (some line) d at =
      branch-IsStep (not (is_open d.port)) d _ _
        (λ _. goto-IsStep reading retesting d at refl (λ _. omega arith))
        (λ _. goto-IsStep reading (acquiring line) d at refl (λ _. omega arith))

  pub reader_step-IsStep :
      (t : Thread) (d : SerialDaemon)
      → d.thread ≡ t
      → is_hung t ≡ false
      → IsStep d (reader_step cfg handler event t d)
  unfolding reader_step
  reader_step-IsStep testing d at h =
      branch-IsStep d.reader_running d _ _ (λ on. goto-IsStep testing reading d at refl (λ off. cc))
        (λ _. goto-IsStep testing finished d at refl (λ _. omega arith))
  reader_step-IsStep reading d at h = read-IsStep event.line d at
  reader_step-IsStep retesting d at h =
      branch-IsStep d.reader_running d _ _
        (λ on. goto-IsStep retesting reconnecting d at refl (λ off. cc))
        (λ _. goto-IsStep retesting finished d at refl (λ _. omega arith))
  reader_step-IsStep reconnecting d at h =
      branch-IsStep (not (is_open d.port)) d _ _
        (λ shut. reconnect-IsStep _ d at (
          open_port-ne-deadlock event.answers cfg.serial_device cfg.baud_rate d.port
            (ground arith)))
        (λ _. goto-IsStep reconnecting testing d at refl (λ _. omega arith))
  reader_step-IsStep (acquiring line) d at h =
      choose-IsStep (acquiring line) _ (try_acquire serial d.owner).1 (handling line)
        (checking line) d at (refl, omega arith) (refl, omega arith)
  reader_step-IsStep (checking line) d at h =
      branch-IsStep (not (same_owner d.owner serial)) d _ _
        (λ _. goto-IsStep (checking line) busy_reply d at refl (λ _. omega arith))
        (λ _. goto-IsStep (checking line) (handling line) d at refl (λ _. omega arith))
  reader_step-IsStep (handling line) d at h =
      choose-IsStep (handling line) _ (not (is_empty (handler line d.owner).0))
        (answering (handler line d.owner).0) testing d at (refl, omega arith) (refl, omega arith)
  reader_step-IsStep busy_reply d at h = record {
    flag = refl;
    free = refl;
    nearer = λ _. rw at (omega arith);
  }
  reader_step-IsStep (answering response) d at h = record {
    flag = refl;
    free = refl;
    nearer = λ _. rw at (omega arith);
  }
  reader_step-IsStep no_thread d at h = record {
    flag = refl;
    free = rw at refl;
    nearer = λ _. rw at (omega arith);
  }
  reader_step-IsStep finished d at h = record {
    flag = refl;
    free = rw at refl;
    nearer = λ _. rw at (omega arith);
  }
  reader_step-IsStep hung d at h = absurd cc

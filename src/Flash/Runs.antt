-- ===== src/Flash/Runs.antt =====
-- A flash operation from its submission on: its thread runs to the end and is polled, or is not.
use rk_firmware_flashd.Flash.{
  Popen, ExitCode, unset, exited, no_thread, created, clocked, reported, finished, FlashOp, replied,
  terminated, collect, advance, worker_step, worker_steps, join, submit, handle_flash,
  handle_flashdone, flash_command, result_text, no_pending_text, timeout_text, is_newline, read_all,
  elapsed_sec,
}
use rk_firmware_flashd.Prelude.{
  ℕ, ◌≤◌, ◌≡◌, refl, ap, ◌∙◌, true, false, Option, none, some, List, [], ◌∷◌, ◌++◌, le→leb,
}
use rk_firmware_flashd.Prelude.Result.{ok}
use rk_firmware_flashd.Prelude.Text.{Bytes, text, trim_end}

-- What the record says of a command that has ended: nothing was run, or its exit status and its
-- output without the line ends behind it.
abbrev pub outcome : Option (List Bytes × ℕ) → ExitCode × Bytes
outcome none = (unset, [])
outcome (some (bufs, status)) = (exited status, trim_end is_newline (read_all [] bufs))

-- No thread to be joined, and none that runs.
abbrev pub IsReady : FlashOp → Type 0
IsReady op = (op.worker ≡ no_thread) × (op.running ≡ false)

abbrev pub submitted : FlashOp → Bytes → FlashOp
submitted op cmd = record op {
  cmd = cmd;
  done = false;
  output = [];
  exit_code = unset;
  worker = created cmd;
}

pub submit-ready :
    (scripts_dir arg cmd : Bytes) (op : FlashOp)
    → IsReady op
    → flash_command scripts_dir arg ≡ ok cmd
    → handle_flash scripts_dir arg op ≡ replied (submitted op cmd) (text "OK submitted: " ++ cmd)
submit-ready scripts_dir arg cmd op (idle, stopped) e =
    unfold handle_flash submit in rw (e, stopped, idle) refl

module _ (popen : Popen) where
  -- The record once the thread has ended.
  abbrev ended : FlashOp → Bytes → ℕ → FlashOp
  ended op cmd clock = record (submitted op cmd) {
    worker = finished;
    running = false;
    done = true;
    exit_code = (outcome (popen cmd)).0;
    output = (outcome (popen cmd)).1;
    start_time = clock;
  }

  finished-steps :
      (times : List ℕ) (op : FlashOp) → op.worker ≡ finished → worker_steps popen times op ≡ op
  unfolding worker_steps worker_step advance
  finished-steps [] op e = refl
  finished-steps (now ∷ times) op e =
      ap (λ worker. worker_steps popen times (advance popen now worker op)) e
      ∙ finished-steps times op e

  pub collected :
      (m : Option (List Bytes × ℕ)) (op : FlashOp)
      → op.output ≡ []
      → op.exit_code ≡ unset
      → collect m op ≡ record op {
        worker = reported;
        done = true;
        exit_code = (outcome m).0;
        output = (outcome m).1;
      }
  unfolding collect
  collected none op o e =
      λ i. record op { worker = reported; done = true; exit_code = e i; output = o i }
  collected (some (bufs, status)) op o e = λ i. record op {
    worker = reported;
    done = true;
    exit_code = exited status;
    output = trim_end is_newline (read_all (o i) bufs);
  }

  run_to_end :
      (op : FlashOp) (cmd : Bytes) (t1 t2 t3 t4 : ℕ) (times : List ℕ)
      → worker_steps popen (t1 ∷ t2 ∷ t3 ∷ t4 ∷ times) (submitted op cmd) ≡ ended op cmd t2
  unfolding worker_steps worker_step advance
  run_to_end op cmd t1 t2 t3 t4 times =
      ap (λ x. worker_steps popen times (advance popen t4 x.worker x))
        (collected (popen cmd)
          (record (submitted op cmd) { worker = clocked cmd; running = true; start_time = t2 }) refl
          refl)
      ∙ finished-steps times (ended op cmd t2) refl

  poll_ended :
      (op : FlashOp) (cmd : Bytes) (clock now : ℕ)
      → handle_flashdone popen now (ended op cmd clock) ≡ (
        record (ended op cmd clock) { worker = no_thread; done = false },
        result_text (outcome (popen cmd)).0 cmd (outcome (popen cmd)).1,
      )
  unfolding handle_flashdone join worker_steps worker_step advance
  poll_ended op cmd clock now = refl

  module _ (scripts_dir arg cmd : Bytes) (op : FlashOp) (times : List ℕ) (t1 t2 t3 t4 : ℕ)
      (given : flash_command scripts_dir arg ≡ ok cmd) where
    -- With no thread left over and none that runs, a command that AT+FLASH accepts is run once its
    -- thread has made four steps, at whatever times and with however many more, and the next
    -- AT+TRYFLASHDONE answers with its exit status and output; then again no thread is left and
    -- none runs, and nothing is pending.
    pub flash_reported :
        IsReady op
        → (now : ℕ)
        → let op' = worker_steps popen (t1 ∷ t2 ∷ t3 ∷ t4 ∷ times) (submitted op cmd) in
          (handle_flash scripts_dir arg op
            ≡ replied (submitted op cmd) (text "OK submitted: " ++ cmd))
          × ((handle_flashdone popen now op').1
              ≡ result_text (outcome (popen cmd)).0 cmd (outcome (popen cmd)).1)
          × IsReady (handle_flashdone popen now op').0
          × ((handle_flashdone popen now op').0.done ≡ false)
    flash_reported ready now = (
      submit-ready scripts_dir arg cmd op ready given,
      ap (λ x. (handle_flashdone popen now x).1) end ∙ ap (λ x. x.1) poll,
      (
        ap (λ x. (handle_flashdone popen now x).0.worker) end ∙ ap (λ x. x.0.worker) poll,
        ap (λ x. (handle_flashdone popen now x).0.running) end ∙ ap (λ x. x.0.running) poll,
      ),
      ap (λ x. (handle_flashdone popen now x).0.done) end ∙ ap (λ x. x.0.done) poll,
    )
      where
        end : worker_steps popen (t1 ∷ t2 ∷ t3 ∷ t4 ∷ times) (submitted op cmd) ≡ ended op cmd t2
        end = run_to_end op cmd t1 t2 t3 t4 times

        poll : handle_flashdone popen now (ended op cmd t2) ≡ (
          record (ended op cmd t2) { worker = no_thread; done = false },
          result_text (outcome (popen cmd)).0 cmd (outcome (popen cmd)).1,
        )
        poll = poll_ended op cmd t2 now

    -- From a record whose flag `running` is not set: if AT+FLASH accepts a second command before
    -- the first has been polled, with its thread at its end or not yet begun, the program is
    -- terminated.
    pub flash_resubmitted :
        (arg' cmd' : Bytes)
        → flash_command scripts_dir arg' ≡ ok cmd'
        → op.running ≡ false
        → (handle_flash scripts_dir arg'
              (worker_steps popen (t1 ∷ t2 ∷ t3 ∷ t4 ∷ times) (submitted op cmd))
            ≡ terminated)
          × (handle_flash scripts_dir arg' (submitted op cmd) ≡ terminated)
    unfolding handle_flash submit
    flash_resubmitted arg' cmd' e stopped =
        (rw (run_to_end op cmd t1 t2 t3 t4 times, e) refl, rw (e, stopped) refl)

    -- With no thread left over and none that runs, AT+TRYFLASHDONE right behind an accepted
    -- AT+FLASH finds nothing pending until the thread has begun; and until the thread has read the
    -- clock, if 60 seconds have passed since the start of the operation before, the answer is
    -- TIMEOUT.
    pub flash_polled_early :
        IsReady op
        → (now now' : ℕ) → 60 ≤ elapsed_sec now' op
        → (handle_flashdone popen now (submitted op cmd) ≡ (submitted op cmd, no_pending_text))
          × ((handle_flashdone popen now' (worker_step popen now (submitted op cmd))).1
              ≡ timeout_text)
    unfolding handle_flashdone worker_step advance
    flash_polled_early (idle, stopped) now now' late =
        (rw stopped refl, rw (le→leb 60 (elapsed_sec now' op) late) refl)

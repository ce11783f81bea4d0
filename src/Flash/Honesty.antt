-- ===== src/Flash/Honesty.antt =====
-- What AT+TRYFLASHDONE tells of a command, after any interleaving of commands and thread steps.
use rk_firmware_flashd.Flash.{
  Popen, Worker, no_thread, created, marked, clocked, reported, finished, FlashOp, replied,
  worker_step, submit, handle_flash, init, joinable, handle_flashdone, flash_command, result_text,
  elapsed_sec, cancel, join_if_joinable,
}
use rk_firmware_flashd.Flash.Runs.{outcome, submitted}
use rk_firmware_flashd.Prelude.{
  ℕ, ◌≡◌, refl, sym, subst, true, false, arith, leb, Bool-cases, ◌⊎◌, inl, inr,
}
use rk_firmware_flashd.Prelude.Result.{Result, ok, err}
use rk_firmware_flashd.Prelude.Text.{Bytes}
use rk_firmware_flashd.Flash.Phases.{
  Reports, Fits, IsHonest, worker_step-IsHonest, cancel-IsHonest, no_thread_left, running-joinable,
  idle-IsHonest,
}

module _ (popen : Popen) where
  -- A history of commands and thread steps in which the program is not terminated.
  pub data History : FlashOp → Type 0 where
    begin : History init
    submits :
        {op op' : FlashOp}
        → History op
        → (scripts_dir arg reply : Bytes) → handle_flash scripts_dir arg op ≡ replied op' reply
        → History op'
    polls : {op : FlashOp} → History op → (now : ℕ) → History (handle_flashdone popen now op).0
    works : {op : FlashOp} → History op → (now : ℕ) → History (worker_step popen now op)

  abbrev closed_poll : ℕ → FlashOp → FlashOp
  closed_poll now op = record (join_if_joinable popen now op) { running = false; done = false }

  -- What a poll leaves: the record as it was, or without its thread.
  poll_cases :
      (now : ℕ) (op : FlashOp)
      → ((handle_flashdone popen now op).0 ≡ op)
        ⊎ ((op.running ≡ true) × ((handle_flashdone popen now op).0 ≡ cancel popen now op))
        ⊎ ((handle_flashdone popen now op).0 ≡ closed_poll now op)
  unfolding handle_flashdone
  poll_cases now op = elim (Bool-cases op.done) [
    | inl done ↦ inr (inr (ground arith))
    | inr pending ↦ elim (Bool-cases op.running) [
      | inr stopped ↦ inl (ground arith)
      | inl runs ↦ elim (Bool-cases (leb 60 (elapsed_sec now op))) [
        | inl late ↦ inr (inl (runs, ground arith))
        | inr early ↦ inl (ground arith)
      ]
    ]
  ]

  poll-IsHonest :
      (now : ℕ) (op : FlashOp)
      → IsHonest popen op
      → IsHonest popen (handle_flashdone popen now op).0
  poll-IsHonest now op s = elim (poll_cases now op) [
    | inl same ↦ subst (IsHonest popen) (sym same) s
    | inr (inl (runs, given)) ↦
        subst (IsHonest popen) (sym given)
          (cancel-IsHonest popen now op s (running-joinable popen op.worker op s runs))
    | inr (inr closed) ↦ subst (IsHonest popen) (sym closed) (
        idle-IsHonest popen (closed_poll now op) (no_thread_left popen now op.worker op refl) refl
          (λ e. cc))
  ]

  submit_cases :
      (m : Result Bytes Bytes) (op op' : FlashOp) (reply : Bytes)
      → submit op m ≡ replied op' reply
      → (op' ≡ op) ⊎ ((cmd : Bytes) × (op' ≡ submitted op cmd) × (op.running ≡ false))
  unfolding submit
  submit_cases (err e) op op' reply q = inl cc
  submit_cases (ok cmd) op op' reply q = elim (Bool-cases op.running) [
    | inl runs ↦ inl (ground arith)
    | inr stopped ↦ elim (Bool-cases (joinable op.worker)) [
      | inl busy ↦ inl (ground arith)
      | inr free ↦ inr (cmd, ground arith, stopped)
    ]
  ]

  submit-IsHonest :
      (m : Result Bytes Bytes) (op op' : FlashOp) (reply : Bytes)
      → IsHonest popen op
      → submit op m ≡ replied op' reply
      → IsHonest popen op'
  submit-IsHonest m op op' reply s q = elim (submit_cases m op op' reply q) [
    | inl same ↦ subst (IsHonest popen) (sym same) s
    | inr (cmd, new, stopped) ↦ subst (IsHonest popen) (sym new) (record {
      same_cmd = refl;
      runs = stopped;
      not_done = refl;
      no_output = refl;
      no_exit = refl;
    })
  ]

  History-IsHonest : {op : FlashOp} → History op → IsHonest popen op
  History-IsHonest begin = (refl, λ e. cc)
  History-IsHonest (submits {op} {op'} h scripts_dir arg reply e) =
      submit-IsHonest (flash_command scripts_dir arg) op op' reply (History-IsHonest h)
        (unfold handle_flash in e)
  History-IsHonest (polls {op} h now) = poll-IsHonest now op (History-IsHonest h)
  History-IsHonest (works {op} h now) = worker_step-IsHonest popen now op (History-IsHonest h)

  done-Reports :
      (worker : Worker) (op : FlashOp) → Fits popen worker op → op.done ≡ true → Reports popen op
  done-Reports no_thread op (stopped, r) e = r e
  done-Reports (created cmd) op s e = absurd (ground (arith, s.not_done))
  done-Reports (marked cmd) op s e = absurd (ground (arith, s.not_done))
  done-Reports (clocked cmd) op s e = absurd (ground (arith, s.not_done))
  done-Reports reported op (runs, done, r) e = r
  done-Reports finished op (stopped, done, r) e = r

  -- After any interleaving of AT+FLASH, AT+TRYFLASHDONE and steps of the thread: once an operation
  -- is done, a poll answers with the exit status and the output of the command that was submitted
  -- last.
  pub poll_tells_outcome :
      {op : FlashOp}
      → History op
      → (now : ℕ) → op.done ≡ true
      → (handle_flashdone popen now op).1
        ≡ result_text (outcome (popen op.cmd)).0 op.cmd (outcome (popen op.cmd)).1
  unfolding handle_flashdone
  poll_tells_outcome {op} h now done =
      ground (arith, done-Reports op.worker op (History-IsHonest h) done)

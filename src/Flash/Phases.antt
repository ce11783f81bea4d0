-- ===== src/Flash/Phases.antt =====
-- What the flags of the flash operation say in each phase of its thread, and that the thread and a
-- time-out keep it so.
use rk_firmware_flashd.Flash.{
  Popen, unset, Worker, no_thread, created, marked, clocked, reported, finished, FlashOp, collect,
  advance, worker_step, worker_steps, join, joinable, cancel,
}
use rk_firmware_flashd.Flash.Runs.{outcome, collected}
use rk_firmware_flashd.Prelude.{
  ℕ, ◌≡◌, refl, sym, ap, subst, ◌∙◌, true, false, Bool, Option, none, some, List, [], ◌∷◌,
  if◌then◌else◌,
}
use rk_firmware_flashd.Prelude.Text.{Bytes}

module _ (popen : Popen) where
  abbrev pub Reports : FlashOp → Type 0
  Reports op =
      (op.exit_code ≡ (outcome (popen op.cmd)).0) × (op.output ≡ (outcome (popen op.cmd)).1)

  -- Where nothing has been collected yet.
  pub record Pending (cmd : Bytes) (running : Bool) (op : FlashOp) : Type 0 where
    pub same_cmd : cmd ≡ op.cmd
    pub runs : op.running ≡ running
    pub not_done : op.done ≡ false
    pub no_output : op.output ≡ []
    pub no_exit : op.exit_code ≡ unset

  -- What the two flags say in each phase of the thread.
  abbrev pub Fits : Worker → FlashOp → Type 0
  Fits no_thread op = (op.running ≡ false) × (op.done ≡ true → Reports op)
  Fits (created cmd) op = Pending cmd false op
  Fits (marked cmd) op = Pending cmd true op
  Fits (clocked cmd) op = Pending cmd true op
  Fits reported op = (op.running ≡ true) × (op.done ≡ true) × Reports op
  Fits finished op = (op.running ≡ false) × (op.done ≡ true) × Reports op

  abbrev pub IsHonest : FlashOp → Type 0
  IsHonest op = Fits op.worker op

  collect-Fits :
      (cmd : Bytes) (op : FlashOp) → Pending cmd true op → IsHonest (collect (popen cmd) op)
  collect-Fits cmd op p =
      subst IsHonest (sym (collected popen (popen cmd) op p.no_output p.no_exit)) (
        p.runs,
        refl,
        (ap (λ c. (outcome (popen c)).0) p.same_cmd, ap (λ c. (outcome (popen c)).1) p.same_cmd),
      )

  advance-IsHonest :
      (now : ℕ) (worker : Worker) (op : FlashOp)
      → op.worker ≡ worker
      → Fits worker op
      → IsHonest (advance popen now worker op)
  unfolding advance
  advance-IsHonest now no_thread op e s = rw e s
  advance-IsHonest now (created cmd) op e s = record {
    same_cmd = s.same_cmd;
    runs = refl;
    not_done = s.not_done;
    no_output = s.no_output;
    no_exit = s.no_exit;
  }
  advance-IsHonest now (marked cmd) op e s = record {
    same_cmd = s.same_cmd;
    runs = s.runs;
    not_done = s.not_done;
    no_output = s.no_output;
    no_exit = s.no_exit;
  }
  advance-IsHonest now (clocked cmd) op e s = collect-Fits cmd op s
  advance-IsHonest now reported op e (runs, done, r) = (refl, done, r)
  advance-IsHonest now finished op e s = rw e s

  pub worker_step-IsHonest :
      (now : ℕ) (op : FlashOp) → IsHonest op → IsHonest (worker_step popen now op)
  unfolding worker_step
  worker_step-IsHonest now op s = advance-IsHonest now op.worker op refl s

  next : Worker → Worker
  next no_thread = no_thread
  next (created cmd) = marked cmd
  next (marked cmd) = clocked cmd
  next (clocked cmd) = reported
  next reported = finished
  next finished = finished

  collect-next : (m : Option (List Bytes × ℕ)) (op : FlashOp) → (collect m op).worker ≡ reported
  unfolding collect
  collect-next none op = refl
  collect-next (some (bufs, status)) op = refl

  advance-next :
      (now : ℕ) (worker : Worker) (op : FlashOp)
      → op.worker ≡ worker
      → (advance popen now worker op).worker ≡ next worker
  unfolding advance next
  advance-next now no_thread op e = e
  advance-next now (created cmd) op e = refl
  advance-next now (marked cmd) op e = refl
  advance-next now (clocked cmd) op e = collect-next (popen cmd) op
  advance-next now reported op e = refl
  advance-next now finished op e = e

  worker_step-next : (now : ℕ) (op : FlashOp) → (worker_step popen now op).worker ≡ next op.worker
  unfolding worker_step
  worker_step-next now op = advance-next now op.worker op refl

  four_steps :
      (worker : Worker) → joinable worker ≡ true → next (next (next (next worker))) ≡ finished
  unfolding next
  four_steps no_thread h = cc
  four_steps (created cmd) h = refl
  four_steps (marked cmd) h = refl
  four_steps (clocked cmd) h = refl
  four_steps reported h = refl
  four_steps finished h = refl

  -- A thread that is joined has reached its end.
  worker_steps-finished :
      (now : ℕ) (op : FlashOp)
      → joinable op.worker ≡ true
      → (worker_steps popen (now ∷ now ∷ now ∷ now ∷ []) op).worker ≡ finished
  unfolding worker_steps
  worker_steps-finished now op h =
      worker_step-next now _
      ∙ ap next (
          worker_step-next now _
          ∙ ap next (worker_step-next now _ ∙ ap next (worker_step-next now op)))
      ∙ four_steps op.worker h

  worker_steps-IsHonest :
      (times : List ℕ) (op : FlashOp) → IsHonest op → IsHonest (worker_steps popen times op)
  unfolding worker_steps
  worker_steps-IsHonest [] op s = s
  worker_steps-IsHonest (now ∷ times) op s =
      worker_steps-IsHonest times (worker_step popen now op) (worker_step-IsHonest now op s)

  join-Reports :
      (now : ℕ) (op : FlashOp)
      → IsHonest op
      → joinable op.worker ≡ true
      → Reports (join popen now op)
  unfolding join
  join-Reports now op s h =
      let (runs, done, reports) =
        subst (λ w. Fits w (worker_steps popen (now ∷ now ∷ now ∷ now ∷ []) op))
          (worker_steps-finished now op h)
          (worker_steps-IsHonest (now ∷ now ∷ now ∷ now ∷ []) op s) in
      reports

  -- Behind `if (worker.joinable()) worker.join();` there is no thread.
  pub no_thread_left :
      (now : ℕ) (worker : Worker) (op : FlashOp)
      → op.worker ≡ worker
      → (if joinable worker then join popen now op else op).worker ≡ no_thread
  unfolding join
  no_thread_left now no_thread op e = e
  no_thread_left now (created cmd) op e = refl
  no_thread_left now (marked cmd) op e = refl
  no_thread_left now (clocked cmd) op e = refl
  no_thread_left now reported op e = refl
  no_thread_left now finished op e = refl

  pub idle-IsHonest :
      (op : FlashOp)
      → op.worker ≡ no_thread
      → op.running ≡ false
      → (op.done ≡ true → Reports op)
      → IsHonest op
  idle-IsHonest op e stopped r = subst (λ w. Fits w op) (sym e) (stopped, r)

  pub cancel-IsHonest :
      (now : ℕ) (op : FlashOp)
      → IsHonest op
      → joinable op.worker ≡ true
      → IsHonest (cancel popen now op)
  cancel-IsHonest now op s h =
      idle-IsHonest (cancel popen now op) (no_thread_left now op.worker op refl) refl
        (λ _. subst Reports (sym joined) (join-Reports now op s h))
    where
      joined : (if joinable op.worker then join popen now op else op) ≡ join popen now op
      joined = rw h refl

  -- A thread that runs is joinable.
  pub running-joinable :
      (worker : Worker) (op : FlashOp) → Fits worker op → op.running ≡ true → joinable worker ≡ true
  running-joinable no_thread op (stopped, r) e = cc
  running-joinable (created cmd) op s e = refl
  running-joinable (marked cmd) op s e = refl
  running-joinable (clocked cmd) op s e = refl
  running-joinable reported op s e = refl
  running-joinable finished op s e = refl

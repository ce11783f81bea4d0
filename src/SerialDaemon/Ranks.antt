-- ===== src/SerialDaemon/Ranks.antt =====
-- The steps of the main thread that are left, until the flag is down and until its end.
use rk_firmware_flashd.Prelude.{
  ℕ, ◌+◌, ◌-◌, ◌≤◌, ◌≡◌, refl, ◌∙◌, inl, inr, Bool, true, false, arith, Bool-cases,
}
use rk_firmware_flashd.SerialDaemon.{
  Thread, no_thread, testing, reading, retesting, reconnecting, busy_reply, finished, hung,
  acquiring, checking, handling, answering, SerialDaemon, Caller, by_main, by_stop, MainPhase,
  asking, storing, closing, joining, shutting, freeing, stopped, returned, asked, join, main_step,
}
use rk_firmware_flashd.SerialDaemon.Phases.{Inv}
use rk_firmware_flashd.SerialDaemon.Steps.{steps_left, is_hung}

abbrev pub to_clear : MainPhase → Bool → ℕ
to_clear main false = 0
to_clear (asking caller) true = 2
to_clear (storing caller) true = 1
to_clear _ true = 0

abbrev caller_rank : Caller → ℕ
caller_rank by_main = 6
caller_rank by_stop = 2

abbrev pub rank : MainPhase → ℕ
rank (asking caller) = caller_rank caller + 4
rank (storing caller) = caller_rank caller + 3
rank (closing caller) = caller_rank caller + 2
rank (joining caller) = caller_rank caller + 1
rank shutting = 2
rank freeing = 1
rank stopped = 0

clear_asked :
    (caller : Caller) (running : Bool)
    → to_clear (asked caller running) running ≤ to_clear (asking caller) running - 1
clear_asked caller true = omega arith
clear_asked caller false = omega arith

join_step :
    (caller : Caller) (t : Thread) (d : SerialDaemon)
    → d.thread ≡ t
    → ((join caller t d).0.reader_running ≡ d.reader_running)
      × (steps_left (join caller t d).0.thread ≤ steps_left d.thread)
join_step caller no_thread d at = (refl, omega arith)
join_step caller finished d at = (refl, omega arith)
join_step caller testing d at = (refl, omega arith)
join_step caller reading d at = (refl, omega arith)
join_step caller retesting d at = (refl, omega arith)
join_step caller reconnecting d at = (refl, omega arith)
join_step caller busy_reply d at = (refl, omega arith)
join_step caller hung d at = (refl, omega arith)
join_step caller (acquiring line) d at = (refl, omega arith)
join_step caller (checking line) d at = (refl, omega arith)
join_step caller (handling line) d at = (refl, omega arith)
join_step caller (answering response) d at = (refl, omega arith)

pub clear_step :
    (main : MainPhase) (d : SerialDaemon)
    → Inv main d
    → to_clear (main_step main d).1 (main_step main d).0.reader_running
      ≤ to_clear main d.reader_running - 1
unfolding main_step
clear_step (asking caller) d h = clear_asked caller d.reader_running
clear_step (storing caller) d h = omega arith
clear_step (closing caller) d h = rw h.1 (omega arith)
clear_step (joining caller) d h = rw ((join_step caller d.thread d refl).0 ∙ h.1) (omega arith)
clear_step shutting d h = rw h.1 (omega arith)
clear_step freeing d h = rw h.1 (omega arith)
clear_step stopped d h = rw h.1 (omega arith)

pub flag_step :
    (main : MainPhase) (d : SerialDaemon)
    → d.reader_running ≡ false
    → ((main_step main d).0.reader_running ≡ false)
      × (steps_left (main_step main d).0.thread ≤ steps_left d.thread)
unfolding main_step
flag_step (asking caller) d h = (h, omega arith)
flag_step (storing caller) d h = (refl, omega arith)
flag_step (closing caller) d h = (h, omega arith)
flag_step (joining caller) d h = let j = join_step caller d.thread d refl in (j.0 ∙ h, j.1)
flag_step shutting d h = (h, omega arith)
flag_step freeing d h = (h, omega arith)
flag_step stopped d h = (h, omega arith)

rank-returned : (caller : Caller) → rank (returned caller) ≤ rank (asking caller) - 1
rank-returned by_main = omega arith
rank-returned by_stop = omega arith

rank-joined : (caller : Caller) → rank (returned caller) ≤ rank (joining caller) - 1
rank-joined by_main = omega arith
rank-joined by_stop = omega arith

rank-join :
    (caller : Caller) (t : Thread) (d : SerialDaemon)
    → steps_left t ≡ 0
    → rank (join caller t d).1 ≤ rank (joining caller) - 1
rank-join caller no_thread d done = rank-joined caller
rank-join caller finished d done = rank-joined caller
rank-join caller testing d done = absurd (omega arith)
rank-join caller reading d done = absurd (omega arith)
rank-join caller retesting d done = absurd (omega arith)
rank-join caller reconnecting d done = absurd (omega arith)
rank-join caller busy_reply d done = absurd (omega arith)
rank-join caller hung d done = absurd (omega arith)
rank-join caller (acquiring line) d done = absurd (omega arith)
rank-join caller (checking line) d done = absurd (omega arith)
rank-join caller (handling line) d done = absurd (omega arith)
rank-join caller (answering response) d done = absurd (omega arith)

pub rank_step :
    (main : MainPhase) (d : SerialDaemon)
    → Inv main d
    → d.reader_running ≡ false
    → steps_left d.thread ≡ 0
    → rank (main_step main d).1 ≤ rank main - 1
unfolding main_step
rank_step (asking caller) d h off done = rw off (rank-returned caller)
rank_step (storing caller) d h off done = omega arith
rank_step (closing caller) d h off done = omega arith
rank_step (joining caller) d h off done = rank-join caller d.thread d done
rank_step shutting d h off done = omega arith
rank_step freeing d h off done = omega arith
rank_step stopped d h off done = omega arith

-- Where a potential is 0.
pub cleared_lem :
    (main : MainPhase) (d : SerialDaemon)
    → Inv main d
    → to_clear main d.reader_running ≡ 0
    → d.reader_running ≡ false
cleared_lem (asking caller) d h e = elim (Bool-cases d.reader_running) [
  | inl on ↦ absurd (clash on e)
  | inr off ↦ off
]
  where
    clash : {b : Bool} → b ≡ true → to_clear (asking caller) b ≡ 0 → ⊥
    clash {b} on e = ground arith
cleared_lem (storing caller) d h e = elim (Bool-cases d.reader_running) [
  | inl on ↦ absurd (clash on e)
  | inr off ↦ off
]
  where
    clash : {b : Bool} → b ≡ true → to_clear (storing caller) b ≡ 0 → ⊥
    clash {b} on e = ground arith
cleared_lem (closing caller) d h e = h.1
cleared_lem (joining caller) d h e = h.1
cleared_lem shutting d h e = h.1
cleared_lem freeing d h e = h.1
cleared_lem stopped d h e = h.1

pub stopped_lem :
    (main : MainPhase) (d : SerialDaemon)
    → Inv main d
    → rank main ≡ 0
    → (main ≡ stopped) × Inv stopped d
stopped_lem (asking caller) d h e = absurd (omega arith)
stopped_lem (storing caller) d h e = absurd (omega arith)
stopped_lem (closing caller) d h e = absurd (omega arith)
stopped_lem (joining caller) d h e = absurd (omega arith)
stopped_lem shutting d h e = absurd (omega arith)
stopped_lem freeing d h e = absurd (omega arith)
stopped_lem stopped d h e = (refl, h)

-- Bounds of the potentials.
pub steps_left-le : (t : Thread) → is_hung t ≡ false → steps_left t ≤ 6
steps_left-le hung h = absurd cc
steps_left-le no_thread h = omega arith
steps_left-le finished h = omega arith
steps_left-le testing h = omega arith
steps_left-le reading h = omega arith
steps_left-le retesting h = omega arith
steps_left-le reconnecting h = omega arith
steps_left-le busy_reply h = omega arith
steps_left-le (acquiring line) h = omega arith
steps_left-le (checking line) h = omega arith
steps_left-le (handling line) h = omega arith
steps_left-le (answering response) h = omega arith

caller_rank-le : (caller : Caller) → caller_rank caller ≤ 6
caller_rank-le by_main = omega arith
caller_rank-le by_stop = omega arith

pub rank-le : (main : MainPhase) → rank main ≤ 10
rank-le (asking caller) = omega (arith, caller_rank-le caller)
rank-le (storing caller) = omega (arith, caller_rank-le caller)
rank-le (closing caller) = omega (arith, caller_rank-le caller)
rank-le (joining caller) = omega (arith, caller_rank-le caller)
rank-le shutting = omega arith
rank-le freeing = omega arith
rank-le stopped = omega arith

pub asking-to_clear : (caller : Caller) (running : Bool) → to_clear (asking caller) running ≤ 2
asking-to_clear caller true = omega arith
asking-to_clear caller false = omega arith

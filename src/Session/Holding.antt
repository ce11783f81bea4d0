-- ===== src/Session/Holding.antt =====
-- Who may act: a side that finds the lock free or its own takes or keeps it; the other is refused.
use rk_firmware_flashd.Command.{
  Daemon, Action, status, version, reset, forcereset, help, flash, tryflashdone, exec, reboot,
  verify, preupload, upload, uploaddone, uploadcancel, unknown, action_of, on_flash, perform,
  perform_parsed, process,
}
use rk_firmware_flashd.Command.Local.{Surroundings}
use rk_firmware_flashd.Command.Parse.{parse_at, trim, is_at}
use rk_firmware_flashd.Flash.{FlashOp, Outcome, replied, terminated, handle_flash}
use rk_firmware_flashd.Lock.{Owner, no_owner, http, serial}
use rk_firmware_flashd.Prelude.{
  ◌≡◌, ◌≢◌, ◌⊎◌, inl, inr, refl, sym, ap, subst, ◌∙◌, Bool, Bool-cases, true, false, Option, none,
  some, [], arith,
}
use rk_firmware_flashd.Prelude.Text.{Bytes, text}
use rk_firmware_flashd.Upload.{World}
use rk_firmware_flashd.Session.{HttpReply, busy, respond, bypass_lock, run_command, reader_line}

-- A command that comes by HTTP and does not bypass the check is refused, with no change, while the
-- serial side holds the lock, and is processed with HTTP as the owner otherwise. A line from the
-- serial side is answered BUSY, with no change, while HTTP holds the lock, and is processed with
-- the serial side as the owner otherwise.
pub sides_excluded :
    (env : Surroundings) (cmd line : Bytes) (d : Daemon)
    → bypass_lock cmd ≡ false
    → (((d.owner ≡ serial) × (run_command env cmd d ≡ (replied d [], busy)))
        ⊎ ((d.owner ≢ serial)
            × (run_command env cmd d ≡ respond (process env http cmd (record d { owner = http })))))
      × (((d.owner ≡ http) × (reader_line env line d ≡ replied d (text "BUSY")))
          ⊎ ((d.owner ≢ http)
              × (reader_line env line d ≡ process env serial line (record d { owner = serial }))))
sides_excluded env cmd line d checked =
    (by_http d.owner d.world d.flash, by_serial d.owner d.world d.flash)
  where
    by_http :
        (owner : Owner) (world : World) (op : FlashOp)
        → let d : Daemon = record { owner = owner; world = world; flash = op } in
          ((owner ≡ serial) × (run_command env cmd d ≡ (replied d [], busy)))
          ⊎ ((owner ≢ serial)
              × (run_command env cmd d
                  ≡ respond (process env http cmd (record d { owner = http }))))
    by_http serial world op = inl (refl, rw checked refl)
    by_http http world op = inr ((λ e. cc), rw checked refl)
    by_http no_owner world op = inr ((λ e. cc), rw checked refl)

    by_serial :
        (owner : Owner) (world : World) (op : FlashOp)
        → let d : Daemon = record { owner = owner; world = world; flash = op } in
          ((owner ≡ http) × (reader_line env line d ≡ replied d (text "BUSY")))
          ⊎ ((owner ≢ http)
              × (reader_line env line d ≡ process env serial line (record d { owner = serial })))
    by_serial http world op = inl (refl, refl)
    by_serial serial world op = inr ((λ e. cc), refl)
    by_serial no_owner world op = inr ((λ e. cc), refl)

on_flash-owner :
    (d d' : Daemon) (o : Outcome FlashOp) (reply : Bytes)
    → on_flash d o ≡ replied d' reply
    → d'.owner ≡ d.owner
on_flash-owner d d' (replied op answer') reply e = cc
on_flash-owner d d' terminated reply e = cc

-- No command but AT+RESET and AT+FORCERESET touches the lock.
perform-owner :
    (env : Surroundings) (caller : Owner) (a : Action) (action arg : Bytes) (d d' : Daemon)
    (reply : Bytes)
    → a ≢ reset
    → a ≢ forcereset
    → perform env caller a action arg d ≡ replied d' reply
    → d'.owner ≡ d.owner
unfolding perform
perform-owner env caller status action arg d d' reply p q e = cc
perform-owner env caller version action arg d d' reply p q e = cc
perform-owner env caller reset action arg d d' reply p q e = absurd (p refl)
perform-owner env caller forcereset action arg d d' reply p q e = absurd (q refl)
perform-owner env caller help action arg d d' reply p q e = cc
perform-owner env caller flash action arg d d' reply p q e =
    on_flash-owner d d' (handle_flash env.scripts_dir arg d.flash) reply e
perform-owner env caller tryflashdone action arg d d' reply p q e = cc
perform-owner env caller exec action arg d d' reply p q e = cc
perform-owner env caller reboot action arg d d' reply p q e = cc
perform-owner env caller verify action arg d d' reply p q e = cc
perform-owner env caller preupload action arg d d' reply p q e = cc
perform-owner env caller upload action arg d d' reply p q e = cc
perform-owner env caller uploaddone action arg d d' reply p q e = cc
perform-owner env caller uploadcancel action arg d d' reply p q e = cc
perform-owner env caller unknown action arg d d' reply p q e = cc

replied-owner :
    (d d' : Daemon) (first second : Bytes)
    → replied d first ≡ replied d' second
    → d'.owner ≡ d.owner
replied-owner d d' first second e = cc

-- Whether what was parsed is AT+RESET or AT+FORCERESET.
abbrev pub is_reset : Action → Bool
is_reset reset = true
is_reset forcereset = true
is_reset _ = false

abbrev pub parsed_reset : Option (Bytes × Bytes) → Bool
parsed_reset none = false
parsed_reset (some (action, arg)) = is_reset (action_of action)

is_reset-ne : (a b : Action) → is_reset a ≡ false → is_reset b ≡ true → a ≢ b
is_reset-ne a b p q e = ground (arith, ap is_reset e)

perform_parsed-owner :
    (env : Surroundings) (caller : Owner) (m : Option (Bytes × Bytes)) (d d' : Daemon)
    (reply : Bytes)
    → parsed_reset m ≡ false
    → perform_parsed env caller m d ≡ replied d' reply
    → d'.owner ≡ d.owner
perform_parsed-owner env caller none d d' reply p e = cc
perform_parsed-owner env caller (some (action, arg)) d d' reply p e =
    perform-owner env caller (action_of action) action arg d d' reply
      (is_reset-ne (action_of action) reset p refl)
      (is_reset-ne (action_of action) forcereset p refl) e

pub process-owner :
    (env : Surroundings) (caller : Owner) (cmd : Bytes) (d d' : Daemon) (reply : Bytes)
    → parsed_reset (parse_at (trim cmd)) ≡ false
    → process env caller cmd d ≡ replied d' reply
    → d'.owner ≡ d.owner
unfolding process
process-owner env caller cmd d d' reply p e = elim (Bool-cases (is_at (trim cmd))) [
  | inl at ↦ perform_parsed-owner env caller (parse_at (trim cmd)) d d' reply p (rw at at e)
  | inr other ↦ replied-owner d d' _ reply (rw other at e)
]

respond-replied :
    (o : Outcome Daemon) (d : Daemon) (reply : Bytes) (response : HttpReply)
    → respond o ≡ (replied d reply, response)
    → o ≡ replied d reply
respond-replied (replied d' reply') d reply response e = ap (λ x. x.0) e
respond-replied terminated d reply response e = ap (λ x. x.0) e

pub reader_busy :
    (env : Surroundings) (line : Bytes) (d : Daemon)
    → d.owner ≡ http
    → reader_line env line d ≡ replied d (text "BUSY")
reader_busy env line d e =
    subst
      (λ owner.
        reader_line env line (record d { owner = owner })
        ≡ replied (record d { owner = owner }) (text "BUSY"))
      (sym e) refl

-- A command that comes by HTTP while the serial side does not hold the lock, and that is neither
-- AT+RESET nor AT+FORCERESET, leaves HTTP as the owner if the program survives it: then any line
-- from the serial side is answered BUSY and changes nothing.
pub session_kept :
    (env : Surroundings) (cmd line : Bytes) (d d' : Daemon) (reply : Bytes) (response : HttpReply)
    → bypass_lock cmd ≡ false
    → parsed_reset (parse_at (trim cmd)) ≡ false
    → d.owner ≢ serial
    → run_command env cmd d ≡ (replied d' reply, response)
    → (d'.owner ≡ http) × (reader_line env line d' ≡ replied d' (text "BUSY"))
session_kept env cmd line d d' reply response checked p free e =
    elim (sides_excluded env cmd line d checked).0 [
      | inl (owns, refused) ↦ absurd (free owns)
      | inr (other, run) ↦
          let kept : d'.owner ≡ http =
            process-owner env http cmd (record d { owner = http }) d' reply p
              (respond-replied (process env http cmd (record d { owner = http })) d' reply response
                (sym run ∙ e)) in
          (kept, reader_busy env line d' kept)
    ]

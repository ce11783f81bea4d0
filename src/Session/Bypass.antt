-- ===== src/Session/Bypass.antt =====
-- Commands that reach the processor although the other side holds the lock.
use rk_firmware_flashd.Command.{Daemon, forcereset, action_of, perform, process}
use rk_firmware_flashd.Command.Local.{Surroundings}
use rk_firmware_flashd.Command.Parse.{parse_at, trim, is_at}
use rk_firmware_flashd.Flash.{replied}
use rk_firmware_flashd.Lock.{no_owner, http, serial}
use rk_firmware_flashd.Prelude.{◌≡◌, inl, inr, refl, true, false, some, [], ◌∷◌}
use rk_firmware_flashd.Prelude.Text.{Bytes, text, find_from}
use rk_firmware_flashd.Session.Holding.{sides_excluded}
use rk_firmware_flashd.Session.{action_text, bypass_lock, busy, run_command}

-- A name, then nothing or an argument.
pub data IsTail : Bytes → Type 0 where
  nothing : IsTail []
  argument : (arg : Bytes) → IsTail (b'=' ∷ arg)

abbrev reset_name : Bytes
reset_name = text "RESET"

abbrev force_name : Bytes
force_name = text "FORCERESET"

name_of : Bytes → Bytes
name_of cmd = action_text cmd (find_from cmd b'=' 3)

-- What AT+RESET of HTTP answers where HTTP is not the owner.
abbrev pub not_owner : Bytes
not_owner = text "ERROR: only the lock owner can reset"

-- A command that the processor takes for AT+FORCERESET, but that the check does not know, since it
-- compares the text as it came, is refused by HTTP while the serial side holds the lock; the
-- processor would have released it.
forcereset_refused :
    (env : Surroundings) (cmd action arg : Bytes) (d : Daemon)
    → d.owner ≡ serial
    → bypass_lock cmd ≡ false
    → is_at (trim cmd) ≡ true
    → parse_at (trim cmd) ≡ some (action, arg)
    → action_of action ≡ forcereset
    → (process env http cmd d ≡ replied (record d { owner = no_owner }) (text "OK"))
      × (run_command env cmd d ≡ (replied d [], busy))
unfolding process perform
forcereset_refused env cmd action arg d owns checked at parsed named' = (
  rw (at, parsed, named') refl,
  elim (sides_excluded env cmd [] d checked).0 [
    | inl (_, refused) ↦ refused
    | inr (other, _) ↦ absurd (other owns)
  ],
)

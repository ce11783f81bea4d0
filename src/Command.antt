-- ===== src/Command.antt =====
-- src/at_command.cpp and src/at_handler: one AT command from its text to its answer. The handlers of
-- the upload and of the flash operation are in Upload and Flash.
pub mod Parse
pub mod Local
pub mod Verify
pub mod Injection
pub mod Uploading
mod Tests
use rk_firmware_flashd.Command.Local.{
  Surroundings, handle_status, handle_help, handle_version, handle_reboot, handle_exec,
  handle_verify,
}
use rk_firmware_flashd.Command.Parse.{parse_at, trim, is_at}
use rk_firmware_flashd.Flash as Flash
use rk_firmware_flashd.Flash.{FlashOp, Outcome, replied, terminated, handle_flash, handle_flashdone}
use rk_firmware_flashd.Lock.{Owner, same_owner, release, force_release}
use rk_firmware_flashd.Prelude.{Option, none, some, Bool, ◌++◌, if◌then◌else◌, not}
use rk_firmware_flashd.Prelude.Text.{Bytes, beq, text}
use rk_firmware_flashd.Upload as Upload
use rk_firmware_flashd.Upload.{
  World, handle_preupload, handle_upload_frame, handle_uploaddone, handle_uploadcancel,
}
use rk_firmware_flashd.Upload.Replies.{Reply, render}

-- The state that the commands share: the session lock, the upload with the files, and the flash
-- operation.
pub record Daemon : Type 0 where
  pub owner : Owner
  pub world : World
  pub flash : FlashOp

-- `handle_reset` reads the owner before it releases.
abbrev pub handle_reset : Owner → Daemon → Daemon × Bytes
handle_reset caller d =
    if not (same_owner d.owner caller)
    then (d, text "ERROR: only the lock owner can reset")
    else (record d { owner = release caller d.owner }, text "OK")

abbrev pub handle_forcereset : Daemon → Daemon × Bytes
handle_forcereset d = (record d { owner = force_release d.owner }, text "OK")

-- The commands with the source's names; what is none of them is `unknown`.
pub data Action : Type 0 where
  status version reset forcereset help flash tryflashdone : Action
  exec reboot verify preupload upload uploaddone uploadcancel unknown : Action

abbrev pub action_of : Bytes → Action
action_of action =
    if beq action (text "STATUS")
    then status
    else if beq action (text "VERSION")
    then version
    else if beq action (text "RESET")
    then reset
    else if beq action (text "FORCERESET")
    then forcereset
    else if beq action (text "HELP")
    then help
    else if beq action (text "FLASH")
    then flash
    else if beq action (text "TRYFLASHDONE")
    then tryflashdone
    else if beq action (text "EXEC")
    then exec
    else if beq action (text "REBOOT")
    then reboot
    else if beq action (text "VERIFY")
    then verify
    else if beq action (text "PREUPLOAD")
    then preupload
    else if beq action (text "UPLOAD")
    then upload
    else if beq action (text "UPLOADDONE")
    then uploaddone
    else if beq action (text "UPLOADCANCEL")
    then uploadcancel
    else unknown

abbrev pub answered : Daemon × Bytes → Outcome Daemon
answered (d, reply) = replied d reply

abbrev pub on_upload : Daemon → World × Reply → Outcome Daemon
on_upload d (world, reply) = replied (record d { world = world }) (render reply)

abbrev pub on_flash : Daemon → Outcome FlashOp → Outcome Daemon
on_flash d (replied op reply) = replied (record d { flash = op }) reply
on_flash d terminated = terminated

abbrev pub after_poll : Daemon → FlashOp × Bytes → Outcome Daemon
after_poll d (op, reply) = replied (record d { flash = op }) reply

unfoldable pub perform :
    Surroundings → Owner → Action → (action arg : Bytes) → Daemon → Outcome Daemon
perform env caller status action arg d = replied d (handle_status env d.owner)
perform env caller version action arg d = replied d (handle_version env)
perform env caller reset action arg d = answered (handle_reset caller d)
perform env caller forcereset action arg d = answered (handle_forcereset d)
perform env caller help action arg d = replied d handle_help
perform env caller flash action arg d = on_flash d (handle_flash env.scripts_dir arg d.flash)
perform env caller tryflashdone action arg d =
    after_poll d (handle_flashdone env.popen env.now d.flash)
perform env caller exec action arg d = replied d (handle_exec env arg)
perform env caller reboot action arg d = replied d (handle_reboot env)
perform env caller verify action arg d =
    replied d (handle_verify env.upload_dir env.calls.opens arg d.world.files)
perform env caller preupload action arg d =
    on_upload d (handle_preupload env.upload_dir env.calls arg d.world)
perform env caller upload action arg d = on_upload d (handle_upload_frame env.calls arg d.world)
perform env caller uploaddone action arg d =
    on_upload d (handle_uploaddone env.upload_dir env.calls d.world)
perform env caller uploadcancel action arg d = on_upload d (handle_uploadcancel d.world)
perform env caller unknown action arg d =
    replied d (text "ERROR: unknown command 'AT+" ++ action ++ text "'")

abbrev pub perform_parsed : Surroundings → Owner → Option (Bytes × Bytes) → Daemon → Outcome Daemon
perform_parsed env caller none d = replied d (text "ERROR: invalid AT command format")
perform_parsed env caller (some (action, arg)) d =
    perform env caller (action_of action) action arg d

unfoldable pub process : Surroundings → Owner → Bytes → Daemon → Outcome Daemon
process env caller raw_cmd d =
    let cmd = trim raw_cmd in
    if not (is_at cmd)
    then replied d (text "ERROR: commands must start with AT")
    else perform_parsed env caller (parse_at cmd) d

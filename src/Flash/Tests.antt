-- ===== src/Flash/Tests.antt =====
-- Flash operations with a shell that fails on every command line with exit status 3.
use rk_firmware_flashd.Flash.{
  Popen, init, replied, terminated, handle_flash, handle_flashdone, flash_command, worker_step,
  worker_steps, result_text, advance, collect,
}
use rk_firmware_flashd.Flash.Honesty.{History, begin, submits, works, poll_tells_outcome}
use rk_firmware_flashd.Flash.Runs.{
  IsReady, outcome, submitted, submit-ready, flash_reported, flash_resubmitted,
}
use rk_firmware_flashd.Prelude.{◌≡◌, refl, false, some, [], ◌∷◌, ◌++◌}
use rk_firmware_flashd.Prelude.Result.{ok}
use rk_firmware_flashd.Prelude.Text.{Bytes, beq, find, text}

abbrev popen : Popen
popen line = some (text "no such device" ∷ (10 ∷ []) ∷ [], 3)

abbrev dir : Bytes
dir = text "/scripts"

abbrev arg : Bytes
arg = text "fw.img,PARTIAL"

abbrev cmd : Bytes
cmd = text "/scripts/flash_partial.sh fw.img"

given : flash_command dir arg ≡ ok cmd
unfolding flash_command text find beq
given = refl

ready : IsReady init
ready = (refl, refl)

flash_reported_example :
    (handle_flash dir arg init ≡ replied (submitted init cmd) (text "OK submitted: " ++ cmd))
    × ((handle_flashdone popen 9 (worker_steps popen (1 ∷ 2 ∷ 3 ∷ 4 ∷ []) (submitted init cmd))).1
        ≡ result_text (outcome (popen cmd)).0 cmd (outcome (popen cmd)).1)
    × IsReady
        (handle_flashdone popen 9 (worker_steps popen (1 ∷ 2 ∷ 3 ∷ 4 ∷ []) (submitted init cmd))).0
    × ((handle_flashdone popen 9
          (worker_steps popen (1 ∷ 2 ∷ 3 ∷ 4 ∷ []) (submitted init cmd))).0.done
        ≡ false)
flash_reported_example = flash_reported popen dir arg cmd init [] 1 2 3 4 given ready 9

flash_resubmitted_example :
    (handle_flash dir arg (worker_steps popen (1 ∷ 2 ∷ 3 ∷ 4 ∷ []) (submitted init cmd))
      ≡ terminated)
    × (handle_flash dir arg (submitted init cmd) ≡ terminated)
flash_resubmitted_example =
    flash_resubmitted popen dir arg cmd init [] 1 2 3 4 given arg cmd given refl

ended : History popen (worker_steps popen (1 ∷ 2 ∷ 3 ∷ []) (submitted init cmd))
unfolding worker_steps
ended =
    works
      (works
        (works
          (submits begin dir arg (text "OK submitted: " ++ cmd)
            (submit-ready dir arg cmd init ready given))
          1)
        2)
      3

poll_tells_outcome_example :
    (handle_flashdone popen 9 (worker_steps popen (1 ∷ 2 ∷ 3 ∷ []) (submitted init cmd))).1
    ≡ result_text (outcome (popen cmd)).0 cmd (outcome (popen cmd)).1
unfolding text worker_steps worker_step advance collect
poll_tells_outcome_example = poll_tells_outcome popen ended 9 refl

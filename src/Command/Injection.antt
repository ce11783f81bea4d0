-- ===== src/Command/Injection.antt =====
-- What AT+FLASH lets through to the shell, against what AT+EXEC does.
use rk_firmware_flashd.Command.Local.{Surroundings, handle_exec}
use rk_firmware_flashd.Flash.{
  FlashOp, replied, handle_flash, handle_flashdone, flash_command, worker_steps, result_text,
}
use rk_firmware_flashd.Flash.Runs.{IsReady, outcome, submitted, flash_reported}
use rk_firmware_flashd.Prelude.{ℕ, ◌≡◌, refl, false, List, ◌∷◌, ◌++◌}
use rk_firmware_flashd.Prelude.Result.{ok}
use rk_firmware_flashd.Prelude.Text.{Bytes, Lacks, beq, find-none, is_empty-append, text}

-- The command line for a file and whatever stands behind a semicolon.
abbrev pub shell_line : Surroundings → (file payload : Bytes) → Bytes
shell_line env file payload =
    env.scripts_dir ++ text "/" ++ text "flash_full.sh" ++ text " " ++ (file ++ (b';' ∷ payload))

flash_command-shell_line :
    (env : Surroundings) (file payload : Bytes)
    → Lacks b',' (file ++ (b';' ∷ payload))
    → flash_command env.scripts_dir (file ++ (b';' ∷ payload)) ≡ ok (shell_line env file payload)
unfolding flash_command text beq
flash_command-shell_line env file payload h =
    rw
      (
        is_empty-append file payload b';',
        find-none (file ++ (b';' ∷ payload)) b',' h,
        is_empty-append file payload b';',
      )
      refl

handle_exec-closed :
    (env : Surroundings) (arg : Bytes)
    → env.allow_rce ≡ false
    → handle_exec env arg ≡ text "ERROR: AT+EXEC is disabled (rebuild with -DALLOW_RCE to enable)"
unfolding handle_exec
handle_exec-closed env arg h = rw h refl

-- In a build that does not allow AT+EXEC, which refuses every command, AT+FLASH still hands any
-- command without a comma to the shell: behind a file name and a semicolon it is accepted, its thread
-- runs it, and the next AT+TRYFLASHDONE tells its exit status and output.
pub flash_runs_any_command :
    (env : Surroundings) (file payload : Bytes) (op : FlashOp) (times : List ℕ)
    (t1 t2 t3 t4 now : ℕ)
    → env.allow_rce ≡ false
    → Lacks b',' (file ++ (b';' ∷ payload))
    → IsReady op
    → let line = shell_line env file payload in
      let op' = worker_steps env.popen (t1 ∷ t2 ∷ t3 ∷ t4 ∷ times) (submitted op line) in
      (handle_exec env payload
        ≡ text "ERROR: AT+EXEC is disabled (rebuild with -DALLOW_RCE to enable)")
      × (handle_flash env.scripts_dir (file ++ (b';' ∷ payload)) op
          ≡ replied (submitted op line) (text "OK submitted: " ++ line))
      × ((handle_flashdone env.popen now op').1
          ≡ result_text (outcome (env.popen line)).0 line (outcome (env.popen line)).1)
flash_runs_any_command env file payload op times t1 t2 t3 t4 now closed h ready =
    let line = shell_line env file payload in
    let (submits, reports, _, _) =
      flash_reported env.popen env.scripts_dir (file ++ (b';' ∷ payload)) line op times t1 t2 t3 t4
        (flash_command-shell_line env file payload h) ready now in
    (handle_exec-closed env payload closed, submits, reports)

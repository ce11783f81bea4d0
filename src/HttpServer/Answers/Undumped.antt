-- ===== src/HttpServer/Answers/Undumped.antt =====
-- Answers that the JSON library does not print.
use rk_firmware_flashd.Command.{Daemon, perform, process, after_poll}
use rk_firmware_flashd.Command.Local.{Surroundings}
use rk_firmware_flashd.Command.Parse.{parse_at, trim}
use rk_firmware_flashd.Flash.{
  Popen, ExitCode, unset, exited, FlashOp, Outcome, terminated, result_text, handle_flashdone,
}
use rk_firmware_flashd.HttpServer.{Part, request}
use rk_firmware_flashd.HttpServer.Answers.{
  Libraries, Json, string, threw, send_reply, send_command, dump_and_send, survived, finish,
}
use rk_firmware_flashd.HttpServer.Requests.{command_done, command_lem, body}
use rk_firmware_flashd.Lock.{http, serial}
use rk_firmware_flashd.Prelude.{
  ℕ, ◌≡◌, ◌≢◌, ◌⊎◌, inl, inr, refl, ap, ◌∙◌, Bool, Bool-cases, true, false, ◌||◌, ◌==◌, leb, none,
  List, All, [], ◌∷◌, ◌++◌, arith,
}
use rk_firmware_flashd.Prelude.Number.{to_string}
use rk_firmware_flashd.Prelude.Text.{
  Bytes, beq, find, find_from, is_empty, text, to_upper, trim_end,
}
use rk_firmware_flashd.Session.{
  Parsed, invalid, given, respond, bypass_lock, run_command, on_parsed,
}
use rk_firmware_flashd.Session.Holding.{sides_excluded}

-- A byte that is in no UTF-8 text.
unfoldable pub is_foreign : Bytes → Bool
is_foreign [] = false
is_foreign (c ∷ bytes) = leb 0xf8 c || is_foreign bytes

-- Whether a field has such a text.
unfoldable pub has_foreign : Json → Bool
has_foreign [] = false
has_foreign ((key, string value) ∷ fields) = is_foreign value || has_foreign fields
has_foreign ((key, _) ∷ fields) = has_foreign fields

is_foreign-append :
    (before bytes : Bytes) → is_foreign bytes ≡ true → is_foreign (before ++ bytes) ≡ true
unfolding is_foreign
is_foreign-append [] bytes h = h
is_foreign-append (c ∷ before) bytes h = let rest = is_foreign-append before bytes h in ground arith

result_text-is_foreign :
    (code : ExitCode) (cmd output : Bytes)
    → is_foreign output ≡ true
    → is_foreign (result_text code cmd output) ≡ true
result_text-is_foreign unset cmd output h =
    is_foreign-append (text "ERROR " ++ cmd ++ text " failed (exit=-1) ") output h
result_text-is_foreign (exited status) cmd output h = elim (Bool-cases (status == 0)) [
  | inl ok ↦ rw ok (is_foreign-append (text "OK " ++ cmd ++ text " ") output h)
  | inr failed ↦ rw failed (
      is_foreign-append
        (text "ERROR " ++ cmd ++ text " failed (exit=" ++ to_string status ++ text ") ") output h)
]

second_foreign :
    (key value other text' : Bytes)
    → is_foreign text' ≡ true
    → has_foreign ((key, string value) ∷ (other, string text') ∷ []) ≡ true
unfolding has_foreign
second_foreign key value other text' h = ground arith

abbrev poll : Bytes
poll = text "AT+TRYFLASHDONE"

process-poll :
    (env : Surroundings) (d : Daemon)
    → process env http poll d ≡ after_poll d (handle_flashdone env.popen env.now d.flash)
unfolding process perform parse_at text find beq trim trim_end to_upper
process-poll env d = refl

-- The answer for a flash operation that has ended.
flashdone-result_text :
    (popen : Popen) (now : ℕ) (op : FlashOp)
    → op.done ≡ true
    → (handle_flashdone popen now op).1 ≡ result_text op.exit_code op.cmd op.output
unfolding handle_flashdone
flashdone-result_text popen now op h = elim (Bool-cases op.running) [
  | inl running ↦ rw (h, running) refl
  | inr idle ↦ rw (h, idle) refl
]

module _ (lib : Libraries) (env : Surroundings) (port : ℕ)
    (throws : (fields : Json) → has_foreign fields ≡ true → lib.dump fields ≡ none) where
  thrown :
      (outcome : Outcome Daemon) (code : ℕ) (fields : Json)
      → has_foreign fields ≡ true
      → survived outcome (dump_and_send lib code fields) ≡ (terminated, threw)
  thrown outcome code fields h = rw (throws fields h) refl

  polled :
      (d : Daemon) (x : FlashOp × Bytes)
      → is_foreign x.1 ≡ true
      → finish lib env port (command_done (respond (after_poll d x))) ≡ (terminated, threw)
  unfolding send_reply send_command
  polled d (op, response) h = thrown _ 200 _ (second_foreign _ _ _ response h)

  unparsed :
      (what : Bytes) (d : Daemon)
      → is_foreign what ≡ true
      → finish lib env port (command_done (on_parsed env (invalid what) d)) ≡ (terminated, threw)
  unfolding send_reply send_command
  unparsed what d h =
      thrown _ 400 _ (second_foreign _ _ _ _ (is_foreign-append (text "Invalid JSON: ") what h))

not_bypassed : bypass_lock poll ≡ false
unfolding bypass_lock text find_from beq
not_bypassed = refl

-- A poll by HTTP, unless the serial side holds the lock.
run_command-poll :
    (env : Surroundings) (d : Daemon)
    → d.owner ≢ serial
    → run_command env poll d
      ≡ respond
          (after_poll (record d { owner = http }) (handle_flashdone env.popen env.now d.flash))
run_command-poll env d other = elim (sides_excluded env poll [] d not_bypassed).0 [
  | inl (owns, refused) ↦ absurd (other owns)
  | inr (_, run) ↦ run ∙ ap respond (process-poll env (record d { owner = http }))
]

-- If the JSON library throws on a text with a byte that is in no UTF-8 text, a POST to /api/command
-- ends the program in two cases: its body is no JSON and the message of the parser quotes such a
-- byte; or it polls a flash operation that has ended, while the serial side does not hold the lock,
-- and the script wrote such a byte.
pub undumped_ends :
    (lib : Libraries) (env : Surroundings) (port : ℕ) (parse : Bytes → Parsed)
    (renames debug_build pp : Bool) (parts : List Part) (d : Daemon)
    → ((fields : Json) → has_foreign fields ≡ true → lib.dump fields ≡ none)
    → All (λ part. is_empty part.bytes ≡ false) parts
    → is_empty (body parts) ≡ false
    → ((what : Bytes) × (parse (body parts) ≡ invalid what) × (is_foreign what ≡ true))
      ⊎ ((parse (body parts) ≡ given (text "AT+TRYFLASHDONE"))
          × (d.owner ≢ serial)
          × (d.flash.done ≡ true)
          × (is_foreign d.flash.output ≡ true))
    → finish lib env port
        (request env parse renames debug_build pp (text "/api/command") (text "POST") parts d)
      ≡ (terminated, threw)
undumped_ends lib env port parse renames debug_build pp parts d throws h some_body case =
    ap (finish lib env port) (command_lem env parse renames debug_build pp parts d h some_body)
    ∙ elim case [
      | inl (what, e, foreign) ↦
          ap (λ parsed. finish lib env port (command_done (on_parsed env parsed d))) e
          ∙ unparsed lib env port throws what d foreign
      | inr (e, other, done, foreign) ↦
          ap (λ parsed. finish lib env port (command_done (on_parsed env parsed d))) e
          ∙ ap (λ x. finish lib env port (command_done x)) (run_command-poll env d other)
          ∙ polled lib env port throws (record d { owner = http })
              (handle_flashdone env.popen env.now d.flash)
              (ap is_foreign (flashdone-result_text env.popen env.now d.flash done)
                ∙ result_text-is_foreign d.flash.exit_code d.flash.cmd d.flash.output foreign)
    ]

-- ===== src/HttpServer/Answers/Unchanged.antt =====
-- Error answers change nothing but files.
use rk_firmware_flashd.Command.{Daemon}
use rk_firmware_flashd.Command.Local.{Surroundings}
use rk_firmware_flashd.Flash.{Outcome, replied, terminated}
use rk_firmware_flashd.HttpServer.{
  RequestType, no_type, upload, command, status, reset, Reply, command_reply, Part, request,
  is_debug_lock, type_of,
}
use rk_firmware_flashd.HttpServer.Answers.{Libraries, Response, queued, send_reply, finish}
use rk_firmware_flashd.HttpServer.Requests.{
  debug_done, command_done, whole, run_body, body, request_whole,
}
use rk_firmware_flashd.Lock.{Owner, no_owner, http, serial, try_acquire}
use rk_firmware_flashd.Prelude.{
  ℕ, ◌≡◌, ◌≢◌, ◌⊎◌, refl, sym, ap, subst, Bool, Bool-cases, inl, inr, true, false, Option, List, [],
  All, if◌then◌else◌,
}
use rk_firmware_flashd.Prelude.Text.{Bytes, is_empty}
use rk_firmware_flashd.Session.{
  HttpReply, Parsed, invalid, no_cmd, given, missing_cmd, busy, invalid_json, answer, Status,
  respond, bypass_lock, run_command, on_parsed,
}
use rk_firmware_flashd.Session.Holding.{sides_excluded}
use rk_firmware_flashd.Session as Session
use rk_firmware_flashd.HttpServer.Answers.Codes.{is_error, survived_lem, reply_code}

-- Nothing has changed.
abbrev pub Same : Daemon → Outcome Daemon → Type 0
Same d outcome = outcome ≡ replied d []

-- The program goes on, with other files at most.
abbrev pub Kept : Daemon → Outcome Daemon → Type 0
Kept d outcome =
    (files : Bytes → Option Bytes) × (outcome
      ≡ replied (record d { world = record d.world { files = files } }) [])

done-Same :
    (d : Daemon) (x : Outcome Daemon × HttpReply)
    → is_error (command_done x).1 ≡ true
    → (is_error (command_reply x.1) ≡ true → Same d x.0)
    → Same d (command_done x).0
done-Same d (o, Session.waits) e h = cc
done-Same d (o, missing_cmd) e h = h refl
done-Same d (o, busy) e h = h refl
done-Same d (o, invalid_json what) e h = h refl
done-Same d (o, answer response) e h = h e

module _ (env : Surroundings) where
  respond-Same :
      (d : Daemon) (o : Outcome Daemon)
      → is_error (command_reply (respond o).1) ≡ true
      → Same d (respond o).0
  respond-Same d (replied d' reply) e = cc
  respond-Same d terminated e = cc

  run_command-Same :
      (cmd : Bytes) (d : Daemon)
      → is_error (command_reply (run_command env cmd d).1) ≡ true
      → Same d (run_command env cmd d).0
  run_command-Same cmd d e = elim (Bool-cases (bypass_lock cmd)) [
    | inl bypass ↦ rw bypass (respond-Same d _ (rw bypass at e))
    | inr checked ↦ elim (sides_excluded env cmd [] d checked).0 [
      | inl (owns, refused') ↦ ap (λ x. x.0) refused'
      | inr (other, run) ↦ rw run (respond-Same d _ (rw run at e))
    ]
  ]

  on_parsed-Same :
      (parsed : Parsed) (d : Daemon)
      → is_error (command_reply (on_parsed env parsed d).1) ≡ true
      → Same d (on_parsed env parsed d).0
  on_parsed-Same (invalid what) d e = refl
  on_parsed-Same no_cmd d e = refl
  on_parsed-Same (given cmd) d e = run_command-Same cmd d e

  run_body-Same :
      (parse : Bytes → Parsed) (renames : Bool) (bytes : Bytes) (d : Daemon)
      → is_error (run_body env parse renames bytes d).1 ≡ true
      → Same d (run_body env parse renames bytes d).0
  unfolding run_body
  run_body-Same parse renames bytes d e = elim (Bool-cases (is_empty bytes)) [
    | inl empty ↦ rw empty refl
    | inr some_body ↦ rw some_body (
        done-Same d (on_parsed env (parse bytes) d) (rw some_body at e)
          (on_parsed-Same (parse bytes) d))
  ]

  whole-Kept :
      (parse : Bytes → Parsed) (renames : Bool) (type : RequestType) (pp : Bool) (parts : List Part)
      (d : Daemon)
      → is_error (whole env parse renames type pp parts d).1 ≡ true
      → Same d (whole env parse renames type pp parts d).0
        ⊎ ((type ≡ upload) × Kept d (whole env parse renames type pp parts d).0)
  unfolding whole
  whole-Kept parse renames no_type pp parts d e = inl refl
  whole-Kept parse renames status pp parts d e = inl refl
  whole-Kept parse renames reset pp parts d e = cc
  whole-Kept parse renames command pp parts d e = inl (run_body-Same parse renames (body parts) d e)
  whole-Kept parse renames upload false parts d e = inl refl
  whole-Kept parse renames upload true parts d e = inr (refl, (_, refl))

  debug-Same :
      (owner : Owner) (d : Daemon)
      → d.owner ≡ owner
      → is_error (debug_done (try_acquire serial owner) d).1 ≡ true
      → Same d (debug_done (try_acquire serial owner) d).0
  debug-Same no_owner d owns e = cc
  debug-Same http d owns e = ap (λ owner. replied (record d { owner = owner }) []) (sym owns)
  debug-Same serial d owns e = ap (λ owner. replied (record d { owner = owner }) []) (sym owns)

  either-Kept :
      (type : RequestType) (debug : Bool) (x y : Outcome Daemon × Reply) (d : Daemon)
      → (is_error x.1 ≡ true → Same d x.0)
      → (is_error y.1 ≡ true → Same d y.0 ⊎ ((type ≡ upload) × Kept d y.0))
      → let z = if debug then x else y in
        is_error z.1 ≡ true → Same d z.0 ⊎ ((type ≡ upload) × Kept d z.0)
  either-Kept type true x y d h h' e = inl (h e)
  either-Kept type false x y d h h' e = h' e

  -- A request whose data comes in parts that are not empty, and that is answered with another status
  -- code than 200, leaves the program running and its state as it was; an upload may have changed
  -- the files, and nothing else.
  pub error_unchanged :
      (lib : Libraries) (parse : Bytes → Parsed) (renames : Bool) (port : ℕ) (debug_build pp : Bool)
      (url method : Bytes) (parts : List Part) (d : Daemon) (outcome : Outcome Daemon)
      (r : Response)
      → All (λ part. is_empty part.bytes ≡ false) parts
      → finish lib env port (request env parse renames debug_build pp url method parts d)
        ≡ (outcome, queued r)
      → r.status_code ≢ 200
      → (outcome ≡ replied d []) ⊎ ((type_of url method ≡ upload) × Kept d outcome)
  error_unchanged lib parse renames port debug_build pp url method parts d outcome r h e code =
      let whole_request = request env parse renames debug_build pp url method parts d in
      let (same, sent) =
        survived_lem lib whole_request.0 outcome (send_reply lib env port whole_request.1) r e in
      subst (λ o. Same d o ⊎ ((type_of url method ≡ upload) × Kept d o)) same
        (subst
          (λ z. is_error z.1 ≡ true → Same d z.0 ⊎ ((type_of url method ≡ upload) × Kept d z.0))
          (sym (request_whole env parse renames debug_build pp url method parts d h))
          (either-Kept (type_of url method) (is_debug_lock debug_build url method)
            (debug_done (try_acquire serial d.owner) d)
            (whole env parse renames (type_of url method) pp parts d) d (debug-Same d.owner d refl)
            (whole-Kept parse renames (type_of url method) pp parts d))
          (reply_code lib env port whole_request.1 r sent code))

-- ===== src/HttpServer/Requests.antt =====
-- A request that comes in parts, against one that is answered as a whole.
pub mod Routes
use rk_firmware_flashd.Command.{Daemon}
use rk_firmware_flashd.Command.Local.{Surroundings}
use rk_firmware_flashd.Flash.{Outcome, replied}
use rk_firmware_flashd.HttpServer.{
  RequestType, no_type, upload, command, status, reset, Connection, Reply, waits, upload_reply,
  status_reply, reset_reply, not_found, connect, commanded, Part, lock_acquired, lock_held,
  lock_serial, is_debug_lock, type_of, request, first_call, of_upload, of_command, dispatch, serve,
}
use rk_firmware_flashd.HttpUpload as HttpUpload
use rk_firmware_flashd.HttpUpload.{Uploading, UploadReply, handle_upload, no_multipart_data}
use rk_firmware_flashd.HttpUpload.Saving.{feed}
use rk_firmware_flashd.Lock.{Owner, no_owner, serial, try_acquire}
use rk_firmware_flashd.Prelude.{
  ◌≡◌, refl, ap, ◌∙◌, Bool, true, false, none, some, List, [], ◌∷◌, ◌++◌, append-nil, append_assoc,
  map, All, if◌then◌else◌, Bool-cases, inl, inr,
}
use rk_firmware_flashd.Prelude.Text.{Bytes, beq, is_empty, text}
use rk_firmware_flashd.Session.{
  Parsed, HttpReply, handle_command, on_parsed, handle_reset, handle_status,
}

-- The data of a request.
abbrev pub body : List Part → Bytes
body [] = []
body (part ∷ parts) = part.bytes ++ body parts

abbrev pub upload_done : Daemon → Uploading × UploadReply → Outcome Daemon × Reply
upload_done d (u, reply) =
    (replied (record d { world = record d.world { files = u.files } }) [], of_upload reply)

abbrev pub command_done : Outcome Daemon × HttpReply → Outcome Daemon × Reply
command_done (outcome, reply) = (outcome, of_command reply)

-- The debug route.
abbrev pub debug_done : Owner × Bool → Daemon → Outcome Daemon × Reply
debug_done (owner, acquired) d =
    (replied (record d { owner = owner }) [], if acquired then lock_acquired else lock_held)

module _ (env : Surroundings) (parse : Bytes → Parsed) (renames : Bool) where
  -- A command whose whole body is there.
  unfoldable pub run_body : Bytes → Daemon → Outcome Daemon × Reply
  run_body bytes d =
      if is_empty bytes then (replied d [], waits) else command_done (on_parsed env (parse bytes) d)

  -- A request of a type, with all its data at once.
  unfoldable pub whole : RequestType → (pp : Bool) → List Part → Daemon → Outcome Daemon × Reply
  whole no_type pp parts d = (replied d [], not_found)
  whole status pp parts d = (replied d [], status_reply (handle_status env d))
  whole reset pp parts d = (replied (record d { owner = no_owner }) [], reset_reply)
  whole command pp parts d = run_body (body parts) d
  whole upload false parts d = (replied d [], upload_reply no_multipart_data)
  whole upload true parts d = upload_done d (
      handle_upload env.upload_dir renames true none (
        feed env.upload_dir (map (λ part. part.fields) parts)
          (record { state = HttpUpload.init; files = d.world.files })))

  abbrev command_at : HttpUpload.ConnectionState → Bytes → Connection
  command_at state cmd_body = record {
    type = command;
    pp = false;
    uploading = state;
    cmd_body = cmd_body;
  }

  abbrev upload_at : HttpUpload.ConnectionState → Bytes → Connection
  upload_at state cmd_body = record {
    type = upload;
    pp = true;
    uploading = state;
    cmd_body = cmd_body;
  }

  serve-command :
      (parts : List Part) (state : HttpUpload.ConnectionState) (cmd_body : Bytes) (d : Daemon)
      → All (λ part. is_empty part.bytes ≡ false) parts
      → serve env parse renames parts (command_at state cmd_body) d
        ≡ run_body (cmd_body ++ body parts) d
  unfolding serve dispatch handle_command run_body
  serve-command [] state cmd_body d _ = rw (append-nil cmd_body) (last (is_empty cmd_body))
    where
      last :
          (b : Bool)
          → let a = commanded (command_at state cmd_body) (
              if b
              then (cmd_body, (replied d [], HttpReply.waits))
              else (cmd_body, on_parsed env (parse cmd_body) d)) in
            (a.outcome, a.reply)
            ≡ (if b then (replied d [], waits) else command_done (on_parsed env (parse cmd_body) d))
      last true = refl
      last false = refl
  serve-command (part ∷ parts) state cmd_body d (h, hs) = rw h (
      serve-command parts state (cmd_body ++ part.bytes) d hs
      ∙ ap (λ b. run_body b d) (append_assoc cmd_body part.bytes (body parts)))

  serve-upload :
      (parts : List Part) (state : HttpUpload.ConnectionState) (cmd_body : Bytes) (d : Daemon)
      → serve env parse renames parts (upload_at state cmd_body) d
        ≡ upload_done d (
            handle_upload env.upload_dir renames true none (
              feed env.upload_dir
                (map (λ part. part.fields) parts)
                (record { state = state; files = d.world.files })))
  unfolding serve dispatch handle_upload feed
  serve-upload [] state cmd_body d = refl
  serve-upload (part ∷ parts) state cmd_body d =
      let u =
        handle_upload env.upload_dir renames true (some part.fields)
          (record { state = state; files = d.world.files }) in
      serve-upload parts u.0.state cmd_body
        (record d { world = record d.world { files = u.0.files } })

  serve_lem :
      (type : RequestType) (pp : Bool) (parts : List Part) (d : Daemon)
      → All (λ part. is_empty part.bytes ≡ false) parts
      → serve env parse renames parts (connect pp type) d ≡ whole type pp parts d
  unfolding serve dispatch whole handle_upload
  serve_lem no_type pp [] d h = refl
  serve_lem no_type pp (part ∷ parts) d h = refl
  serve_lem status pp [] d h = refl
  serve_lem status pp (part ∷ parts) d h = refl
  serve_lem reset pp [] d h = refl
  serve_lem reset pp (part ∷ parts) d h = refl
  serve_lem command pp parts d h = serve-command parts HttpUpload.init [] d h
  serve_lem upload false [] d h = refl
  serve_lem upload false (part ∷ parts) d h = refl
  serve_lem upload true parts d h = serve-upload parts HttpUpload.init [] d

  -- However the data comes in parts that are not empty, the calls of the library come to what one
  -- call with all the data would do.
  pub request_whole :
      (debug_build pp : Bool) (url method : Bytes) (parts : List Part) (d : Daemon)
      → All (λ part. is_empty part.bytes ≡ false) parts
      → request env parse renames debug_build pp url method parts d ≡ (
          if is_debug_lock debug_build url method
          then debug_done (try_acquire serial d.owner) d
          else whole (type_of url method) pp parts d)
  unfolding request first_call
  request_whole debug_build pp url method parts d h =
      elim (Bool-cases (is_debug_lock debug_build url method)) [
        | inl debug ↦ rw debug (debug_lem (try_acquire serial d.owner))
        | inr usual ↦ rw usual (serve_lem (type_of url method) pp parts d h)
      ]
    where
      debug_lem :
          (x : Owner × Bool)
          → ((replied (lock_serial x d).0 [], (lock_serial x d).1) ≡ debug_done x d)
      debug_lem (owner, true) = refl
      debug_lem (owner, false) = refl

-- A command with a body.
pub command_lem :
    (env : Surroundings) (parse : Bytes → Parsed) (renames debug_build pp : Bool)
    (parts : List Part) (d : Daemon)
    → All (λ part. is_empty part.bytes ≡ false) parts
    → is_empty (body parts) ≡ false
    → request env parse renames debug_build pp (text "/api/command") (text "POST") parts d
      ≡ command_done (on_parsed env (parse (body parts)) d)
unfolding run_body whole type_of is_debug_lock text beq
command_lem env parse renames debug_build pp parts d h some_body =
    request_whole env parse renames debug_build pp (text "/api/command") (text "POST") parts d h
    ∙ elim (Bool-cases debug_build) [
      | inl debug ↦ rw (some_body, debug) refl
      | inr usual ↦ rw (some_body, usual) refl
    ]

-- ===== src/HttpServer.antt =====
-- src/http_server.cpp: which handler a request reaches, call by call. The HTTP library calls
-- `accessHandler` for a request first without its data, then with each part of its data, and then
-- without data until an answer is queued. It and its multipart parser are arguments. `debug_build`
-- tells whether NDEBUG is not defined.
pub mod Requests
pub mod Answers
pub mod Transfer
mod Tests
use rk_firmware_flashd.Command.{Daemon}
use rk_firmware_flashd.Command.Local.{Surroundings}
use rk_firmware_flashd.Flash.{Outcome, replied, terminated}
use rk_firmware_flashd.HttpUpload as HttpUpload
use rk_firmware_flashd.HttpUpload.{Field, Uploading, UploadReply, handle_upload}
use rk_firmware_flashd.Lock.{Owner, serial, try_acquire}
use rk_firmware_flashd.Prelude.{
  Bool, true, false, ◌&&◌, Option, none, some, List, [], ◌∷◌, if◌then◌else◌,
}
use rk_firmware_flashd.Prelude.Text.{Bytes, beq, text}
use rk_firmware_flashd.Session.{
  Parsed, HttpReply, Status, handle_command, handle_reset, handle_status,
}

pub data RequestType : Type 0 where
  no_type upload command status reset : RequestType

pub record Connection : Type 0 where
  pub type : RequestType
  pub pp : Bool
  pub uploading : HttpUpload.ConnectionState
  pub cmd_body : Bytes

pub data Reply : Type 0 where
  -- `MHD_YES` without a response.
  waits : Reply
  upload_reply : UploadReply → Reply
  command_reply : HttpReply → Reply
  status_reply : Status → Reply
  reset_reply not_found lock_acquired lock_held : Reply

abbrev pub is_route : (url method : Bytes) → (path verb : Bytes) → Bool
is_route url method path verb = beq url path && beq method verb

unfoldable pub type_of : (url method : Bytes) → RequestType
type_of url method =
    if is_route url method (text "/api/upload") (text "POST")
    then upload
    else if is_route url method (text "/api/command") (text "POST")
    then command
    else if is_route url method (text "/api/status") (text "GET")
    then status
    else if is_route url method (text "/api/reset") (text "POST")
    then reset
    else no_type

unfoldable pub is_debug_lock : (debug_build : Bool) → (url method : Bytes) → Bool
is_debug_lock debug_build url method =
    debug_build && is_route url method (text "/api/debug/lock-serial") (text "POST")

-- A new connection; only an upload has a post processor, if the library makes one.
abbrev pub connect : (pp : Bool) → RequestType → Connection
connect pp upload = record { type = upload; pp = pp; uploading = HttpUpload.init; cmd_body = [] }
connect pp type = record { type = type; pp = false; uploading = HttpUpload.init; cmd_body = [] }

abbrev pub lock_serial : Owner × Bool → Daemon → Daemon × Reply
lock_serial (owner, true) d = (record d { owner = owner }, lock_acquired)
lock_serial (owner, false) d = (record d { owner = owner }, lock_held)

-- What a call brings: a part of the data with the fields that the parser finds in it, or no data.
pub record Part : Type 0 where
  pub bytes : Bytes
  pub fields : List Field

abbrev pub bytes_of : Option Part → Bytes
bytes_of none = []
bytes_of (some part) = part.bytes

abbrev pub fields_of : Option Part → Option (List Field)
fields_of none = none
fields_of (some part) = some part.fields

-- An answer of a handler for the library.
abbrev pub of_upload : UploadReply → Reply
of_upload HttpUpload.waits = waits
of_upload reply = upload_reply reply

abbrev pub of_command : HttpReply → Reply
of_command HttpReply.waits = waits
of_command reply = command_reply reply

pub record Answer : Type 0 where
  pub outcome : Outcome Daemon
  pub connection : Connection
  pub reply : Reply

abbrev pub uploaded : Connection → Daemon → Uploading × UploadReply → Answer
uploaded conn d (u, reply) = record {
  outcome = replied (record d { world = record d.world { files = u.files } }) [];
  connection = record conn { uploading = u.state };
  reply = of_upload reply;
}

abbrev pub commanded : Connection → Bytes × (Outcome Daemon × HttpReply) → Answer
commanded conn (body, (outcome, reply)) = record {
  outcome = outcome;
  connection = record conn { cmd_body = body };
  reply = of_command reply;
}

module _ (env : Surroundings) (parse : Bytes → Parsed) (renames : Bool) where
  -- A call behind the first.
  unfoldable pub dispatch : RequestType → Option Part → Connection → Daemon → Answer
  dispatch upload part conn d = uploaded conn d (
      handle_upload env.upload_dir renames conn.pp (fields_of part)
        (record { state = conn.uploading; files = d.world.files }))
  dispatch command part conn d =
      commanded conn (handle_command env parse (bytes_of part) conn.cmd_body d)
  dispatch status part conn d = record {
    outcome = replied d [];
    connection = conn;
    reply = status_reply (handle_status env d);
  }
  dispatch reset part conn d = record {
    outcome = replied (handle_reset d) [];
    connection = conn;
    reply = reset_reply;
  }
  dispatch no_type part conn d = record {
    outcome = replied d [];
    connection = conn;
    reply = not_found;
  }

-- What the first call gives: a connection, or the answer of the debug endpoint.
pub data First : Type 0 where
  connected : Connection → Daemon → First
  answered : Daemon → Reply → First

abbrev answered_pair : Daemon × Reply → First
answered_pair (d, reply) = answered d reply

unfoldable pub first_call : (debug_build pp : Bool) → (url method : Bytes) → Daemon → First
first_call debug_build pp url method d =
    if is_debug_lock debug_build url method
    then answered_pair (lock_serial (try_acquire serial d.owner) d)
    else connected (connect pp (type_of url method)) d

-- The library calls again while nothing is queued.
abbrev pub unless_answered :
    Reply → Outcome Daemon → (Daemon → Outcome Daemon × Reply) → Outcome Daemon × Reply
unless_answered waits (replied d _) again = again d
unless_answered waits terminated again = (terminated, waits)
unless_answered reply outcome again = (outcome, reply)

-- A request as the library makes it of calls behind the first: with each part of the data, and then
-- without data. The reply at the end is `waits` if none was queued.
module _ (env : Surroundings) (parse : Bytes → Parsed) (renames : Bool) where
  unfoldable pub serve : List Part → Connection → Daemon → Outcome Daemon × Reply
  serve [] conn d = let a = dispatch env parse renames conn.type none conn d in (a.outcome, a.reply)
  serve (part ∷ parts) conn d =
      let a = dispatch env parse renames conn.type (some part) conn d in
      unless_answered a.reply a.outcome (λ d'. serve parts a.connection d')

  abbrev pub behind_first : First → List Part → Outcome Daemon × Reply
  behind_first (connected conn d) parts = serve parts conn d
  behind_first (answered d reply) parts = (replied d [], reply)

  -- The whole request.
  unfoldable pub request :
      (debug_build pp : Bool) (url method : Bytes) → List Part → Daemon → Outcome Daemon × Reply
  request debug_build pp url method parts d =
      behind_first (first_call debug_build pp url method d) parts

-- `mhd_daemon_` as the answer whether it is set. `start` answers false if the library starts nothing.
abbrev pub start : (created mhd_daemon : Bool) → Bool × Bool
start created mhd_daemon = (created, created)

abbrev pub stop : Bool → Bool
stop mhd_daemon = false

abbrev pub is_running : Bool → Bool
is_running mhd_daemon = mhd_daemon

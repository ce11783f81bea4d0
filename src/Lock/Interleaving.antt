-- ===== src/Lock/Interleaving.antt =====
-- The two threads that use the lock, as interleaved steps of one atomic operation each: the HTTP
-- thread (src/http_handler/handler_command.cpp, src/http_handler/handler_reset.cpp) and the reader
-- of the serial line (src/serial_daemon.cpp). What a command does to other state is not of interest
-- here; a thread that processes one is in the phase `processing`.
pub mod Exclusion
use rk_firmware_flashd.Lock.{
  Owner, no_owner, http, serial, same_owner, try_acquire, release, force_release, is_busy,
}
use rk_firmware_flashd.Prelude.{
  ◌≡◌, ◌⊎◌, refl, Bool, true, false, not, ◌&&◌, List, [], ◌∷◌, all, map, and-eq-true_iff,
  if◌then◌else◌, arith,
}

-- What a command does to the lock.
pub data Kind : Type 0 where
  plain reset forcereset : Kind

-- A request for the HTTP thread: a command, with or without the check of the session, or a call of
-- /api/reset.
pub data Request : Type 0 where
  command : (bypass_lock : Bool) → Kind → Request
  api_reset : Request

-- Where the HTTP thread is: between requests, behind `is_busy()` with either answer, in `process`
-- under the lock or with the check bypassed, and in `handle_reset` behind the test of the owner.
pub data HttpPhase : Type 0 where
  waiting : HttpPhase
  saw_free saw_busy : Kind → HttpPhase
  processing bypassing : Kind → HttpPhase
  resetting : HttpPhase

-- Where the reader is: between lines, behind a `try_acquire` that failed, in `process`, and in
-- `handle_reset` behind the test of the owner.
pub data ReaderPhase : Type 0 where
  reading : ReaderPhase
  not_acquired : Kind → ReaderPhase
  handling : Kind → ReaderPhase
  giving_up : ReaderPhase

pub record Threads : Type 0 where
  pub owner : Owner
  pub http_phase : HttpPhase
  pub reader_phase : ReaderPhase

abbrev pub start : Threads
start = record { owner = no_owner; http_phase = waiting; reader_phase = reading }

-- The next step of `process` for the HTTP thread.
http_process : Kind → Threads → Threads
http_process plain t = record t { http_phase = waiting }
http_process reset t =
    if same_owner t.owner http
    then record t { http_phase = resetting }
    else record t { http_phase = waiting }
http_process forcereset t = record t { owner = force_release t.owner; http_phase = waiting }

http_receive : Request → Threads → Threads
http_receive api_reset t = record t { owner = force_release t.owner }
http_receive (command true kind) t = record t { http_phase = bypassing kind }
http_receive (command false kind) t =
    if is_busy t.owner
    then record t { http_phase = saw_busy kind }
    else record t { http_phase = saw_free kind }

-- A step of the HTTP thread; the request is the one that it takes up if it is waiting.
pub http_step : Request → HttpPhase → Threads → Threads
unfolding http_process http_receive
http_step request waiting t = http_receive request t
http_step request (saw_free kind) t =
    let (owner, acquired) = try_acquire http t.owner in
    record t { owner = owner; http_phase = if acquired then processing kind else waiting }
http_step request (saw_busy kind) t = record t {
  http_phase = if same_owner t.owner http then processing kind else waiting;
}
http_step request (processing kind) t = http_process kind t
http_step request (bypassing kind) t = http_process kind t
http_step request resetting t = record t { owner = release http t.owner; http_phase = waiting }

reader_process : Kind → Threads → Threads
reader_process plain t = record t { reader_phase = reading }
reader_process reset t =
    if same_owner t.owner serial
    then record t { reader_phase = giving_up }
    else record t { reader_phase = reading }
reader_process forcereset t = record t { owner = force_release t.owner; reader_phase = reading }

-- A step of the reader; the kind is that of the line that it reads if it is between lines.
pub reader_step : Kind → ReaderPhase → Threads → Threads
unfolding reader_process
reader_step kind reading t =
    let (owner, acquired) = try_acquire serial t.owner in
    record t { owner = owner; reader_phase = if acquired then handling kind else not_acquired kind }
reader_step _ (not_acquired kind) t = record t {
  reader_phase = if same_owner t.owner serial then handling kind else reading;
}
reader_step _ (handling kind) t = reader_process kind t
reader_step _ giving_up t = record t { owner = release serial t.owner; reader_phase = reading }

pub data Turn : Type 0 where
  http_turn : Request → Turn
  reader_turn : Kind → Turn

pub step : Turn → Threads → Threads
unfolding http_step reader_step
step (http_turn request) t = http_step request t.http_phase t
step (reader_turn kind) t = reader_step kind t.reader_phase t

pub run : List Turn → Threads → Threads
run [] t = t
run (turn ∷ turns) t = run turns (step turn t)

-- ===== src/Lock/Interleaving/Exclusion.antt =====
-- Who is inside: the two threads exclude each other as long as nobody forces the lock open.
use rk_firmware_flashd.Lock.{no_owner, http, serial}
use rk_firmware_flashd.Prelude.{
  ◌≡◌, ◌⊎◌, refl, Bool, true, false, not, ◌&&◌, List, [], ◌∷◌, all, map, and-eq-true_iff, arith,
}
use rk_firmware_flashd.Lock.Interleaving.{
  Kind, plain, reset, forcereset, Request, command, api_reset, HttpPhase, waiting, saw_free,
  saw_busy, processing, bypassing, resetting, ReaderPhase, not_acquired, handling, giving_up,
  Threads, start, http_process, http_receive, http_step, reader_process, reader_step, Turn,
  http_turn, reader_turn, step, run,
}

-- No turn forces the lock open, and what bypasses the check is a reset.
abbrev pub is_unforced : Turn → Bool
is_unforced (http_turn (command bypass_lock plain)) = not bypass_lock
is_unforced (http_turn (command bypass_lock reset)) = true
is_unforced (http_turn (command bypass_lock forcereset)) = false
is_unforced (http_turn api_reset) = false
is_unforced (reader_turn plain) = true
is_unforced (reader_turn reset) = true
is_unforced (reader_turn forcereset) = false

-- A command of the HTTP thread is processed under the lock.
abbrev pub http_inside : HttpPhase → Bool
http_inside (processing kind) = true
http_inside resetting = true
http_inside _ = false

abbrev pub reader_inside : ReaderPhase → Bool
reader_inside (handling kind) = true
reader_inside giving_up = true
reader_inside _ = false

-- No thread is about to force the lock open.
abbrev pub http_calm : HttpPhase → Bool
http_calm (saw_free forcereset) = false
http_calm (saw_busy forcereset) = false
http_calm (processing forcereset) = false
http_calm (bypassing forcereset) = false
http_calm (bypassing plain) = false
http_calm _ = true

abbrev pub reader_calm : ReaderPhase → Bool
reader_calm (not_acquired forcereset) = false
reader_calm (handling forcereset) = false
reader_calm _ = true

pub record IsExclusive (t : Threads) : Type 0 where
  pub http_owns : http_inside t.http_phase ≡ true → t.owner ≡ http
  pub reader_owns : reader_inside t.reader_phase ≡ true → t.owner ≡ serial
  pub http_unforced : http_calm t.http_phase ≡ true
  pub reader_unforced : reader_calm t.reader_phase ≡ true

start-IsExclusive : IsExclusive start
start-IsExclusive = record {
  http_owns = λ e. cc;
  reader_owns = λ e. cc;
  http_unforced = refl;
  reader_unforced = refl;
}

step-IsExclusive :
    (turn : Turn) (t : Threads)
    → is_unforced turn ≡ true
    → IsExclusive t
    → IsExclusive (step turn t)
unfolding step http_step reader_step http_process http_receive reader_process
step-IsExclusive turn t h s = ground arith

run-IsExclusive :
    (turns : List Turn) (t : Threads)
    → all is_unforced turns ≡ true
    → IsExclusive t
    → IsExclusive (run turns t)
unfolding run
run-IsExclusive [] t h s = s
run-IsExclusive (turn ∷ turns) t h s =
    let (first, others) = (and-eq-true_iff (is_unforced turn) (all is_unforced turns)).0 h in
    run-IsExclusive turns (step turn t) others (step-IsExclusive turn t first s)

-- However the atomic operations of the two threads interleave, as long as nobody forces the lock
-- open and what bypasses the check is a reset: a thread that processes a command under the lock is
-- the owner, so the HTTP thread and the reader never do so at once.
pub mutual_exclusion :
    (turns : List Turn)
    → all is_unforced turns ≡ true
    → ((http_inside (run turns start).http_phase ≡ false) ⊎ ((run turns start).owner ≡ http))
      × ((reader_inside (run turns start).reader_phase ≡ false)
          ⊎ ((run turns start).owner ≡ serial))
      × ((http_inside (run turns start).http_phase && reader_inside (run turns start).reader_phase)
          ≡ false)
mutual_exclusion turns h =
    let s = run-IsExclusive turns start h start-IsExclusive in
    (
      ground (arith, s.http_owns),
      ground (arith, s.reader_owns),
      ground (arith, s.http_owns, s.reader_owns),
    )

-- A forced release does not wait for the command that the owner processes: while the reader is
-- inside and the HTTP thread waits, a call of /api/reset and the next request that does not bypass
-- the check bring the HTTP thread inside too, whatever the two commands are.
pub force_release_overlaps :
    (t : Threads) (kind : Kind) (request : Request)
    → t.http_phase ≡ waiting
    → reader_inside t.reader_phase ≡ true
    → let after =
        run (http_turn api_reset ∷ http_turn (command false kind) ∷ http_turn request ∷ []) t in
      ((http_inside after.http_phase && reader_inside after.reader_phase) ≡ true)
      × (after.owner ≡ http)
unfolding run step http_step http_receive
force_release_overlaps t kind request idle inside = rw idle (inside, refl)

abbrev IsResetting : Threads → Type 0
IsResetting t =
    (t.owner ≡ http) × (t.http_phase ≡ resetting) × (reader_inside t.reader_phase ≡ false)

reader_turn-IsResetting :
    (kind : Kind) (t : Threads) → IsResetting t → IsResetting (step (reader_turn kind) t)
unfolding step reader_step reader_process
reader_turn-IsResetting kind t (owns, inside, out) = ground arith

reader_turns-IsResetting :
    (lines : List Kind) (t : Threads) → IsResetting t → IsResetting (run (map reader_turn lines) t)
unfolding run
reader_turns-IsResetting [] t s = s
reader_turns-IsResetting (kind ∷ lines) t s =
    reader_turns-IsResetting lines (step (reader_turn kind) t) (reader_turn-IsResetting kind t s)

http_turn-resets :
    (t : Threads) (request : Request)
    → t.owner ≡ http
    → t.http_phase ≡ processing reset
    → reader_inside t.reader_phase ≡ false
    → IsResetting (step (http_turn request) t)
unfolding step http_step http_process
http_turn-resets t request owns inside out = rw (inside, owns) (refl, refl, out)

http_turn-frees :
    (t : Threads) (request : Request)
    → IsResetting t
    → (step (http_turn request) t).owner ≡ no_owner
unfolding step http_step
http_turn-frees t request (owns, inside, out) = rw (inside, owns) refl

-- While the reader is not inside, a reset by the HTTP thread as the owner frees the lock in its
-- second step, whatever lines the reader reads in between.
pub reset_frees :
    (t : Threads) (request : Request) (lines : List Kind)
    → t.owner ≡ http
    → t.http_phase ≡ processing reset
    → reader_inside t.reader_phase ≡ false
    → (step (http_turn request) (run (map reader_turn lines) (step (http_turn request) t))).owner
      ≡ no_owner
reset_frees t request lines owns inside out =
    http_turn-frees (run (map reader_turn lines) (step (http_turn request) t)) request (
      reader_turns-IsResetting lines (step (http_turn request) t)
        (http_turn-resets t request owns inside out))

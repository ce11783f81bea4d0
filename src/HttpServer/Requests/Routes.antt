-- ===== src/HttpServer/Requests/Routes.antt =====
-- The routes of the server, and what a request on each of them comes to.
use rk_firmware_flashd.Command.{Daemon}
use rk_firmware_flashd.Command.Local.{Surroundings}
use rk_firmware_flashd.Flash.{Outcome, replied}
use rk_firmware_flashd.HttpServer.{
  Reply, lock_acquired, lock_held, RequestType, no_type, upload, command, status, reset, Part,
  is_route, is_debug_lock, type_of, request,
}
use rk_firmware_flashd.HttpServer.Requests.{debug_done, whole, request_whole}
use rk_firmware_flashd.Lock.{Owner, no_owner, http, serial, try_acquire}
use rk_firmware_flashd.Prelude.{
  ◌≡◌, refl, ap, sym, [], ◌∙◌, ◌⊎◌, inl, inr, Bool, Bool-cases, true, false, List, All,
}
use rk_firmware_flashd.Prelude.Text.{Bytes, beq, beq_iff, is_empty, text}
use rk_firmware_flashd.Session.{Parsed}

-- A request for a path with a method.
abbrev pub At : (url method path verb : Bytes) → Type 0
At url method path verb = (url ≡ path) × (method ≡ verb)

-- The route of the builds for debugging.
abbrev pub IsLock : (debug_build : Bool) → (url method : Bytes) → Type 0
IsLock debug_build url method =
    (debug_build ≡ true) × At url method (text "/api/debug/lock-serial") (text "POST")

-- The four routes, and what is none of them.
abbrev pub Serves : (debug_build : Bool) → (url method : Bytes) → RequestType → Type 0
Serves debug_build url method upload = At url method (text "/api/upload") (text "POST")
Serves debug_build url method command = At url method (text "/api/command") (text "POST")
Serves debug_build url method status = At url method (text "/api/status") (text "GET")
Serves debug_build url method reset = At url method (text "/api/reset") (text "POST")
Serves debug_build url method no_type =
    (¬ At url method (text "/api/upload") (text "POST"))
    × (¬ At url method (text "/api/command") (text "POST"))
    × (¬ At url method (text "/api/status") (text "GET"))
    × (¬ At url method (text "/api/reset") (text "POST"))
    × (¬ IsLock debug_build url method)

At-cases :
    (url method path verb : Bytes)
    → ((is_route url method path verb ≡ true) × At url method path verb)
      ⊎ ((is_route url method path verb ≡ false) × (¬ At url method path verb))
At-cases url method path verb = elim (Bool-cases (beq url path)) [
  | inr other ↦ inr (rw other refl, λ (u, m). absurd (differs other ((beq_iff url path).1 u)))
  | inl same ↦ elim (Bool-cases (beq method verb)) [
    | inl same' ↦
        inl (rw (same, same') refl, ((beq_iff url path).0 same, (beq_iff method verb).0 same'))
    | inr other ↦
        inr (rw (same, other) refl, λ (u, m). absurd (differs other ((beq_iff method verb).1 m)))
  ]
]
  where
    differs : {b : Bool} → b ≡ false → b ≡ true → ⊥
    differs f t = cc

IsLock-cases :
    (debug_build : Bool) (url method : Bytes)
    → ((is_debug_lock debug_build url method ≡ true) × IsLock debug_build url method)
      ⊎ ((is_debug_lock debug_build url method ≡ false) × (¬ IsLock debug_build url method))
unfolding is_debug_lock
IsLock-cases false url method = inr (refl, λ (d, _). cc)
IsLock-cases true url method =
    elim (At-cases url method (text "/api/debug/lock-serial") (text "POST")) [
      | inl (e, at) ↦ inl (e, (refl, at))
      | inr (e, other) ↦ inr (e, λ (_, at). other at)
    ]

-- The type that the code gives a request is that of its route.
type_of-Serves :
    (debug_build : Bool) (url method : Bytes)
    → ¬ IsLock debug_build url method
    → Serves debug_build url method (type_of url method)
unfolding type_of
type_of-Serves debug_build url method usual =
    elim (At-cases url method (text "/api/upload") (text "POST")) [
      | inl (e, at) ↦ rw e at
      | inr (e, a) ↦ elim (At-cases url method (text "/api/command") (text "POST")) [
        | inl (e', at) ↦ rw (e, e') at
        | inr (e', b) ↦ elim (At-cases url method (text "/api/status") (text "GET")) [
          | inl (e'', at) ↦ rw (e, e', e'') at
          | inr (e'', c) ↦ elim (At-cases url method (text "/api/reset") (text "POST")) [
            | inl (e3, at) ↦ rw (e, e', e'', e3) at
            | inr (e3, d) ↦ rw (e, e', e'', e3) (a, b, c, d, usual)
          ]
        ]
      ]
    ]

-- What the debug route does with the lock of an owner.
abbrev pub locked : Owner → Daemon → Outcome Daemon × Reply
locked no_owner d = (replied (record d { owner = serial }) [], lock_acquired)
locked _ d = (replied d [], lock_held)

locked_lem :
    (owner : Owner) (d : Daemon)
    → d.owner ≡ owner
    → debug_done (try_acquire serial owner) d ≡ locked owner d
locked_lem no_owner d e = refl
locked_lem http d e = ap (λ owner. (replied (record d { owner = owner }) [], lock_held)) (sym e)
locked_lem serial d e = ap (λ owner. (replied (record d { owner = owner }) [], lock_held)) (sym e)

-- The server has the routes POST /api/upload, POST /api/command, GET /api/status and POST /api/reset,
-- and a debug build has POST /api/debug/lock-serial. A request on one of them is answered by its
-- handler and any other as not found; and however its data comes in parts that are not empty, the
-- calls of the library come to what one call with all the data would do: a status and an unknown
-- address change nothing; a reset frees the lock; a command is processed once, on its whole body, and
-- never answered if the body is empty; an upload changes the files only; the debug route takes the
-- lock for the serial side if it is free.
pub request_lem :
    (env : Surroundings) (parse : Bytes → Parsed) (renames debug_build pp : Bool)
    (url method : Bytes) (parts : List Part) (d : Daemon)
    → All (λ part. is_empty part.bytes ≡ false) parts
    → (IsLock debug_build url method
        × (request env parse renames debug_build pp url method parts d ≡ locked d.owner d))
      ⊎ ((type : RequestType) × Serves debug_build url method type
          × (request env parse renames debug_build pp url method parts d
              ≡ whole env parse renames type pp parts d))
request_lem env parse renames debug_build pp url method parts d h =
    elim (IsLock-cases debug_build url method) [
      | inl (e, lock) ↦ inl (
        lock,
        request_whole env parse renames debug_build pp url method parts d h
            ∙ rw e (locked_lem d.owner d refl),
      )
      | inr (e, usual) ↦ inr (
        type_of url method,
        type_of-Serves debug_build url method usual,
        request_whole env parse renames debug_build pp url method parts d h ∙ rw e refl,
      )
    ]

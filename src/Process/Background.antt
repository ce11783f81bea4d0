-- ===== src/Process/Background.antt =====
-- The ways of a start in the background.
use rk_firmware_flashd.Configuration.{Config}
use rk_firmware_flashd.Files.{Files, put}
use rk_firmware_flashd.Prelude.{some, ◌≡◌, refl, ◌⊎◌, inl, inr, Bool-cases, true, false}
use rk_firmware_flashd.Process.{
  Fork, fork_failed, in_parent, in_child, Calls, exits, refused, detached, pid_line, settle,
  daemonize,
}

-- The process is the parent of one of the forks.
abbrev pub IsParent : Calls → Type 0
IsParent calls =
    (calls.first_fork ≡ in_parent)
    ⊎ ((calls.first_fork ≡ in_child) × (calls.setsid ≡ true) × (calls.second_fork ≡ in_parent))

-- One of the calls fails.
abbrev pub IsBroken : Calls → Type 0
IsBroken calls =
    (calls.first_fork ≡ fork_failed)
    ⊎ ((calls.first_fork ≡ in_child)
        × ((calls.setsid ≡ false)
            ⊎ (calls.second_fork ≡ fork_failed)
            ⊎ ((calls.second_fork ≡ in_child) × (calls.chdir ≡ false))))

-- The process is the daemon.
abbrev pub IsDetached : Calls → Type 0
IsDetached calls =
    (calls.first_fork ≡ in_child)
    × (calls.setsid ≡ true)
    × (calls.second_fork ≡ in_child)
    × (calls.chdir ≡ true)

fork_cases : (f : Fork) → (f ≡ fork_failed) ⊎ (f ≡ in_parent) ⊎ (f ≡ in_child)
fork_cases fork_failed = inl refl
fork_cases in_parent = inr (inl refl)
fork_cases in_child = inr (inr refl)

settle_cases :
    (calls : Calls) (cfg : Config) (files : Files)
    → ((calls.chdir ≡ false) × (settle calls cfg files ≡ refused))
      ⊎ ((calls.chdir ≡ true) × (files' : Files) × (settle calls cfg files ≡ detached files'))
settle_cases calls cfg files = elim (Bool-cases calls.chdir) [
  | inr fails ↦ inl (fails, rw fails refl)
  | inl works ↦ elim (Bool-cases calls.opens_pid_file) [
    | inl opens ↦
        inr (works, put files cfg.pid_file (some (pid_line calls.pid)), rw (works, opens) refl)
    | inr none' ↦ inr (works, files, rw (works, none') refl)
  ]
]

pub daemonize_cases :
    (calls : Calls) (cfg : Config) (files : Files)
    → (IsParent calls × (daemonize calls cfg files ≡ exits))
      ⊎ (IsBroken calls × (daemonize calls cfg files ≡ refused))
      ⊎ (IsDetached calls × ((files' : Files) × (daemonize calls cfg files ≡ detached files')))
unfolding daemonize
daemonize_cases calls cfg files = elim (fork_cases calls.first_fork) [
  | inl e ↦ inr (inl (inl e, rw e refl))
  | inr (inl e) ↦ inl (inl e, rw e refl)
  | inr (inr e) ↦ elim (Bool-cases calls.setsid) [
    | inr s ↦ inr (inl (inr (e, inl s), rw (e, s) refl))
    | inl s ↦ elim (fork_cases calls.second_fork) [
      | inl f ↦ inr (inl (inr (e, inr (inl f)), rw (e, s, f) refl))
      | inr (inl f) ↦ inl (inr (e, s, f), rw (e, s, f) refl)
      | inr (inr f) ↦ elim (settle_cases calls cfg files) [
        | inl (c, r) ↦ inr (inl (inr (e, inr (inr (f, c))), rw (e, s, f) r))
        | inr (c, files', r) ↦ inr (inr ((e, s, f, c), (files', rw (e, s, f) r)))
      ]
    ]
  ]
]

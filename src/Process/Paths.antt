-- ===== src/Process/Paths.antt =====
-- What the relative paths of the command line name once the daemon works in the root directory.
use rk_firmware_flashd.Configuration.{Config}
use rk_firmware_flashd.Prelude.{
  ◌≤◌, ◌≡◌, ◌≢◌, ◌⊎◌, refl, ap, Bool, true, false, not, ◌&&◌, some, [], ◌∷◌, ◌++◌, length,
  length-append, arith, Bool-cases, if◌then◌else◌, inl, inr,
}
use rk_firmware_flashd.Prelude.Text.{Bytes, is_empty, is_empty-append}
use rk_firmware_flashd.Process.{default_log, is_absolute, resolve, prepare}
use rk_firmware_flashd.Upload.Requests.{slash}

-- What a path names for a process that works in a directory; the root directory is the empty text.
abbrev pub located : (dir path : Bytes) → Bytes
located dir path = if is_absolute path then path else dir ++ (slash ∷ path)

is_absolute-append :
    (dir path : Bytes) → is_absolute dir ≡ true → is_absolute (dir ++ (slash ∷ path)) ≡ true
is_absolute-append [] path h = refl
is_absolute-append (c ∷ dir) path h = h

located-resolve :
    (dir path : Bytes)
    → is_absolute dir ≡ true
    → is_empty path ≡ false
    → located [] (resolve (some dir) path) ≡ located dir path
unfolding resolve
located-resolve dir path h given = elim (Bool-cases (is_absolute path)) [
  | inl absolute ↦ rw (given, absolute) (rw absolute refl)
  | inr relative ↦ rw (given, relative) (rw (is_absolute-append dir path h) refl)
]

is_empty-resolve :
    (dir path : Bytes) → is_empty path ≡ false → is_empty (resolve (some dir) path) ≡ false
unfolding resolve
is_empty-resolve dir path given = elim (Bool-cases (is_absolute path)) [
  | inl absolute ↦ rw (given, absolute) given
  | inr relative ↦ rw (given, relative) (is_empty-append dir path slash)
]

-- A relative path in the root directory is not what it was in a directory with a name.
located-moved :
    (dir path : Bytes)
    → 2 ≤ length dir
    → is_absolute path ≡ false
    → located [] path ≢ located dir path
located-moved dir path long relative =
    rw relative (λ e. absurd (omega (arith, long, ap length e, length-append dir (slash ∷ path))))

-- What becomes of a path that is left as it is.
abbrev pub LeftAlone : (dir path path' : Bytes) → Type 0
LeftAlone dir path path' =
    ((is_absolute path ≡ true) × (located [] path' ≡ located dir path))
    ⊎ ((is_absolute path ≡ false) × (located [] path' ≢ located dir path))

left_alone : (dir path : Bytes) → 2 ≤ length dir → LeftAlone dir path path
left_alone dir path long = elim (Bool-cases (is_absolute path)) [
  | inl absolute ↦ inl (absolute, rw absolute refl)
  | inr relative ↦ inr (relative, located-moved dir path long relative)
]

-- Where the system tells in which directory the daemon was started, and that is not the root
-- directory: the upload directory and the log file that were given, relative or not, name in the root
-- directory what they named there, whatever the other paths are. The directory of the scripts and
-- the pid file do so only if they are absolute.
pub prepare_lem :
    (dir : Bytes) (cfg : Config)
    → is_absolute dir ≡ true
    → 2 ≤ length dir
    → is_empty cfg.upload_dir ≡ false
    → is_empty cfg.log_file ≡ false
    → let c = prepare (some dir) cfg in
      (located [] c.upload_dir ≡ located dir cfg.upload_dir)
      × (located [] c.log_file ≡ located dir cfg.log_file)
      × LeftAlone dir cfg.scripts_dir c.scripts_dir
      × LeftAlone dir cfg.pid_file c.pid_file
unfolding prepare
prepare_lem dir cfg h long given logged = (
  located-resolve dir cfg.upload_dir h given,
  rw (is_empty-resolve dir cfg.log_file logged)
      (kept cfg.foreground (located-resolve dir cfg.log_file h logged)),
  left_alone dir cfg.scripts_dir long,
  left_alone dir cfg.pid_file long,
)
  where
    kept :
        (b : Bool)
        → located [] (resolve (some dir) cfg.log_file) ≡ located dir cfg.log_file
        → located [] (if not b && false then default_log else resolve (some dir) cfg.log_file)
          ≡ located dir cfg.log_file
    kept true e = e
    kept false e = e

-- ===== src/Process/Ending.antt =====
-- `main` as a whole, from the command line to the status of the process.
use rk_firmware_flashd.Configuration.{Config, ArgError, default_config, parse_args}
use rk_firmware_flashd.Files.{Files}
use rk_firmware_flashd.Lock.{Owner}
use rk_firmware_flashd.Prelude.{
  ◌≤◌, ◌≡◌, refl, ◌⊎◌, inl, inr, sym, ap, subst, Bool, true, false, not, List, ◌++◌, if◌then◌else◌,
}
use rk_firmware_flashd.Prelude.Result.{Result, ok, err}
use rk_firmware_flashd.Prelude.Text.{Bytes}
use rk_firmware_flashd.Process.{Paths, mkdir_p, prepare, Detached, detached, daemonize}
use rk_firmware_flashd.Process.Background.{IsParent, IsBroken, IsDetached, daemonize_cases}
use rk_firmware_flashd.Process.Main.{
  run_daemon, Environment, End, Second, gives_up, on_detached, prepared, on_config, main,
}
use rk_firmware_flashd.Process.Loop.{asked_to_end}
use rk_firmware_flashd.SerialDaemon.{Turn}
use rk_firmware_flashd.SerialDaemon.Potential.{is_main, is_reader, count}
use rk_firmware_flashd.Process.Shutdown.{EndsWith, run_daemon-EndsWith}

-- What `main` comes to with a configuration that does not ask for help: a process that leaves the
-- rest to its child, one that gives up, or the end of the daemon.
abbrev pub RunsFor : (Bytes → Owner → Bytes × Owner) → Environment → Config → End → Type 0
RunsFor handler env cfg end =
    ((cfg.foreground ≡ false) × IsParent env.calls × (end ≡ gives_up 0))
    ⊎ ((cfg.foreground ≡ false) × IsBroken env.calls × (end ≡ gives_up 1))
    ⊎ (((cfg.foreground ≡ true) ⊎ IsDetached env.calls)
        × EndsWith cfg handler env.calls (if env.mhd_starts then 0 else 1) end)

-- What `main` comes to with the configuration of the command line, and with that of the start.
abbrev pub EndsFor : (Bytes → Owner → Bytes × Owner) → Environment → Config → Config → End → Type 0
EndsFor handler env given cfg end =
    ((given.help ≡ true) × (end ≡ gives_up 0))
    ⊎ ((given.help ≡ false) × RunsFor handler env cfg end)

module _ (handler : Bytes → Owner → Bytes × Owner) (env : Environment) where
  prepared-RunsFor :
      (cfg : Config) (seconds : List Second) (first second third : List Turn) (paths : Paths)
      (files : Files)
      → asked_to_end seconds ≡ true
      → 2 ≤ count is_main first
      → 6 ≤ count is_reader second
      → 10 ≤ count is_main third
      → RunsFor handler env cfg
          (prepared handler env cfg seconds (first ++ (second ++ third)) paths files)
  prepared-RunsFor cfg seconds first second third paths files asked n m k =
      by_mode cfg.foreground refl
    where
      runs :
          (files' : Files)
          → EndsWith cfg handler env.calls (if env.mhd_starts then 0 else 1) (
              run_daemon cfg handler env seconds
                (first ++ (second ++ third))
                (mkdir_p env.mkdir cfg.upload_dir paths).0
                files')
      runs files' =
          run_daemon-EndsWith cfg handler env seconds first second third
            (mkdir_p env.mkdir cfg.upload_dir paths).0 files' asked n m k

      end_of : Detached → End
      end_of x =
          on_detached handler env cfg seconds (first ++ (second ++ third))
            (mkdir_p env.mkdir cfg.upload_dir paths).0 x

      by_mode :
          (b : Bool)
          → cfg.foreground ≡ b
          → RunsFor handler env cfg
              (end_of (if not b then daemonize env.calls cfg files else detached files))
      by_mode true e = inr (inr (inl e, runs files))
      by_mode false back = elim (daemonize_cases env.calls cfg files) [
        | inl (parent, e) ↦ inl (back, parent, ap end_of e)
        | inr (inl (fails, e)) ↦ inr (inl (back, fails, ap end_of e))
        | inr (inr (child, (files', e))) ↦ inr (
            inr (
              inr child,
              subst (EndsWith cfg handler env.calls (if env.mhd_starts then 0 else 1))
                  (ap end_of (sym e)) (runs files'),
            ))
      ]

  configured-EndsFor :
      (given : Config) (help : Bool) (seconds : List Second) (first second third : List Turn)
      (paths : Paths) (files : Files)
      → given.help ≡ help
      → asked_to_end seconds ≡ true
      → 2 ≤ count is_main first
      → 6 ≤ count is_reader second
      → 10 ≤ count is_main third
      → EndsFor handler env given (prepare env.realpath given) (
          if help
          then gives_up 0
          else prepared handler env
              (prepare env.realpath given)
              seconds
              (first ++ (second ++ third))
              paths
              files)
  configured-EndsFor given true seconds first second third paths files e asked n m k = inl (e, refl)
  configured-EndsFor given false seconds first second third paths files e asked n m k = inr (
    e,
    prepared-RunsFor (prepare env.realpath given) seconds first second third paths files asked n m
        k,
  )

  -- `main` comes to its end if the loop is told to end by SIGTERM or SIGINT, whatever SIGHUPs come
  -- before, provided that the threads get their turns (two of the main thread, then six of the
  -- reader, then ten of the main thread). It gives up with 1 on a command line that is wrong, and with
  -- 0 on one that asks for help. Without that, a start in the background ends with 0 in the parent of
  -- a fork, and with 1 where a fork, setsid or chdir fails; else, as in the foreground, `main` returns
  -- 0, or 1 if the HTTP server cannot be started, and then the reader is joined, the port closed, the
  -- lock free, the HTTP server down, and the pid file of a daemon in the background removed, if it
  -- can be.
  pub main_ends :
      (args : List Bytes) (seconds : List Second) (first second third : List Turn) (paths : Paths)
      (files : Files)
      → asked_to_end seconds ≡ true
      → 2 ≤ count is_main first
      → 6 ≤ count is_reader second
      → 10 ≤ count is_main third
      → let end = main handler env args seconds (first ++ (second ++ third)) paths files in
        ((e : ArgError) × (parse_args args default_config ≡ err e) × (end ≡ gives_up 1))
        ⊎ ((given : Config) × (parse_args args default_config ≡ ok given)
            × EndsFor handler env given (prepare env.realpath given) end)
  unfolding main
  main_ends args seconds first second third paths files asked n m k =
      parsed (parse_args args default_config) refl
    where
      parsed :
          (r : Result ArgError Config)
          → parse_args args default_config ≡ r
          → let end = on_config handler env r seconds (first ++ (second ++ third)) paths files in
            ((e : ArgError) × (parse_args args default_config ≡ err e) × (end ≡ gives_up 1))
            ⊎ ((given : Config) × (parse_args args default_config ≡ ok given)
                × EndsFor handler env given (prepare env.realpath given) end)
      parsed (err e) h = inl (e, h, refl)
      parsed (ok given) h = inr (
        given,
        h,
        configured-EndsFor given given.help seconds first second third paths files refl asked n m k,
      )

-- ===== src/Process/Tests.antt =====
-- Starts and ends of the daemon.
use rk_firmware_flashd.Configuration.{Config, ArgError, default_config, parse_args}
use rk_firmware_flashd.Lock.{Owner}
use rk_firmware_flashd.Prelude.{
  ◌≡◌, refl, ◌⊎◌, true, false, none, some, List, [], ◌∷◌, ◌++◌, replicate, All, arith,
  if◌then◌else◌,
}
use rk_firmware_flashd.Prelude.Result.{err, ok}
use rk_firmware_flashd.Prelude.Text.{Bytes, beq, text}
use rk_firmware_flashd.Process.{
  Paths, Made, made, failed, mkdir_p, mkdir_loop, prepare, Calls, in_child, in_parent, daemonize,
  exits, refused, sigterm, sighup,
}
use rk_firmware_flashd.Process.Directories.{prefixes, IsThere, IsRefused, mkdir_p_lem}
use rk_firmware_flashd.Process.Ending.{EndsFor, main_ends}
use rk_firmware_flashd.Process.Loop.{asked_in, asked_to_end}
use rk_firmware_flashd.Process.Main.{Environment, gives_up, Second, main}
use rk_firmware_flashd.Process.Paths.{located, LeftAlone, prepare_lem}
use rk_firmware_flashd.SerialDaemon.{Turn, main_turn, reader_turn, Event}

-- A disk with a root directory, on which "/a/c" cannot be made.
abbrev mkdir : Bytes → Made
mkdir path = if beq path (text "/a/c") then failed else made

abbrev disk : Paths
disk path = beq path (text "/")

mkdir_p_lem_example :
    ((mkdir_p mkdir (text "/a/b") disk).0 (text "/") ≡ true)
    × (((mkdir_p mkdir (text "/a/b") disk).1 ≡ true)
          × All (IsThere mkdir (mkdir_p mkdir (text "/a/b") disk).0) (prefixes (text "/a/b"))
        ⊎ ((mkdir_p mkdir (text "/a/b") disk).1 ≡ false) × IsRefused mkdir disk)
unfolding text beq
mkdir_p_lem_example = mkdir_p_lem mkdir (text "/a/b") (text "/") disk refl

refused_test : (mkdir_p mkdir (text "/a/c") disk).1 ≡ false
unfolding mkdir_loop text beq
refused_test = refl

abbrev cfg : Config
cfg = record default_config {
  upload_dir = text "uploads";
  log_file = text "flashd.log";
  pid_file = text "flashd.pid";
}

-- The scripts are in the directory of the default, which is absolute.
prepare_lem_example :
    let c = prepare (some (text "/home/user")) cfg in
    (located [] c.upload_dir ≡ located (text "/home/user") cfg.upload_dir)
    × (located [] c.log_file ≡ located (text "/home/user") cfg.log_file)
    × LeftAlone (text "/home/user") cfg.scripts_dir c.scripts_dir
    × LeftAlone (text "/home/user") cfg.pid_file c.pid_file
unfolding text
prepare_lem_example = prepare_lem (text "/home/user") cfg refl (omega arith) refl refl

abbrev calls : Calls
calls = record {
  first_fork = in_child;
  setsid = true;
  second_fork = in_child;
  chdir = true;
  pid = 42;
  opens_pid_file = true;
  unlinks_pid_file = true;
}

-- A call that fails behind the first fork is answered by the child; the first process has exited with
-- 0.
exits_test :
    (daemonize (record calls { first_fork = in_parent }) cfg (λ _. none) ≡ exits)
    × (daemonize (record calls { setsid = false }) cfg (λ _. none) ≡ refused)
unfolding daemonize
exits_test = (refl, refl)

abbrev env : Environment
env = record {
  realpath = some (text "/home/user");
  mkdir = mkdir;
  calls = calls;
  opens_log = true;
  log_reason = [];
  serial = record { get_port_by_name = true; sp_open = true; posix_open = true; tcsetattr = true };
  mhd_starts = true;
}

abbrev handler : Bytes → Owner → Bytes × Owner
handler line owner = (text "OK", owner)

abbrev silent : Event
silent = record { line = none; answers = env.serial; accepted = true }

abbrev args : List Bytes
args = text "--serial-device" ∷ text "/dev/ttyS1" ∷ []

abbrev seconds : List Second
seconds =
    record { events = silent ∷ []; signals = sighup ∷ [] }
    ∷ record { events = silent ∷ silent ∷ []; signals = sigterm ∷ [] }
    ∷ []

abbrev turns : List Turn
turns = main_turn ∷ main_turn ∷ []

abbrev reads : List Turn
reads = replicate 6 (reader_turn silent)

abbrev ends : List Turn
ends = replicate 10 main_turn

main_ends_example :
    let end = main handler env args seconds (turns ++ (reads ++ ends)) disk (λ _. none) in
    ((e : ArgError) × (parse_args args default_config ≡ err e) × (end ≡ gives_up 1))
    ⊎ ((given : Config) × (parse_args args default_config ≡ ok given)
        × EndsFor handler env given (prepare env.realpath given) end)
unfolding asked_to_end asked_in
main_ends_example =
    main_ends handler env args seconds turns reads ends disk (λ _. none) refl (omega arith)
      (omega arith) (omega arith)

help_test : main handler env (text "--help" ∷ []) [] [] disk (λ _. none) ≡ gives_up 0
unfolding main parse_args text beq
help_test = refl

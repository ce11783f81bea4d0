-- ===== src/Logger/Tests.antt =====
-- A line in the log, and a log file that cannot be opened.
use rk_firmware_flashd.Files.{append}
use rk_firmware_flashd.Logger.{
  debug, info, level_rank, level_str, Logger, Time, padded, timestamp, short_file, heading,
  formatted, init, log_macro,
}
use rk_firmware_flashd.Logger.Lines.{log_macro_lem}
use rk_firmware_flashd.Prelude.{
  ◌≤◌, ◌<◌, ◌≡◌, refl, ◌⊎◌, false, none, some, [], ◌∷◌, ◌++◌, length, take, arith,
}
use rk_firmware_flashd.Prelude.Number.{emit, to_string}
use rk_firmware_flashd.Prelude.Text.{Bytes, rfind, text}

abbrev logger : Logger
logger = record { log_file = some (text "/log"); level = debug; files = λ _. some []; stderr = [] }

abbrev time : Time
time = record { year = 2025; month = 3; day = 7; hour = 16; minute = 5; second = 0; usec = 42999 }

abbrev place : Bytes
place = text "src/main.cpp"

formatted_test :
    formatted time info place 81 (text "Starting")
    ≡ text "[2025-03-07 16:05:00.042] [INFO ] (main.cpp:81) Starting"
unfolding formatted heading timestamp padded level_str short_file rfind to_string emit text
formatted_test = refl

init_test :
    (init false (text "/log") (text "No space") (record logger { log_file = none })).stderr
    ≡ text "Logger: failed to open log file /log: No space" ++ (10 ∷ [])
unfolding init text
init_test = refl

short : length (short_file place) ≤ 900
unfolding short_file rfind text
short = omega arith

log_macro_lem_example :
    let written = (heading time info place 81 ++ take 1023 (text "Starting")) ++ (10 ∷ []) in
    (length written ≤ 2048)
    × ((level_rank info < level_rank logger.level)
          × (log_macro time info place 81 (text "Starting") logger ≡ logger)
        ⊎ (level_rank logger.level ≤ level_rank info)
          × (((path : Bytes) × (logger.log_file ≡ some path)
                × (log_macro time info place 81 (text "Starting") logger
                    ≡ record logger { files = append logger.files path written }))
              ⊎ (logger.log_file ≡ none)
                × (log_macro time info place 81 (text "Starting") logger
                    ≡ record logger { stderr = logger.stderr ++ written })))
log_macro_lem_example = log_macro_lem time info place 81 (text "Starting") logger short

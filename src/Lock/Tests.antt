-- ===== src/Lock/Tests.antt =====
-- Interleavings of the two threads.
use rk_firmware_flashd.Lock.{http, serial}
use rk_firmware_flashd.Lock.Interleaving.{
  plain, command, api_reset, Threads, waiting, handling, Turn, http_turn, reader_turn, start, run,
}
use rk_firmware_flashd.Lock.Interleaving.Exclusion.{
  http_inside, reader_inside, mutual_exclusion, force_release_overlaps,
}
use rk_firmware_flashd.Prelude.{◌≡◌, ◌⊎◌, refl, true, false, ◌&&◌, List, [], ◌∷◌}

-- The HTTP thread sees the lock free, the reader takes it, and the HTTP thread finds it taken.
abbrev turns : List Turn
turns =
    http_turn (command false plain)
    ∷ reader_turn plain
    ∷ http_turn (command false plain)
    ∷ reader_turn plain
    ∷ []

mutual_exclusion_example :
    ((http_inside (run turns start).http_phase ≡ false) ⊎ ((run turns start).owner ≡ http))
    × ((reader_inside (run turns start).reader_phase ≡ false) ⊎ ((run turns start).owner ≡ serial))
    × ((http_inside (run turns start).http_phase && reader_inside (run turns start).reader_phase)
        ≡ false)
mutual_exclusion_example = mutual_exclusion turns refl

abbrev handling_a_line : Threads
handling_a_line = record { owner = serial; http_phase = waiting; reader_phase = handling plain }

force_release_overlaps_example :
    let after =
      run
        (http_turn api_reset ∷ http_turn (command false plain) ∷ http_turn api_reset ∷ [])
        handling_a_line in
    ((http_inside after.http_phase && reader_inside after.reader_phase) ≡ true)
    × (after.owner ≡ http)
force_release_overlaps_example = force_release_overlaps handling_a_line plain api_reset refl refl

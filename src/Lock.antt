-- ===== src/Lock.antt =====
-- src/serial_daemon.cpp: the session lock, one atomic word that names the owner. Each operation is
-- one atomic read, exchange or compare-and-exchange.
pub mod Interleaving
mod Tests
use rk_firmware_flashd.Prelude.{Bool, true, false, not, if◌then◌else◌}

pub data Owner : Type 0 where
  no_owner http serial : Owner

abbrev pub same_owner : Owner → Owner → Bool
same_owner no_owner no_owner = true
same_owner http http = true
same_owner serial serial = true
same_owner _ _ = false

-- `compare_exchange_strong`: the word afterwards, and whether it was exchanged.
abbrev pub compare_exchange : (owner expected desired : Owner) → Owner × Bool
compare_exchange owner expected desired =
    if same_owner owner expected then (desired, true) else (owner, false)

abbrev pub try_acquire : (who owner : Owner) → Owner × Bool
try_acquire who owner = compare_exchange owner no_owner who

abbrev pub release : (who owner : Owner) → Owner
release who owner = (compare_exchange owner who no_owner).0

-- `exchange(NONE)`.
abbrev pub force_release : Owner → Owner
force_release owner = no_owner

abbrev pub is_busy : Owner → Bool
is_busy owner = not (same_owner owner no_owner)

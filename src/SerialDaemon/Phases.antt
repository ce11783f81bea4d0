-- ===== src/SerialDaemon/Phases.antt =====
-- What holds at each phase of `stop`, and that every step of either thread keeps it.
use rk_firmware_flashd.Configuration.{Config}
use rk_firmware_flashd.Lock.{Owner, no_owner}
use rk_firmware_flashd.Prelude.{
  ◌≡◌, refl, sym, ap, subst, ◌∙◌, ◌⊎◌, inl, inr, Bool, true, false, arith, if◌then◌else◌,
}
use rk_firmware_flashd.Prelude.Text.{Bytes}
use rk_firmware_flashd.SerialDaemon.{
  Thread, no_thread, testing, reading, retesting, reconnecting, busy_reply, finished, hung,
  acquiring, checking, handling, answering, SerialDaemon, Event, goto, reader_step, Caller, by_main,
  by_stop, MainPhase, asking, storing, closing, joining, shutting, freeing, stopped, returned,
  asked, join, main_step,
}
use rk_firmware_flashd.SerialDaemon.Steps.{is_hung, reader_step-IsStep}
use rk_firmware_flashd.SerialPort.Device.{SerialPort, is_open, close}

abbrev pub Alive : SerialDaemon → Type 0
Alive d = is_hung d.thread ≡ false

-- What holds at each phase of the main thread: the flag is down behind the store, the thread is
-- joined behind `stop_reader`, the port is closed behind `close`, and the lock is free at the end.
abbrev pub Inv : MainPhase → SerialDaemon → Type 0
Inv (asking caller) d =
    Alive d × ((d.reader_running ≡ true) ⊎ ((d.thread ≡ no_thread) × (d.reader_running ≡ false)))
Inv (storing caller) d = Alive d × Unit
Inv (closing caller) d = Alive d × (d.reader_running ≡ false)
Inv (joining caller) d = Alive d × (d.reader_running ≡ false)
Inv shutting d = (d.thread ≡ no_thread) × (d.reader_running ≡ false)
Inv freeing d = (d.thread ≡ no_thread) × (d.reader_running ≡ false) × (is_open d.port ≡ false)
Inv stopped d =
    (d.thread ≡ no_thread)
    × (d.reader_running ≡ false)
    × (is_open d.port ≡ false)
    × (d.owner ≡ no_owner)

close-is_open : (p : SerialPort) → is_open (close p) ≡ false
unfolding close
close-is_open p = ground arith

close_if_open-closed : (p : SerialPort) → is_open (if is_open p then close p else p) ≡ false
close_if_open-closed p = ground (arith, close-is_open p)

returned-Inv :
    (caller : Caller) (d : SerialDaemon)
    → d.thread ≡ no_thread
    → d.reader_running ≡ false
    → Inv (returned caller) d
returned-Inv by_main d h off = (rw h refl, inr (h, off))
returned-Inv by_stop d h off = (h, off)

join-Inv :
    (caller : Caller) (t : Thread) (d : SerialDaemon)
    → d.thread ≡ t
    → is_hung t ≡ false
    → d.reader_running ≡ false
    → Inv (join caller t d).1 (join caller t d).0
join-Inv caller no_thread d at h off = returned-Inv caller d at off
join-Inv caller finished d at h off = returned-Inv caller (goto no_thread d) refl off
join-Inv caller testing d at h off = (rw at h, off)
join-Inv caller reading d at h off = (rw at h, off)
join-Inv caller retesting d at h off = (rw at h, off)
join-Inv caller reconnecting d at h off = (rw at h, off)
join-Inv caller busy_reply d at h off = (rw at h, off)
join-Inv caller hung d at h off = absurd cc
join-Inv caller (acquiring line) d at h off = (rw at h, off)
join-Inv caller (checking line) d at h off = (rw at h, off)
join-Inv caller (handling line) d at h off = (rw at h, off)
join-Inv caller (answering response) d at h off = (rw at h, off)

asking-Inv :
    (caller : Caller) (running : Bool) (d : SerialDaemon)
    → d.reader_running ≡ running
    → Inv (asking caller) d
    → Inv (asked caller running) d
asking-Inv caller true d e (alive, _) = (alive, tt)
asking-Inv caller false d e (alive, inl on) = absurd cc
asking-Inv caller false d e (alive, inr (none, off)) = returned-Inv caller d none off

pub Inv-Alive : (main : MainPhase) (d : SerialDaemon) → Inv main d → Alive d
Inv-Alive (asking caller) d h = h.0
Inv-Alive (storing caller) d h = h.0
Inv-Alive (closing caller) d h = h.0
Inv-Alive (joining caller) d h = h.0
Inv-Alive shutting d h = rw h.0 refl
Inv-Alive freeing d h = rw h.0 refl
Inv-Alive stopped d h = rw h.0 refl

-- The steps of the main thread.
pub main_step-Inv :
    (main : MainPhase) (d : SerialDaemon)
    → Inv main d
    → Inv (main_step main d).1 (main_step main d).0
unfolding main_step
main_step-Inv (asking caller) d h = asking-Inv caller d.reader_running d refl h
main_step-Inv (storing caller) d (alive, _) = (alive, refl)
main_step-Inv (closing caller) d h = h
main_step-Inv (joining caller) d (alive, off) = join-Inv caller d.thread d refl alive off
main_step-Inv shutting d (none, off) = (none, off, close_if_open-closed d.port)
main_step-Inv freeing d (none, off, shut) = (none, off, shut, refl)
main_step-Inv stopped d h = h

-- The steps of the reader.
module _ (cfg : Config) (handler : Bytes → Owner → Bytes × Owner) (event : Event) where
  pub still :
      (d : SerialDaemon) → d.thread ≡ no_thread → reader_step cfg handler event d.thread d ≡ d
  unfolding reader_step
  still d h = ap (λ t. reader_step cfg handler event t d) h

  pub reader_step-Inv :
      (main : MainPhase) (d : SerialDaemon)
      → Inv main d
      → Inv main (reader_step cfg handler event d.thread d)
  reader_step-Inv (asking caller) d (alive, inl on) =
      let s = reader_step-IsStep cfg handler event d.thread d refl alive in
      (s.free, inl (s.flag ∙ on))
  reader_step-Inv (asking caller) d (alive, inr (none, off)) =
      subst (Inv (asking caller)) (sym (still d none)) (alive, inr (none, off))
  reader_step-Inv (storing caller) d (alive, _) =
      ((reader_step-IsStep cfg handler event d.thread d refl alive).free, tt)
  reader_step-Inv (closing caller) d (alive, off) =
      let s = reader_step-IsStep cfg handler event d.thread d refl alive in (s.free, s.flag ∙ off)
  reader_step-Inv (joining caller) d (alive, off) =
      let s = reader_step-IsStep cfg handler event d.thread d refl alive in (s.free, s.flag ∙ off)
  reader_step-Inv shutting d h = subst (Inv shutting) (sym (still d h.0)) h
  reader_step-Inv freeing d h = subst (Inv freeing) (sym (still d h.0)) h
  reader_step-Inv stopped d h = subst (Inv stopped) (sym (still d h.0)) h

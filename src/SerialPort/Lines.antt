-- ===== src/SerialPort/Lines.antt =====
-- Lines that arrive in time, and lines that do not.
use rk_firmware_flashd.Prelude.{
  ℕ, ◌-◌, arith, length-append, ◌≤◌, ◌<◌, ◌≡◌, ◌≢◌, refl, sym, ap, ap₂, ◌∙◌, Bool, true, false,
  ◌||◌, Option, none, some, List, [], ◌∷◌, ◌++◌, append-nil, append_assoc, map, All, length, ne→==,
  lt→leb, le→leb, le→ltb,
}
use rk_firmware_flashd.Prelude.Text.{Bytes}
use rk_firmware_flashd.SerialPort.{
  Poll, received, nothing, got, no_line, drop_cr, end_line, read_loop, read_line, write_line,
}

-- Polls at the given times, each with a byte or with none.
abbrev pub poll : ℕ × Option ℕ → Poll
poll (at, none) = nothing at
poll (at, some byte) = received at byte

abbrev pub arriving : List (ℕ × Option ℕ) → List Poll
arriving arrivals = map poll arrivals

abbrev pub bytes_of : List (ℕ × Option ℕ) → Bytes
bytes_of [] = []
bytes_of ((at, none) ∷ arrivals) = bytes_of arrivals
bytes_of ((at, some byte) ∷ arrivals) = byte ∷ bytes_of arrivals

-- In time, and no line end.
abbrev pub InTime : ℕ → ℕ → ℕ × Option ℕ → Type 0
InTime timeout_ms start x = (x.0 - start < timeout_ms) × (x.1 ≢ some 10)

drop_cr_lem : (s : Bytes) → drop_cr (s ++ (13 ∷ [])) ≡ s
unfolding drop_cr
drop_cr_lem [] = refl
drop_cr_lem (c ∷ []) = refl
drop_cr_lem (c ∷ d ∷ s) = ap (◌∷◌ c) (drop_cr_lem (d ∷ s))

-- The loop collects what arrives in time, and waits while nothing does.
read_loop-arriving :
    (timeout_ms start : ℕ) (response : Bytes) (arrivals : List (ℕ × Option ℕ)) (polls : List Poll)
    → All (InTime timeout_ms start) arrivals
    → read_loop timeout_ms start response (arriving arrivals ++ polls)
      ≡ read_loop timeout_ms start (response ++ bytes_of arrivals) polls
unfolding read_loop
read_loop-arriving timeout_ms start response [] polls _ =
    ap (λ s. read_loop timeout_ms start s polls) (sym (append-nil response))
read_loop-arriving timeout_ms start response ((at, none) ∷ arrivals) polls (h, hs) =
    rw (lt→leb timeout_ms (at - start) h.0)
      (read_loop-arriving timeout_ms start response arrivals polls hs)
read_loop-arriving timeout_ms start response ((at, some byte) ∷ arrivals) polls (h, hs) =
    rw (lt→leb timeout_ms (at - start) h.0, ne→== byte 10 (λ e. h.1 (ap some e)))
      (read_loop-arriving timeout_ms start (response ++ (byte ∷ [])) arrivals polls hs
        ∙ ap (λ s. read_loop timeout_ms start s polls)
            (append_assoc response (byte ∷ []) (bytes_of arrivals)))

last_cancel : (s t : Bytes) (c : ℕ) → s ++ (c ∷ []) ≡ t ++ (c ∷ []) → s ≡ t
last_cancel [] [] c e = refl
last_cancel [] (y ∷ t) c e = absurd (omega (arith, ap length e, length-append t (c ∷ [])))
last_cancel (x ∷ s) [] c e = absurd (omega (arith, ap length e, length-append s (c ∷ [])))
last_cancel (x ∷ s) (y ∷ t) c e =
    let first : x ≡ y = cc in
    let others : s ++ (c ∷ []) ≡ t ++ (c ∷ []) = cc in ap₂ (◌∷◌) first (last_cancel s t c others)

-- What `writeLine` sends, but for its last byte.
without_end : (s line : Bytes) → s ++ (10 ∷ []) ≡ write_line line → s ≡ line ++ (13 ∷ [])
without_end s line e =
    last_cancel s (line ++ (13 ∷ [])) 10 (e ∙ sym (append_assoc line (13 ∷ []) (10 ∷ [])))

-- A line of at most 8192 bytes that was sent by `writeLine` and arrives whole before the time-out,
-- with any polls that give nothing before its bytes or between them, is read back as it was, if it
-- holds no line end; what comes behind it stays for the next read.
pub read_line-write_line :
    (port raw_fd : Bool) (timeout_ms start lf : ℕ) (line : Bytes) (arrivals : List (ℕ × Option ℕ))
    (polls : List Poll)
    → (port || raw_fd) ≡ true
    → bytes_of arrivals ++ (10 ∷ []) ≡ write_line line
    → All (InTime timeout_ms start) arrivals
    → lf - start < timeout_ms
    → length line ≤ 8192
    → read_line port raw_fd timeout_ms start (arriving arrivals ++ (received lf 10 ∷ polls))
      ≡ got line polls
unfolding read_line
read_line-write_line port raw_fd timeout_ms start lf line arrivals polls opened sent hs hlf short =
    rw opened (
      read_loop-arriving timeout_ms start [] arrivals (received lf 10 ∷ polls) hs
      ∙ ap (λ s. read_loop timeout_ms start s (received lf 10 ∷ polls))
          (without_end (bytes_of arrivals) line sent)
      ∙ unfold read_loop in
        rw (lt→leb timeout_ms (lf - start) hlf)
          (unfold end_line in rw (drop_cr_lem line, le→ltb 8192 (length line) short) refl))

given_up :
    (timeout_ms start at : ℕ) (response : Bytes) (byte : Option ℕ) (polls : List Poll)
    → timeout_ms ≤ at - start
    → read_loop timeout_ms start response (poll (at, byte) ∷ polls)
      ≡ no_line (poll (at, byte) ∷ polls)
unfolding read_loop
given_up timeout_ms start at response none polls late =
    rw (le→leb timeout_ms (at - start) late) refl
given_up timeout_ms start at response (some byte) polls late =
    rw (le→leb timeout_ms (at - start) late) refl

-- A line of which the front arrives in time, and of which the rest, with any polls that give nothing
-- before it, comes after the time-out, is cut: the read answers false and drops the front, and the
-- next read, which starts as the first one gives up, takes the rest for a line, if the rest arrives
-- in its time.
pub front_lost :
    (timeout_ms start lf : ℕ) (line rest : Bytes) (front back : List (ℕ × Option ℕ))
    (late : ℕ × Option ℕ) (polls : List Poll)
    → write_line line ≡ bytes_of front ++ write_line rest
    → bytes_of (late ∷ back) ++ (10 ∷ []) ≡ write_line rest
    → All (InTime timeout_ms start) front
    → timeout_ms ≤ late.0 - start
    → All (InTime timeout_ms late.0) (late ∷ back)
    → lf - late.0 < timeout_ms
    → length rest ≤ 8192
    → let behind = arriving (late ∷ back) ++ (received lf 10 ∷ polls) in
      (line ≡ bytes_of front ++ rest)
      × (read_line true false timeout_ms start (arriving front ++ behind) ≡ no_line behind)
      × (read_line true false timeout_ms late.0 behind ≡ got rest polls)
unfolding read_line
front_lost timeout_ms start lf line rest front back (at, byte) polls whole sent hs hlate hs' hlf
      short =
    (
      last_cancel line (bytes_of front ++ rest) 13 (
          without_end (line ++ (13 ∷ [])) (bytes_of front ++ rest) (
            append_assoc line (13 ∷ []) (10 ∷ [])
            ∙ whole
            ∙ sym (append_assoc (bytes_of front) rest (13 ∷ 10 ∷ [])))),
      read_loop-arriving timeout_ms start [] front
            (arriving ((at, byte) ∷ back) ++ (received lf 10 ∷ polls)) hs
          ∙ given_up timeout_ms start at (bytes_of front) byte
              (arriving back ++ (received lf 10 ∷ polls)) hlate,
      read_line-write_line true false timeout_ms at lf rest ((at, byte) ∷ back) polls refl sent hs'
          hlf short,
    )

-- ===== src/Logger/Lines.antt =====
-- The lines that the macros write.
use rk_firmware_flashd.Files.{append}
use rk_firmware_flashd.Logger.{
  LogLevel, debug, info, warn, error, level_rank, level_str, Logger, Time, timestamp, short_file,
  heading, formatted, write, log, log_macro,
}
use rk_firmware_flashd.Prelude.{
  ℕ, zero, suc, ◌+◌, ◌/◌, ◌%◌, ◌≤◌, ◌<◌, ◌≡◌, refl, ap, ◌⊎◌, inl, inr, ltb, ltb→lt, ltb→le, Option,
  none, some, [], ◌∷◌, ◌++◌, length, length-append, length-take, take, take_all, arith, Bool-cases,
}
use rk_firmware_flashd.Prelude.Number.{emit, to_string}
use rk_firmware_flashd.Prelude.Text.{Bytes, text}

length-emit : (fuel n : ℕ) (tail : Bytes) → length (emit fuel n tail) ≤ fuel + length tail
unfolding emit
length-emit zero n tail = omega arith
length-emit (suc fuel) n tail = ground (arith, length-emit fuel (n / 10) ((b'0' + n % 10) ∷ tail))

length-to_string : (n : ℕ) → length (to_string n) ≤ 20
unfolding to_string
length-to_string n = length-emit 20 n []

length-level_str : (level : LogLevel) → length (level_str level) ≡ 5
unfolding level_str text
length-level_str debug = refl
length-level_str info = refl
length-level_str warn = refl
length-level_str error = refl

length-timestamp : (t : Time) → length (timestamp t) ≤ 31
unfolding timestamp
length-timestamp t = short _
  where
    short : (s : Bytes) → length (take 31 s) ≤ 31
    short s = omega (arith, length-take 31 s)

length-pieces :
    (a b c d : Bytes)
    → length (
        (b'[' ∷ a)
        ++ (b']' ∷ b' ' ∷ b'[' ∷ b)
        ++ (b']' ∷ b' ' ∷ b'(' ∷ c)
        ++ (b':' ∷ d)
        ++ (b')' ∷ b' ' ∷ []))
      ≡ 10 + length a + length b + length c + length d
length-pieces a b c d =
    rw (length-append, length-append, length-append, length-append) (omega arith)

length-heading :
    (t : Time) (level : LogLevel) (file : Bytes) (line : ℕ)
    → length (heading t level file line) ≤ 66 + length (short_file file)
unfolding heading
length-heading t level file line = omega (
  arith,
  length-pieces (timestamp t) (level_str level) (short_file file) (to_string line),
  length-timestamp t,
  length-level_str level,
  length-to_string line,
)

length-cut : (n : ℕ) (front msg : Bytes) → length (front ++ take n msg) ≤ length front + n
length-cut n front msg = omega (arith, length-append front (take n msg), length-take n msg)

write-cases :
    (file : Option Bytes) (line : Bytes) (l : Logger)
    → l.log_file ≡ file
    → ((path : Bytes) × (l.log_file ≡ some path)
        × (write file line l ≡ record l { files = append l.files path line }))
      ⊎ (l.log_file ≡ none) × (write file line l ≡ record l { stderr = l.stderr ++ line })
write-cases none line l e = inr (e, refl)
write-cases (some path) line l e = inl (path, e, refl)

log-cases :
    (t : Time) (level : LogLevel) (file : Bytes) (line : ℕ) (msg written : Bytes) (l : Logger)
    → formatted t level file line msg ++ (10 ∷ []) ≡ written
    → (level_rank level < level_rank l.level) × (log t level file line msg l ≡ l)
      ⊎ (level_rank l.level ≤ level_rank level)
        × (((path : Bytes) × (l.log_file ≡ some path)
              × (log t level file line msg l ≡ record l { files = append l.files path written }))
            ⊎ (l.log_file ≡ none)
              × (log t level file line msg l ≡ record l { stderr = l.stderr ++ written }))
unfolding log
log-cases t level file line msg written l e =
    elim (Bool-cases (ltb (level_rank level) (level_rank l.level))) [
      | inl below ↦ inl (ltb→lt _ _ below, rw below refl)
      | inr kept ↦ inr (ltb→le _ _ kept, rw (kept, e) (write-cases l.log_file written l refl))
    ]

-- A message below the level of the logger changes nothing. Any other is written as one line, to the
-- open file or, without one, to the standard error: the time, the level and the place behind it, and
-- the first 1023 bytes of the message. With a file name of at most 900 bytes the line is never cut a
-- second time, and takes at most 2048 bytes with its end.
pub log_macro_lem :
    (t : Time) (level : LogLevel) (file : Bytes) (line : ℕ) (msg : Bytes) (l : Logger)
    → length (short_file file) ≤ 900
    → let written = (heading t level file line ++ take 1023 msg) ++ (10 ∷ []) in
      (length written ≤ 2048)
      × ((level_rank level < level_rank l.level) × (log_macro t level file line msg l ≡ l)
          ⊎ (level_rank l.level ≤ level_rank level)
            × (((path : Bytes) × (l.log_file ≡ some path)
                  × (log_macro t level file line msg l
                      ≡ record l { files = append l.files path written }))
                ⊎ (l.log_file ≡ none)
                  × (log_macro t level file line msg l
                      ≡ record l { stderr = l.stderr ++ written })))
unfolding log_macro
log_macro_lem t level file line msg l short = (
  omega (arith, fits, length-append (heading t level file line ++ take 1023 msg) (10 ∷ [])),
  log-cases t level file line (take 1023 msg) _ l
      (unfold formatted in ap (λ s. s ++ (10 ∷ [])) (take_all 2047 _ (omega (arith, fits)))),
)
  where
    fits : length (heading t level file line ++ take 1023 msg) ≤ 1989
    fits =
        omega
          (arith, length-cut 1023 (heading t level file line) msg, length-heading t level file line)

-- ===== src/Configuration/CommandLine.antt =====
-- Command lines and what they configure.
use rk_firmware_flashd.Configuration.{
  Config, default_config, leading_digits, atoi, set_option, parse_args,
}
use rk_firmware_flashd.Prelude.{
  ℕ, ◌%◌, ◌^◌, ◌≤◌, ◌<◌, ◌≡◌, ◌≢◌, refl, sym, ap, ap₂, ◌∙◌, true, false, ◌==◌, ne→==, List, [], ◌∷◌,
  all, arith, and-eq-true_iff,
}
use rk_firmware_flashd.Prelude.Number.{
  to_string, decimal, strtoull, strtoull-to_string, all-to_string,
}
use rk_firmware_flashd.Prelude.Result.{ok}
use rk_firmware_flashd.Prelude.Text.{Bytes, beq, drop_while, is_digit, is_space, text}

leading_digits-all : (s : Bytes) → all is_digit s ≡ true → leading_digits s ≡ s
unfolding leading_digits
leading_digits-all [] h = refl
leading_digits-all (c ∷ s) h =
    let (first, others) = (and-eq-true_iff (is_digit c) (all is_digit s)).0 h in
    rw first (ap (◌∷◌ c) (leading_digits-all s others))

digit_facts :
    (c : ℕ)
    → is_digit c ≡ true
    → (is_space c ≡ false) × ((c == b'-') ≡ false) × ((c == b'+') ≡ false)
digit_facts c h = ground arith

atoi-digits : (s : Bytes) → all is_digit s ≡ true → atoi s ≡ (false, decimal 0 s)
unfolding atoi drop_while
atoi-digits [] h = unfold decimal in refl
atoi-digits (c ∷ s) h =
    let (solid, minus, plus) =
      digit_facts c ((and-eq-true_iff (is_digit c) (all is_digit s)).0 h).0 in
    rw (solid, minus, plus) (ap (λ t. (false, decimal 0 t)) (leading_digits-all (c ∷ s) h))

decimal-to_string : (n : ℕ) → n < 2 ^ 31 → decimal 0 (to_string n) ≡ n
unfolding strtoull
decimal-to_string n h = omega (arith, strtoull-to_string n (omega arith))

-- `atoi` reads back what `std::to_string` prints of an int that is not negative.
atoi-to_string : (n : ℕ) → n < 2 ^ 31 → atoi (to_string n) ≡ (false, n)
atoi-to_string n h =
    atoi-digits (to_string n) (all-to_string n (omega arith))
    ∙ ap (λ m. (false, m)) (decimal-to_string n h)

set_option-port :
    (n : ℕ) (cfg : Config)
    → n < 2 ^ 31
    → n % 2 ^ 16 ≢ 0
    → set_option (text "--port") (to_string n) cfg ≡ ok (record cfg { port = n % 2 ^ 16 })
unfolding set_option text beq
set_option-port n cfg h p = rw (atoi-to_string n h, ne→== (n % 2 ^ 16) 0 p) refl

set_option-baud_rate :
    (n : ℕ) (cfg : Config)
    → n < 2 ^ 31
    → n ≢ 0
    → set_option (text "--baud-rate") (to_string n) cfg ≡ ok (record cfg { baud_rate = n })
unfolding set_option text beq
set_option-baud_rate n cfg h p = rw (atoi-to_string n h, ne→== n 0 p) refl

-- A command line that gives every option.
abbrev pub command_line : Config → List Bytes
command_line c =
    text "--port"
    ∷ to_string c.port
    ∷ text "--baud-rate"
    ∷ to_string c.baud_rate
    ∷ text "--serial-device"
    ∷ c.serial_device
    ∷ text "--upload-dir"
    ∷ c.upload_dir
    ∷ text "--scripts-dir"
    ∷ c.scripts_dir
    ∷ text "--log-file"
    ∷ c.log_file
    ∷ text "--pid-file"
    ∷ c.pid_file
    ∷ text "--foreground"
    ∷ []

-- A command line that gives every option is read as the configuration that it was made from, if the
-- port fits 16 bits and the baud rate an int, and neither is 0.
pub parse_args-command_line :
    (c : Config)
    → 0 < c.port
    → c.port < 2 ^ 16
    → 0 < c.baud_rate
    → c.baud_rate < 2 ^ 31
    → c.foreground ≡ true
    → c.help ≡ false
    → parse_args (command_line c) default_config ≡ ok c
unfolding parse_args set_option text beq
parse_args-command_line c p p' b b' foreground help =
    rw
      (
        atoi-to_string c.port (omega arith),
        kept,
        ne→== c.port 0 (omega arith),
        atoi-to_string c.baud_rate b',
        ne→== c.baud_rate 0 (omega arith),
      )
      (ap₂ (λ x y. ok (record c { foreground = x; help = y })) (sym foreground) (sym help))
  where
    kept : c.port % 2 ^ 16 ≡ c.port
    kept = omega arith

-- A port that does not fit 16 bits is not refused: the daemon listens on the port that is left
-- of it modulo 2 ^ 16, if that is not 0.
port_wraps :
    (n : ℕ) (cfg : Config)
    → 2 ^ 16 ≤ n
    → n < 2 ^ 31
    → n % 2 ^ 16 ≢ 0
    → (parse_args (text "--port" ∷ to_string n ∷ []) cfg ≡ ok (record cfg { port = n % 2 ^ 16 }))
      × (n % 2 ^ 16 ≢ n)
unfolding parse_args text beq
port_wraps n cfg large h p = (rw (set_option-port n cfg h p) refl, omega arith)

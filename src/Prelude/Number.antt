-- ===== src/Prelude/Number.antt =====
-- Numbers in text: `std::to_string`, `%04X`, and `strtoull`, `strtoul` on digits.
use Prim.Native.Nat.{ℕ, zero, suc, ◌+◌, ◌-◌, ◌*◌, ◌/◌, ◌%◌, ◌^◌, ◌≤◌, ◌<◌, min}
use mathlib.Core.Path.{◌≡◌, refl, ap, ◌∙◌}
use mathlib.Core.Bool.{true}
use mathlib.Core.List.{[], ◌∷◌}
use mathlib.Core.Logic.{inl, inr}
use native.Mathlib.Nat.{pow-suc}
use native.Mathlib.Omega.{arith}
use rk_firmware_flashd.Prelude.Tests.{lt→ltb, ltb→le, ltb, if◌then◌else◌, Bool-cases}
use rk_firmware_flashd.Prelude.Lists.{all}
use rk_firmware_flashd.Prelude.Text.{Bytes, is_digit, is_xdigit, is_lower}

-- The digits of `n` before `tail`. The fuel bounds the number of digits.
unfoldable pub emit : ℕ → ℕ → Bytes → Bytes
emit zero n tail = tail
emit (suc fuel) n tail =
    let more = emit fuel (n / 10) ((b'0' + n % 10) ∷ tail) in
    if ltb n 10 then (b'0' + n) ∷ tail else more

-- A number below 10 ^ 20 has at most twenty digits; so every 64-bit number has.
unfoldable pub to_string : ℕ → Bytes
unfolding emit
to_string n = emit 20 n []

unfoldable pub decimal : ℕ → Bytes → ℕ
decimal acc [] = acc
decimal acc (c ∷ s) = decimal (acc * 10 + (c - b'0')) s

abbrev pub max_u64 : ℕ
max_u64 = 2 ^ 64 - 1

-- `strtoull(s, nullptr, 10)` on a text of digits: too large a value gives the maximum.
unfoldable pub strtoull : Bytes → ℕ
strtoull s = min (decimal 0 s) max_u64

-- The value of a hexadecimal digit.
unfoldable pub hex_value : ℕ → ℕ
hex_value c = if is_digit c then c - b'0' else if is_lower c then c - b'a' + 10 else c - b'A' + 10

-- `strtoul(s, nullptr, 16)` on a text of a few hexadecimal digits.
unfoldable pub hexadecimal : ℕ → Bytes → ℕ
unfolding hex_value
hexadecimal acc [] = acc
hexadecimal acc (c ∷ s) = hexadecimal (acc * 16 + hex_value c) s

abbrev pub upper_digit : ℕ → ℕ
upper_digit n = if ltb n 10 then b'0' + n else b'A' + (n - 10)

-- `snprintf("%04X")` on a number below 2 ^ 16.
unfoldable pub upper_hex4 : ℕ → Bytes
upper_hex4 n =
    upper_digit (n / 0x1000 % 16)
    ∷ upper_digit (n / 0x100 % 16)
    ∷ upper_digit (n / 0x10 % 16)
    ∷ upper_digit (n % 16)
    ∷ []

hexadecimal-upper_digit :
    (acc n : ℕ) (s : Bytes)
    → n < 16
    → hexadecimal acc (upper_digit n ∷ s) ≡ hexadecimal (acc * 16 + n) s
unfolding hexadecimal
hexadecimal-upper_digit acc n s h = ap (λ k. hexadecimal (acc * 16 + k) s) (ground arith)

-- Reading back what `%04X` prints.
pub hexadecimal-upper_hex4 : (n : ℕ) → n < 2 ^ 16 → hexadecimal 0 (upper_hex4 n) ≡ n
unfolding upper_hex4
hexadecimal-upper_hex4 n h =
    digit 0 (n / 0x1000) _
    ∙ digit one (n / 0x100) _
    ∙ digit two (n / 0x10) _
    ∙ digit three n _
    ∙ last
  where
    one : ℕ
    one = 0 * 16 + n / 0x1000 % 16

    two : ℕ
    two = one * 16 + n / 0x100 % 16

    three : ℕ
    three = two * 16 + n / 0x10 % 16

    digit :
        (acc k : ℕ) (s : Bytes)
        → hexadecimal acc (upper_digit (k % 16) ∷ s) ≡ hexadecimal (acc * 16 + k % 16) s
    digit acc k s = hexadecimal-upper_digit acc (k % 16) s (omega arith)

    last : hexadecimal (three * 16 + n % 16) [] ≡ n
    last = unfold hexadecimal in omega arith

pub all-upper_hex4 : (n : ℕ) → all is_xdigit (upper_hex4 n) ≡ true
unfolding upper_hex4
all-upper_hex4 n = rw (xdigit (n / 0x1000), xdigit (n / 0x100), xdigit (n / 0x10), xdigit n)
  where
    xdigit : (k : ℕ) → is_xdigit (upper_digit (k % 16)) ≡ true
    xdigit k = ground arith

decimal-step :
    (fuel n : ℕ) (tail : Bytes)
    → 10 ≤ n
    → decimal 0 (emit fuel (n / 10) ((b'0' + n % 10) ∷ tail))
      ≡ decimal (n / 10) ((b'0' + n % 10) ∷ tail)
    → decimal 0 (emit fuel (n / 10) ((b'0' + n % 10) ∷ tail)) ≡ decimal n tail
decimal-step fuel n tail h e = e ∙ unfold decimal in ap (λ (k : ℕ). decimal k tail) (omega arith)

decimal-emit :
    (fuel n : ℕ) (tail : Bytes)
    → n < 10 ^ suc fuel
    → decimal 0 (emit (suc fuel) n tail) ≡ decimal n tail
unfolding emit
decimal-emit zero n tail h =
    rw (lt→ltb n 10 h) (unfold decimal in ap (λ (k : ℕ). decimal k tail) (omega arith))
decimal-emit (suc fuel) n tail h = elim (Bool-cases (ltb n 10)) [
  | inl small ↦ rw small (unfold decimal in ap (λ (k : ℕ). decimal k tail) (omega arith))
  | inr large ↦ rw large (
      decimal-step (suc fuel) n tail (ltb→le n 10 large) (
        decimal-emit fuel (n / 10) ((b'0' + n % 10) ∷ tail) (omega (arith, pow-suc 10 (suc fuel)))))
]

all-emit :
    (fuel n : ℕ) (tail : Bytes)
    → n < 10 ^ suc fuel
    → all is_digit tail ≡ true
    → all is_digit (emit (suc fuel) n tail) ≡ true
unfolding emit
all-emit zero n tail h d = ground arith
all-emit (suc fuel) n tail h d = elim (Bool-cases (ltb n 10)) [
  | inl small ↦ rw small (ground arith)
  | inr large ↦ rw large (
      all-emit fuel (n / 10) ((b'0' + n % 10) ∷ tail) (omega (arith, pow-suc 10 (suc fuel)))
        (ground arith))
]

-- `strtoull` reads back what `std::to_string` prints.
pub strtoull-to_string : (n : ℕ) → n < 2 ^ 64 → strtoull (to_string n) ≡ n
unfolding strtoull to_string
strtoull-to_string n h = rw (decimal-emit 19 n [] (omega arith)) (unfold decimal in omega arith)

pub all-to_string : (n : ℕ) → n < 2 ^ 64 → all is_digit (to_string n) ≡ true
unfolding to_string
all-to_string n h = all-emit 19 n [] (omega arith) refl

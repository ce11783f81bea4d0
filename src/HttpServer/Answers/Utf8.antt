-- ===== src/HttpServer/Answers/Utf8.antt =====
-- Texts that the JSON library prints: those of UTF-8, as RFC 3629 has it.
use rk_firmware_flashd.HttpServer.Answers.{Json, string, number, boolean, null}
use rk_firmware_flashd.Prelude.{ℕ, ◌≤◌, ◌<◌, ◌≡◌, Bool, true, and-eq-true_iff, all, [], ◌∷◌, ◌++◌}
use rk_firmware_flashd.Prelude.Text.{Bytes}

-- A byte behind the first of a character.
abbrev pub IsTail : ℕ → Type 0
IsTail b = (0x80 ≤ b) × (b ≤ 0xbf)

-- Characters of one byte to four, in their shortest form, without surrogates and up to U+10FFFF.
pub data IsUtf8 : Bytes → Type 0 where
  nothing : IsUtf8 []
  one : (a : ℕ) (s : Bytes) → a < 0x80 → IsUtf8 s → IsUtf8 (a ∷ s)
  two : (a b : ℕ) (s : Bytes) → 0xc2 ≤ a → a ≤ 0xdf → IsTail b → IsUtf8 s → IsUtf8 (a ∷ b ∷ s)
  three :
      (a b c : ℕ) (s : Bytes)
      → 0xe0 ≤ a
      → a ≤ 0xef
      → (a ≡ 0xe0 → 0xa0 ≤ b)
      → (a ≡ 0xed → b ≤ 0x9f)
      → IsTail b
      → IsTail c
      → IsUtf8 s
      → IsUtf8 (a ∷ b ∷ c ∷ s)
  four :
      (a b c d : ℕ) (s : Bytes)
      → 0xf0 ≤ a
      → a ≤ 0xf4
      → (a ≡ 0xf0 → 0x90 ≤ b)
      → (a ≡ 0xf4 → b ≤ 0x8f)
      → IsTail b
      → IsTail c
      → IsTail d
      → IsUtf8 s
      → IsUtf8 (a ∷ b ∷ c ∷ d ∷ s)

-- The fields have such texts.
abbrev pub IsText : Json → Type 0
IsText [] = Unit
IsText ((key, string value) ∷ fields) = IsUtf8 key × IsUtf8 value × IsText fields
IsText ((key, number value) ∷ fields) = IsUtf8 key × IsText fields
IsText ((key, boolean value) ∷ fields) = IsUtf8 key × IsText fields
IsText ((key, null) ∷ fields) = IsUtf8 key × IsText fields

pub append-IsUtf8 : (s t : Bytes) → IsUtf8 s → IsUtf8 t → IsUtf8 (s ++ t)
append-IsUtf8 _ t nothing u = u
append-IsUtf8 _ t (one a s h v) u = one a (s ++ t) h (append-IsUtf8 s t v u)
append-IsUtf8 _ t (two a b s h h' tb v) u = two a b (s ++ t) h h' tb (append-IsUtf8 s t v u)
append-IsUtf8 _ t (three a b c s h h' low high tb tc v) u =
    three a b c (s ++ t) h h' low high tb tc (append-IsUtf8 s t v u)
append-IsUtf8 _ t (four a b c d s h h' low high tb tc td v) u =
    four a b c d (s ++ t) h h' low high tb tc td (append-IsUtf8 s t v u)

-- Texts of ASCII.
pub all-IsUtf8 :
    (q : ℕ → Bool) → ((c : ℕ) → q c ≡ true → c < 0x80) → (s : Bytes) → all q s ≡ true → IsUtf8 s
all-IsUtf8 q h [] e = nothing
all-IsUtf8 q h (c ∷ s) e =
    let (first, others) = (and-eq-true_iff (q c) (all q s)).0 e in
    one c s (h c first) (all-IsUtf8 q h s others)

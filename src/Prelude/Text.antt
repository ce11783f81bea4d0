-- ===== src/Prelude/Text.antt =====
-- `std::string` as a list of bytes, and the calls of the C and C++ libraries that the program makes
-- on it. A position is an `Option`: `none` is `std::string::npos`.
use Prim.Native.Char.{code}
use Prim.Native.Nat.{ℕ, suc, ◌+◌, ◌-◌, ◌/◌, ◌%◌}
use Prim.Native.String.{String}
use mathlib.Core.Path.{◌≡◌, refl, ap, ◌∙◌}
use mathlib.Core.Logic.{◌↔◌, ◌≢◌, ◌⊎◌, inl, inr}
use mathlib.Core.Bool.{Bool, true, false, ◌&&◌, ◌||◌, and-eq-true_iff}
use mathlib.Core.List.{List, [], ◌∷◌, ◌++◌}
use mathlib.Core.Option
use mathlib.Core.Option.{Option, none, some}
use native.Mathlib.Omega.{arith}
use rk_firmware_flashd.Prelude.Tests.{ltb, leb, ◌==◌, ==_iff, Bool-cases, if◌then◌else◌}
use rk_firmware_flashd.Prelude.Lists.{length, take, drop, all}

abbrev pub Bytes : Type 0
Bytes = List ℕ

-- One character in UTF-8, as the compiler stores it in a literal.
utf8 : ℕ → Bytes
utf8 c =
    if ltb c 0x80
    then c ∷ []
    else if ltb c 0x800
    then (0xc0 + c / 0x40) ∷ (0x80 + c % 0x40) ∷ []
    else (0xe0 + c / 0x1000) ∷ (0x80 + c / 0x40 % 0x40) ∷ (0x80 + c % 0x40) ∷ []

-- The bytes of a string literal.
unfoldable pub text : String → Bytes
unfolding utf8
text String.[] = []
text (String.◌∷◌ c s) = utf8 (code c) ++ text s

-- `a == b` on strings.
unfoldable pub beq : Bytes → Bytes → Bool
beq [] [] = true
beq [] (_ ∷ _) = false
beq (_ ∷ _) [] = false
beq (x ∷ xs) (y ∷ ys) = x == y && beq xs ys

pub beq_iff : (xs ys : Bytes) → (beq xs ys ≡ true) ↔ (xs ≡ ys)
unfolding beq
beq_iff [] [] = ground arith
beq_iff [] (y ∷ ys) = ground arith
beq_iff (x ∷ xs) [] = ground arith
beq_iff (x ∷ xs) (y ∷ ys) = ground (arith, beq_iff xs ys)

pub beq_self : (xs : Bytes) → beq xs xs ≡ true
beq_self xs = (beq_iff xs xs).1 refl

-- `s.empty()`.
abbrev pub is_empty : Bytes → Bool
is_empty [] = true
is_empty (_ ∷ _) = false

-- `s.find(c)`: the first position of a byte.
unfoldable pub find : Bytes → ℕ → Option ℕ
find [] c = none
find (x ∷ s) c = let later = find s c in if x == c then some 0 else Option.map suc later

-- `s.find(c, from)`.
unfoldable pub find_from : Bytes → ℕ → ℕ → Option ℕ
unfolding find
find_from s c from = Option.map (λ i. i + from) (find (drop from s) c)

-- `s.find("..")`: whether two given bytes stand side by side.
unfoldable pub has_pair : Bytes → ℕ → ℕ → Bool
has_pair [] c d = false
has_pair (x ∷ []) c d = false
has_pair (x ∷ y ∷ s) c d = (x == c && y == d) || has_pair (y ∷ s) c d

-- The last position of a byte.
unfoldable pub rfind : Bytes → ℕ → Option ℕ
rfind [] c = none
rfind (x ∷ s) c = elim (rfind s c) [
  | some i ↦ some (suc i)
  | none ↦ if x == c then some 0 else none
]

-- `s.rfind(c, pos)`: the last position of a byte that is at most `pos`.
unfoldable pub rfind_from : Bytes → ℕ → ℕ → Option ℕ
unfolding rfind
rfind_from s c pos = rfind (take (suc pos) s) c

-- `s.substr(pos, n)` and `s.substr(pos)`, with `pos` within the string.
abbrev pub substr : Bytes → ℕ → ℕ → Bytes
substr s pos n = take n (drop pos s)

-- `isdigit`, `isxdigit`, `isspace`, `toupper`, `isalnum` of the C locale.
abbrev pub is_digit : ℕ → Bool
is_digit c = leb b'0' c && leb c b'9'

abbrev pub is_xdigit : ℕ → Bool
is_xdigit c = is_digit c || (leb b'a' c && leb c b'f') || (leb b'A' c && leb c b'F')

abbrev pub is_space : ℕ → Bool
is_space c = c == 32 || (leb 9 c && leb c 13)

abbrev pub is_lower : ℕ → Bool
is_lower c = leb b'a' c && leb c b'z'

abbrev pub is_upper : ℕ → Bool
is_upper c = leb b'A' c && leb c b'Z'

unfoldable pub to_upper : ℕ → ℕ
to_upper c = if is_lower c then c - 32 else c

-- Drop the bytes in front that pass a test.
unfoldable pub drop_while : (ℕ → Bool) → Bytes → Bytes
drop_while p [] = []
drop_while p (x ∷ s) = if p x then drop_while p s else x ∷ s

-- Drop the bytes at the end that pass a test.
unfoldable pub trim_end : (ℕ → Bool) → Bytes → Bytes
trim_end p [] = []
trim_end p (c ∷ s) = let rest = trim_end p s in if is_empty rest && p c then [] else c ∷ rest

-- A text without a given byte.
abbrev pub Lacks : ℕ → Bytes → Type 0
Lacks c [] = Unit
Lacks c (x ∷ s) = (x ≢ c) × Lacks c s

pub find-none : (s : Bytes) (c : ℕ) → Lacks c s → find s c ≡ none
unfolding find
find-none [] c _ = refl
find-none (x ∷ s) c (h, hs) = ground (arith, find-none s c hs)

-- The first occurrence.
pub find_first : (s t : Bytes) (c : ℕ) → Lacks c s → find (s ++ (c ∷ t)) c ≡ some (length s)
unfolding find
find_first [] t c _ = ground arith
find_first (x ∷ s) t c (h, hs) = ground (arith, find_first s t c hs)

rfind-none : (s : Bytes) (c : ℕ) → Lacks c s → rfind s c ≡ none
unfolding rfind
rfind-none [] c _ = refl
rfind-none (x ∷ s) c (h, hs) = ground (arith, rfind-none s c hs)

-- The last occurrence.
pub rfind_last : (s t : Bytes) (c : ℕ) → Lacks c t → rfind (s ++ (c ∷ t)) c ≡ some (length s)
unfolding rfind
rfind_last [] t c h = ground (arith, rfind-none t c h)
rfind_last (x ∷ s) t c h = ground (arith, rfind_last s t c h)

pub Lacks-all : (c : ℕ) (p : ℕ → Bool) (s : Bytes) → p c ≡ false → all p s ≡ true → Lacks c s
Lacks-all c p [] other _ = tt
Lacks-all c p (x ∷ s) other h =
    let (here, later) = (and-eq-true_iff (p x) (all p s)).0 h in
    (λ e. absurd (clash (p x) here (ap p e ∙ other)), Lacks-all c p s other later)
  where
    clash : (b : Bool) → b ≡ true → b ≡ false → ⊥
    clash b q r = cc

pub is_empty-append : (s t : Bytes) (c : ℕ) → is_empty (s ++ (c ∷ t)) ≡ false
is_empty-append [] t c = refl
is_empty-append (x ∷ s) t c = refl

-- A byte that stays keeps what is before it.
pub trim_end-append :
    (p : ℕ → Bool) (s t : Bytes) (c : ℕ)
    → p c ≡ false
    → trim_end p (s ++ (c ∷ t)) ≡ s ++ (c ∷ trim_end p t)
unfolding trim_end
trim_end-append p [] t c h = ground (arith, h)
trim_end-append p (x ∷ s) t c h =
    rw (trim_end-append p s t c h, is_empty-append s (trim_end p t) c) refl

-- A byte is found behind the part before it, or not at all.
pub find_cases :
    (s : Bytes) (c : ℕ)
    → (find s c ≡ none)
      ⊎ ((before after : Bytes) × (s ≡ before ++ (c ∷ after)) × (find s c ≡ some (length before)))
unfolding find
find_cases [] c = inl refl
find_cases (x ∷ s) c = elim (Bool-cases (x == c)) [
  | inl same ↦ inr ([], s, ap (λ y. y ∷ s) ((==_iff x c).0 same), rw same refl)
  | inr other ↦ elim (find_cases s c) [
    | inl absent ↦ inl (rw (other, absent) refl)
    | inr (before, after, e, found) ↦ inr (x ∷ before, after, ap (◌∷◌ x) e, rw (other, found) refl)
  ]
]

-- ===== src/Checksum/Md5/Standard.antt =====
-- The digest of the class MD5 against RFC 1321.
use rk_firmware_flashd.Checksum.Md5.{
  Regs, Md5, transform, macro, rounds, mix, rotl, word, seed, reset, update, little_endian, digest,
  hex_digit, hex, hex_bytes, md5_compute,
}
use rk_firmware_flashd.Checksum.Md5.Rounds.{
  Op, ff, gg, hh, ii, Row, row, round_one, round_two, round_three, round_four,
}
use rk_firmware_flashd.Checksum.Md5.Blocks.{absorb}
use rk_firmware_flashd.Checksum.Md5.Digest.{padded, by_blocks, hex-by_blocks}
use rk_firmware_flashd.Checksum.Md5.Stream.{Holds, update-Holds, reset-Holds}
use rk_firmware_flashd.Checksum.Md5.Rfc1321.{
  Words, auxiliary, sines, word_number, shifts, operation, operations, count_up, sum_of, on_block,
  on_blocks, start, low_first, padded_message, hex_of, printed, bytes_of, rfc1321,
}
use rk_firmware_flashd.Prelude.{
  ℕ, zero, suc, ◌+◌, ◌*◌, ◌/◌, ◌%◌, ◌^◌, ◌<◌, ◌≡◌, refl, sym, ap, ap₂, ◌∙◌, List, [], ◌∷◌, ◌++◌,
  arith, length, take, drop, get_or, All, All-append, ltb, if◌then◌else◌, Bool-cases, inl, inr,
}
use rk_firmware_flashd.Prelude.Text.{Bytes}

abbrev IsByte : ℕ → Type 0
IsByte x = x < 256

abbrev words : Regs → Words
words r = (r.a, r.b, r.c, r.d)

-- The macro of an operation, and its call.
abbrev op_of : ℕ → Op
op_of i = if ltb i 16 then ff else if ltb i 32 then gg else if ltb i 48 then hh else ii

abbrev row_of : ℕ → Row
row_of i = row (op_of i) (word_number i) (get_or (shifts i) (i % 4) 0) (get_or sines i 0)

rows_of : List ℕ → List Row
rows_of [] = []
rows_of (i ∷ is) = row_of i ∷ rows_of is

mix-auxiliary : (i x y z : ℕ) → mix (op_of i) x y z ≡ auxiliary i x y z
unfolding mix
mix-auxiliary i x y z = elim (Bool-cases (ltb i 16)) [
  | inl one ↦ rw one refl
  | inr past ↦ elim (Bool-cases (ltb i 32)) [
    | inl two ↦ rw (past, two) refl
    | inr past' ↦ elim (Bool-cases (ltb i 48)) [
      | inl three ↦ rw (past, past', three) refl
      | inr four ↦ rw (past, past', four) refl
    ]
  ]
]

add_comm : (x y : ℕ) → x + y ≡ y + x
add_comm x y = omega arith

macro-operation :
    (block : Bytes) (i k s t : ℕ) (r : Regs)
    → words (macro block (row (op_of i) k s t) r) ≡ operation block i k s t (words r)
unfolding macro rotl word
macro-operation block i k s t r =
    rw (mix-auxiliary i r.b r.c r.d) (ap (λ sum. (r.d, sum % 2 ^ 32, r.b, r.c)) (add_comm _ r.b))

rounds-operations :
    (block : Bytes) (is : List ℕ) (r : Regs)
    → words (rounds block (rows_of is) r) ≡ operations block is (words r)
unfolding rounds operations rows_of
rounds-operations block [] r = refl
rounds-operations block (i ∷ is) r =
    rounds-operations block is (macro block (row_of i) r)
    ∙ ap (operations block is)
        (macro-operation block i (word_number i) (get_or (shifts i) (i % 4) 0) (get_or sines i 0) r)

rounds-append :
    (block : Bytes) (xs ys : List Row) (r : Regs)
    → rounds block (xs ++ ys) r ≡ rounds block ys (rounds block xs r)
unfolding rounds
rounds-append block [] ys r = refl
rounds-append block (x ∷ xs) ys r = rounds-append block xs ys (macro block x r)

-- The table of the code is that of the RFC.
table : rows_of (count_up 64 0) ≡ round_one ++ (round_two ++ (round_three ++ round_four))
unfolding rows_of count_up
table = refl

in_four :
    (block : Bytes) (s : Regs)
    → rounds block round_four
        (rounds block round_three (rounds block round_two (rounds block round_one s)))
      ≡ rounds block (rows_of (count_up 64 0)) s
in_four block s = sym (
    ap (λ rows. rounds block rows s) table
    ∙ rounds-append block round_one (round_two ++ (round_three ++ round_four)) s
    ∙ rounds-append block round_two (round_three ++ round_four) (rounds block round_one s)
    ∙ rounds-append block round_three round_four
        (rounds block round_two (rounds block round_one s)))

transform-on_block :
    (s : Regs) (block : Bytes) → words (transform s block) ≡ on_block (words s) block
unfolding transform on_block
transform-on_block s block =
    ap (λ r. sum_of (words s) (words r)) (in_four block s)
    ∙ ap (sum_of (words s)) (rounds-operations block (count_up 64 0) s)

absorb-on_blocks :
    (n : ℕ) (s : Regs) (bytes : Bytes) → words (absorb n s bytes) ≡ on_blocks n (words s) bytes
unfolding absorb on_blocks
absorb-on_blocks zero s bytes = refl
absorb-on_blocks (suc n) s bytes =
    absorb-on_blocks n (transform s (take 64 bytes)) (drop 64 bytes)
    ∙ ap (λ w. on_blocks n w (drop 64 bytes)) (transform-on_block s (take 64 bytes))

seed-start : words seed ≡ start
seed-start = refl

little_endian-low_first : (n x : ℕ) → little_endian n x ≡ low_first n x
unfolding little_endian low_first
little_endian-low_first zero x = refl
little_endian-low_first (suc n) x = ap (◌∷◌ (x % 256)) (little_endian-low_first n (x / 256))

padded-padded_message : (bytes : Bytes) → padded bytes ≡ padded_message bytes
unfolding padded padded_message
padded-padded_message bytes = rw (little_endian-low_first 8 (length bytes * 8 % 2 ^ 64)) refl

hex_digit-hex_of : (n : ℕ) → hex_digit n ≡ hex_of n
hex_digit-hex_of n = ground arith

hex_bytes-printed : (bytes : Bytes) → All (λ x. x < 256) bytes → hex_bytes bytes ≡ printed bytes
unfolding hex_bytes printed
hex_bytes-printed [] _ = refl
hex_bytes-printed (x ∷ bytes) (h, hs) =
    let high : x / 16 ≡ x / 16 % 16 = omega arith in
    ap₂ (◌∷◌) (hex_digit-hex_of (x / 16) ∙ ap hex_of high)
      (ap₂ (◌∷◌) (hex_digit-hex_of (x % 16)) (hex_bytes-printed bytes hs))

low_first-bytes : (n x : ℕ) → All (λ y. y < 256) (low_first n x)
unfolding low_first
low_first-bytes zero x = tt
low_first-bytes (suc n) x = (omega arith, low_first-bytes n (x / 256))

digest-bytes_of : (r : Regs) → digest r ≡ bytes_of (words r)
digest-bytes_of r =
    rw
      (
        little_endian-low_first 4 r.a,
        little_endian-low_first 4 r.b,
        little_endian-low_first 4 r.c,
        little_endian-low_first 4 r.d,
      )
      refl

digest-bytes : (w : Words) → All (λ y. y < 256) (bytes_of w)
digest-bytes (a, b, c, d) =
    All-append IsByte ((low_first 4 a ++ low_first 4 b) ++ low_first 4 c) (low_first 4 d)
      (All-append IsByte (low_first 4 a ++ low_first 4 b) (low_first 4 c)
        (All-append IsByte (low_first 4 a) (low_first 4 b) (low_first-bytes 4 a)
          (low_first-bytes 4 b))
        (low_first-bytes 4 c))
      (low_first-bytes 4 d)

-- The digest on whole blocks is that of the RFC.
by_blocks-rfc1321 : (bytes : Bytes) → by_blocks bytes ≡ rfc1321 bytes
unfolding by_blocks rfc1321
by_blocks-rfc1321 bytes =
    ap (λ s. hex_bytes (digest (absorb (length s / 64) seed s))) (padded-padded_message bytes)
    ∙ ap hex_bytes (
        digest-bytes_of (absorb blocks seed message)
        ∙ ap bytes_of (absorb-on_blocks blocks seed message))
    ∙ hex_bytes-printed (bytes_of (on_blocks blocks start message))
        (digest-bytes (on_blocks blocks start message))
  where
    message : Bytes
    message = padded_message bytes

    blocks : ℕ
    blocks = length message / 64

-- For an object that holds some bytes, as it does after it was fed them in any pieces, `hex` is the
-- MD5 of the bytes by RFC 1321.
pub hex-rfc1321 : (m : Md5) (bytes : Bytes) → Holds m bytes → hex m ≡ rfc1321 bytes
hex-rfc1321 m bytes h = hex-by_blocks m bytes h ∙ by_blocks-rfc1321 bytes

-- `md5_compute` is the MD5 of RFC 1321, for data of any length.
pub md5_compute-rfc1321 : (bytes : Bytes) → md5_compute bytes ≡ rfc1321 bytes
unfolding md5_compute
md5_compute-rfc1321 bytes =
    hex-rfc1321 (update reset bytes) bytes (update-Holds reset [] bytes reset-Holds)

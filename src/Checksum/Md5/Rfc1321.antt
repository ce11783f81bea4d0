-- ===== src/Checksum/Md5/Rfc1321.antt =====
-- The message digest of RFC 1321, section 3, with nothing taken from the code. Words are numbers
-- below 2 ^ 32, and bytes stand in a word with the lowest first.
use Prim.Native.Nat.{bit_and, bit_or, bit_xor}
use rk_firmware_flashd.Prelude.{
  ℕ, zero, suc, ◌+◌, ◌-◌, ◌*◌, ◌/◌, ◌%◌, ◌^◌, List, [], ◌∷◌, ◌++◌, if◌then◌else◌, ltb, length,
  get_or, take, drop, replicate,
}
use rk_firmware_flashd.Prelude.Text.{Bytes}

-- The registers A, B, C and D.
abbrev pub Words : Type 0
Words = ℕ × ℕ × ℕ × ℕ

abbrev pub complement : ℕ → ℕ
complement x = 2 ^ 32 - 1 - x

-- The four auxiliary functions, by the number of the operation.
abbrev pub auxiliary : ℕ → ℕ → ℕ → ℕ → ℕ
auxiliary i x y z =
    if ltb i 16
    then bit_or (bit_and x y) (bit_and (complement x) z)
    else if ltb i 32
    then bit_or (bit_and x z) (bit_and y (complement z))
    else if ltb i 48
    then bit_xor (bit_xor x y) z
    else bit_xor y (bit_or x (complement z))

-- The table T: the integer part of 4294967296 times the absolute value of sin(i + 1), in radians.
abbrev pub sines : List ℕ
sines =
    0xd76aa478 ∷ 0xe8c7b756 ∷ 0x242070db ∷ 0xc1bdceee ∷ 0xf57c0faf ∷ 0x4787c62a ∷ 0xa8304613
    ∷ 0xfd469501 ∷ 0x698098d8 ∷ 0x8b44f7af ∷ 0xffff5bb1 ∷ 0x895cd7be ∷ 0x6b901122 ∷ 0xfd987193
    ∷ 0xa679438e ∷ 0x49b40821 ∷ 0xf61e2562 ∷ 0xc040b340 ∷ 0x265e5a51 ∷ 0xe9b6c7aa ∷ 0xd62f105d
    ∷ 0x02441453 ∷ 0xd8a1e681 ∷ 0xe7d3fbc8 ∷ 0x21e1cde6 ∷ 0xc33707d6 ∷ 0xf4d50d87 ∷ 0x455a14ed
    ∷ 0xa9e3e905 ∷ 0xfcefa3f8 ∷ 0x676f02d9 ∷ 0x8d2a4c8a ∷ 0xfffa3942 ∷ 0x8771f681 ∷ 0x6d9d6122
    ∷ 0xfde5380c ∷ 0xa4beea44 ∷ 0x4bdecfa9 ∷ 0xf6bb4b60 ∷ 0xbebfbc70 ∷ 0x289b7ec6 ∷ 0xeaa127fa
    ∷ 0xd4ef3085 ∷ 0x04881d05 ∷ 0xd9d4d039 ∷ 0xe6db99e5 ∷ 0x1fa27cf8 ∷ 0xc4ac5665 ∷ 0xf4292244
    ∷ 0x432aff97 ∷ 0xab9423a7 ∷ 0xfc93a039 ∷ 0x655b59c3 ∷ 0x8f0ccc92 ∷ 0xffeff47d ∷ 0x85845dd1
    ∷ 0x6fa87e4f ∷ 0xfe2ce6e0 ∷ 0xa3014314 ∷ 0x4e0811a1 ∷ 0xf7537e82 ∷ 0xbd3af235 ∷ 0x2ad7d2bb
    ∷ 0xeb86d391 ∷ []

-- The word of the block that an operation takes.
abbrev pub word_number : ℕ → ℕ
word_number i =
    if ltb i 16
    then i
    else if ltb i 32
    then (5 * i + 1) % 16
    else if ltb i 48
    then (3 * i + 5) % 16
    else 7 * i % 16

abbrev pub shifts : ℕ → List ℕ
shifts i =
    if ltb i 16
    then 7 ∷ 12 ∷ 17 ∷ 22 ∷ []
    else if ltb i 32
    then 5 ∷ 9 ∷ 14 ∷ 20 ∷ []
    else if ltb i 48
    then 4 ∷ 11 ∷ 16 ∷ 23 ∷ []
    else 6 ∷ 10 ∷ 15 ∷ 21 ∷ []

-- `X <<< s`.
abbrev pub rotated : ℕ → ℕ → ℕ
rotated x s = bit_or (x * 2 ^ s % 2 ^ 32) (x / 2 ^ (32 - s))

-- The word of four bytes.
abbrev pub word_at : Bytes → ℕ → ℕ
word_at bytes k =
    bit_or
      (bit_or (bit_or (get_or bytes (k * 4) 0) (get_or bytes (k * 4 + 1) 0 * 2 ^ 8))
        (get_or bytes (k * 4 + 2) 0 * 2 ^ 16))
      (get_or bytes (k * 4 + 3) 0 * 2 ^ 24)

-- `a = b + ((a + F(b,c,d) + X[k] + T[i]) <<< s)`; then the registers move on by one place.
abbrev pub operation : Bytes → (i k s t : ℕ) → Words → Words
operation block i k s t (a, b, c, d) =
    (d, (b + rotated ((a + auxiliary i b c d + word_at block k + t) % 2 ^ 32) s) % 2 ^ 32, b, c)

unfoldable pub operations : Bytes → List ℕ → Words → Words
operations block [] w = w
operations block (i ∷ is) w =
    operations block is
      (operation block i (word_number i) (get_or (shifts i) (i % 4) 0) (get_or sines i 0) w)

unfoldable pub count_up : ℕ → ℕ → List ℕ
count_up zero from = []
count_up (suc n) from = from ∷ count_up n (from + 1)

abbrev pub sum_of : Words → Words → Words
sum_of (a, b, c, d) (a', b', c', d') =
    ((a + a') % 2 ^ 32, (b + b') % 2 ^ 32, (c + c') % 2 ^ 32, (d + d') % 2 ^ 32)

-- A block of 64 bytes.
unfoldable pub on_block : Words → Bytes → Words
on_block w block = sum_of w (operations block (count_up 64 0) w)

unfoldable pub on_blocks : ℕ → Words → Bytes → Words
on_blocks zero w bytes = w
on_blocks (suc n) w bytes = on_blocks n (on_block w (take 64 bytes)) (drop 64 bytes)

-- The registers at the start, as the RFC gives their bytes.
abbrev pub start_bytes : Bytes
start_bytes =
    0x01 ∷ 0x23 ∷ 0x45 ∷ 0x67 ∷ 0x89 ∷ 0xab ∷ 0xcd ∷ 0xef ∷ 0xfe ∷ 0xdc ∷ 0xba ∷ 0x98 ∷ 0x76 ∷ 0x54
    ∷ 0x32 ∷ 0x10 ∷ []

abbrev pub start : Words
start = (word_at start_bytes 0, word_at start_bytes 1, word_at start_bytes 2, word_at start_bytes 3)

unfoldable pub low_first : ℕ → ℕ → Bytes
low_first zero x = []
low_first (suc n) x = (x % 256) ∷ low_first n (x / 256)

-- A 1 bit, then 0 bits up to 64 below a multiple of 512, then the length in bits in two words.
unfoldable pub padded_message : Bytes → Bytes
padded_message bytes =
    bytes
    ++ ((0x80 ∷ replicate ((119 - length bytes % 64) % 64) 0)
        ++ low_first 8 (length bytes * 8 % 2 ^ 64))

abbrev pub hex_of : ℕ → ℕ
hex_of n = if ltb n 10 then 48 + n else 87 + n

-- The digest in hexadecimal, as the test suite of the RFC prints it.
unfoldable pub printed : Bytes → Bytes
printed [] = []
printed (x ∷ bytes) = hex_of (x / 16 % 16) ∷ hex_of (x % 16) ∷ printed bytes

abbrev pub bytes_of : Words → Bytes
bytes_of (a, b, c, d) = low_first 4 a ++ low_first 4 b ++ low_first 4 c ++ low_first 4 d

unfoldable pub rfc1321 : Bytes → Bytes
rfc1321 bytes =
    printed (bytes_of (on_blocks (length (padded_message bytes) / 64) start (padded_message bytes)))

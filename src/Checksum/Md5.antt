-- ===== src/Checksum/Md5.antt =====
-- The class MD5 of include/checksum.h, and `md5_compute`. Bytes are numbers below 256; `bits` is
-- stored with its lowest byte first, as on every target that the build names.
pub mod Rounds
pub mod Blocks
pub mod Stream
pub mod Digest
pub mod Rfc1321
pub mod Standard
use Prim.Native.Nat.{bit_and, bit_or, bit_xor}
use rk_firmware_flashd.Prelude.{
  ℕ, zero, suc, ◌+◌, ◌-◌, ◌*◌, ◌/◌, ◌%◌, ◌^◌, ◌==◌, List, [], ◌∷◌, ◌++◌, if◌then◌else◌, ltb, leb,
  length, get_or, take, drop, replicate,
}
use rk_firmware_flashd.Prelude.Text.{Bytes}
use Rounds.{Op, ff, gg, hh, ii, Row, row, round_one, round_two, round_three, round_four}

abbrev pub u32 : ℕ → ℕ
u32 n = n % 2 ^ 32

abbrev pub u64 : ℕ → ℕ
u64 n = n % 2 ^ 64

-- `~x` on 32 bits.
abbrev flip : ℕ → ℕ
flip x = 2 ^ 32 - 1 - x

-- The functions F, G, H and I.
mix : Op → ℕ → ℕ → ℕ → ℕ
mix ff x y z = bit_or (bit_and x y) (bit_and (flip x) z)
mix gg x y z = bit_or (bit_and x z) (bit_and y (flip z))
mix hh x y z = bit_xor (bit_xor x y) z
mix ii x y z = bit_xor y (bit_or x (flip z))

rotl : ℕ → ℕ → ℕ
rotl x n = bit_or (u32 (x * 2 ^ n)) (x / 2 ^ (32 - n))

-- The four words of `state_`, or the variables a, b, c, d of `transform`.
pub record Regs : Type 0 where
  pub a : ℕ
  pub b : ℕ
  pub c : ℕ
  pub d : ℕ

-- M[k], the word of four bytes with the lowest first.
word : Bytes → ℕ → ℕ
word block k =
    bit_or
      (bit_or (bit_or (get_or block (k * 4) 0) (get_or block (k * 4 + 1) 0 * 2 ^ 8))
        (get_or block (k * 4 + 2) 0 * 2 ^ 16))
      (get_or block (k * 4 + 3) 0 * 2 ^ 24)

-- A macro call changes its first argument; the next call names that one second, and the other
-- three each one place later. So the registers move on by one place with each call.
macro : Bytes → Row → Regs → Regs
unfolding mix rotl word
macro block (row op k s ac) r =
    let sum = u32 (r.a + mix op r.b r.c r.d + word block k + ac) in
    record { a = r.d; b = u32 (rotl sum s + r.b); c = r.b; d = r.c }

rounds : Bytes → List Row → Regs → Regs
unfolding macro
rounds block [] r = r
rounds block (m ∷ ms) r = rounds block ms (macro block m r)

unfoldable pub transform : Regs → Bytes → Regs
unfolding rounds
transform s block =
    let r =
      rounds block round_four
        (rounds block round_three (rounds block round_two (rounds block round_one s))) in
    record { a = u32 (s.a + r.a); b = u32 (s.b + r.b); c = u32 (s.c + r.c); d = u32 (s.d + r.d) }

pub record Md5 : Type 0 where
  pub state : Regs
  pub count : ℕ
  pub buffer : Bytes

abbrev pub seed : Regs
seed = record { a = 0x67452301; b = 0xefcdab89; c = 0x98badcfe; d = 0x10325476 }

-- `reset`, which the constructor calls too.
abbrev pub reset : Md5
reset = record { state = seed; count = 0; buffer = replicate 64 0 }

-- `memcpy(buffer_ + index, data, len)`.
abbrev pub store : Bytes → ℕ → Bytes → Bytes
store buffer index bytes = take index buffer ++ bytes ++ drop (index + length bytes) buffer

-- The loop over whole blocks, then the copy of what is left. The fuel is the number of bytes.
unfoldable pub blocks : ℕ → Md5 → Bytes → Md5
blocks zero m bytes = m
blocks (suc fuel) m bytes =
    let rest =
      blocks fuel (record m { state = transform m.state (take 64 bytes) }) (drop 64 bytes) in
    if leb 64 (length bytes)
    then rest
    else if ltb 0 (length bytes)
    then record m { buffer = store m.buffer 0 bytes }
    else m

unfoldable pub update : Md5 → Bytes → Md5
update m bytes =
    let index : ℕ = m.count % 64 in
    let part_len : ℕ = 64 - index in
    let counted = record m { count = u64 (m.count + length bytes) } in
    let filled = store m.buffer index (take part_len bytes) in
    if index == 0
    then blocks (suc (length bytes)) counted bytes
    else if leb part_len (length bytes)
    then blocks (suc (length bytes))
        (record counted { state = transform m.state filled; buffer = filled }) (drop part_len bytes)
    else record counted { buffer = store m.buffer index bytes }

-- The bytes of a number in memory, lowest first.
unfoldable pub little_endian : ℕ → ℕ → Bytes
little_endian zero x = []
little_endian (suc n) x = (x % 256) ∷ little_endian n (x / 256)

abbrev pub padding : Bytes
padding = 0x80 ∷ replicate 63 0

abbrev pub pad_len : ℕ → ℕ
pad_len index = if ltb index 56 then 56 - index else 120 - index

-- The two updates of `finalize`.
unfoldable pub finish : Md5 → Md5
finish m =
    update (update m (take (pad_len (m.count % 64)) padding)) (little_endian 8 (u64 (m.count * 8)))

abbrev pub digest : Regs → Bytes
digest r = little_endian 4 r.a ++ little_endian 4 r.b ++ little_endian 4 r.c ++ little_endian 4 r.d

unfoldable pub finalize : Md5 → Bytes
finalize m = digest (finish m).state

-- `snprintf("%02x")`.
abbrev pub hex_digit : ℕ → ℕ
hex_digit n = if ltb n 10 then b'0' + n else b'a' + (n - 10)

unfoldable pub hex_bytes : Bytes → Bytes
hex_bytes [] = []
hex_bytes (x ∷ xs) = hex_digit (x / 16) ∷ hex_digit (x % 16) ∷ hex_bytes xs

unfoldable pub hex : Md5 → Bytes
hex m = hex_bytes (finalize m)

unfoldable pub md5_compute : Bytes → Bytes
md5_compute bytes = hex (update reset bytes)

-- ===== src/Checksum/Md5/Rounds.antt =====
-- The table of `MD5::transform` in include/checksum.h: the 64 calls of its macros FF, GG, HH, II.
use rk_firmware_flashd.Prelude.{ℕ, List, [], ◌∷◌}

pub data Op : Type 0 where
  ff gg hh ii : Op

-- `row op k s ac` is a call of the macro `op` on the word M[k], with rotation `s` and constant `ac`.
pub data Row : Type 0 where
  row : Op → ℕ → ℕ → ℕ → Row

abbrev pub round_one : List Row
round_one =
    row ff 0 7 0xd76aa478
    ∷ row ff 1 12 0xe8c7b756
    ∷ row ff 2 17 0x242070db
    ∷ row ff 3 22 0xc1bdceee
    ∷ row ff 4 7 0xf57c0faf
    ∷ row ff 5 12 0x4787c62a
    ∷ row ff 6 17 0xa8304613
    ∷ row ff 7 22 0xfd469501
    ∷ row ff 8 7 0x698098d8
    ∷ row ff 9 12 0x8b44f7af
    ∷ row ff 10 17 0xffff5bb1
    ∷ row ff 11 22 0x895cd7be
    ∷ row ff 12 7 0x6b901122
    ∷ row ff 13 12 0xfd987193
    ∷ row ff 14 17 0xa679438e
    ∷ row ff 15 22 0x49b40821
    ∷ []

abbrev pub round_two : List Row
round_two =
    row gg 1 5 0xf61e2562
    ∷ row gg 6 9 0xc040b340
    ∷ row gg 11 14 0x265e5a51
    ∷ row gg 0 20 0xe9b6c7aa
    ∷ row gg 5 5 0xd62f105d
    ∷ row gg 10 9 0x02441453
    ∷ row gg 15 14 0xd8a1e681
    ∷ row gg 4 20 0xe7d3fbc8
    ∷ row gg 9 5 0x21e1cde6
    ∷ row gg 14 9 0xc33707d6
    ∷ row gg 3 14 0xf4d50d87
    ∷ row gg 8 20 0x455a14ed
    ∷ row gg 13 5 0xa9e3e905
    ∷ row gg 2 9 0xfcefa3f8
    ∷ row gg 7 14 0x676f02d9
    ∷ row gg 12 20 0x8d2a4c8a
    ∷ []

abbrev pub round_three : List Row
round_three =
    row hh 5 4 0xfffa3942
    ∷ row hh 8 11 0x8771f681
    ∷ row hh 11 16 0x6d9d6122
    ∷ row hh 14 23 0xfde5380c
    ∷ row hh 1 4 0xa4beea44
    ∷ row hh 4 11 0x4bdecfa9
    ∷ row hh 7 16 0xf6bb4b60
    ∷ row hh 10 23 0xbebfbc70
    ∷ row hh 13 4 0x289b7ec6
    ∷ row hh 0 11 0xeaa127fa
    ∷ row hh 3 16 0xd4ef3085
    ∷ row hh 6 23 0x04881d05
    ∷ row hh 9 4 0xd9d4d039
    ∷ row hh 12 11 0xe6db99e5
    ∷ row hh 15 16 0x1fa27cf8
    ∷ row hh 2 23 0xc4ac5665
    ∷ []

abbrev pub round_four : List Row
round_four =
    row ii 0 6 0xf4292244
    ∷ row ii 7 10 0x432aff97
    ∷ row ii 14 15 0xab9423a7
    ∷ row ii 5 21 0xfc93a039
    ∷ row ii 12 6 0x655b59c3
    ∷ row ii 3 10 0x8f0ccc92
    ∷ row ii 10 15 0xffeff47d
    ∷ row ii 1 21 0x85845dd1
    ∷ row ii 8 6 0x6fa87e4f
    ∷ row ii 15 10 0xfe2ce6e0
    ∷ row ii 6 15 0xa3014314
    ∷ row ii 13 21 0x4e0811a1
    ∷ row ii 4 6 0xf7537e82
    ∷ row ii 11 10 0xbd3af235
    ∷ row ii 2 15 0x2ad7d2bb
    ∷ row ii 9 21 0xeb86d391
    ∷ []

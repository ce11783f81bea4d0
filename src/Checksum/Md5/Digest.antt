-- ===== src/Checksum/Md5/Digest.antt =====
-- The digest of the class MD5 against a computation on the whole message: pad, then take block by
-- block.
use rk_firmware_flashd.Prelude.{
  ℕ, zero, suc, ◌-◌, ◌*◌, ◌/◌, ◌%◌, ◌≤◌, ◌≡◌, refl, sym, ap, ap₂, subst, ◌∙◌, List, [], ◌∷◌, ◌++◌,
  append-nil, append_assoc, arith, length, take, replicate, length-append, length-replicate,
}
use rk_firmware_flashd.Prelude.Text.{Bytes}
use rk_firmware_flashd.Checksum.Md5.Blocks.{absorb, nil_of_length}
use rk_firmware_flashd.Checksum.Md5.Stream.{Holds, update-Holds, reset-Holds}
use rk_firmware_flashd.Checksum.Md5.{
  Md5, seed, reset, update, u64, padding, pad_len, little_endian, finish, finalize, hex, hex_bytes,
  digest, md5_compute,
}

-- The padded message, which is a number of whole blocks.
abbrev pub zeros : ℕ → ℕ
zeros n = (119 - n % 64) % 64

abbrev pub pad_bytes : ℕ → Bytes
pad_bytes n = 0x80 ∷ replicate (zeros n) 0

abbrev pub size_bytes : ℕ → Bytes
size_bytes n = little_endian 8 (u64 (n * 8))

unfoldable pub padded : Bytes → Bytes
padded bytes = bytes ++ (pad_bytes (length bytes) ++ size_bytes (length bytes))

unfoldable pub by_blocks : Bytes → Bytes
by_blocks bytes = hex_bytes (digest (absorb (length (padded bytes) / 64) seed (padded bytes)))

length-little_endian : (n x : ℕ) → length (little_endian n x) ≡ n
unfolding little_endian
length-little_endian zero x = refl
length-little_endian (suc n) x = ap suc (length-little_endian n (x / 256))

take-replicate : (n m : ℕ) → n ≤ m → take n (replicate {A = ℕ} m 0) ≡ replicate {A = ℕ} n 0
take-replicate zero m h = refl
take-replicate (suc n) zero h = absurd (omega arith)
take-replicate (suc n) (suc m) h = ap (◌∷◌ 0) (take-replicate n m (omega arith))

-- The padding that the code takes from its table is that of the message.
pad_len_lem : (n : ℕ) → pad_len (n % 64) ≡ suc (zeros n)
pad_len_lem n = ground arith

padding_lem : (n : ℕ) → take (pad_len (n % 64)) padding ≡ pad_bytes n
padding_lem n = rw (pad_len_lem n) (ap (◌∷◌ 0x80) (take-replicate (zeros n) 63 (omega arith)))

-- The message is a number of whole blocks then.
length-padded : (bytes : Bytes) → length (padded bytes) % 64 ≡ 0
unfolding padded
length-padded bytes = omega (
  arith,
  length-append bytes (pad_bytes (length bytes) ++ size_bytes (length bytes)),
  length-append (pad_bytes (length bytes)) (size_bytes (length bytes)),
  length-replicate {A = ℕ} (zeros (length bytes)) 0,
  length-little_endian 8 (u64 (length bytes * 8)),
)

module _ (m : Md5) (bytes : Bytes) (h : Holds m bytes) where
  finish_lem : finish m ≡ update (update m (pad_bytes (length bytes))) (size_bytes (length bytes))
  unfolding finish
  finish_lem = rw (index, padding_lem (length bytes), bits)
    where
      index : m.count % 64 ≡ length bytes % 64
      index = omega (arith, h.counts)

      bits : u64 (m.count * 8) ≡ u64 (length bytes * 8)
      bits = omega (arith, h.counts)

  finish-Holds : Holds (finish m) (padded bytes)
  unfolding padded
  finish-Holds = rw finish_lem (
      subst (Holds (update (update m pad) size)) (append_assoc bytes pad size)
        (update-Holds (update m pad) (bytes ++ pad) size (update-Holds m bytes pad h)))
    where
      pad : Bytes
      pad = pad_bytes (length bytes)

      size : Bytes
      size = size_bytes (length bytes)

-- On whole blocks nothing waits in the buffer.
aligned-absorb :
    (m : Md5) (bytes : Bytes)
    → Holds m bytes
    → length bytes % 64 ≡ 0
    → m.state ≡ absorb (length bytes / 64) seed bytes
aligned-absorb m bytes h e = h.absorbed ∙ ap₂ (λ n t. absorb n seed t) number (sym whole)
  where
    empty : h.rest ≡ []
    empty =
        nil_of_length h.rest
          (omega (arith, ap length h.split, length-append h.done h.rest, h.whole, h.short))

    whole : bytes ≡ h.done
    whole = h.split ∙ ap (◌++◌ h.done) empty ∙ append-nil h.done

    number : h.number ≡ length bytes / 64
    number = omega (arith, ap length whole, h.whole)

-- `hex` of an object that holds some bytes.
pub hex-by_blocks : (m : Md5) (bytes : Bytes) → Holds m bytes → hex m ≡ by_blocks bytes
unfolding hex finalize by_blocks
hex-by_blocks m bytes h =
    ap (λ s. hex_bytes (digest s))
      (aligned-absorb (finish m) (padded bytes) (finish-Holds m bytes h) (length-padded bytes))

pub md5_compute-by_blocks : (bytes : Bytes) → md5_compute bytes ≡ by_blocks bytes
unfolding md5_compute
md5_compute-by_blocks bytes =
    hex-by_blocks (update reset bytes) bytes (update-Holds reset [] bytes reset-Holds)

pub updates : Md5 → List Bytes → Md5
updates m [] = m
updates m (piece ∷ pieces) = updates (update m piece) pieces

abbrev pub joined : List Bytes → Bytes
joined [] = []
joined (piece ∷ pieces) = piece ++ joined pieces

updates-Holds :
    (m : Md5) (bytes : Bytes) (pieces : List Bytes)
    → Holds m bytes
    → Holds (updates m pieces) (bytes ++ joined pieces)
unfolding updates
updates-Holds m bytes [] h = subst (Holds m) (sym (append-nil bytes)) h
updates-Holds m bytes (piece ∷ pieces) h =
    subst (Holds (updates (update m piece) pieces)) (append_assoc bytes piece (joined pieces))
      (updates-Holds (update m piece) (bytes ++ piece) pieces (update-Holds m bytes piece h))

-- A transfer in pieces has the digest of the whole: for every way to cut data into pieces, feeding
-- the pieces one by one to a fresh object gives what `md5_compute` gives for the data at once.
pub hex-updates : (pieces : List Bytes) → hex (updates reset pieces) ≡ md5_compute (joined pieces)
hex-updates pieces =
    hex-by_blocks (updates reset pieces) (joined pieces) (updates-Holds reset [] pieces reset-Holds)
    ∙ sym (md5_compute-by_blocks (joined pieces))

-- ===== src/Checksum/Md5/Blocks.antt =====
-- The loop of `MD5::update` over whole blocks, against a recursion on the number of blocks.
use rk_firmware_flashd.Prelude.{
  ℕ, zero, suc, ◌+◌, ◌*◌, ◌≤◌, ◌<◌, ◌≡◌, refl, sym, ap, subst, ◌∙◌, inl, inr, true, [], ◌∷◌, ◌++◌,
  append_assoc, arith, ltb, leb, Bool-cases, leb→le, leb→lt, ltb→le, length, take, drop,
  length-append, take-append-drop, length-take, length-drop, take-append, take-append_le,
  drop-append_le, take_all,
}
use rk_firmware_flashd.Prelude.Text.{Bytes}
use rk_firmware_flashd.Checksum.Md5.{Regs, Md5, transform, seed, store, blocks}

-- The reference: `n` whole blocks, one after the other.
unfoldable pub absorb : ℕ → Regs → Bytes → Regs
absorb zero s bytes = s
absorb (suc n) s bytes = absorb n (transform s (take 64 bytes)) (drop 64 bytes)

pub absorb-append :
    (n : ℕ) (s : Regs) (done block : Bytes)
    → length done ≡ 64 * n
    → length block ≡ 64
    → absorb (suc n) s (done ++ block) ≡ transform (absorb n s done) block
unfolding absorb
absorb-append zero s [] block e h = ap (transform s) (take_all 64 block (omega arith))
absorb-append zero s (x ∷ done) block e h = absurd (omega arith)
absorb-append (suc n) s done block e h =
    rw (take-append_le 64 done block (omega arith), drop-append_le 64 done block (omega arith))
      (absorb-append n (transform s (take 64 done)) (drop 64 done) block
        (omega (arith, length-drop 64 done)) h)

-- The registers have absorbed the whole blocks of `bytes`, and the buffer starts with the rest.
pub record Runs (m : Md5) (bytes : Bytes) : Type 0 where
  pub done : Bytes
  pub rest : Bytes
  pub number : ℕ
  pub whole : length done ≡ 64 * number
  pub split : bytes ≡ done ++ rest
  pub short : length rest < 64
  pub absorbed : m.state ≡ absorb number seed done
  pub kept : take (length rest) m.buffer ≡ rest
  pub room : length m.buffer ≡ 64

pub length-store :
    (buffer : Bytes) (index : ℕ) (bytes : Bytes)
    → length buffer ≡ 64
    → index + length bytes ≤ 64
    → length (store buffer index bytes) ≡ 64
length-store buffer index bytes e h = omega (
  arith,
  length-append (take index buffer ++ bytes) (drop (index + length bytes) buffer),
  length-append (take index buffer) bytes,
  length-take index buffer,
  length-drop (index + length bytes) buffer,
)

pub nil_of_length : (xs : Bytes) → length xs ≡ 0 → xs ≡ []
nil_of_length [] e = refl
nil_of_length (x ∷ xs) e = absurd (omega arith)

-- A store behind the bytes that are kept.
pub take-store :
    (buffer rest bytes : Bytes)
    → take (length rest) buffer ≡ rest
    → take (length (rest ++ bytes)) (store buffer (length rest) bytes) ≡ rest ++ bytes
take-store buffer rest bytes e =
    rw e (take-append (rest ++ bytes) (drop (length rest + length bytes) buffer))

-- The rest of the bytes goes to the front of the buffer.
pub store-Runs :
    (m : Md5) (done bytes : Bytes) (n : ℕ)
    → length bytes < 64
    → length done ≡ 64 * n
    → m.state ≡ absorb n seed done
    → length m.buffer ≡ 64
    → Runs (record m { buffer = store m.buffer 0 bytes }) (done ++ bytes)
store-Runs m done bytes n short whole absorbed room = record {
  done = done;
  rest = bytes;
  number = n;
  whole = whole;
  split = refl;
  short = short;
  absorbed = absorbed;
  kept = take-store m.buffer [] bytes refl;
  room = length-store m.buffer 0 bytes room (omega arith);
}

pub none-Runs :
    (m : Md5) (done bytes : Bytes) (n : ℕ)
    → bytes ≡ []
    → length done ≡ 64 * n
    → m.state ≡ absorb n seed done
    → length m.buffer ≡ 64
    → Runs m (done ++ bytes)
none-Runs m done bytes n empty whole absorbed room = record {
  done = done;
  rest = [];
  number = n;
  whole = whole;
  split = ap (◌++◌ done) empty;
  short = omega arith;
  absorbed = absorbed;
  kept = refl;
  room = room;
}

rejoin : (done bytes : Bytes) (n : ℕ) → (done ++ take n bytes) ++ drop n bytes ≡ done ++ bytes
rejoin done bytes n =
    append_assoc done (take n bytes) (drop n bytes) ∙ ap (◌++◌ done) (take-append-drop n bytes)

full : (bytes : Bytes) → leb 64 (length bytes) ≡ true → length (take 64 bytes) ≡ 64
full bytes more = omega (arith, length-take 64 bytes, leb→le 64 (length bytes) more)

pub blocks-Runs :
    (fuel : ℕ) (m : Md5) (done bytes : Bytes) (n : ℕ)
    → length bytes < fuel
    → length done ≡ 64 * n
    → m.state ≡ absorb n seed done
    → length m.buffer ≡ 64
    → Runs (blocks fuel m bytes) (done ++ bytes)
unfolding blocks
blocks-Runs zero m done bytes n enough whole absorbed room = absurd (omega arith)
blocks-Runs (suc fuel) m done bytes n enough whole absorbed room =
    elim (Bool-cases (leb 64 (length bytes))) [
      | inl more ↦ rw more (
          subst (Runs _) (rejoin done bytes 64) (
            blocks-Runs fuel _ (done ++ take 64 bytes) (drop 64 bytes) (suc n)
              (omega (arith, length-drop 64 bytes, leb→le 64 (length bytes) more))
              (omega (arith, whole, length-append done (take 64 bytes), full bytes more))
              (ap (λ s. transform s (take 64 bytes)) absorbed
                ∙ sym (absorb-append n seed done (take 64 bytes) whole (full bytes more)))
              room))
      | inr last ↦ elim (Bool-cases (ltb 0 (length bytes))) [
        | inl some_left ↦
            rw (last, some_left)
              (store-Runs m done bytes n (leb→lt 64 (length bytes) last) whole absorbed room)
        | inr empty ↦
            rw (last, empty)
              (none-Runs m done bytes n
                (nil_of_length bytes (omega (arith, ltb→le 0 (length bytes) empty))) whole absorbed
                room)
      ]
    ]

pub blocks-count : (fuel : ℕ) (m : Md5) (bytes : Bytes) → (blocks fuel m bytes).count ≡ m.count
unfolding blocks
blocks-count zero m bytes = refl
blocks-count (suc fuel) m bytes = ground (
  arith,
  blocks-count fuel (record m { state = transform m.state (take 64 bytes) }) (drop 64 bytes),
)

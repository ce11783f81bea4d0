-- ===== src/Upload/Wire/Announce.antt =====
-- What a client sends with AT+PREUPLOAD, and what the checks read from it.
use rk_firmware_flashd.Checksum.Md5.{Md5, finish, hex_bytes, hex, finalize, little_endian}
use rk_firmware_flashd.Prelude.{
  ℕ, suc, zero, ◌+◌, ◌-◌, ◌/◌, ◌%◌, ◌^◌, ◌<◌, ◌≡◌, refl, sym, ap, ◌∙◌, true, false, [], ◌∷◌, ◌++◌,
  append_assoc, arith, all, length, drop, length-append, take-append, drop_at, All, All-append,
  some,
}
use rk_firmware_flashd.Prelude.Number.{strtoull, to_string, strtoull-to_string, all-to_string}
use rk_firmware_flashd.Prelude.Result.{ok}
use rk_firmware_flashd.Prelude.Text.{
  Bytes, Lacks, Lacks-all, find, find_from, find_first, is_digit, is_empty, is_xdigit,
}
use rk_firmware_flashd.Upload.Contract.{IsValid}
use rk_firmware_flashd.Upload.Requests.{Request, checked, comma, preupload_request}
use rk_firmware_flashd.Upload.Wire.{IsByte, length-hex_bytes, digit_facts}

-- `<file>,<total_bytes>,<md5hex>`.
abbrev pub preupload_text : Request → Bytes
preupload_text r = r.filename ++ (comma ∷ (to_string r.total_size ++ (comma ∷ r.md5_hex)))

module _ (front middle back : Bytes) (clean : Lacks comma front) (clean_middle : Lacks comma middle)
    (some_name : is_empty front ≡ false) where
  abbrev whole : Bytes
  whole = front ++ (comma ∷ (middle ++ (comma ∷ back)))

  given : (s : Bytes) → is_empty s ≡ false → (t : Bytes) → is_empty (s ++ t) ≡ false
  given [] h t = cc
  given (x ∷ s) h t = refl

  first : find whole comma ≡ some (length front)
  first = find_first front (middle ++ (comma ∷ back)) comma clean

  behind : drop (length front + 1) whole ≡ middle ++ (comma ∷ back)
  behind =
      ap (drop (length front + 1))
        (sym (append_assoc front (comma ∷ []) (middle ++ (comma ∷ back))))
      ∙ drop_at (length front + 1) (front ++ comma ∷ []) (middle ++ (comma ∷ back))
          (omega (arith, length-append front (comma ∷ [])))

  second : find_from whole comma (length front + 1) ≡ some (length middle + (length front + 1))
  unfolding find_from
  second = rw (behind, find_first middle back comma clean_middle)

  regrouped : whole ≡ (front ++ (comma ∷ middle)) ++ (comma ∷ back)
  regrouped = sym (append_assoc front (comma ∷ middle) (comma ∷ back))

  end : drop (length middle + (length front + 1) + 1) whole ≡ back
  end =
      ap (drop (length middle + (length front + 1) + 1))
        (regrouped ∙ sym (append_assoc (front ++ (comma ∷ middle)) (comma ∷ []) back))
      ∙ drop_at (length middle + (length front + 1) + 1) ((front ++ (comma ∷ middle)) ++ comma ∷ [])
          back
          (omega (
            arith,
            length-append (front ++ (comma ∷ middle)) (comma ∷ []),
            length-append front (comma ∷ middle),
          ))

  width : length middle + (length front + 1) - length front - 1 ≡ length middle
  width = omega arith

  fields : preupload_request false whole ≡ checked front middle back
  unfolding preupload_request
  fields = rw (
    given front some_name (comma ∷ (middle ++ (comma ∷ back))),
    first,
    second,
    take-append front (comma ∷ (middle ++ (comma ∷ back))),
    behind,
    width,
    take-append middle (comma ∷ back),
    end,
  )

checked_lem :
    (r : Request) (size_str : Bytes)
    → IsValid r
    → all is_digit size_str ≡ true
    → strtoull size_str ≡ r.total_size
    → checked r.filename size_str r.md5_hex ≡ ok r
checked_lem r size_str v digits value = unfold checked in ground arith

-- While no upload is active, an announcement of a valid name without a comma, a size below 2 ^ 64
-- and a valid digest is read back as it was sent.
pub preupload_request-preupload_text :
    (r : Request)
    → IsValid r
    → Lacks comma r.filename
    → r.total_size < 2 ^ 64
    → preupload_request false (preupload_text r) ≡ ok r
preupload_request-preupload_text r v clean fits =
    fields r.filename (to_string r.total_size) r.md5_hex clean
      (Lacks-all comma is_digit (to_string r.total_size) refl (all-to_string r.total_size fits))
      v.named
    ∙ checked_lem r (to_string r.total_size) v (all-to_string r.total_size fits)
        (strtoull-to_string r.total_size fits)

little_endian-bytes : (n x : ℕ) → All IsByte (little_endian n x)
unfolding little_endian
little_endian-bytes zero x = tt
little_endian-bytes (suc n) x = (omega arith, little_endian-bytes n (x / 256))

all-hex_bytes : (bytes : Bytes) → All IsByte bytes → all is_xdigit (hex_bytes bytes) ≡ true
unfolding hex_bytes
all-hex_bytes [] _ = refl
all-hex_bytes (x ∷ bytes) (h, hs) = rw (
  (digit_facts (x / 16) (omega arith)).0,
  (digit_facts (x % 16) (omega arith)).0,
  all-hex_bytes bytes hs,
)

pub digest-bytes : (m : Md5) → All IsByte (finalize m)
unfolding finalize
digest-bytes m =
    let r = (finish m).state in
    All-append IsByte ((little_endian 4 r.a ++ little_endian 4 r.b) ++ little_endian 4 r.c)
      (little_endian 4 r.d)
      (All-append IsByte (little_endian 4 r.a ++ little_endian 4 r.b) (little_endian 4 r.c)
        (All-append IsByte (little_endian 4 r.a) (little_endian 4 r.b) (little_endian-bytes 4 r.a)
          (little_endian-bytes 4 r.b))
        (little_endian-bytes 4 r.c))
      (little_endian-bytes 4 r.d)

length-finalize : (m : Md5) → length (finalize m) ≡ 16
unfolding finalize little_endian
length-finalize m = refl

-- A digest has the form that the checks of AT+PREUPLOAD ask for.
pub length-hex : (m : Md5) → length (hex m) ≡ 32
unfolding hex
length-hex m = omega (arith, length-hex_bytes (finalize m), length-finalize m)

pub all-hex : (m : Md5) → all is_xdigit (hex m) ≡ true
unfolding hex
all-hex m = all-hex_bytes (finalize m) (digest-bytes m)

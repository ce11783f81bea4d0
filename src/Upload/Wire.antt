-- ===== src/Upload/Wire.antt =====
-- What a client sends, and what the checks of the commands read from it.
pub mod Announce
use rk_firmware_flashd.Checksum.Md5.{hex_bytes, hex_digit}
pub use rk_firmware_flashd.Checksum.Crc16.Detection.{IsByte}
use rk_firmware_flashd.Prelude.{
  ℕ, zero, suc, ◌+◌, ◌-◌, ◌*◌, ◌/◌, ◌%◌, ◌^◌, ◌≤◌, ◌<◌, ◌≡◌, refl, sym, ap, ◌∙◌, true, false, [],
  ◌∷◌, ◌++◌, append_assoc, arith, all, length, take, drop, length-append, take-append, drop-append,
  All, ◌==◌, some, ◌≢◌, take_all, take_at, drop_at,
}
use rk_firmware_flashd.Prelude.Number.{
  strtoull, to_string, upper_hex4, hex_value, strtoull-to_string, all-to_string, all-upper_hex4,
}
use rk_firmware_flashd.Prelude.Result.{ok}
use rk_firmware_flashd.Prelude.Text.{
  Bytes, Lacks, Lacks-all, drop_while, find, find_from, find_first, is_digit, is_xdigit, is_space,
  rfind, rfind_from, rfind_last,
}
use rk_firmware_flashd.Upload.Frames.{Frame, frame_request, checked_frame, decode, scan_byte}
use rk_firmware_flashd.Upload.Requests.{comma}

-- `<hex_data>,<crc16hex>,<frame_len>`.
abbrev pub frame_text : Bytes → ℕ → Bytes
frame_text bytes crc =
    hex_bytes bytes ++ (comma ∷ (upper_hex4 crc ++ (comma ∷ to_string (length bytes))))

pub length-hex_bytes : (bytes : Bytes) → length (hex_bytes bytes) ≡ 2 * length bytes
unfolding hex_bytes
length-hex_bytes [] = refl
length-hex_bytes (x ∷ bytes) = omega (arith, length-hex_bytes bytes)

pub digit_facts :
    (n : ℕ)
    → n < 16
    → (is_xdigit (hex_digit n) ≡ true)
      × (hex_value (hex_digit n) ≡ n)
      × (is_space (hex_digit n) ≡ false)
unfolding hex_value
digit_facts n h = ground arith

scan_two :
    (a b : ℕ) (s : Bytes)
    → is_space a ≡ false
    → is_xdigit a ≡ true
    → is_xdigit b ≡ true
    → scan_byte (a ∷ b ∷ s) ≡ hex_value a * 16 + hex_value b
unfolding scan_byte drop_while
scan_two a b s solid first second = rw (solid, first, second)

scan_byte-hex :
    (x : ℕ) (s : Bytes) → IsByte x → scan_byte (hex_digit (x / 16) ∷ hex_digit (x % 16) ∷ s) ≡ x
scan_byte-hex x s h =
    let (hx, hv, hs) = digit_facts (x / 16) (omega arith) in
    let (lx, lv, ls) = digit_facts (x % 16) (omega arith) in
    scan_two (hex_digit (x / 16)) (hex_digit (x % 16)) s hs hx lx ∙ omega (arith, hv, lv)

decode-hex_bytes :
    (bytes : Bytes) → All IsByte bytes → decode (length bytes) (hex_bytes bytes) ≡ bytes
unfolding decode hex_bytes
decode-hex_bytes [] _ = refl
decode-hex_bytes (x ∷ bytes) (h, hs) =
    cc (scan_byte-hex x (hex_bytes bytes) h, decode-hex_bytes bytes hs)

-- The three fields of a frame, as the commas cut them.
module _ (front middle back : Bytes) (short : length front < 2 ^ 63) (four : length middle ≡ 4)
    (clean : Lacks comma middle) (clean_back : Lacks comma back) where
  abbrev whole : Bytes
  whole = front ++ (comma ∷ (middle ++ (comma ∷ back)))

  regrouped : whole ≡ (front ++ (comma ∷ middle)) ++ (comma ∷ back)
  regrouped = sym (append_assoc front (comma ∷ middle) (comma ∷ back))

  last : rfind whole comma ≡ some (length front + 5)
  last = rw regrouped (
      rfind_last (front ++ (comma ∷ middle)) back comma clean_back
      ∙ ap some (omega (arith, length-append front (comma ∷ middle), four)))

  previous : rfind_from whole comma ((length front + 5 + 2 ^ 64 - 1) % 2 ^ 64) ≡ some (length front)
  unfolding rfind_from
  previous =
      ap (λ t. rfind t comma)
        (ap (take (suc ((length front + 5 + 2 ^ 64 - 1) % 2 ^ 64))) regrouped
          ∙ take_at (suc ((length front + 5 + 2 ^ 64 - 1) % 2 ^ 64)) (front ++ (comma ∷ middle))
              (comma ∷ back) (omega (arith, length-append front (comma ∷ middle), four)))
      ∙ rfind_last front middle comma clean

  behind : drop (length front + 1) whole ≡ middle ++ (comma ∷ back)
  behind =
      ap (drop (length front + 1))
        (sym (append_assoc front (comma ∷ []) (middle ++ (comma ∷ back))))
      ∙ drop_at (length front + 1) (front ++ comma ∷ []) (middle ++ (comma ∷ back))
          (omega (arith, length-append front (comma ∷ [])))

  end : drop (length front + 5 + 1) whole ≡ back
  end =
      ap (drop (length front + 5 + 1))
        (regrouped ∙ sym (append_assoc (front ++ (comma ∷ middle)) (comma ∷ []) back))
      ∙ drop_at (length front + 5 + 1) ((front ++ (comma ∷ middle)) ++ comma ∷ []) back (
          omega (
            arith,
            length-append (front ++ (comma ∷ middle)) (comma ∷ []),
            length-append front (comma ∷ middle),
            four,
          ))

  width : (length front + 5 + 2 ^ 64 - length front - 1) % 2 ^ 64 ≡ length middle
  width = omega (arith, four)

  pub fields : frame_request whole ≡ checked_frame front middle back
  unfolding frame_request
  fields = rw (
    last,
    previous,
    take-append front (comma ∷ (middle ++ (comma ∷ back))),
    behind,
    width,
    take-append middle (comma ∷ back),
    end,
  )

checked_frame_lem :
    (hex_data crc16_hex len_str : Bytes) (n : ℕ)
    → length crc16_hex ≡ 4
    → all is_xdigit crc16_hex ≡ true
    → all is_digit len_str ≡ true
    → strtoull len_str ≡ n
    → n < 2 ^ 32
    → length hex_data ≡ 2 * n
    → checked_frame hex_data crc16_hex len_str
      ≡ ok (record { crc16_hex = crc16_hex; bin_data = decode n hex_data })
checked_frame_lem hex_data crc16_hex len_str n four xdigits digits value fits twice =
    unfold checked_frame in rw (xdigits, digits, value, twice, four) (ground arith)

length-upper_hex4 : (crc : ℕ) → length (upper_hex4 crc) ≡ 4
unfolding upper_hex4
length-upper_hex4 crc = refl

-- A frame is read back as it was sent, for any data of less than 2 ^ 32 bytes and any checksum.
pub frame_request-frame_text :
    (bytes : Bytes) (crc : ℕ)
    → All IsByte bytes
    → length bytes < 2 ^ 32
    → frame_request (frame_text bytes crc)
      ≡ ok (record { crc16_hex = upper_hex4 crc; bin_data = bytes })
frame_request-frame_text bytes crc are_bytes fits =
    fields (hex_bytes bytes) (upper_hex4 crc) (to_string (length bytes))
      (omega (arith, length-hex_bytes bytes)) (length-upper_hex4 crc)
      (Lacks-all comma is_xdigit (upper_hex4 crc) refl (all-upper_hex4 crc))
      (Lacks-all comma is_digit (to_string (length bytes)) refl digits)
    ∙ checked_frame_lem (hex_bytes bytes) (upper_hex4 crc) (to_string (length bytes)) (length bytes)
        (length-upper_hex4 crc) (all-upper_hex4 crc) digits
        (strtoull-to_string (length bytes) (omega arith)) fits (length-hex_bytes bytes)
    ∙ ap (λ data'. ok (record { crc16_hex = upper_hex4 crc; bin_data = data' }))
        (decode-hex_bytes bytes are_bytes)
  where
    digits : all is_digit (to_string (length bytes)) ≡ true
    digits = all-to_string (length bytes) (omega arith)

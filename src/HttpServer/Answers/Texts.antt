-- ===== src/HttpServer/Answers/Texts.antt =====
-- The texts of the answers to the commands of an upload, which are UTF-8.
use rk_firmware_flashd.Checksum.Md5.{md5_compute, update, reset}
use rk_firmware_flashd.HttpServer.Answers.{Json, string}
use rk_firmware_flashd.HttpServer.Answers.Utf8.{IsUtf8, IsText, append-IsUtf8, all-IsUtf8}
use rk_firmware_flashd.Prelude.Number.{to_string, all-to_string}
use rk_firmware_flashd.Prelude.{
  arith, ltb, ltb→lt, all, ℕ, ◌^◌, ◌<◌, ◌≡◌, refl, Bool, true, [], ◌∷◌, ◌++◌, length,
}
use rk_firmware_flashd.Prelude.Text.{Bytes, is_digit, is_xdigit, text}
use rk_firmware_flashd.Upload.Replies.{render, ready, received_ok, saved}
use rk_firmware_flashd.Upload.Wire.Announce.{all-hex}

-- The fields of the answer to a command.
abbrev pub answer_fields : Bytes → Json
answer_fields response =
    (text "status", string (text "ok")) ∷ (text "response", string response) ∷ []

abbrev is_ascii : ℕ → Bool
is_ascii c = ltb c 128

ascii-IsUtf8 : (s : Bytes) → all is_ascii s ≡ true → IsUtf8 s
ascii-IsUtf8 = all-IsUtf8 is_ascii (λ c h. ltb→lt c 128 h)

pub answer_fields-IsText : (response : Bytes) → IsUtf8 response → IsText (answer_fields response)
unfolding text
answer_fields-IsText response u = (
  ascii-IsUtf8 (text "status") refl,
  ascii-IsUtf8 (text "ok") refl,
  (ascii-IsUtf8 (text "response") refl, u, tt),
)

pub ready-IsUtf8 : IsUtf8 (render ready)
unfolding render text
ready-IsUtf8 = ascii-IsUtf8 (text "OK READY") refl

number-IsUtf8 : (n : ℕ) → n < 2 ^ 64 → IsUtf8 (to_string n)
number-IsUtf8 n h = all-IsUtf8 is_digit (λ c e. ground arith) (to_string n) (all-to_string n h)

pub received_ok-IsUtf8 : (n : ℕ) → n < 2 ^ 64 → IsUtf8 (render (received_ok n))
unfolding render text
received_ok-IsUtf8 n h =
    append-IsUtf8 (text "OK ") (to_string n) (ascii-IsUtf8 (text "OK ") refl) (number-IsUtf8 n h)

pub saved-IsUtf8 :
    (name content : Bytes)
    → IsUtf8 name
    → length content < 2 ^ 64
    → IsUtf8 (render (saved name (length content) (md5_compute content)))
unfolding render text
saved-IsUtf8 name content u h =
    append-IsUtf8 (((text "OK " ++ name) ++ text " ") ++ to_string (length content) ++ text " ")
      (md5_compute content)
      (append-IsUtf8 (((text "OK " ++ name) ++ text " ") ++ to_string (length content)) (text " ")
        (append-IsUtf8 ((text "OK " ++ name) ++ text " ") (to_string (length content))
          (append-IsUtf8 (text "OK " ++ name) (text " ")
            (append-IsUtf8 (text "OK ") name (ascii-IsUtf8 (text "OK ") refl) u)
            (ascii-IsUtf8 (text " ") refl))
          (number-IsUtf8 (length content) h))
        (ascii-IsUtf8 (text " ") refl))
      (all-IsUtf8 is_xdigit (λ c e. ground arith) (md5_compute content)
        (unfold md5_compute in all-hex (update reset content)))

-- ===== src/HttpUpload/Tests.antt =====
-- Uploads by HTTP of a small file.
use rk_firmware_flashd.HttpUpload.{
  Uploading, Field, firmware, init, handle_upload, uploaded, validate_filename,
}
use rk_firmware_flashd.HttpUpload.Names.{IsPlainName, validate_filename_iff}
use rk_firmware_flashd.HttpUpload.Parts.{IsFresh}
use rk_firmware_flashd.HttpUpload.Saving.{feed, http_upload_saved}
use rk_firmware_flashd.Prelude.{◌≡◌, ◌↔◌, refl, true, none, some, [], ◌∷◌}
use rk_firmware_flashd.Prelude.Text.{Bytes, beq, find, has_pair, text}
use rk_firmware_flashd.Upload.{in_dir}

abbrev dir : Bytes
dir = text "/data"

abbrev name : Bytes
name = text "fw.bin"

abbrev part : Bytes → Field
part bytes = record {
  key = some firmware;
  filename = some name;
  bytes = bytes;
  timestamp = 1700000000;
  opens = true;
  room = 2;
}

abbrev fresh : Uploading
fresh = record { state = init; files = λ _. none }

fresh-IsFresh : IsFresh fresh
fresh-IsFresh = record { no_path = refl; no_file = refl; no_size = refl }

valid : validate_filename name ≡ true
unfolding validate_filename text beq find has_pair
valid = refl

validate_filename_iff_example : (validate_filename name ≡ true) ↔ IsPlainName name
validate_filename_iff_example = validate_filename_iff name

-- The disk stores two bytes of the three in the second part; the answer says five bytes.
http_upload_saved_example :
    let after =
      handle_upload dir true true none
        (feed dir ((part (1 ∷ 2 ∷ []) ∷ []) ∷ (part (3 ∷ 4 ∷ 5 ∷ []) ∷ []) ∷ []) fresh) in
    (after.1 ≡ uploaded name (in_dir dir name) 5)
    × (after.0.files (in_dir dir name) ≡ some (1 ∷ 2 ∷ 3 ∷ 4 ∷ []))
http_upload_saved_example =
    http_upload_saved dir name (part (1 ∷ 2 ∷ [])) [] ((part (3 ∷ 4 ∷ 5 ∷ []) ∷ []) ∷ []) fresh
      valid (refl, refl) tt (((refl, refl), tt), tt) refl fresh-IsFresh

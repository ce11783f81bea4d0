-- ===== src/Upload/Sending.antt =====
-- A client that sends its data in frames, and what becomes of each frame.
use rk_firmware_flashd.Checksum.Crc16.{crc16_compute}
use rk_firmware_flashd.Checksum.Crc16.Detection.{crc16_compute-lt}
use rk_firmware_flashd.Checksum.Md5.{hex_bytes}
use rk_firmware_flashd.Checksum.Md5.Digest.{joined}
use rk_firmware_flashd.Prelude.{
  ℕ, ◌%◌, ◌^◌, ◌≤◌, ◌<◌, ◌≡◌, sym, ap, subst, ◌∙◌, true, some, List, [], ◌∷◌, ◌++◌, append-nil,
  append_assoc, arith, length, All, ==_iff,
}
use rk_firmware_flashd.Prelude.Number.{hexadecimal, upper_hex4, hexadecimal-upper_hex4}
use rk_firmware_flashd.Prelude.Text.{Bytes, is_empty-append}
use rk_firmware_flashd.Upload.{
  World, Calls, in_dir, tmp_name, accept, receive, store, handle_upload_frame,
}
use rk_firmware_flashd.Upload.Contract.{Receives}
use rk_firmware_flashd.Upload.Contract.Receiving.{store_lem, stored-Receives}
use rk_firmware_flashd.Upload.Contract.Simulation.{upload_frame_open}
use rk_firmware_flashd.Upload.Requests.{Request, comma}
use rk_firmware_flashd.Upload.Wire.{IsByte, frame_text, frame_request-frame_text}

-- A client that sends the pieces one by one.
unfoldable pub send : Calls → List Bytes → World → World
send calls [] w = w
send calls (piece ∷ pieces) w =
    send calls pieces (handle_upload_frame calls (frame_text piece (crc16_compute piece)) w).0

-- A piece of bytes whose length fits 32 bits, and that the disk has room for.
abbrev pub CanSend : Calls → Bytes → Type 0
CanSend calls piece = All IsByte piece × (length piece < 2 ^ 32) × (length piece ≤ calls.room)

-- The checksum of a frame that arrives as it was sent is the one that it carries.
pub crc_sent :
    (bytes : Bytes)
    → hexadecimal 0 (upper_hex4 (crc16_compute bytes)) % 2 ^ 16 ≡ crc16_compute bytes
crc_sent bytes = omega (
  arith,
  hexadecimal-upper_hex4 (crc16_compute bytes) (crc16_compute-lt bytes),
  crc16_compute-lt bytes,
)

-- A frame of any data and any checksum goes from the text to the comparison of checksums.
pub frame_arrives :
    (calls : Calls) (path : Bytes) (w : World) (piece : Bytes) (crc : ℕ)
    → w.upload.active ≡ true
    → w.upload.file ≡ some path
    → All IsByte piece
    → length piece < 2 ^ 32
    → handle_upload_frame calls (frame_text piece crc) w
      ≡ accept calls path (record { crc16_hex = upper_hex4 crc; bin_data = piece }) w
frame_arrives calls path w piece crc active opened are_bytes small =
    upload_frame_open calls (frame_text piece crc) path w
      (is_empty-append (hex_bytes piece) _ comma) active opened
    ∙ unfold receive in
      ap (receive calls path w) (frame_request-frame_text piece crc are_bytes small)

-- A frame with the right checksum is stored.
pub frame_stored :
    (calls : Calls) (path : Bytes) (w : World) (piece : Bytes)
    → w.upload.active ≡ true
    → w.upload.file ≡ some path
    → All IsByte piece
    → length piece < 2 ^ 32
    → handle_upload_frame calls (frame_text piece (crc16_compute piece)) w
      ≡ store calls path piece w
frame_stored calls path w piece active opened are_bytes small =
    frame_arrives calls path w piece (crc16_compute piece) active opened are_bytes small
    ∙ unfold accept in rw ((==_iff _ _).1 (sym (crc_sent piece)))

module _ (dir : Bytes) (calls : Calls) (r : Request) where
  pub send_one :
      (w : World) (content piece : Bytes)
      → Receives dir w r content
      → CanSend calls piece
      → Receives dir
          (handle_upload_frame calls (frame_text piece (crc16_compute piece)) w).0
          r
          (content ++ piece)
  send_one w content piece s (are_bytes, small, fits) =
      subst (λ x. Receives dir x.0 r (content ++ piece))
        (sym (
          frame_stored calls (in_dir dir (tmp_name r.filename)) w piece s.active s.open_file
            are_bytes small
          ∙ store_lem dir calls w r content s piece fits))
        (stored-Receives dir calls w r content s piece)

  pub send-Receives :
      (pieces : List Bytes) (w : World) (content : Bytes)
      → Receives dir w r content
      → All (CanSend calls) pieces
      → Receives dir (send calls pieces w) r (content ++ joined pieces)
  unfolding send
  send-Receives [] w content s _ = subst (Receives dir w r) (sym (append-nil content)) s
  send-Receives (piece ∷ pieces) w content s (h, hs) =
      subst (Receives dir (send calls (piece ∷ pieces) w) r)
        (append_assoc content piece (joined pieces))
        (send-Receives pieces
          (handle_upload_frame calls (frame_text piece (crc16_compute piece)) w).0
          (content ++ piece) (send_one w content piece s h) hs)

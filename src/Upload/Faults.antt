-- ===== src/Upload/Faults.antt =====
-- A frame of AT+UPLOAD that is damaged on the way.
use rk_firmware_flashd.Checksum.Crc16.{crc16_compute}
use rk_firmware_flashd.Checksum.Crc16.Detection.{IsByte, crc16_compute-detects}
use rk_firmware_flashd.Prelude.{
  ℕ, ◌+◌, ◌-◌, ◌%◌, ◌^◌, ◌<◌, ◌≡◌, ◌≢◌, sym, ap, ◌∙◌, true, some, ◌∷◌, ◌++◌, arith, length, All,
  ne→==,
}
use rk_firmware_flashd.Prelude.Number.{hexadecimal, upper_hex4}
use rk_firmware_flashd.Prelude.Text.{Bytes}
use rk_firmware_flashd.Upload.{World, Calls, accept, handle_upload_frame}
use rk_firmware_flashd.Upload.Replies.{crc_mismatch}
use rk_firmware_flashd.Upload.Sending.{crc_sent, frame_arrives}
use rk_firmware_flashd.Upload.Wire.{frame_text}

crc_refused :
    (calls : Calls) (path bytes crc16_hex : Bytes) (w : World)
    → crc16_compute bytes ≢ hexadecimal 0 crc16_hex % 2 ^ 16
    → accept calls path (record { crc16_hex = crc16_hex; bin_data = bytes }) w ≡ (
      record w { upload = record w.upload { frame_count = (w.upload.frame_count + 1) % 2 ^ 32 } },
      crc_mismatch
          (((w.upload.frame_count + 1) % 2 ^ 32 + 2 ^ 32 - 1) % 2 ^ 32)
          crc16_hex
          (upper_hex4 (crc16_compute bytes)),
    )
crc_refused calls path bytes crc16_hex w h = unfold accept in rw (ne→== _ _ h)

-- While an upload is active, a frame of less than 2 ^ 32 bytes in which one byte of the data was
-- changed on the way is refused with both checksums, and only the count of frames changes: not the
-- file, nor the number of bytes, nor the digest so far. The frame is known by the number that it
-- had, if the count fits its 32 bits.
pub frame_damaged :
    (calls : Calls) (path before after : Bytes) (sent received : ℕ) (w : World)
    → w.upload.active ≡ true
    → w.upload.file ≡ some path
    → w.upload.frame_count < 2 ^ 32
    → All IsByte (before ++ (received ∷ after))
    → All IsByte after
    → IsByte sent
    → IsByte received
    → sent ≢ received
    → length (before ++ (received ∷ after)) < 2 ^ 32
    → handle_upload_frame calls
        (frame_text (before ++ (received ∷ after)) (crc16_compute (before ++ (sent ∷ after))))
        w
      ≡ (
        record w { upload = record w.upload { frame_count = (w.upload.frame_count + 1) % 2 ^ 32 } },
        crc_mismatch w.upload.frame_count
            (upper_hex4 (crc16_compute (before ++ (sent ∷ after))))
            (upper_hex4 (crc16_compute (before ++ (received ∷ after)))),
      )
frame_damaged calls path before after sent received w active opened counted are_bytes are_bytes' b
      b' differ fits =
    frame_arrives calls path w (before ++ (received ∷ after))
      (crc16_compute (before ++ (sent ∷ after))) active opened are_bytes fits
    ∙ crc_refused calls path _ _ w (λ same.
      crc16_compute-detects before after sent received b b' are_bytes' differ
        (sym (same ∙ crc_sent (before ++ (sent ∷ after)))))
    ∙ ap
        (λ (n : ℕ). (
          record w {
            upload = record w.upload { frame_count = (w.upload.frame_count + 1) % 2 ^ 32 };
          },
          crc_mismatch n (upper_hex4 (crc16_compute (before ++ (sent ∷ after))))
              (upper_hex4 (crc16_compute (before ++ (received ∷ after)))),
        ))
        (omega arith)

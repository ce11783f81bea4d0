-- ===== src/Upload/ShortWrite.antt =====
-- A frame that the disk stores in part, and that the client then sends again.
use rk_firmware_flashd.Checksum.Crc16.{crc16_compute}
use rk_firmware_flashd.Checksum.Crc16.Detection.{IsByte}
use rk_firmware_flashd.Checksum.Md5.{md5_compute}
use rk_firmware_flashd.Files.{append, append_self, rename}
use rk_firmware_flashd.Prelude.{
  ◌^◌, ◌≤◌, ◌<◌, ◌≡◌, ◌≢◌, ap, ap₂, ◌∙◌, true, some, none, ◌++◌, arith, length, length-append,
  length-take, take, take_all, All, lt→leb, le→leb,
}
use rk_firmware_flashd.Prelude.Text.{Bytes}
use rk_firmware_flashd.Upload.{
  World, Calls, UploadState, in_dir, tmp_name, conclude, store, handle_upload_frame,
  handle_uploaddone,
}
use rk_firmware_flashd.Upload.Contract.{Receives}
use rk_firmware_flashd.Upload.Contract.Receiving.{stored, stored-Receives}
use rk_firmware_flashd.Upload.Contract.Simulation.{uploaddone_open}
use rk_firmware_flashd.Upload.Integrity.{conclude-saved, rename_to}
use rk_firmware_flashd.Upload.Replies.{saved, write_failed}
use rk_firmware_flashd.Upload.Requests.{Request}
use rk_firmware_flashd.Upload.Sending.{frame_stored}
use rk_firmware_flashd.Upload.RoundTrip.{conclude_complete}
use rk_firmware_flashd.Upload.Wire.{frame_text}

-- The answer of `conclude` does not read the files.
conclude_answer :
    (dir : Bytes) (calls : Calls) (w v : World) (u : UploadState)
    → (conclude dir calls w u).1 ≡ (conclude dir calls v u).1
unfolding conclude
conclude_answer dir calls w v u = ground arith

-- What a client does with a frame that was answered with an error: it sends the frame again.
pub sent_twice : Calls → Calls → Bytes → World → World
sent_twice short enough piece w =
    let text' = frame_text piece (crc16_compute piece) in
    (handle_upload_frame enough text' (handle_upload_frame short text' w).0).0

module _ (dir : Bytes) (short enough : Calls) (r : Request) (w : World) (content piece : Bytes)
    (s : Receives dir w r content) (are_bytes : All IsByte piece) (small : length piece < 2 ^ 32)
    (cut : short.room < length piece) (fits : length piece ≤ enough.room) where
  abbrev path : Bytes
  path = in_dir dir (tmp_name r.filename)

  abbrev cut_short : World
  cut_short = record w { files = append w.files path (take short.room piece) }

  first_frame :
      handle_upload_frame short (frame_text piece (crc16_compute piece)) w
      ≡ (cut_short, write_failed)
  first_frame =
      frame_stored short path w piece s.active s.open_file are_bytes small
      ∙ unfold store in rw (lt→leb (length piece) short.room cut)

  -- The state that a frame stored at once gives, over other files.
  abbrev twice : World
  twice = record (stored dir enough w r content s piece) {
    files = append cut_short.files path piece;
  }

  second_frame :
      (handle_upload_frame enough (frame_text piece (crc16_compute piece)) cut_short).0 ≡ twice
  second_frame =
      ap (λ x. x.0) (frame_stored enough path cut_short piece s.active s.open_file are_bytes small)
      ∙ unfold store stored in
        rw (le→leb (length piece) enough.room fits, take_all enough.room piece fits)

  sent_twice_lem : sent_twice short enough piece w ≡ twice
  unfolding sent_twice
  sent_twice_lem =
      ap (λ x. (handle_upload_frame enough (frame_text piece (crc16_compute piece)) x.0).0)
        first_frame
      ∙ second_frame

  abbrev final_path : Bytes
  final_path = in_dir dir r.filename

  abbrev on_disk : Bytes
  on_disk = (content ++ take short.room piece) ++ piece

  twice_stored : twice.files path ≡ some on_disk
  twice_stored =
      append_self cut_short.files path piece (content ++ take short.room piece)
        (append_self w.files path (take short.room piece) content s.stored)

  abbrev closing : UploadState
  closing = record (stored dir enough w r content s piece).upload { file = none }

  twice_answer :
      length (content ++ piece) ≡ r.total_size
      → length (content ++ piece) < 2 ^ 64
      → md5_compute (content ++ piece) ≡ r.md5_hex
      → enough.renames ≡ true
      → (conclude dir enough twice closing).1 ≡ saved r.filename r.total_size r.md5_hex
  twice_answer size small_file md5 renames =
      conclude_answer dir enough twice (stored dir enough w r content s piece) closing
      ∙ conclude_complete dir enough r (stored dir enough w r content s piece) (content ++ piece)
          (stored-Receives dir enough w r content s piece) size small_file md5 renames

  twice_content :
      (conclude dir enough twice closing).1 ≡ saved r.filename r.total_size r.md5_hex
      → (conclude dir enough twice closing).0.files final_path ≡ some on_disk
  twice_content e =
      let (_, _, _, files) =
        conclude-saved dir enough twice closing r.filename r.total_size r.md5_hex e in
      ap (λ fs. fs final_path) files
      ∙ unfold stored in
        ap₂ (λ f g. rename twice.files f (in_dir dir g) final_path) s.tmp_path s.filename
        ∙ rename_to twice.files path final_path
        ∙ twice_stored

  twice_concluded :
      handle_uploaddone dir enough (sent_twice short enough piece w)
      ≡ conclude dir enough twice closing
  twice_concluded =
      ap (handle_uploaddone dir enough) sent_twice_lem
      ∙ uploaddone_open dir path enough twice (unfold stored in s.active)
          (unfold stored in s.open_file)

  -- Where the disk stores only a part of a frame, which is answered with an error, and the client
  -- sends the frame again with success and then finishes, AT+UPLOADDONE answers OK with the
  -- announced size and digest of the content that was sent; but the file that it saves holds the
  -- part too, between the earlier content and the frame, and is not the content that was sent.
  pub short_write_saved :
      0 < short.room
      → length (content ++ piece) ≡ r.total_size
      → length (content ++ piece) < 2 ^ 64
      → md5_compute (content ++ piece) ≡ r.md5_hex
      → enough.renames ≡ true
      → ((handle_uploaddone dir enough (sent_twice short enough piece w)).1
          ≡ saved r.filename r.total_size r.md5_hex)
        × ((handle_uploaddone dir enough (sent_twice short enough piece w)).0.files
              (in_dir dir r.filename)
            ≡ some ((content ++ take short.room piece) ++ piece))
        × ((content ++ take short.room piece) ++ piece ≢ content ++ piece)
  short_write_saved part size small_file md5 renames = (
    ap (λ x. x.1) twice_concluded ∙ answer,
    ap (λ x. x.0.files final_path) twice_concluded ∙ twice_content answer,
    longer,
  )
    where
      answer : (conclude dir enough twice closing).1 ≡ saved r.filename r.total_size r.md5_hex
      answer = twice_answer size small_file md5 renames

      longer : (content ++ take short.room piece) ++ piece ≢ content ++ piece
      longer e = absurd (
          omega (
            arith,
            ap length e,
            length-append (content ++ take short.room piece) piece,
            length-append content (take short.room piece),
            length-append content piece,
            length-take short.room piece,
          ))

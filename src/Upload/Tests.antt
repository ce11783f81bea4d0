-- ===== src/Upload/Tests.antt =====
-- Runs of the upload commands on concrete data.
use rk_firmware_flashd.Checksum.Crc16.{crc16_compute}
use rk_firmware_flashd.Checksum.Md5.{md5_compute}
use rk_firmware_flashd.Checksum.Md5.Digest.{joined}
use rk_firmware_flashd.Prelude.{
  ◌+◌, ◌%◌, ◌^◌, ◌<◌, ◌≡◌, ◌≢◌, ◌⊎◌, refl, sym, ap, ◌∙◌, true, false, some, none, List, [], ◌∷◌,
  All, length, arith,
}
use rk_firmware_flashd.Prelude.Number.{upper_hex4}
use rk_firmware_flashd.Prelude.Result.{ok}
use rk_firmware_flashd.Prelude.Text.{Bytes, find, has_pair, text}
use rk_firmware_flashd.Upload.{
  World, Calls, init, begin, in_dir, tmp_name, handle_preupload, handle_upload_frame,
  handle_uploaddone, conclude,
}
use rk_firmware_flashd.Upload.Capitals.{capital_digest}
use rk_firmware_flashd.Upload.Contract.{
  preupload, frame, IsIdle, IsValid, Moves, Phase, idle, Receives, Stands, step,
}
use rk_firmware_flashd.Upload.Contract.Receiving.{
  begin-Receives, stored, stored-Receives, store_lem,
}
use rk_firmware_flashd.Upload.Contract.Simulation.{
  History, here, next, History-Stands, step-Simulated, uploaddone_open,
}
use rk_firmware_flashd.Upload.Faults.{frame_damaged}
use rk_firmware_flashd.Upload.Frames.{frame_request}
use rk_firmware_flashd.Upload.Integrity.{
  IsSaved, is_saved, uploaddone-IsSaved, uploaddone-not_saved,
}
use rk_firmware_flashd.Upload.Replies.{
  ready, saved, write_failed, crc_mismatch, received_ok, done_no_upload,
}
use rk_firmware_flashd.Upload.Requests.{Request, preupload_request}
use rk_firmware_flashd.Upload.RoundTrip.{
  announce, announce-IsValid, conclude_complete, IsName, preupload_announced, upload,
  upload_round_trip,
}
use rk_firmware_flashd.Upload.Sending.{CanSend, frame_stored}
use rk_firmware_flashd.Upload.ShortWrite.{sent_twice, short_write_saved}
use rk_firmware_flashd.Upload.Wire.{frame_text, frame_request-frame_text}
use rk_firmware_flashd.Upload.Wire.Announce.{preupload_text, preupload_request-preupload_text}

abbrev dir : Bytes
dir = text "/data"

abbrev name : Bytes
name = text "fw.bin"

abbrev calls : Calls
calls = record { opens = true; room = 4096; renames = true }

abbrev fresh : World
fresh = record { upload = init; files = λ _. none }

fresh-IsIdle : IsIdle fresh
fresh-IsIdle = record { inactive = refl; closed = refl }

abbrev pieces : List Bytes
pieces = (1 ∷ 2 ∷ 255 ∷ []) ∷ (7 ∷ []) ∷ []

name-IsName : IsName name
unfolding text find has_pair
name-IsName = record {
  named = refl;
  short_name = omega arith;
  no_slash = refl;
  no_dots = refl;
  no_comma = ground arith;
}

can_send : All (CanSend calls) pieces
can_send = ground arith

abbrev content : Bytes
content = joined pieces

abbrev request : Request
request = announce name content

request-IsValid : IsValid request
request-IsValid = announce-IsValid name content name-IsName (omega arith)

upload_round_trip_example :
    ((upload dir calls name pieces fresh).1 ≡ saved name 4 (md5_compute content))
    × ((upload dir calls name pieces fresh).0.files (in_dir dir name) ≡ some content)
upload_round_trip_example =
    upload_round_trip dir calls name pieces fresh fresh-IsIdle name-IsName can_send (omega arith)
      (omega arith) refl refl

begun : World
begun = begin dir fresh request

begun-Receives : Receives dir begun request []
unfolding begun
begun-Receives = begin-Receives dir fresh request request-IsValid

announced : step dir fresh (preupload calls (preupload_text request)) ≡ (begun, ready)
unfolding step begun
announced =
    preupload_announced dir calls fresh request fresh-IsIdle request-IsValid name-IsName.no_comma
      (omega arith) refl

ready-ne-write_failed : ready ≢ write_failed
ready-ne-write_failed = λ e. cc

step-Simulated_example :
    (q : Phase) × Moves
      (preupload calls (preupload_text request))
      idle
      (step dir fresh (preupload calls (preupload_text request))).1
      q
    × Stands dir (step dir fresh (preupload calls (preupload_text request))).0 q
step-Simulated_example =
    step-Simulated dir fresh (preupload calls (preupload_text request)) idle fresh-IsIdle
      (λ e. ready-ne-write_failed (sym (ap (λ x. x.1) announced) ∙ e))

preuploaded : History dir fresh begun
preuploaded =
    next here (preupload calls (preupload_text request)) ready announced ready-ne-write_failed

History-Stands_example : (p : Phase) × Stands dir begun p
History-Stands_example = History-Stands fresh-IsIdle preuploaded

frame_request-frame_text_example :
    frame_request (frame_text (1 ∷ 2 ∷ []) 0x0e7c)
    ≡ ok (record { crc16_hex = upper_hex4 0x0e7c; bin_data = 1 ∷ 2 ∷ [] })
frame_request-frame_text_example =
    frame_request-frame_text (1 ∷ 2 ∷ []) 0x0e7c (ground arith) (omega arith)

preupload_request-preupload_text_example :
    preupload_request false (preupload_text request) ≡ ok request
preupload_request-preupload_text_example =
    preupload_request-preupload_text request request-IsValid name-IsName.no_comma (omega arith)

begun-frame_count : begun.upload.frame_count < 2 ^ 32
unfolding begun begin
begun-frame_count = omega arith

-- The second of three bytes arrives as 3 instead of 2.
frame_damaged_example :
    handle_upload_frame calls
      (frame_text (1 ∷ 3 ∷ 255 ∷ []) (crc16_compute (1 ∷ 2 ∷ 255 ∷ [])))
      begun
    ≡ (
      record begun {
        upload = record begun.upload { frame_count = (begun.upload.frame_count + 1) % 2 ^ 32 };
      },
      crc_mismatch begun.upload.frame_count
          (upper_hex4 (crc16_compute (1 ∷ 2 ∷ 255 ∷ [])))
          (upper_hex4 (crc16_compute (1 ∷ 3 ∷ 255 ∷ []))),
    )
frame_damaged_example =
    frame_damaged calls (in_dir dir (tmp_name name)) (1 ∷ []) (255 ∷ []) 2 3 begun
      begun-Receives.active begun-Receives.open_file begun-frame_count (ground arith) (ground arith)
      (omega arith) (omega arith) (omega arith) (omega arith)

other_path : [] ≢ begun.upload.tmp_path
unfolding begun begin text
other_path e = cc

too_short : is_saved (handle_uploaddone dir calls begun).1 ≡ false
unfolding handle_uploaddone conclude begun begin
too_short = refl

uploaddone-not_saved_example :
    ((handle_uploaddone dir calls begun).0.files [] ≡ begun.files [])
    × (((handle_uploaddone dir calls begun).1 ≡ done_no_upload)
        ⊎ ((handle_uploaddone dir calls begun).0.files begun.upload.tmp_path ≡ none))
uploaddone-not_saved_example = uploaddone-not_saved dir calls begun [] too_short other_path

-- The content in one frame.
sent : World
sent = stored dir calls begun request [] begun-Receives content

sent-Receives : Receives dir sent request content
unfolding sent
sent-Receives = stored-Receives dir calls begun request [] begun-Receives content

sending :
    step dir begun (frame calls (frame_text content (crc16_compute content)))
    ≡ (sent, received_ok ((begun.upload.received + length content) % 2 ^ 64))
unfolding step sent
sending =
    frame_stored calls (in_dir dir (tmp_name name)) begun content begun-Receives.active
      begun-Receives.open_file (ground arith) (omega arith)
    ∙ store_lem dir calls begun request [] begun-Receives content (omega arith)

finishing : (handle_uploaddone dir calls sent).1 ≡ saved name 4 (md5_compute content)
finishing =
    ap (λ x. x.1)
      (uploaddone_open dir (in_dir dir (tmp_name name)) calls sent sent-Receives.active
        sent-Receives.open_file)
    ∙ conclude_complete dir calls request sent content sent-Receives refl (omega arith) refl refl

uploaddone-IsSaved_example :
    IsSaved dir sent.files name 4 (md5_compute content) (handle_uploaddone dir calls sent).0.files
uploaddone-IsSaved_example =
    uploaddone-IsSaved fresh-IsIdle
      (next preuploaded (frame calls (frame_text content (crc16_compute content)))
        (received_ok ((begun.upload.received + length content) % 2 ^ 64)) sending (λ e. cc))
      calls name 4 (md5_compute content) finishing

-- The disk stores two of four bytes at first.
abbrev short : Calls
short = record calls { room = 2 }

short_write_saved_example :
    ((handle_uploaddone dir calls (sent_twice short calls content begun)).1
      ≡ saved name 4 (md5_compute content))
    × ((handle_uploaddone dir calls (sent_twice short calls content begun)).0.files
          (in_dir dir name)
        ≡ some (1 ∷ 2 ∷ 1 ∷ 2 ∷ 255 ∷ 7 ∷ []))
    × (1 ∷ 2 ∷ 1 ∷ 2 ∷ 255 ∷ 7 ∷ [] ≢ content)
short_write_saved_example =
    short_write_saved dir short calls request begun [] content begun-Receives (ground arith)
      (omega arith) (omega arith) (omega arith) (omega arith) refl (omega arith) refl refl

abbrev capitals : Request
capitals = record {
  filename = name;
  total_size = 4;
  md5_hex = text "D41D8CD98F00B204E9800998ECF8427E";
}

capitals-IsValid : IsValid capitals
unfolding text
capitals-IsValid = record {
  named = refl;
  short_name = name-IsName.short_name;
  no_slash = name-IsName.no_slash;
  no_dots = name-IsName.no_dots;
  some_size = omega arith;
  md5_size = refl;
  md5_xdigits = refl;
}

capital_digest_example :
    ((handle_preupload dir calls (preupload_text capitals) fresh).1 ≡ ready)
    × (is_saved (handle_uploaddone dir calls (begin dir fresh capitals)).1 ≡ false)
    × ((handle_uploaddone dir calls (begin dir fresh capitals)).0.files (in_dir dir (tmp_name name))
        ≡ none)
unfolding text
capital_digest_example =
    capital_digest dir calls capitals fresh (begin dir fresh capitals) [] refl capitals-IsValid
      name-IsName.no_comma (omega arith) refl fresh-IsIdle
      (begin-Receives dir fresh capitals capitals-IsValid)

-- ===== src/Upload/RoundTrip.antt =====
-- A whole upload: announce, send in pieces, finish.
use rk_firmware_flashd.Checksum.Md5.{md5_compute, hex, update, reset}
use rk_firmware_flashd.Checksum.Md5.Digest.{joined}
use rk_firmware_flashd.Checksum.Md5.Standard.{hex-rfc1321, md5_compute-rfc1321}
use rk_firmware_flashd.Files.{rename}
use rk_firmware_flashd.Prelude.{
  ◌^◌, ◌≤◌, ◌<◌, ◌≡◌, refl, sym, ap, ap₂, subst, ◌∙◌, true, false, some, none, List, [], arith,
  length, All, ==_iff, ◌==◌,
}
use rk_firmware_flashd.Prelude.Text.{Bytes, Lacks, find, has_pair, is_empty, beq, beq_iff}
use rk_firmware_flashd.Upload.{
  World, Calls, in_dir, tmp_name, begin, start, conclude, handle_preupload, handle_uploaddone,
}
use rk_firmware_flashd.Upload.Contract.{IsIdle, IsValid, Receives}
use rk_firmware_flashd.Upload.Contract.Receiving.{begin-Receives}
use rk_firmware_flashd.Upload.Contract.Simulation.{uploaddone_open}
use rk_firmware_flashd.Upload.Integrity.{conclude-saved, rename_to}
use rk_firmware_flashd.Upload.Sending.{send, CanSend, send-Receives}
use rk_firmware_flashd.Upload.Replies.{Reply, ready, saved}
use rk_firmware_flashd.Upload.Requests.{Request, comma, preupload_request, slash, dot}
use rk_firmware_flashd.Upload.Wire.Announce.{
  preupload_text, preupload_request-preupload_text, length-hex, all-hex,
}

module _ (dir : Bytes) (calls : Calls) (r : Request) where
  -- With the announced size and digest met, and a rename that works, the file is saved.
  pub conclude_complete :
      (w : World) (content : Bytes)
      → Receives dir w r content
      → length content ≡ r.total_size
      → length content < 2 ^ 64
      → md5_compute content ≡ r.md5_hex
      → calls.renames ≡ true
      → (conclude dir calls w (record w.upload { file = none })).1
        ≡ saved r.filename r.total_size r.md5_hex
  conclude_complete w content s size fits md5 renames =
      unfold conclude in rw (received, digest, renames) (cc (s.filename, received_value, hex_value))
    where
      received_value : w.upload.received ≡ r.total_size
      received_value = omega (arith, s.counted, size)

      received : (w.upload.received == w.upload.expected_size) ≡ true
      received = (==_iff _ _).1 (received_value ∙ sym s.expected_size)

      hex_value : hex w.upload.md5_ctx ≡ r.md5_hex
      hex_value =
          hex-rfc1321 w.upload.md5_ctx content s.fed ∙ sym (md5_compute-rfc1321 content) ∙ md5

      digest : beq (hex w.upload.md5_ctx) w.upload.expected_md5 ≡ true
      digest = (beq_iff _ _).1 (hex_value ∙ sym s.expected_md5)

  conclude_content :
      (w : World) (content : Bytes)
      → Receives dir w r content
      → (conclude dir calls w (record w.upload { file = none })).1
        ≡ saved r.filename r.total_size r.md5_hex
      → (conclude dir calls w (record w.upload { file = none })).0.files (in_dir dir r.filename)
        ≡ some content
  conclude_content w content s e =
      let (name, _, _, files) =
        conclude-saved dir calls w (record w.upload { file = none }) r.filename r.total_size
          r.md5_hex e in
      ap (λ fs. fs (in_dir dir r.filename)) files
      ∙ ap₂ (λ f at. rename w.files f at (in_dir dir r.filename)) s.tmp_path
          (ap (in_dir dir) (sym name))
      ∙ rename_to w.files (in_dir dir (tmp_name r.filename)) (in_dir dir r.filename)
      ∙ s.stored

-- What a client announces for a file.
abbrev pub announce : Bytes → Bytes → Request
announce name content = record {
  filename = name;
  total_size = length content;
  md5_hex = md5_compute content;
}

-- A name that the checks let pass, and that holds no comma, which the arguments are cut at.
pub record IsName (name : Bytes) : Type 0 where
  pub named : is_empty name ≡ false
  pub short_name : length name ≤ 255
  pub no_slash : find name slash ≡ none
  pub no_dots : has_pair name dot dot ≡ false
  pub no_comma : Lacks comma name

pub announce-IsValid :
    (name content : Bytes) → IsName name → 0 < length content → IsValid (announce name content)
announce-IsValid name content n some_size = record {
  named = n.named;
  short_name = n.short_name;
  no_slash = n.no_slash;
  no_dots = n.no_dots;
  some_size = some_size;
  md5_size = unfold md5_compute in length-hex (update reset content);
  md5_xdigits = unfold md5_compute in all-hex (update reset content);
}

pub preupload_announced :
    (dir : Bytes) (calls : Calls) (w : World) (r : Request)
    → IsIdle w
    → IsValid r
    → Lacks comma r.filename
    → r.total_size < 2 ^ 64
    → calls.opens ≡ true
    → handle_preupload dir calls (preupload_text r) w ≡ (begin dir w r, ready)
unfolding handle_preupload start
preupload_announced dir calls w r i v clean fits opens =
    ap (λ b. start dir calls w (preupload_request b (preupload_text r))) i.inactive
    ∙ ap (start dir calls w) (preupload_request-preupload_text r v clean fits)
    ∙ rw opens

-- The three phases of an upload by a client that follows the protocol.
unfoldable pub upload : Bytes → Calls → Bytes → List Bytes → World → World × Reply
upload dir calls name pieces w =
    let begun = (handle_preupload dir calls (preupload_text (announce name (joined pieces))) w).0 in
    handle_uploaddone dir calls (send calls pieces begun)

-- A client that follows the protocol gets its file across: with no upload active, a usable name,
-- some content of less than 2 ^ 64 bytes in pieces that the disk has room for, and an fopen and a
-- rename that work, the answer is OK with the name, the size and the digest, and the file that is
-- saved under the name has exactly the content that was sent.
pub upload_round_trip :
    (dir : Bytes) (calls : Calls) (name : Bytes) (pieces : List Bytes) (w : World)
    → IsIdle w
    → IsName name
    → All (CanSend calls) pieces
    → 0 < length (joined pieces)
    → length (joined pieces) < 2 ^ 64
    → calls.opens ≡ true
    → calls.renames ≡ true
    → ((upload dir calls name pieces w).1
        ≡ saved name (length (joined pieces)) (md5_compute (joined pieces)))
      × ((upload dir calls name pieces w).0.files (in_dir dir name) ≡ some (joined pieces))
unfolding upload
upload_round_trip dir calls name pieces w i n can some_size fits opens renames = (
  ap (λ x. x.1) opened ∙ answer,
  ap (λ x. x.0.files (in_dir dir name)) opened ∙ conclude_content dir calls r sent content s answer,
)
  where
    content : Bytes
    content = joined pieces

    r : Request
    r = announce name content

    valid : IsValid r
    valid = announce-IsValid name content n some_size

    begun : World
    begun = (handle_preupload dir calls (preupload_text r) w).0

    started : Receives dir begun r []
    started =
        subst (λ x. Receives dir x.0 r [])
          (sym (preupload_announced dir calls w r i valid n.no_comma fits opens))
          (begin-Receives dir w r valid)

    sent : World
    sent = send calls pieces begun

    s : Receives dir sent r content
    s = send-Receives dir calls r pieces begun [] started can

    opened :
        handle_uploaddone dir calls sent
        ≡ conclude dir calls sent (record sent.upload { file = none })
    opened = uploaddone_open dir (in_dir dir (tmp_name name)) calls sent s.active s.open_file

    answer :
        (conclude dir calls sent (record sent.upload { file = none })).1
        ≡ saved name (length content) (md5_compute content)
    answer = conclude_complete dir calls r sent content s refl fits refl renames

-- ===== src/Upload/Capitals.antt =====
-- A digest that the client announces in capitals: AT+PREUPLOAD takes it, AT+UPLOADDONE compares it
-- with the digits that `MD5::hex` writes.
use rk_firmware_flashd.Checksum.Md5.{Md5, hex, hex_bytes, hex_digit, finalize}
use rk_firmware_flashd.Files.{put_self, unlink}
use rk_firmware_flashd.Prelude.{
  ℕ, ◌/◌, ◌%◌, ◌^◌, ◌<◌, ◌≡◌, ap, ◌∙◌, refl, true, false, Bool, Bool-cases, inl, inr, none, not, [],
  ◌∷◌, arith, all, All,
}
use rk_firmware_flashd.Prelude.Text.{Bytes, Lacks, beq, beq_iff, is_upper}
use rk_firmware_flashd.Upload.{
  World, Calls, UploadState, conclude, handle_preupload, handle_uploaddone, in_dir, tmp_name,
}
use rk_firmware_flashd.Upload.Contract.{IsIdle, IsValid, Receives}
use rk_firmware_flashd.Upload.Contract.Simulation.{uploaddone_open}
use rk_firmware_flashd.Upload.Integrity.{conclude-not_saved, is_saved}
use rk_firmware_flashd.Upload.Replies.{ready}
use rk_firmware_flashd.Upload.Requests.{Request, comma}
use rk_firmware_flashd.Upload.RoundTrip.{preupload_announced}
use rk_firmware_flashd.Upload.Wire.{IsByte}
use rk_firmware_flashd.Upload.Wire.Announce.{digest-bytes, preupload_text}

-- No capital among the digits.
abbrev pub in_lower_case : Bytes → Bool
in_lower_case md5_hex = all (λ c. not (is_upper c)) md5_hex

digit-not_upper : (n : ℕ) → n < 16 → not (is_upper (hex_digit n)) ≡ true
digit-not_upper n h = ground arith

hex_bytes-in_lower_case :
    (bytes : Bytes) → All IsByte bytes → in_lower_case (hex_bytes bytes) ≡ true
unfolding hex_bytes
hex_bytes-in_lower_case [] _ = refl
hex_bytes-in_lower_case (x ∷ bytes) (h, hs) = rw (
  digit-not_upper (x / 16) (omega arith),
  digit-not_upper (x % 16) (omega arith),
  hex_bytes-in_lower_case bytes hs,
)

hex-in_lower_case : (m : Md5) → in_lower_case (hex m) ≡ true
unfolding hex
hex-in_lower_case m = hex_bytes-in_lower_case (finalize m) (digest-bytes m)

conclude-matches :
    (dir : Bytes) (calls : Calls) (w : World) (u : UploadState)
    → is_saved (conclude dir calls w u).1 ≡ true
    → hex u.md5_ctx ≡ u.expected_md5
unfolding conclude
conclude-matches dir calls w u e = elim (Bool-cases (beq (hex u.md5_ctx) u.expected_md5)) [
  | inl same ↦ (beq_iff _ _).0 same
  | inr other ↦ ground arith
]

-- AT+PREUPLOAD answers `OK READY` to an announcement of a valid name without a comma, a size below
-- 2 ^ 64 and a digest with a capital, while no upload is active and the temporary file can be
-- created; but whatever content then arrives, AT+UPLOADDONE does not answer OK, and it deletes what
-- was received.
pub capital_digest :
    (dir : Bytes) (calls : Calls) (r : Request) (v w : World) (content : Bytes)
    → in_lower_case r.md5_hex ≡ false
    → IsValid r
    → Lacks comma r.filename
    → r.total_size < 2 ^ 64
    → calls.opens ≡ true
    → IsIdle v
    → Receives dir w r content
    → ((handle_preupload dir calls (preupload_text r) v).1 ≡ ready)
      × (is_saved (handle_uploaddone dir calls w).1 ≡ false)
      × ((handle_uploaddone dir calls w).0.files (in_dir dir (tmp_name r.filename)) ≡ none)
capital_digest dir calls r v w content capital valid clean fits opens idle s = (
  ap (λ x. x.1) (preupload_announced dir calls v r idle valid clean fits opens),
  ap (λ x. is_saved x.1) opened ∙ unsaved,
  ap (λ x. x.0.files path) opened
      ∙ ap (λ fs. fs path) (conclude-not_saved dir calls w closing unsaved)
      ∙ ap (λ at. unlink w.files at path) s.tmp_path
      ∙ put_self w.files path none,
)
  where
    path : Bytes
    path = in_dir dir (tmp_name r.filename)

    closing : UploadState
    closing = record w.upload { file = none }

    opened : handle_uploaddone dir calls w ≡ conclude dir calls w closing
    opened = uploaddone_open dir path calls w s.active s.open_file

    unsaved : is_saved (conclude dir calls w closing).1 ≡ false
    unsaved = elim (Bool-cases (is_saved (conclude dir calls w closing).1)) [
      | inr failed ↦ failed
      | inl done ↦ ground (
        arith,
        hex-in_lower_case w.upload.md5_ctx,
        capital,
        ap in_lower_case (conclude-matches dir calls w closing done ∙ s.expected_md5),
      )
    ]

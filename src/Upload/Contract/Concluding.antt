-- ===== src/Upload/Contract/Concluding.antt =====
-- AT+UPLOADDONE with an upload active keeps the contract, on every branch.
use rk_firmware_flashd.Checksum.Md5.{md5_compute, hex}
use rk_firmware_flashd.Checksum.Md5.Standard.{hex-rfc1321, md5_compute-rfc1321}
use rk_firmware_flashd.Files.{rename}
use rk_firmware_flashd.Prelude.{
  ◌≡◌, refl, sym, ap₂, ◌∙◌, subst, Bool, not, length, ◌%◌, ◌^◌, if◌then◌else◌, ◌≢◌, true, false,
  some, none, ==_iff, ◌==◌,
}
use rk_firmware_flashd.Prelude.Text.{Bytes, beq, beq_iff}
use rk_firmware_flashd.Upload.{
  World, Calls, UploadState, conclude, in_dir, tmp_name, drop_upload, reset,
}
use rk_firmware_flashd.Upload.Contract.{
  finish, idle, receiving, Moves, finishes, wrong_size, wrong_md5, not_renamed, Receives,
}
use rk_firmware_flashd.Upload.Contract.Receiving.{Simulated}
use rk_firmware_flashd.Upload.Replies.{saved, size_mismatch, md5_mismatch, rename_failed}
use rk_firmware_flashd.Upload.Requests.{Request}

false-ne-true : false ≢ true
false-ne-true e = cc

module _ (dir : Bytes) (calls : Calls) (w : World) (u : UploadState) (r : Request) (content : Bytes)
    (s : Receives dir
      (record w { upload = record u { file = some (in_dir dir (tmp_name r.filename)) } })
      r
      content)
    (closed : u.file ≡ none) where
  -- The digest that the code compares is that of the file's content.
  content-md5 : hex u.md5_ctx ≡ md5_compute content
  content-md5 = hex-rfc1321 u.md5_ctx content s.fed ∙ sym (md5_compute-rfc1321 content)

  finishes-Moves :
      u.received ≡ u.expected_size
      → hex u.md5_ctx ≡ u.expected_md5
      → calls.renames ≡ true
      → Moves
          (finish calls)
          (receiving r content)
          (saved u.filename u.received (hex u.md5_ctx))
          idle
  finishes-Moves size md5 renamed =
      subst (λ reply. Moves (finish calls) (receiving r content) reply idle) same
        (finishes calls r content (sym s.counted ∙ size ∙ s.expected_size)
          (sym content-md5 ∙ md5 ∙ s.expected_md5) renamed)
    where
      same : saved r.filename r.total_size r.md5_hex ≡ saved u.filename u.received (hex u.md5_ctx)
      same = cc (s.filename, s.expected_size, s.expected_md5)

  wrong_size-Moves :
      u.received ≢ u.expected_size
      → Moves (finish calls) (receiving r content) (size_mismatch u.expected_size u.received) idle
  wrong_size-Moves other =
      subst (λ reply. Moves (finish calls) (receiving r content) reply idle) same
        (wrong_size calls r content (λ e. other (s.counted ∙ e ∙ sym s.expected_size)))
    where
      same :
          size_mismatch r.total_size (length content % 2 ^ 64)
          ≡ size_mismatch u.expected_size u.received
      same = ap₂ size_mismatch (sym s.expected_size) (sym s.counted)

  wrong_md5-Moves :
      hex u.md5_ctx ≢ u.expected_md5
      → Moves
          (finish calls)
          (receiving r content)
          (md5_mismatch u.expected_md5 (hex u.md5_ctx))
          idle
  wrong_md5-Moves other =
      subst (λ reply. Moves (finish calls) (receiving r content) reply idle) same
        (wrong_md5 calls r content (λ e. other (content-md5 ∙ e ∙ sym s.expected_md5)))
    where
      same :
          md5_mismatch r.md5_hex (md5_compute content) ≡ md5_mismatch u.expected_md5 (hex u.md5_ctx)
      same = ap₂ md5_mismatch (sym s.expected_md5) (sym content-md5)

  -- The branches of the code, one for each of its tests.
  concluded :
      (size md5 renames : Bool)
      → (u.received == u.expected_size) ≡ size
      → beq (hex u.md5_ctx) u.expected_md5 ≡ md5
      → calls.renames ≡ renames
      → Simulated dir (finish calls) (receiving r content) (
          if not size
          then (drop_upload w u, size_mismatch u.expected_size u.received)
          else if not md5
          then (drop_upload w u, md5_mismatch u.expected_md5 (hex u.md5_ctx))
          else if not renames
          then (drop_upload w u, rename_failed)
          else (
            record { upload = reset u; files = rename w.files u.tmp_path (in_dir dir u.filename) },
            saved u.filename u.received (hex u.md5_ctx),
          ))
  concluded false md5 renames e _ _ _ = (
    idle,
    wrong_size-Moves (λ h. false-ne-true (sym e ∙ (==_iff u.received u.expected_size).1 h)),
    record { inactive = refl; closed = closed },
  )
  concluded true false renames _ e _ _ = (
    idle,
    wrong_md5-Moves (λ h. false-ne-true (sym e ∙ (beq_iff (hex u.md5_ctx) u.expected_md5).1 h)),
    record { inactive = refl; closed = closed },
  )
  concluded true true false _ _ e _ =
      (idle, not_renamed calls r content e, record { inactive = refl; closed = closed })
  concluded true true true size md5 e _ = (
    idle,
    finishes-Moves ((==_iff u.received u.expected_size).0 size)
        ((beq_iff (hex u.md5_ctx) u.expected_md5).0 md5) e,
    record { inactive = refl; closed = closed },
  )

  pub conclude-Simulated :
      Simulated dir (finish calls) (receiving r content) (conclude dir calls w u)
  unfolding conclude
  conclude-Simulated =
      concluded (u.received == u.expected_size) (beq (hex u.md5_ctx) u.expected_md5) calls.renames
        refl refl refl

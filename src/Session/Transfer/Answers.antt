-- ===== src/Session/Transfer/Answers.antt =====
-- The answers that a client gets on the way of an upload by HTTP.
use rk_firmware_flashd.Checksum.Crc16.{crc16_compute}
use rk_firmware_flashd.Checksum.Md5.{md5_compute, update, reset}
use rk_firmware_flashd.Checksum.Md5.Digest.{joined}
use rk_firmware_flashd.Command.{Daemon}
use rk_firmware_flashd.Command.Local.{Surroundings}
use rk_firmware_flashd.Flash.{Outcome, replied, terminated}
use rk_firmware_flashd.Lock.{http, serial}
use rk_firmware_flashd.Prelude.{
  ℕ, ◌+◌, ◌%◌, ◌^◌, ◌<◌, ◌≡◌, ◌≢◌, refl, sym, subst, ◌∙◌, true, List, [], ◌∷◌, ◌++◌, arith, length,
  All,
}
use rk_firmware_flashd.Prelude.Text.{Bytes, text}
use rk_firmware_flashd.Session.{HttpReply, answer, run_command, reader_line}
use rk_firmware_flashd.Session.Holding.{reader_busy}
use rk_firmware_flashd.Session.Transfer.{
  Event, by_http, by_serial, http_commands, frames, not_serial, cons_injective, preupload_given,
  upload_given, uploaddone_given,
}
use rk_firmware_flashd.Upload.{
  World, in_dir, tmp_name, begin, handle_preupload, handle_upload_frame, handle_uploaddone,
}
use rk_firmware_flashd.Upload.Contract.{IsIdle, IsValid, Receives}
use rk_firmware_flashd.Upload.Contract.Receiving.{begin-Receives, store_lem}
use rk_firmware_flashd.Upload.Replies.{render, ready, received_ok, saved}
use rk_firmware_flashd.Upload.Requests.{Request}
use rk_firmware_flashd.Upload.RoundTrip.{
  IsName, announce, announce-IsValid, preupload_announced, upload, upload_round_trip,
}
use rk_firmware_flashd.Upload.Sending.{send, send_one, frame_stored, CanSend}
use rk_firmware_flashd.Upload.Wire.{frame_text}
use rk_firmware_flashd.Upload.Wire.Announce.{preupload_text, all-hex}

module _ (P : Bytes → Type 0) (env : Surroundings) where
  -- A response with the property.
  abbrev pub OfReply : HttpReply → Type 0
  OfReply (answer response) = P response
  OfReply _ = ⊥

  abbrev pub Goes : Outcome Daemon → (Daemon → Type 0) → Type 0
  Goes (replied d _) next = next d
  Goes terminated next = Unit

  -- Every command by HTTP is processed and answered with such a response.
  unfoldable pub Answers : List Event → Daemon → Type 0
  Answers [] d = Unit
  Answers (by_serial line ∷ events) d = Goes (reader_line env line d) (λ d'. Answers events d')
  Answers (by_http cmd ∷ events) d =
      OfReply (run_command env cmd d).1 × Goes (run_command env cmd d).0 (λ d'. Answers events d')

  lines-Answers :
      (events : List Event) (d : Daemon)
      → d.owner ≡ http
      → http_commands events ≡ []
      → Answers events d
  unfolding Answers
  lines-Answers [] d owns e = tt
  lines-Answers (by_http cmd ∷ events) d owns e = cc
  lines-Answers (by_serial line ∷ events) d owns e =
      rw (reader_busy env line d owns) (lines-Answers events d owns e)

  -- The answer to a frame that is stored.
  frame_answer :
      (r : Request) (content piece : Bytes) (w : World)
      → Receives env.upload_dir w r content
      → CanSend env.calls piece
      → ((n : ℕ) → n < 2 ^ 64 → P (render (received_ok n)))
      → P (render (handle_upload_frame env.calls (frame_text piece (crc16_compute piece)) w).1)
  frame_answer r content piece w s (are_bytes, small, fits) accepted =
      subst (λ x. P (render x.1))
        (sym (
          frame_stored env.calls (in_dir env.upload_dir (tmp_name r.filename)) w piece s.active
            s.open_file are_bytes small
          ∙ store_lem env.upload_dir env.calls w r content s piece fits))
        (accepted ((w.upload.received + length piece) % 2 ^ 64) (omega arith))

  frames-Answers :
      (events : List Event) (pieces : List Bytes) (d : Daemon) (r : Request) (content : Bytes)
      → d.owner ≡ http
      → Receives env.upload_dir d.world r content
      → All (CanSend env.calls) pieces
      → http_commands events ≡ frames pieces
      → ((n : ℕ) → n < 2 ^ 64 → P (render (received_ok n)))
      → P (render (handle_uploaddone env.upload_dir env.calls (send env.calls pieces d.world)).1)
      → Answers events d
  unfolding Answers send
  frames-Answers [] [] d r content owns s can e accepted last = cc
  frames-Answers [] (piece ∷ pieces) d r content owns s can e accepted last = cc
  frames-Answers (by_serial line ∷ events) pieces d r content owns s can e accepted last =
      rw (reader_busy env line d owns)
        (frames-Answers events pieces d r content owns s can e accepted last)
  frames-Answers (by_http cmd ∷ events) [] d r content owns s can e accepted last =
      let (first, others) = cons_injective cmd _ (http_commands events) _ e in
      rw (first, uploaddone_given env d (not_serial d.owner owns))
        (last, lines-Answers events _ refl others)
  frames-Answers (by_http cmd ∷ events) (piece ∷ pieces) d r content owns s (h, hs) e accepted
        last =
      let (first, others) = cons_injective cmd _ (http_commands events) _ e in
      rw (first, upload_given env piece d h.1 (not_serial d.owner owns))
        (
          frame_answer r content piece d.world s h accepted,
          frames-Answers events pieces _ r (content ++ piece) refl
              (send_one env.upload_dir env.calls r d.world content piece s h) hs others accepted
              last,
        )

  -- All answers of an upload have the property if those have that the handlers give when all goes
  -- well.
  pub upload-Answers :
      (name : Bytes) (pieces : List Bytes) (events : List Event) (d : Daemon)
      → d.owner ≢ serial
      → IsIdle d.world
      → IsName name
      → All (CanSend env.calls) pieces
      → 0 < length (joined pieces)
      → length (joined pieces) < 2 ^ 64
      → env.calls.opens ≡ true
      → env.calls.renames ≡ true
      → http_commands events ≡ frames pieces
      → P (render ready)
      → ((n : ℕ) → n < 2 ^ 64 → P (render (received_ok n)))
      → P (render (saved name (length (joined pieces)) (md5_compute (joined pieces))))
      → Answers
          (by_http (text "AT+PREUPLOAD=" ++ preupload_text (announce name (joined pieces)))
            ∷ events)
          d
  unfolding Answers upload
  upload-Answers name pieces events d other idle n can some_size fits opens renames e begun accepted
        last =
      rw
        (preupload_given env r d (unfold md5_compute in all-hex (update reset (joined pieces)))
          other)
        (
          subst (λ x. P (render x.1)) (sym announced) begun,
          frames-Answers events pieces _ r [] refl
              (subst (λ x. Receives env.upload_dir x.0 r []) (sym announced)
                (begin-Receives env.upload_dir d.world r valid))
              can e accepted
              (subst (λ reply. P (render reply))
                (sym
                  (upload_round_trip env.upload_dir env.calls name pieces d.world idle n can
                    some_size fits opens renames).0)
                last),
        )
    where
      r : Request
      r = announce name (joined pieces)

      valid : IsValid r
      valid = announce-IsValid name (joined pieces) n some_size

      announced :
          handle_preupload env.upload_dir env.calls (preupload_text r) d.world
          ≡ (begin env.upload_dir d.world r, ready)
      announced =
          preupload_announced env.upload_dir env.calls d.world r idle valid n.no_comma fits opens

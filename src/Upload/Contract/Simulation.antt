-- ===== src/Upload/Contract/Simulation.antt =====
-- Every upload command keeps the contract, so every history of commands does.
use rk_firmware_flashd.Prelude.{
  ◌≡◌, refl, sym, ap, ◌∙◌, subst, ◌≢◌, inl, inr, true, false, Bool-cases, some, none, arith,
}
use rk_firmware_flashd.Prelude.Text.{Bytes, is_empty}
use rk_firmware_flashd.Upload.{
  World, Calls, receive, receive_open, conclude, handle_upload_frame, handle_uploaddone,
  handle_uploadcancel,
}
use rk_firmware_flashd.Upload.Contract.{
  Command, preupload, frame, finish, cancel, step, Phase, idle, receiving, Moves, not_extended,
  not_finished, cancels, ignores, IsIdle, Stands,
}
use rk_firmware_flashd.Upload.Contract.Concluding.{conclude-Simulated}
use rk_firmware_flashd.Upload.Contract.Receiving.{
  Simulated, refused, preupload-Simulated, receive-Simulated,
}
use rk_firmware_flashd.Upload.Contract.Requested.{frame_request-Checks}
use rk_firmware_flashd.Upload.Frames.{frame_request}
use rk_firmware_flashd.Upload.Replies.{
  Reply, write_failed, upload_no_arguments, no_active_upload, done_no_upload,
}

-- With an upload active the arguments are read, and without one they are not.
pub upload_frame_open :
    (calls : Calls) (arg path : Bytes) (w : World)
    → is_empty arg ≡ false
    → w.upload.active ≡ true
    → w.upload.file ≡ some path
    → handle_upload_frame calls arg w ≡ receive calls path w (frame_request arg)
upload_frame_open calls arg path w given active opened =
    unfold handle_upload_frame receive_open in ground arith

pub upload_frame_closed :
    (calls : Calls) (arg : Bytes) (w : World)
    → is_empty arg ≡ false
    → w.upload.active ≡ false
    → handle_upload_frame calls arg w ≡ (w, no_active_upload)
upload_frame_closed calls arg w given inactive = unfold handle_upload_frame in ground arith

pub upload_frame_empty :
    (calls : Calls) (arg : Bytes) (w : World)
    → is_empty arg ≡ true
    → handle_upload_frame calls arg w ≡ (w, upload_no_arguments)
upload_frame_empty calls arg w e = unfold handle_upload_frame in ground arith

frame-Simulated :
    (dir : Bytes) (calls : Calls) (arg : Bytes) (w : World) (p : Phase)
    → Stands dir w p
    → Simulated dir (frame calls arg) p (handle_upload_frame calls arg w)
frame-Simulated dir calls arg w p s = elim (Bool-cases (is_empty arg)) [
  | inl nothing ↦
      rw (upload_frame_empty calls arg w nothing)
        (refused dir (frame calls arg) p w _ s (no_frame p nothing))
  | inr given ↦ some_frame p s given
]
  where
    no_frame : (p : Phase) → is_empty arg ≡ true → Moves (frame calls arg) p upload_no_arguments p
    no_frame idle nothing = not_extended calls arg idle upload_no_arguments refl (inl refl)
    no_frame (receiving r content) nothing =
        not_extended calls arg (receiving r content) upload_no_arguments refl (inl nothing)

    some_frame :
        (p : Phase)
        → Stands dir w p
        → is_empty arg ≡ false
        → Simulated dir (frame calls arg) p (handle_upload_frame calls arg w)
    some_frame idle s given = rw (upload_frame_closed calls arg w given s.inactive) (
        refused dir (frame calls arg) idle w _ s
          (not_extended calls arg idle no_active_upload refl (inr refl)))
    some_frame (receiving r content) s given =
        rw (upload_frame_open calls arg _ w given s.active s.open_file) (
          receive-Simulated dir calls w r content s arg (frame_request arg) refl
            (frame_request-Checks arg))

pub uploaddone_open :
    (dir path : Bytes) (calls : Calls) (w : World)
    → w.upload.active ≡ true
    → w.upload.file ≡ some path
    → handle_uploaddone dir calls w ≡ conclude dir calls w (record w.upload { file = none })
uploaddone_open dir path calls w active opened = unfold handle_uploaddone in ground arith

pub uploaddone_closed :
    (dir : Bytes) (calls : Calls) (w : World)
    → w.upload.active ≡ false
    → handle_uploaddone dir calls w ≡ (w, done_no_upload)
uploaddone_closed dir calls w inactive = unfold handle_uploaddone in ground arith

finish-Simulated :
    (dir : Bytes) (calls : Calls) (w : World) (p : Phase)
    → Stands dir w p
    → Simulated dir (finish calls) p (handle_uploaddone dir calls w)
finish-Simulated dir calls w idle s =
    rw (uploaddone_closed dir calls w s.inactive)
      (refused dir (finish calls) idle w _ s (not_finished calls))
finish-Simulated dir calls w (receiving r content) s =
    rw (uploaddone_open dir _ calls w s.active s.open_file) (
      conclude-Simulated dir calls w (record w.upload { file = none }) r content
        (record {
          valid = s.valid;
          active = s.active;
          filename = s.filename;
          tmp_path = s.tmp_path;
          expected_size = s.expected_size;
          expected_md5 = s.expected_md5;
          open_file = refl;
          stored = s.stored;
          fed = s.fed;
          counted = s.counted;
        })
        refl)

cancel-Simulated :
    (dir : Bytes) (w : World) (p : Phase)
    → Stands dir w p
    → Simulated dir cancel p (handle_uploadcancel w)
unfolding handle_uploadcancel
cancel-Simulated dir w idle s =
    rw s.inactive (λ _. (idle, ignores, record { inactive = refl; closed = s.closed }))
cancel-Simulated dir w (receiving r content) s =
    rw s.active (λ _. (idle, cancels r content, record { inactive = refl; closed = refl }))

-- From a state that stands for a phase of the machine, a command whose fwrite stores all that it is
-- given makes a move that the machine has for this command, with the machine's answer, and the new
-- state stands for the phase after the move. The machine refuses only for the reasons that its moves
-- name: a request that passes the checks starts if its file can be created, a frame that passes them
-- and has the checksum of its data is appended, and a finished upload is saved unless its size or
-- its digest is not the announced one or it cannot be renamed.
pub step-Simulated :
    (dir : Bytes) (w : World) (c : Command) (p : Phase)
    → Stands dir w p
    → (step dir w c).1 ≢ write_failed
    → (q : Phase) × Moves c p (step dir w c).1 q × Stands dir (step dir w c).0 q
unfolding step
step-Simulated dir w (preupload calls arg) p s = preupload-Simulated dir calls arg w p s
step-Simulated dir w (frame calls arg) p s = frame-Simulated dir calls arg w p s
step-Simulated dir w (finish calls) p s = finish-Simulated dir calls w p s
step-Simulated dir w cancel p s = cancel-Simulated dir w p s

-- A history of commands in which no write fails.
pub data History (dir : Bytes) (start : World) : World → Type 0 where
  here : History dir start start
  next :
      {v w : World}
      → History dir start v
      → (c : Command) (reply : Reply) → step dir v c ≡ (w, reply)
      → reply ≢ write_failed
      → History dir start w

-- From a state with no upload, and whatever was asked in whatever order, as long as no write
-- failed: the state stands for a phase of the machine. With an upload active the temporary file
-- holds the bytes that were fed and counted, and with none active no file is open.
pub History-Stands :
    {dir : Bytes} {v w : World} → IsIdle v → History dir v w → (p : Phase) × Stands dir w p
History-Stands s here = (idle, s)
History-Stands {dir} s (next {v} h c reply e whole) =
    let (p, stands) = History-Stands s h in
    let (q, move, after) =
      step-Simulated dir v c p stands (λ bad. whole (sym (ap (λ x. x.1) e) ∙ bad)) in
    (q, subst (λ t. Stands dir t q) (ap (λ x. x.0) e) after)

-- ===== src/Upload/Contract/Receiving.antt =====
-- AT+PREUPLOAD and AT+UPLOAD keep the contract: each makes a move of the machine and answers what
-- the machine answers.
use rk_firmware_flashd.Checksum.Crc16.{crc16_compute}
use rk_firmware_flashd.Checksum.Md5.{update}
use rk_firmware_flashd.Checksum.Md5.Stream.{update-Holds, reset-Holds}
use rk_firmware_flashd.Files.{append, put_self, append_self}
use rk_firmware_flashd.Prelude.{
  ◌+◌, ◌%◌, ◌^◌, ◌≡◌, refl, sym, ap, ◌≢◌, inl, inr, Bool, true, false, Bool-cases, ==_iff,
  if◌then◌else◌, ℕ, some, [], ◌++◌, length, length-append, arith, ◌==◌, leb, leb→le, le→leb, ◌≤◌,
  take_all,
}
use rk_firmware_flashd.Prelude.Number.{hexadecimal}
use rk_firmware_flashd.Prelude.Result.{Result, ok, err}
use rk_firmware_flashd.Prelude.Text.{Bytes}
use rk_firmware_flashd.Upload.{
  World, Calls, in_dir, tmp_name, begin, start, store, accept, receive, handle_preupload,
}
use rk_firmware_flashd.Upload.Contract.{
  Command, preupload, frame, IsValid, Phase, idle, receiving, Fits, Moves, starts, not_started,
  extends, not_extended, IsIdle, Receives, Stands,
}
use rk_firmware_flashd.Upload.Contract.Requested.{
  Checks, Anything, preupload_request-Checks, preupload_request_active,
}
use rk_firmware_flashd.Upload.Frames.{Frame, frame_request}
use rk_firmware_flashd.Upload.Replies.{Reply, write_failed, received_ok, cannot_create, ready}
use rk_firmware_flashd.Upload.Requests.{Request, preupload_request}

abbrev pub Simulated : Bytes → Command → Phase → World × Reply → Type 0
Simulated dir c p result =
    result.1 ≢ write_failed → (q : Phase) × Moves c p result.1 q × Stands dir result.0 q

-- A refusal leaves the world as it was.
pub refused :
    (dir : Bytes) (c : Command) (p : Phase) (w : World) (e : Reply)
    → Stands dir w p
    → Moves c p e p
    → Simulated dir c p (w, e)
refused dir c p w e s m _ = (p, m, s)

pub begin-Receives :
    (dir : Bytes) (w : World) (r : Request) → IsValid r → Receives dir (begin dir w r) r []
unfolding begin
begin-Receives dir w r v = record {
  valid = v;
  active = refl;
  filename = refl;
  tmp_path = refl;
  expected_size = refl;
  expected_md5 = refl;
  open_file = refl;
  stored = put_self w.files (in_dir dir (tmp_name r.filename)) (some []);
  fed = reset-Holds;
  counted = refl;
}

start-idle :
    (dir : Bytes) (calls : Calls) (arg : Bytes) (w : World) (m : Result Reply Request)
    → preupload_request false arg ≡ m
    → Checks IsValid m
    → IsIdle w
    → Simulated dir (preupload calls arg) idle (start dir calls w m)
unfolding start
start-idle dir calls arg w (err e) asked h s =
    refused dir (preupload calls arg) idle w e s (not_started calls arg idle e h (inl asked))
start-idle dir calls arg w (ok r) asked h s = opening calls.opens refl
  where
    opening :
        (opens : Bool)
        → calls.opens ≡ opens
        → Simulated dir
            (preupload calls arg)
            idle
            (if opens then (begin dir w r, ready) else (w, cannot_create))
    opening true e = λ _. (receiving r [], starts calls arg r asked h, begin-Receives dir w r h)
    opening false e =
        refused dir (preupload calls arg) idle w cannot_create s
          (not_started calls arg idle cannot_create refl (inr (r, asked, e, refl)))

start-receiving :
    (dir : Bytes) (calls : Calls) (arg : Bytes) (w : World) (m : Result Reply Request) (r : Request)
    (content : Bytes)
    → preupload_request true arg ≡ m
    → Checks IsValid m
    → ((q : Request) → m ≡ ok q → ⊥)
    → Receives dir w r content
    → Simulated dir (preupload calls arg) (receiving r content) (start dir calls w m)
unfolding start
start-receiving dir calls arg w (err e) r content asked h busy s =
    refused dir (preupload calls arg) (receiving r content) w e s
      (not_started calls arg (receiving r content) e h asked)
start-receiving dir calls arg w (ok q) r content asked h busy s = absurd (busy q refl)

pub preupload-Simulated :
    (dir : Bytes) (calls : Calls) (arg : Bytes) (w : World) (p : Phase)
    → Stands dir w p
    → Simulated dir (preupload calls arg) p (handle_preupload dir calls arg w)
unfolding handle_preupload
preupload-Simulated dir calls arg w idle s =
    start-idle dir calls arg w (preupload_request w.upload.active arg)
      (ap (λ b. preupload_request b arg) (sym s.inactive))
      (preupload_request-Checks w.upload.active arg) s
preupload-Simulated dir calls arg w (receiving r content) s =
    start-receiving dir calls arg w (preupload_request w.upload.active arg) r content
      (ap (λ b. preupload_request b arg) (sym s.active))
      (preupload_request-Checks w.upload.active arg)
      (λ q e. preupload_request_active arg q (rw s.active at e)) s

module _ (dir : Bytes) (calls : Calls) (w : World) (r : Request) (content : Bytes)
    (s : Receives dir w r content) where
  abbrev pub path : Bytes
  path = in_dir dir (tmp_name r.filename)

  unfoldable pub stored : Bytes → World
  stored bytes = record {
    upload = record w.upload {
      md5_ctx = update w.upload.md5_ctx bytes;
      received = (w.upload.received + length bytes) % 2 ^ 64;
      frame_count = (w.upload.frame_count + 1) % 2 ^ 32;
    };
    files = append w.files path bytes;
  }

  counts :
      (bytes : Bytes)
      → (w.upload.received + length bytes) % 2 ^ 64 ≡ length (content ++ bytes) % 2 ^ 64
  counts bytes = omega (arith, s.counted, length-append content bytes)

  -- Bytes that are stored whole are appended to the file, fed and counted.
  pub store_lem :
      (bytes : Bytes)
      → length bytes ≤ calls.room
      → store calls path bytes w
        ≡ (stored bytes, received_ok ((w.upload.received + length bytes) % 2 ^ 64))
  unfolding store stored
  store_lem bytes fits = rw (le→leb (length bytes) calls.room fits, take_all calls.room bytes fits)

  pub stored-Receives : (bytes : Bytes) → Receives dir (stored bytes) r (content ++ bytes)
  unfolding stored
  stored-Receives bytes = record {
    valid = s.valid;
    active = s.active;
    filename = s.filename;
    tmp_path = s.tmp_path;
    expected_size = s.expected_size;
    expected_md5 = s.expected_md5;
    open_file = s.open_file;
    stored = append_self w.files path bytes content s.stored;
    fed = update-Holds w.upload.md5_ctx content bytes s.fed;
    counted = counts bytes;
  }

  module _ (arg : Bytes) (f : Frame) (asked : frame_request arg ≡ ok f) where
    store-Simulated :
        Fits f
        → Simulated dir (frame calls arg) (receiving r content) (store calls path f.bin_data w)
    store-Simulated same = elim (Bool-cases (leb (length f.bin_data) calls.room)) [
      | inr short ↦ unfold store in rw short (λ no. absurd (no refl))
      | inl fits ↦ rw (store_lem f.bin_data (leb→le (length f.bin_data) calls.room fits)) (λ _. (
        receiving r (content ++ f.bin_data),
        extends calls arg r content f _ asked same (counts f.bin_data),
        stored-Receives f.bin_data,
      ))
    ]

    -- A frame with another checksum is counted and leaves the rest.
    counted-Receives :
        (n : ℕ) → Receives dir (record w { upload = record w.upload { frame_count = n } }) r content
    counted-Receives n = record {
      valid = s.valid;
      active = s.active;
      filename = s.filename;
      tmp_path = s.tmp_path;
      expected_size = s.expected_size;
      expected_md5 = s.expected_md5;
      open_file = s.open_file;
      stored = s.stored;
      fed = s.fed;
      counted = s.counted;
    }

    accept-Simulated : Simulated dir (frame calls arg) (receiving r content) (accept calls path f w)
    unfolding accept
    accept-Simulated =
        elim (Bool-cases (crc16_compute f.bin_data == hexadecimal 0 f.crc16_hex % 2 ^ 16)) [
          | inl same ↦ rw same (store-Simulated ((==_iff _ _).0 same))
          | inr other ↦ rw other (λ _. (
            receiving r content,
            not_extended calls arg (receiving r content) _ refl
                (inr (inr (f, asked, λ e. absurd (clash ((==_iff _ _).1 e) other)))),
            counted-Receives _,
          ))
        ]
      where
        clash : {b : Bool} → b ≡ true → b ≡ false → ⊥
        clash {b} p q = cc

  pub receive-Simulated :
      (arg : Bytes) (m : Result Reply Frame)
      → frame_request arg ≡ m
      → Checks Anything m
      → Simulated dir (frame calls arg) (receiving r content) (receive calls path w m)
  unfolding receive
  receive-Simulated arg (err e) asked h =
      refused dir (frame calls arg) (receiving r content) w e s
        (not_extended calls arg (receiving r content) e h (inr (inl asked)))
  receive-Simulated arg (ok f) asked h = accept-Simulated arg f asked

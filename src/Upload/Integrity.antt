-- ===== src/Upload/Integrity.antt =====
-- What an upload that was answered with OK has left in the upload directory, and what one that
-- failed has.
use rk_firmware_flashd.Checksum.Md5.{md5_compute, hex}
use rk_firmware_flashd.Checksum.Md5.Standard.{hex-rfc1321, md5_compute-rfc1321}
use rk_firmware_flashd.Files.{Files, put_self, put_other, rename, unlink}
use rk_firmware_flashd.Prelude.{
  ℕ, ◌%◌, ◌^◌, ◌≡◌, sym, ap, ap₂, subst, ◌∙◌, ◌≢◌, ◌⊎◌, true, false, Bool, some, none, ◌∷◌, ◌++◌,
  arith, length, length-append,
}
use rk_firmware_flashd.Prelude.Text.{Bytes, text}
use rk_firmware_flashd.Upload.{
  World, Calls, UploadState, conclude, in_dir, tmp_name, handle_uploaddone,
}
use rk_firmware_flashd.Upload.Contract.{Phase, idle, receiving, Stands, IsIdle, Receives}
use rk_firmware_flashd.Upload.Contract.Simulation.{
  History, History-Stands, uploaddone_open, uploaddone_closed,
}
use rk_firmware_flashd.Upload.Replies.{Reply, saved, done_no_upload}
use rk_firmware_flashd.Upload.Requests.{Request}

-- The temporary name is longer than the final one.
tmp-ne-final : (dir name : Bytes) → in_dir dir (tmp_name name) ≢ in_dir dir name
unfolding text
tmp-ne-final dir name e = absurd (
    omega (
      arith,
      ap length e,
      length-append dir (b'/' ∷ tmp_name name),
      length-append dir (b'/' ∷ name),
      length-append (text "upload_") (name ++ text ".tmp"),
      length-append name (text ".tmp"),
    ))

module _ (files : Files) (from to : Bytes) where
  pub rename_to : rename files from to to ≡ files from
  unfolding rename
  rename_to = put_self (unlink files from) to (files from)

  rename_from : from ≢ to → rename files from to from ≡ none
  unfolding rename
  rename_from h = put_other (unlink files from) to (files from) from h ∙ put_self files from none

  rename_other : (at : Bytes) → at ≢ from → at ≢ to → rename files from to at ≡ files at
  unfolding rename
  rename_other at p q =
      put_other (unlink files from) to (files from) at q ∙ put_other files from none at p

abbrev pub is_saved : Reply → Bool
is_saved (saved filename received md5) = true
is_saved _ = false

module _ (dir : Bytes) (calls : Calls) (w : World) (u : UploadState) where
  pub conclude-saved :
      (f : Bytes) (n : ℕ) (md5 : Bytes)
      → (conclude dir calls w u).1 ≡ saved f n md5
      → (f ≡ u.filename)
        × (n ≡ u.received)
        × (md5 ≡ hex u.md5_ctx)
        × ((conclude dir calls w u).0.files ≡ rename w.files u.tmp_path (in_dir dir u.filename))
  unfolding conclude
  conclude-saved f n md5 e = ground arith

  pub conclude-not_saved :
      is_saved (conclude dir calls w u).1 ≡ false
      → (conclude dir calls w u).0.files ≡ unlink w.files u.tmp_path
  unfolding conclude
  conclude-not_saved e = ground arith

-- What the directory holds once the upload of `f` was answered with OK: under the final name a
-- content of the size and the digest in the answer, no temporary file, and all else as before.
pub record IsSaved (dir : Bytes) (before : Files) (f : Bytes) (n : ℕ) (md5 : Bytes) (after : Files)
    : Type 0 where
  pub content : Bytes
  pub stored : after (in_dir dir f) ≡ some content
  pub digest : md5_compute content ≡ md5
  pub size : length content % 2 ^ 64 ≡ n
  pub no_tmp : after (in_dir dir (tmp_name f)) ≡ none
  pub others :
      (at : Bytes) → at ≢ in_dir dir f → at ≢ in_dir dir (tmp_name f) → after at ≡ before at

renamed-IsSaved :
    (dir : Bytes) (files : Files) (f content : Bytes) (n : ℕ) (md5 : Bytes)
    → files (in_dir dir (tmp_name f)) ≡ some content
    → md5_compute content ≡ md5
    → length content % 2 ^ 64 ≡ n
    → IsSaved dir files f n md5 (rename files (in_dir dir (tmp_name f)) (in_dir dir f))
renamed-IsSaved dir files f content n md5 stored digest size = record {
  content = content;
  stored = rename_to files (in_dir dir (tmp_name f)) (in_dir dir f) ∙ stored;
  digest = digest;
  size = size;
  no_tmp = rename_from files (in_dir dir (tmp_name f)) (in_dir dir f) (tmp-ne-final dir f);
  others = λ at p q. rename_other files (in_dir dir (tmp_name f)) (in_dir dir f) at q p;
}

pub Receives-IsSaved :
    (dir : Bytes) (calls : Calls) (w : World) (r : Request) (content f : Bytes) (n : ℕ)
    (md5 : Bytes)
    → Receives dir w r content
    → (conclude dir calls w (record w.upload { file = none })).1 ≡ saved f n md5
    → IsSaved dir w.files f n md5 (conclude dir calls w (record w.upload { file = none })).0.files
Receives-IsSaved dir calls w r content f n md5 s e =
    let (name, received, digest, files) =
      conclude-saved dir calls w (record w.upload { file = none }) f n md5 e in
    let same : f ≡ r.filename = name ∙ s.filename in
    let tmp : w.upload.tmp_path ≡ in_dir dir (tmp_name f) =
      s.tmp_path ∙ sym (ap (λ t. in_dir dir (tmp_name t)) same) in
    let after : (conclude dir calls w (record w.upload { file = none })).0.files
        ≡ rename w.files (in_dir dir (tmp_name f)) (in_dir dir f) =
      files ∙ ap₂ (λ from to. rename w.files from (in_dir dir to)) tmp (sym name) in
    subst (IsSaved dir w.files f n md5) (sym after) (
      renamed-IsSaved dir w.files f content n md5
        (subst (λ t. w.files (in_dir dir (tmp_name t)) ≡ some content) (sym same) s.stored)
        (md5_compute-rfc1321 content
          ∙ sym (hex-rfc1321 w.upload.md5_ctx content s.fed)
          ∙ sym digest)
        (sym s.counted ∙ sym received))

finish-IsSaved :
    (dir : Bytes) (calls : Calls) (w : World) (p : Phase) (f : Bytes) (n : ℕ) (md5 : Bytes)
    → Stands dir w p
    → (handle_uploaddone dir calls w).1 ≡ saved f n md5
    → IsSaved dir w.files f n md5 (handle_uploaddone dir calls w).0.files
finish-IsSaved dir calls w idle f n md5 s e =
    absurd (not-saved (sym (ap (λ x. x.1) (uploaddone_closed dir calls w s.inactive)) ∙ e))
  where
    not-saved : done_no_upload ≡ saved f n md5 → ⊥
    not-saved q = cc
finish-IsSaved dir calls w (receiving r content) f n md5 s e =
    let opened =
      uploaddone_open dir (in_dir dir (tmp_name r.filename)) calls w s.active s.open_file in
    subst (λ x. IsSaved dir w.files f n md5 x.0.files) (sym opened)
      (Receives-IsSaved dir calls w r content f n md5 s (sym (ap (λ x. x.1) opened) ∙ e))

-- After any history of commands, from a state with no upload, in which no write failed,
-- AT+UPLOADDONE answers OK for a file, a size and a digest only if the file then holds, under its
-- final name, a content whose MD5 is that digest and whose length modulo 2 ^ 64 is that size; its
-- temporary file is gone, and every other file is as it was.
pub uploaddone-IsSaved :
    {dir : Bytes} {v w : World}
    → IsIdle v
    → History dir v w
    → (calls : Calls) (f : Bytes) (n : ℕ) (md5 : Bytes)
    → (handle_uploaddone dir calls w).1 ≡ saved f n md5
    → IsSaved dir w.files f n md5 (handle_uploaddone dir calls w).0.files
uploaddone-IsSaved {dir} {w} i h calls f n md5 e =
    finish-IsSaved dir calls w (History-Stands i h).0 f n md5 (History-Stands i h).1 e

-- An upload that AT+UPLOADDONE does not answer with OK leaves no trace: no file changes but the
-- temporary one, and that one is gone, unless the answer is that there was no upload.
pub uploaddone-not_saved :
    (dir : Bytes) (calls : Calls) (w : World) (at : Bytes)
    → is_saved (handle_uploaddone dir calls w).1 ≡ false
    → at ≢ w.upload.tmp_path
    → ((handle_uploaddone dir calls w).0.files at ≡ w.files at)
      × (((handle_uploaddone dir calls w).1 ≡ done_no_upload)
          ⊎ ((handle_uploaddone dir calls w).0.files w.upload.tmp_path ≡ none))
unfolding handle_uploaddone conclude
uploaddone-not_saved dir calls w at e h = (
  ground (arith, put_other w.files w.upload.tmp_path none at h),
  ground (arith, put_self w.files w.upload.tmp_path none),
)

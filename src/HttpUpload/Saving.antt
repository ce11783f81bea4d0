-- ===== src/HttpUpload/Saving.antt =====
-- A file that comes in parts, from the first part to the answer.
use rk_firmware_flashd.Checksum.Md5.Digest.{joined}
use rk_firmware_flashd.Files.{rename}
use rk_firmware_flashd.HttpUpload.{
  Uploading, Field, uploaded, validate_filename, post_process, finalize, complete, handle_upload,
  destroy, closed,
}
use rk_firmware_flashd.Prelude.{
  ℕ, ◌+◌, ◌%◌, ◌^◌, ◌<◌, ◌≡◌, refl, sym, ap, ap₂, subst, ◌∙◌, true, false, Bool-cases, inl, inr,
  none, some, List, [], ◌∷◌, ◌++◌, append-nil, append_assoc, arith, length, length-append, take,
  map, All, is_some, ◌==◌, ne→==,
}
use rk_firmware_flashd.Prelude.Text.{Bytes, is_empty}
use rk_firmware_flashd.Upload.{in_dir}
use rk_firmware_flashd.Upload.Integrity.{rename_to}
use rk_firmware_flashd.HttpUpload.Parts.{
  IsPart, sent, stored, Receives, IsFresh, tmp_path_of, is_empty-in_dir, post_process-Receives,
  received,
}

complete_lem :
    (dir : Bytes) (u : Uploading)
    → is_some u.state.upload_file ≡ true
    → validate_filename u.state.upload_filename ≡ true
    → is_some (u.files u.state.upload_tmp_path) ≡ true
    → handle_upload dir true true none u ≡ (
      record (closed u) {
        files = rename u.files u.state.upload_tmp_path (in_dir dir u.state.upload_filename);
      },
      uploaded u.state.upload_filename (in_dir dir u.state.upload_filename) u.state.upload_size,
    )
unfolding handle_upload complete finalize
complete_lem dir u opened valid stored' = elim (Bool-cases (u.state.upload_size == 0)) [
  | inl empty ↦ rw (empty, opened, valid, stored') refl
  | inr some_bytes ↦ rw (some_bytes, opened, valid, stored') refl
]

finalize-Receives :
    (dir path name content : Bytes) (size : ℕ) (u : Uploading)
    → validate_filename name ≡ true
    → Receives path name content size u
    → ((handle_upload dir true true none u).1 ≡ uploaded name (in_dir dir name) (size % 2 ^ 64))
      × ((handle_upload dir true true none u).0.files (in_dir dir name) ≡ some content)
finalize-Receives dir path name content size u valid s = (
  ap (λ x. x.1) done ∙ cc (s.filename, s.counted),
  ap (λ x. x.0.files (in_dir dir name)) done
      ∙ ap₂ (λ from to. rename u.files from (in_dir dir to) (in_dir dir name)) s.tmp_path s.filename
      ∙ rename_to u.files path (in_dir dir name)
      ∙ s.on_disk,
)
  where
    done : handle_upload dir true true none u ≡ (
      record (closed u) {
        files = rename u.files u.state.upload_tmp_path (in_dir dir u.state.upload_filename);
      },
      uploaded u.state.upload_filename (in_dir dir u.state.upload_filename) u.state.upload_size,
    )
    done =
        complete_lem dir u (ap is_some s.open_file) (ap validate_filename s.filename ∙ valid)
          (ap (λ p. is_some (u.files p)) s.tmp_path ∙ ap is_some s.on_disk)

-- The calls of the handler that bring data, each with the fields that it finds.
unfoldable pub feed : Bytes → List (List Field) → Uploading → Uploading
feed dir [] u = u
feed dir (fields ∷ calls) u = feed dir calls (handle_upload dir true true (some fields) u).0

abbrev pub all_fields : List (List Field) → List Field
all_fields [] = []
all_fields (fields ∷ calls) = fields ++ all_fields calls

joined-append :
    (part : Field → Bytes) (xs ys : List Field)
    → joined (map part (xs ++ ys)) ≡ joined (map part xs) ++ joined (map part ys)
joined-append part [] ys = refl
joined-append part (x ∷ xs) ys =
    ap (λ s. part x ++ s) (joined-append part xs ys)
    ∙ sym (append_assoc (part x) (joined (map part xs)) (joined (map part ys)))

feed-Receives :
    (dir path name : Bytes) (calls : List (List Field)) (content : Bytes) (size : ℕ) (u : Uploading)
    → validate_filename name ≡ true
    → is_empty path ≡ false
    → All (All (IsPart name)) calls
    → Receives path name content size u
    → Receives path name
        (content ++ stored (all_fields calls))
        (size + length (sent (all_fields calls)))
        (feed dir calls u)
unfolding feed handle_upload
feed-Receives dir path name [] content size u valid given _ s =
    subst (λ c. Receives path name c (size + 0) u) (sym (append-nil content))
      (subst (λ n. Receives path name content n u) (omega arith) s)
feed-Receives dir path name (fields ∷ calls) content size u valid given (h, hs) s =
    subst (λ c. Receives path name c (size + length (sent (fields ++ all_fields calls))) rest)
      (append_assoc content (stored fields) (stored (all_fields calls))
        ∙ ap (λ c. content ++ c)
            (sym (joined-append (λ f. take f.room f.bytes) fields (all_fields calls))))
      (subst
        (λ n. Receives path name ((content ++ stored fields) ++ stored (all_fields calls)) n rest)
        (omega (
          arith,
          ap length (joined-append (λ f. f.bytes) fields (all_fields calls)),
          length-append (sent fields) (sent (all_fields calls)),
        ))
        (feed-Receives dir path name calls (content ++ stored fields) (size + length (sent fields))
          after valid given hs
          (post_process-Receives path name valid given dir fields content size marked h (record {
            filename = s.filename;
            tmp_path = s.tmp_path;
            open_file = s.open_file;
            counted = s.counted;
            on_disk = s.on_disk;
          }))))
  where
    marked : Uploading
    marked = record u { state = record u.state { upload_data_received = true } }

    after : Uploading
    after = post_process dir fields marked

    rest : Uploading
    rest = feed dir calls after

-- A file that comes by HTTP in parts of one field `firmware`, over as many calls of the handler as
-- the library makes, under a name that the validator accepts, in a fresh connection, with an fopen
-- and a rename that work: the answer is the name, the path and the number of bytes that were sent,
-- modulo 2 ^ 64; and the file holds what the disk has stored of the parts.
pub http_upload_saved :
    (dir name : Bytes) (f : Field) (fields : List Field) (calls : List (List Field)) (u : Uploading)
    → validate_filename name ≡ true
    → IsPart name f
    → All (IsPart name) fields
    → All (All (IsPart name)) calls
    → f.opens ≡ true
    → IsFresh u
    → let after = handle_upload dir true true none (feed dir ((f ∷ fields) ∷ calls) u) in
      let parts = (f ∷ fields) ++ all_fields calls in
      (after.1 ≡ uploaded name (in_dir dir name) (length (sent parts) % 2 ^ 64))
      × (after.0.files (in_dir dir name) ≡ some (stored parts))
http_upload_saved dir name f fields calls u valid h hs hss opens fresh =
    finalize-Receives dir path name (stored parts) (length (sent parts))
      (feed dir ((f ∷ fields) ∷ calls) u) valid
      (unfold feed handle_upload in
        subst (λ c. Receives path name c (length (sent parts)) all)
          (sym (joined-append (λ x. take x.room x.bytes) (f ∷ fields) (all_fields calls)))
          (subst (λ n. Receives path name (stored (f ∷ fields) ++ stored (all_fields calls)) n all)
            (omega (
              arith,
              ap length (joined-append (λ x. x.bytes) (f ∷ fields) (all_fields calls)),
              length-append (sent (f ∷ fields)) (sent (all_fields calls)),
            ))
            (feed-Receives dir path name calls (stored (f ∷ fields)) (length (sent (f ∷ fields)))
              first valid (is_empty-in_dir dir _) hss
              (received dir name valid f marked h fresh' opens fields hs))))
  where
    path : Bytes
    path = tmp_path_of dir name f

    parts : List Field
    parts = (f ∷ fields) ++ all_fields calls

    marked : Uploading
    marked = record u { state = record u.state { upload_data_received = true } }

    fresh' : IsFresh marked
    fresh' = record { no_path = fresh.no_path; no_file = fresh.no_file; no_size = fresh.no_size }

    first : Uploading
    first = post_process dir (f ∷ fields) marked

    all : Uploading
    all = feed dir calls first

-- If the connection ends before the upload is complete, but after some bytes were sent, the
-- destructor leaves what was stored of them in the temporary file.
pub aborted_upload_left :
    (dir name : Bytes) (f : Field) (fields : List Field) (u : Uploading)
    → validate_filename name ≡ true
    → IsPart name f
    → All (IsPart name) fields
    → f.opens ≡ true
    → IsFresh u
    → 0 < length (sent (f ∷ fields))
    → length (sent (f ∷ fields)) < 2 ^ 64
    → destroy (post_process dir (f ∷ fields) u) (tmp_path_of dir name f)
      ≡ some (stored (f ∷ fields))
unfolding destroy
aborted_upload_left dir name f fields u valid h hs opens fresh some_bytes fits =
    rw (ap is_some s.open_file, ne→== after.state.upload_size 0 (omega (arith, s.counted)))
      s.on_disk
  where
    after : Uploading
    after = post_process dir (f ∷ fields) u

    s :
        Receives
          (tmp_path_of dir name f)
          name
          (stored (f ∷ fields))
          (length (sent (f ∷ fields)))
          after
    s = received dir name valid f u h fresh opens fields hs

-- ===== src/HttpUpload/Parts.antt =====
-- The parts of a file, as the callback takes them up one by one.
use rk_firmware_flashd.Checksum.Md5.Digest.{joined}
use rk_firmware_flashd.Checksum.Md5.Blocks.{nil_of_length}
use rk_firmware_flashd.Files.{create, append_self, put_self}
use rk_firmware_flashd.HttpUpload.{
  Uploading, Field, firmware, validate_filename, write_to, open_first, accept_file, on_named,
  on_field, post_process,
}
use rk_firmware_flashd.Prelude.{
  ℕ, ◌+◌, ◌%◌, ◌^◌, ◌≡◌, refl, sym, ap, subst, ◌∙◌, true, false, Bool-cases, inl, inr, none, some,
  List, [], ◌∷◌, ◌++◌, append-nil, append_assoc, arith, length, length-append, take, take_all, map,
  All, ltb,
}
use rk_firmware_flashd.Prelude.Number.{to_string}
use rk_firmware_flashd.Prelude.Text.{Bytes, beq_self, is_empty}
use rk_firmware_flashd.Upload.{in_dir}

-- A part of the file `name` in the field that the server expects.
abbrev pub IsPart : Bytes → Field → Type 0
IsPart name f = (f.key ≡ some firmware) × (f.filename ≡ some name)

abbrev pub sent : List Field → Bytes
sent fields = joined (map (λ f. f.bytes) fields)

-- What the disk stores of each part.
abbrev pub stored : List Field → Bytes
stored fields = joined (map (λ f. take f.room f.bytes) fields)

sizes :
    (f : Field) (fields : List Field) (size : ℕ)
    → size + length f.bytes + length (sent fields) ≡ size + length (sent (f ∷ fields))
sizes f fields size = omega (arith, length-append f.bytes (sent fields))

pub record Receives (path name content : Bytes) (size : ℕ) (u : Uploading) : Type 0 where
  pub filename : u.state.upload_filename ≡ name
  pub tmp_path : u.state.upload_tmp_path ≡ path
  pub open_file : u.state.upload_file ≡ some path
  pub counted : u.state.upload_size ≡ size % 2 ^ 64
  pub on_disk : u.files path ≡ some content

module _ (path name : Bytes) (valid : validate_filename name ≡ true)
    (given : is_empty path ≡ false) where
  write_to-Receives :
      (f : Field) (content : Bytes) (size : ℕ) (u : Uploading)
      → Receives path name content size u
      → Receives path name
          (content ++ take f.room f.bytes)
          (size + length f.bytes)
          (write_to f (some path) u)
  write_to-Receives f content size u s = elim (Bool-cases (ltb 0 (length f.bytes))) [
    | inl some_bytes ↦ rw some_bytes (record {
      filename = s.filename;
      tmp_path = s.tmp_path;
      open_file = s.open_file;
      counted = omega (arith, s.counted);
      on_disk = append_self u.files path (take f.room f.bytes) content s.on_disk;
    })
    | inr nothing ↦
        let empty : f.bytes ≡ [] = nil_of_length f.bytes (ground (arith, nothing)) in
        rw nothing (record {
          filename = s.filename;
          tmp_path = s.tmp_path;
          open_file = s.open_file;
          counted = omega (arith, s.counted, ap length empty);
          on_disk =
              s.on_disk
              ∙ ap some (
                  sym (
                    ap (λ b. content ++ take f.room b) empty
                    ∙ ap (λ b. content ++ b) (take_all f.room [] (omega arith))
                    ∙ append-nil content));
        })
  ]

  -- The callback for a further part of the file that is open.
  on_part :
      (dir : Bytes) (f : Field) (u : Uploading)
      → IsPart name f
      → u.state.upload_tmp_path ≡ path
      → u.state.upload_file ≡ some path
      → on_field dir f f.key u ≡ (write_to f (some path) u, true)
  unfolding on_field on_named accept_file
  on_part dir f u (key, filename) tmp opened =
      ap (λ k. on_field dir f k u) key
      ∙ ap (λ m. on_named dir f firmware m u) filename
      ∙ rw (beq_self firmware, valid, ap is_empty tmp ∙ given)
          (ap (λ m. (write_to f m u, true)) opened)

  pub post_process-Receives :
      (dir : Bytes) (fields : List Field) (content : Bytes) (size : ℕ) (u : Uploading)
      → All (IsPart name) fields
      → Receives path name content size u
      → Receives path name
          (content ++ stored fields)
          (size + length (sent fields))
          (post_process dir fields u)
  unfolding post_process
  post_process-Receives dir [] content size u _ s =
      subst (λ c. Receives path name c (size + 0) u) (sym (append-nil content))
        (subst (λ n. Receives path name content n u) (omega arith) s)
  post_process-Receives dir (f ∷ fields) content size u (h, hs) s =
      rw (on_part dir f u h s.tmp_path s.open_file) (
        subst (λ c. Receives path name c (size + length (sent (f ∷ fields))) rest)
          (append_assoc content (take f.room f.bytes) (stored fields))
          (subst
            (λ n. Receives path name ((content ++ take f.room f.bytes) ++ stored fields) n rest)
            (sizes f fields size)
            (post_process-Receives dir fields (content ++ take f.room f.bytes)
              (size + length f.bytes) (write_to f (some path) u) hs
              (write_to-Receives f content size u s))))
    where
      rest : Uploading
      rest = post_process dir fields (write_to f (some path) u)

-- A connection whose upload has not begun.
pub record IsFresh (u : Uploading) : Type 0 where
  pub no_path : u.state.upload_tmp_path ≡ []
  pub no_file : u.state.upload_file ≡ none
  pub no_size : u.state.upload_size ≡ 0

abbrev pub tmp_path_of : Bytes → Bytes → Field → Bytes
tmp_path_of dir name f = in_dir dir (to_string f.timestamp ++ (b'_' ∷ name))

pub is_empty-in_dir : (dir name : Bytes) → is_empty (in_dir dir name) ≡ false
is_empty-in_dir [] name = refl
is_empty-in_dir (x ∷ dir) name = refl

module _ (dir name : Bytes) (valid : validate_filename name ≡ true) (f : Field) (u : Uploading)
    (h : IsPart name f) (fresh : IsFresh u) (opens : f.opens ≡ true) where
  abbrev opened : Uploading
  opened = record {
    state = record u.state {
      upload_filename = name;
      upload_tmp_path = tmp_path_of dir name f;
      upload_file = some (tmp_path_of dir name f);
    };
    files = create u.files (tmp_path_of dir name f);
  }

  on_first : on_field dir f f.key u ≡ (write_to f (some (tmp_path_of dir name f)) opened, true)
  unfolding on_field on_named accept_file open_first
  on_first =
      ap (λ k. on_field dir f k u) h.0
      ∙ ap (λ m. on_named dir f firmware m u) h.1
      ∙ rw (beq_self firmware, valid, ap is_empty fresh.no_path, opens) refl

  opened-Receives : Receives (tmp_path_of dir name f) name [] 0 opened
  opened-Receives = record {
    filename = refl;
    tmp_path = refl;
    open_file = refl;
    counted = omega (arith, fresh.no_size);
    on_disk = put_self u.files (tmp_path_of dir name f) (some []);
  }

  pub received :
      (fields : List Field)
      → All (IsPart name) fields
      → Receives
          (tmp_path_of dir name f)
          name
          (stored (f ∷ fields))
          (length (sent (f ∷ fields)))
          (post_process dir (f ∷ fields) u)
  unfolding post_process
  received fields hs = rw on_first (
      subst (λ n. Receives path name (stored (f ∷ fields)) n (post_process dir fields first))
        (omega (arith, length-append f.bytes (sent fields)))
        (post_process-Receives path name valid (is_empty-in_dir dir _) dir fields
          (take f.room f.bytes) (0 + length f.bytes) first hs
          (write_to-Receives path name valid (is_empty-in_dir dir _) f [] 0 opened
            opened-Receives)))
    where
      path : Bytes
      path = tmp_path_of dir name f

      first : Uploading
      first = write_to f (some path) opened

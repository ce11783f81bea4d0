-- ===== src/Command/Uploading.antt =====
-- The commands of an upload, from their text to their handlers.
use rk_firmware_flashd.Command.{Daemon, on_upload, perform, process}
use rk_firmware_flashd.Command.Local.{Surroundings}
use rk_firmware_flashd.Command.Parse.{is_line_end, parse_at, trim}
use rk_firmware_flashd.Lock.{http}
use rk_firmware_flashd.Prelude.{
  ℕ, ◌≡◌, refl, ap, ◌∙◌, Bool, and-eq-true_iff, true, false, all, [], ◌∷◌, ◌++◌, arith,
}
use rk_firmware_flashd.Prelude.Text.{
  Bytes, beq, find, is_digit, is_xdigit, text, to_upper, trim_end, trim_end-append,
}
use rk_firmware_flashd.Upload.{handle_preupload, handle_upload_frame, handle_uploaddone}

-- A text that ends with none of the bytes that are trimmed.
abbrev pub IsTrimmed : Bytes → Type 0
IsTrimmed s = trim_end is_line_end s ≡ s

pub all-IsTrimmed :
    (q : ℕ → Bool)
    → ((c : ℕ) → q c ≡ true → is_line_end c ≡ false)
    → (s : Bytes) → all q s ≡ true
    → IsTrimmed s
unfolding trim_end
all-IsTrimmed q h [] e = refl
all-IsTrimmed q h (c ∷ s) e =
    let (first, others) = (and-eq-true_iff (q c) (all q s)).0 e in
    rw (all-IsTrimmed q h s others) (ground (arith, h c first))

pub behind-IsTrimmed :
    (s t : Bytes) (c : ℕ) → is_line_end c ≡ false → IsTrimmed t → IsTrimmed (s ++ (c ∷ t))
behind-IsTrimmed s t c h e = trim_end-append is_line_end s t c h ∙ ap (λ t'. s ++ (c ∷ t')) e

pub digit_kept : (c : ℕ) → is_digit c ≡ true → is_line_end c ≡ false
digit_kept c h = ground arith

pub xdigit_kept : (c : ℕ) → is_xdigit c ≡ true → is_line_end c ≡ false
xdigit_kept c h = ground arith

module _ (env : Surroundings) (d : Daemon) where
  pub process-preupload :
      (arg : Bytes)
      → IsTrimmed arg
      → process env http (text "AT+PREUPLOAD=" ++ arg) d
        ≡ on_upload d (handle_preupload env.upload_dir env.calls arg d.world)
  unfolding process trim text parse_at perform find beq to_upper
  process-preupload arg h = rw (behind-IsTrimmed (text "AT+PREUPLOAD") arg b'=' refl h) refl

  pub process-upload :
      (arg : Bytes)
      → IsTrimmed arg
      → process env http (text "AT+UPLOAD=" ++ arg) d
        ≡ on_upload d (handle_upload_frame env.calls arg d.world)
  unfolding process trim text parse_at perform find beq to_upper
  process-upload arg h = rw (behind-IsTrimmed (text "AT+UPLOAD") arg b'=' refl h) refl

  pub process-uploaddone :
      process env http (text "AT+UPLOADDONE") d
      ≡ on_upload d (handle_uploaddone env.upload_dir env.calls d.world)
  unfolding process trim text parse_at perform find beq to_upper trim_end
  process-uploaddone = refl

-- ===== src/HttpUpload/Names.antt =====
-- The names that the validator accepts.
use rk_firmware_flashd.HttpUpload.{is_plain, validate_filename}
use rk_firmware_flashd.Prelude.{
  ◌≤◌, ◌≡◌, ◌≢◌, ◌↔◌, refl, ap, true, false, [], ◌∷◌, all, length, arith,
}
use rk_firmware_flashd.Prelude.Text.{Bytes, Lacks-all, beq_iff, find-none, has_pair, is_empty}
use rk_firmware_flashd.Upload.Requests.{slash, dot}

-- One to 255 letters, digits, dashes, underscores and dots, no two dots side by side, and more than
-- a dot.
pub record IsPlainName (name : Bytes) : Type 0 where
  pub named : is_empty name ≡ false
  pub short_name : length name ≤ 255
  pub plain : all is_plain name ≡ true
  pub no_dots : has_pair name dot dot ≡ false
  pub not_dot : name ≢ dot ∷ []

two_dots : (name : Bytes) → has_pair name dot dot ≡ false → name ≢ dot ∷ dot ∷ []
unfolding has_pair
two_dots name h e = ground (arith, ap (λ s. has_pair s dot dot) e)

accepted : (s : Bytes) → validate_filename s ≡ true → IsPlainName s
unfolding validate_filename
accepted s e = record {
  named = ground arith;
  short_name = ground arith;
  plain = ground arith;
  no_dots = ground arith;
  not_dot = λ d. ground (arith, (beq_iff s (dot ∷ [])).1 d);
}

plain-accepted : (s : Bytes) → IsPlainName s → validate_filename s ≡ true
unfolding validate_filename
plain-accepted s p = ground (
  arith,
  find-none s slash (Lacks-all slash is_plain s refl p.plain),
  find-none s 92 (Lacks-all 92 is_plain s refl p.plain),
  (beq_iff s (dot ∷ [])).0,
  (beq_iff s (dot ∷ dot ∷ [])).0,
  two_dots s p.no_dots,
  p.not_dot,
  p.named,
  p.short_name,
  p.plain,
  p.no_dots,
)

-- The validator accepts exactly the plain names: one to 255 letters, digits, dashes, underscores
-- and dots, no two dots side by side, and more than a single dot.
pub validate_filename_iff : (name : Bytes) → (validate_filename name ≡ true) ↔ IsPlainName name
validate_filename_iff name = (accepted name, plain-accepted name)

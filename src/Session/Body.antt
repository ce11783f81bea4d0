-- ===== src/Session/Body.antt =====
-- The body of a request, which comes in parts.
use rk_firmware_flashd.Checksum.Md5.Digest.{joined}
use rk_firmware_flashd.Command.{Daemon}
use rk_firmware_flashd.Command.Local.{Surroundings}
use rk_firmware_flashd.Prelude.{
  ◌≡◌, refl, sym, ◌∙◌, false, List, [], ◌∷◌, ◌++◌, append-nil, append_assoc, All,
}
use rk_firmware_flashd.Prelude.Text.{Bytes, is_empty}
use rk_firmware_flashd.Session.{Parsed, handle_command, on_parsed}

module _ (env : Surroundings) (parse : Bytes → Parsed) (d : Daemon) where
  -- The body after calls that bring one part each.
  pub accumulate : List Bytes → Bytes → Bytes
  accumulate [] cmd_body = cmd_body
  accumulate (part ∷ parts) cmd_body = accumulate parts (handle_command env parse part cmd_body d).0

  accumulate_lem :
      (parts : List Bytes) (cmd_body : Bytes)
      → All (λ part. is_empty part ≡ false) parts
      → accumulate parts cmd_body ≡ cmd_body ++ joined parts
  unfolding accumulate handle_command
  accumulate_lem [] cmd_body _ = sym (append-nil cmd_body)
  accumulate_lem (part ∷ parts) cmd_body (h, hs) =
      rw h (accumulate_lem parts (cmd_body ++ part) hs ∙ append_assoc cmd_body part (joined parts))

  -- However the body of a request is cut into parts that are not empty, the call behind them
  -- processes the whole body, once.
  pub body_processed :
      (parts : List Bytes)
      → All (λ part. is_empty part ≡ false) parts
      → is_empty (joined parts) ≡ false
      → handle_command env parse [] (accumulate parts []) d
        ≡ (joined parts, on_parsed env (parse (joined parts)) d)
  unfolding handle_command
  body_processed parts h given = rw (accumulate_lem parts [] h, given) refl

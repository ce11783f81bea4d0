-- ===== src/Command/Verify.antt =====
-- AT+VERIFY: what it answers for a file, and for a file that was uploaded.
use rk_firmware_flashd.Checksum.Md5.{Md5, hex, md5_compute}
use rk_firmware_flashd.Checksum.Md5 as Md5
use rk_firmware_flashd.Checksum.Md5.Digest.{joined}
use rk_firmware_flashd.Checksum.Md5.Rfc1321.{rfc1321}
use rk_firmware_flashd.Checksum.Md5.Standard.{hex-rfc1321, md5_compute-rfc1321}
use rk_firmware_flashd.Checksum.Md5.Blocks.{nil_of_length}
use rk_firmware_flashd.Checksum.Md5.Stream.{Holds, update-Holds, reset-Holds}
use rk_firmware_flashd.Command.Local.{handle_verify, read_blocks}
use rk_firmware_flashd.Files.{Files}
use rk_firmware_flashd.Prelude.{
  ℕ, zero, suc, ◌+◌, ◌%◌, ◌^◌, ◌<◌, ◌≡◌, sym, ap, ap₂, subst, ◌∙◌, Bool-cases, inl, inr, true,
  false, some, List, [], ◌++◌, append-nil, append_assoc, arith, length, length-append, length-take,
  length-drop, take, drop, take-append-drop, All, ◌==◌, ==_iff,
}
use rk_firmware_flashd.Prelude.Number.{to_string}
use rk_firmware_flashd.Prelude.Text.{Bytes, has_pair, is_empty, text}
use rk_firmware_flashd.Upload.{World, Calls, in_dir}
use rk_firmware_flashd.Upload.Contract.{IsIdle}
use rk_firmware_flashd.Upload.Requests.{dot}
use rk_firmware_flashd.Upload.RoundTrip.{IsName, upload, upload_round_trip}
use rk_firmware_flashd.Upload.Sending.{CanSend}

-- The loop has fed the whole file once it ends, and counted it.
read_blocks-Holds :
    (size fuel : ℕ) (md5 : Md5) (total : ℕ) (bytes rest : Bytes)
    → 0 < size
    → Holds md5 bytes
    → total ≡ length bytes % 2 ^ 64
    → length rest < fuel
    → Holds (read_blocks size fuel md5 total rest).0 (bytes ++ rest)
      × ((read_blocks size fuel md5 total rest).1 ≡ length (bytes ++ rest) % 2 ^ 64)
unfolding read_blocks
read_blocks-Holds size zero md5 total bytes rest some_size h t f = absurd (omega arith)
read_blocks-Holds size (suc fuel) md5 total bytes rest some_size h t f =
    elim (Bool-cases (length (take size rest) == 0)) [
      | inl last ↦
          let none_left : rest ≡ [] =
            nil_of_length rest
              (omega (arith, (==_iff (length (take size rest)) 0).0 last, length-take size rest)) in
          let same : bytes ++ rest ≡ bytes = ap (◌++◌ bytes) none_left ∙ append-nil bytes in
          rw last (subst (Holds md5) (sym same) h, t ∙ ap (λ s. length s % 2 ^ 64) (sym same))
      | inr more ↦ rw more (
          subst
            (λ s.
              Holds (read_blocks size fuel fed counted (drop size rest)).0 s
              × ((read_blocks size fuel fed counted (drop size rest)).1 ≡ length s % 2 ^ 64))
            (append_assoc bytes (take size rest) (drop size rest)
              ∙ ap (λ s. bytes ++ s) (take-append-drop size rest))
            (read_blocks-Holds size fuel fed counted (bytes ++ take size rest) (drop size rest)
              some_size (update-Holds md5 bytes (take size rest) h)
              (omega (arith, length-append bytes (take size rest), t)) (left more)))
    ]
  where
    fed : Md5
    fed = Md5.update md5 (take size rest)

    counted : ℕ
    counted = (total + length (take size rest)) % 2 ^ 64

    left : (length (take size rest) == 0) ≡ false → length (drop size rest) < fuel
    left more = ground (arith, length-drop size rest, length-take size rest, f, some_size)

-- AT+VERIFY of a file that is there and opens, under a name that is not empty and has no two dots
-- in a row, answers with the MD5 of RFC 1321 and the size modulo 2 ^ 64 of its content.
verify-rfc1321 :
    (upload_dir arg content : Bytes) (files : Files)
    → is_empty arg ≡ false
    → has_pair arg dot dot ≡ false
    → files (in_dir upload_dir arg) ≡ some content
    → handle_verify upload_dir true arg files
      ≡ text "OK " ++ rfc1321 content ++ text " " ++ to_string (length content % 2 ^ 64)
unfolding handle_verify
verify-rfc1321 upload_dir arg content files named clean stored =
    rw (named, clean, stored)
      (ap₂ (λ md5 total. text "OK " ++ md5 ++ text " " ++ to_string total)
        (hex-rfc1321 (read_blocks 4096 (suc (length content)) Md5.reset 0 content).0 content read.0)
        read.1)
  where
    read :
        Holds (read_blocks 4096 (suc (length content)) Md5.reset 0 content).0 content
        × ((read_blocks 4096 (suc (length content)) Md5.reset 0 content).1
            ≡ length content % 2 ^ 64)
    read =
        read_blocks-Holds 4096 (suc (length content)) Md5.reset 0 [] content (omega arith)
          reset-Holds (omega arith) (omega arith)

-- After an upload by a client that follows the protocol, with no upload active before, a usable
-- name, some content of less than 2 ^ 64 bytes in pieces that the disk has room for, and an fopen
-- and a rename that work, AT+VERIFY of the name answers with the digest and the size that the
-- client announced.
pub verify_uploaded :
    (dir : Bytes) (calls : Calls) (name : Bytes) (pieces : List Bytes) (w : World)
    → IsIdle w
    → IsName name
    → All (CanSend calls) pieces
    → 0 < length (joined pieces)
    → length (joined pieces) < 2 ^ 64
    → calls.opens ≡ true
    → calls.renames ≡ true
    → handle_verify dir calls.opens name (upload dir calls name pieces w).0.files
      ≡ text "OK " ++ md5_compute (joined pieces) ++ text " " ++ to_string (length (joined pieces))
verify_uploaded dir calls name pieces w idle n can some_size fits opens renames =
    ap (λ opens. handle_verify dir opens name (upload dir calls name pieces w).0.files) opens
    ∙ verify-rfc1321 dir name (joined pieces) (upload dir calls name pieces w).0.files n.named
        n.no_dots
        (upload_round_trip dir calls name pieces w idle n can some_size fits opens renames).1
    ∙ ap₂ (λ md5 size. text "OK " ++ md5 ++ text " " ++ to_string size)
        (sym (md5_compute-rfc1321 (joined pieces))) (omega arith)

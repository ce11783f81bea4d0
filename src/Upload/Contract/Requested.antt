-- ===== src/Upload/Contract/Requested.antt =====
-- Errors of the checks on arguments.
use rk_firmware_flashd.Prelude.{◌≡◌, refl, true, false, Bool, arith, Option, some, none}
use rk_firmware_flashd.Prelude.Result.{Result, ok, err, guard, or_fail, ◌>>=◌, ◌>>◌}
use rk_firmware_flashd.Prelude.Text.{Bytes}
use rk_firmware_flashd.Upload.Contract.{IsValid}
use rk_firmware_flashd.Upload.Frames.{checked_frame, frame_request}
use rk_firmware_flashd.Upload.Replies.{Reply, is_error}
use rk_firmware_flashd.Upload.Requests.{Request, checked, preupload_request}

-- A chain of checks refuses with an error, and what it accepts has a property.
abbrev pub Checks : {A : Type 0} → (A → Type 0) → Result Reply A → Type 0
Checks P (ok a) = P a
Checks P (err e) = is_error e ≡ true

abbrev pub Anything : {A : Type 0} → A → Type 0
Anything a = Unit

guard-Checks :
    {A : Type 0} (P : A → Type 0) (b : Bool) (e : Reply) (m : Result Reply A)
    → is_error e ≡ true
    → Checks P m
    → Checks P (guard b e >> m)
guard-Checks P true e m h k = k
guard-Checks P false e m h k = h

or_fail-Checks :
    {A B : Type 0} (P : B → Type 0) (o : Option A) (e : Reply) (m : A → Result Reply B)
    → is_error e ≡ true
    → ((a : A) → Checks P (m a))
    → Checks P (or_fail o e >>= m)
or_fail-Checks P none e m h k = h
or_fail-Checks P (some a) e m h k = k a

ruleset checks = (guard-Checks, or_fail-Checks)

checked_frame-Checks : (hex crc len : Bytes) → Checks Anything (checked_frame hex crc len)
unfolding checked_frame
checked_frame-Checks hex crc len = search checks depth 9

pub frame_request-Checks : (arg : Bytes) → Checks Anything (frame_request arg)
unfolding frame_request
frame_request-Checks arg = search (checks, checked_frame-Checks) depth 9

checked-IsValid : (name size md5 : Bytes) (r : Request) → checked name size md5 ≡ ok r → IsValid r
unfolding checked
checked-IsValid name size md5 r e = ground arith

checked-errors : (name size md5 : Bytes) → Checks Anything (checked name size md5)
unfolding checked
checked-errors name size md5 = search checks depth 9

Checks-join :
    {A : Type 0} (P : A → Type 0) (m : Result Reply A)
    → Checks Anything m
    → ((a : A) → m ≡ ok a → P a)
    → Checks P m
Checks-join P (ok a) h k = k a refl
Checks-join P (err e) h k = h

checked-Checks : (name size md5 : Bytes) → Checks IsValid (checked name size md5)
checked-Checks name size md5 =
    Checks-join IsValid (checked name size md5) (checked-errors name size md5)
      (checked-IsValid name size md5)

pub preupload_request-Checks :
    (active : Bool) (arg : Bytes) → Checks IsValid (preupload_request active arg)
unfolding preupload_request
preupload_request-Checks active arg = search (checks, checked-Checks) depth 9

-- While an upload is active, no other starts.
pub preupload_request_active : (arg : Bytes) (r : Request) → preupload_request true arg ≡ ok r → ⊥
unfolding preupload_request
preupload_request_active arg r e = ground arith

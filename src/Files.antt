-- ===== src/Files.antt =====
-- The files that the program's calls of fopen, fwrite, unlink and rename act on: a content for each
-- path. Whether a call succeeds is its environment's to say, and is an argument of the handlers.
use rk_firmware_flashd.Prelude.{◌≡◌, ◌≢◌, Option, none, some, [], ◌++◌, arith, if◌then◌else◌}
use rk_firmware_flashd.Prelude.Text.{Bytes, beq, beq_iff, beq_self}

abbrev pub Files : Type 0
Files = Bytes → Option Bytes

abbrev pub empty : Files
empty path = none

unfoldable pub put : Files → Bytes → Option Bytes → Files
put files path content at = if beq at path then content else files at

-- `fopen(path, "wb")` leaves an empty file.
abbrev pub create : Files → Bytes → Files
create files path = put files path (some [])

abbrev extended : Option Bytes → Bytes → Option Bytes
extended none bytes = none
extended (some content) bytes = some (content ++ bytes)

-- `fwrite` at the end of an open file.
unfoldable pub append : Files → Bytes → Bytes → Files
append files path bytes = put files path (extended (files path) bytes)

abbrev pub unlink : Files → Bytes → Files
unlink files path = put files path none

-- A `rename` that succeeds replaces what the target held.
unfoldable pub rename : Files → Bytes → Bytes → Files
rename files from to = put (unlink files from) to (files from)

module _ (files : Files) (path : Bytes) (content : Option Bytes) where
  pub put_self : put files path content path ≡ content
  unfolding put
  put_self = rw (beq_self path)

  pub put_other : (at : Bytes) → at ≢ path → put files path content at ≡ files at
  unfolding put
  put_other at h = ground (arith, beq_iff at path)

pub append_self :
    (files : Files) (path bytes content : Bytes)
    → files path ≡ some content
    → append files path bytes path ≡ some (content ++ bytes)
unfolding append
append_self files path bytes content e = rw (e, put_self)

-- ===== src/Command/Parse.antt =====
-- src/at_command.cpp: the trimming of a line and the parse of `AT+<CMD>=<arg>`.
use rk_firmware_flashd.Prelude.{
  ℕ, ◌+◌, Bool, false, ◌&&◌, ◌||◌, ◌==◌, Option, none, some, [], ◌∷◌, map, take, drop,
  if◌then◌else◌,
}
use rk_firmware_flashd.Prelude.Text.{Bytes, find, is_empty, to_upper, trim_end}

abbrev pub is_line_end : ℕ → Bool
is_line_end c = (c == 13) || (c == 10) || (c == b' ')

unfoldable pub trim : Bytes → Bytes
trim raw_cmd = trim_end is_line_end raw_cmd

-- `cmd.size() < 2 || cmd[0] != 'A' || cmd[1] != 'T'`, negated.
abbrev pub is_at : Bytes → Bool
is_at (a ∷ t ∷ rest) = (a == b'A') && (t == b'T')
is_at _ = false

abbrev pub split : Bytes → Option ℕ → Bytes × Bytes
split rest none = (rest, [])
split rest (some eq) = (take eq rest, drop (eq + 1) rest)

-- The name in capitals, unless it is empty.
abbrev pub named : Bytes × Bytes → Option (Bytes × Bytes)
named (cmd, arg) = if is_empty cmd then none else some (map to_upper cmd, arg)

-- Behind "AT": a plus sign, then the name, and the argument behind the first `=`.
abbrev pub parse_rest : Bytes → Option (Bytes × Bytes)
parse_rest [] = none
parse_rest (c ∷ rest) = if c == b'+' then named (split rest (find rest b'=')) else none

unfoldable pub parse_at : Bytes → Option (Bytes × Bytes)
parse_at cmd = parse_rest (drop 2 cmd)

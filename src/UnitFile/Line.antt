-- ===== src/UnitFile/Line.antt =====
-- systemd/daemons/unit.go, `parseUnitLine`: the key of a line in capitals, and its value.
pub mod Laws
use docker_systemd.Base.{ℕ, Bool, true, false, ◌&&◌, List, [], ◌∷◌, ◌++◌, Bytes, if◌then◌else◌}
use docker_systemd.Text.{codes, has_prefix, has_suffix, trim, trim_left, split, join, to_upper}

-- The cut set "\r\n\t ".
abbrev pub blanks : Bytes
blanks = b'\r' ∷ b'\n' ∷ b'\t' ∷ b' ' ∷ []

abbrev pub quoted : Bytes → Bytes → Bool
quoted s quote = has_prefix s quote && has_suffix s quote

abbrev pub double_quote : Bytes
double_quote = b'"' ∷ []

abbrev pub single_quote : Bytes
single_quote = 39 ∷ []

-- The value, from what stands right of the first `=`.
unfoldable pub unquote : Bytes → Bytes
unquote right =
    let tmp = trim right (codes " ") in
    if quoted tmp double_quote
    then trim tmp double_quote
    else if quoted tmp single_quote
    then trim tmp single_quote
    else trim_left right (codes " ")

abbrev pub key : Bytes → Bytes
key s = to_upper (trim s blanks)

-- The pieces of a line between its `=`; there is at least one.
abbrev pub key_value : List Bytes → Bytes × Bytes
key_value [] = ([], [])
key_value (k ∷ []) = (key k, [])
key_value (k ∷ v ∷ vs) = (key k, unquote (join (v ∷ vs) b'='))

unfoldable pub parse_unit_line : Bytes → Bytes × Bytes
parse_unit_line line = key_value (split line b'=')

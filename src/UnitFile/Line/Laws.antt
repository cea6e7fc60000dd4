-- ===== src/UnitFile/Line/Laws.antt =====
-- systemd/daemons/unit.go, `parseUnitLine`: the key and the value of a line.
use docker_systemd.Base.{
  ℕ, ◌≡◌, ◌≢◌, refl, ap, ◌∙◌, arith, false, List, [], ◌∷◌, ◌++◌, Bytes, All, ◌==◌,
}
use docker_systemd.Text.{
  codes, has_prefix, is_in, trim, trim_left, trim_right, split, join, to_upper,
}
use docker_systemd.Text.Laws.{join-split, split-ne-nil}
use docker_systemd.UnitFile.Line.{blanks, unquote, key, key_value, parse_unit_line}

-- No byte of a key is `=`.
abbrev pub IsKeyByte : ℕ → Type 0
IsKeyByte c = (c == b'=') ≡ false

split-key :
    (k rest : Bytes) → All IsKeyByte k → split (k ++ (b'=' ∷ rest)) b'=' ≡ k ∷ split rest b'='
unfolding split
split-key [] rest h = refl
split-key (c ∷ k) rest h = rw (h.0, split) (rw (split-key k rest h.1))

key_value-cons :
    (k : Bytes) (pieces : List Bytes)
    → pieces ≢ []
    → key_value (k ∷ pieces) ≡ (key k, unquote (join pieces b'='))
key_value-cons k [] ne = absurd (ne refl)
key_value-cons k (v ∷ vs) ne = refl

parse_unit_line-key :
    (k v : Bytes) → All IsKeyByte k → parse_unit_line (k ++ (b'=' ∷ v)) ≡ (key k, unquote v)
unfolding parse_unit_line
parse_unit_line-key k v h = rw (split-key k v h) (
    key_value-cons k (split v b'=') (split-ne-nil v b'=')
    ∙ ap (λ x. (key k, unquote x)) (join-split v b'='))

-- The first byte of a plain value: no space and no quote.
abbrev pub IsPlain : ℕ → Type 0
IsPlain c = ((c == b' ') ≡ false) × ((c == b'"') ≡ false) × ((c == 39) ≡ false)

trim_left_plain : (c : ℕ) (v : Bytes) → (c == b' ') ≡ false → trim_left (c ∷ v) (codes " ") ≡ c ∷ v
unfolding trim_left is_in
trim_left_plain c v h = ground arith

trim_right_first :
    (c : ℕ) (v : Bytes)
    → (c == b' ') ≡ false
    → (w : Bytes) × (trim_right (c ∷ v) (codes " ") ≡ c ∷ w)
unfolding trim_right is_in
trim_right_first c v h = go (trim_right v (codes " ")) refl
  where
    go :
        (t : Bytes)
        → trim_right v (codes " ") ≡ t
        → (w : Bytes) × (trim_right (c ∷ v) (codes " ") ≡ c ∷ w)
    go [] e = ([], ground arith)
    go (x ∷ r) e = (x ∷ r, ground arith)

unquote_plain : (c : ℕ) (v : Bytes) → IsPlain c → unquote (c ∷ v) ≡ c ∷ v
unfolding unquote trim has_prefix
unquote_plain c v h =
    let (w, e) = trim_right_first c v h.0 in
    let left = trim_left_plain c v h.0 in
    let not_double = h.1 in let not_single = h.2 in rw (left, e) (ground arith)

-- A line `key=value` gives the key in capitals without blanks around it, and the value as it
-- stands, for a key with no `=` and a value that does not begin with a space or a quote. So a value
-- may hold `=`.
parse_unit_line_plain :
    (k : Bytes) (c : ℕ) (v : Bytes)
    → All IsKeyByte k
    → IsPlain c
    → parse_unit_line (k ++ (b'=' ∷ c ∷ v)) ≡ (to_upper (trim k blanks), c ∷ v)
parse_unit_line_plain k c v h plain =
    parse_unit_line-key k (c ∷ v) h ∙ ap (λ x. (key k, x)) (unquote_plain c v plain)

-- ===== src/UnitFile/Comments.antt =====
-- systemd/daemons/unit.go, `loadUnitFile`: comment lines.
use docker_systemd.Base.{ℕ, ◌≡◌, refl, true, List, [], ◌∷◌, ◌++◌, Bytes}
use docker_systemd.UnitFile.{Reader, Read, reading, failed, read_line, read_lines, is_comment}
use docker_systemd.UnitFile.Line.{blanks}
use docker_systemd.Text.{trim}

module _ (fraction : ℕ → ℕ → ℕ → ℕ) (name : Bytes) where
  -- The rest of the file, behind what a line left.
  abbrev continue_with : Read → List Bytes → Read
  continue_with (reading r) lines = read_lines fraction name r lines
  continue_with (failed def) lines = failed def

  read_lines-append :
      (r : Reader) (xs ys : List Bytes)
      → read_lines fraction name r (xs ++ ys) ≡ continue_with (read_lines fraction name r xs) ys
  unfolding read_lines
  read_lines-append r [] ys = refl
  read_lines-append r (x ∷ xs) ys =
      go (read_line fraction name r x) refl (λ r'. read_lines-append r' xs ys)
    where
      go :
          (q : Read)
          → read_line fraction name r x ≡ q
          → ((r' : Reader)
              → read_lines fraction name r' (xs ++ ys)
                ≡ continue_with (read_lines fraction name r' xs) ys)
          → read_lines fraction name r (x ∷ xs ++ ys)
            ≡ continue_with (read_lines fraction name r (x ∷ xs)) ys
      go (reading r') e ih = rw (e, read_lines) (ih r')
      go (failed d) e ih = rw (e, read_lines) refl

  read_line-comment :
      (r : Reader) (c : Bytes)
      → is_comment fraction name (trim c blanks) ≡ true
      → read_line fraction name r c ≡ reading r
  unfolding read_line
  read_line-comment r c h = rw h refl

  read_lines-comment :
      (r : Reader) (c : Bytes) (lines : List Bytes)
      → is_comment fraction name (trim c blanks) ≡ true
      → read_lines fraction name r (c ∷ lines) ≡ read_lines fraction name r lines
  unfolding read_lines
  read_lines-comment r c lines h = rw (read_line-comment r c h, read_lines) refl

-- A comment line may be taken out wherever it stands, also between the lines of a continued value:
-- the other lines are read the same way.
read_lines-without_comment :
    (fraction : ℕ → ℕ → ℕ → ℕ) (name : Bytes) (r : Reader) (xs : List Bytes) (c : Bytes)
    (ys : List Bytes)
    → is_comment fraction name (trim c blanks) ≡ true
    → read_lines fraction name r (xs ++ (c ∷ ys)) ≡ read_lines fraction name r (xs ++ ys)
read_lines-without_comment fraction name r xs c ys h =
    rw (read_lines-append fraction name r xs (c ∷ ys), read_lines-append fraction name r xs ys)
      (go (read_lines fraction name r xs))
  where
    go : (q : Read) → continue_with fraction name q (c ∷ ys) ≡ continue_with fraction name q ys
    go (reading r') = read_lines-comment fraction name r' c ys h
    go (failed d) = refl

-- ===== src/Wire/Reply.antt =====
-- The reply: what systemd/main.go writes after a command, and the read loop of
-- systemctl/main.go `Main`, over the pieces in which the socket delivers it.
use docker_systemd.Base.{
  ℕ, ◌-◌, ◌<◌, ◌≡◌, ◌≢◌, refl, ap, sym, ◌∙◌, arith, Bool, true, false, ◌&&◌, List, [], ◌∷◌, ◌++◌,
  Bytes, All, length, take, leb, ◌==◌, if◌then◌else◌, append_assoc, length-append,
  take-length-append, append-nil, ◌%◌,
}
use docker_systemd.Text.{equal}
use docker_systemd.Wire.{le16, u16_at}

-- `common.SystemctlExitCodeMagic`
abbrev pub magic : Bytes
magic = 0x00 ∷ 0xFF ∷ 0x55 ∷ 0xAA ∷ 0x00 ∷ []

-- `binary.LittleEndian.AppendUint16(common.SystemctlExitCodeMagic, uint16(retCode))`
abbrev pub exit_message : ℕ → Bytes
exit_message ret_code = magic ++ le16 (ret_code % 65536)

-- `bytes.HasSuffix(piece, []byte{0x00})`
abbrev pub ends_zero : Bytes → Bool
ends_zero [] = false
ends_zero (x ∷ []) = x == 0
ends_zero (x ∷ y ∷ r) = ends_zero (y ∷ r)

-- How the loop ends: `os.Exit`, `log.Fatalf` on extra bytes, or `log.Fatal` when a read fails.
pub data Exit : Type 0 where
  exit : ℕ → Exit
  extra_bytes read_failed : Exit

-- Behind the 0x00 byte: the exit code, or a fatal error.
pub read_exit : Bytes → Exit
unfolding equal
read_exit piece =
    let size = length piece in
    if leb 5 size && leb size 7 && equal (take 5 piece) magic
    then exit (u16_at piece (size - 2))
    else extra_bytes

-- The loop on `isEnd`, with what was printed so far; the list runs out where a read fails.
unfoldable pub read_reply : Bool → Bytes → List Bytes → Bytes × Exit
unfolding read_exit
read_reply is_end printed [] = (printed, read_failed)
read_reply true printed (piece ∷ pieces) = (printed, read_exit piece)
read_reply false printed (piece ∷ pieces) =
    let ended = read_reply true (printed ++ take (length piece - 1) piece) pieces in
    let more = read_reply false (printed ++ piece) pieces in if ends_zero piece then ended else more

abbrev pub concat : List Bytes → Bytes
concat [] = []
concat (p ∷ ps) = p ++ concat ps

abbrev pub IsNonZero : ℕ → Type 0
IsNonZero b = b ≢ 0

abbrev pub IsNonEmpty : Bytes → Type 0
IsNonEmpty p = p ≢ []

read_exit-exit_message : (code : ℕ) → code < 65536 → read_exit (exit_message code) ≡ exit code
unfolding read_exit
read_exit-exit_message code h = ap exit (omega arith)

ends_zero-snoc : (output : Bytes) → ends_zero (output ++ 0 ∷ []) ≡ true
ends_zero-snoc [] = refl
ends_zero-snoc (x ∷ []) = refl
ends_zero-snoc (x ∷ y ∷ r) = ends_zero-snoc (y ∷ r)

ends_zero-NonZero : (c o : Bytes) → All IsNonZero (c ++ o) → ends_zero c ≡ false
ends_zero-NonZero [] o h = refl
ends_zero-NonZero (x ∷ []) o h = let e = h.0 in ground arith
ends_zero-NonZero (x ∷ y ∷ r) o h = ends_zero-NonZero (y ∷ r) o h.1

All-drop_append : (c o : Bytes) → All IsNonZero (c ++ o) → All IsNonZero o
All-drop_append [] o h = h
All-drop_append (x ∷ c) o h = All-drop_append c o h.1

-- A piece with something behind it holds output only.
split_piece :
    (c r o : Bytes)
    → c ++ r ≡ o ++ 0 ∷ []
    → r ≢ []
    → (rest : Bytes) × (o ≡ c ++ rest) × (r ≡ rest ++ 0 ∷ [])
split_piece [] r o e ne = (o, refl, e)
split_piece (x ∷ []) r [] e ne = absurd (ne (ground arith))
split_piece (x ∷ y ∷ c) r [] e ne = cc
split_piece (x ∷ c) r (y ∷ o) e ne =
    let (rest, p, q) = split_piece c r o (ground arith) ne in (rest, ground arith, q)

append-eq-nil : (xs ys : Bytes) → xs ++ ys ≡ [] → (xs ≡ []) × (ys ≡ [])
append-eq-nil [] ys e = (refl, e)
append-eq-nil (x ∷ xs) ys e = cc

-- The last piece of the output, with the 0x00 byte.
read_reply_end :
    (printed output : Bytes) (code : ℕ)
    → code < 65536
    → read_reply false printed ((output ++ 0 ∷ []) ∷ exit_message code ∷ [])
      ≡ (printed ++ output, exit code)
unfolding read_reply
read_reply_end printed output code h =
    let size : length (output ++ 0 ∷ []) - 1 ≡ length output =
      omega (arith, length-append output (0 ∷ [])) in
    rw (ends_zero-snoc output)
      (rw size (rw (take-length-append output (0 ∷ []), read_exit-exit_message code h)))

-- A piece of the output that another one follows.
read_reply_more :
    (printed p : Bytes) (rest : List Bytes)
    → ends_zero p ≡ false
    → read_reply false printed (p ∷ rest) ≡ read_reply false (printed ++ p) rest
unfolding read_reply
read_reply_more printed p rest e = rw e

read_reply-pieces :
    (pieces : List Bytes) (printed output : Bytes) (code : ℕ)
    → All IsNonEmpty pieces
    → All IsNonZero output
    → code < 65536
    → concat pieces ≡ output ++ 0 ∷ []
    → read_reply false printed (pieces ++ exit_message code ∷ []) ≡ (printed ++ output, exit code)
read_reply-pieces [] printed output code ne nz h e =
    let none_left = (append-eq-nil output (0 ∷ []) (sym e)).1 in cc
read_reply-pieces (p ∷ []) printed output code ne nz h e =
    rw (sym (append-nil p) ∙ e) (read_reply_end printed output code h)
read_reply-pieces (p ∷ q ∷ qs) printed output code ne nz h e =
    let left : concat (q ∷ qs) ≢ [] =
      λ none_left. ne.1.0 (append-eq-nil q (concat qs) none_left).0 in
    let (rest, split, behind) = split_piece p (concat (q ∷ qs)) output e left in
    let nz' : All IsNonZero (p ++ rest) = rw split at nz in
    read_reply_more printed p _ (ends_zero-NonZero p rest nz')
    ∙ read_reply-pieces (q ∷ qs) (printed ++ p) rest code ne.1 (All-drop_append p rest nz') h behind
    ∙ rw (append_assoc printed p rest, ← split)

-- However the socket cuts the output and the 0x00 byte behind it into pieces, `systemctl` prints
-- exactly the output and exits with the daemon's return code, for an output with no 0x00 byte and
-- a code below 65536 that arrives in one piece.
pub read_reply-concat :
    (pieces : List Bytes) (output : Bytes) (code : ℕ)
    → All IsNonEmpty pieces
    → All IsNonZero output
    → code < 65536
    → concat pieces ≡ output ++ 0 ∷ []
    → read_reply false [] (pieces ++ exit_message code ∷ []) ≡ (output, exit code)
read_reply-concat pieces output code = read_reply-pieces pieces [] output code

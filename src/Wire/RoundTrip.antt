-- ===== src/Wire/RoundTrip.antt =====
-- systemctl/main.go and systemd/main.go: a command encoded and decoded.
use docker_systemd.Base.{
  ℕ, zero, suc, ◌+◌, ◌%◌, ◌<◌, ◌≤◌, ◌≡◌, ◌⊎◌, inl, inr, refl, ap, sym, ◌∙◌, arith, List, [], ◌∷◌,
  ◌++◌, Bytes, All, length, take, append-nil, append_assoc, length-append, take_all, take-append_le,
  length-take, ◌-◌, lt→ltb, ge→ltb,
}
use native.Mathlib.Decide.{dec_le}
use docker_systemd.Wire.{
  le16, field, fields, encode, receive, Decoded, command, malformed, string_short, u16_at, slice,
  decode_args, decode,
}
use docker_systemd.Wire.Position.{u16_at-append, slice-append, u16_at-le16}

abbrev pub IsShort : Bytes → Type 0
IsShort arg = length arg < 65536

module _ (k : ℕ) (buf : Bytes) (at : ℕ) (acc : List Bytes) where
  pub decode_args-next :
      (m : ℕ)
      → u16_at buf at ≡ m
      → at + 2 + m ≤ length buf
      → decode_args (suc k) buf at acc
        ≡ decode_args k buf (at + 2 + m) (acc ++ (slice buf (at + 2) m ∷ []))
  unfolding decode_args
  decode_args-next m e fits =
      rw (e, ge→ltb (length buf) (at + 2) (omega arith), ge→ltb (length buf) (at + 2 + m) fits)

  pub decode_args-malformed : length buf < at + 2 → decode_args (suc k) buf at acc ≡ malformed
  unfolding decode_args
  decode_args-malformed h = rw (lt→ltb (length buf) (at + 2) h)

  pub decode_args-string_short :
      (m : ℕ)
      → u16_at buf at ≡ m
      → at + 2 ≤ length buf
      → length buf < at + 2 + m
      → decode_args (suc k) buf at acc ≡ string_short
  unfolding decode_args
  decode_args-string_short m e reads short =
      rw (e, ge→ltb (length buf) (at + 2) reads, lt→ltb (length buf) (at + 2 + m) short)

-- The length that stands in front of an argument.
u16_at-field :
    (pre arg rest : Bytes)
    → length arg < 65536
    → u16_at (pre ++ (field arg ++ rest)) (length pre) ≡ length arg
u16_at-field pre arg rest h =
    u16_at-append pre (field arg ++ rest) ∙ omega (arith, u16_at-le16 (length arg) (arg ++ rest) h)

-- One round of the loop, standing before a whole field.
decode_args-field :
    (k : ℕ) (pre arg rest : Bytes) (acc : List Bytes)
    → length arg < 65536
    → decode_args (suc k) (pre ++ (field arg ++ rest)) (length pre) acc
      ≡ decode_args k ((pre ++ field arg) ++ rest) (length (pre ++ field arg)) (acc ++ (arg ∷ []))
decode_args-field k pre arg rest acc h =
    let at : length (pre ++ field arg) ≡ length pre + 2 + length arg =
      omega (arith, length-append pre (field arg)) in
    let buf : (pre ++ field arg) ++ rest ≡ pre ++ (field arg ++ rest) =
      append_assoc pre (field arg) rest in
    let fits : length pre + 2 + length arg ≤ length (pre ++ (field arg ++ rest)) =
      omega (arith, length-append pre (field arg ++ rest), length-append arg rest) in
    decode_args-next k _ (length pre) acc (length arg) (u16_at-field pre arg rest h) fits
    ∙ rw (at, buf, slice-append pre _ _ arg rest)

decode_args-fields :
    (args : List Bytes) (pre rest : Bytes) (acc : List Bytes)
    → All IsShort args
    → decode_args (length args) (pre ++ (fields args ++ rest)) (length pre) acc
      ≡ command (acc ++ args)
decode_args-fields [] pre rest acc h = unfold decode_args in ap command (sym (append-nil acc))
decode_args-fields (a ∷ args) pre rest acc h = rw (append_assoc (field a) (fields args) rest) (
    decode_args-field (length args) pre a (fields args ++ rest) acc h.0
    ∙ decode_args-fields args (pre ++ field a) rest (acc ++ (a ∷ [])) h.1
    ∙ ap command (append_assoc acc (a ∷ []) args))

receive_all : (message : Bytes) → length message ≤ 65536 → receive message ≡ message
unfolding receive
receive_all message fits = take_all 65536 message fits

receive-take : (n : ℕ) (message : Bytes) → n ≡ 65536 → receive message ≡ take n message
unfolding receive
receive-take n message e = ap (λ k. take k message) (sym e)

decode-le16 :
    (n : ℕ) (body : Bytes)
    → n < 65536
    → decode (le16 n ++ body) ≡ decode_args n (le16 n ++ body) 2 []
unfolding decode
decode-le16 n body h = ground (arith, u16_at-le16 n body h)

encode_lem :
    (program : Bytes) (args : List Bytes)
    → length args < 65536
    → encode (program ∷ args) ≡ le16 (length args) ++ fields args
unfolding encode
encode_lem program args h =
    let e : length args % 65536 ≡ length args = omega arith in ap (λ n. le16 n ++ fields args) e

-- `sendSize` behind the count.
abbrev pub fields_size : List Bytes → ℕ
fields_size [] = 0
fields_size (a ∷ args) = 2 + length a + fields_size args

length-fields : (args : List Bytes) → length (fields args) ≡ fields_size args
length-fields [] = refl
length-fields (a ∷ args) = omega (arith, length-fields args, length-append (field a) (fields args))

pub length-encode :
    (program : Bytes) (args : List Bytes) → length (encode (program ∷ args)) ≡ 2 + fields_size args
unfolding encode
length-encode program args = omega (arith, length-fields args)

-- The daemon decodes exactly the arguments that `systemctl` was given, for a command that fits:
-- fewer than 65536 arguments, each shorter than 65536 bytes, in a message of at most 65536 bytes.
pub decode-encode :
    (program : Bytes) (args : List Bytes)
    → length args < 65536
    → All IsShort args
    → length (encode (program ∷ args)) ≤ 65536
    → decode (receive (encode (program ∷ args))) ≡ command args
decode-encode program args count short fits =
    ap decode (receive_all _ fits ∙ encode_lem program args count)
    ∙ decode-le16 (length args) (fields args) count
    ∙ ap (λ body. decode_args (length args) (le16 (length args) ++ body) 2 [])
        (sym (append-nil (fields args)))
    ∙ decode_args-fields args (le16 (length args)) [] [] short

-- The outcomes of a message that is cut short.
abbrev pub IsRefused : Decoded → Type 0
IsRefused d = (d ≡ malformed) ⊎ (d ≡ string_short)

take-fields :
    (m : ℕ) (pre a : Bytes) (args : List Bytes)
    → length a ≤ m
    → pre ++ take (suc (suc m)) (fields (a ∷ args))
      ≡ pre ++ (field a ++ take (m - length a) (fields args))
take-fields m pre a args h =
    ap (λ body. pre ++ (le16 (length a % 65536) ++ body)) (take-append_le m a (fields args) h)

-- Too short for all of its fields, a message is refused.
decode_args_cut :
    (args : List Bytes) (pre : Bytes) (m : ℕ) (acc : List Bytes)
    → All IsShort args
    → m < length (fields args)
    → IsRefused (decode_args (length args) (pre ++ take m (fields args)) (length pre) acc)
decode_args_cut [] pre m acc short cut = elim cut [ ]
decode_args_cut (a ∷ args) pre zero acc short cut =
    inl (decode_args-malformed _ _ _ _ (omega (arith, length-append pre [])))
decode_args_cut (a ∷ args) pre (suc zero) acc short cut = inl (
    decode_args-malformed _ _ _ _
      (omega (arith, length-append pre (take 1 (le16 (length a % 65536))))))
decode_args_cut (a ∷ args) pre (suc (suc m)) acc short cut = elim (dec_le (length a) m) [
  | yes h ↦ rw (take-fields m pre a args h) (
      rw (decode_args-field (length args) pre a (take (m - length a) (fields args)) acc short.0) (
        decode_args_cut args (pre ++ field a) (m - length a) (acc ++ (a ∷ [])) short.1
          (omega (arith, length-append a (fields args)))))
  | no h ↦
      let body = take m (a ++ fields args) in
      let size : length (pre ++ (le16 (length a % 65536) ++ body)) ≡ length pre + 2 + length body =
        omega (arith, length-append pre (le16 (length a % 65536) ++ body)) in
      let size_body : length body ≤ m = omega (arith, length-take m (a ++ fields args)) in
      inr (
        decode_args-string_short _ _ _ _ (length a)
          (u16_at-append pre _ ∙ omega (arith, u16_at-le16 (length a) body short.0)) (omega arith)
          (omega arith))
]

-- A command that does not fit the daemon's buffer is refused, and never run with fewer or shorter
-- arguments: with fewer than 65536 arguments, each shorter than 65536 bytes, in a message of more
-- than 65536 bytes.
pub decode-encode_oversized :
    (program : Bytes) (args : List Bytes)
    → length args < 65536
    → All IsShort args
    → 65536 < length (encode (program ∷ args))
    → IsRefused (decode (receive (encode (program ∷ args))))
decode-encode_oversized program args count short over = cut 65534 refl
  where
    cut : (m : ℕ) → m + 2 ≡ 65536 → IsRefused (decode (receive (encode (program ∷ args))))
    cut m e = rw (encode_lem program args count) (
        rw (receive-take (suc (suc m)) (le16 (length args) ++ fields args) (omega arith)) (
          rw (decode-le16 (length args) (take m (fields args)) count)
            (decode_args_cut args (le16 (length args)) m [] short size)))
      where
        size : m < length (fields args)
        size = omega (arith, ap length (encode_lem program args count))

-- The name of the program is not in the message.
pub encode_anonymous :
    (program program' : Bytes) (args : List Bytes)
    → encode (program ∷ args) ≡ encode (program' ∷ args)
unfolding encode
encode_anonymous program program' args = refl

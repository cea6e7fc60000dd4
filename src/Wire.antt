-- ===== src/Wire.antt =====
-- The control socket's messages: systemctl/main.go `Main` writes a command and reads the reply,
-- systemd/main.go (the goroutine of `Main` for a connection) reads the command and replies.
mod Position
pub mod RoundTrip
pub mod Reply
mod Tests
use docker_systemd.Base.{
  ℕ, zero, suc, ◌+◌, ◌*◌, ◌/◌, ◌%◌, List, [], ◌∷◌, ◌++◌, Bytes, length, take, drop, get_or, ltb,
  if◌then◌else◌,
}

-- `uint16(n)` and `binary.LittleEndian.AppendUint16`.
abbrev pub le16 : ℕ → Bytes
le16 n = (n % 256) ∷ (n / 256 % 256) ∷ []

-- What `append` adds to `sendBuf` for one argument.
abbrev pub field : Bytes → Bytes
field arg = le16 (length arg % 65536) ++ arg

abbrev pub fields : List Bytes → Bytes
fields [] = []
fields (a ∷ args) = field a ++ fields args

-- The message for `os.Args`; the program's name is not sent. The count is
-- `uint16(len(args)-1)`, so 65535 for an empty slice.
pub encode : List Bytes → Bytes
encode [] = le16 65535
encode (program ∷ args) = le16 (length args % 65536) ++ fields args

-- One `conn.Read(buf)` into the buffer of 65536 bytes. It is assumed to deliver all that was written,
-- up to the size of the buffer, and not to fail.
pub receive : Bytes → Bytes
receive message = take 65536 message

pub data Decoded : Type 0 where
  command : List Bytes → Decoded
  too_small malformed string_short : Decoded

-- `binary.LittleEndian.Uint16(buf[at:at+2])`
abbrev pub u16_at : Bytes → ℕ → ℕ
u16_at buf at = get_or buf at 0 + 256 * get_or buf (at + 1) 0

abbrev pub slice : Bytes → ℕ → ℕ → Bytes
slice buf at size = take size (drop at buf)

-- The loop over `params` on `bufloc` and `args`.
pub decode_args : ℕ → Bytes → ℕ → List Bytes → Decoded
decode_args zero buf bufloc args = command args
decode_args (suc params) buf bufloc args =
    let n = length buf in
    let argn = u16_at buf bufloc in
    let arg = slice buf (bufloc + 2) argn in
    let rest = decode_args params buf (bufloc + 2 + argn) (args ++ (arg ∷ [])) in
    if ltb n (bufloc + 2)
    then malformed
    else if ltb n (bufloc + 2 + argn)
    then string_short
    else rest

pub decode : Bytes → Decoded
unfolding decode_args
decode buf = if ltb (length buf) 2 then too_small else decode_args (u16_at buf 0) buf 2 []

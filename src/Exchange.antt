-- ===== src/Exchange.antt =====
-- A command from end to end: what systemctl/main.go `Main` sends, what systemd/main.go (the goroutine
-- of `Main` for a connection) does with it, and what `systemctl` prints and exits with.
pub mod Whole
mod Tests
use docker_systemd.Base.{ℕ, false, List, [], ◌∷◌, ◌++◌, Bytes, Option, none, some}
use docker_systemd.Wire.{
  encode, receive, Decoded, command, too_small, malformed, string_short, decode,
}
use docker_systemd.Wire.Reply.{exit_message, Exit, read_failed, read_reply}
use docker_systemd.Commands.{Services, Session}
use docker_systemd.Commands.Dispatch
use docker_systemd.Commands.Dispatch.{Parsed}

-- What the goroutine writes: nothing to a message that it does not understand; else the output and
-- 0x00, and, when the client has answered, the return code. A panic ends the daemon.
pub data Written (S : Type 0) : Type 0 where
  refused_by : S → Written S
  answered : (output code : Bytes) → S → Written S
  ended_daemon : Written S

module _ {S D : Type 0} (services : Services S D) (help : Bytes) (parse : List Bytes → Parsed) where
  abbrev pub reply_of : Option (ℕ × Session S) → Written S
  reply_of none = ended_daemon
  reply_of (some (ret_code, t)) = answered (t.out ++ (0 ∷ [])) (exit_message ret_code) t.sys

  abbrev pub handle : Decoded → S → Written S
  handle (command args) s =
      reply_of (Dispatch.command services help parse args (record { sys = s; out = [] }))
  handle too_small s = refused_by s
  handle malformed s = refused_by s
  handle string_short s = refused_by s

  -- The goroutine for a connection.
  unfoldable pub serve : Bytes → S → Written S
  serve message s = handle (decode (receive message)) s

  -- `systemctl` reads what the socket makes of the two writes: the output in some pieces, the code
  -- in one. Where nothing comes, its read fails.
  module _ (cut : Bytes → List Bytes) where
    abbrev pub client : Written S → Option S × (Bytes × Exit)
    client (refused_by s) = (some s, ([], read_failed))
    client (answered output code s) = (some s, read_reply false [] (cut output ++ (code ∷ [])))
    client ended_daemon = (none, ([], read_failed))

    -- `systemctl` and the daemon on `os.Args`: the system afterwards, if the daemon still runs, what
    -- was printed, and how `systemctl` ends.
    unfoldable pub exchange : List Bytes → S → Option S × (Bytes × Exit)
    exchange argv s = client (serve (encode argv) s)

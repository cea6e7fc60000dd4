-- ===== src/Wire/Tests.antt =====
-- Runs of the control socket's code, and the theorems at concrete commands and replies.
use docker_systemd.Text.{codes}
use docker_systemd.Base.{
  ℕ, ◌≡◌, refl, arith, List, [], ◌∷◌, ◌++◌, Bytes, length, replicate, length-replicate, false,
}
use docker_systemd.Wire.{encode, receive, command, string_short, decode, decode_args}
use docker_systemd.Wire.RoundTrip.{decode-encode, decode-encode_oversized, length-encode, IsRefused}
use docker_systemd.Wire.Reply.{read_reply, exit, extra_bytes, exit_message, read_reply-concat}

abbrev start_cron : List Bytes
start_cron = codes "systemctl" ∷ codes "start" ∷ codes "cron" ∷ []

encode-start_cron : encode start_cron ≡ 2 ∷ 0 ∷ 5 ∷ 0 ∷ (codes "start" ++ 4 ∷ 0 ∷ codes "cron")
unfolding encode
encode-start_cron = refl

decode_cut : decode (2 ∷ 0 ∷ 5 ∷ 0 ∷ codes "sta") ≡ string_short
unfolding decode decode_args
decode_cut = refl

decode-encode_example :
    decode (receive (encode start_cron)) ≡ command (codes "start" ∷ codes "cron" ∷ [])
unfolding encode
decode-encode_example =
    decode-encode (codes "systemctl") (codes "start" ∷ codes "cron" ∷ []) (omega arith)
      (omega arith) (omega arith)

big : Bytes
big = replicate 40000 b'x'

length-big : length big ≡ 40000
unfolding big
length-big = length-replicate {A = ℕ} 40000 b'x'

decode-encode_oversized_example :
    IsRefused (decode (receive (encode (codes "systemctl" ∷ big ∷ big ∷ []))))
decode-encode_oversized_example =
    decode-encode_oversized (codes "systemctl") (big ∷ big ∷ []) (omega arith)
      (omega (arith, length-big), (omega (arith, length-big), tt))
      (omega (arith, length-big, length-encode (codes "systemctl") (big ∷ big ∷ [])))

read_reply_extra :
    read_reply false [] (codes "up\\0" ∷ (0 ∷ []) ∷ codes "x" ∷ []) ≡ (codes "up\\0", extra_bytes)
unfolding read_reply
read_reply_extra = refl

read_reply-concat_example :
    read_reply false [] (codes "done" ∷ (10 ∷ 0 ∷ []) ∷ exit_message 1 ∷ [])
    ≡ (codes "done" ++ 10 ∷ [], exit 1)
read_reply-concat_example =
    read_reply-concat (codes "done" ∷ (10 ∷ 0 ∷ []) ∷ []) (codes "done" ++ 10 ∷ []) 1
      ((λ e. cc), ((λ e. cc), tt)) (omega arith) (omega arith) refl

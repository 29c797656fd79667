-- ===== src/Protocol/Tests.antt =====
-- Runs of the protocol's code, and its theorems at concrete inputs.
use nexus_link.Base.{ℕ, zero, suc, ◌+◌, ◌^◌, ◌<◌, ◌≡◌, refl, ap}
use nexus_link.Base.{none, some, List, [], ◌∷◌, ◌++◌, arith}
use nexus_link.Base.{Eq-nat, Eq-string, Eq-bytes}
use nexus_link.Base.{length}
use nexus_link.Wire.Endian.{to_be, of_be}
use nexus_link.Wire.Stream.{eof, unexpected_eof, bad_magic, too_large, ok, err, Conn, read_full}
use nexus_link.Protocol.Message.{
  Message, frame, max_message_size, read_message, check_header, read_body, type_login,
  type_heartbeat,
}
use nexus_link.Protocol.Envelope.{UdpEnvelope, marshal_envelope, unmarshal_envelope}
use nexus_link.Protocol.Framing.{
  Exact, read_message-frame, read_message-oversize, read_message-Exact,
}
use nexus_link.Protocol.Datagram.{unmarshal-marshal_envelope, unmarshal_envelope_exact}

-- two bytes of JSON in a login frame, with one byte of the next frame behind it
abbrev login_bytes : List ℕ
login_bytes = 0x4E ∷ 0x4C ∷ 1 ∷ 1 ∷ 0 ∷ 0 ∷ 0 ∷ 2 ∷ b'{' ∷ b'}' ∷ 0x4E ∷ []

abbrev login : Message
login = record { type = type_login; body = b'{' ∷ b'}' ∷ [] }

abbrev conn : List ℕ → Conn
conn bs = record { bytes = bs; closing = eof }

read_login : read_message (conn login_bytes) ≡ ok (login, conn (0x4E ∷ []))
unfolding read_message check_header read_body read_full of_be
read_login = refl

read_bad_magic :
    read_message (conn (0x4E ∷ 0x4D ∷ 1 ∷ 1 ∷ 0 ∷ 0 ∷ 0 ∷ 0 ∷ [])) ≡ err (bad_magic 0x4E4D)
unfolding read_message check_header read_full of_be
read_bad_magic = refl

read_cut : read_message (conn (0x4E ∷ 0x4C ∷ 1 ∷ [])) ≡ err unexpected_eof
unfolding read_message read_full
read_cut = refl

read_nothing : read_message (conn []) ≡ err eof
unfolding read_message read_full
read_nothing = refl

read_message-frame_test :
    read_message (conn (frame type_heartbeat (b'{' ∷ b'}' ∷ []) ++ (7 ∷ [])))
    ≡ ok (record { type = type_heartbeat; body = b'{' ∷ b'}' ∷ [] }, conn (7 ∷ []))
read_message-frame_test =
    read_message-frame type_heartbeat (b'{' ∷ b'}' ∷ []) (7 ∷ []) eof (omega arith) (omega arith)

read_message-Exact_example : Exact (conn login_bytes) (conn (0x4E ∷ [])) login
read_message-Exact_example =
    read_message-Exact (conn login_bytes) (conn (0x4E ∷ [])) login (omega arith) read_login

-- a payload of one byte more than the limit
zeros : ℕ → List ℕ
zeros zero = []
zeros (suc n) = 0 ∷ zeros n

length-zeros : (n : ℕ) → length (zeros n) ≡ n
unfolding zeros
length-zeros zero = refl
length-zeros (suc n) = ap suc (length-zeros n)

abbrev one_more : ℕ
one_more = max_message_size + 1

read_message-oversize_test :
    read_message (conn (frame type_login (zeros one_more) ++ []))
    ≡ err (too_large (length (zeros one_more)))
read_message-oversize_test =
    read_message-oversize type_login (zeros one_more) [] eof (omega arith)
      (omega (arith, length-zeros one_more)) (omega (arith, length-zeros one_more))

abbrev register : UdpEnvelope
register = record { kind = 1; session_id = b'0' ∷ b'a' ∷ []; payload = 5 ∷ [] }

marshal_register : marshal_envelope register ≡ 1 ∷ 0 ∷ 2 ∷ b'0' ∷ b'a' ∷ 5 ∷ []
unfolding marshal_envelope to_be
marshal_register = refl

unmarshal_short : unmarshal_envelope (2 ∷ 0 ∷ 2 ∷ b'0' ∷ []) ≡ none
unfolding unmarshal_envelope of_be
unmarshal_short = refl

unmarshal-marshal_envelope_test : unmarshal_envelope (marshal_envelope register) ≡ some register
unmarshal-marshal_envelope_test = unmarshal-marshal_envelope register (omega arith) (omega arith)

unmarshal_register : unmarshal_envelope (1 ∷ 0 ∷ 2 ∷ b'0' ∷ b'a' ∷ 5 ∷ []) ≡ some register
unfolding unmarshal_envelope of_be
unmarshal_register = refl

unmarshal_envelope_exact_example :
    (marshal_envelope register ≡ 1 ∷ 0 ∷ 2 ∷ b'0' ∷ b'a' ∷ 5 ∷ [])
    × (length register.session_id < 2 ^ 16)
unmarshal_envelope_exact_example =
    unmarshal_envelope_exact (1 ∷ 0 ∷ 2 ∷ b'0' ∷ b'a' ∷ 5 ∷ []) register (omega arith)
      unmarshal_register

-- ===== src/Protocol/Datagram.antt =====
-- What UnmarshalEnvelope makes of a datagram.
use nexus_link.Base.{ℕ, ◌+◌, ◌*◌, ◌^◌, ◌<◌, ◌≡◌, refl}
use nexus_link.Base.{some, List, [], ◌∷◌, ◌++◌, arith}
use nexus_link.Base.{Eq-nat, Eq-string, Eq-bytes}
use nexus_link.Base.{
  length, take, drop, All, length-append, take-append-drop, length-take, take-append, drop-append,
}
use nexus_link.Base.Word.{u16}
use nexus_link.Wire.Endian.{to_be, of_be, IsByte}
use nexus_link.Protocol.Envelope.{UdpEnvelope, marshal_envelope, unmarshal_envelope}

-- Decoding what was encoded: the first `length % 65536` bytes of the session id come back as the id,
-- and what the 16-bit length does not cover joins the payload.
unmarshal-marshal :
    (e : UdpEnvelope)
    → e.kind < 256
    → unmarshal_envelope (marshal_envelope e) ≡ (
        let n = u16 (length e.session_id) in
        let tail = e.session_id ++ e.payload in
        some (record { kind = e.kind; session_id = take n tail; payload = drop n tail }))
unfolding unmarshal_envelope marshal_envelope to_be of_be
unmarshal-marshal e h = ground (arith, length-append e.session_id e.payload)

-- An envelope whose session id has fewer than 65536 bytes is decoded to itself.
pub unmarshal-marshal_envelope :
    (e : UdpEnvelope)
    → e.kind < 256
    → length e.session_id < 2 ^ 16
    → unmarshal_envelope (marshal_envelope e) ≡ some e
unmarshal-marshal_envelope e h k = ground (
  arith,
  unmarshal-marshal e h,
  take-append (length e.session_id) e.session_id e.payload refl,
  drop-append (length e.session_id) e.session_id e.payload refl,
)

-- Whatever bytes are decoded, they are exactly the encoding of the result, and its session id is
-- shorter than 65536 bytes.
pub unmarshal_envelope_exact :
    (b : List ℕ) (e : UdpEnvelope)
    → All IsByte b
    → unmarshal_envelope b ≡ some e
    → (marshal_envelope e ≡ b) × (length e.session_id < 2 ^ 16)
unfolding unmarshal_envelope marshal_envelope to_be of_be
unmarshal_envelope_exact [] e bs h = cc
unmarshal_envelope_exact (a ∷ []) e bs h = cc
unmarshal_envelope_exact (a ∷ c ∷ []) e bs h = cc
unmarshal_envelope_exact (a ∷ c ∷ d ∷ r) e bs h =
    ground (arith, take-append-drop (c * 256 + d) r, length-take (c * 256 + d) r)

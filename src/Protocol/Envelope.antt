-- ===== src/Protocol/Envelope.antt =====
-- pkg/protocol/message.go: MarshalEnvelope and UnmarshalEnvelope. A Go string is its bytes.
use nexus_link.Base.{ℕ, ◌+◌}
use nexus_link.Base.{Option, none, some, List, ◌∷◌, ◌++◌, ltb, if◌then◌else◌}
use nexus_link.Base.{Eq-nat, Eq-string, Eq-bytes}
use nexus_link.Base.{length, take, drop, slice}
use nexus_link.Base.Word.{u16}
use nexus_link.Wire.Endian.{to_be, of_be}

-- `payload` is the field Data.
pub record UdpEnvelope : Type 0 where
  pub kind : ℕ
  pub session_id : List ℕ
  pub payload : List ℕ

unfoldable pub marshal_envelope : UdpEnvelope → List ℕ
marshal_envelope e = (e.kind ∷ to_be 2 (u16 (length e.session_id))) ++ (e.session_id ++ e.payload)

unfoldable pub unmarshal_envelope : List ℕ → Option UdpEnvelope
unmarshal_envelope b =
    let sid_len = of_be (slice 1 3 b) in
    if ltb (length b) 3
    then none
    else if ltb (length b) (3 + sid_len)
    then none
    else some (record {
      kind = of_be (take 1 b);
      session_id = slice 3 (3 + sid_len) b;
      payload = drop (3 + sid_len) b;
    })

-- ===== src/Auth/Tests.antt =====
-- A code in place of HMAC-SHA256, runs, and the theorems at concrete inputs.
use nexus_link.Base.{ℕ, ◌+◌, ◌≡◌, refl}
use nexus_link.Base.{none, some, List, [], ◌∷◌, ◌++◌, arith, leb, if◌then◌else◌}
use nexus_link.Base.{Eq-nat, Eq-string, Eq-bytes}
use nexus_link.Base.{length, take, drop, All}
use nexus_link.Wire.Endian.{to_be, of_be, IsByte, length-to_be}
use nexus_link.Wire.Stream.{eof, ok, Conn}
use nexus_link.Auth.Sign.{
  Hmac, Auth, sign, verify, sign_framed, verify_framed, read_framed, out_of_window,
}
use nexus_link.Auth.Packet.{IsFresh, verify-sign, verify_exact}
use nexus_link.Auth.Framed.{declared, verify_framed-verify, verify_framed-sign_framed}
use nexus_link.Auth.Reader.{StartsSigned, read_framed-sign_framed, read_framed_exact}

-- 32 bytes that depend on the secret and on the input
unfoldable pub checksum : Hmac
unfolding to_be of_be
checksum = record {
  mac = λ secret input. to_be 32 (of_be secret + of_be input);
  length-mac = λ secret input. length-to_be 32 (of_be secret + of_be input);
}

abbrev pub key : Auth
key = record { secret = b'k' ∷ [] }

abbrev packet : List ℕ
packet = sign checksum key 1000 (1 ∷ 2 ∷ [])

verify_late : verify checksum key 1301 packet ≡ none
unfolding verify sign out_of_window to_be of_be checksum
verify_late = refl

verify_changed : verify checksum key 1000 (take 41 packet ++ (3 ∷ [])) ≡ none
unfolding verify sign out_of_window to_be of_be checksum
verify_changed = refl

verify-sign_test : verify checksum key 1300 packet ≡ some (1 ∷ 2 ∷ [])
verify-sign_test = verify-sign checksum key 1300 1000 (1 ∷ 2 ∷ []) (omega arith) (omega arith)

packet_bytes : All IsByte packet
unfolding sign to_be of_be checksum
packet_bytes = omega arith

verify_exact_example : (t : ℕ) × IsFresh 1300 t × (packet ≡ sign checksum key t (1 ∷ 2 ∷ []))
verify_exact_example =
    verify_exact checksum key 1300 packet (1 ∷ 2 ∷ []) (omega arith) packet_bytes verify-sign_test

abbrev one_frame : List ℕ
one_frame = sign_framed checksum key 1000 (1 ∷ 2 ∷ [])

verify_framed-sign_framed_test :
    verify_framed checksum key 900 (one_frame ++ (9 ∷ [])) ≡ some (1 ∷ 2 ∷ [])
verify_framed-sign_framed_test =
    verify_framed-sign_framed checksum key 900 1000 (1 ∷ 2 ∷ []) (9 ∷ []) (omega arith)
      (omega arith) (omega arith)

abbrev conn : List ℕ → Conn
conn bs = record { bytes = bs; closing = eof }

verify_framed-verify_test : verify_framed checksum key 900 one_frame ≡ (
    if leb (44 + declared one_frame) (length one_frame)
    then verify checksum key 900 (take (40 + declared one_frame) (drop 4 one_frame))
    else none)
verify_framed-verify_test = verify_framed-verify checksum key 900 one_frame

read_framed-sign_framed_test :
    read_framed checksum key 900 (conn (one_frame ++ (9 ∷ []))) ≡ ok (1 ∷ 2 ∷ [], conn (9 ∷ []))
read_framed-sign_framed_test =
    read_framed-sign_framed checksum key 900 1000 (1 ∷ 2 ∷ []) (9 ∷ []) eof (omega arith)
      (omega arith) (omega arith)

stream_bytes : All IsByte (one_frame ++ (9 ∷ []))
unfolding sign_framed to_be of_be checksum
stream_bytes = omega arith

read_framed_exact_example :
    StartsSigned checksum key 900 (conn (one_frame ++ (9 ∷ []))) (1 ∷ 2 ∷ []) (conn (9 ∷ []))
read_framed_exact_example =
    read_framed_exact checksum key 900 (conn (one_frame ++ (9 ∷ []))) (conn (9 ∷ [])) (1 ∷ 2 ∷ [])
      (omega arith) stream_bytes read_framed-sign_framed_test

-- ===== src/Protocol/Message.antt =====
-- pkg/protocol/message.go: WriteMessage, ReadMessage and ParseMessage.
-- encoding/json is a parameter: `marshal` and `unmarshal` stand for its calls.
use nexus_link.Base.{ℕ, ◌*◌}
use nexus_link.Base.{not, ◌||◌, List, [], ◌∷◌, ◌++◌, ltb, nat_eq, if◌then◌else◌}
use nexus_link.Base.{Eq-nat, Eq-string, Eq-bytes}
use nexus_link.Base.{length, slice}
use nexus_link.Base.Word.{u32}
use nexus_link.Wire.Endian.{to_be, of_be}
use nexus_link.Wire.Stream.{
  bad_magic, bad_version, bad_type, too_large, Result, ok, err, ◌>>=◌, Conn, read_full,
}

abbrev pub magic_number : ℕ
magic_number = 0x4E4C

abbrev pub protocol_version : ℕ
protocol_version = 1

abbrev pub header_size : ℕ
header_size = 8

abbrev pub max_message_size : ℕ
max_message_size = 10 * 1024 * 1024

-- MessageType is a byte.
abbrev pub type_login : ℕ
type_login = 0x01

abbrev pub type_login_resp : ℕ
type_login_resp = 0x02

abbrev pub type_new_proxy : ℕ
type_new_proxy = 0x03

abbrev pub type_new_proxy_resp : ℕ
type_new_proxy_resp = 0x04

abbrev pub type_new_conn : ℕ
type_new_conn = 0x05

abbrev pub type_close_proxy : ℕ
type_close_proxy = 0x06

abbrev pub type_heartbeat : ℕ
type_heartbeat = 0x07

abbrev pub type_heartbeat_resp : ℕ
type_heartbeat_resp = 0x08

abbrev pub type_data_conn : ℕ
type_data_conn = 0x09

abbrev pub type_sync_proxies : ℕ
type_sync_proxies = 0x0A

abbrev pub type_sync_proxies_resp : ℕ
type_sync_proxies_resp = 0x0B

abbrev pub max_valid_type : ℕ
max_valid_type = 0x0F

-- `body` is the field Data.
pub record Message : Type 0 where
  pub type : ℕ
  pub body : List ℕ

-- magic(2) version(1) type(1) length(4)
unfoldable pub header : ℕ → List ℕ → List ℕ
header t payload = to_be 2 magic_number ++ (protocol_version ∷ t ∷ to_be 4 (u32 (length payload)))

unfoldable pub frame : ℕ → List ℕ → List ℕ
frame t payload = header t payload ++ payload

-- WriteMessage: `send` is conn.Write.
unfoldable pub write_message {ℓ} :
    {A : Type ℓ}
    → (marshal : A → Result (List ℕ)) (send : List ℕ → Result (Unit {0})) → ℕ
    → A
    → Result (Unit {0})
write_message marshal send t x = do payload ← marshal x; send (frame t payload)

-- The four checks on a header, in their order; the result is the type and the length.
unfoldable pub check_header : List ℕ → Result (ℕ × ℕ)
check_header h =
    let magic = of_be (slice 0 2 h) in
    let version = of_be (slice 2 3 h) in
    let t = of_be (slice 3 4 h) in
    let n = of_be (slice 4 8 h) in
    if not (nat_eq magic magic_number)
    then err (bad_magic magic)
    else if not (nat_eq version protocol_version)
    then err (bad_version version)
    else if nat_eq t 0 || ltb max_valid_type t
    then err (bad_type t)
    else if ltb max_message_size n
    then err (too_large n)
    else ok (t, n)

-- The body is read only if the length is not 0.
unfoldable pub read_body : ℕ → Conn → Result (List ℕ × Conn)
read_body n c = if ltb 0 n then read_full n c else ok ([], c)

unfoldable pub read_message : Conn → Result (Message × Conn)
read_message c = do
  (h, c1) ← read_full header_size c
  (t, n) ← check_header h
  (body, c2) ← read_body n c1
  ok (record { type = t; body = body }, c2)

unfoldable pub parse_message {ℓ} :
    {A : Type ℓ} → (unmarshal : List ℕ → Result A) → Message → Result A
parse_message unmarshal msg = unmarshal msg.body

-- ===== src/Auth/Sign.antt =====
-- pkg/auth/auth.go: Sign, Verify, SignFramed, VerifyFramed and ReadFramed.
-- `mac secret input` stands for HMAC-SHA256 of crypto/hmac; what the code relies on is that it has 32
-- bytes. The clock is an argument, the seconds of time.Now().Unix().
use nexus_link.Base.{ℕ, ◌+◌, ◌-◌, ◌*◌, ◌≡◌}
use nexus_link.Base.{Bool, not, ◌||◌, Option, none, some, List, [], ◌++◌, ltb, leb, if◌then◌else◌}
use nexus_link.Base.{◌==◌, Eq-nat, Eq-string, Eq-bytes}
use nexus_link.Base.{length, take, drop, slice}
use nexus_link.Base.Word.{u32, u64, add64, sub64}
use nexus_link.Wire.Endian.{to_be, of_be}
use nexus_link.Wire.Stream.{unexpected_eof, Result, ok, err, ◌>>=◌, ◌>>◌, guard, Conn, read_full}

abbrev pub signature_size : ℕ
signature_size = 32

abbrev pub timestamp_size : ℕ
timestamp_size = 8

abbrev pub header_size : ℕ
header_size = signature_size + timestamp_size

abbrev pub max_time_offset : ℕ
max_time_offset = 300

abbrev pub length_prefix_size : ℕ
length_prefix_size = 4

abbrev pub frame_header_size : ℕ
frame_header_size = length_prefix_size + header_size

-- the largest payload that ReadFramed takes
abbrev pub max_framed : ℕ
max_framed = 16 * 1024 * 1024

-- crypto/hmac with SHA-256.
pub record Hmac : Type 0 where
  pub mac : List ℕ → List ℕ → List ℕ
  pub length-mac : (secret input : List ℕ) → length (mac secret input) ≡ signature_size

pub record Auth : Type 0 where
  pub secret : List ℕ

-- NewAuth; a Go string is its bytes.
unfoldable pub new_auth : List ℕ → Auth
new_auth token = record { secret = token }

-- The uint64 comparisons of Verify and VerifyFramed; `now - 300` wraps.
unfoldable pub out_of_window : ℕ → ℕ → Bool
out_of_window now timestamp =
    ltb (add64 now max_time_offset) timestamp || ltb timestamp (sub64 now max_time_offset)

-- the payload is read only if its length is not 0
unfoldable pub read_payload : ℕ → Conn → Result (List ℕ × Conn)
read_payload n c = if ltb 0 n then read_full n c else ok ([], c)

unfoldable pub accept : Option (List ℕ) → Conn → Result (List ℕ × Conn)
accept none c = err unexpected_eof
accept (some payload) c = ok (payload, c)

module _ (hmac : Hmac) where
  open hmac use {mac}

  -- `copy` of the three parts into a buffer of their total size is their concatenation.
  unfoldable pub sign : Auth → ℕ → List ℕ → List ℕ
  sign a now payload =
      let ts = to_be timestamp_size (u64 now) in
      let signature = mac a.secret (ts ++ payload) in signature ++ (ts ++ payload)

  unfoldable pub verify : Auth → ℕ → List ℕ → Option (List ℕ)
  verify a now signed =
      let received = slice 0 signature_size signed in
      let ts = slice signature_size header_size signed in
      let payload = drop header_size signed in
      if ltb (length signed) header_size
      then none
      else if out_of_window (u64 now) (of_be ts)
      then none
      else if not (received == mac a.secret (ts ++ payload))
      then none
      else some payload

  unfoldable pub sign_framed : Auth → ℕ → List ℕ → List ℕ
  sign_framed a now payload =
      let ts = to_be timestamp_size (u64 now) in
      let signature = mac a.secret (ts ++ payload) in
      to_be length_prefix_size (u32 (length payload)) ++ (signature ++ (ts ++ payload))

  unfoldable pub verify_framed : Auth → ℕ → List ℕ → Option (List ℕ)
  verify_framed a now fr =
      let n = of_be (take length_prefix_size fr) in
      let received = slice length_prefix_size (length_prefix_size + signature_size) fr in
      let ts = slice (length_prefix_size + signature_size) frame_header_size fr in
      let payload = slice frame_header_size (frame_header_size + n) fr in
      if ltb (length fr) frame_header_size
      then none
      else if ltb (length fr - frame_header_size) n
      then none
      else if out_of_window (u64 now) (of_be ts)
      then none
      else if not (received == mac a.secret (ts ++ payload))
      then none
      else some payload

  unfoldable pub read_framed : Auth → ℕ → Conn → Result (List ℕ × Conn)
  unfolding read_payload accept
  read_framed a now c = do
    (h, c1) ← read_full frame_header_size c
    guard (leb (of_be (take length_prefix_size h)) max_framed) unexpected_eof
    (payload, c2) ← read_payload (of_be (take length_prefix_size h)) c1
    accept (verify_framed a now (h ++ payload)) c2

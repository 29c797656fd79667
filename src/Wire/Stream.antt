-- ===== src/Wire/Stream.antt =====
-- A connection as the bytes that are still to come and the error that ends them.
use nexus_link.Base.{ℕ, zero, suc, ◌≡◌, refl}
use nexus_link.Base.{Bool, true, false, List, ◌++◌, arith, leb, if◌then◌else◌}
use nexus_link.Base.{Eq-nat, Eq-string, Eq-bytes}
use nexus_link.Base.{
  length, take, drop, length-append, take-append-drop, length-take, take-append, drop-append,
}

-- What io.ReadFull, net.Conn and the protocol's own checks report.
pub data Error : Type 0 where
  eof unexpected_eof io_failure : Error
  bad_magic bad_version bad_type too_large : ℕ → Error

infixl 5 ◌>>=◌ ◌>>◌
-- a value, or the error that a call returns in its place
pub data Result {ℓ} (T : Type ℓ) : Type ℓ where
  err : Error → Result T
  ok : T → Result T

abbrev pub ◌>>=◌ {ℓ κ} :
    {S : Type ℓ} {T : Type κ} (first : Result S) (next : S → Result T) → Result T
err reason >>= next = err reason
ok value >>= next = next value

abbrev pub ◌>>◌ {ℓ} : {T : Type ℓ} (test : Result (Unit {0})) (next : Result T) → Result T
test >> next = test >>= λ _. next

-- A chain that succeeds has a first step that succeeds.
pub >>=-eq-ok {ℓ κ} :
    {S : Type ℓ} {T : Type κ} (first : Result S) (next : S → Result T) {out : T}
    → (first >>= next) ≡ ok out
    → (mid : S) × (first ≡ ok mid) × (next mid ≡ ok out)
>>=-eq-ok (err reason) next h = cc
>>=-eq-ok (ok mid) next h = (mid, refl, h)

pub ok-injective {ℓ} : {A : Type ℓ} {a b : A} → ok a ≡ ok b → a ≡ b
ok-injective e = cc

abbrev pub guard : Bool → Error → Result (Unit {0})
guard true e = ok tt
guard false e = err e

pub record Conn : Type 0 where
  pub bytes : List ℕ
  pub closing : Error

-- the error of a read that starts when nothing is left, and of one that is cut short
abbrev cut_short : ℕ → Error → Error
cut_short zero e = e
cut_short (suc n) eof = unexpected_eof
cut_short (suc n) e = e

-- io.ReadFull(conn, make([]byte, n)) for n > 0
unfoldable pub read_full : ℕ → Conn → Result (List ℕ × Conn)
read_full n c =
    if leb n (length c.bytes)
    then ok (take n c.bytes, record c { bytes = drop n c.bytes })
    else err (cut_short (length c.bytes) c.closing)

-- A read of what is there takes it and leaves the rest.
pub read_full-append :
    (n : ℕ) (xs rest : List ℕ) (e : Error)
    → n ≡ length xs
    → read_full n (record { bytes = xs ++ rest; closing = e })
      ≡ ok (xs, record { bytes = rest; closing = e })
unfolding read_full
read_full-append n xs rest e h =
    ground (arith, take-append n xs rest h, drop-append n xs rest h, length-append xs rest)

-- A read that succeeds returns `n` bytes that stood in front.
pub read_full_ok :
    (n : ℕ) (c : Conn) {xs : List ℕ} {d : Conn}
    → read_full n c ≡ ok (xs, d)
    → (c.bytes ≡ xs ++ d.bytes) × (length xs ≡ n) × (d.closing ≡ c.closing)
unfolding read_full
read_full_ok n c h = ground (arith, take-append-drop n c.bytes, length-take n c.bytes)

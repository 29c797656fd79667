-- ===== src/Tunnel/Tests.antt =====
-- A run of a tunnel of three chunks.
use nexus_link.Base.{ℕ, ◌≡◌, refl}
use nexus_link.Base.{Bool, true, none, some, List, [], ◌∷◌, arith}
use nexus_link.Base.{Eq-nat, Eq-string, Eq-bytes}
use nexus_link.Base.Word.{u64}
use nexus_link.Wire.Stream.{eof}
use nexus_link.Auth.Tests.{checksum, key}
use nexus_link.Tunnel.Forward.{Read, pump_signed, pump_verified, idle}
use nexus_link.Tunnel.EndToEnd.{end_to_end}
use nexus_link.Base.Dict.{lookup, insert, remove}
use nexus_link.Base.{◌⊎◌, All}
use nexus_link.Tunnel.Rendezvous.{
  Waiter, DataConn, Rendezvous, new_rendezvous, wait_user, claim, hand_over, take_data, time_out,
  Step, arrives, connects, sends, receives, Reach, fresh, further,
}
use nexus_link.Tunnel.Reached.{HasOwnId, Reach-joined, Reach-sends}

abbrev read : List ℕ → ℕ → Read
read bs t = record { chunk = bs; failed = none; now = t; writable = true }

abbrev reads : List Read
reads = read (1 ∷ 2 ∷ []) 1000 ∷ read (3 ∷ []) 1001 ∷ read (4 ∷ 5 ∷ []) 1002 ∷ []

abbrev rounds : List (ℕ × Bool)
rounds = (1000, true) ∷ (1200, true) ∷ (1302, true) ∷ []

-- a read that returns data and an error: the data is sent, then the loop stops
last_read :
    (pump_signed checksum key
      (record (read (7 ∷ []) 1000) { failed = some eof } ∷ reads)
      idle).traffic
    ≡ 1 ∷ []
unfolding pump_signed
last_read = refl

end_to_end_test :
    let sent = pump_signed checksum key reads idle in
    let (got, left) =
      pump_verified checksum key rounds (record { bytes = sent.written; closing = eof }) idle in
    (got.written ≡ 1 ∷ 2 ∷ 3 ∷ 4 ∷ 5 ∷ [])
    × (left.bytes ≡ [])
    × (got.stopped ≡ none)
    × (u64 got.counter ≡ 5)
    × (sent.counter ≡ got.counter)
    × (sent.traffic ≡ got.traffic)
    × (sent.stopped ≡ none)
end_to_end_test =
    end_to_end checksum key reads rounds eof
      (
        (omega arith, omega arith, refl, refl),
        ((omega arith, omega arith, refl, refl), ((omega arith, omega arith, refl, refl), tt)),
      )
      (
        (omega arith, omega arith, refl),
        ((omega arith, omega arith, refl), ((omega arith, omega arith, refl), tt)),
      )

-- user 100 is told to the client as "1", and data connection 200 names it
abbrev told : Rendezvous
told = wait_user true "1" 100 new_rendezvous

abbrev named : DataConn
named = record { conn = 200; conn_id = "1" }

abbrev waiter : Waiter
waiter = record { user = 100; conn_id = "1" }

abbrev in_hand : Rendezvous
in_hand = claim (some "1") 200 told

abbrev sent : Rendezvous
sent = hand_over 0 named in_hand

abbrev met : Rendezvous
met = take_data 0 waiter named sent

in_hand-Reach : Reach in_hand
unfolding wait_user lookup insert
in_hand-Reach =
    further (further fresh (arrives new_rendezvous true "1" 100))
      (connects told (some "1") 200 refl)

met-Reach : Reach met
unfolding wait_user claim hand_over lookup insert remove
met-Reach =
    further (further in_hand-Reach (sends in_hand 0 named refl refl))
      (receives sent 0 waiter named refl refl)

Reach-joined_example : All HasOwnId met.joined
Reach-joined_example = Reach-joined met-Reach

Reach-sends_example :
    ((in_hand.in_hand ≡ none) × Step in_hand (claim none 201 in_hand))
    ⊎ ((ch : ℕ) × (d : DataConn) × (in_hand.in_hand ≡ some (ch, d))
        × Step in_hand (hand_over ch d in_hand)
        × ((hand_over ch d in_hand).in_hand ≡ none))
Reach-sends_example = Reach-sends in_hand none 201 in_hand-Reach

-- a user that gives up between the claim and the send leaves the data connection in a channel that
-- nobody reads, and it is not closed
late_test :
    let s = hand_over 0 named (time_out 0 waiter in_hand) in
    (s.waiters ≡ []) × (s.buffers ≡ (0, named) ∷ []) × (s.closed ≡ 100 ∷ [])
unfolding wait_user claim hand_over time_out lookup insert remove
late_test = (refl, refl, refl)

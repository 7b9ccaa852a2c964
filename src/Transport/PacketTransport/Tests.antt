-- ===== src/Transport/PacketTransport/Tests.antt =====
-- The theorems on the packet transport at a message of three fragments.
use rsticulum.Prelude.{
  ℕ, zero, suc, ◌≤◌, ◌<◌, ◌≡◌, refl, arith, true, ◌||◌, ◌==◌, some, List, [], ◌∷◌, Bytes, replicate,
  length, ok, All, get,
}
use rsticulum.Identity.RnsAddress.{RnsAddress}
use rsticulum.Packet.{Packet, to_bytes}
use rsticulum.Transport.Resource.{chunks}
use rsticulum.Transport.PacketTransport.{
  PacketTransport, fragment_packet, number_fragments, send_packet, queue, recv_packet,
}
use rsticulum.Transport.PacketTransport.Arrivals.{arrived, arrive_each}
use rsticulum.Transport.PacketTransport.Delivery.{recv_packet-send_packet}
use rsticulum.Transport.PacketTransport.Sizes.{send_packet-small}

abbrev peer : RnsAddress
peer = record { bytes = replicate 16 9 }

abbrev message : Bytes
message = 1 ∷ 2 ∷ 3 ∷ 4 ∷ 5 ∷ []

-- Two bytes in a packet, and the id 7.
abbrev sent : List Packet
sent =
    fragment_packet peer 7 3 0 (1 ∷ 2 ∷ [])
    ∷ fragment_packet peer 7 3 1 (3 ∷ 4 ∷ [])
    ∷ fragment_packet peer 7 3 2 (5 ∷ [])
    ∷ []

abbrev narrow : PacketTransport
narrow = record { inbound = []; outbound = []; mtu = 37; reassembly = [] }

narrow-sends : send_packet narrow peer message 7 ≡ (ok sent, queue narrow sent)
unfolding send_packet number_fragments chunks
narrow-sends = refl

abbrev receiver : PacketTransport
receiver = record { inbound = []; outbound = []; mtu = 500; reassembly = [] }

all_there : (i : ℕ) → i < length sent → (1 == i || arrived i (2 ∷ 0 ∷ 2 ∷ [])) ≡ true
all_there zero h = refl
all_there (suc zero) h = refl
all_there (suc (suc zero)) h = refl
all_there (suc (suc (suc i))) h = absurd (omega arith)

recv_packet-send_packet_example :
    (recv_packet
      (arrive_each receiver sent (2 ∷ 0 ∷ 2 ∷ []))
      (fragment_packet peer 7 3 1 (3 ∷ 4 ∷ []))).0
    ≡ ok (some message)
unfolding get
recv_packet-send_packet_example =
    recv_packet-send_packet narrow (queue narrow sent) receiver peer message 7 sent (2 ∷ 0 ∷ 2 ∷ [])
      1 (fragment_packet peer 7 3 1 (3 ∷ 4 ∷ [])) (omega arith) (omega arith) (omega arith)
      (omega arith) narrow-sends refl (omega arith, (omega arith, (omega arith, tt))) refl refl
      all_there

send_packet-small_example : All (λ (p : Packet). length (to_bytes p) ≤ 37) sent
send_packet-small_example =
    send_packet-small narrow (queue narrow sent) peer message 7 sent (omega arith) refl narrow-sends

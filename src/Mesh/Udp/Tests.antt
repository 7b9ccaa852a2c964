-- ===== src/Mesh/Udp/Tests.antt =====
-- The theorem on announces at a medium with one peer, whose address another socket takes over.
use rsticulum.Prelude.{
  ◌≡◌, refl, arith, true, some, Bytes, [], ◌∷◌, ◌++◌, replicate, if◌then◌else◌, ok,
}
use rsticulum.Identity.RnsAddress.{RnsAddress}
use rsticulum.Packet.{new_announce, to_bytes}
use rsticulum.Mesh.{same_address}
use rsticulum.Mesh.Udp.{UdpMedium, send, recv, peer_at}
use rsticulum.Mesh.Udp.Takeover.{address_of, send-recv_announce}

abbrev peer : RnsAddress
peer = record { bytes = replicate 16 1 }

abbrev medium : UdpMedium
medium = record { name = 117 ∷ []; peer_addrs = (peer, 5) ∷ [] }

abbrev toy_hash : Bytes → Bytes
toy_hash text = replicate 32 1

send-recv_announce_example :
    send true
      (recv toy_hash medium (some (9, to_bytes (new_announce peer (replicate 64 3 ++ 2 ∷ []))))).1
      peer
      (7 ∷ [])
    ≡ (if same_address (address_of toy_hash (replicate 64 3)) peer
        then ok (9, 7 ∷ [])
        else send true medium peer (7 ∷ []))
unfolding peer_at
send-recv_announce_example =
    send-recv_announce toy_hash medium peer (replicate 64 3) (2 ∷ []) 9 peer (7 ∷ []) refl refl
      (omega arith) refl

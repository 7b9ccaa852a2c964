-- ===== src/Mesh/Udp.antt =====
-- crates/mesh/src/udp.rs: the peers of a UDP medium and where their addresses come from. A socket
-- address is a number. Whether the socket takes a datagram, and what it received, are arguments.
pub mod Takeover
mod Tests
use rsticulum.Prelude.{
  ℕ, Bool, Option, none, some, List, [], ◌∷◌, Bytes, length, take, leb, ◌==◌, if◌then◌else◌, Result,
  ok, err, panic, get, insert,
}
use rsticulum.Identity.RnsAddress.{RnsAddress, IdentityError, from_key}
use rsticulum.Identity.RnsAddress as AddressModule
use rsticulum.Packet.{Packet, PacketError, announce}
use rsticulum.Packet as PacketModule
use rsticulum.Mesh.{address_keys}

pub data MeshError : Type 0 where
  io : MeshError
  unknown_peer : Bytes → MeshError

pub record UdpMedium : Type 0 where
  pub name : Bytes
  pub peer_addrs : List (RnsAddress × ℕ)

unfoldable pub bind : Bytes → UdpMedium
bind name = record { name = name; peer_addrs = [] }

unfoldable pub add_peer : UdpMedium → RnsAddress → ℕ → UdpMedium
add_peer m addr socket_addr = record m { peer_addrs = insert addr socket_addr m.peer_addrs }

-- The datagram that the socket takes, if it takes one.
unfoldable pub send_to : Bool → Bytes → Option ℕ → RnsAddress → Result MeshError (ℕ × Bytes)
send_to takes frame none to = err (unknown_peer to.bytes)
send_to takes frame (some socket_addr) to = if takes then ok (socket_addr, frame) else err io

abbrev pub send : Bool → UdpMedium → RnsAddress → Bytes → Result MeshError (ℕ × Bytes)
send takes m to frame = send_to takes frame (get to m.peer_addrs) to

-- One datagram for each peer; what the socket refuses is only logged.
unfoldable pub datagrams : Bytes → List (RnsAddress × ℕ) → List (ℕ × Bytes)
datagrams frame [] = []
datagrams frame ((addr, socket_addr) ∷ peers) = (socket_addr, frame) ∷ datagrams frame peers

unfoldable pub broadcast : UdpMedium → Bytes → ℕ × List (ℕ × Bytes)
broadcast m frame = (length m.peer_addrs, datagrams frame m.peer_addrs)

-- The first peer at a socket address; the order of a hash map is any order.
unfoldable pub peer_at : ℕ → List (RnsAddress × ℕ) → Option RnsAddress
peer_at from [] = none
peer_at from ((addr, socket_addr) ∷ peers) =
    if socket_addr == from then some addr else peer_at from peers

abbrev pub Received : Type 0
Received = Result MeshError (Option (RnsAddress × Bytes))

-- The address of an announced key gets the socket address that the frame came from.
unfoldable pub register :
    UdpMedium → ℕ → Bytes → Result IdentityError RnsAddress → Received × UdpMedium
register m from buf (ok addr) = (ok (some (addr, buf)), add_peer m addr from)
register m from buf (err e) = (panic, m)
register m from buf panic = (panic, m)

unfoldable pub by_destination : Bytes → Result IdentityError RnsAddress → Received
by_destination buf (ok dest) = ok (some (dest, buf))
by_destination buf (err e) = ok none
by_destination buf panic = panic

module _ (sha256 : Bytes → Bytes) where
  -- An announce has a key of 64 bytes in front, or one of 32.
  unfoldable pub identify : UdpMedium → ℕ → Bytes → Result PacketError Packet → Received × UdpMedium
  unfolding register by_destination
  identify m from buf (ok packet) =
      let guess = by_destination buf (AddressModule.from_bytes packet.destination_hash) in
      if packet.packet_type == announce
      then (if leb 64 (length packet.payload)
          then register m from buf (from_key sha256 (take 64 packet.payload))
          else if leb 32 (length packet.payload)
          then register m from buf (from_key sha256 (take 32 packet.payload))
          else (guess, m))
      else (guess, m)
  identify m from buf (err e) = (ok none, m)
  identify m from buf panic = (panic, m)

  -- A frame from a known socket address is its peer's.
  unfoldable pub attribute : UdpMedium → ℕ → Bytes → Option RnsAddress → Received × UdpMedium
  unfolding identify
  attribute m from buf (some addr) = (ok (some (addr, buf)), m)
  attribute m from buf none = identify m from buf (PacketModule.from_bytes buf)

  unfoldable pub recv : UdpMedium → Option (ℕ × Bytes) → Received × UdpMedium
  unfolding attribute
  recv m none = (err io, m)
  recv m (some (from, buf)) = attribute m from buf (peer_at from m.peer_addrs)

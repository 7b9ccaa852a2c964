-- ===== src/Packet.antt =====
-- crates/packet/src/packet.rs: the RNS packet, its flags byte, its constructors and its wire form.
-- A fixed array `[u8; 16]` is a byte string; `IsValid` says that it has its length and that every
-- field is a byte.
pub mod Flags
pub mod Codec
pub mod Parsing
pub mod Hops
mod Tests
use rsticulum.Prelude.{
  ℕ, ◌+◌, ◌-◌, ◌*◌, ◌/◌, ◌%◌, ◌^◌, ◌≤◌, ◌<◌, bit_and, bit_or, ◌≡◌, Bool, Option, none, some, [],
  ◌∷◌, ◌++◌, length, Bytes, IsByte, AllBytes, index, slice, slice_from, ltb, ◌==◌, if◌then◌else◌,
  Result, ok, err, map_err, ◌>>=◌,
}
use rsticulum.Identity.RnsAddress.{RnsAddress, IdentityError}
use rsticulum.Identity.RnsAddress

-- The messages of `PacketError::Invalid`.
pub data PacketError : Type 0 where
  too_short header_2_too_short header_1_too_short invalid_destination : PacketError

abbrev pub data_packet : ℕ
data_packet = 0x00

abbrev pub announce : ℕ
announce = 0x01

abbrev pub linkrequest : ℕ
linkrequest = 0x02

abbrev pub proof : ℕ
proof = 0x03

abbrev pub header_1 : ℕ
header_1 = 0x00

abbrev pub header_2 : ℕ
header_2 = 0x01

abbrev pub context_none : ℕ
context_none = 0x00

abbrev pub dest_single : ℕ
dest_single = 0x00

abbrev pub dest_link : ℕ
dest_link = 0x01

abbrev pub flag_unset : ℕ
flag_unset = 0x00

abbrev pub flag_set : ℕ
flag_set = 0x01

abbrev pub transport_broadcast : ℕ
transport_broadcast = 0x00

abbrev pub transport_unicast : ℕ
transport_unicast = 0x01

abbrev pub hash_length : ℕ
hash_length = 16

abbrev pub header_minsize : ℕ
header_minsize = 19

abbrev pub header_maxsize : ℕ
header_maxsize = 35

abbrev pub max_hops : ℕ
max_hops = 64

-- `x << k` on a `u8`.
abbrev shl8 : ℕ → ℕ → ℕ
shl8 x k = (x * 2 ^ k) % 256

-- `x >> k`
abbrev shr : ℕ → ℕ → ℕ
shr x k = x / 2 ^ k

unfoldable pub pack_flags : ℕ → ℕ → ℕ → ℕ → ℕ → ℕ
pack_flags header_type context_flag transport_type destination_type packet_type =
    bit_or
      (bit_or
        (bit_or (bit_or (shl8 (bit_and header_type 0x03) 6) (shl8 (bit_and context_flag 0x01) 5))
          (shl8 (bit_and transport_type 0x01) 4))
        (shl8 (bit_and destination_type 0x03) 2))
      (bit_and packet_type 0x03)

unfoldable pub unpack_flags : ℕ → ℕ × ℕ × ℕ × ℕ × ℕ
unpack_flags flags =
    let header_type = bit_and (shr flags 6) 0x03 in
    let context_flag = bit_and (shr flags 5) 0x01 in
    let transport_type = bit_and (shr flags 4) 0x01 in
    let destination_type = bit_and (shr flags 2) 0x03 in
    let packet_type = bit_and flags 0x03 in
    (header_type, context_flag, transport_type, destination_type, packet_type)

pub record Packet : Type 0 where
  pub header_type : ℕ
  pub context_flag : ℕ
  pub transport_type : ℕ
  pub destination_type : ℕ
  pub packet_type : ℕ
  pub hops : ℕ
  pub destination_hash : Bytes
  pub transport_id : Option Bytes
  pub context : ℕ
  pub payload : Bytes

unfoldable pub new_data : RnsAddress → Bytes → Packet
new_data destination payload = record {
  header_type = header_1;
  context_flag = flag_unset;
  transport_type = transport_broadcast;
  destination_type = dest_single;
  packet_type = data_packet;
  hops = max_hops;
  destination_hash = destination.bytes;
  transport_id = none;
  context = context_none;
  payload = payload;
}

unfoldable pub new_announce : RnsAddress → Bytes → Packet
new_announce destination payload = record {
  header_type = header_1;
  context_flag = flag_set;
  transport_type = transport_broadcast;
  destination_type = dest_single;
  packet_type = announce;
  hops = 1;
  destination_hash = destination.bytes;
  transport_id = none;
  context = context_none;
  payload = payload;
}

unfoldable pub new_link_request : RnsAddress → Bytes → Packet
new_link_request destination payload = record {
  header_type = header_1;
  context_flag = flag_unset;
  transport_type = transport_broadcast;
  destination_type = dest_single;
  packet_type = linkrequest;
  hops = max_hops;
  destination_hash = destination.bytes;
  transport_id = none;
  context = context_none;
  payload = payload;
}

unfoldable pub new_proof : RnsAddress → ℕ → Bytes → Packet
new_proof destination context payload = record {
  header_type = header_1;
  context_flag = flag_set;
  transport_type = transport_unicast;
  destination_type = dest_single;
  packet_type = proof;
  hops = max_hops;
  destination_hash = destination.bytes;
  transport_id = none;
  context = context;
  payload = payload;
}

unfoldable pub new_transport : RnsAddress → Bytes → Bytes → Packet
new_transport destination transport_id payload = record {
  header_type = header_2;
  context_flag = flag_unset;
  transport_type = transport_unicast;
  destination_type = dest_single;
  packet_type = data_packet;
  hops = max_hops;
  destination_hash = destination.bytes;
  transport_id = some transport_id;
  context = context_none;
  payload = payload;
}

unfoldable pub is_expired : Packet → Bool
is_expired p = p.hops == 0

-- `saturating_sub(1)`
unfoldable pub decrement_ttl : Packet → Packet
decrement_ttl p = record p { hops = p.hops - 1 }

unfoldable pub destination : Packet → Result PacketError RnsAddress
unfolding RnsAddress.from_bytes
destination p = map_err (λ _. invalid_destination) (RnsAddress.from_bytes p.destination_hash)

-- `if let Some(ref tid) = self.transport_id { buf.extend_from_slice(tid) }`
transport_bytes : Option Bytes → Bytes
transport_bytes none = []
transport_bytes (some tid) = tid

unfoldable pub flags_of : Packet → ℕ
flags_of p =
    pack_flags p.header_type p.context_flag p.transport_type p.destination_type p.packet_type

unfoldable pub to_bytes : Packet → Bytes
unfolding transport_bytes
to_bytes p =
    flags_of p
    ∷ p.hops
    ∷ ((if p.header_type == header_2 then transport_bytes p.transport_id else [])
        ++ (p.destination_hash ++ (p.context ∷ p.payload)))

-- The `transport_id` of the parsed header, and the position behind it.
read_transport_id : ℕ → Bytes → Result PacketError (Option Bytes × ℕ)
read_transport_id header_type bs =
    if header_type == header_2
    then (if ltb (length bs) (2 + hash_length + hash_length + 1)
        then err header_2_too_short
        else do tid ← slice bs 2 (2 + hash_length); ok (some tid, 2 + hash_length))
    else if ltb (length bs) (2 + hash_length + 1)
    then err header_1_too_short
    else ok (none, 2)

-- The fields behind the transport id, and the packet.
read_body : ℕ × ℕ × ℕ × ℕ × ℕ → ℕ → Bytes → Option Bytes × ℕ → Result PacketError Packet
read_body (header_type, context_flag, transport_type, destination_type, packet_type) hops bs
      (transport_id, pos) =
    do
      dest_hash ← slice bs pos (pos + hash_length)
      context ← index bs (pos + hash_length)
      payload ← slice_from bs (pos + hash_length + 1)
      ok (record {
        header_type = header_type;
        context_flag = context_flag;
        transport_type = transport_type;
        destination_type = destination_type;
        packet_type = packet_type;
        hops = hops;
        destination_hash = dest_hash;
        transport_id = transport_id;
        context = context;
        payload = payload;
      })

unfoldable pub from_bytes : Bytes → Result PacketError Packet
unfolding read_transport_id read_body
from_bytes bs = if ltb (length bs) 3 then err too_short else do
  flags ← index bs 0
  hops ← index bs 1
  let fields = unpack_flags flags
  transport ← read_transport_id fields.0 bs
  read_body fields hops bs transport

-- ===== src/Transport/PacketTransport.antt =====
-- crates/transport/src/packet_transport.rs: messages over packets, cut into fragments when they are
-- too large for one and put together again. The random id of a message is an argument.
pub mod Fragments
pub mod Arrivals
pub mod Reassembly
pub mod Delivery
pub mod Sizes
mod Tests
use rsticulum.Prelude.{
  ℕ, zero, suc, ◌+◌, ◌-◌, ◌/◌, ◌%◌, ◌^◌, not, Option, none, some, List, [], ◌∷◌, ◌++◌, Bytes,
  length, ltb, leb, ◌==◌, if◌then◌else◌, to_be_bytes, from_be_bytes, Result, ok, err, panic, ◌>>=◌,
  slice, slice_from, get, insert, remove, number_keys,
}
use rsticulum.Identity.RnsAddress.{RnsAddress}
use rsticulum.Packet.{Packet, new_data}
use rsticulum.Transport.Error.{
  TransportError, invalid_chunk_size, resource_segment_order, other, fragment_total_mismatch,
}
use rsticulum.Transport.Resource.{chunks}

abbrev pub default_mtu : ℕ
default_mtu = 500

-- `RESOURCE` of crates/packet
abbrev pub context_resource : ℕ
context_resource = 0x01

-- `saturating_sub`
abbrev pub max_payload : ℕ → ℕ
max_payload mtu = mtu - 35

pub record ReassemblyBuffer : Type 0 where
  pub total : ℕ
  pub fragments : List (ℕ × Bytes)
  pub data_len : ℕ

pub record PacketTransport : Type 0 where
  pub inbound : List Packet
  pub outbound : List Packet
  pub mtu : ℕ
  pub reassembly : List (ℕ × ReassemblyBuffer)

unfoldable pub with_mtu : ℕ → PacketTransport
with_mtu mtu = record { inbound = []; outbound = []; mtu = mtu; reassembly = [] }

unfoldable pub new : PacketTransport
unfolding with_mtu
new = with_mtu default_mtu

abbrev pub pending_inbound : PacketTransport → ℕ
pending_inbound t = length t.inbound

abbrev pub pending_outbound : PacketTransport → ℕ
pending_outbound t = length t.outbound

unfoldable pub fragment_packet : RnsAddress → ℕ → ℕ → ℕ → Bytes → Packet
fragment_packet destination id total i chunk =
    record (new_data destination
      (to_be_bytes 8 id ++ (to_be_bytes 2 (i % 2 ^ 16) ++ (to_be_bytes 2 total ++ chunk)))) {
        context = context_resource;
      }

-- The loop over the enumerated chunks.
unfoldable pub number_fragments : RnsAddress → ℕ → ℕ → ℕ → List Bytes → List Packet
number_fragments destination id total i [] = []
number_fragments destination id total i (c ∷ cs) =
    fragment_packet destination id total i c ∷ number_fragments destination id total (i + 1) cs

-- `((data.len() + size - 1) / size) as u16`
abbrev pub fragment_count : ℕ → Bytes → ℕ
fragment_count size content = ((length content + size - 1) / size) % 2 ^ 16

abbrev pub fragments_of : RnsAddress → ℕ → ℕ → Bytes → List Packet
fragments_of destination id size content =
    number_fragments destination id (fragment_count size content) 0
      (chunks (length content) size content)

unfoldable pub queue : PacketTransport → List Packet → PacketTransport
queue t packets = record t { outbound = t.outbound ++ packets }

-- A division by a zero size panics.
unfoldable pub send_packet :
    PacketTransport → RnsAddress → Bytes → ℕ → Result TransportError (List Packet) × PacketTransport
unfolding queue
send_packet t destination content id =
    let size = max_payload t.mtu in
    if leb (length content) size
    then (ok (new_data destination content ∷ []), queue t (new_data destination content ∷ []))
    else if size == 0
    then (panic, t)
    else (
      ok (fragments_of destination id size content),
      queue t (fragments_of destination id size content),
    )

pub record Fragment : Type 0 where
  pub id : ℕ
  pub index : ℕ
  pub total : ℕ
  pub chunk : Bytes

unfoldable pub read_fragment : Bytes → Result TransportError Fragment
read_fragment content =
    if ltb (length content) 12 then err (invalid_chunk_size (length content)) else do
      id ← slice content 0 8
      index ← slice content 8 10
      total ← slice content 10 12
      chunk ← slice_from content 12
      ok (record {
        id = from_be_bytes id;
        index = from_be_bytes index;
        total = from_be_bytes total;
        chunk = chunk;
      })

-- `entry(fragment_id).or_insert_with(…)`
abbrev pub buffer_for : ℕ → Option ReassemblyBuffer → ReassemblyBuffer
buffer_for total none = record { total = total; fragments = []; data_len = 0 }
buffer_for total (some buf) = buf

abbrev behind : Bytes → Result TransportError Bytes → Result TransportError Bytes
behind chunk (ok rest) = ok (chunk ++ rest)
behind chunk (err e) = err e
behind chunk panic = panic

-- One round: the fragment at the index, before what the later rounds return.
abbrev take_out :
    ℕ
    → List (ℕ × Bytes)
    → Option Bytes
    → Result TransportError Bytes × List (ℕ × Bytes)
    → Result TransportError Bytes × List (ℕ × Bytes)
take_out i fragments none (rest, left) = (err (resource_segment_order i (2 ^ 32 - 1)), fragments)
take_out i fragments (some chunk) (rest, left) = (behind chunk rest, left)

-- The loop that takes the fragments out, with the rounds left and the index; what is left stays.
unfoldable pub assemble : ℕ → ℕ → List (ℕ × Bytes) → Result TransportError Bytes × List (ℕ × Bytes)
assemble zero i fragments = (ok [], fragments)
assemble (suc rounds) i fragments =
    take_out i fragments (get i fragments) (assemble rounds (i + 1) (remove i fragments))

-- The buffer is dropped once its message is whole, and stays if a fragment was missing.
unfoldable pub close :
    PacketTransport
    → ℕ
    → ReassemblyBuffer
    → Result TransportError Bytes
    → Result TransportError (Option Bytes) × PacketTransport
close t id buf (ok message) = (ok (some message), record t { reassembly = remove id t.reassembly })
close t id buf (err e) = (err e, record t { reassembly = insert id buf t.reassembly })
close t id buf panic = (panic, record t { reassembly = insert id buf t.reassembly })

unfoldable pub check_complete :
    PacketTransport → ℕ → ReassemblyBuffer → Result TransportError (Option Bytes) × PacketTransport
unfolding assemble close
check_complete t id buf =
    if length buf.fragments == buf.total
    then (let (message, left) = assemble buf.total 0 buf.fragments in
        close t id (record buf { fragments = left }) message)
    else (ok none, record t { reassembly = insert id buf t.reassembly })

unfoldable pub gather :
    PacketTransport → Fragment → Result TransportError (Option Bytes) × PacketTransport
unfolding check_complete
gather t f =
    let buf = buffer_for f.total (get f.id t.reassembly) in
    if not (buf.total == f.total)
    then (err (other fragment_total_mismatch), t)
    else check_complete t f.id (record buf {
      fragments = insert f.index f.chunk buf.fragments;
      data_len = buf.data_len + length f.chunk;
    })

unfoldable pub gather_if :
    PacketTransport
    → Result TransportError Fragment
    → Result TransportError (Option Bytes) × PacketTransport
unfolding gather
gather_if t (ok f) = gather t f
gather_if t (err e) = (err e, t)
gather_if t panic = (panic, t)

unfoldable pub recv_packet :
    PacketTransport → Packet → Result TransportError (Option Bytes) × PacketTransport
unfolding gather_if read_fragment
recv_packet t packet =
    if packet.context == context_resource
    then gather_if t (read_fragment packet.payload)
    else (ok (some packet.payload), record t { inbound = t.inbound ++ packet ∷ [] })

unfoldable pub messages_of : List Packet → List Bytes
messages_of [] = []
messages_of (packet ∷ packets) = packet.payload ∷ messages_of packets

unfoldable pub drain : PacketTransport → List Bytes × PacketTransport
unfolding messages_of
drain t = (messages_of t.inbound, record t { inbound = [] })

unfoldable pub clear : PacketTransport → PacketTransport
clear t = record t { inbound = []; outbound = []; reassembly = [] }

-- ===== src/Packet/Tests.antt =====
-- Tests of the packet format, and its theorems at concrete packets.
use rsticulum.Prelude.{
  ◌≡◌, ◌≤◌, ◌<◌, refl, arith, some, [], ◌∷◌, ◌++◌, replicate, Bytes, ok, err, index, slice,
  slice_from,
}
use rsticulum.Identity.RnsAddress.{RnsAddress}
use rsticulum.Packet.{
  Packet, PacketError, pack_flags, unpack_flags, flags_of, to_bytes, from_bytes, header_2,
}
use rsticulum.Packet.Codec.{IsValid, from_bytes-to_bytes}
use rsticulum.Packet.Parsing.{header_size, from_bytes_total, to_bytes-from_bytes}

-- HEADER_1, FLAG_SET, BROADCAST, SINGLE, ANNOUNCE, as in the source's own test.
announce_flags : pack_flags 0 1 0 0 1 ≡ 0x21
unfolding pack_flags
announce_flags = refl

header_2_flags : pack_flags 1 0 1 0 0 ≡ 0x50
unfolding pack_flags
header_2_flags = refl

abbrev address : RnsAddress
address = record { bytes = replicate 16 7 }

abbrev relayed : Packet
relayed = record {
  header_type = header_2;
  context_flag = 0;
  transport_type = 1;
  destination_type = 0;
  packet_type = 0;
  hops = 64;
  destination_hash = replicate 16 7;
  transport_id = some (replicate 16 9);
  context = 0;
  payload = 1 ∷ 2 ∷ 3 ∷ [];
}

abbrev relayed_bytes : Bytes
relayed_bytes = 0x50 ∷ 64 ∷ (replicate 16 9 ++ (replicate 16 7 ++ (0 ∷ 1 ∷ 2 ∷ 3 ∷ [])))

to_bytes-relayed : to_bytes relayed ≡ relayed_bytes
unfolding to_bytes flags_of pack_flags
to_bytes-relayed = refl

parse-relayed : from_bytes relayed_bytes ≡ ok relayed
unfolding from_bytes unpack_flags index slice slice_from
parse-relayed = refl

relayed-IsValid : IsValid relayed
relayed-IsValid = record {
  header_type_fits = omega arith;
  context_flag_fits = omega arith;
  transport_type_fits = omega arith;
  destination_type_fits = omega arith;
  packet_type_fits = omega arith;
  destination_length = refl;
  transport = (refl, refl);
}

from_bytes-to_bytes_example : from_bytes (to_bytes relayed) ≡ ok relayed
from_bytes-to_bytes_example = from_bytes-to_bytes relayed relayed-IsValid

to_bytes-from_bytes_example : (to_bytes relayed ≡ relayed_bytes) × IsValid relayed
to_bytes-from_bytes_example = to_bytes-from_bytes relayed_bytes relayed (omega arith) parse-relayed

abbrev short : Bytes
short = 0x21 ∷ 1 ∷ 5 ∷ []

from_bytes_total_example :
    (header_size short ≤ 3 → (p : Packet) × (from_bytes short ≡ ok p))
    × (3 < header_size short → (e : PacketError) × (from_bytes short ≡ err e))
from_bytes_total_example = from_bytes_total short (omega arith)

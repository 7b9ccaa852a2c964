-- ===== src/Transport/Suspendable/Messages.antt =====
-- crates/transport/src/suspendable.rs: send, replay_held, deliver and recv.
use rsticulum.Prelude.{
  Bool, false, not, Option, none, some, List, [], ◌∷◌, ◌++◌, Bytes, length, ltb, if◌then◌else◌,
  same, Result, ok, err, panic,
}
use rsticulum.Packet.{
  Packet, header_2, flag_unset, transport_unicast, dest_link, data_packet, max_hops, context_none,
}
use rsticulum.Transport.Error.{
  TransportError, link_not_established, invalid_chunk_size, other, encryption,
  transport_id_mismatch, decryption,
}
use rsticulum.Transport.Signer.{Signer}
use rsticulum.Transport.Suspendable.{
  SuspendableLink, SuspendableState, closed, handshaking, active, suspended, is_active,
}

module _ (s : Signer) where
  abbrev Link : Type 0
  Link = SuspendableLink s.Keys

  unfoldable pub data_packet_of : Link → Bytes → Packet
  data_packet_of l payload = record {
    header_type = header_2;
    context_flag = flag_unset;
    transport_type = transport_unicast;
    destination_type = dest_link;
    packet_type = data_packet;
    hops = max_hops;
    destination_hash = l.remote_rns.bytes;
    transport_id = some l.transport_id;
    context = context_none;
    payload = payload;
  }

  unfoldable pub send_sealed : Link → Option Bytes → Result TransportError (Option Packet)
  unfolding data_packet_of
  send_sealed l none = err (other encryption)
  send_sealed l (some payload) =
      if ltb l.config.mtu (length payload)
      then err (invalid_chunk_size (length payload))
      else ok (some (data_packet_of l payload))

  unfoldable pub seal : Link → Bytes → Option Bytes
  seal l text = s.encrypt_for l.local l.remote_encryption_key l.remote_rns.bytes text

  unfoldable pub send_in :
      SuspendableState → Link → Bytes → Result TransportError (Option Packet) × Link
  unfolding send_sealed seal
  send_in active l text = (send_sealed l (seal l text), l)
  send_in closed l text = (err link_not_established, l)
  send_in suspended l text = (ok none, record l { held_outbound = l.held_outbound ++ text ∷ [] })
  send_in handshaking l text = (ok none, record l { held_outbound = l.held_outbound ++ text ∷ [] })

  abbrev pub send : Link → Bytes → Result TransportError (Option Packet) × Link
  send l = send_in l.state l

  abbrev with_packet : Option Packet → List Packet → List Packet
  with_packet none packets = packets
  with_packet (some p) packets = p ∷ packets

  unfoldable pub add_packet :
      Option Packet
      → Result TransportError (List Packet) × Link
      → Result TransportError (List Packet) × Link
  add_packet sent (ok packets, l) = (ok (with_packet sent packets), l)
  add_packet sent (err e, l) = (err e, l)
  add_packet sent (panic, l) = (panic, l)

  -- An error returns at once, without the packets made so far.
  unfoldable pub after_send :
      Result TransportError (Option Packet) × Link
      → Result TransportError (List Packet) × Link
      → Result TransportError (List Packet) × Link
  unfolding add_packet
  after_send (ok sent, l) rest = add_packet sent rest
  after_send (err e, l) rest = (err e, l)
  after_send (panic, l) rest = (panic, l)

  -- The loop over what was held.
  unfoldable pub send_each : Link → List Bytes → Result TransportError (List Packet) × Link
  unfolding after_send
  send_each l [] = (ok [], l)
  send_each l (text ∷ texts) = after_send (send l text) (send_each (send l text).1 texts)

  unfoldable pub replay_held : Link → Result TransportError (List Packet) × Link
  unfolding send_each
  replay_held l =
      if not (is_active l.state)
      then (err link_not_established, l)
      else send_each (record l { held_outbound = [] }) l.held_outbound

  abbrev same_transport : Option Bytes → Bytes → Bool
  same_transport none id = false
  same_transport (some tid) id = same tid id

  unfoldable pub keep_opened : Option Bytes → Link → Result TransportError (Unit {0}) × Link
  keep_opened none l = (err (other decryption), l)
  keep_opened (some text) l = (ok tt, record l { inbound = l.inbound ++ text ∷ [] })

  unfoldable pub deliver : Link → Packet → Result TransportError (Unit {0}) × Link
  unfolding keep_opened
  deliver l packet =
      if not (is_active l.state)
      then (err link_not_established, l)
      else if not (same_transport packet.transport_id l.transport_id)
      then (err (other transport_id_mismatch), l)
      else keep_opened (s.decrypt_from l.local packet.payload) l

  unfoldable pub recv_from : List Bytes → Link → Option Bytes × Link
  recv_from [] l = (none, l)
  recv_from (text ∷ rest) l = (some text, record l { inbound = rest })

  unfoldable pub recv : Link → Option Bytes × Link
  unfolding recv_from
  recv l = recv_from l.inbound l

-- ===== src/Transport/Link/Messages.antt =====
-- The messages of a link: `send`, `deliver` and `recv`.
use rsticulum.Prelude.{
  ℕ, Bool, false, not, Option, none, some, List, [], ◌∷◌, ◌++◌, Bytes, length, ltb, if◌then◌else◌,
  same, Result, ok, err, panic, map_err,
}
use rsticulum.Packet.{
  Packet, header_2, flag_unset, transport_unicast, dest_link, data_packet, max_hops, context_none,
}
use rsticulum.Crypto.Cipher.{Cipher}
use rsticulum.Transport.Error.{
  TransportError, link_not_established, invalid_chunk_size, other, encryption,
  transport_id_mismatch, decryption,
}
use rsticulum.Transport.Signer.{Signer}
use rsticulum.Transport.LinkData.{encrypt_link_data, decrypt_link_data}
use rsticulum.Transport.Link.{Link, is_established}

module _ {K : Type 0} where
  recv_from : List Bytes → Link K → Option Bytes × Link K
  recv_from [] l = (none, l)
  recv_from (x ∷ rest) l = (some x, record l { inbound = rest })

  unfoldable pub recv : Link K → Option Bytes × Link K
  unfolding recv_from
  recv l = recv_from l.inbound l

module _ (c : Cipher) (s : Signer) where
  -- `.map_err(|e| TransportError::Other(…))?` on the result of `encrypt_for` and `decrypt_from`
  or_other : Option Bytes → TransportError → Result TransportError Bytes
  or_other none e = err e
  or_other (some bs) e = ok bs

  -- The payload of `send`: under the shared key, else to the peer's key, else in the clear.
  seal_payload : Option Bytes → Option Bytes → Link s.Keys → Bytes → Result TransportError Bytes
  unfolding or_other
  seal_payload (some key) _ l text = encrypt_link_data c text key l.link_id
  seal_payload none (some remote_key) l text =
      or_other (s.encrypt_for l.local_keys remote_key l.remote.bytes text) (other encryption)
  seal_payload none none l text = ok text

  unseal_payload : Option Bytes → Option Bytes → Link s.Keys → Bytes → Result TransportError Bytes
  unfolding or_other
  unseal_payload (some key) _ l payload =
      map_err (λ _. other decryption) (decrypt_link_data c payload key l.link_id)
  unseal_payload none (some _) l payload =
      or_other (s.decrypt_from l.local_keys payload) (other decryption)
  unseal_payload none none l payload = ok payload

  unfoldable pub data_packet_of : Link s.Keys → Bytes → Packet
  data_packet_of l payload = record {
    header_type = header_2;
    context_flag = flag_unset;
    transport_type = transport_unicast;
    destination_type = dest_link;
    packet_type = data_packet;
    hops = max_hops;
    destination_hash = l.remote.bytes;
    transport_id = some l.transport_id;
    context = context_none;
    payload = payload;
  }

  -- From the sealed payload on; an error leaves the link as it was.
  send_sealed :
      Link s.Keys → ℕ → Result TransportError Bytes → Result TransportError Packet × Link s.Keys
  unfolding data_packet_of
  send_sealed l now (ok payload) =
      if ltb l.config.mtu (length payload)
      then (err (invalid_chunk_size (length payload)), l)
      else (
        ok (data_packet_of l payload),
        record l { outbound = l.outbound ++ data_packet_of l payload ∷ []; last_outbound = now },
      )
  send_sealed l now (err e) = (err e, l)
  send_sealed l now panic = (panic, l)

  unfoldable pub send : Link s.Keys → Bytes → ℕ → Result TransportError Packet × Link s.Keys
  unfolding send_sealed seal_payload
  send l text now =
      if not (is_established l.state)
      then (err link_not_established, l)
      else send_sealed l now (seal_payload l.shared_key l.remote_encryption_key l text)

  -- `packet.transport_id != Some(self.transport_id)`
  abbrev same_transport : Option Bytes → Bytes → Bool
  same_transport none id = false
  same_transport (some tid) id = same tid id

  deliver_unsealed :
      Link s.Keys → ℕ → Result TransportError Bytes → Result TransportError (Unit {0}) × Link s.Keys
  deliver_unsealed l now (ok text) =
      (ok tt, record l { inbound = l.inbound ++ text ∷ []; last_inbound = now })
  deliver_unsealed l now (err e) = (err e, l)
  deliver_unsealed l now panic = (panic, l)

  unfoldable pub deliver : Link s.Keys → Packet → ℕ → Result TransportError (Unit {0}) × Link s.Keys
  unfolding deliver_unsealed unseal_payload
  deliver l packet now =
      if not (is_established l.state)
      then (err link_not_established, l)
      else if not (same_transport packet.transport_id l.transport_id)
      then (err (other transport_id_mismatch), l)
      else deliver_unsealed l now
          (unseal_payload l.shared_key l.remote_encryption_key l packet.payload)

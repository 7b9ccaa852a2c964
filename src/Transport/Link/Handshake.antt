-- ===== src/Transport/Link/Handshake.antt =====
-- The handshake of a link: `establish`, `complete_handshake` and `handle_incoming_proof`.
use rsticulum.Prelude.{ℕ, Option, none, some, Bytes, Result, ok, err, panic, map_err, ◌>>=◌}
use rsticulum.Packet.{Packet, header_2, flag_set, transport_unicast, dest_link, proof, max_hops}
use rsticulum.Transport.Error.{
  TransportError, link_not_established, link_already_established, proof_error,
  signature_verification,
}
use rsticulum.Transport.Signer.{Signer}
use rsticulum.Transport.Proof.{Proof, generate_proof, verify_proof, verify_proof_with_public_key}
use rsticulum.Transport.Proof as ProofModule
use rsticulum.Transport.Link.{Link, LinkState, closed, handshaking, established}

-- `LINKPROOF` and `LRPROOF` of crates/packet
abbrev pub linkproof : ℕ
linkproof = 0xFD

abbrev pub lrproof : ℕ
lrproof = 0xFF

-- The packet that carries a proof of the local keys.
unfoldable pub proof_packet : {K : Type 0} → Link K → ℕ → Bytes → Packet
proof_packet l context proof_bytes = record {
  header_type = header_2;
  context_flag = flag_set;
  transport_type = transport_unicast;
  destination_type = dest_link;
  packet_type = proof;
  hops = max_hops;
  destination_hash = l.remote.bytes;
  transport_id = some l.transport_id;
  context = context;
  payload = proof_bytes;
}

module _ (s : Signer) where
  unfoldable pub own_proof : Link s.Keys → Bytes
  own_proof l = ProofModule.to_bytes (generate_proof s l.local_keys l.transport_id)

  unfoldable pub establish_in : LinkState → Link s.Keys → Result TransportError Packet × Link s.Keys
  unfolding own_proof proof_packet
  establish_in closed l =
      (ok (proof_packet l linkproof (own_proof l)), record l { state = handshaking })
  establish_in _ l = (err link_already_established, l)

  abbrev pub establish : Link s.Keys → Result TransportError Packet × Link s.Keys
  establish l = establish_in l.state l

  -- The key that a proof is checked under: the peer's, or else the local one.
  unfoldable pub check_proof : Option Bytes → Link s.Keys → Bytes → Result TransportError (Unit {0})
  check_proof (some remote_key) l proof_bytes = do
    p ← map_err (λ _. proof_error) (ProofModule.from_bytes proof_bytes)
    map_err (λ _. signature_verification)
        (verify_proof_with_public_key s remote_key l.transport_id p)
  check_proof none l proof_bytes = do
    p ← map_err (λ _. proof_error) (ProofModule.from_bytes proof_bytes)
    map_err (λ _. signature_verification) (verify_proof s l.local_keys l.transport_id p)

  -- The state is set only if nothing failed before.
  unfoldable pub establish_if {ℓ} :
      {A : Type ℓ} → Result TransportError A → Link s.Keys → Result TransportError A × Link s.Keys
  establish_if (ok a) l = (ok a, record l { state = established })
  establish_if (err e) l = (err e, l)
  establish_if panic l = (panic, l)

  unfoldable pub complete_handshake_in :
      LinkState → Link s.Keys → Bytes → Result TransportError (Unit {0}) × Link s.Keys
  unfolding establish_if
  complete_handshake_in handshaking l proof_bytes =
      establish_if (check_proof l.remote_signing_key l proof_bytes) l
  complete_handshake_in closed l proof_bytes = (err link_not_established, l)
  complete_handshake_in established l proof_bytes = (err link_already_established, l)

  abbrev pub complete_handshake :
      Link s.Keys → Bytes → Result TransportError (Unit {0}) × Link s.Keys
  complete_handshake l = complete_handshake_in l.state l

  unfoldable pub handle_incoming_proof_in :
      LinkState → Link s.Keys → s.Keys → Bytes → Result TransportError Packet × Link s.Keys
  unfolding establish_if own_proof proof_packet
  handle_incoming_proof_in established l remote_keys proof_bytes = (err link_already_established, l)
  handle_incoming_proof_in _ l remote_keys proof_bytes =
      establish_if
        (do
          p ← map_err (λ _. proof_error) (ProofModule.from_bytes proof_bytes)
          verified ←
              map_err (λ _. signature_verification) (verify_proof s remote_keys l.transport_id p)
          ok (proof_packet l lrproof (own_proof l)))
        l

  abbrev pub handle_incoming_proof :
      Link s.Keys → s.Keys → Bytes → Result TransportError Packet × Link s.Keys
  handle_incoming_proof l = handle_incoming_proof_in l.state l

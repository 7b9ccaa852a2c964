-- ===== src/Transport/Tests.antt =====
-- The theorems on proofs and links at a concrete signer, cipher and pair of links.
use rsticulum.Prelude.{◌≤◌, ◌≡◌, refl, arith, true, [], ◌∷◌, Bytes, length, replicate, ok}
use rsticulum.Identity.RnsAddress.{RnsAddress}
use rsticulum.Crypto.Cipher as CipherModule
use rsticulum.Transport.Signer.{toy, toy-IsSigner}
use rsticulum.Transport.Proof as ProofModule
use rsticulum.Transport.Proof.{
  Proof, generate_proof, verify_proof, verify_proof_with_public_key, verify_proof_iff,
  from_bytes-to_bytes_proof, verify_proof-generate_proof,
}
use rsticulum.Transport.Link.{
  Link, handshaking, established, new, with_config, set_shared_key, set_state,
  set_remote_signing_key,
}
use rsticulum.Transport.Link.Handshake.{
  establish, complete_handshake, handle_incoming_proof, own_proof, proof_packet, linkproof, lrproof,
}
use rsticulum.Transport.Link.Agreement.{
  derive_transport_id_comm, complete_handshake_authentic, handshake_lem,
}
use rsticulum.Transport.Link.Delivery.{IsPaired, sealed_size, exchange, drain, drain-exchange}

abbrev alice : RnsAddress
alice = record { bytes = replicate 16 7 }

abbrev bob : RnsAddress
bob = record { bytes = replicate 16 9 }

abbrev alice_link : Link Bytes
alice_link = set_shared_key (set_state (new alice (1 ∷ []) bob 5) established) (replicate 64 4)

abbrev bob_link : Link Bytes
bob_link = set_shared_key (set_state (new bob (2 ∷ []) alice 6) established) (replicate 64 4)

alice_bob-IsPaired : IsPaired (replicate 64 4) alice_link bob_link
unfolding set_shared_key set_state new
alice_bob-IsPaired = record {
  sender_established = refl;
  receiver_established = refl;
  sender_key = refl;
  receiver_key = refl;
  same_link = refl;
  same_path = derive_transport_id_comm alice bob;
}

abbrev hello : Bytes
hello = b'h' ∷ b'i' ∷ []

hello_fits : sealed_size (length hello) ≤ alice_link.config.mtu
unfolding set_shared_key set_state new with_config
hello_fits = omega arith

drain-exchange_example :
    drain CipherModule.toy CipherModule.toy-IsCipher toy 2
      (exchange CipherModule.toy CipherModule.toy-IsCipher toy alice_link bob_link
        (hello ∷ hello ∷ [])
        8).1
    ≡ hello ∷ hello ∷ []
drain-exchange_example =
    drain-exchange CipherModule.toy CipherModule.toy-IsCipher toy alice_link bob_link
      (replicate 64 4) (hello ∷ hello ∷ []) 8 alice_bob-IsPaired
      (unfold set_shared_key set_state new with_config in refl) (hello_fits, (hello_fits, tt))

abbrev stranger : Link Bytes
stranger = new alice (1 ∷ []) bob 5

abbrev peer : Link Bytes
peer = new bob (2 ∷ []) alice 6

handshake_lem_example :
    (establish toy stranger ≡ (
      ok (proof_packet stranger linkproof (own_proof toy stranger)),
      record stranger { state = handshaking },
    ))
    × (handle_incoming_proof toy peer stranger.local_keys
          (proof_packet stranger linkproof (own_proof toy stranger)).payload
        ≡ (
          ok (proof_packet peer lrproof (own_proof toy peer)),
          record peer { state = established },
        ))
    × (complete_handshake toy
          (set_remote_signing_key
            (record stranger { state = handshaking })
            (toy.identity_key peer.local_keys))
          (proof_packet peer lrproof (own_proof toy peer)).payload
        ≡ (
          ok tt,
          set_remote_signing_key
              (record stranger { state = established })
              (toy.identity_key peer.local_keys),
        ))
handshake_lem_example =
    handshake_lem toy toy-IsSigner alice bob (1 ∷ []) (2 ∷ []) 5 6 stranger peer refl refl

abbrev known : Link Bytes
known = set_remote_signing_key (record stranger { state = handshaking }) (2 ∷ [])

abbrev agreed : Link Bytes
agreed = set_remote_signing_key (record stranger { state = established }) (2 ∷ [])

complete_handshake_authentic_example :
    (known.state ≡ handshaking)
    × (agreed ≡ record known { state = established })
    × ((p : Proof) × (ProofModule.from_bytes (own_proof toy peer) ≡ ok p)
        × (p.packet_hash ≡ toy.sha256 known.transport_id)
        × (toy.verify_strict (2 ∷ []) known.transport_id p.signature ≡ true))
unfolding new with_config set_remote_signing_key proof_packet
complete_handshake_authentic_example =
    complete_handshake_authentic toy known agreed (2 ∷ []) (own_proof toy peer) refl
      handshake_lem_example.2

abbrev some_proof : Proof
some_proof = generate_proof toy (1 ∷ []) hello

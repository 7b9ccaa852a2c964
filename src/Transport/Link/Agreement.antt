-- ===== src/Transport/Link/Agreement.antt =====
-- What the handshake of a link establishes, and what it does not.
use rsticulum.Prelude.{
  ℕ, ◌≡◌, refl, sym, ◌∙◌, ap, ap₂, true, none, some, [], ◌∷◌, Bytes, Result, ok, err, panic, ok≢err,
  map_err, ◌>>=◌, bit_xor_comm,
}
use rsticulum.Identity.RnsAddress.{RnsAddress}
use rsticulum.Transport.Error.{TransportError, proof_error, signature_verification}
use rsticulum.Transport.Signer.{Signer, IsSigner}
use rsticulum.Transport.Proof as ProofModule
use rsticulum.Transport.Proof.{
  Proof, generate_proof, verify_proof, verify_proof, verify_proof_with_public_key, verify_proof_iff,
  generate_proof-HasLengths, from_bytes-to_bytes_proof, verify_proof-generate_proof,
}
use rsticulum.Transport.Link.{
  Link, LinkState, closed, handshaking, established, xor_bytes, derive_transport_id, new,
  with_config, set_remote_signing_key,
}
use rsticulum.Transport.Link.Handshake.{
  establish_in, establish, complete_handshake_in, complete_handshake, handle_incoming_proof_in,
  handle_incoming_proof, own_proof, proof_packet, check_proof, establish_if, linkproof, lrproof,
}

xor_bytes_comm : (xs ys : Bytes) → xor_bytes xs ys ≡ xor_bytes ys xs
unfolding xor_bytes
xor_bytes_comm [] [] = refl
xor_bytes_comm [] (y ∷ ys) = refl
xor_bytes_comm (x ∷ xs) [] = refl
xor_bytes_comm (x ∷ xs) (y ∷ ys) = ap₂ ◌∷◌ (bit_xor_comm x y) (xor_bytes_comm xs ys)

-- Both ends of a path derive the same transport id, each from its own side.
pub derive_transport_id_comm :
    (a b : RnsAddress) → derive_transport_id a b ≡ derive_transport_id b a
unfolding derive_transport_id
derive_transport_id_comm a b = xor_bytes_comm a.bytes b.bytes

panic≢ok : ¬ (◌≡◌ {A = Result TransportError (Unit {0})} panic (ok tt))
panic≢ok e = cc

module _ (s : Signer) where
  -- A proof is accepted under a known key exactly if it parses and the key verifies its signature.
  check_proof-some :
      (l : Link s.Keys) (key proof_bytes : Bytes)
      → check_proof s (some key) l proof_bytes ≡ ok tt
      → (p : Proof) × (ProofModule.from_bytes proof_bytes ≡ ok p)
        × (p.packet_hash ≡ s.sha256 l.transport_id)
        × (s.verify_strict key l.transport_id p.signature ≡ true)
  check_proof-some l key proof_bytes e =
      cases (ProofModule.from_bytes proof_bytes) refl (unfold check_proof in e)
    where
      cases :
          (r : Result ProofModule.ProofError Proof)
          → ProofModule.from_bytes proof_bytes ≡ r
          → (map_err {F = TransportError} (λ _. proof_error) r >>= λ p.
              map_err
                (λ _. signature_verification)
                (verify_proof_with_public_key s key l.transport_id p))
            ≡ ok tt
          → (p : Proof) × (ProofModule.from_bytes proof_bytes ≡ ok p)
            × (p.packet_hash ≡ s.sha256 l.transport_id)
            × (s.verify_strict key l.transport_id p.signature ≡ true)
      cases (ok p) h e =
          let v =
            (verify_proof_iff s key l.transport_id p).0
              (accepted (verify_proof_with_public_key s key l.transport_id p) e) in
          (p, h, v.0, v.2)
        where
          accepted :
              (r : Result ProofModule.ProofError (Unit {0}))
              → map_err {F = TransportError} (λ _. signature_verification) r ≡ ok tt
              → r ≡ ok tt
          accepted (ok tt) e = refl
          accepted (err x) e = cc
          accepted panic e = cc
      cases (err x) h e = cc
      cases panic h e = cc

  establish_if-ok :
      (r : Result TransportError (Unit {0})) (l : Link s.Keys) {l' : Link s.Keys}
      → establish_if s r l ≡ (ok tt, l')
      → (r ≡ ok tt) × (l' ≡ record l { state = established })
  unfolding establish_if
  establish_if-ok (ok tt) l e =
      (refl, sym (ap (λ (x : Result TransportError (Unit {0}) × Link s.Keys). x.1) e))
  establish_if-ok (err x) l e =
      absurd (ok≢err (sym (ap (λ (x : Result TransportError (Unit {0}) × Link s.Keys). x.0) e)))
  establish_if-ok panic l e =
      absurd (panic≢ok (ap (λ (x : Result TransportError (Unit {0}) × Link s.Keys). x.0) e))

  complete_handshake_in-ok :
      (state : LinkState) (l : Link s.Keys) (proof_bytes : Bytes) {l' : Link s.Keys}
      → complete_handshake_in s state l proof_bytes ≡ (ok tt, l')
      → (state ≡ handshaking)
        × (check_proof s l.remote_signing_key l proof_bytes ≡ ok tt)
        × (l' ≡ record l { state = established })
  unfolding complete_handshake_in
  complete_handshake_in-ok handshaking l proof_bytes e =
      let d = establish_if-ok (check_proof s l.remote_signing_key l proof_bytes) l e in
      (refl, d.0, d.1)
  complete_handshake_in-ok closed l proof_bytes e = cc
  complete_handshake_in-ok established l proof_bytes e = cc

  -- A link that completes its handshake against a known signing key was handshaking, changes in
  -- nothing but its state, and was given a proof that holds the hash of the link's transport id and
  -- a signature that verifies under that very key over the transport id itself, not over its hash.
  pub complete_handshake_authentic :
      (l l' : Link s.Keys) (key proof_bytes : Bytes)
      → l.remote_signing_key ≡ some key
      → complete_handshake s l proof_bytes ≡ (ok tt, l')
      → (l.state ≡ handshaking)
        × (l' ≡ record l { state = established })
        × ((p : Proof) × (ProofModule.from_bytes proof_bytes ≡ ok p)
            × (p.packet_hash ≡ s.sha256 l.transport_id)
            × (s.verify_strict key l.transport_id p.signature ≡ true))
  complete_handshake_authentic l l' key proof_bytes h e =
      let d = complete_handshake_in-ok l.state l proof_bytes e in
      (d.0, d.2, check_proof-some l key proof_bytes (rw (← h) (d.1)))

  module _ (laws : IsSigner s) where
    verify-generate :
        (keys : s.Keys) (message : Bytes)
        → verify_proof_with_public_key s
            (s.identity_key keys)
            message
            (generate_proof s keys message)
          ≡ ok tt
    verify-generate keys message =
        (verify_proof_iff s (s.identity_key keys) message (generate_proof s keys message)).1 (
          unfold generate_proof in
          (refl, laws.identity_key_point keys, laws.verify_sign keys message))

    -- The two steps of a check, for a proof of the same message by the holder of the key.
    check_generated :
        (keys : s.Keys) (theirs ours : Bytes)
        → theirs ≡ ours
        → (do
          p ←
              map_err {F = TransportError}
                (λ _. proof_error)
                (ProofModule.from_bytes (ProofModule.to_bytes (generate_proof s keys theirs)))
          map_err
              (λ _. signature_verification)
              (verify_proof_with_public_key s (s.identity_key keys) ours p))
          ≡ ok tt
    check_generated keys theirs ours e = rw (
      from_bytes-to_bytes_proof _ (generate_proof-HasLengths s laws keys theirs),
      ← e,
      verify-generate keys theirs,
    )

    -- A link that has no signing key of its peer takes the proof that it sent itself: `verify_proof`
    -- is called with the keys of the local node, and both ends sign the same transport id.
    pub complete_handshake-own_proof :
        (l : Link s.Keys)
        → l.state ≡ closed
        → l.remote_signing_key ≡ none
        → (establish s l
            ≡ (ok (proof_packet l linkproof (own_proof s l)), record l { state = handshaking }))
          × (complete_handshake s
                (record l { state = handshaking })
                (proof_packet l linkproof (own_proof s l)).payload
              ≡ (ok tt, record l { state = established }))
    unfolding establish_in complete_handshake_in check_proof verify_proof proof_packet own_proof
    complete_handshake-own_proof l h k =
        (rw h, rw (k, check_generated l.local_keys l.transport_id l.transport_id refl))

    handle_closed :
        (a b : Link s.Keys)
        → a.transport_id ≡ b.transport_id
        → handle_incoming_proof_in s closed b a.local_keys (own_proof s a)
          ≡ (ok (proof_packet b lrproof (own_proof s b)), record b { state = established })
    unfolding handle_incoming_proof_in verify_proof own_proof
    handle_closed a b e = rw (
      from_bytes-to_bytes_proof _ (generate_proof-HasLengths s laws a.local_keys a.transport_id),
      ← e,
      verify-generate a.local_keys a.transport_id,
    )

    -- The handshake between two closed links with the same transport id.
    handshake_closed :
        (a b : Link s.Keys)
        → a.state ≡ closed
        → b.state ≡ closed
        → a.transport_id ≡ b.transport_id
        → (establish s a
            ≡ (ok (proof_packet a linkproof (own_proof s a)), record a { state = handshaking }))
          × (handle_incoming_proof s b a.local_keys
                (proof_packet a linkproof (own_proof s a)).payload
              ≡ (ok (proof_packet b lrproof (own_proof s b)), record b { state = established }))
          × (complete_handshake s
                (set_remote_signing_key
                  (record a { state = handshaking })
                  (s.identity_key b.local_keys))
                (proof_packet b lrproof (own_proof s b)).payload
              ≡ (
                ok tt,
                set_remote_signing_key
                    (record a { state = established })
                    (s.identity_key b.local_keys),
              ))
    unfolding establish_in handle_incoming_proof_in complete_handshake_in check_proof verify_proof
        proof_packet own_proof set_remote_signing_key
    handshake_closed a b ha hb e = (
      rw ha,
      ap (λ state. handle_incoming_proof_in s state b a.local_keys (own_proof s a)) hb
          ∙ handle_closed a b e,
      rw (check_generated b.local_keys b.transport_id a.transport_id (sym e)),
    )

    -- Two nodes that open a link to each other's address, from whichever side, complete the
    -- handshake: the responder accepts the initiator's proof and answers with its own, which the
    -- initiator accepts once it knows the responder's signing key, and both ends are established.
    pub handshake_lem :
        (a_hash b_hash : RnsAddress) (a_keys b_keys : s.Keys) (now later : ℕ) (a b : Link s.Keys)
        → a ≡ new a_hash a_keys b_hash now
        → b ≡ new b_hash b_keys a_hash later
        → (establish s a
            ≡ (ok (proof_packet a linkproof (own_proof s a)), record a { state = handshaking }))
          × (handle_incoming_proof s b a.local_keys
                (proof_packet a linkproof (own_proof s a)).payload
              ≡ (ok (proof_packet b lrproof (own_proof s b)), record b { state = established }))
          × (complete_handshake s
                (set_remote_signing_key
                  (record a { state = handshaking })
                  (s.identity_key b.local_keys))
                (proof_packet b lrproof (own_proof s b)).payload
              ≡ (
                ok tt,
                set_remote_signing_key
                    (record a { state = established })
                    (s.identity_key b.local_keys),
              ))
    unfolding new with_config
    handshake_lem a_hash b_hash a_keys b_keys now later a b at_a at_b =
        handshake_closed a b (ap (λ (l : Link s.Keys). l.state) at_a)
          (ap (λ (l : Link s.Keys). l.state) at_b)
          (ap (λ (l : Link s.Keys). l.transport_id) at_a
            ∙ derive_transport_id_comm a_hash b_hash
            ∙ sym (ap (λ (l : Link s.Keys). l.transport_id) at_b))

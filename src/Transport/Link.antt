-- ===== src/Transport/Link.antt =====
-- crates/transport/src/link.rs: the state of a link between two nodes and its life cycle; the handshake
-- and the messages are in the modules below. A method returns the link after it beside
-- its result. The clock is an argument; an `f64` is carried as its bit pattern, since no operation
-- here computes with it. `local` is the address and the keys of the local `Destination`.
mod Fields
pub mod Handshake
pub mod Messages
pub mod Agreement
pub mod Delivery
pub mod Carrying
use rsticulum.Prelude.{
  ℕ, ◌+◌, ◌%◌, ◌^◌, Bool, true, false, not, Option, none, some, List, [], ◌∷◌, ◌++◌, Bytes, length,
  ltb, if◌then◌else◌, same, replicate, bit_xor, Result, ok, err, panic, map_err, ◌>>=◌,
}
use rsticulum.Identity.RnsAddress.{RnsAddress}
use rsticulum.Packet.{
  Packet, header_2, flag_set, flag_unset, transport_unicast, dest_link, proof, data_packet,
  max_hops, context_none,
}
use rsticulum.Crypto.Cipher.{Cipher}
use rsticulum.Transport.Error.{
  TransportError, link_not_established, link_already_established, link_closed, proof_error,
  signature_verification, invalid_chunk_size, other, encryption, transport_id_mismatch, decryption,
}
use rsticulum.Transport.Signer.{Signer}
use rsticulum.Transport.Proof.{Proof, generate_proof, verify_proof, verify_proof_with_public_key}
use rsticulum.Transport.Proof as ProofModule
use rsticulum.Transport.LinkData.{encrypt_link_data, decrypt_link_data}

pub record LinkConfig : Type 0 where
  pub mtu : ℕ
  pub max_retries : ℕ
  pub handshake_timeout_ms : ℕ

abbrev pub default_config : LinkConfig
default_config = record { mtu = 500; max_retries = 3; handshake_timeout_ms = 30000 }

pub data LinkState : Type 0 where
  closed handshaking established : LinkState

pub record Link (K : Type 0) : Type 0 where
  pub local_hash : RnsAddress
  pub local_keys : K
  pub remote : RnsAddress
  pub remote_encryption_key : Option Bytes
  pub remote_signing_key : Option Bytes
  pub shared_key : Option Bytes
  pub config : LinkConfig
  pub state : LinkState
  pub transport_id : Bytes
  pub link_id : Bytes
  pub initiator : Bool
  pub inbound : List Bytes
  pub outbound : List Packet
  pub last_inbound : ℕ
  pub last_outbound : ℕ
  pub keepalive_enabled : Bool
  pub rtt : Option ℕ
  pub established_at : ℕ
  pub establishment_cost : Option ℕ
  pub establishment_attempts : ℕ
  pub ratchet_priv : Option Bytes
  pub peer_ratchet_key : Option Bytes
  pub ratchet_sequence : ℕ
  pub ratchet_pending_send : Bool

-- The loop of `derive_transport_id`; both addresses have 16 bytes.
unfoldable pub xor_bytes : Bytes → Bytes → Bytes
xor_bytes [] ys = []
xor_bytes (x ∷ xs) [] = []
xor_bytes (x ∷ xs) (y ∷ ys) = bit_xor x y ∷ xor_bytes xs ys

unfoldable pub derive_transport_id : RnsAddress → RnsAddress → Bytes
unfolding xor_bytes
derive_transport_id local remote = xor_bytes local.bytes remote.bytes

-- `self.state == LinkState::Established`
abbrev pub is_established : LinkState → Bool
is_established established = true
is_established _ = false

module _ {K : Type 0} where
  unfoldable pub with_config : RnsAddress → K → RnsAddress → LinkConfig → ℕ → Link K
  with_config hash keys remote config now = record {
    local_hash = hash;
    local_keys = keys;
    remote = remote;
    remote_encryption_key = none;
    remote_signing_key = none;
    shared_key = none;
    config = config;
    state = closed;
    transport_id = derive_transport_id hash remote;
    link_id = replicate 16 0;
    initiator = false;
    inbound = [];
    outbound = [];
    last_inbound = now;
    last_outbound = now;
    keepalive_enabled = true;
    rtt = none;
    established_at = now;
    establishment_cost = none;
    establishment_attempts = 0;
    ratchet_priv = none;
    peer_ratchet_key = none;
    ratchet_sequence = 0;
    ratchet_pending_send = false;
  }

  unfoldable pub new : RnsAddress → K → RnsAddress → ℕ → Link K
  unfolding with_config
  new hash keys remote now = with_config hash keys remote default_config now

  unfoldable pub set_remote_signing_key : Link K → Bytes → Link K
  set_remote_signing_key l key = record l { remote_signing_key = some key }

  unfoldable pub set_shared_key : Link K → Bytes → Link K
  set_shared_key l key = record l { shared_key = some key }

  unfoldable pub set_link_id : Link K → Bytes → Link K
  set_link_id l id = record l { link_id = id }

  unfoldable pub set_state : Link K → LinkState → Link K
  set_state l state = record l { state = state }

  -- `self.ratchet_sequence.wrapping_add(1)`
  unfoldable pub increment_ratchet_sequence : Link K → ℕ × Link K
  increment_ratchet_sequence l =
      let next = (l.ratchet_sequence + 1) % 2 ^ 32 in (next, record l { ratchet_sequence = next })

  unfoldable pub close_in : LinkState → Link K → Result TransportError (Unit {0}) × Link K
  close_in closed l = (err link_closed, l)
  close_in _ l = (ok tt, record l { state = closed; inbound = []; outbound = [] })

  abbrev pub close : Link K → Result TransportError (Unit {0}) × Link K
  close l = close_in l.state l

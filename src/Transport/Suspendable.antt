-- ===== src/Transport/Suspendable.antt =====
-- crates/transport/src/suspendable.rs: a link that survives a disconnection. The file of a session
-- is the argument `Disk`; the bincode codec, the key derivation of crates/identity and the
-- non-strict signature check are the parameter `Sessions`. The clock is an argument. A method
-- returns the disk and the link after it beside its result.
pub mod Messages
pub mod Replay
pub mod Validity
pub mod States
pub mod Losses
mod Tests
use rsticulum.Prelude.{
  ℕ, ◌+◌, ◌^◌, ◌≡◌, Bool, true, false, not, ◌&&◌, Option, none, some, List, [], ◌∷◌, ◌++◌, Bytes,
  length, take, leb, if◌then◌else◌, same, Result, ok, err, panic, map_err, ◌>>=◌,
}
use rsticulum.Identity.RnsAddress.{RnsAddress}
use rsticulum.Packet.{Packet, header_2, flag_set, transport_unicast, dest_link, proof, max_hops}
use rsticulum.Transport.Error.{
  TransportError, link_not_established, link_already_established, proof_error,
  signature_verification, other, already_suspended, not_suspended, resume_first, session_serialize,
  session_write, session_read, session_deserialize,
}
use rsticulum.Transport.Signer.{Signer}
use rsticulum.Transport.Proof.{Proof, generate_proof}
use rsticulum.Transport.Proof as ProofModule
use rsticulum.Transport.Link.{LinkConfig, default_config, xor_bytes}
use rsticulum.Transport.Link.Handshake.{linkproof}

pub data SuspendableState : Type 0 where
  closed handshaking active suspended : SuspendableState

pub record SuspendedSession : Type 0 where
  pub session_id : Bytes
  pub remote_rns : Bytes
  pub local_rns : Bytes
  pub remote_identity_key : Bytes
  pub remote_encryption_key : Bytes
  pub derived_key_bytes : Bytes
  pub held_messages : List Bytes
  pub suspended_at : ℕ
  pub resume_count : ℕ

-- What the links use of other packages and of `Keys`.
pub record Sessions (s : Signer) : Type 0 where
  pub rns_address : s.Keys → RnsAddress
  -- `DerivedKey::from_static` of the local keys and the remote encryption key
  pub from_static : s.Keys → Bytes → Bytes
  -- `Verifier::verify`, of a key, a message and a signature
  pub verify : Bytes → Bytes → Bytes → Bool
  pub serialize : SuspendedSession → Option Bytes
  pub deserialize : Bytes → Option SuspendedSession

-- The file at the storage path, and whether it can be read and written.
pub record Disk : Type 0 where
  pub file : Option Bytes
  pub readable : Bool
  pub writable : Bool

pub record SuspendableLink (K : Type 0) : Type 0 where
  pub local : K
  pub remote_rns : RnsAddress
  pub remote_identity_key : Bytes
  pub remote_encryption_key : Bytes
  pub session_id : Bytes
  pub derived_key : Option Bytes
  pub transport_id : Bytes
  pub state : SuspendableState
  pub config : LinkConfig
  pub inbound : List Bytes
  pub held_outbound : List Bytes
  pub has_storage : Bool

abbrev pub is_active : SuspendableState → Bool
is_active active = true
is_active _ = false

abbrev bytes_or_empty : Option Bytes → Bytes
bytes_or_empty none = []
bytes_or_empty (some bs) = bs

abbrev is_none : Option Bytes → Bool
is_none none = true
is_none (some bs) = false

abbrev is_empty : Bytes → Bool
is_empty [] = true
is_empty (b ∷ bs) = false

module _ (s : Signer) (t : Sessions s) where
  abbrev pub Link : Type 0
  Link = SuspendableLink s.Keys

  unfoldable pub derive_transport_id : s.Keys → RnsAddress → Bytes
  derive_transport_id local remote = xor_bytes (t.rns_address local).bytes remote.bytes

  unfoldable pub derive_session_id : s.Keys → RnsAddress → Bytes
  derive_session_id local remote = take 16 (s.sha256 ((t.rns_address local).bytes ++ remote.bytes))

  unfoldable pub with_config_and_storage :
      s.Keys → RnsAddress → Bytes → Bytes → LinkConfig → Bool → Link
  with_config_and_storage local remote identity_key encryption_key config has_storage = record {
    local = local;
    remote_rns = remote;
    remote_identity_key = identity_key;
    remote_encryption_key = encryption_key;
    session_id = derive_session_id local remote;
    derived_key = none;
    transport_id = derive_transport_id local remote;
    state = closed;
    config = config;
    inbound = [];
    held_outbound = [];
    has_storage = has_storage;
  }

  unfoldable pub new : s.Keys → RnsAddress → Bytes → Bytes → Link
  unfolding with_config_and_storage
  new local remote identity_key encryption_key =
      with_config_and_storage local remote identity_key encryption_key default_config false

  -- `fs::read`
  unfoldable pub read_file : Disk → Option Bytes
  read_file disk = if disk.readable then disk.file else none

  abbrev pub count_of : Option SuspendedSession → ℕ
  count_of none = 0
  count_of (some session) = session.resume_count

  abbrev parse : Option Bytes → Option SuspendedSession
  parse none = none
  parse (some bs) = t.deserialize bs

  unfoldable pub resume_count : Link → Disk → ℕ
  unfolding read_file
  resume_count l disk = if l.has_storage then count_of (parse (read_file disk)) else 0

  -- The packet with the proof of the local keys.
  unfoldable pub proof_packet : Link → Packet
  proof_packet l = record {
    header_type = header_2;
    context_flag = flag_set;
    transport_type = transport_unicast;
    destination_type = dest_link;
    packet_type = proof;
    hops = max_hops;
    destination_hash = l.remote_rns.bytes;
    transport_id = some l.transport_id;
    context = linkproof;
    payload = ProofModule.to_bytes (generate_proof s l.local l.transport_id);
  }

  unfoldable pub establish_in : SuspendableState → Link → Result TransportError Packet × Link
  unfolding proof_packet
  establish_in active l = (err link_already_established, l)
  establish_in _ l = (ok (proof_packet l), record l { state = handshaking })

  abbrev pub establish : Link → Result TransportError Packet × Link
  establish l = establish_in l.state l

  unfoldable pub verify_proof_external : Bytes → Bytes → Proof → Result TransportError (Unit {0})
  verify_proof_external key message p =
      if not (same (s.sha256 message) p.packet_hash)
      then err proof_error
      else if not (s.is_point key)
      then err signature_verification
      else if t.verify key message p.signature
      then ok tt
      else err signature_verification

  unfoldable pub check_proof : Link → Bytes → Result TransportError (Unit {0})
  unfolding verify_proof_external
  check_proof l bs = do
    p ← map_err (λ _. proof_error) (ProofModule.from_bytes bs)
    map_err (λ _. signature_verification)
        (verify_proof_external l.remote_identity_key l.transport_id p)

  -- With the key derived, if the proof was accepted.
  unfoldable pub activate_if :
      Result TransportError (Unit {0}) → Link → Result TransportError (Unit {0}) × Link
  activate_if (ok _) l = (
    ok tt,
    record l { derived_key = some (t.from_static l.local l.remote_encryption_key); state = active },
  )
  activate_if (err e) l = (err e, l)
  activate_if panic l = (panic, l)

  unfoldable pub complete_handshake_in :
      SuspendableState → Link → Bytes → Result TransportError (Unit {0}) × Link
  unfolding activate_if check_proof
  complete_handshake_in handshaking l bs = activate_if (check_proof l bs) l
  complete_handshake_in closed l bs = (err link_not_established, l)
  complete_handshake_in active l bs = (err link_already_established, l)
  complete_handshake_in suspended l bs = (err (other resume_first), l)

  abbrev pub complete_handshake : Link → Bytes → Result TransportError (Unit {0}) × Link
  complete_handshake l = complete_handshake_in l.state l

  unfoldable pub session_of : Link → Disk → ℕ → SuspendedSession
  session_of l disk now = record {
    session_id = l.session_id;
    remote_rns = l.remote_rns.bytes;
    local_rns = (t.rns_address l.local).bytes;
    remote_identity_key = l.remote_identity_key;
    remote_encryption_key = l.remote_encryption_key;
    derived_key_bytes = bytes_or_empty l.derived_key;
    held_messages = l.held_outbound;
    suspended_at = now;
    resume_count = resume_count l disk + 1;
  }

  -- `fs::write`
  unfoldable pub write_session : Option Bytes → Disk → Result TransportError Disk
  write_session none disk = err (other session_serialize)
  write_session (some bs) disk =
      if disk.writable then ok (record disk { file = some bs }) else err (other session_write)

  -- Once the session was written, or not.
  unfoldable pub suspended_if :
      Result TransportError Disk → Link → Disk → Result TransportError (Unit {0}) × Link × Disk
  suspended_if (ok written) l disk = (ok tt, record l { state = suspended }, written)
  suspended_if (err e) l disk = (err e, l, disk)
  suspended_if panic l disk = (panic, l, disk)

  -- The addition on the `u32` of the file panics if it overflows, before anything is changed.
  unfoldable pub suspend_in :
      SuspendableState → Link → Disk → ℕ → Result TransportError (Unit {0}) × Link × Disk
  unfolding suspended_if write_session session_of
  suspend_in active l disk now =
      if leb (2 ^ 32) (resume_count l disk + 1)
      then (panic, l, disk)
      else suspended_if
          (if l.has_storage
            then write_session (t.serialize (session_of l disk now)) disk
            else ok disk)
          l disk
  suspend_in suspended l disk now = (err (other already_suspended), l, disk)
  suspend_in closed l disk now = (err link_not_established, l, disk)
  suspend_in handshaking l disk now = (err link_not_established, l, disk)

  abbrev pub suspend : Link → Disk → ℕ → Result TransportError (Unit {0}) × Link × Disk
  suspend l = suspend_in l.state l

  unfoldable pub handle_disconnect_in :
      SuspendableState → Link → Disk → ℕ → Result TransportError (Unit {0}) × Link × Disk
  handle_disconnect_in active l disk now = suspend l disk now
  handle_disconnect_in handshaking l disk now = suspend l disk now
  handle_disconnect_in _ l disk now = (ok tt, l, disk)

  abbrev pub handle_disconnect : Link → Disk → ℕ → Result TransportError (Unit {0}) × Link × Disk
  handle_disconnect l = handle_disconnect_in l.state l

  -- With what the file holds; the key is derived again if there is none.
  unfoldable pub restore : Link → SuspendedSession → Link
  restore l session = record l {
    held_outbound = session.held_messages;
    derived_key =
        if is_none l.derived_key && not (is_empty session.derived_key_bytes)
        then some (t.from_static l.local l.remote_encryption_key)
        else l.derived_key;
  }

  unfoldable pub restore_from : Option SuspendedSession → Link → Result TransportError Link
  unfolding restore
  restore_from none l = err (other session_deserialize)
  restore_from (some session) l = ok (restore l session)

  -- `path.exists()`, then `fs::read`.
  unfoldable pub load : Option Bytes → Bool → Link → Result TransportError Link
  unfolding restore_from
  load none readable l = ok l
  load (some bs) readable l =
      if readable then restore_from (t.deserialize bs) l else err (other session_read)

  unfoldable pub handshaking_if :
      Result TransportError Link → Link → Result TransportError (Unit {0}) × Link
  handshaking_if (ok loaded) l = (
    ok tt,
    record loaded {
      transport_id = derive_transport_id loaded.local loaded.remote_rns;
      state = handshaking;
    },
  )
  handshaking_if (err e) l = (err e, l)
  handshaking_if panic l = (panic, l)

  unfoldable pub resume_in :
      SuspendableState → Link → Disk → Result TransportError (Unit {0}) × Link
  unfolding handshaking_if load
  resume_in suspended l disk =
      handshaking_if (if l.has_storage then load disk.file disk.readable l else ok l) l
  resume_in closed l disk = (err (other not_suspended), l)
  resume_in handshaking l disk = (err (other not_suspended), l)
  resume_in active l disk = (err (other not_suspended), l)

  abbrev pub resume : Link → Disk → Result TransportError (Unit {0}) × Link
  resume l = resume_in l.state l

  -- `let _ = fs::remove_file(path)`; a file that cannot be written stays.
  unfoldable pub remove_file : Link → Disk → Disk
  remove_file l disk = if l.has_storage && disk.writable then record disk { file = none } else disk

  unfoldable pub close : Link → Disk → Result TransportError (Unit {0}) × Link × Disk
  unfolding remove_file
  close l disk = (
    ok tt,
    record l { state = closed; inbound = []; held_outbound = []; derived_key = none },
    remove_file l disk,
  )

-- ===== src/Transport/Error.antt =====
-- crates/transport/src/error.rs: the errors that the modelled operations return. A message text is
-- the constructor `Reason` of what was formatted into it.
use rsticulum.Prelude.{ℕ, Bytes}

pub data Reason : Type 0 where
  encryption transport_id_mismatch decryption envelope : Reason
  duplicate_segment checksum_mismatch : ℕ → Reason
  already_suspended not_suspended resume_first : Reason
  fragment_total_mismatch : Reason
  session_serialize session_write session_read session_deserialize : Reason

pub data TransportError : Type 0 where
  link_not_established link_already_established link_closed : TransportError
  proof_error signature_verification : TransportError
  invalid_chunk_size : ℕ → TransportError
  unknown_resource : Bytes → TransportError
  resource_segment_order : ℕ → ℕ → TransportError
  other : Reason → TransportError

-- ===== src/Transport/Link/Fields.antt =====
-- crates/transport/src/link.rs: the builder of a configuration, and the fields of a link that are
-- set one by one.
use rsticulum.Prelude.{
  ℕ, ◌+◌, ◌^◌, ◌≡◌, refl, Bool, true, false, ◌||◌, Option, none, some, Bytes, ltb, if◌then◌else◌,
  Result, ok, panic,
}
use rsticulum.Transport.Error.{TransportError}
use rsticulum.Transport.Link.{Link, LinkConfig, default_config}

record LinkConfigBuilder : Type 0 where
  mtu : Option ℕ
  max_retries : Option ℕ
  handshake_timeout_ms : Option ℕ

builder : LinkConfigBuilder
builder = record { mtu = none; max_retries = none; handshake_timeout_ms = none }

unwrap_or : Option ℕ → ℕ → ℕ
unwrap_or none fallback = fallback
unwrap_or (some n) fallback = n

with_mtu : LinkConfigBuilder → ℕ → LinkConfigBuilder
with_mtu b n = record b { mtu = some n }

with_max_retries : LinkConfigBuilder → ℕ → LinkConfigBuilder
with_max_retries b n = record b { max_retries = some n }

with_handshake_timeout_ms : LinkConfigBuilder → ℕ → LinkConfigBuilder
with_handshake_timeout_ms b n = record b { handshake_timeout_ms = some n }

build : LinkConfigBuilder → LinkConfig
unfolding unwrap_or
build b = record {
  mtu = unwrap_or b.mtu 500;
  max_retries = unwrap_or b.max_retries 3;
  handshake_timeout_ms = unwrap_or b.handshake_timeout_ms 30000;
}

-- A builder with nothing set builds the default configuration.
build-builder : build builder ≡ default_config
unfolding build builder
build-builder = refl

abbrev is_some : Option Bytes → Bool
is_some none = false
is_some (some _) = true

module _ {K : Type 0} where
  set_initiator : Link K → Bool → Link K
  set_initiator l initiator = record l { initiator = initiator }

  set_remote_encryption_key : Link K → Bytes → Link K
  set_remote_encryption_key l key = record l { remote_encryption_key = some key }

  is_encrypted : Link K → Bool
  is_encrypted l = is_some l.remote_encryption_key || is_some l.shared_key

  set_keepalive_enabled : Link K → Bool → Link K
  set_keepalive_enabled l enabled = record l { keepalive_enabled = enabled }

  set_rtt : Link K → Option ℕ → Link K
  set_rtt l rtt = record l { rtt = rtt }

  set_establishment_cost : Link K → Option ℕ → Link K
  set_establishment_cost l cost = record l { establishment_cost = cost }

  -- `self.establishment_attempts += 1` on a `u32`, with overflow checks.
  record_establishment_attempt : Link K → Result TransportError (Link K)
  record_establishment_attempt l =
      if ltb (l.establishment_attempts + 1) (2 ^ 32)
      then ok (record l { establishment_attempts = l.establishment_attempts + 1 })
      else panic

  set_ratchet_priv : Link K → Bytes → Link K
  set_ratchet_priv l key = record l { ratchet_priv = some key }

  set_peer_ratchet_key : Link K → Bytes → Link K
  set_peer_ratchet_key l key = record l { peer_ratchet_key = some key }

  set_ratchet_pending_send : Link K → Bool → Link K
  set_ratchet_pending_send l pending = record l { ratchet_pending_send = pending }

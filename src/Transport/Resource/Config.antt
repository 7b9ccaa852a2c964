-- ===== src/Transport/Resource/Config.antt =====
-- crates/transport/src/resource.rs: the builder of a configuration, and the advertisement of a resource
-- before its wire form, which another package makes.
use rsticulum.Prelude.{ℕ, ◌%◌, ◌^◌, ◌≡◌, refl, Option, none, some, Bytes, length}
use rsticulum.Identity.RnsAddress.{RnsAddress}
use rsticulum.Transport.Resource.{ResourceConfig, Resource, default_config, default_segment_size}

record ResourceConfigBuilder : Type 0 where
  segment_size : Option ℕ
  max_concurrent : Option ℕ

builder : ResourceConfigBuilder
builder = record { segment_size = none; max_concurrent = none }

unwrap_or : Option ℕ → ℕ → ℕ
unwrap_or none fallback = fallback
unwrap_or (some n) fallback = n

with_segment_size : ResourceConfigBuilder → ℕ → ResourceConfigBuilder
with_segment_size b size = record b { segment_size = some size }

with_max_concurrent : ResourceConfigBuilder → ℕ → ResourceConfigBuilder
with_max_concurrent b most = record b { max_concurrent = some most }

build : ResourceConfigBuilder → ResourceConfig
unfolding unwrap_or
build b = record {
  segment_size = unwrap_or b.segment_size default_segment_size;
  max_concurrent = unwrap_or b.max_concurrent 16;
}

-- A builder with nothing set builds the default configuration.
build-builder : build builder ≡ default_config
unfolding build builder
build-builder = refl

record ResourceAdvertisement : Type 0 where
  hash : Bytes
  total_size : ℕ
  segment_count : ℕ
  compression : ℕ
  advertiser : Bytes

advertise : Resource → RnsAddress → ResourceAdvertisement
advertise r advertiser = record {
  hash = r.hash;
  total_size = r.total_size;
  segment_count = length r.segments % 2 ^ 32;
  compression = 0;
  advertiser = advertiser.bytes;
}

-- ===== src/Icn/Data/Tests.antt =====
-- The theorems on data packets at a packet from a cache.
use rsticulum.Prelude.{
  ◌≡◌, refl, arith, none, some, [], ◌∷◌, Bytes, replicate, ok, get, Bytes-discrete,
}
use native.Mathlib.Decide.{ℕ_discrete}
use rsticulum.Transport.Signer.{toy, toy-IsSigner}
use rsticulum.Icn.Name.{Name, first_as_hash}
use rsticulum.Icn.Name.Codec as NameCodec
use rsticulum.Icn.Metadata.{DataMetadata}
use rsticulum.Icn.Data.{Data, stale, from_bytes, to_bytes}
use rsticulum.Icn.Data.Codec.{from_bytes-to_bytes_data}
use rsticulum.Icn.Forwarder.{verify_data}
use rsticulum.Icn.Forwarder.Produced.{published, verify_data-published}

abbrev page : Name
page = record { components = replicate 32 1 ∷ (b'a' ∷ []) ∷ []; content_hash = none }

-- Two seconds and a half old.
abbrev cached : DataMetadata
cached = record {
  content_hash = some (replicate 32 7);
  sequence = some 300;
  freshness = stale 2500000000;
}

abbrev read_again : DataMetadata
read_again = record {
  content_hash = some (replicate 32 7);
  sequence = some 300;
  freshness = stale 2000000000;
}

abbrev signed : DataMetadata → Data
signed metadata = record {
  name = page;
  content = 5 ∷ 6 ∷ [];
  signature = record { packet_hash = replicate 32 3; signature = replicate 64 4 };
  metadata = metadata;
}

page-IsValid : NameCodec.IsValid page
page-IsValid = record {
  nonempty = omega arith;
  few = omega arith;
  short = omega arith;
  hash_fits = tt;
}

from_bytes-to_bytes_data_example : from_bytes (to_bytes (signed cached)) ≡ ok (signed read_again)
from_bytes-to_bytes_data_example = from_bytes-to_bytes_data (signed cached) (record {
  name_valid = page-IsValid;
  content_short = omega arith;
  metadata_valid = record {
    hash_fits = refl;
    sequence_fits = omega arith;
    freshness_fits = omega arith;
  };
  signature_lengths = (refl, refl);
})

abbrev hash_of : Bytes → Bytes
hash_of text = replicate 32 9

verify_data-published_example :
    (from_bytes (to_bytes (published toy toy-IsSigner hash_of (8 ∷ []) page (5 ∷ []) cached))
      ≡ ok (published toy toy-IsSigner hash_of (8 ∷ []) page (5 ∷ []) read_again))
    × (verify_data toy hash_of
          ((replicate 32 1, 8 ∷ []) ∷ [])
          (published toy toy-IsSigner hash_of (8 ∷ []) page (5 ∷ []) read_again)
        ≡ ok tt)
unfolding first_as_hash get Bytes-discrete ℕ_discrete
verify_data-published_example =
    verify_data-published toy toy-IsSigner hash_of (8 ∷ []) page (5 ∷ []) (replicate 32 1) cached
      ((replicate 32 1, 8 ∷ []) ∷ []) page-IsValid (omega arith)
      (record { hash_fits = refl; sequence_fits = omega arith; freshness_fits = omega arith }) refl
      refl

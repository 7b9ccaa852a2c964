-- ===== src/Transport/Suspendable/Tests.antt =====
-- The theorems on suspendable links at a toy signer and a codec of one session.
use rsticulum.Prelude.{
  ◌≤◌, ◌≡◌, refl, arith, true, false, none, some, List, [], ◌∷◌, ◌++◌, Bytes, length, replicate, ok,
  Bytes-discrete, slice, slice_from,
}
use native.Mathlib.Decide.{ℕ_discrete}
use rsticulum.Identity.RnsAddress.{RnsAddress}
use rsticulum.Packet.{Packet}
use rsticulum.Transport.Signer.{toy, toy_signature}
use rsticulum.Transport.Link.{default_config, xor_bytes}
use rsticulum.Transport.Proof as ProofModule
use rsticulum.Transport.Suspendable.{
  active, SuspendedSession, Sessions, Disk, Link, derive_transport_id, with_config_and_storage,
  establish, check_proof,
}
use rsticulum.Transport.Suspendable.Messages.{seal, replay_held}
use rsticulum.Transport.Suspendable.Replay.{Carries, IsPaired, deliver_all}
use rsticulum.Transport.Suspendable.Validity.{IsValid}
use rsticulum.Transport.Suspendable.States.{establishes, here, next, Reach-IsValid}
use rsticulum.Transport.Suspendable.Losses.{away, back, replay_held-back}

abbrev there : RnsAddress
there = record { bytes = replicate 16 9 }

abbrev saved : SuspendedSession
saved = record {
  session_id = replicate 16 3;
  remote_rns = replicate 16 9;
  local_rns = replicate 16 7;
  remote_identity_key = 4 ∷ [];
  remote_encryption_key = 5 ∷ [];
  derived_key_bytes = 6 ∷ [];
  held_messages = (70 ∷ []) ∷ [];
  suspended_at = 100;
  resume_count = 1;
}

abbrev codec : Sessions toy
codec = record {
  rns_address = λ keys. record { bytes = replicate 16 7 };
  from_static = λ keys remote. 6 ∷ [];
  verify = λ key text signature. true;
  serialize = λ session. some (1 ∷ []);
  deserialize = λ bs. some saved;
}

abbrev link : Link toy codec
link = record {
  local = 1 ∷ [];
  remote_rns = there;
  remote_identity_key = 4 ∷ [];
  remote_encryption_key = 5 ∷ [];
  session_id = replicate 16 3;
  derived_key = some (6 ∷ []);
  transport_id = replicate 16 14;
  state = active;
  config = record { mtu = 3; max_retries = 3; handshake_timeout_ms = 30000 };
  inbound = [];
  held_outbound = (70 ∷ []) ∷ [];
  has_storage = false;
}

abbrev peer : Link toy codec
peer = record link { local = 2 ∷ []; held_outbound = [] }

abbrev disk : Disk
disk = record { file = none; readable = true; writable = true }

link_peer-IsPaired : IsPaired toy link peer
link_peer-IsPaired = record { sends = refl; takes = refl; one_transport = refl }

carries : (text : Bytes) → length text ≤ 3 → Carries toy link peer text
unfolding seal
carries text fits = (text, refl, fits, refl)

abbrev proof_bytes : Bytes
proof_bytes = replicate 32 3 ++ toy_signature

proof_accepted : check_proof toy codec link proof_bytes ≡ ok tt
unfolding check_proof ProofModule.from_bytes Bytes-discrete ℕ_discrete slice slice_from
proof_accepted = refl

derived : link.transport_id ≡ derive_transport_id toy codec link.local link.remote_rns
unfolding derive_transport_id xor_bytes
derived = refl

replay_held-back_example :
    (ps : List Packet) × ((replay_held toy
        (back toy codec (away toy codec link disk 100 ((71 ∷ []) ∷ [])) disk proof_bytes)).0
      ≡ ok ps)
    × ((deliver_all toy peer ps).inbound ≡ (70 ∷ []) ∷ (71 ∷ []) ∷ [])
replay_held-back_example =
    replay_held-back toy codec link peer disk disk 100 ((71 ∷ []) ∷ []) proof_bytes
      link_peer-IsPaired refl derived proof_accepted
      (carries (70 ∷ []) (omega arith), (carries (71 ∷ []) (omega arith), tt))

abbrev stored : Link toy codec
stored = record link { has_storage = true }

abbrev long : Bytes
long = 1 ∷ 2 ∷ 3 ∷ 4 ∷ []

abbrev loaded : Link toy codec
loaded = record link { held_outbound = (70 ∷ []) ∷ long ∷ (71 ∷ []) ∷ [] }

abbrev fresh_link : Link toy codec
fresh_link = with_config_and_storage toy codec (1 ∷ []) there (4 ∷ []) (5 ∷ []) default_config true

Reach-IsValid_example : IsValid toy codec (establish toy codec fresh_link).1
Reach-IsValid_example =
    Reach-IsValid toy codec (1 ∷ []) there (4 ∷ []) (5 ∷ []) default_config true disk disk
      (establish toy codec fresh_link).1 (next here (establishes refl refl))

-- ===== src/Icn/Forwarder.antt =====
-- crates/icn/src/forwarder.rs: the forwarder over the tables. The clock is an argument; what the faces
-- answer is the environment `World`. A call holds the forwarder while it waits, so nothing else
-- changes the state meanwhile. A strategy is a function: the forwarder never records a success or
-- a failure with it, since its access to the best-route strategy returns nothing.
pub mod Pipeline
pub mod Settled
pub mod Completion
pub mod Verified
pub mod Runs
pub mod Routes
pub mod Produced
mod Tests
use rsticulum.Prelude.{
  ℕ, ◌+◌, ◌*◌, ◌≡◌, max, Bool, true, false, Option, none, some, List, [], ◌∷◌, ◌++◌, Bytes,
  replicate, if◌then◌else◌, Result, ok, err, panic, map_err, ◌>>=◌, get, insert, remove,
  number_keys, bytes_keys,
}
use rsticulum.Transport.Signer.{Signer}
use rsticulum.Transport.Proof.{ProofError, verify_proof}
use rsticulum.Icn.Name.{Name, NameError, producer_hash}
use rsticulum.Icn.Name as NameModule
use rsticulum.Icn.Fib.{Fib, Route, insert_route, remove_face}
use rsticulum.Icn.Pit.{Pit, PitEntry, name_keys, satisfy, purge_expired}
use rsticulum.Icn.Pit as PitModule
use rsticulum.Icn.Interest.{Interest}
use rsticulum.Icn.Data.{Data, signed_hash}
use rsticulum.Icn.Strategy.{StrategyDecision, second}
use rsticulum.Icn.ContentStore.{ContentStore, Lru, insert_data}
use rsticulum.Icn.ContentStore as ContentStoreModule

-- What a text says that an operation fails with.
pub data ForwardError : Type 0 where
  loop_detected face_not_found : ForwardError
  unknown_producer : Bytes → ForwardError
  proof_rejected : ProofError → ForwardError
  verification_failed : ForwardError → ForwardError
  face_failed : Bytes → ForwardError

abbrev pub InterestResult : Type 0
InterestResult = Result ForwardError (Option Data)

-- Of a face, its capabilities.
pub record Face : Type 0 where
  pub id : ℕ
  pub disruption_tolerance : ℕ
  pub mtu : ℕ
  pub is_local : Bool

-- The senders that wait by name, and what the channels were sent so far; `fresh` is the next channel.
pub record PitNotifier : Type 0 where
  pub waiters : List (Name × List ℕ)
  pub fresh : ℕ
  pub sent : List (ℕ × InterestResult)

unfoldable pub new_notifier : PitNotifier
new_notifier = record { waiters = []; fresh = 0; sent = [] }

abbrev pub waiting_for : Option (List ℕ) → List ℕ
waiting_for none = []
waiting_for (some senders) = senders

unfoldable pub register : PitNotifier → Name → ℕ × PitNotifier
register n name = (
  n.fresh,
  record n {
    waiters = insert name (waiting_for (get name n.waiters) ++ n.fresh ∷ []) n.waiters;
    fresh = n.fresh + 1;
  },
)

unfoldable pub send_all : List ℕ → InterestResult → List (ℕ × InterestResult)
send_all [] result = []
send_all (tx ∷ txs) result = (tx, result) ∷ send_all txs result

unfoldable pub notify : PitNotifier → Name → InterestResult → PitNotifier
unfolding send_all
notify n name result = record n {
  waiters = remove name n.waiters;
  sent = n.sent ++ send_all (waiting_for (get name n.waiters)) result;
}

-- An interest, the faces of the forwarding table, what is pending, what is cached, and the time.
abbrev pub Strategy : Type 0
Strategy = Interest → List Route → Option (PitEntry Interest) → Option Data → ℕ → StrategyDecision

pub record Forwarder (lru : Lru) (K : Type 0) : Type 0 where
  pub cs : ContentStore lru
  pub fib : Fib
  pub pit : Pit Interest
  pub strategy : Strategy
  pub faces : List (ℕ × Face)
  pub notifier : PitNotifier
  pub key_store : List (Bytes × K)

-- `producer_hash` panics or returns.
abbrev pub expected : Result NameError Bytes → Result ForwardError Bytes
expected (ok hash) = ok hash
expected (err e) = panic
expected panic = panic

abbrev pub or_unknown {ℓ} : {K : Type ℓ} → Bytes → Option K → Result ForwardError K
or_unknown hash none = err (unknown_producer hash)
or_unknown hash (some keys) = ok keys

module _ {lru : Lru} {K : Type 0} where
  unfoldable pub with_strategy : Strategy → Forwarder lru K
  unfolding new_notifier
  with_strategy strategy = record {
    cs = ContentStoreModule.new 1000;
    fib = [];
    pit = PitModule.new;
    strategy = strategy;
    faces = [];
    notifier = new_notifier;
    key_store = [];
  }

  unfoldable pub register_face : Forwarder lru K → Face → Forwarder lru K
  register_face f face = record f { faces = insert face.id face f.faces }

  unfoldable pub unregister_face : Forwarder lru K → ℕ → Forwarder lru K
  unregister_face f id = record f {
    faces = remove id f.faces;
    fib = remove_face f.fib (NameModule.new (replicate 32 0) []) id;
  }

  unfoldable pub add_route : Forwarder lru K → Name → ℕ → ℕ → Forwarder lru K
  add_route f prefix face cost = record f { fib = insert_route f.fib prefix face cost }

  unfoldable pub register_keys : Forwarder lru K → Bytes → K → Forwarder lru K
  register_keys f hash keys = record f { key_store = insert hash keys f.key_store }

  -- `self.pit.satisfy(&name)`
  unfoldable pub settle : Forwarder lru K → Name → Forwarder lru K
  settle f name = record f { pit = (satisfy f.pit name).1 }

  unfoldable pub notify_waiters : Forwarder lru K → Name → InterestResult → Forwarder lru K
  notify_waiters f name result = record f { notifier = notify f.notifier name result }

  unfoldable pub purge : Forwarder lru K → ℕ → Forwarder lru K
  purge f now = record f { pit = (purge_expired f.pit now).1 }

  unfoldable pub cache : Forwarder lru K → Name → Data → ℕ → Forwarder lru K
  cache f name d now = record f { cs = (insert_data f.cs name d now).1 }

module _ (s : Signer) (blake3 : Bytes → Bytes) where
  unfoldable pub verify_data : List (Bytes × s.Keys) → Data → Result ForwardError (Unit {0})
  verify_data key_store d = do
    hash ← expected (producer_hash d.name)
    keys ← or_unknown hash (get hash key_store)
    map_err proof_rejected (verify_proof s keys (signed_hash blake3 d) d.signature)

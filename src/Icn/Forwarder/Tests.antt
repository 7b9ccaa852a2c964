-- ===== src/Icn/Forwarder/Tests.antt =====
-- The theorems on the forwarder and the content store at a forwarder with one producer.
use rsticulum.Prelude.{
  ℕ, ◌≤◌, ◌≡◌, ◌≢◌, ◌⊎◌, refl, Bytes-discrete, arith, true, false, none, some, [], ◌∷◌, Bytes,
  replicate, length, ok, err, get, insert,
}
use native.Mathlib.Decide.{ℕ_discrete}
use rsticulum.Transport.Signer.{toy, toy_signature}
use rsticulum.Transport.Proof.{verify_proof}
use rsticulum.Icn.Name.{Name, len, is_prefix_of, first_as_hash, starts_with}
use rsticulum.Icn.Fib.{lookup, Name-discrete}
use rsticulum.Icn.Pit.{
  name_keys, check_loop, set_out_face_at, insert_or_aggregate_at, satisfy_at, purge_expired,
}
use rsticulum.Icn.Interest.{Interest}
use rsticulum.Icn.Data.{Data, fresh}
use rsticulum.Icn.Strategy.{BestRoute, decide, satisfied_by, is_in_backoff}
use rsticulum.Icn.ContentStore.{CachedData, ContentStore, get_prefix, get_exact, stored}
use rsticulum.Icn.ContentStore.Toy.{toy_lru, toy-IsLru}
use rsticulum.Icn.ContentStore.Lookup.{get_prefix-IsLongest}
use rsticulum.Icn.Forwarder.{
  face_not_found, with_strategy, unregister_face, verify_data, cache, purge, settle,
}
use rsticulum.Icn.Forwarder.Pipeline.{
  State, World, answered, finished, waiting, express, receive_data, look_up, make_pending, send_out,
}
use rsticulum.Icn.Forwarder.Settled.{IsSettled}
use rsticulum.Icn.Forwarder.Verified.{IsVerified}
use rsticulum.Icn.Forwarder.Runs.{
  expresses, receives, run, free, stuck, run-ne-stuck, run-IsVerified,
}
use rsticulum.Icn.Forwarder.Routes.{express-unregister_face, express-receive_data, express-pending}

abbrev producer : Bytes
producer = replicate 32 1

abbrev toy_hash : Bytes → Bytes
toy_hash text = replicate 32 (length text)

abbrev page : Name
page = record { components = producer ∷ (112 ∷ []) ∷ []; content_hash = none }

abbrev packet : Data
packet = record {
  name = page;
  content = 5 ∷ [];
  signature = record { packet_hash = replicate 32 3; signature = toy_signature };
  metadata = record { content_hash = none; sequence = none; freshness = fresh };
}

abbrev asked : Bytes → Interest
asked nonce = record {
  name = page;
  nonce = nonce;
  lifetime = 4000000000;
  can_be_prefix = false;
  selector = none;
}

-- The same, for fresh content only.
abbrev asked_fresh : Interest
asked_fresh = record (asked (1 ∷ [])) {
  selector = some (record { min_sequence = none; exclude_hashes = []; must_be_fresh = true });
}

abbrev best : BestRoute
best = record { failures = []; backoff_base = 1; max_backoff = 30 }

-- One face with a route for the producer.
abbrev start : State toy toy_hash toy_lru
start = record {
  cs = record { entries = record { held = []; most = 10 }; hits = 0; misses = 0 };
  fib =
      record {
        prefix = record { components = producer ∷ []; content_hash = none };
        faces = record { face = 7; cost = 1 } ∷ [];
      }
      ∷ [];
  pit = record { entries = []; nonce_tracker = []; nonce_ttl = 60 };
  strategy = decide best;
  faces = (7, record { id = 7; disruption_tolerance = 5; mtu = 1500; is_local = true }) ∷ [];
  notifier = record { waiters = []; fresh = 4; sent = [] };
  key_store = (producer, 9 ∷ []) ∷ [];
}

abbrev helpful : World
helpful = record {
  answers = λ face i. answered (some packet);
  race = λ faces i. none;
  now = 100;
  later = 200;
}

valid : verify_data toy toy_hash start.key_store packet ≡ ok tt
unfolding verify_data verify_proof get Bytes-discrete first_as_hash ℕ_discrete
valid = refl

start-IsVerified : IsVerified toy toy_hash toy_lru start.key_store start
start-IsVerified = record { its_keys = refl; checked = tt }

run-ne-stuck_example :
    let calls = expresses (asked (1 ∷ [])) 3 helpful ∷ receives packet 300 ∷ [] in
    ((channel : ℕ) → run toy toy_hash toy_lru (with_strategy (decide best)) calls ≢ stuck channel)
    × ((f : State toy toy_hash toy_lru)
        → run toy toy_hash toy_lru (with_strategy (decide best)) calls ≡ free f
        → IsSettled f.pit)
run-ne-stuck_example =
    run-ne-stuck toy toy_hash toy_lru best
      (expresses (asked (1 ∷ [])) 3 helpful ∷ receives packet 300 ∷ [])

express-unregister_face_example :
    ((unregister_face start 7).fib ≡ start.fib)
    × ((express toy toy_hash toy_lru (unregister_face start 7) (asked (1 ∷ [])) 3 helpful).0
        ≡ finished (err face_not_found))
unfolding check_loop decide lookup look_up get_exact get Bytes-discrete ℕ_discrete starts_with
    is_in_backoff
express-unregister_face_example =
    express-unregister_face toy toy_hash toy_lru start 7 (asked (1 ∷ [])) 3 helpful (refl, tt) refl
      refl

express-receive_data_example :
    (express toy toy_hash toy_lru
      (receive_data toy toy_hash toy_lru start packet 50).1
      asked_fresh
      3
      helpful).0
    ≡ finished (ok (some packet))
unfolding check_loop receive_data get verify_data verify_proof Bytes-discrete first_as_hash
    satisfied_by ℕ_discrete purge purge_expired cache satisfy_at settle
express-receive_data_example =
    express-receive_data toy toy_hash toy_lru toy-IsLru best start packet 50 asked_fresh 3 helpful
      refl (omega arith) valid refl refl refl refl

express-pending_example :
    (express toy toy_hash toy_lru
      (send_out toy toy_hash toy_lru
        (make_pending toy toy_hash toy_lru start (asked (1 ∷ [])) 3 50 helpful.now)
        page
        7)
      (asked (2 ∷ []))
      3
      helpful).0
    ≡ waiting 4
unfolding check_loop get look_up get_exact make_pending send_out Bytes-discrete Name-discrete
    ℕ_discrete insert set_out_face_at insert_or_aggregate_at
express-pending_example =
    express-pending toy toy_hash toy_lru best start (asked (1 ∷ [])) (asked (2 ∷ [])) 3 3 7 50
      helpful helpful refl tt refl refl refl

after_receipt : State toy toy_hash toy_lru
unfolding receive_data
after_receipt = (receive_data toy toy_hash toy_lru start packet 50).1

received : run toy toy_hash toy_lru start (receives packet 50 ∷ []) ≡ free after_receipt
unfolding run after_receipt verify_data verify_proof first_as_hash get Bytes-discrete ℕ_discrete
received = refl

handed :
    (express toy toy_hash toy_lru after_receipt (asked (1 ∷ [])) 3 helpful).0
    ≡ finished (ok (some packet))
unfolding after_receipt check_loop receive_data get verify_data verify_proof Bytes-discrete
    first_as_hash satisfied_by ℕ_discrete purge purge_expired cache satisfy_at settle
handed =
    express-receive_data toy toy_hash toy_lru toy-IsLru best start packet 50 (asked (1 ∷ [])) 3
      helpful refl (omega arith) valid refl refl refl refl

run-IsVerified_example :
    IsVerified toy toy_hash toy_lru start.key_store after_receipt
    × (verify_data toy toy_hash start.key_store packet ≡ ok tt)
run-IsVerified_example =
    run-IsVerified toy toy_hash toy_lru start.key_store toy-IsLru start after_receipt
      (receives packet 50 ∷ []) (asked (1 ∷ [])) 3 helpful packet start-IsVerified (tt, tt) received
      handed

abbrev stocked : ContentStore toy_lru
stocked = record {
  entries = record { held = (page, record { packet = packet; inserted_at = 50 }) ∷ []; most = 10 };
  hits = 0;
  misses = 0;
}

get_prefix-IsLongest_example :
    (((get_prefix stocked page).0 ≡ none)
      × ((j : Name) (d : CachedData)
          → get j (stored stocked) ≡ some d
          → is_prefix_of j page ≡ false))
    ⊎ ((key : Name) × (c : CachedData) × ((get_prefix stocked page).0 ≡ some c.packet)
        × (get key (stored stocked) ≡ some c)
        × (is_prefix_of key page ≡ true)
        × ((j : Name) (d : CachedData)
            → get j (stored stocked) ≡ some d
            → is_prefix_of j page ≡ true
            → len j ≤ len key))
get_prefix-IsLongest_example = get_prefix-IsLongest toy_lru toy-IsLru stocked page

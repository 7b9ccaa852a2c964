-- ===== src/Transport/Resource/Tests.antt =====
-- The theorems on resources at a transfer of three bytes in two segments, with a toy hash.
use rsticulum.Prelude.{
  ℕ, zero, suc, ◌≡◌, ◌<◌, refl, arith, true, some, ◌==◌, ◌||◌, List, [], ◌∷◌, Bytes, length, ok,
  get, ◌%◌,
}
use rsticulum.Transport.Resource.{
  Segment, Resource, ResourceConfig, pending, complete, is_complete, new_tracker, new_for_sending,
  new_for_receiving, new_segment, number_chunks, chunks, receive_all, receive_segment,
}
use rsticulum.Transport.Resource.Presence.{AllPresent}
use rsticulum.Transport.Resource.Tracker.{payloads}
use rsticulum.Transport.Resource.Transfer.{IsTransfer}
use rsticulum.Transport.Resource.Chunks.{segments_of-IsTransfer}
use rsticulum.Transport.Resource.Delivery.{delivered, receive_segment-last}
use rsticulum.Transport.Resource.Integrity.{content-receive_all_sent, content-receive_all_forged}

abbrev toy_hash : Bytes → Bytes
toy_hash text = length text % 256 ∷ []

abbrev content : Bytes
content = 10 ∷ 20 ∷ 30 ∷ []

abbrev in_twos : ResourceConfig
in_twos = record { segment_size = 2; max_concurrent = 16 }

abbrev first : Bytes → Segment
first hash = record {
  resource_hash = hash;
  index = 0;
  total = 2;
  payload = 10 ∷ 20 ∷ [];
  checksum = 2 ∷ [];
}

abbrev second : Bytes → Segment
second hash = record {
  resource_hash = hash;
  index = 1;
  total = 2;
  payload = 30 ∷ [];
  checksum = 1 ∷ [];
}

abbrev sender : Resource
sender = record {
  hash = 3 ∷ [];
  total_size = 3;
  content = some content;
  state = pending;
  tracker = new_tracker (3 ∷ []) 2;
  config = in_twos;
  segments = first (3 ∷ []) ∷ second (3 ∷ []) ∷ [];
}

made : new_for_sending toy_hash content in_twos ≡ ok sender
unfolding new_for_sending
made = refl

-- The second segment, the first, and the second again.
abbrev run : Bytes → List Segment
run hash = second hash ∷ first hash ∷ second hash ∷ []

each_delivered : (hash : Bytes) (i : ℕ) → i < 2 → delivered i (run hash) ≡ true
each_delivered hash zero h = refl
each_delivered hash (suc zero) h = refl
each_delivered hash (suc (suc i)) h = absurd (omega arith)

content-receive_all_sent_example :
    (receive_all toy_hash (new_for_receiving (3 ∷ []) 3 2 in_twos) (run (3 ∷ []))).content
    ≡ some content
unfolding new_tracker
content-receive_all_sent_example =
    content-receive_all_sent toy_hash content in_twos in_twos sender (run (3 ∷ [])) made
      (omega arith) (omega arith) (refl, (refl, (refl, tt))) (λ i h. each_delivered (3 ∷ []) i h)

content-receive_all_forged_example :
    (receive_all toy_hash (new_for_receiving (9 ∷ []) 7 2 in_twos) (run (9 ∷ []))).content
    ≡ some content
unfolding number_chunks chunks new_segment
content-receive_all_forged_example =
    content-receive_all_forged toy_hash (9 ∷ []) content 2 7 in_twos (run (9 ∷ [])) (omega arith)
      (omega arith) (omega arith) (refl, (refl, (refl, tt))) (λ i h. each_delivered (9 ∷ []) i h)

abbrev finished : Resource
finished = record sender {
  state = complete;
  tracker = record {
    resource_hash = 3 ∷ [];
    total = 2;
    received = (0, first (3 ∷ [])) ∷ (1, second (3 ∷ [])) ∷ [];
    complete = true;
    bytes_received = 3;
  };
}

finished_full : AllPresent 2 finished.tracker.received
unfolding get
finished_full zero h = refl
finished_full (suc zero) h = refl
finished_full (suc (suc i)) h = absurd (omega arith)

abbrev both : List Segment
both = first (3 ∷ []) ∷ second (3 ∷ []) ∷ []

both-IsTransfer : IsTransfer toy_hash (3 ∷ []) both
unfolding number_chunks chunks new_segment
both-IsTransfer = segments_of-IsTransfer toy_hash (3 ∷ []) content 2 (omega arith) (omega arith)

second_first : (i : ℕ) → i < 2 → (0 == i || delivered i (second (3 ∷ []) ∷ [])) ≡ true
second_first zero h = refl
second_first (suc zero) h = refl
second_first (suc (suc i)) h = absurd (omega arith)

receive_segment-last_example :
    let end =
      receive_segment toy_hash
        (receive_all toy_hash (new_for_receiving (3 ∷ []) 3 2 in_twos) (second (3 ∷ []) ∷ []))
        (first (3 ∷ [])) in
    (end.0 ≡ ok true) × (is_complete end.1 ≡ true) × (end.1.content ≡ some (payloads both))
receive_segment-last_example =
    receive_segment-last toy_hash (3 ∷ []) both both-IsTransfer 3 in_twos (omega arith)
      (second (3 ∷ []) ∷ []) (first (3 ∷ [])) (refl, tt) refl refl second_first

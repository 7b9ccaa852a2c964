-- ===== src/Transport/Resource.antt =====
-- crates/transport/src/resource.rs: the segments of a large blob, the tracker that puts them together
-- again, and a resource at its sender and its receiver. SHA-256 is a parameter; the hash in an
-- error is its bytes, which the code formats.
pub mod Config
pub mod Chunks
pub mod Presence
pub mod Tracker
pub mod Transfer
pub mod Delivery
pub mod Integrity
mod Tests
use rsticulum.Prelude.{
  ℕ, zero, suc, ◌+◌, ◌-◌, ◌/◌, ◌%◌, ◌^◌, Bool, true, false, not, Option, none, some, List, [], ◌∷◌,
  ◌++◌, Bytes, length, take, drop, get_elem?, ltb, leb, ◌==◌, if◌then◌else◌, same, Result, ok, err,
  panic, ◌>>=◌, get, insert, number_keys, map,
}
use rsticulum.Transport.Error.{
  TransportError, unknown_resource, resource_segment_order, other, duplicate_segment,
  checksum_mismatch,
}

abbrev pub default_segment_size : ℕ
default_segment_size = 1024

pub record ResourceConfig : Type 0 where
  pub segment_size : ℕ
  pub max_concurrent : ℕ

abbrev pub default_config : ResourceConfig
default_config = record { segment_size = default_segment_size; max_concurrent = 16 }

pub record Segment : Type 0 where
  pub resource_hash : Bytes
  pub index : ℕ
  pub total : ℕ
  pub payload : Bytes
  pub checksum : Bytes

pub record SegmentTracker : Type 0 where
  pub resource_hash : Bytes
  pub total : ℕ
  pub received : List (ℕ × Segment)
  pub complete : Bool
  pub bytes_received : ℕ

pub data ResourceState : Type 0 where
  pending transferring complete failed : ResourceState

pub record Resource : Type 0 where
  pub hash : Bytes
  pub total_size : ℕ
  pub content : Option Bytes
  pub state : ResourceState
  pub tracker : SegmentTracker
  pub config : ResourceConfig
  pub segments : List Segment

unfoldable pub new_tracker : Bytes → ℕ → SegmentTracker
new_tracker hash total = record {
  resource_hash = hash;
  total = total;
  received = [];
  complete = false;
  bytes_received = 0;
}

-- `self.received.contains_key(&i)`
abbrev pub is_received : {V : Type 0} → Option V → Bool
is_received none = false
is_received (some s) = true

-- `self.received[&i]`
unfoldable pub received_at : Option Segment → Result TransportError Segment
received_at none = panic
received_at (some s) = ok s

-- The loop of `assemble`, with the rounds left and the index.
unfoldable pub assemble_from : ℕ → ℕ → List (ℕ × Segment) → Result TransportError Bytes
unfolding received_at
assemble_from zero i received = ok []
assemble_from (suc rounds) i received = do
  s ← received_at (get i received)
  rest ← assemble_from rounds (i + 1) received
  ok (s.payload ++ rest)

unfoldable pub assemble : SegmentTracker → Result TransportError (Option Bytes)
unfolding assemble_from
assemble t =
    if not t.complete
    then ok none
    else do whole ← assemble_from t.total 0 t.received; ok (some whole)

abbrev pub received_count : SegmentTracker → ℕ
received_count t = length t.received

abbrev pub missing_count : SegmentTracker → ℕ
missing_count t = t.total - length t.received

-- The indices from `i` on that are missing, `rounds` of them looked at.
unfoldable pub missing_from : ℕ → ℕ → List (ℕ × Segment) → List ℕ
missing_from zero i received = []
missing_from (suc rounds) i received =
    let rest = missing_from rounds (i + 1) received in
    if not (is_received (get i received)) then i ∷ rest else rest

unfoldable pub missing_indices : SegmentTracker → List ℕ
unfolding missing_from
missing_indices t = missing_from t.total 0 t.received

-- `data.chunks(size)` of a positive size; the first argument bounds the number of chunks.
unfoldable pub chunks : ℕ → ℕ → Bytes → List Bytes
chunks zero size bs = []
chunks (suc rounds) size [] = []
chunks (suc rounds) size (b ∷ bs) = take size (b ∷ bs) ∷ chunks rounds size (drop size (b ∷ bs))

module _ (sha256 : Bytes → Bytes) where
  unfoldable pub new_segment : Bytes → ℕ → ℕ → Bytes → Segment
  new_segment hash index total payload = record {
    resource_hash = hash;
    index = index;
    total = total;
    payload = payload;
    checksum = sha256 payload;
  }

  unfoldable pub verify_checksum : Segment → Bool
  verify_checksum s = same s.checksum (sha256 s.payload)

  -- Of a valid segment that is not there yet.
  unfoldable pub accept : SegmentTracker → Segment → Result TransportError Bool × SegmentTracker
  accept t s =
      let received = insert s.index s t.received in
      let complete = length received % 2 ^ 32 == t.total in
      (
        ok complete,
        record t {
          received = received;
          complete = if complete then true else t.complete;
          bytes_received = t.bytes_received + length s.payload;
        },
      )

  unfoldable pub add_segment :
      SegmentTracker → Segment → Result TransportError Bool × SegmentTracker
  unfolding accept verify_checksum
  add_segment t s =
      if not (same s.resource_hash t.resource_hash)
      then (err (unknown_resource s.resource_hash), t)
      else if leb t.total s.index
      then (err (resource_segment_order t.total s.index), t)
      else if is_received (get s.index t.received)
      then (err (other (duplicate_segment s.index)), t)
      else if not (verify_checksum s)
      then (err (other (checksum_mismatch s.index)), t)
      else accept t s

  -- The loop over the enumerated chunks; `i as u32`.
  unfoldable pub number_chunks : Bytes → ℕ → ℕ → List Bytes → List Segment
  unfolding new_segment
  number_chunks hash total i [] = []
  number_chunks hash total i (c ∷ cs) =
      new_segment hash (i % 2 ^ 32) total c ∷ number_chunks hash total (i + 1) cs

  -- `data.len() + segment_size - 1` with overflow checks; a division by a zero size panics.
  unfoldable pub new_for_sending : Bytes → ResourceConfig → Result TransportError Resource
  unfolding new_tracker number_chunks chunks
  new_for_sending content config =
      let size = config.segment_size in
      if size == 0
      then panic
      else if leb (2 ^ 64) (length content + size)
      then panic
      else (let total = ((length content + size - 1) / size) % 2 ^ 32 in
          let hash = sha256 content in
          ok (record {
            hash = hash;
            total_size = length content;
            content = some content;
            state = pending;
            tracker = new_tracker hash total;
            config = config;
            segments = number_chunks hash total 0 (chunks (length content) size content);
          }))

  -- By what the tracker answers, with the resource after it.
  unfoldable pub receive_in :
      Resource → Result TransportError Bool → Result TransportError Bool × Resource
  receive_in r (ok true) = elim (assemble r.tracker) [
    | ok content ↦ (ok true, record r { state = complete; content = content })
    | err e ↦ (err e, r)
    | panic ↦ (panic, r)
  ]
  receive_in r (ok false) = (ok false, r)
  receive_in r (err e) = (err e, r)
  receive_in r panic = (panic, r)

  unfoldable pub receive_segment : Resource → Segment → Result TransportError Bool × Resource
  unfolding add_segment receive_in
  receive_segment r s =
      let (answer, tracker) = add_segment r.tracker s in
      receive_in (record r { state = transferring; tracker = tracker }) answer

  -- The resource after a run of segments, whatever each call answers.
  unfoldable pub receive_all : Resource → List Segment → Resource
  unfolding receive_segment
  receive_all r [] = r
  receive_all r (s ∷ ss) = receive_all (receive_segment r s).1 ss

unfoldable pub new_for_receiving : Bytes → ℕ → ℕ → ResourceConfig → Resource
unfolding new_tracker
new_for_receiving hash total_size total_segments config = record {
  hash = hash;
  total_size = total_size;
  content = none;
  state = pending;
  tracker = new_tracker hash total_segments;
  config = config;
  segments = [];
}

unfoldable pub next_segment : Resource → ℕ → Option Segment × Resource
next_segment r index = (get_elem? r.segments index, record r { state = transferring })

unfoldable pub fail : Resource → Resource
fail r = record r { state = failed }

abbrev pub is_complete : Resource → Bool
is_complete r = is_complete_state r.state
  where
    is_complete_state : ResourceState → Bool
    is_complete_state complete = true
    is_complete_state _ = false

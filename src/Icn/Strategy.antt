-- ===== src/Icn/Strategy.antt =====
-- crates/icn/src/strategy.rs: where an interest goes. The clock is an argument; times and durations
-- are nanoseconds.
pub mod Backoff
pub mod Decision
use rsticulum.Prelude.{
  ℕ, ◌+◌, ◌-◌, ◌*◌, ◌^◌, min, Bool, true, false, not, ◌&&◌, ◌||◌, Option, none, some, List, [], ◌∷◌,
  Bytes, ltb, same, if◌then◌else◌, Result, ok, panic, get, insert, remove, number_keys,
}
use rsticulum.Icn.Fib.{Route}
use rsticulum.Icn.Selector.{InterestSelector}
use rsticulum.Icn.Interest.{Interest}
use rsticulum.Icn.Data.{Data, Freshness, fresh, stale}
use rsticulum.Icn.Pit.{PitEntry}

pub data StrategyDecision : Type 0 where
  forward_to : ℕ → StrategyDecision
  multicast : List ℕ → StrategyDecision
  suppress_aggregate serve_from_cache no_route : StrategyDecision

pub record FailureRecord : Type 0 where
  pub last_failure : ℕ
  pub consecutive_failures : ℕ

pub record BestRoute : Type 0 where
  pub failures : List (ℕ × FailureRecord)
  pub backoff_base : ℕ
  pub max_backoff : ℕ

abbrev pub second : ℕ
second = 1000000000

unfoldable pub with_backoff : ℕ → ℕ → BestRoute
with_backoff base most = record { failures = []; backoff_base = base; max_backoff = most }

unfoldable pub new : BestRoute
unfolding with_backoff
new = with_backoff (1 * second) (30 * second)

-- The failures so far: an entry is made with none.
abbrev pub failures_of : Option FailureRecord → ℕ
failures_of none = 0
failures_of (some r) = r.consecutive_failures

-- `consecutive_failures += 1` on a `u32`, with overflow checks.
unfoldable pub record_failure : {E : Type 0} → BestRoute → ℕ → ℕ → Result E BestRoute
record_failure b face now =
    let count = failures_of (get face b.failures) + 1 in
    if ltb count (2 ^ 32)
    then ok (record b {
      failures =
          insert face (record { last_failure = now; consecutive_failures = count }) b.failures;
    })
    else panic

unfoldable pub record_success : BestRoute → ℕ → BestRoute
record_success b face = record b { failures = remove face b.failures }

abbrev pub waits : BestRoute → Option FailureRecord → ℕ → Bool
waits b none now = false
waits b (some r) now =
    ltb (now - r.last_failure)
      (min (b.backoff_base * 2 ^ min r.consecutive_failures 6) b.max_backoff)

unfoldable pub is_in_backoff : BestRoute → ℕ → ℕ → Bool
is_in_backoff b face now = waits b (get face b.failures) now

abbrev pub is_stale : Freshness → Bool
is_stale fresh = false
is_stale (stale age) = true

-- `data_seq < min_seq`, or no sequence at all: rejected.
abbrev pub too_old : Option ℕ → Option ℕ → Bool
too_old none seq = false
too_old (some least) none = true
too_old (some least) (some seq) = ltb seq least

abbrev pub is_listed : List Bytes → Bytes → Bool
is_listed [] h = false
is_listed (x ∷ xs) h = same x h || is_listed xs h

abbrev pub excluded : List Bytes → Option Bytes → Bool
excluded hashes none = false
excluded hashes (some h) = is_listed hashes h

unfoldable pub satisfied_by : Option InterestSelector → Data → Bool
satisfied_by none d = true
satisfied_by (some sel) d =
    if sel.must_be_fresh && is_stale d.metadata.freshness
    then false
    else if too_old sel.min_sequence d.metadata.sequence
    then false
    else not (excluded sel.exclude_hashes d.metadata.content_hash)

abbrev pub selector_satisfied : Interest → Data → Bool
selector_satisfied i = satisfied_by i.selector

-- The loop over the faces of the forwarding table.
unfoldable pub first_available : BestRoute → ℕ → List Route → StrategyDecision
first_available b now [] = no_route
first_available b now (r ∷ rs) =
    let rest = first_available b now rs in
    if not (is_in_backoff b r.face now) then forward_to r.face else rest

abbrev pub cache_serves : Interest → Option Data → Bool
cache_serves i none = false
cache_serves i (some d) = selector_satisfied i d

abbrev pub is_pending : Option (PitEntry Interest) → Bool
is_pending none = false
is_pending (some e) = not e.satisfied

unfoldable pub decide :
    BestRoute
    → Interest
    → List Route
    → Option (PitEntry Interest)
    → Option Data
    → ℕ
    → StrategyDecision
unfolding first_available
decide b i fib_faces pit_hit cs_hit now =
    if cache_serves i cs_hit
    then serve_from_cache
    else if is_pending pit_hit
    then suppress_aggregate
    else first_available b now fib_faces

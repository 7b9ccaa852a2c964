-- ===== src/Transport/Resource/Transfer.antt =====
-- crates/transport/src/resource.rs (Resource): a transfer from its segments to the assembled content.
use rsticulum.Prelude.{
  ℕ, zero, suc, ◌%◌, ◌^◌, ◌<◌, ◌≡◌, ◌≢◌, refl, ◌∙◌, arith, Bool, true, false, Option, none, some,
  List, [], ◌∷◌, Bytes, length, get_elem?, ◌==◌, ==_iff, same_iff, Result, ok, err, get, insert,
  get-insert, number_keys,
}
use rsticulum.Transport.Error.{TransportError, other, duplicate_segment}
use rsticulum.Transport.Resource.{
  Segment, SegmentTracker, Resource, is_received, assemble, verify_checksum, accept, add_segment,
  receive_in, receive_segment, complete, transferring,
}
use rsticulum.Transport.Resource.Presence.{
  Received, present_below, AllPresent, present_below-le, full_of_count, length-insert_new,
  present_below-insert, Agrees,
}
use rsticulum.Transport.Resource.Tracker.{payloads, assemble_from-full}

module _ (sha256 : Bytes → Bytes) where
  pub receive_of :
      (r : Resource) (s : Segment) (answer : Result TransportError Bool) (t : SegmentTracker)
      → add_segment sha256 r.tracker s ≡ (answer, t)
      → receive_segment sha256 r s
        ≡ receive_in sha256 (record r { state = transferring; tracker = t }) answer
  unfolding receive_segment
  receive_of r s answer t e = rw e

  receive_in-true :
      (r : Resource) (content : Option Bytes)
      → assemble r.tracker ≡ ok content
      → receive_in sha256 r (ok true) ≡ (ok true, record r { state = complete; content = content })
  unfolding receive_in
  receive_in-true r content e = rw (e, receive_in)

module _ (sha256 : Bytes → Bytes) (hash : Bytes) (segments : List Segment) where
  -- The segments of one transfer, each under its own index.
  pub record IsTransfer : Type 0 where
    pub few : length segments < 2 ^ 32
    pub tagged :
        (i : ℕ) (s : Segment)
        → get_elem? segments i ≡ some s
        → (s.resource_hash ≡ hash) × (s.index ≡ i) × (verify_checksum sha256 s ≡ true)

  pub record Tracks (t : SegmentTracker) : Type 0 where
    pub its_hash : t.resource_hash ≡ hash
    pub its_total : t.total ≡ length segments
    pub agrees : Agrees segments t.received
    pub counted : length t.received ≡ present_below (length segments) t.received

  abbrev pub IsOf : Segment → Type 0
  IsOf s = get_elem? segments s.index ≡ some s

  abbrev pub Whole : Resource → Type 0
  Whole r = AllPresent (length segments) r.tracker.received → r.content ≡ some (payloads segments)

  index_bound : (ss : List Segment) (i : ℕ) (s : Segment) → get_elem? ss i ≡ some s → i < length ss
  index_bound [] i s h = cc
  index_bound (x ∷ ss) zero s h = omega arith
  index_bound (x ∷ ss) (suc i) s h = omega (arith, index_bound ss i s h)

  Agrees-insert :
      (s : Segment) (m : Received Segment)
      → IsOf s
      → Agrees segments m
      → Agrees segments (insert s.index s m)
  Agrees-insert s m mine agrees i s' h =
      ground (arith, get-insert i s.index s m, ==_iff s.index i, agrees i s')

  -- A segment of the transfer that is not there yet is taken.
  pub accept-Tracks :
      (laws : IsTransfer) (t : SegmentTracker) (s : Segment)
      → Tracks t
      → IsOf s
      → get s.index t.received ≡ none
      → Tracks (accept sha256 t s).1
  unfolding accept
  accept-Tracks laws t s v mine absent = record {
    its_hash = v.its_hash;
    its_total = v.its_total;
    agrees = Agrees-insert s t.received mine v.agrees;
    counted = omega (
      arith,
      length-insert_new s.index s t.received absent,
      present_below-insert (length segments) s.index s t.received
          (index_bound segments s.index s mine) absent,
      v.counted,
    );
  }

  add_segment_again :
      (laws : IsTransfer) (t : SegmentTracker) (s : Segment)
      → Tracks t
      → IsOf s
      → is_received (get s.index t.received) ≡ true
      → add_segment sha256 t s ≡ (err (other (duplicate_segment s.index)), t)
  unfolding add_segment
  add_segment_again laws t s v mine there =
      let known = laws.tagged s.index s mine in
      let below = index_bound segments s.index s mine in
      ground (arith, same_iff s.resource_hash t.resource_hash, v.its_total)

  add_segment_new :
      (laws : IsTransfer) (t : SegmentTracker) (s : Segment)
      → Tracks t
      → IsOf s
      → get s.index t.received ≡ none
      → add_segment sha256 t s ≡ accept sha256 t s
  unfolding add_segment
  add_segment_new laws t s v mine absent =
      let known = laws.tagged s.index s mine in
      let below = index_bound segments s.index s mine in
      ground (arith, same_iff s.resource_hash t.resource_hash, v.its_total)

  -- The assembly after the last segment returns the payloads in order.
  assemble-full :
      (t : SegmentTracker)
      → Tracks t
      → t.complete ≡ true
      → AllPresent (length segments) t.received
      → assemble t ≡ ok (some (payloads segments))
  unfolding assemble
  assemble-full t v done full = rw (
    done,
    v.its_total,
    assemble_from-full segments t.received v.agrees full (length segments) 0 (omega arith),
  )

  module _ (laws : IsTransfer) (r : Resource) (s : Segment) (v : Tracks r.tracker)
      (mine : IsOf s) where
    abbrev pub grown : Received Segment
    grown = insert s.index s r.tracker.received

    pub receive_again :
        is_received (get s.index r.tracker.received) ≡ true
        → receive_segment sha256 r s
          ≡ (err (other (duplicate_segment s.index)), record r { state = transferring })
    unfolding receive_segment receive_in
    receive_again there = rw (add_segment_again laws r.tracker s v mine there)

    grown_all :
        length grown ≡ length segments
        → Tracks (accept sha256 r.tracker s).1
        → AllPresent (length segments) grown
    unfolding accept
    grown_all all v' = full_of_count (length segments) grown (omega (arith, v'.counted))

    grown_some :
        get s.index r.tracker.received ≡ none
        → length grown ≢ length segments
        → Tracks (accept sha256 r.tracker s).1
        → (length grown % 2 ^ 32 == r.tracker.total) ≡ false
    unfolding accept
    grown_some absent some_left v' =
        ground (arith, v.its_total, laws.few, v'.counted, present_below-le (length segments) grown)

    answers :
        (complete_now : Bool)
        → get s.index r.tracker.received ≡ none
        → (length grown % 2 ^ 32 == r.tracker.total) ≡ complete_now
        → add_segment sha256 r.tracker s ≡ (ok complete_now, (accept sha256 r.tracker s).1)
    answers complete_now absent test =
        add_segment_new laws r.tracker s v mine absent ∙ unfold accept in rw test

    -- The last missing segment completes the resource with the whole content.
    pub receive_last :
        get s.index r.tracker.received ≡ none
        → length grown ≡ length segments
        → receive_segment sha256 r s ≡ (
          ok true,
          record r {
            state = complete;
            tracker = (accept sha256 r.tracker s).1;
            content = some (payloads segments);
          },
        )
    receive_last absent all =
        let v' = accept-Tracks laws r.tracker s v mine absent in
        let test : (length grown % 2 ^ 32 == r.tracker.total) ≡ true =
          ground (arith, v.its_total, laws.few) in
        receive_of sha256 r s _ _ (answers true absent test)
        ∙ receive_in-true sha256 _ _ (
            assemble-full (accept sha256 r.tracker s).1 v' (unfold accept in rw test)
              (unfold accept in grown_all all v'))

    pub receive_more :
        get s.index r.tracker.received ≡ none
        → length grown ≢ length segments
        → receive_segment sha256 r s
          ≡ (ok false, record r { state = transferring; tracker = (accept sha256 r.tracker s).1 })
    receive_more absent some_left =
        let v' = accept-Tracks laws r.tracker s v mine absent in
        let test : (length grown % 2 ^ 32 == r.tracker.total) ≡ false =
          grown_some absent some_left v' in
        receive_of sha256 r s _ _ (answers false absent test) ∙ unfold receive_in in refl

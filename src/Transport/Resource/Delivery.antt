-- ===== src/Transport/Resource/Delivery.antt =====
-- crates/transport/src/resource.rs (Resource): what a receiver holds after a run of segments.
use rsticulum.Prelude.{
  ℕ, ◌<◌, ◌≡◌, ◌∙◌, refl, sym, ap, arith, inl, inr, Bool, true, false, ◌||◌, Option, none, some,
  List, [], ◌∷◌, Bytes, length, ◌==◌, ==_iff, Result, ok, get, insert, get-insert, number_keys,
  Option-cases, All,
}
use native.Mathlib.Decide.{ℕ_discrete}
use mathlib.Core.Path.{subst}
use rsticulum.Transport.Error.{TransportError}
use rsticulum.Transport.Resource.{
  Segment, Resource, ResourceConfig, is_received, accept, receive_segment, receive_all, new_tracker,
  new_for_receiving, is_complete,
}
use rsticulum.Transport.Resource.Presence.{
  Received, AllPresent, present_below-empty, present_below-full,
}
use rsticulum.Transport.Resource.Tracker.{payloads}
use rsticulum.Transport.Resource.Transfer.{
  IsTransfer, Tracks, IsOf, Whole, grown, accept-Tracks, receive_again, receive_last, receive_more,
}

-- Whether a segment of the index is in a run.
abbrev pub delivered : ℕ → List Segment → Bool
delivered i [] = false
delivered i (s ∷ ss) = s.index == i || delivered i ss

or_false : (b : Bool) → (b || false) ≡ b
or_false true = refl
or_false false = refl

none_of : (o : Option Segment) → is_received o ≡ false → o ≡ none
none_of none h = refl
none_of (some s) h = cc

module _ (sha256 : Bytes → Bytes) (hash : Bytes) (segments : List Segment) where
  pub record Holds (r : Resource) : Type 0 where
    pub tracks : Tracks sha256 hash segments r.tracker
    pub whole : Whole sha256 hash segments r

  -- What a step does to the indices that are there.
  abbrev Adds : Segment → Received Segment → Received Segment → Type 0
  Adds s before after =
      (i : ℕ) → is_received (get i after) ≡ (s.index == i || is_received (get i before))

  record Stepped (r : Resource) (s : Segment) (r' : Resource) : Type 0 where
    holds : Holds r'
    adds : Adds s r.tracker.received r'.tracker.received

  module _ (laws : IsTransfer sha256 hash segments) where
    Adds-insert : (s : Segment) (m : Received Segment) → Adds s m (insert s.index s m)
    Adds-insert s m i = ground (arith, get-insert i s.index s m)

    Adds-same :
        (s : Segment) (m : Received Segment) → is_received (get s.index m) ≡ true → Adds s m m
    Adds-same s m there i = ground (arith, ==_iff s.index i)

    counted_grown :
        (r : Resource) (s : Segment) (h : Holds r) (mine : IsOf sha256 hash segments s)
        → get s.index r.tracker.received ≡ none
        → AllPresent (length segments) (accept sha256 r.tracker s).1.received
        → length (grown sha256 hash segments laws r s h.tracks mine) ≡ length segments
    unfolding accept
    counted_grown r s h mine absent full = omega (
      arith,
      present_below-full (length segments) (insert s.index s r.tracker.received) full,
      (accept-Tracks sha256 hash segments laws r.tracker s h.tracks mine absent).counted,
    )

    step :
        (r : Resource) (s : Segment)
        → Holds r
        → IsOf sha256 hash segments s
        → Stepped r s (receive_segment sha256 r s).1
    step r s h mine = elim (Option-cases (get s.index r.tracker.received)) [
      | inr (old, there) ↦
          subst (λ (p : Result TransportError Bool × Resource). Stepped r s p.1)
            (sym (receive_again sha256 hash segments laws r s h.tracks mine (rw there)))
            (record {
              holds = record { tracks = h.tracks; whole = h.whole };
              adds = Adds-same s r.tracker.received (rw there);
            })
      | inl absent ↦
          elim (ℕ_discrete (length (grown sha256 hash segments laws r s h.tracks mine))
            (length segments)) [
              | yes all ↦
                  subst (λ (p : Result TransportError Bool × Resource). Stepped r s p.1)
                    (sym (receive_last sha256 hash segments laws r s h.tracks mine absent all))
                    (record {
                      holds = record {
                        tracks =
                            accept-Tracks sha256 hash segments laws r.tracker s h.tracks mine
                              absent;
                        whole = λ full. refl;
                      };
                      adds = unfold accept in Adds-insert s r.tracker.received;
                    })
              | no left ↦
                  subst (λ (p : Result TransportError Bool × Resource). Stepped r s p.1)
                    (sym (receive_more sha256 hash segments laws r s h.tracks mine absent left))
                    (record {
                      holds = record {
                        tracks =
                            accept-Tracks sha256 hash segments laws r.tracker s h.tracks mine
                              absent;
                        whole = λ full. absurd (left (counted_grown r s h mine absent full));
                      };
                      adds = unfold accept in Adds-insert s r.tracker.received;
                    })
            ]
    ]

    run-Holds :
        (r : Resource) (ss : List Segment)
        → Holds r
        → All (IsOf sha256 hash segments) ss
        → Holds (receive_all sha256 r ss)
    unfolding receive_all
    run-Holds r [] h mine = h
    run-Holds r (s ∷ ss) h mine =
        run-Holds (receive_segment sha256 r s).1 ss (step r s h mine.0).holds mine.1

    run-Adds :
        (r : Resource) (ss : List Segment) (i : ℕ)
        → Holds r
        → All (IsOf sha256 hash segments) ss
        → is_received (get i (receive_all sha256 r ss).tracker.received)
          ≡ (delivered i ss || is_received (get i r.tracker.received))
    unfolding receive_all
    run-Adds r [] i h mine = refl
    run-Adds r (s ∷ ss) i h mine =
        let st = step r s h mine.0 in
        ground (arith, run-Adds (receive_segment sha256 r s).1 ss i st.holds mine.1, st.adds i)

    new-Holds :
        (total_size : ℕ) (config : ResourceConfig)
        → 0 < length segments
        → Holds (new_for_receiving hash total_size (length segments) config)
    unfolding new_for_receiving new_tracker get
    new-Holds total_size config pos = record {
      tracks = record {
        its_hash = refl;
        its_total = refl;
        agrees = λ i s h. cc;
        counted = present_below-empty Segment (length segments);
      };
      whole = λ full. cc (full 0 pos);
    }

    module _ (total_size : ℕ) (config : ResourceConfig) (pos : 0 < length segments) where
      abbrev pub receiver : Resource
      receiver = new_for_receiving hash total_size (length segments) config

      received-all :
          (ss : List Segment) (i : ℕ)
          → All (IsOf sha256 hash segments) ss
          → is_received (get i (receive_all sha256 receiver ss).tracker.received) ≡ delivered i ss
      received-all ss i mine =
          run-Adds receiver ss i (new-Holds total_size config pos) mine
          ∙ unfold new_for_receiving new_tracker get in or_false (delivered i ss)

      -- Once each index is delivered, the receiver holds the payloads in order.
      pub content-receive_all :
          (ss : List Segment)
          → All (IsOf sha256 hash segments) ss
          → ((i : ℕ) → i < length segments → delivered i ss ≡ true)
          → (receive_all sha256 receiver ss).content ≡ some (payloads segments)
      content-receive_all ss mine all =
          (run-Holds receiver ss (new-Holds total_size config pos) mine).whole
            (λ i below. received-all ss i mine ∙ all i below)

      -- The segment that fills the last gap is answered with `ok true`, and the resource is complete.
      pub receive_segment-last :
          (front : List Segment) (last : Segment)
          → All (IsOf sha256 hash segments) front
          → IsOf sha256 hash segments last
          → delivered last.index front ≡ false
          → ((i : ℕ) → i < length segments → (last.index == i || delivered i front) ≡ true)
          → let end = receive_segment sha256 (receive_all sha256 receiver front) last in
            (end.0 ≡ ok true)
            × (is_complete end.1 ≡ true)
            × (end.1.content ≡ some (payloads segments))
      receive_segment-last front last mine its absent all =
          let before = receive_all sha256 receiver front in
          let h = run-Holds receiver front (new-Holds total_size config pos) mine in
          let missing : get last.index before.tracker.received ≡ none =
            none_of (get last.index before.tracker.received)
              (received-all front last.index mine ∙ absent) in
          let full : AllPresent (length segments) (accept sha256 before.tracker last).1.received =
            λ i below.
              unfold accept in
              Adds-insert last before.tracker.received i
              ∙ ap (λ b. last.index == i || b) (received-all front i mine)
              ∙ all i below in
          rw
            (receive_last sha256 hash segments laws before last h.tracks its missing
              (counted_grown before last h its missing full))
            (refl, refl, refl)

-- ===== src/Transport/Resource/Integrity.antt =====
-- crates/transport/src/resource.rs: a whole transfer between a sender and a receiver.
use rsticulum.Prelude.{
  ℕ, ◌+◌, ◌-◌, ◌*◌, ◌/◌, ◌%◌, ◌^◌, ◌≤◌, ◌<◌, ◌≡◌, ◌∙◌, sym, ap, arith, true, false, some, List,
  Bytes, length, leb, ◌==◌, same, Result, ok, err, panic, All, Bool-cases, inl, inr, ok-injective,
  number_keys,
}
use mathlib.Core.Path.{subst}
use native.Mathlib.Nat.{le-div_iff_mul-le}
use rsticulum.Transport.Error.{
  TransportError, unknown_resource, resource_segment_order, other, duplicate_segment,
}
use rsticulum.Transport.Resource.{
  Segment, SegmentTracker, Resource, ResourceConfig, transferring, is_complete, add_segment,
  receive_in, receive_segment, receive_all, new_for_sending, new_for_receiving, new_tracker,
}
use rsticulum.Transport.Resource.Presence.{AllPresent}
use rsticulum.Transport.Resource.Transfer.{IsOf, receive_of}
use rsticulum.Transport.Resource.Chunks.{
  segments_of, segment_count, length-segments_of, payloads-segments_of, segments_of-IsTransfer,
}
use rsticulum.Transport.Resource.Delivery.{delivered, content-receive_all}

panic≢ok : {r : Resource} → ¬ (◌≡◌ {A = Result TransportError Resource} panic (ok r))
panic≢ok h = cc

module _ (sha256 : Bytes → Bytes) where
  record Sends (content : Bytes) (config : ResourceConfig) (sender : Resource) : Type 0 where
    pos : 0 < config.segment_size
    its_hash : sender.hash ≡ sha256 content
    its_total :
        sender.tracker.total
        ≡ (length content + config.segment_size - 1) / config.segment_size % 2 ^ 32
    its_segments :
        sender.segments ≡ segments_of sha256 (sha256 content) content config.segment_size pos

  new_for_sending-Sends :
      (content : Bytes) (config : ResourceConfig) (sender : Resource)
      → new_for_sending sha256 content config ≡ ok sender
      → Sends content config sender
  unfolding new_for_sending new_tracker
  new_for_sending-Sends content config sender h = elim (Bool-cases (config.segment_size == 0)) [
    | inl none_given ↦ absurd (panic≢ok (rw none_given at h))
    | inr given ↦ elim (Bool-cases (leb (2 ^ 64) (length content + config.segment_size))) [
      | inl too_long ↦ absurd (panic≢ok (rw (given, too_long) at h))
      | inr fits ↦
          let made = ok-injective (rw (given, fits) at h) in
          record {
            pos = ground arith;
            its_hash = ap (λ (r : Resource). r.hash) (sym made);
            its_total = ap (λ (r : Resource). r.tracker.total) (sym made);
            its_segments = ap (λ (r : Resource). r.segments) (sym made);
          }
    ]
  ]

  count_pos : (n size : ℕ) → 0 < n → 0 < size → 0 < (n + size - 1) / size
  count_pos n size h k =
      let enough : 1 * size ≤ n + size - 1 = omega arith in (le-div_iff_mul-le k).1 enough

  -- A receiver that is created with any hash, and with the number of segments of some content,
  -- holds that content once a run of its segments, which carry that hash, in any order and with any
  -- repetitions, has each of them. The content is not compared with the hash.
  pub content-receive_all_forged :
      (hash content : Bytes) (size total_size : ℕ) (config : ResourceConfig) (ss : List Segment)
      (pos : 0 < size)
      → 0 < length content
      → segment_count sha256 hash content size pos < 2 ^ 32
      → All (IsOf sha256 hash (segments_of sha256 hash content size pos)) ss
      → ((i : ℕ) → i < segment_count sha256 hash content size pos → delivered i ss ≡ true)
      → (receive_all sha256
          (new_for_receiving hash total_size (segment_count sha256 hash content size pos) config)
          ss).content
        ≡ some content
  content-receive_all_forged hash content size total_size config ss pos some_content few mine all =
      let n = length-segments_of sha256 hash content size pos in
      let laws = segments_of-IsTransfer sha256 hash content size pos few in
      let there : 0 < length (segments_of sha256 hash content size pos) =
        omega (arith, n, count_pos (length content) size some_content pos) in
      subst
        (λ (count : ℕ).
          (receive_all sha256 (new_for_receiving hash total_size count config) ss).content
          ≡ some content)
        n
        (content-receive_all sha256 hash (segments_of sha256 hash content size pos) laws total_size
            config there ss mine (λ i below. all i (omega (arith, n)))
          ∙ ap some (payloads-segments_of sha256 hash content size pos))

  -- A content of at least one byte that is sent to a receiver created from the sender's hash and
  -- number of segments arrives: once a run of the sender's segments, in any order and with any
  -- repetitions, has each of them, the receiver holds the content.
  pub content-receive_all_sent :
      (content : Bytes) (config config' : ResourceConfig) (sender : Resource) (ss : List Segment)
      → new_for_sending sha256 content config ≡ ok sender
      → 0 < length content
      → (length content + config.segment_size - 1) / config.segment_size < 2 ^ 32
      → All (IsOf sha256 sender.hash sender.segments) ss
      → ((i : ℕ) → i < sender.tracker.total → delivered i ss ≡ true)
      → (receive_all sha256
          (new_for_receiving sender.hash sender.total_size sender.tracker.total config')
          ss).content
        ≡ some content
  content-receive_all_sent content config config' sender ss made some_content few mine all =
      let v = new_for_sending-Sends content config sender made in
      let count = (length content + config.segment_size - 1) / config.segment_size in
      let total : sender.tracker.total ≡ count = omega (arith, v.its_total) in
      rw (v.its_hash, total)
        (content-receive_all_forged (sha256 content) content config.segment_size sender.total_size
          config' ss v.pos some_content few (rw v.its_segments at mine)
          (λ i below. all i (omega (arith, total))))

  add_segment-full :
      (t : SegmentTracker) (s : Segment)
      → AllPresent t.total t.received
      → (e : TransportError) × (add_segment sha256 t s ≡ (err e, t))
  unfolding add_segment
  add_segment-full t s full = elim (Bool-cases (same s.resource_hash t.resource_hash)) [
    | inr other_hash ↦ (unknown_resource s.resource_hash, rw other_hash)
    | inl its_hash ↦ elim (Bool-cases (leb t.total s.index)) [
      | inl beyond ↦ (resource_segment_order t.total s.index, rw (its_hash, beyond))
      | inr within ↦
          (other (duplicate_segment s.index), rw (its_hash, within, full s.index (ground arith)))
    ]
  ]

  -- Once every segment is there, any further segment is answered with an error, and it takes the
  -- resource back from complete to transferring, with its content kept.
  pub receive_segment-reopens :
      (r : Resource) (s : Segment)
      → AllPresent r.tracker.total r.tracker.received
      → (e : TransportError) × (receive_segment sha256 r s
          ≡ (err e, record r { state = transferring }))
        × (is_complete (receive_segment sha256 r s).1 ≡ false)
  unfolding receive_in
  receive_segment-reopens r s full =
      let (e, refused) = add_segment-full r.tracker s full in
      let step = receive_of sha256 r s (err e) r.tracker refused in (e, step, rw step)

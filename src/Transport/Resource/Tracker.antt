-- ===== src/Transport/Resource/Tracker.antt =====
-- crates/transport/src/resource.rs (SegmentTracker): what is put together once every segment is there.
use rsticulum.Prelude.{
  ℕ, zero, suc, ◌+◌, ◌≡◌, arith, inl, inr, List, [], ◌∷◌, ◌++◌, Bytes, length, drop, ok, get,
  number_keys, Option-cases,
}
use rsticulum.Transport.Resource.Presence.{Received, AllPresent, Agrees, drop_at, drop_end}
use rsticulum.Transport.Resource.{Segment, received_at, assemble_from}

-- The payloads of a list of segments, one after the other.
unfoldable pub payloads : List Segment → Bytes
payloads [] = []
payloads (s ∷ ss) = s.payload ++ payloads ss

-- With every segment there, the loop never panics and returns the payloads in order.
pub assemble_from-full :
    (segments : List Segment) (m : Received Segment)
    → Agrees segments m
    → AllPresent (length segments) m
    → (rounds i : ℕ) → rounds + i ≡ length segments
    → assemble_from rounds i m ≡ ok (payloads (drop i segments))
unfolding assemble_from received_at payloads
assemble_from-full segments m agrees full zero i e = rw (drop_end segments i (omega arith))
assemble_from-full segments m agrees full (suc rounds) i e = elim (Option-cases (get i m)) [
  | inl absent ↦ absurd (ground (arith, full i))
  | inr (s, found) ↦
      let rest = assemble_from-full segments m agrees full rounds (i + 1) (omega arith) in
      rw (found, drop_at segments i s (agrees i s found), rest)
]

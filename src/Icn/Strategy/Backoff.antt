-- ===== src/Icn/Strategy/Backoff.antt =====
-- How long a face is left alone after a failure.
use rsticulum.Prelude.{
  ℕ, ◌+◌, ◌-◌, ◌*◌, ◌^◌, ◌<◌, ◌≡◌, ap, ◌∙◌, min, false, Option, none, ltb, lt→ltb, ◌==◌,
  if◌then◌else◌, ok, get, insert, get-insert, get-remove, number_keys, Bool-cases, inl, inr,
}
use rsticulum.Icn.Strategy.{
  BestRoute, FailureRecord, failures_of, waits, record_failure, record_success, is_in_backoff,
}

-- The failure that a strategy records, short of an overflow of the counter.
abbrev pub failed : BestRoute → ℕ → ℕ → BestRoute
failed b face now = record b {
  failures =
      insert face
        (record {
          last_failure = now;
          consecutive_failures = failures_of (get face b.failures) + 1;
        })
        b.failures;
}

-- A failure is counted, and from then on the face is left alone for the base time, doubled for each
-- of the failures in a row, six at most, and never longer than the maximum. A success afterwards
-- ends that. Other faces are left alone as they were.
pub is_in_backoff-record_failure :
    {E : Type 0} (b : BestRoute) (face g now later : ℕ)
    → failures_of (get face b.failures) + 1 < 2 ^ 32
    → (record_failure {E = E} b face now ≡ ok (failed b face now))
      × (is_in_backoff (failed b face now) g later ≡ (
          if face == g
          then ltb (later - now) (
              min
                (b.backoff_base * 2 ^ min (failures_of (get face b.failures) + 1) 6)
                b.max_backoff)
          else is_in_backoff b g later))
      × (is_in_backoff (record_success (failed b face now) face) g later
          ≡ (if face == g then false else is_in_backoff b g later))
unfolding record_failure record_success is_in_backoff
is_in_backoff-record_failure b face g now later h =
    let last : FailureRecord = record {
      last_failure = now;
      consecutive_failures = failures_of (get face b.failures) + 1;
    } in
    let cleared : waits b (if face == g then none else get g b.failures) later
        ≡ (if face == g then false else waits b (get g b.failures) later) =
      elim (Bool-cases (face == g)) [ inl same ↦ rw same | inr other ↦ rw other ] in
    (
      rw (lt→ltb (failures_of (get face b.failures) + 1) (2 ^ 32) h),
      ap (λ (r : Option FailureRecord). waits b r later) (get-insert g face last b.failures)
          ∙ elim (Bool-cases (face == g)) [ inl same ↦ rw same | inr other ↦ rw other ],
      ap (λ (r : Option FailureRecord). waits b r later)
            (get-remove g face (insert face last b.failures) ∙ elim (Bool-cases (face == g)) [
              | inl same ↦ rw same
              | inr other ↦ rw other (get-insert g face last b.failures ∙ rw other)
            ])
          ∙ cleared,
    )

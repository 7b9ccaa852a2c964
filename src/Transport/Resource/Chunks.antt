-- ===== src/Transport/Resource/Chunks.antt =====
-- crates/transport/src/resource.rs (Resource::new_for_sending): the segments of a content.
use rsticulum.Prelude.{
  ℕ, zero, suc, ◌+◌, ◌-◌, ◌/◌, ◌%◌, ◌^◌, ◌≤◌, ◌<◌, ◌≡◌, ◌∙◌, refl, sym, ap, arith, true, some, List,
  [], ◌∷◌, ◌++◌, Bytes, length, drop, get_elem?, ltb, same_iff, length-drop, Bool-cases, ltb→lt,
  inl, inr, take-append-drop,
}
use native.Mathlib.Nat.{div-eq_of_lt, add-div_right}
use rsticulum.Transport.Resource.{Segment, chunks, number_chunks, new_segment, verify_checksum}
use rsticulum.Transport.Resource.Tracker.{payloads}
use rsticulum.Transport.Resource.Transfer.{IsTransfer}

abbrev pub joined : List Bytes → Bytes
joined [] = []
joined (c ∷ cs) = c ++ joined cs

-- The chunks in order are the content.
pub joined-chunks :
    (rounds size : ℕ) (bs : Bytes)
    → 0 < size
    → length bs ≤ rounds
    → joined (chunks rounds size bs) ≡ bs
unfolding chunks
joined-chunks zero size [] pos enough = refl
joined-chunks zero size (b ∷ bs) pos enough = absurd (omega arith)
joined-chunks (suc rounds) size [] pos enough = refl
joined-chunks (suc rounds) size (b ∷ bs) pos enough = rw (
  joined-chunks rounds size (drop size (b ∷ bs)) pos (omega (arith, length-drop size (b ∷ bs))),
  take-append-drop size (b ∷ bs),
)

quotient_small : (size : ℕ) → 0 < size → 0 ≡ (0 + size - 1) / size
quotient_small size pos = let below : 0 + size - 1 < size = omega arith in sym (div-eq_of_lt below)

quotient_step :
    (size n k : ℕ)
    → 0 < size
    → k ≡ (suc n - size + size - 1) / size
    → suc k ≡ (suc n + size - 1) / size
quotient_step size n k pos h =
    let whole : suc n + size - 1 ≡ n + size = omega arith in
    let more : (suc n + size - 1) / size ≡ n / size + 1 =
      ap (λ (t : ℕ). t / size) whole ∙ add-div_right n pos in
    elim (Bool-cases (ltb n size)) [
      | inl short ↦
          let below : n < size = ltb→lt n size short in
          let zero_before : suc n - size + size - 1 ≡ size - 1 = omega arith in
          let under : size - 1 < size = omega arith in
          omega (
            arith,
            more,
            div-eq_of_lt below,
            h ∙ ap (λ (t : ℕ). t / size) zero_before ∙ div-eq_of_lt under,
          )
      | inr long ↦
          let above : size ≤ n = ground arith in
          let before : suc n - size + size - 1 ≡ n = omega arith in
          omega (arith, more, h ∙ ap (λ (t : ℕ). t / size) before)
    ]

-- There are as many as the rounded-up quotient.
pub length-chunks :
    (rounds size : ℕ) (bs : Bytes)
    → 0 < size
    → length bs ≤ rounds
    → length (chunks rounds size bs) ≡ (length bs + size - 1) / size
unfolding chunks
length-chunks zero size [] pos enough = quotient_small size pos
length-chunks zero size (b ∷ bs) pos enough = absurd (omega arith)
length-chunks (suc rounds) size [] pos enough = quotient_small size pos
length-chunks (suc rounds) size (b ∷ bs) pos enough =
    let rest =
      length-chunks rounds size (drop size (b ∷ bs)) pos
        (omega (arith, length-drop size (b ∷ bs))) in
    quotient_step size (length bs) _ pos (rest ∙ rw (length-drop size (b ∷ bs)))

module _ (sha256 : Bytes → Bytes) (hash : Bytes) (total : ℕ) where
  payloads-number_chunks :
      (i : ℕ) (cs : List Bytes) → payloads (number_chunks sha256 hash total i cs) ≡ joined cs
  unfolding payloads number_chunks new_segment
  payloads-number_chunks i [] = refl
  payloads-number_chunks i (c ∷ cs) = ap (◌++◌ c) (payloads-number_chunks (i + 1) cs)

  length-number_chunks :
      (i : ℕ) (cs : List Bytes) → length (number_chunks sha256 hash total i cs) ≡ length cs
  unfolding number_chunks
  length-number_chunks i [] = refl
  length-number_chunks i (c ∷ cs) = ap suc (length-number_chunks (i + 1) cs)

  -- Each segment carries the hash, its position and the checksum of its payload.
  tagged-number_chunks :
      (i k : ℕ) (cs : List Bytes) (s : Segment)
      → i + length cs < 2 ^ 32
      → get_elem? (number_chunks sha256 hash total i cs) k ≡ some s
      → (s.resource_hash ≡ hash) × (s.index ≡ i + k) × (verify_checksum sha256 s ≡ true)
  unfolding number_chunks new_segment verify_checksum
  tagged-number_chunks i k [] s few h = cc
  tagged-number_chunks i zero (c ∷ cs) s few h = ground (arith, same_iff (sha256 c) (sha256 c))
  tagged-number_chunks i (suc k) (c ∷ cs) s few h =
      ground (arith, tagged-number_chunks (i + 1) k cs s)

-- What the sender makes of a content is a transfer whose payloads are the content.
module _ (sha256 : Bytes → Bytes) (hash content : Bytes) (size : ℕ) (pos : 0 < size) where
  abbrev pub segment_count : ℕ
  segment_count = (length content + size - 1) / size

  abbrev pub segments_of : List Segment
  segments_of =
      number_chunks sha256 hash (segment_count % 2 ^ 32) 0 (chunks (length content) size content)

  pub length-segments_of : length segments_of ≡ segment_count
  length-segments_of =
      length-number_chunks sha256 hash (segment_count % 2 ^ 32) 0
        (chunks (length content) size content)
      ∙ length-chunks (length content) size content pos (omega arith)

  pub payloads-segments_of : payloads segments_of ≡ content
  payloads-segments_of =
      payloads-number_chunks sha256 hash (segment_count % 2 ^ 32) 0
        (chunks (length content) size content)
      ∙ joined-chunks (length content) size content pos (omega arith)

  pub segments_of-IsTransfer : segment_count < 2 ^ 32 → IsTransfer sha256 hash segments_of
  segments_of-IsTransfer few = record {
    few = omega (arith, length-segments_of);
    tagged = λ i s h.
        let t =
          tagged-number_chunks sha256 hash (segment_count % 2 ^ 32) 0 i
            (chunks (length content) size content) s
            (omega (arith, length-chunks (length content) size content pos (omega arith))) h in
        (t.0, omega (arith, t.1), t.2);
  }

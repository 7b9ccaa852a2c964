-- ===== src/Transport/Resource/Presence.antt =====
-- Which numbers a map has, and how many. For the trackers of crates/transport/src/resource.rs and
-- packet_transport.rs.
use rsticulum.Prelude.{
  ℕ, zero, suc, ◌+◌, ◌≤◌, ◌<◌, ◌≡◌, refl, ap, ◌∙◌, arith, inl, inr, Bool, true, false, none, some,
  List, [], ◌∷◌, length, drop, get_elem?, ◌==◌, ==_iff, get, insert, remove, get-insert,
  number_keys, Bool-cases, ltb, get-remove, length-remove-some,
}
use rsticulum.Transport.Resource.{is_received}

abbrev pub Received : Type 0 → Type 0
Received V = List (ℕ × V)

abbrev one_if : Bool → ℕ
one_if true = 1
one_if false = 0

module _ {V : Type 0} where
  -- How many of the indices below a bound are there.
  unfoldable pub present_below : ℕ → Received V → ℕ
  present_below zero m = 0
  present_below (suc n) m = present_below n m + one_if (is_received (get n m))

  abbrev pub AllPresent : ℕ → Received V → Type 0
  AllPresent n m = (i : ℕ) → i < n → is_received (get i m) ≡ true

  pub present_below-le : (n : ℕ) (m : Received V) → present_below n m ≤ n
  unfolding present_below
  present_below-le zero m = omega arith
  present_below-le (suc n) m = ground (arith, present_below-le n m)

pub present_below-empty : (V : Type 0) (n : ℕ) → 0 ≡ present_below {V = V} n []
unfolding present_below get
present_below-empty V zero = refl
present_below-empty V (suc n) = omega (arith, present_below-empty V n)

module _ {V : Type 0} where
  pub present_below-full : (n : ℕ) (m : Received V) → AllPresent n m → present_below n m ≡ n
  unfolding present_below
  present_below-full zero m full = refl
  present_below-full (suc n) m full =
      ground (arith, full n, present_below-full n m (λ i h. full i (omega arith)))

  pub full_of_count : (n : ℕ) (m : Received V) → present_below n m ≡ n → AllPresent n m
  unfolding present_below
  full_of_count zero m h i below = absurd (omega arith)
  full_of_count (suc n) m h i below = elim (Bool-cases (i == n)) [
    | inl same ↦ rw ((==_iff i n).0 same) (ground (arith, present_below-le n m))
    | inr other ↦
        full_of_count n m (ground (arith, present_below-le n m)) i (ground (arith, ==_iff i n))
  ]

  remove_absent : (k : ℕ) (m : Received V) → get k m ≡ none → remove k m ≡ m
  unfolding get remove
  remove_absent k [] h = refl
  remove_absent k ((j, s) ∷ m) h = ground (arith, remove_absent k m)

  pub length-insert_new :
      (k : ℕ) (s : V) (m : Received V) → get k m ≡ none → length (insert k s m) ≡ length m + 1
  unfolding insert
  length-insert_new k s m h = rw (remove_absent k m h) (omega arith)

  present_below-above :
      (n k : ℕ) (s : V) (m : Received V)
      → n ≤ k
      → present_below n (insert k s m) ≡ present_below n m
  unfolding present_below
  present_below-above zero k s m h = refl
  present_below-above (suc n) k s m h =
      ground (arith, present_below-above n k s m, get-insert n k s m)

  pub present_below-insert :
      (n k : ℕ) (s : V) (m : Received V)
      → k < n
      → get k m ≡ none
      → present_below n (insert k s m) ≡ present_below n m + 1
  unfolding present_below
  present_below-insert zero k s m h absent = absurd (omega arith)
  present_below-insert (suc n) k s m h absent = elim (Bool-cases (k == n)) [
    | inl same ↦
        let e : k ≡ n = (==_iff k n).0 same in
        ground (arith, present_below-above n k s m, get-insert n k s m)
    | inr other ↦ ground (arith, ==_iff k n, present_below-insert n k s m, get-insert n k s m)
  ]

  -- The count depends on which numbers are there alone.
  pub present_below_same :
      (n : ℕ) (a b : Received V)
      → ((i : ℕ) → is_received (get i a) ≡ is_received (get i b))
      → present_below n a ≡ present_below n b
  unfolding present_below
  present_below_same zero a b h = refl
  present_below_same (suc n) a b h = rw (h n, present_below_same n a b h)

  present_below-cons :
      (n j : ℕ) (s : V) (m : Received V)
      → present_below n ((j, s) ∷ m) ≤ present_below n m + one_if (ltb j n)
  unfolding present_below get
  present_below-cons zero j s m = omega arith
  present_below-cons (suc n) j s m = ground (arith, present_below-cons n j s m)

  pub present_below-le_length : (n : ℕ) (m : Received V) → present_below n m ≤ length m
  present_below-le_length n [] = omega (arith, present_below-empty V n)
  present_below-le_length n ((j, s) ∷ m) =
      ground (arith, present_below-cons n j s m, present_below-le_length n m)

  present_below_without :
      (n k : ℕ) (m : Received V) → n ≤ k → present_below n (remove k m) ≡ present_below n m
  unfolding present_below
  present_below_without zero k m h = refl
  present_below_without (suc n) k m h =
      ground (arith, present_below_without n k m, get-remove n k m)

  present_below-remove :
      (n k : ℕ) (s : V) (m : Received V)
      → k < n
      → get k m ≡ some s
      → present_below n (remove k m) + 1 ≡ present_below n m
  unfolding present_below
  present_below-remove zero k s m h there = absurd (omega arith)
  present_below-remove (suc n) k s m h there = elim (Bool-cases (k == n)) [
    | inl same ↦
        let e : k ≡ n = (==_iff k n).0 same in
        ground (arith, present_below_without n k m, get-remove n k m)
    | inr other ↦ ground (arith, ==_iff k n, present_below-remove n k s m, get-remove n k m)
  ]

  -- In a map without a number twice, an insertion over what is there keeps the size.
  pub length-insert_again :
      (n k : ℕ) (old s : V) (m : Received V)
      → k < n
      → get k m ≡ some old
      → length m ≡ present_below n m
      → length (insert k s m) ≡ length m
  unfolding insert
  length-insert_again n k old s m h there counted = omega (
    arith,
    length-remove-some k old m there,
    present_below-remove n k old m h there,
    present_below-le_length n (remove k m),
  )

  -- What is kept under an index is the element of that index.
  abbrev pub Agrees : List V → Received V → Type 0
  Agrees xs m = (i : ℕ) (x : V) → get i m ≡ some x → get_elem? xs i ≡ some x

  pub drop_at :
      (ss : List V) (i : ℕ) (s : V) → get_elem? ss i ≡ some s → drop i ss ≡ s ∷ drop (i + 1) ss
  drop_at [] i s h = cc
  drop_at (x ∷ ss) zero s h = cc
  drop_at (x ∷ ss) (suc i) s h =
      let step : suc (i + 1) ≡ suc i + 1 = omega arith in
      drop_at ss i s h ∙ ap (λ k. s ∷ drop k (x ∷ ss)) step

  pub drop_end : (ss : List V) (i : ℕ) → length ss ≤ i → drop i ss ≡ []
  drop_end [] zero h = refl
  drop_end [] (suc i) h = refl
  drop_end (x ∷ ss) zero h = absurd (omega arith)
  drop_end (x ∷ ss) (suc i) h = drop_end ss i (omega arith)

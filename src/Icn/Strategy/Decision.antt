-- ===== src/Icn/Strategy/Decision.antt =====
-- What the best-route strategy decides.
use rsticulum.Prelude.{
  ℕ, ◌≤◌, ◌≡◌, refl, arith, true, false, ◌⊎◌, Option, List, [], ◌∷◌, All, inl, inr, Bool-cases,
}
use rsticulum.Icn.Fib.{Route}
use rsticulum.Icn.Fib.Costs.{Sorted, AtLeast}
use rsticulum.Icn.Interest.{Interest}
use rsticulum.Icn.Data.{Data}
use rsticulum.Icn.Pit.{PitEntry}
use rsticulum.Icn.Strategy.{
  BestRoute, forward_to, no_route, is_in_backoff, first_available, cache_serves, is_pending, decide,
}

-- Every face that is not left alone costs at least so much.
abbrev pub NoneCheaper : BestRoute → ℕ → ℕ → List Route → Type 0
NoneCheaper b now cost rs =
    All (λ (r : Route). (is_in_backoff b r.face now ≡ true) ⊎ (cost ≤ r.cost)) rs

abbrev pub IsRoute : Route → List Route → Type 0
IsRoute r [] = ⊥
IsRoute r (x ∷ xs) = (x ≡ r) ⊎ IsRoute r xs

AtLeast-NoneCheaper :
    (b : BestRoute) (now cost : ℕ) (rs : List Route) → AtLeast cost rs → NoneCheaper b now cost rs
AtLeast-NoneCheaper b now cost [] h = tt
AtLeast-NoneCheaper b now cost (r ∷ rs) (h, hs) = (inr h, AtLeast-NoneCheaper b now cost rs hs)

first_available-cheapest :
    (b : BestRoute) (now : ℕ) (rs : List Route)
    → Sorted rs
    → ((r : Route) × IsRoute r rs
        × (first_available b now rs ≡ forward_to r.face)
        × (is_in_backoff b r.face now ≡ false)
        × NoneCheaper b now r.cost rs)
      ⊎ ((first_available b now rs ≡ no_route)
          × All (λ (r : Route). is_in_backoff b r.face now ≡ true) rs)
unfolding first_available
first_available-cheapest b now [] s = inr (refl, tt)
first_available-cheapest b now (x ∷ rs) (a, s) = elim (Bool-cases (is_in_backoff b x.face now)) [
  | inl busy ↦ elim (first_available-cheapest b now rs s) [
    | inl (r, member, picked, free, cheapest) ↦
        inl (r, inr member, rw busy picked, free, (inl busy, cheapest))
    | inr (nothing, all) ↦ inr (rw busy nothing, (busy, all))
  ]
  | inr free ↦
      inl (x, inl refl, rw free, free, (inr (omega arith), AtLeast-NoneCheaper b now x.cost rs a))
]

-- With nothing in the cache that serves and no interest pending, the strategy forwards over a face
-- of the table that is not left alone, and none that is not left alone costs less; it finds no
-- route exactly if every face of the table is left alone. The faces are taken cheapest first.
pub decide-cheapest :
    (b : BestRoute) (i : Interest) (rs : List Route) (pit_hit : Option (PitEntry Interest))
    (cs_hit : Option Data) (now : ℕ)
    → Sorted rs
    → cache_serves i cs_hit ≡ false
    → is_pending pit_hit ≡ false
    → ((r : Route) × IsRoute r rs
        × (decide b i rs pit_hit cs_hit now ≡ forward_to r.face)
        × (is_in_backoff b r.face now ≡ false)
        × NoneCheaper b now r.cost rs)
      ⊎ ((decide b i rs pit_hit cs_hit now ≡ no_route)
          × All (λ (r : Route). is_in_backoff b r.face now ≡ true) rs)
unfolding decide
decide-cheapest b i rs pit_hit cs_hit now s miss idle =
    rw (miss, idle) (first_available-cheapest b now rs s)

-- ===== src/Icn/Fib/Costs.antt =====
-- The routes of one entry of the forwarding table: sorted by cost, at most one for each face.
use rsticulum.Prelude.{
  ℕ, ◌≤◌, ◌≡◌, ◌≢◌, ◌∙◌, refl, sym, arith, Option, none, some, List, [], ◌∷◌, leb, leb→le, ◌==◌,
  ==_iff, if◌then◌else◌, inl, inr, Bool-cases,
}
use rsticulum.Icn.Fib.{Route, update_route, insert_by_cost, sort_by_cost, without_face}

abbrev pub Lacks : ℕ → List Route → Type 0
Lacks face [] = Unit
Lacks face (r ∷ rs) = (r.face ≢ face) × Lacks face rs

abbrev pub AtLeast : ℕ → List Route → Type 0
AtLeast cost [] = Unit
AtLeast cost (r ∷ rs) = (cost ≤ r.cost) × AtLeast cost rs

-- Cheapest first, and no face twice.
abbrev pub Sorted : List Route → Type 0
Sorted [] = Unit
Sorted (r ∷ rs) = AtLeast r.cost rs × Sorted rs

abbrev pub Distinct : List Route → Type 0
Distinct [] = Unit
Distinct (r ∷ rs) = Lacks r.face rs × Distinct rs

-- The cost that a face has.
abbrev pub cost_of : ℕ → List Route → Option ℕ
cost_of face [] = none
cost_of face (r ∷ rs) = if r.face == face then some r.cost else cost_of face rs

AtLeast-weaken : (a b : ℕ) (rs : List Route) → a ≤ b → AtLeast b rs → AtLeast a rs
AtLeast-weaken a b [] h k = tt
AtLeast-weaken a b (r ∷ rs) h (k, ks) = (omega arith, AtLeast-weaken a b rs h ks)

Lacks-insert_by_cost :
    (face : ℕ) (r : Route) (rs : List Route)
    → r.face ≢ face
    → Lacks face rs
    → Lacks face (insert_by_cost r rs)
unfolding insert_by_cost
Lacks-insert_by_cost face r [] h k = (h, k)
Lacks-insert_by_cost face r (x ∷ xs) h (k, ks) = elim (Bool-cases (leb r.cost x.cost)) [
  | inl first ↦ rw first (h, (k, ks))
  | inr later ↦ rw later (k, Lacks-insert_by_cost face r xs h ks)
]

AtLeast-insert_by_cost :
    (cost : ℕ) (r : Route) (rs : List Route)
    → cost ≤ r.cost
    → AtLeast cost rs
    → AtLeast cost (insert_by_cost r rs)
unfolding insert_by_cost
AtLeast-insert_by_cost cost r [] h k = (h, k)
AtLeast-insert_by_cost cost r (x ∷ xs) h (k, ks) = elim (Bool-cases (leb r.cost x.cost)) [
  | inl first ↦ rw first (h, (k, ks))
  | inr later ↦ rw later (k, AtLeast-insert_by_cost cost r xs h ks)
]

Sorted-insert_by_cost : (r : Route) (rs : List Route) → Sorted rs → Sorted (insert_by_cost r rs)
unfolding insert_by_cost
Sorted-insert_by_cost r [] s = (tt, tt)
Sorted-insert_by_cost r (x ∷ xs) (a, s) = elim (Bool-cases (leb r.cost x.cost)) [
  | inl first ↦
      let below = leb→le r.cost x.cost first in
      rw first ((below, AtLeast-weaken r.cost x.cost xs below a), (a, s))
  | inr later ↦
      rw later (AtLeast-insert_by_cost x.cost r xs (ground arith) a, Sorted-insert_by_cost r xs s)
]

pub Sorted-sort_by_cost : (rs : List Route) → Sorted (sort_by_cost rs)
unfolding sort_by_cost
Sorted-sort_by_cost [] = tt
Sorted-sort_by_cost (r ∷ rs) = Sorted-insert_by_cost r (sort_by_cost rs) (Sorted-sort_by_cost rs)

Lacks-sort_by_cost : (face : ℕ) (rs : List Route) → Lacks face rs → Lacks face (sort_by_cost rs)
unfolding sort_by_cost
Lacks-sort_by_cost face [] h = tt
Lacks-sort_by_cost face (r ∷ rs) (h, hs) =
    Lacks-insert_by_cost face r (sort_by_cost rs) h (Lacks-sort_by_cost face rs hs)

Distinct-insert_by_cost :
    (r : Route) (rs : List Route) → Lacks r.face rs → Distinct rs → Distinct (insert_by_cost r rs)
unfolding insert_by_cost
Distinct-insert_by_cost r [] l d = (tt, tt)
Distinct-insert_by_cost r (x ∷ xs) (l, ls) (k, d) = elim (Bool-cases (leb r.cost x.cost)) [
  | inl first ↦ rw first ((l, ls), (k, d))
  | inr later ↦
      rw later
        (Lacks-insert_by_cost x.face r xs (λ e. l (sym e)) k, Distinct-insert_by_cost r xs ls d)
]

pub Distinct-sort_by_cost : (rs : List Route) → Distinct rs → Distinct (sort_by_cost rs)
unfolding sort_by_cost
Distinct-sort_by_cost [] d = tt
Distinct-sort_by_cost (r ∷ rs) (l, d) =
    Distinct-insert_by_cost r (sort_by_cost rs) (Lacks-sort_by_cost r.face rs l)
      (Distinct-sort_by_cost rs d)

Lacks-update_route :
    (other face cost : ℕ) (rs : List Route)
    → face ≢ other
    → Lacks other rs
    → Lacks other (update_route rs face cost)
unfolding update_route
Lacks-update_route other face cost [] h k = (h, tt)
Lacks-update_route other face cost (r ∷ rs) h (k, ks) = elim (Bool-cases (r.face == face)) [
  | inl here ↦ rw here (k, ks)
  | inr there ↦ rw there (k, Lacks-update_route other face cost rs h ks)
]

pub Distinct-update_route :
    (face cost : ℕ) (rs : List Route) → Distinct rs → Distinct (update_route rs face cost)
unfolding update_route
Distinct-update_route face cost [] d = (tt, tt)
Distinct-update_route face cost (r ∷ rs) (l, d) = elim (Bool-cases (r.face == face)) [
  | inl here ↦ rw here (l, d)
  | inr there ↦ rw there (
    Lacks-update_route r.face face cost rs (λ e. absurd (ground arith)) l,
    Distinct-update_route face cost rs d,
  )
]

cost_of-insert_by_cost :
    (f : ℕ) (r : Route) (rs : List Route)
    → Lacks r.face rs
    → cost_of f (insert_by_cost r rs) ≡ (if r.face == f then some r.cost else cost_of f rs)
unfolding insert_by_cost
cost_of-insert_by_cost f r [] l = refl
cost_of-insert_by_cost f r (x ∷ xs) (l, ls) =
    ground (arith, cost_of-insert_by_cost f r xs ls, ==_iff r.face f, ==_iff x.face f)

cost_of-sort_by_cost :
    (f : ℕ) (rs : List Route) → Distinct rs → cost_of f (sort_by_cost rs) ≡ cost_of f rs
unfolding sort_by_cost
cost_of-sort_by_cost f [] d = refl
cost_of-sort_by_cost f (r ∷ rs) (l, d) = ground (
  arith,
  cost_of-insert_by_cost f r (sort_by_cost rs) (Lacks-sort_by_cost r.face rs l),
  cost_of-sort_by_cost f rs d,
)

cost_of-update_route :
    (f face cost : ℕ) (rs : List Route)
    → cost_of f (update_route rs face cost) ≡ (if face == f then some cost else cost_of f rs)
unfolding update_route
cost_of-update_route f face cost [] = refl
cost_of-update_route f face cost (r ∷ rs) =
    ground (
      arith,
      cost_of-update_route f face cost rs,
      ==_iff r.face face,
      ==_iff face f,
      ==_iff r.face f,
    )

-- The routes after an update: the face has the new cost, and every other face the cost it had.
pub cost_of-sort-update :
    (f face cost : ℕ) (rs : List Route)
    → Distinct rs
    → cost_of f (sort_by_cost (update_route rs face cost))
      ≡ (if face == f then some cost else cost_of f rs)
cost_of-sort-update f face cost rs d =
    cost_of-sort_by_cost f (update_route rs face cost) (Distinct-update_route face cost rs d)
    ∙ cost_of-update_route f face cost rs

pub cost_of-without_face :
    (f face : ℕ) (rs : List Route)
    → cost_of f (without_face rs face) ≡ (if face == f then none else cost_of f rs)
unfolding without_face
cost_of-without_face f face [] = elim (Bool-cases (face == f)) [ inl h ↦ rw h | inr h ↦ rw h ]
cost_of-without_face f face (r ∷ rs) =
    ground
      (arith, cost_of-without_face f face rs, ==_iff r.face face, ==_iff face f, ==_iff r.face f)

Lacks-without_face :
    (other face : ℕ) (rs : List Route) → Lacks other rs → Lacks other (without_face rs face)
unfolding without_face
Lacks-without_face other face [] k = tt
Lacks-without_face other face (r ∷ rs) (k, ks) = elim (Bool-cases (r.face == face)) [
  | inl gone ↦ rw gone (Lacks-without_face other face rs ks)
  | inr kept ↦ rw kept (k, Lacks-without_face other face rs ks)
]

AtLeast-without_face :
    (cost face : ℕ) (rs : List Route) → AtLeast cost rs → AtLeast cost (without_face rs face)
unfolding without_face
AtLeast-without_face cost face [] k = tt
AtLeast-without_face cost face (r ∷ rs) (k, ks) = elim (Bool-cases (r.face == face)) [
  | inl gone ↦ rw gone (AtLeast-without_face cost face rs ks)
  | inr kept ↦ rw kept (k, AtLeast-without_face cost face rs ks)
]

pub without_face-Sorted-Distinct :
    (face : ℕ) (rs : List Route)
    → Sorted rs
    → Distinct rs
    → Sorted (without_face rs face) × Distinct (without_face rs face)
unfolding without_face
without_face-Sorted-Distinct face [] s d = (tt, tt)
without_face-Sorted-Distinct face (r ∷ rs) (a, s) (l, d) =
    let rest = without_face-Sorted-Distinct face rs s d in
    elim (Bool-cases (r.face == face)) [
      | inl gone ↦ rw gone rest
      | inr kept ↦ rw kept (
        (AtLeast-without_face r.cost face rs a, rest.0),
        (Lacks-without_face r.face face rs l, rest.1),
      )
    ]

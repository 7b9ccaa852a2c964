-- ===== src/Icn/Fib.antt =====
-- crates/icn/src/fib.rs: the forwarding table, from name prefixes to faces with costs.
pub mod Lookup
pub mod Costs
pub mod Routes
use native.Mathlib.Decide.{ℕ_discrete}
use rsticulum.Prelude.{
  ℕ, ◌≡◌, ◌↔◌, Bool, true, false, ◌&&◌, ◌||◌, not, Option, none, some, List, [], ◌∷◌, ◌++◌, Bytes,
  ltb, leb, ◌==◌, if◌then◌else◌, arith,
}
use rsticulum.Icn.Name.{Name, len, starts_with}

-- `==` on names
unfoldable pub Name-discrete : Discrete Name
Name-discrete = hlevel ℕ_discrete

abbrev pub same_name : Name → Name → Bool
same_name a b = elim (Name-discrete a b) [ yes _ ↦ true | no _ ↦ false ]

pub same_name_iff : (a b : Name) → (same_name a b ≡ true) ↔ (a ≡ b)
same_name_iff a b = ground arith

-- A face and its cost.
pub record Route : Type 0 where
  pub face : ℕ
  pub cost : ℕ

pub record FibEntry : Type 0 where
  pub prefix : Name
  pub faces : List Route

abbrev pub Fib : Type 0
Fib = List FibEntry

-- `*existing_cost = cost` on the first route of the face, or a new route at the end.
unfoldable pub update_route : List Route → ℕ → ℕ → List Route
update_route [] face cost = record { face = face; cost = cost } ∷ []
update_route (r ∷ rs) face cost =
    if r.face == face then record r { cost = cost } ∷ rs else r ∷ update_route rs face cost

-- `sort_by_key`, which is stable.
unfoldable pub insert_by_cost : Route → List Route → List Route
insert_by_cost r [] = r ∷ []
insert_by_cost r (x ∷ xs) = if leb r.cost x.cost then r ∷ (x ∷ xs) else x ∷ insert_by_cost r xs

unfoldable pub sort_by_cost : List Route → List Route
unfolding insert_by_cost
sort_by_cost [] = []
sort_by_cost (r ∷ rs) = insert_by_cost r (sort_by_cost rs)

unfoldable pub insert_route : Fib → Name → ℕ → ℕ → Fib
unfolding update_route sort_by_cost
insert_route [] prefix face cost =
    record { prefix = prefix; faces = record { face = face; cost = cost } ∷ [] } ∷ []
insert_route (e ∷ es) prefix face cost =
    if same_name e.prefix prefix
    then record e { faces = sort_by_cost (update_route e.faces face cost) } ∷ es
    else e ∷ insert_route es prefix face cost

unfoldable pub without_face : List Route → ℕ → List Route
without_face [] face = []
without_face (r ∷ rs) face =
    let rest = without_face rs face in if r.face == face then rest else r ∷ rest

abbrev no_faces : List Route → Bool
no_faces [] = true
no_faces (r ∷ rs) = false

-- `!entry.faces.is_empty()`
unfoldable pub keep_entry : FibEntry → Fib → Fib
keep_entry e rest = if no_faces e.faces then rest else e ∷ rest

unfoldable pub remove_face : Fib → Name → ℕ → Fib
unfolding without_face keep_entry
remove_face [] prefix face = []
remove_face (e ∷ es) prefix face =
    let rest = remove_face es prefix face in
    if starts_with e.prefix prefix || starts_with prefix e.prefix
    then keep_entry (record e { faces = without_face e.faces face }) rest
    else e ∷ rest

unfoldable pub remove_prefix : Fib → Name → Fib
remove_prefix [] prefix = []
remove_prefix (e ∷ es) prefix =
    let rest = remove_prefix es prefix in if starts_with e.prefix prefix then rest else e ∷ rest

-- The match of the loop of `lookup` on the best entry so far.
abbrev better : Option FibEntry → FibEntry → Bool
better none e = true
better (some current) e = ltb (len current.prefix) (len e.prefix)

unfoldable pub best_match : Name → Option FibEntry → List FibEntry → Option FibEntry
best_match name best [] = best
best_match name best (e ∷ es) =
    best_match name (if starts_with name e.prefix && better best e then some e else best) es

abbrev faces_of : Option FibEntry → Option (List Route)
faces_of none = none
faces_of (some e) = some e.faces

unfoldable pub lookup : Fib → Name → Option (List Route)
unfolding best_match
lookup fib name = faces_of (best_match name none fib)

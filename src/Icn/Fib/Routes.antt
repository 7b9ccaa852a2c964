-- ===== src/Icn/Fib/Routes.antt =====
-- What registering and removing faces makes of the forwarding table.
use mathlib.Core.Path.{subst}
use rsticulum.Prelude.{
  ℕ, ◌≡◌, ◌≢◌, refl, sym, ◌∙◌, arith, Bool, true, false, ◌&&◌, ◌||◌, Option, none, some, List, [],
  ◌∷◌, ◌==◌, if◌then◌else◌, inl, inr, Bool-cases,
}
use rsticulum.Icn.Name.{Name, starts_with}
use rsticulum.Icn.Fib.{
  Fib, FibEntry, Route, same_name, same_name_iff, update_route, insert_route, without_face,
  keep_entry, no_faces, remove_face, remove_prefix,
}
use rsticulum.Icn.Fib.Costs.{
  Sorted, Distinct, cost_of, Sorted-sort_by_cost, Distinct-sort_by_cost, Distinct-update_route,
  cost_of-sort-update, cost_of-without_face, without_face-Sorted-Distinct,
}

-- An entry has its faces cheapest first and each once.
abbrev pub EntryIsValid : FibEntry → Type 0
EntryIsValid e = Sorted e.faces × Distinct e.faces

abbrev pub LacksPrefix : Name → Fib → Type 0
LacksPrefix p [] = Unit
LacksPrefix p (e ∷ es) = (e.prefix ≢ p) × LacksPrefix p es

-- Every entry is valid, and no prefix has two entries.
abbrev pub IsValid : Fib → Type 0
IsValid [] = Unit
IsValid (e ∷ es) = EntryIsValid e × LacksPrefix e.prefix es × IsValid es

-- The cost that a prefix has over a face.
abbrev pub cost_in : Fib → Name → ℕ → Option ℕ
cost_in [] p face = none
cost_in (e ∷ es) p face = if same_name e.prefix p then cost_of face e.faces else cost_in es p face

-- One prefix is an extension of the other.
abbrev pub related : Name → Name → Bool
related p q = starts_with p q || starts_with q p

LacksPrefix-insert_route :
    (q : Name) (fib : Fib) (p : Name) (face cost : ℕ)
    → p ≢ q
    → LacksPrefix q fib
    → LacksPrefix q (insert_route fib p face cost)
unfolding insert_route
LacksPrefix-insert_route q [] p face cost h k = (h, tt)
LacksPrefix-insert_route q (e ∷ es) p face cost h (k, ks) =
    elim (Bool-cases (same_name e.prefix p)) [
      | inl here ↦ rw here (k, ks)
      | inr there ↦ rw there (k, LacksPrefix-insert_route q es p face cost h ks)
    ]

insert_route-IsValid :
    (fib : Fib) (p : Name) (face cost : ℕ) → IsValid fib → IsValid (insert_route fib p face cost)
unfolding insert_route
insert_route-IsValid [] p face cost v = (((tt, tt), (tt, tt)), tt, tt)
insert_route-IsValid (e ∷ es) p face cost (valid, lacks, v) =
    elim (Bool-cases (same_name e.prefix p)) [
      | inl here ↦ rw here (
        (
          Sorted-sort_by_cost (update_route e.faces face cost),
          Distinct-sort_by_cost (update_route e.faces face cost)
              (Distinct-update_route face cost e.faces valid.1),
        ),
        lacks,
        v,
      )
      | inr there ↦ rw there (
        valid,
        LacksPrefix-insert_route e.prefix es p face cost
            (λ same. absurd (ground (arith, same_name_iff e.prefix p))) lacks,
        insert_route-IsValid es p face cost v,
      )
    ]

LacksPrefix-remove_face :
    (q : Name) (fib : Fib) (p : Name) (face : ℕ)
    → LacksPrefix q fib
    → LacksPrefix q (remove_face fib p face)
unfolding remove_face keep_entry
LacksPrefix-remove_face q [] p face k = tt
LacksPrefix-remove_face q (e ∷ es) p face (k, ks) =
    let rest = LacksPrefix-remove_face q es p face ks in
    elim (Bool-cases (related e.prefix p)) [
      | inl near ↦ elim (Bool-cases (no_faces (without_face e.faces face))) [
        | inl dropped ↦ rw (near, dropped) rest
        | inr kept ↦ rw (near, kept) (k, rest)
      ]
      | inr far ↦ rw far (k, rest)
    ]

remove_face-IsValid :
    (fib : Fib) (p : Name) (face : ℕ) → IsValid fib → IsValid (remove_face fib p face)
unfolding remove_face keep_entry
remove_face-IsValid [] p face v = tt
remove_face-IsValid (e ∷ es) p face (valid, lacks, v) =
    let rest = remove_face-IsValid es p face v in
    let lacks' = LacksPrefix-remove_face e.prefix es p face lacks in
    elim (Bool-cases (related e.prefix p)) [
      | inl near ↦ elim (Bool-cases (no_faces (without_face e.faces face))) [
        | inl dropped ↦ rw (near, dropped) rest
        | inr kept ↦
            rw (near, kept)
              (without_face-Sorted-Distinct face e.faces valid.0 valid.1, lacks', rest)
      ]
      | inr far ↦ rw far (valid, lacks', rest)
    ]

LacksPrefix-remove_prefix :
    (q : Name) (fib : Fib) (p : Name) → LacksPrefix q fib → LacksPrefix q (remove_prefix fib p)
unfolding remove_prefix
LacksPrefix-remove_prefix q [] p k = tt
LacksPrefix-remove_prefix q (e ∷ es) p (k, ks) = elim (Bool-cases (starts_with e.prefix p)) [
  | inl gone ↦ rw gone (LacksPrefix-remove_prefix q es p ks)
  | inr kept ↦ rw kept (k, LacksPrefix-remove_prefix q es p ks)
]

remove_prefix-IsValid : (fib : Fib) (p : Name) → IsValid fib → IsValid (remove_prefix fib p)
unfolding remove_prefix
remove_prefix-IsValid [] p v = tt
remove_prefix-IsValid (e ∷ es) p (valid, lacks, v) = elim (Bool-cases (starts_with e.prefix p)) [
  | inl gone ↦ rw gone (remove_prefix-IsValid es p v)
  | inr kept ↦
      rw kept (valid, LacksPrefix-remove_prefix e.prefix es p lacks, remove_prefix-IsValid es p v)
]

-- The three operations keep every entry with its faces cheapest first and each once, and no prefix
-- with two entries.
pub operations-IsValid :
    (fib : Fib) (p : Name) (face cost : ℕ)
    → IsValid fib
    → IsValid (insert_route fib p face cost)
      × IsValid (remove_face fib p face)
      × IsValid (remove_prefix fib p)
operations-IsValid fib p face cost v = (
  insert_route-IsValid fib p face cost v,
  remove_face-IsValid fib p face v,
  remove_prefix-IsValid fib p v,
)

-- After a registration the prefix has the given cost over the face, and every other prefix or face
-- has the cost it had.
pub cost_in-insert_route :
    (fib : Fib) (p : Name) (face cost : ℕ) (q : Name) (f : ℕ)
    → IsValid fib
    → cost_in (insert_route fib p face cost) q f
      ≡ (if same_name p q && face == f then some cost else cost_in fib q f)
unfolding insert_route
cost_in-insert_route [] p face cost q f v = ground arith
cost_in-insert_route (e ∷ es) p face cost q f (valid, lacks, v) = ground (
  arith,
  cost_in-insert_route es p face cost q f v,
  cost_of-sort-update f face cost e.faces valid.1,
  same_name_iff e.prefix p,
  same_name_iff e.prefix q,
  same_name_iff p q,
)

cost_in-LacksPrefix : (fib : Fib) (q : Name) (f : ℕ) → LacksPrefix q fib → cost_in fib q f ≡ none
cost_in-LacksPrefix [] q f k = refl
cost_in-LacksPrefix (e ∷ es) q f (k, ks) =
    ground (arith, same_name_iff e.prefix q, cost_in-LacksPrefix es q f ks)

cost_of-no_faces : (rs : List Route) (f : ℕ) → no_faces rs ≡ true → cost_of f rs ≡ none
cost_of-no_faces [] f h = refl
cost_of-no_faces (r ∷ rs) f h = cc

-- After a removal of a face from a prefix, the face is gone from the prefix, from every extension
-- of it and from every prefix that it extends; no other cost has changed.
pub cost_in-remove_face :
    (fib : Fib) (p : Name) (face : ℕ) (q : Name) (f : ℕ)
    → IsValid fib
    → cost_in (remove_face fib p face) q f
      ≡ (if related q p && face == f then none else cost_in fib q f)
unfolding remove_face keep_entry
cost_in-remove_face [] p face q f v = elim (Bool-cases (related q p && face == f)) [
  | inl h ↦ rw h
  | inr h ↦ rw h
]
cost_in-remove_face (e ∷ es) p face q f (valid, lacks, v) =
    let rest = cost_in-remove_face es p face q f v in
    let fewer = cost_of-without_face f face e.faces in
    elim (Bool-cases (same_name e.prefix q)) [
      | inl here ↦
          let at = (same_name_iff e.prefix q).0 here in
          let gone = cost_in-LacksPrefix (remove_face es p face) q f (
            subst (λ n. LacksPrefix n (remove_face es p face)) at
              (LacksPrefix-remove_face e.prefix es p face lacks)) in
          elim (Bool-cases (related e.prefix p)) [
            | inl near ↦
                let near_q : related q p ≡ true = subst (λ n. related n p ≡ true) at near in
                elim (Bool-cases (no_faces (without_face e.faces face))) [
                  | inl dropped ↦
                      let empty = cost_of-no_faces (without_face e.faces face) f dropped in
                      rw (near, dropped, near_q, here) (gone ∙ sym empty ∙ fewer)
                  | inr kept ↦ rw (near, kept, near_q, here) fewer
                ]
            | inr far ↦
                let far_q : related q p ≡ false = subst (λ n. related n p ≡ false) at far in
                rw (far, far_q, here) refl
          ]
      | inr there ↦ elim (Bool-cases (related e.prefix p)) [
        | inl near ↦ elim (Bool-cases (no_faces (without_face e.faces face))) [
          | inl dropped ↦ rw (near, dropped, there) rest
          | inr kept ↦ rw (near, kept, there) rest
        ]
        | inr far ↦ rw (far, there) rest
      ]
    ]

-- ===== src/Icn/ContentStore/Keeps.antt =====
-- crates/icn/src/cs.rs: what holds of every data packet in the store keeps holding.
use rsticulum.Prelude.{
  ℕ, zero, suc, ◌≡◌, refl, inl, inr, ◌⊎◌, Option, none, some, List, [], ◌∷◌, take, get, remove,
  number_keys, All, Bool-cases, Option-cases,
}
use mathlib.Core.Path.{subst}
use rsticulum.Icn.Name.{Name}
use rsticulum.Icn.Fib.{same_name}
use rsticulum.Icn.Pit.{name_keys}
use rsticulum.Icn.Data.{Data}
use rsticulum.Icn.ContentStore.{
  CachedData, Lru, IsLru, ContentStore, moved, stored, get_exact, get_prefix, get_best, best_prefix,
  count, insert_data,
}
use rsticulum.Icn.ContentStore.Lookup.{get_prefix-IsLongest}

abbrev Entries : Type 0
Entries = List (Name × CachedData)

module _ (P : CachedData → Type 0) where
  abbrev pub Keeps : Name × CachedData → Type 0
  Keeps (name, c) = P c

  All-remove : (name : Name) (m : Entries) → All Keeps m → All Keeps (remove name m)
  unfolding remove
  All-remove name [] h = tt
  All-remove name ((k, c) ∷ m) h = elim (Bool-cases (same_name k name)) [
    | inl gone ↦ rw gone (All-remove name m h.1)
    | inr kept ↦ rw kept (h.0, All-remove name m h.1)
  ]

  All-take : (n : ℕ) (m : Entries) → All Keeps m → All Keeps (take n m)
  All-take zero m h = tt
  All-take (suc n) [] h = tt
  All-take (suc n) (x ∷ m) h = (h.0, All-take n m h.1)

  All-get : (name : Name) (m : Entries) (c : CachedData) → All Keeps m → get name m ≡ some c → P c
  unfolding get
  All-get name [] c h g = cc
  All-get name ((k, x) ∷ m) c h g = elim (Bool-cases (same_name k name)) [
    | inl same ↦ subst (λ (o : Option CachedData). OfSome o) (rw same at g) h.0
    | inr other ↦ All-get name m c h.1 (rw other at g)
  ]
    where
      OfSome : Option CachedData → Type 0
      OfSome none = ⊥
      OfSome (some y) = P y

  All-moved :
      (name : Name) (found : Option CachedData) (m : Entries)
      → get name m ≡ found
      → All Keeps m
      → All Keeps (moved name found m)
  All-moved name none m e h = h
  All-moved name (some c) m e h = (All-get name m c h e, All-remove name m h)

  -- What a lookup returns has the property.
  abbrev pub Held : Option Data → Type 0
  Held d = (d ≡ none) ⊎ ((c : CachedData) × (d ≡ some c.packet) × P c)

  module _ (lru : Lru) (laws : IsLru lru) (cs : ContentStore lru) (h : All Keeps (stored cs)) where
    pub insert_data-Keeps :
        (name : Name) (d : Data) (now : ℕ)
        → P (record { packet = d; inserted_at = now })
        → All Keeps (stored (insert_data cs name d now).1)
    unfolding insert_data
    insert_data-Keeps name d now p =
        rw (laws.iter_put name (record { packet = d; inserted_at = now }) cs.entries)
          (All-take (lru.capacity cs.entries) _ (p, All-remove name (stored cs) h))

    stored-count :
        (found : Option CachedData) (c : ContentStore lru) → stored (count found c) ≡ stored c
    unfolding count
    stored-count none c = refl
    stored-count (some x) c = refl

    pub get_exact-Keeps : (name : Name) → All Keeps (stored (get_exact cs name).1)
    unfolding get_exact
    get_exact-Keeps name =
        rw
          (
            stored-count (lru.look name cs.entries).0
                (record cs { entries = (lru.look name cs.entries).1 }),
            laws.iter_look name cs.entries,
          )
          (All-moved name (get name (stored cs)) (stored cs) refl h)

    pub get_exact-Held : (name : Name) → Held (get_exact cs name).0
    unfolding get_exact
    get_exact-Held name = elim (Option-cases (get name (stored cs))) [
      | inl absent ↦ inl (rw (laws.look_value name cs.entries, absent))
      | inr (c, found) ↦
          inr (c, rw (laws.look_value name cs.entries, found), All-get name (stored cs) c h found)
    ]

    stored-get_best : (best : Option (Name × CachedData)) → stored (get_best best cs).1 ≡ stored cs
    unfolding get_best
    stored-get_best none = refl
    stored-get_best (some (key, c)) = refl

    pub get_prefix-Keeps : (name : Name) → All Keeps (stored (get_prefix cs name).1)
    unfolding get_prefix
    get_prefix-Keeps name = rw (stored-get_best (best_prefix name none (stored cs))) h

    pub get_prefix-Held : (name : Name) → Held (get_prefix cs name).0
    get_prefix-Held name = elim (get_prefix-IsLongest lru laws cs name) [
      | inl (nothing, _) ↦ inl nothing
      | inr (key, c, result, there, _, _) ↦ inr (c, result, All-get key (stored cs) c h there)
    ]

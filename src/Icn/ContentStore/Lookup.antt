-- ===== src/Icn/ContentStore/Lookup.antt =====
-- crates/icn/src/cs.rs: what the lookups of the content store return.
use rsticulum.Prelude.{
  ◌≤◌, ◌≡◌, refl, sym, arith, ◌⊎◌, inl, inr, Bool, true, false, ◌&&◌, Option, none, some, List, [],
  ◌∷◌, if◌then◌else◌, get, Bool-cases,
}
use mathlib.Core.Path.{subst}
use rsticulum.Icn.Name.{Name, len, is_prefix_of}
use rsticulum.Icn.Fib.{same_name, same_name_iff}
use rsticulum.Icn.Pit.{name_keys}
use rsticulum.Icn.ContentStore.{
  CachedData, Lru, IsLru, ContentStore, longer, best_prefix, get_best, get_prefix, stored,
}

abbrev Entries : Type 0
Entries = List (Name × CachedData)

record Found (name : Name) (best : Option (Name × CachedData)) (entries : Entries)
    (r : Option (Name × CachedData)) : Type 0 where
  key : Name
  cached : CachedData
  result : r ≡ some (key, cached)
  held : get key entries ≡ some cached
  matches : is_prefix_of key name ≡ true
  beats : longer best key ≡ true

longer_trans :
    (best : Option (Name × CachedData)) (k j : Name) (c : CachedData)
    → longer best k ≡ true
    → longer (some (k, c)) j ≡ true
    → longer best j ≡ true
longer_trans none k j c h g = refl
longer_trans (some (b, d)) k j c h g = ground arith

-- A later entry of a name that was looked at does not win.
Found-cons :
    (name key : Name) (c : CachedData) (best : Option (Name × CachedData)) (rest : Entries)
    (r : Option (Name × CachedData)) (wins : Bool)
    → (is_prefix_of key name && longer best key) ≡ wins
    → Found name (if wins then some (key, c) else best) rest r
    → Found name best ((key, c) ∷ rest) r
unfolding get
Found-cons name key c best rest r true e f = record {
  key = f.key;
  cached = f.cached;
  result = f.result;
  held = ground (arith, same_name_iff key f.key, f.held, f.beats);
  matches = f.matches;
  beats = longer_trans best key f.key c (ground arith) f.beats;
}
Found-cons name key c best rest r false e f = record {
  key = f.key;
  cached = f.cached;
  result = f.result;
  held = ground (arith, same_name_iff key f.key, f.held, f.beats, f.matches);
  matches = f.matches;
  beats = f.beats;
}

-- The entry itself wins.
Found-head :
    (name key : Name) (c : CachedData) (best : Option (Name × CachedData)) (rest : Entries)
    → (is_prefix_of key name && longer best key) ≡ true
    → Found name best ((key, c) ∷ rest) (some (key, c))
unfolding get
Found-head name key c best rest e = record {
  key = key;
  cached = c;
  result = refl;
  held = ground (arith, same_name_iff key key);
  matches = ground arith;
  beats = ground arith;
}

abbrev Answer : Name → Option (Name × CachedData) → Entries → Option (Name × CachedData) → Type 0
Answer name best entries r = (r ≡ best) ⊎ Found name best entries r

Answer-cons :
    (name key : Name) (c : CachedData) (best : Option (Name × CachedData)) (rest : Entries)
    (r : Option (Name × CachedData)) (wins : Bool)
    → (is_prefix_of key name && longer best key) ≡ wins
    → Answer name (if wins then some (key, c) else best) rest r
    → Answer name best ((key, c) ∷ rest) r
Answer-cons name key c best rest r wins e (inr f) = inr (Found-cons name key c best rest r wins e f)
Answer-cons name key c best rest r false e (inl same) = inl same
Answer-cons name key c best rest r true e (inl same) =
    inr (subst (Found name best ((key, c) ∷ rest)) (sym same) (Found-head name key c best rest e))

best_prefix-Answer :
    (name : Name) (best : Option (Name × CachedData)) (entries : Entries)
    → Answer name best entries (best_prefix name best entries)
unfolding best_prefix
best_prefix-Answer name best [] = inl refl
best_prefix-Answer name best ((key, c) ∷ rest) =
    Answer-cons name key c best rest _ (is_prefix_of key name && longer best key) refl (
      best_prefix-Answer name
        (if is_prefix_of key name && longer best key then some (key, c) else best) rest)

not_longer-step :
    (name key j : Name) (c : CachedData) (best : Option (Name × CachedData)) (wins : Bool)
    → (is_prefix_of key name && longer best key) ≡ wins
    → longer best j ≡ false
    → longer (if wins then some (key, c) else best) j ≡ false
not_longer-step name key j c best false e h = h
not_longer-step name key j c none true e h = cc
not_longer-step name key j c (some (b, d)) true e h = ground arith

not_longer-best_prefix :
    (name j : Name) (best : Option (Name × CachedData)) (entries : Entries)
    → longer best j ≡ false
    → longer (best_prefix name best entries) j ≡ false
unfolding best_prefix
not_longer-best_prefix name j best [] h = h
not_longer-best_prefix name j best ((key, c) ∷ rest) h =
    not_longer-best_prefix name j
      (if is_prefix_of key name && longer best key then some (key, c) else best) rest
      (not_longer-step name key j c best _ refl h)

at_head :
    (name key j : Name) (c : CachedData) (best : Option (Name × CachedData))
    → key ≡ j
    → is_prefix_of j name ≡ true
    → (wins : Bool) → (is_prefix_of key name && longer best key) ≡ wins
    → longer (if wins then some (key, c) else best) j ≡ false
at_head name key j c best e p true w = ground arith
at_head name key j c best e p false w = ground arith

not_longer :
    (j : Name) (d : CachedData) (key : Name) (c : CachedData)
    → longer (some (key, c)) j ≡ false
    → len j ≤ len key
not_longer j d key c h = ground arith

-- No entry of the list that matches is longer than the result.
none_longer :
    (name j : Name) (d : CachedData) (best : Option (Name × CachedData)) (entries : Entries)
    → get j entries ≡ some d
    → is_prefix_of j name ≡ true
    → longer (best_prefix name best entries) j ≡ false
unfolding get best_prefix
none_longer name j d best [] h p = cc
none_longer name j d best ((key, c) ∷ rest) h p = elim (Bool-cases (same_name key j)) [
  | inl same ↦
      not_longer-best_prefix name j _ rest
        (at_head name key j c best ((same_name_iff key j).0 same) p _ refl)
  | inr other ↦
      none_longer name j d
        (if is_prefix_of key name && longer best key then some (key, c) else best) rest
        (rw other at h) p
]

-- The lookup for a name returns what is kept under a prefix of it, such that no longer prefix of it
-- is kept, and returns nothing if no prefix of it is kept; the entries and their order of use stay.
pub get_prefix-IsLongest :
    (lru : Lru) (laws : IsLru lru) (cs : ContentStore lru) (name : Name)
    → (((get_prefix cs name).0 ≡ none)
        × ((j : Name) (d : CachedData) → get j (stored cs) ≡ some d → is_prefix_of j name ≡ false))
      ⊎ ((key : Name) × (c : CachedData) × ((get_prefix cs name).0 ≡ some c.packet)
          × (get key (stored cs) ≡ some c)
          × (is_prefix_of key name ≡ true)
          × ((j : Name) (d : CachedData)
              → get j (stored cs) ≡ some d
              → is_prefix_of j name ≡ true
              → len j ≤ len key))
unfolding get_prefix
get_prefix-IsLongest lru laws cs name = elim (best_prefix-Answer name none (stored cs)) [
  | inl nothing ↦ inl (
    rw (nothing, get_best),
    λ j d h. elim (Bool-cases (is_prefix_of j name)) [
      | inr other ↦ other
      | inl p ↦
          let none_left : longer none j ≡ false =
            subst (λ r. longer r j ≡ false) nothing (none_longer name j d none (stored cs) h p) in
          cc
    ],
  )
  | inr f ↦ inr (
    f.key,
    f.cached,
    rw (f.result, get_best, laws.peek_value f.key cs.entries, f.held),
    f.held,
    f.matches,
    λ j d h p.
        not_longer j d f.key f.cached
          (subst (λ r. longer r j ≡ false) f.result (none_longer name j d none (stored cs) h p)),
  )
]

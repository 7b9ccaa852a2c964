-- ===== src/Icn/Forwarder/Settled.antt =====
-- crates/icn/src/forwarder.rs: between two calls no interest is pending, so no call waits for another.
use rsticulum.Prelude.{
  ℕ, ◌≡◌, refl, ap, arith, inl, inr, true, none, some, List, [], ◌∷◌, get, insert, remove, All,
  Bool-cases, Option-cases,
}
use rsticulum.Icn.Name.{Name}
use rsticulum.Icn.Fib.{same_name, same_name_iff}
use rsticulum.Icn.Pit.{
  Pit, PitEntry, name_keys, find, insert_or_aggregate, insert_or_aggregate_at, new_entry,
  set_out_face, set_out_face_at, satisfy, satisfy_at, purge_expired, purge_entries,
}
use rsticulum.Icn.Interest.{Interest}

abbrev pub Entries : Type 0
Entries = List (Name × PitEntry Interest)

abbrev pub IsDone : Name × PitEntry Interest → Type 0
IsDone (name, e) = e.satisfied ≡ true

abbrev pub AllDone : Entries → Type 0
AllDone = All IsDone

-- No entry of the table is pending.
abbrev pub IsSettled : Pit Interest → Type 0
IsSettled pit = AllDone pit.entries

-- No entry but that of a name is pending.
abbrev pub Apart : Name → Pit Interest → Type 0
Apart name pit = AllDone (remove name pit.entries)

pub AllDone-remove : (name : Name) (m : Entries) → AllDone m → AllDone (remove name m)
unfolding remove
AllDone-remove name [] h = tt
AllDone-remove name ((k, e) ∷ m) h = elim (Bool-cases (same_name k name)) [
  | inl gone ↦ rw gone (AllDone-remove name m h.1)
  | inr kept ↦ rw kept (h.0, AllDone-remove name m h.1)
]

remove-remove : (name : Name) (m : Entries) → remove name (remove name m) ≡ remove name m
unfolding remove
remove-remove name [] = refl
remove-remove name ((k, e) ∷ m) = elim (Bool-cases (same_name k name)) [
  | inl gone ↦ rw gone (remove-remove name m)
  | inr kept ↦ rw (kept, remove, kept) (ap (λ (r : Entries). (k, e) ∷ r) (remove-remove name m))
]

remove_absent : (name : Name) (m : Entries) → get name m ≡ none → remove name m ≡ m
unfolding get remove
remove_absent name [] h = refl
remove_absent name ((k, e) ∷ m) h = ground (arith, remove_absent name m)

pub AllDone-get :
    (name : Name) (m : Entries) (e : PitEntry Interest)
    → AllDone m
    → get name m ≡ some e
    → e.satisfied ≡ true
unfolding get
AllDone-get name [] e h g = cc
AllDone-get name ((k, x) ∷ m) e h g = elim (Bool-cases (same_name k name)) [
  | inl same ↦ let there = rw same at g in ground (arith, h.0)
  | inr other ↦ AllDone-get name m e h.1 (rw other at g)
]

-- An entry that is written under a name changes nothing apart from it.
Apart-insert :
    (name : Name) (e : PitEntry Interest) (m : Entries)
    → AllDone (remove name m)
    → AllDone (remove name (insert name e m))
unfolding insert
Apart-insert name e m h =
    rw (remove, (same_name_iff name name).1 refl) (AllDone-remove name (remove name m) h)

pub insert_or_aggregate-Apart :
    (pit : Pit Interest) (name : Name) (face : ℕ) (i : Interest) (timeout now : ℕ)
    → IsSettled pit
    → Apart name (insert_or_aggregate pit name face i timeout now).1
unfolding insert_or_aggregate_at new_entry
insert_or_aggregate-Apart pit name face i timeout now h =
    let rest = AllDone-remove name pit.entries h in
    elim (Option-cases (find pit name)) [
      | inl absent ↦ rw (absent, insert_or_aggregate_at) (Apart-insert name _ pit.entries rest)
      | inr (e, found) ↦
          rw (found, insert_or_aggregate_at, AllDone-get name pit.entries e h found)
            (Apart-insert name _ pit.entries rest)
    ]

pub set_out_face-Apart :
    (pit : Pit Interest) (name : Name) (out : ℕ)
    → Apart name pit
    → Apart name (set_out_face pit name out)
unfolding set_out_face_at
set_out_face-Apart pit name out h = elim (Option-cases (find pit name)) [
  | inl absent ↦ rw (absent, set_out_face_at) h
  | inr (e, found) ↦ rw (found, set_out_face_at) (Apart-insert name _ pit.entries h)
]

pub satisfy-IsSettled :
    (pit : Pit Interest) (name : Name) → Apart name pit → IsSettled (satisfy pit name).1
unfolding satisfy_at insert
satisfy-IsSettled pit name h = elim (Option-cases (find pit name)) [
  | inl absent ↦ rw (absent, satisfy_at) (rw (remove_absent name pit.entries absent) at h)
  | inr (e, found) ↦ rw (found, satisfy_at) (refl, h)
]

AllDone-purge : (now : ℕ) (m : Entries) → AllDone m → AllDone (purge_entries now m).1
unfolding purge_entries
AllDone-purge now [] h = tt
AllDone-purge now ((k, e) ∷ m) h = rw h.0 (AllDone-purge now m h.1)

pub purge-IsSettled :
    (pit : Pit Interest) (now : ℕ) → IsSettled pit → IsSettled (purge_expired pit now).1
unfolding purge_expired
purge-IsSettled pit now h = AllDone-purge now pit.entries h

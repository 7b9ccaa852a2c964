-- ===== src/Icn/Pit/Aggregation.antt =====
-- Interests in one name are aggregated, and the data goes to every face once.
use mathlib.Core.Path.{subst}
use mathlib.Core.List.{append-nil, append_assoc}
use rsticulum.Prelude.{
  ap, ℕ, ◌+◌, ◌≡◌, refl, sym, ◌∙◌, arith, false, ◌||◌, none, some, List, [], ◌∷◌, ◌++◌, ◌==◌,
  ==_iff, get, insert, get-insert, inl, inr, Bool-cases,
}
use rsticulum.Icn.Name.{Name}
use rsticulum.Icn.Fib.{same_name_iff}
use rsticulum.Icn.Pit.{
  name_keys, Pit, PitEntry, PitOp, aggregated, contains, find, add_face, insert_or_aggregate,
  insert_or_aggregate_at, new_entry, satisfy, satisfy_at,
}

-- No face twice.
abbrev pub Distinct : List ℕ → Type 0
Distinct [] = Unit
Distinct (x ∷ xs) = (contains xs x ≡ false) × Distinct xs

-- An interest that arrives: its face, the interest, its lifetime and the time.
pub record Arrival (Interest : Type 0) : Type 0 where
  pub face : ℕ
  pub interest : Interest
  pub timeout : ℕ
  pub now : ℕ

contains-append : (xs : List ℕ) (x f : ℕ) → contains (xs ++ x ∷ []) f ≡ (contains xs f || x == f)
contains-append [] x f = ground arith
contains-append (y ∷ xs) x f = ground (arith, contains-append xs x f)

Distinct-append :
    (xs : List ℕ) (x : ℕ) → contains xs x ≡ false → Distinct xs → Distinct (xs ++ x ∷ [])
Distinct-append [] x h d = (refl, tt)
Distinct-append (y ∷ xs) x h (k, d) = (
  ground (arith, contains-append xs x y, ==_iff x y, ==_iff y x),
  Distinct-append xs x (ground arith) d,
)

module _ {Interest : Type 0} where
  abbrev pub faces : List (Arrival Interest) → List ℕ
  faces [] = []
  faces (a ∷ more) = a.face ∷ faces more

  unfoldable pub express_all : Pit Interest → Name → List (Arrival Interest) → Pit Interest
  express_all pit name [] = pit
  express_all pit name (a ∷ more) =
      express_all (insert_or_aggregate pit name a.face a.interest a.timeout a.now).1 name more

  -- The entry of the name waits for the faces that were seen, each once.
  record Waits (pit : Pit Interest) (name : Name) (seen : List ℕ) : Type 0 where
    entry : PitEntry Interest
    found : find pit name ≡ some entry
    pending : entry.satisfied ≡ false
    once : Distinct entry.in_faces
    all_seen : (f : ℕ) → contains entry.in_faces f ≡ contains seen f

  get-insert_self :
      (name : Name) (e : PitEntry Interest) (m : List (Name × PitEntry Interest))
      → get name (insert name e m) ≡ some e
  get-insert_self name e m = get-insert name name e m ∙ rw ((same_name_iff name name).1 refl)

  add_face-Distinct :
      (e : PitEntry Interest) (face : ℕ)
      → Distinct e.in_faces
      → Distinct (add_face e face).in_faces × ((add_face e face).satisfied ≡ e.satisfied)
  unfolding add_face
  add_face-Distinct e face d = elim (Bool-cases (contains e.in_faces face)) [
    | inl old ↦ rw old (d, refl)
    | inr fresh ↦ rw fresh (Distinct-append e.in_faces face fresh d, refl)
  ]

  contains-add_face :
      (e : PitEntry Interest) (face f : ℕ)
      → contains (add_face e face).in_faces f ≡ (contains e.in_faces f || face == f)
  unfolding add_face
  contains-add_face e face f = elim (Bool-cases (contains e.in_faces face)) [
    | inl old ↦ rw old (ground (arith, ==_iff face f))
    | inr fresh ↦ rw fresh (contains-append e.in_faces face f)
  ]

  aggregated_lem :
      (e : PitEntry Interest) (pit : Pit Interest) (name : Name) (a : Arrival Interest)
      → e.satisfied ≡ false
      → insert_or_aggregate_at (some e) pit name a.face a.interest a.timeout a.now
        ≡ (aggregated, record pit { entries = insert name (add_face e a.face) pit.entries })
  unfolding insert_or_aggregate_at
  aggregated_lem e pit name a h = ground arith

  -- A further interest adds its face, if it is new.
  Waits-aggregate :
      (pit : Pit Interest) (name : Name) (seen : List ℕ) (a : Arrival Interest)
      → Waits pit name seen
      → Waits
          (insert_or_aggregate pit name a.face a.interest a.timeout a.now).1
          name
          (seen ++ a.face ∷ [])
  Waits-aggregate pit name seen a w =
      let added = add_face-Distinct w.entry a.face w.once in
      subst (λ (r : PitOp × Pit Interest). Waits r.1 name (seen ++ a.face ∷ []))
        (sym (
          ap (λ o. insert_or_aggregate_at o pit name a.face a.interest a.timeout a.now) w.found
          ∙ aggregated_lem w.entry pit name a w.pending))
        (record {
          entry = add_face w.entry a.face;
          found = get-insert_self name (add_face w.entry a.face) pit.entries;
          pending = added.1 ∙ w.pending;
          once = added.0;
          all_seen = λ f.
              contains-add_face w.entry a.face f
              ∙ ap (λ b. b || a.face == f) (w.all_seen f)
              ∙ sym (contains-append seen a.face f);
        })

  -- The first interest in a name makes the entry.
  Waits-first :
      (pit : Pit Interest) (name : Name) (a : Arrival Interest)
      → find pit name ≡ none
      → Waits (insert_or_aggregate pit name a.face a.interest a.timeout a.now).1 name (a.face ∷ [])
  unfolding insert_or_aggregate_at new_entry
  Waits-first pit name a h =
      subst
        (λ o.
          Waits (insert_or_aggregate_at o pit name a.face a.interest a.timeout a.now).1 name
            (a.face ∷ []))
        (sym h)
        (record {
          entry = record {
            interest = a.interest;
            in_faces = a.face ∷ [];
            out_face = none;
            expires_at = a.now + a.timeout;
            satisfied = false;
          };
          found = get-insert_self name _ pit.entries;
          pending = refl;
          once = (refl, tt);
          all_seen = λ f. refl;
        })

  Waits-express_all :
      (pit : Pit Interest) (name : Name) (seen : List ℕ) (more : List (Arrival Interest))
      → Waits pit name seen
      → Waits (express_all pit name more) name (seen ++ faces more)
  unfolding express_all
  Waits-express_all pit name seen [] w = subst (Waits pit name) (sym (append-nil seen)) w
  Waits-express_all pit name seen (a ∷ more) w =
      subst (Waits (express_all pit name (a ∷ more)) name)
        (append_assoc seen (a.face ∷ []) (faces more))
        (Waits-express_all (insert_or_aggregate pit name a.face a.interest a.timeout a.now).1 name
          (seen ++ a.face ∷ []) more (Waits-aggregate pit name seen a w))

  -- When data for a name arrives after any interests in it, the first of which found no entry, the
  -- table names every face that an interest came from, each once, and no other face.
  pub satisfy-express_all :
      (pit : Pit Interest) (name : Name) (a : Arrival Interest) (more : List (Arrival Interest))
      → find pit name ≡ none
      → (fs : List ℕ) × ((satisfy (express_all pit name (a ∷ more)) name).0 ≡ some fs)
        × Distinct fs
        × ((f : ℕ) → contains fs f ≡ contains (faces (a ∷ more)) f)
  unfolding express_all satisfy_at
  satisfy-express_all pit name a more h =
      let w =
        Waits-express_all (insert_or_aggregate pit name a.face a.interest a.timeout a.now).1 name
          (a.face ∷ []) more (Waits-first pit name a h) in
      (w.entry.in_faces, rw w.found, w.once, w.all_seen)

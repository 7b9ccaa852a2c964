-- ===== src/Icn/Fib/Lookup.antt =====
-- The lookup of the forwarding table is a longest-prefix match.
use rsticulum.Prelude.{
  ◌≤◌, ◌≡◌, ◌≢◌, refl, sym, ◌∙◌, arith, Bool, true, false, ◌&&◌, Option, none, some, List, [], ◌∷◌,
  All, inl, inr, Bool-cases, Option-cases, ◌⊎◌,
}
use rsticulum.Icn.Name.{Name, len, starts_with}
use rsticulum.Icn.Fib.{Fib, FibEntry, best_match, better, lookup}

abbrev pub IsIn : FibEntry → List FibEntry → Type 0
IsIn e [] = ⊥
IsIn e (x ∷ xs) = (x ≡ e) ⊎ IsIn e xs

-- An entry whose prefix the name has, with no longer one among the entries.
pub record IsLongest (name : Name) (es : List FibEntry) (e : FibEntry) : Type 0 where
  pub from_table : IsIn e es
  pub matches : starts_with name e.prefix ≡ true
  pub longest :
      (x : FibEntry) → IsIn x es → starts_with name x.prefix ≡ true → len x.prefix ≤ len e.prefix

-- What the loop returns from a best entry so far.
record IsBest (name : Name) (best : Option FibEntry) (es : List FibEntry) (e : FibEntry)
    : Type 0 where
  chosen : (best ≡ some e) ⊎ IsIn e es
  fits : (best ≡ some e) ⊎ (starts_with name e.prefix ≡ true)
  beats_best : (x : FibEntry) → best ≡ some x → len x.prefix ≤ len e.prefix
  beats_all :
      (x : FibEntry) → IsIn x es → starts_with name x.prefix ≡ true → len x.prefix ≤ len e.prefix

-- An entry that fits and is passed over is no longer than the best so far.
not_better :
    (best : Option FibEntry) (y : FibEntry) (fits : Bool)
    → (fits && better best y) ≡ false
    → fits ≡ true
    → (c : FibEntry) × (best ≡ some c) × (len y.prefix ≤ len c.prefix)
not_better none y fits h e = cc
not_better (some c) y fits h e = (c, refl, ground arith)

none-ne-some : {e : FibEntry} → ◌≢◌ {A = Option FibEntry} none (some e)
none-ne-some h = cc

best_match-IsBest :
    (name : Name) (best : Option FibEntry) (es : List FibEntry) (e : FibEntry)
    → best_match name best es ≡ some e
    → IsBest name best es e
unfolding best_match
best_match-IsBest name best [] e h = record {
  chosen = inl h;
  fits = inl h;
  beats_best = λ x k. ground arith;
  beats_all = λ x k m. absurd k;
}
best_match-IsBest name best (y ∷ es) e h =
    elim (Bool-cases (starts_with name y.prefix && better best y)) [
      | inl taken ↦
          let d = best_match-IsBest name (some y) es e (rw taken at h) in
          record {
            chosen = inr (elim d.chosen [ inl same ↦ inl (ground arith) | inr later ↦ inr later ]);
            fits = inr (elim d.fits [ inl same ↦ ground arith | inr fits ↦ fits ]);
            beats_best = λ x k. let m = d.beats_best y refl in ground arith;
            beats_all = λ x k m. elim k [
              | inl same ↦ rw (← same) (d.beats_best y refl)
              | inr later ↦ d.beats_all x later m
            ];
          }
      | inr left ↦
          let d = best_match-IsBest name best es e (rw left at h) in
          record {
            chosen = elim d.chosen [ inl same ↦ inl same | inr later ↦ inr (inr later) ];
            fits = d.fits;
            beats_best = d.beats_best;
            beats_all = λ x k m. elim k [
              | inl same ↦
                  let (c, at, below) =
                    not_better best y (starts_with name y.prefix) left (rw same m) in
                  rw (← same) (omega (arith, below, d.beats_best c at))
              | inr later ↦ d.beats_all x later m
            ];
          }
    ]

best_match-some :
    (name : Name) (b : FibEntry) (es : List FibEntry)
    → (e : FibEntry) × (best_match name (some b) es ≡ some e)
unfolding best_match
best_match-some name b [] = (b, refl)
best_match-some name b (y ∷ es) =
    elim (Bool-cases (starts_with name y.prefix && better (some b) y)) [
      | inl taken ↦ rw taken (best_match-some name y es)
      | inr left ↦ rw left (best_match-some name b es)
    ]

best_match-none :
    (name : Name) (es : List FibEntry)
    → best_match name none es ≡ none
    → All (λ (x : FibEntry). starts_with name x.prefix ≡ false) es
unfolding best_match
best_match-none name [] h = tt
best_match-none name (y ∷ es) h = elim (Bool-cases (starts_with name y.prefix)) [
  | inl hit ↦ let d = best_match-some name y es in absurd (none-ne-some (sym (rw hit at h) ∙ d.1))
  | inr miss ↦ (miss, best_match-none name es (rw miss at h))
]

-- The lookup returns the faces of an entry of the table whose prefix the name has, such that no
-- entry of the table with a longer prefix has it; it returns none only if the name has no prefix
-- in the table.
pub lookup-IsLongest :
    (fib : Fib) (name : Name)
    → ((e : FibEntry) × IsLongest name fib e × (lookup fib name ≡ some e.faces))
      ⊎ (All (λ (x : FibEntry). starts_with name x.prefix ≡ false) fib × (lookup fib name ≡ none))
unfolding lookup
lookup-IsLongest fib name = elim (Option-cases (best_match name none fib)) [
  | inl nothing ↦ inr (best_match-none name fib nothing, rw nothing)
  | inr (e, found) ↦
      let d = best_match-IsBest name none fib e found in
      inl (
        e,
        record { from_table = ground arith; matches = ground arith; longest = d.beats_all },
        rw found,
      )
]

-- ===== src/Icn/Name/Prefixes.antt =====
-- The prefix order of names: what `starts_with` decides.
use rsticulum.Prelude.{
  ◌≤◌, ◌≡◌, ◌↔◌, refl, ap₂, arith, true, false, List, [], ◌∷◌, ◌++◌, Bytes, length, length-append,
  ltb, ltb_of_le, if◌then◌else◌, same_iff,
}
use rsticulum.Icn.Name.{Name, len, zip_all_same, starts_with}

zip_all_same-append : (ps rest : List Bytes) → zip_all_same (ps ++ rest) ps ≡ true
unfolding zip_all_same
zip_all_same-append [] [] = refl
zip_all_same-append [] (x ∷ rest) = refl
zip_all_same-append (p ∷ ps) rest = rw ((same_iff p p).1 refl) (zip_all_same-append ps rest)

zip_all_same-extends :
    (xs ps : List Bytes)
    → length ps ≤ length xs
    → zip_all_same xs ps ≡ true
    → (rest : List Bytes) × (xs ≡ ps ++ rest)
unfolding zip_all_same
zip_all_same-extends xs [] h e = (xs, refl)
zip_all_same-extends [] (p ∷ ps) h e = absurd (omega arith)
zip_all_same-extends (x ∷ xs) (p ∷ ps) h e =
    let d = zip_all_same-extends xs ps (omega arith) (ground arith) in
    (d.0, ap₂ ◌∷◌ (ground (arith, same_iff x p)) d.1)

-- A name starts with a prefix exactly if its components are the prefix's and then some more; the
-- content hashes play no part.
pub starts_with_iff :
    (n prefix : Name)
    → (starts_with n prefix ≡ true)
      ↔ ((rest : List Bytes) × (n.components ≡ prefix.components ++ rest))
unfolding starts_with
starts_with_iff n prefix = (forth, back)
  where
    forth :
        (if ltb (len n) (len prefix) then false else zip_all_same n.components prefix.components)
          ≡ true
        → (rest : List Bytes) × (n.components ≡ prefix.components ++ rest)
    forth e = zip_all_same-extends n.components prefix.components (ground arith) (ground arith)

    back :
        ((rest : List Bytes) × (n.components ≡ prefix.components ++ rest))
        → (if ltb (len n) (len prefix) then false else zip_all_same n.components prefix.components)
          ≡ true
    back (rest, e) =
        rw
          (
            e,
            ltb_of_le (length (prefix.components ++ rest)) (len prefix)
                (omega (arith, length-append prefix.components rest)),
          )
          (zip_all_same-append prefix.components rest)

-- ===== src/Icn/Pit.antt =====
-- crates/icn/src/pit.rs: the table of pending interests. The clock is an argument, in nanoseconds;
-- `Interest` is a parameter, since the table keeps it and reads nothing of it. The hash maps are
-- association lists.
pub mod Aggregation
pub mod Loops
use rsticulum.Prelude.{
  ℕ, ◌+◌, ◌*◌, ◌≡◌, ◌↔◌, refl, arith, Bool, true, false, not, ◌&&◌, ◌||◌, Option, none, some, List,
  [], ◌∷◌, ◌++◌, Bytes, length, ltb, leb, ◌==◌, if◌then◌else◌, Keyed, get, insert, remove, same,
  same_iff, ==_iff, inl, inr,
}
use rsticulum.Icn.Name.{Name}
use rsticulum.Icn.Fib.{same_name, same_name_iff}

instance abbrev pub name_keys : Keyed Name
name_keys = record { eq = same_name; eq_iff = same_name_iff }

-- A face and a nonce.
abbrev pub same_seen : ℕ × Bytes → ℕ × Bytes → Bool
same_seen (f, n) (g, m) = f == g && same n m

pub same_seen_iff : (j k : ℕ × Bytes) → (same_seen j k ≡ true) ↔ (j ≡ k)
same_seen_iff (f, n) (g, m) = ground (arith, ==_iff f g, same_iff n m)

instance abbrev pub seen_keys : Keyed (ℕ × Bytes)
seen_keys = record { eq = same_seen; eq_iff = same_seen_iff }

pub record PitEntry (Interest : Type 0) : Type 0 where
  pub interest : Interest
  pub in_faces : List ℕ
  pub out_face : Option ℕ
  pub expires_at : ℕ
  pub satisfied : Bool

pub data PitOp : Type 0 where
  inserted aggregated : PitOp

pub record Pit (Interest : Type 0) : Type 0 where
  pub entries : List (Name × PitEntry Interest)
  pub nonce_tracker : List ((ℕ × Bytes) × ℕ)
  pub nonce_ttl : ℕ

-- `entry.in_faces.contains(&in_face)`
abbrev pub contains : List ℕ → ℕ → Bool
contains [] f = false
contains (x ∷ xs) f = x == f || contains xs f

unfoldable pub purge_nonces : ℕ → List ((ℕ × Bytes) × ℕ) → List ((ℕ × Bytes) × ℕ)
purge_nonces now [] = []
purge_nonces now ((k, t) ∷ ns) =
    let rest = purge_nonces now ns in if ltb now t then (k, t) ∷ rest else rest

-- `is_some_and(|_| true)`
abbrev is_present : Option ℕ → Bool
is_present none = false
is_present (some t) = true

module _ {Interest : Type 0} where
  unfoldable pub new : Pit Interest
  new = record { entries = []; nonce_tracker = []; nonce_ttl = 60 * 1000000000 }

  abbrev pub find : Pit Interest → Name → Option (PitEntry Interest)
  find pit name = get name pit.entries

  unfoldable pub add_face : PitEntry Interest → ℕ → PitEntry Interest
  add_face e face =
      if contains e.in_faces face then e else record e { in_faces = e.in_faces ++ face ∷ [] }

  unfoldable pub new_entry : Pit Interest → Name → ℕ → Interest → ℕ → ℕ → PitOp × Pit Interest
  new_entry pit name in_face interest timeout now = (
    inserted,
    record pit {
      entries =
          insert name
            (record {
              interest = interest;
              in_faces = in_face ∷ [];
              out_face = none;
              expires_at = now + timeout;
              satisfied = false;
            })
            pit.entries;
    },
  )

  -- By what the table has under the name.
  unfoldable pub insert_or_aggregate_at :
      Option (PitEntry Interest) → Pit Interest → Name → ℕ → Interest → ℕ → ℕ → PitOp × Pit Interest
  unfolding add_face new_entry
  insert_or_aggregate_at none pit name in_face interest timeout now =
      new_entry pit name in_face interest timeout now
  insert_or_aggregate_at (some e) pit name in_face interest timeout now =
      if not e.satisfied
      then (aggregated, record pit { entries = insert name (add_face e in_face) pit.entries })
      else new_entry pit name in_face interest timeout now

  abbrev pub insert_or_aggregate : Pit Interest → Name → ℕ → Interest → ℕ → ℕ → PitOp × Pit Interest
  insert_or_aggregate pit name = insert_or_aggregate_at (find pit name) pit name

  unfoldable pub set_out_face_at :
      Option (PitEntry Interest) → Pit Interest → Name → ℕ → Pit Interest
  set_out_face_at none pit name out_face = pit
  set_out_face_at (some e) pit name out_face = record pit {
    entries = insert name (record e { out_face = some out_face }) pit.entries;
  }

  abbrev pub set_out_face : Pit Interest → Name → ℕ → Pit Interest
  set_out_face pit name = set_out_face_at (find pit name) pit name

  unfoldable pub satisfy_at :
      Option (PitEntry Interest) → Pit Interest → Name → Option (List ℕ) × Pit Interest
  satisfy_at none pit name = (none, pit)
  satisfy_at (some e) pit name = (
    some e.in_faces,
    record pit { entries = insert name (record e { satisfied = true }) pit.entries },
  )

  abbrev pub satisfy : Pit Interest → Name → Option (List ℕ) × Pit Interest
  satisfy pit name = satisfy_at (find pit name) pit name

  -- Whether the purge at a time takes an entry.
  abbrev pub is_done : ℕ → PitEntry Interest → Bool
  is_done now e = e.satisfied || leb e.expires_at now

  unfoldable pub purge_entries :
      ℕ
      → List (Name × PitEntry Interest)
      → List (PitEntry Interest) × List (Name × PitEntry Interest)
  purge_entries now [] = ([], [])
  purge_entries now ((n, e) ∷ es) =
      let (removed, kept) = purge_entries now es in
      if is_done now e then (e ∷ removed, kept) else (removed, (n, e) ∷ kept)

  unfoldable pub purge_expired : Pit Interest → ℕ → List (PitEntry Interest) × Pit Interest
  unfolding purge_entries purge_nonces
  purge_expired pit now =
      let (removed, kept) = purge_entries now pit.entries in
      (removed, record pit { entries = kept; nonce_tracker = purge_nonces now pit.nonce_tracker })

  unfoldable pub check_loop : Pit Interest → ℕ → Bytes → Bool
  check_loop pit in_face nonce = is_present (get (in_face, nonce) pit.nonce_tracker)

  unfoldable pub record_nonce : Pit Interest → ℕ → Bytes → ℕ → Pit Interest
  record_nonce pit in_face nonce now = record pit {
    nonce_tracker = insert (in_face, nonce) (now + pit.nonce_ttl) pit.nonce_tracker;
  }

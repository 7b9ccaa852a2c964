-- ===== src/Icn/Forwarder/Routes.antt =====
-- crates/icn/src/forwarder.rs: what a call comes to after a face is unregistered, after data was
-- received, and after a call was given up while it waited.
use rsticulum.Prelude.{
  ℕ, zero, suc, ◌+◌, ◌<◌, ◌≡◌, ◌∙◌, refl, sym, ap, arith, inl, inr, true, false, ◌||◌, Option, none,
  some, List, [], ◌∷◌, Bytes, replicate, length, ltb, take, if◌then◌else◌, same, same_iff, ok, err,
  get, insert, remove, get-remove, get-insert, number_keys, All, Option-cases, ==_self,
}
use mathlib.Core.Path.{subst}
use rsticulum.Transport.Signer.{Signer}
use rsticulum.Icn.Name.{Name, len, starts_with, zip_all_same}
use rsticulum.Icn.Name as NameModule
use rsticulum.Icn.Fib.{Fib, FibEntry, Route, lookup, remove_face, same_name_iff}
use rsticulum.Icn.Pit.{
  Pit, PitEntry, name_keys, find, check_loop, record_nonce, insert_or_aggregate,
  insert_or_aggregate_at, new_entry, set_out_face, set_out_face_at, satisfy,
}
use rsticulum.Icn.Interest.{Interest}
use rsticulum.Icn.Data.{Data}
use rsticulum.Icn.Strategy.{
  BestRoute, StrategyDecision, forward_to, suppress_aggregate, serve_from_cache, decide,
  cache_serves, selector_satisfied,
}
use rsticulum.Icn.ContentStore.{
  CachedData, Lru, IsLru, ContentStore, stored, get_exact, insert_data,
}
use rsticulum.Icn.Forwarder.{
  face_not_found, Face, Strategy, register, unregister_face, settle, notify_waiters, purge, cache,
  verify_data,
}
use rsticulum.Icn.Forwarder.Pipeline.{
  World, finished, waiting, State, served, ask_face, make_pending, send_out, forward_and_wait, act,
  look_up, express, notify_matched, receive_data, routes_of,
}
use rsticulum.Icn.Forwarder.Settled.{IsSettled, AllDone-get}

abbrev zeros : Bytes
zeros = replicate 32 0

-- The name has a producer, whose hash is not all zeros.
abbrev pub HasProducer : List Bytes → Type 0
HasProducer [] = ⊥
HasProducer (c ∷ cs) = same c zeros ≡ false

same_sym : (a b : Bytes) → same a b ≡ false → same b a ≡ false
same_sym a b h = ground (arith, same_iff a b, same_iff b a)

apart_from_dummy :
    (n : Name)
    → HasProducer n.components
    → (starts_with n (NameModule.new zeros []) || starts_with (NameModule.new zeros []) n) ≡ false
unfolding starts_with NameModule.new
apart_from_dummy n h = apart n.components h
  where
    apart :
        (cs : List Bytes)
        → HasProducer cs
        → ((if ltb (length cs) 1 then false else zip_all_same cs (zeros ∷ []))
            || (if ltb 1 (length cs) then false else zip_all_same (zeros ∷ []) cs))
          ≡ false
    apart [] h = absurd h
    apart (c ∷ cs) h = ground (arith, same_sym c zeros h)

remove_face-dummy :
    (fib : Fib) (id : ℕ)
    → All (λ (e : FibEntry). HasProducer e.prefix.components) fib
    → remove_face fib (NameModule.new zeros []) id ≡ fib
unfolding remove_face
remove_face-dummy [] id h = refl
remove_face-dummy (e ∷ es) id h =
    rw (apart_from_dummy e.prefix h.0) (ap (λ (r : Fib). e ∷ r) (remove_face-dummy es id h.1))

abbrev new_pending : Interest → ℕ → ℕ → PitEntry Interest
new_pending i in_face expires_at = record {
  interest = i;
  in_faces = in_face ∷ [];
  out_face = none;
  expires_at = expires_at;
  satisfied = false;
}

find-insert_or_aggregate :
    (pit : Pit Interest) (i : Interest) (in_face timeout now : ℕ)
    → IsSettled pit
    → find (insert_or_aggregate pit i.name in_face i timeout now).1 i.name
      ≡ some (new_pending i in_face (now + timeout))
unfolding insert_or_aggregate_at new_entry
find-insert_or_aggregate pit i in_face timeout now settled =
    let made = new_pending i in_face (now + timeout) in
    let stored_so : get i.name (insert i.name made pit.entries) ≡ some made =
      get-insert i.name i.name made pit.entries ∙ rw ((same_name_iff i.name i.name).1 refl) in
    elim (Option-cases (find pit i.name)) [
      | inl absent ↦ rw (absent, insert_or_aggregate_at) stored_so
      | inr (e, found) ↦
          rw (found, insert_or_aggregate_at, AllDone-get i.name pit.entries e settled found)
            stored_so
    ]

find-set_out_face :
    (pit : Pit Interest) (name : Name) (out : ℕ) (e : PitEntry Interest)
    → find pit name ≡ some e
    → find (set_out_face pit name out) name ≡ some (record e { out_face = some out })
unfolding set_out_face_at
find-set_out_face pit name out e found =
    rw (found, set_out_face_at)
      (get-insert name name (record e { out_face = some out }) pit.entries
        ∙ rw ((same_name_iff name name).1 refl))

-- Where nothing was pending, an interest that is sent out is.
pending_after :
    (pit : Pit Interest) (i : Interest) (in_face out timeout now : ℕ)
    → IsSettled pit
    → (e : PitEntry Interest) × (find
          (set_out_face (insert_or_aggregate pit i.name in_face i timeout now).1 i.name out)
          i.name
        ≡ some e)
      × (e.satisfied ≡ false)
pending_after pit i in_face out timeout now settled =
    let made = (insert_or_aggregate pit i.name in_face i timeout now).1 in
    (
      record (new_pending i in_face (now + timeout)) { out_face = some out },
      find-set_out_face made i.name out (new_pending i in_face (now + timeout))
          (find-insert_or_aggregate pit i in_face timeout now settled),
      refl,
    )

-- The best-route strategy serves what is cached and fits.
serves_cached :
    (b : BestRoute) (strategy : Strategy) (i : Interest) (rs : List Route)
    (pit_hit : Option (PitEntry Interest)) (hit : Option Data) (d : Data) (now : ℕ)
    → strategy ≡ decide b
    → hit ≡ some d
    → selector_satisfied i d ≡ true
    → strategy i rs pit_hit hit now ≡ serve_from_cache
unfolding decide
serves_cached b strategy i rs pit_hit hit d now best cached fits =
    subst (λ (st : Strategy). st i rs pit_hit hit now ≡ serve_from_cache) (sym best)
      (rw (cached, fits))

module _ (s : Signer) (blake3 : Bytes → Bytes) (lru : Lru) where
  -- What the forwarder is while it acts on an interest.
  abbrev acting : State s blake3 lru → Interest → ℕ → World → State s blake3 lru
  acting f i in_face w = record f {
    pit = record_nonce f.pit in_face i.nonce w.now;
    cs = (look_up s blake3 lru f i).1;
  }

  abbrev chosen_by : State s blake3 lru → Interest → World → StrategyDecision
  chosen_by f i w =
      f.strategy i (routes_of (lookup f.fib i.name)) (find f.pit i.name)
        (look_up s blake3 lru f i).0 w.now

  express-act :
      (f : State s blake3 lru) (i : Interest) (in_face : ℕ) (w : World)
      (decision : StrategyDecision)
      → check_loop f.pit in_face i.nonce ≡ false
      → chosen_by f i w ≡ decision
      → express s blake3 lru f i in_face w
        ≡ act s blake3 lru decision (look_up s blake3 lru f i).0 (acting f i in_face w) i in_face w
  unfolding express record_nonce
  express-act f i in_face w decision fresh chosen = rw (fresh, chosen)

  ask_face-unknown :
      (faces : List (ℕ × Face)) (id : ℕ) (f : State s blake3 lru) (i : Interest) (w : World)
      → (ask_face s blake3 lru (get id (remove id faces)) f i id w).0
        ≡ finished (err face_not_found)
  unfolding ask_face
  ask_face-unknown faces id f i w = rw (get-remove id id faces, ==_self id)

  -- If every prefix of the forwarding table has a producer, unregistering a face leaves the table as
  -- it was, and an interest that the strategy sent to the face before fails with "face not found".
  pub express-unregister_face :
      (f : State s blake3 lru) (id : ℕ) (i : Interest) (in_face : ℕ) (w : World)
      → All (λ (e : FibEntry). HasProducer e.prefix.components) f.fib
      → check_loop f.pit in_face i.nonce ≡ false
      → f.strategy i
          (routes_of (lookup f.fib i.name))
          (find f.pit i.name)
          (look_up s blake3 lru f i).0
          w.now
        ≡ forward_to id
      → ((unregister_face f id).fib ≡ f.fib)
        × ((express s blake3 lru (unregister_face f id) i in_face w).0
            ≡ finished (err face_not_found))
  unfolding unregister_face look_up forward_and_wait act
  express-unregister_face f id i in_face w producers fresh chosen =
      let table = remove_face-dummy f.fib id producers in
      (
        table,
        ap (λ out. out.0)
              (express-act (unregister_face f id) i in_face w (forward_to id) fresh
                (rw table chosen))
            ∙ ask_face-unknown f.faces id _ i w,
      )

  received-same :
      (matched : Option (List ℕ)) (f : State s blake3 lru) (name : Name) (d : Data)
      → ((notify_matched s blake3 lru matched f name d).cs ≡ f.cs)
        × ((notify_matched s blake3 lru matched f name d).strategy ≡ f.strategy)
  unfolding notify_matched notify_waiters
  received-same none f name d = (refl, refl)
  received-same (some faces) f name d = (refl, refl)

  receive_data-cs :
      (f : State s blake3 lru) (d : Data) (now : ℕ)
      → verify_data s blake3 f.key_store d ≡ ok tt
      → ((receive_data s blake3 lru f d now).1.cs ≡ (insert_data f.cs d.name d now).1)
        × ((receive_data s blake3 lru f d now).1.strategy ≡ f.strategy)
  unfolding receive_data cache purge settle
  receive_data-cs f d now valid =
      let m = received-same (satisfy f.pit d.name).0 (settle f d.name) d.name d in
      rw valid (ap (λ (cs : ContentStore lru). (insert_data cs d.name d now).1) m.0, m.1)

  get-take :
      (n : ℕ) (name : Name) (c : CachedData) (m : List (Name × CachedData))
      → 0 < n
      → get name (take n ((name, c) ∷ m)) ≡ some c
  unfolding get
  get-take zero name c m h = absurd (omega arith)
  get-take (suc n) name c m h = rw ((same_name_iff name name).1 refl)

  get_exact-insert_data :
      (laws : IsLru lru) (cs : ContentStore lru) (name : Name) (d : Data) (now : ℕ)
      → 0 < lru.capacity cs.entries
      → (get_exact (insert_data cs name d now).1 name).0 ≡ some d
  unfolding get_exact insert_data
  get_exact-insert_data laws cs name d now room =
      let c : CachedData = record { packet = d; inserted_at = now } in
      rw (
        laws.look_value name (lru.put name c cs.entries).1,
        laws.iter_put name c cs.entries,
        get-take (lru.capacity cs.entries) name c (remove name (stored cs)) room,
      )

  -- Over a lawful cache with room, a data packet that was received and that verifies is handed to a
  -- later interest in exactly its name that is no loop and whose selector it satisfies, under the
  -- best-route strategy, whatever the faces answer. A selector with `must_be_fresh` is no exception:
  -- it is satisfied, from the cache, by data that is not marked stale.
  pub express-receive_data :
      (laws : IsLru lru) (b : BestRoute) (f : State s blake3 lru) (d : Data) (now : ℕ)
      (i : Interest) (in_face : ℕ) (w : World)
      → f.strategy ≡ decide b
      → 0 < lru.capacity f.cs.entries
      → verify_data s blake3 f.key_store d ≡ ok tt
      → i.name ≡ d.name
      → i.can_be_prefix ≡ false
      → selector_satisfied i d ≡ true
      → check_loop (receive_data s blake3 lru f d now).1.pit in_face i.nonce ≡ false
      → (express s blake3 lru (receive_data s blake3 lru f d now).1 i in_face w).0
        ≡ finished (ok (some d))
  express-receive_data laws b f d now i in_face w best room valid named exact fits fresh =
      let g = (receive_data s blake3 lru f d now).1 in
      let (cached, same_strategy) = receive_data-cs f d now valid in
      let hit : (look_up s blake3 lru g i).0 ≡ some d =
        unfold look_up in
        rw (exact, named, cached) (get_exact-insert_data laws f.cs d.name d now room) in
      let chosen : chosen_by g i w ≡ serve_from_cache =
        serves_cached b g.strategy i _ _ _ d w.now (same_strategy ∙ best) hit fits in
      ap (λ out. out.0) (express-act g i in_face w serve_from_cache fresh chosen)
      ∙ unfold act in ap served hit ∙ unfold served in refl

  -- An interest for which another is pending waits, without end, for a channel that only another
  -- call could send to.
  pub express-pending :
      (b : BestRoute) (f : State s blake3 lru) (i j : Interest) (in_face in_face' out timeout : ℕ)
      (w w' : World)
      → f.strategy ≡ decide b
      → IsSettled f.pit
      → j.name ≡ i.name
      → let g =
          send_out s blake3 lru (make_pending s blake3 lru f i in_face timeout w.now) i.name out in
        check_loop g.pit in_face' j.nonce ≡ false
        → cache_serves j (look_up s blake3 lru g j).0 ≡ false
        → (express s blake3 lru g j in_face' w').0 ≡ waiting f.notifier.fresh
  unfolding look_up
  express-pending b f i j in_face in_face' out timeout w w' best settled named fresh misses =
      let g =
        send_out s blake3 lru (make_pending s blake3 lru f i in_face timeout w.now) i.name out in
      let (e, found, waits) = pending_after f.pit i in_face out timeout w.now settled in
      let there : find g.pit j.name ≡ some e = rw named (unfold send_out make_pending in found) in
      let chosen : chosen_by g j w' ≡ suppress_aggregate =
        unfold send_out make_pending decide in rw (best, misses, there, waits) in
      ap (λ p. p.0) (express-act g j in_face' w' suppress_aggregate fresh chosen)
      ∙ unfold act register send_out make_pending in refl

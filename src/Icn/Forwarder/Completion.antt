-- ===== src/Icn/Forwarder/Completion.antt =====
-- crates/icn/src/forwarder.rs: every call returns, and leaves no interest pending.
use rsticulum.Prelude.{
  ℕ, ◌≡◌, ◌≢◌, ◌⊎◌, refl, inl, inr, false, Option, none, some, List, [], ◌∷◌, Bytes, Result, ok,
  err, panic, get, number_keys, Bool-cases,
}
use rsticulum.Transport.Signer.{Signer}
use rsticulum.Icn.Name.{Name}
use rsticulum.Icn.Fib.{Route}
use rsticulum.Icn.Pit.{Pit, PitEntry, name_keys, find, record_nonce, check_loop}
use rsticulum.Icn.Interest.{Interest}
use rsticulum.Icn.Data.{Data}
use rsticulum.Icn.Strategy.{
  StrategyDecision, BestRoute, forward_to, multicast, suppress_aggregate, serve_from_cache,
  no_route, is_pending, cache_serves, decide, first_available, is_in_backoff,
}
use rsticulum.Icn.ContentStore.{Lru}
use rsticulum.Icn.Forwarder.{
  ForwardError, loop_detected, InterestResult, Face, Strategy, settle, notify_waiters, purge, cache,
  verify_data,
}
use rsticulum.Icn.Forwarder.Pipeline.{
  FaceAnswer, answered, failed, World, Progress, finished, State, served, close_with, take_data,
  conclude, ask_face, make_pending, send_out, forward_and_wait, multicast_and_wait, act, admit,
  express, notify_matched, race_of, known,
}
use rsticulum.Icn.Forwarder.Settled.{
  IsSettled, Apart, AllDone-get, insert_or_aggregate-Apart, set_out_face-Apart, satisfy-IsSettled,
  purge-IsSettled,
}

-- What the best-route strategy keeps to: it waits for another interest only if one is pending.
abbrev pub WaitsOnlyIfPending : Strategy → Type 0
WaitsOnlyIfPending strategy =
    (i : Interest) (rs : List Route) (pit_hit : Option (PitEntry Interest)) (hit : Option Data)
    (now : ℕ)
    → is_pending pit_hit ≡ false
    → strategy i rs pit_hit hit now ≢ suppress_aggregate

first_available-forwards :
    (b : BestRoute) (now : ℕ) (rs : List Route) → first_available b now rs ≢ suppress_aggregate
unfolding first_available
first_available-forwards b now [] h = cc
first_available-forwards b now (r ∷ rs) h = elim (Bool-cases (is_in_backoff b r.face now)) [
  | inl busy ↦ first_available-forwards b now rs (rw busy at h)
  | inr free ↦ cc (rw free at h)
]

pub decide-WaitsOnlyIfPending : (b : BestRoute) → WaitsOnlyIfPending (decide b)
unfolding decide
decide-WaitsOnlyIfPending b i rs pit_hit hit now idle h = elim (Bool-cases (cache_serves i hit)) [
  | inl serves ↦ cc (rw serves at h)
  | inr misses ↦ first_available-forwards b now rs (rw (misses, idle) at h)
]

module _ (s : Signer) (blake3 : Bytes → Bytes) (lru : Lru) where
  -- The call returned, and unless it panicked, nothing is pending after it.
  abbrev pub Ends : Progress × State s blake3 lru → Type 0
  Ends out = (r : InterestResult) × (out.0 ≡ finished r) × ((r ≡ panic) ⊎ IsSettled out.1.pit)

  close_with-Ends :
      (f : State s blake3 lru) (name : Name) (result : InterestResult) (now : ℕ)
      → Apart name f.pit
      → Ends (close_with s blake3 lru f name result now)
  unfolding close_with settle notify_waiters purge
  close_with-Ends f name result now h =
      (result, refl, inr (purge-IsSettled _ now (satisfy-IsSettled f.pit name h)))

  take_data-Ends :
      (checked : Result ForwardError (Unit {0})) (f : State s blake3 lru) (name : Name) (d : Data)
      (now : ℕ)
      → Apart name f.pit
      → Ends (take_data s blake3 lru checked f name d now)
  unfolding take_data settle cache
  take_data-Ends (ok _) f name d now h =
      close_with-Ends (cache f d.name d now) name (ok (some d)) now h
  take_data-Ends (err e) f name d now h = (_, refl, inr (satisfy-IsSettled f.pit name h))
  take_data-Ends panic f name d now h = (_, refl, inl refl)

  conclude-Ends :
      (f : State s blake3 lru) (name : Name) (answer : FaceAnswer) (now : ℕ)
      → Apart name f.pit
      → Ends (conclude s blake3 lru f name answer now)
  unfolding conclude
  conclude-Ends f name (answered (some d)) now h =
      take_data-Ends (verify_data s blake3 f.key_store d) f name d now h
  conclude-Ends f name (answered none) now h = close_with-Ends f name (ok none) now h
  conclude-Ends f name (failed e) now h = close_with-Ends f name _ now h

  ask_face-Ends :
      (face : Option Face) (f : State s blake3 lru) (i : Interest) (out : ℕ) (w : World)
      → Apart i.name f.pit
      → Ends (ask_face s blake3 lru face f i out w)
  unfolding ask_face settle
  ask_face-Ends none f i out w h = (_, refl, inr (satisfy-IsSettled f.pit i.name h))
  ask_face-Ends (some face) f i out w h = conclude-Ends f i.name (w.answers out i) w.later h

  forward_and_wait-Ends :
      (f : State s blake3 lru) (i : Interest) (in_face out : ℕ) (w : World)
      → IsSettled f.pit
      → Ends (forward_and_wait s blake3 lru f i in_face out w)
  unfolding forward_and_wait make_pending send_out
  forward_and_wait-Ends f i in_face out w h =
      ask_face-Ends (get out f.faces) _ i out w (
        set_out_face-Apart _ i.name out
          (insert_or_aggregate-Apart f.pit i.name in_face i _ w.now h))

  multicast_and_wait-Ends :
      (f : State s blake3 lru) (i : Interest) (in_face : ℕ) (ids : List ℕ) (w : World)
      → IsSettled f.pit
      → Ends (multicast_and_wait s blake3 lru f i in_face ids w)
  unfolding multicast_and_wait make_pending
  multicast_and_wait-Ends f i in_face ids w h =
      conclude-Ends _ i.name (answered (race_of w (known f.faces ids) i)) w.later
        (insert_or_aggregate-Apart f.pit i.name in_face i i.lifetime w.now h)

  served-returns : (hit : Option Data) → (r : InterestResult) × (served hit ≡ finished r)
  unfolding served
  served-returns none = (panic, refl)
  served-returns (some d) = (ok (some d), refl)

  act-Ends :
      (decision : StrategyDecision) (hit : Option Data) (f : State s blake3 lru) (i : Interest)
      (in_face : ℕ) (w : World)
      → decision ≢ suppress_aggregate
      → IsSettled f.pit
      → Ends (act s blake3 lru decision hit f i in_face w)
  unfolding act
  act-Ends serve_from_cache hit f i in_face w goes h =
      ((served-returns hit).0, (served-returns hit).1, inr h)
  act-Ends suppress_aggregate hit f i in_face w goes h = absurd (goes refl)
  act-Ends (forward_to out) hit f i in_face w goes h = forward_and_wait-Ends f i in_face out w h
  act-Ends (multicast ids) hit f i in_face w goes h = multicast_and_wait-Ends f i in_face ids w h
  act-Ends no_route hit f i in_face w goes h = (ok none, refl, inr h)

  nothing_pending :
      (found : Option (PitEntry Interest)) (pit : Pit Interest) (name : Name)
      → find pit name ≡ found
      → IsSettled pit
      → is_pending found ≡ false
  nothing_pending none pit name e h = refl
  nothing_pending (some entry) pit name e h = rw (AllDone-get name pit.entries entry h e)

  -- With nothing pending and a strategy that waits only for what is pending, a call returns; unless
  -- it panics, nothing is pending after it either.
  pub express-Ends :
      (f : State s blake3 lru) (i : Interest) (in_face : ℕ) (w : World)
      → WaitsOnlyIfPending f.strategy
      → IsSettled f.pit
      → Ends (express s blake3 lru f i in_face w)
  unfolding express admit record_nonce
  express-Ends f i in_face w lawful h = elim (Bool-cases (check_loop f.pit in_face i.nonce)) [
    | inl loop ↦ rw loop (err loop_detected, refl, inr h)
    | inr fresh ↦ rw fresh (
        act-Ends _ _ _ i in_face w (lawful i _ _ _ w.now (nothing_pending _ f.pit i.name refl h)) h)
  ]

  -- No call changes the strategy.
  take_data-strategy :
      (checked : Result ForwardError (Unit {0})) (f : State s blake3 lru) (name : Name) (d : Data)
      (now : ℕ)
      → (take_data s blake3 lru checked f name d now).1.strategy ≡ f.strategy
  unfolding take_data close_with settle notify_waiters purge cache
  take_data-strategy (ok _) f name d now = refl
  take_data-strategy (err e) f name d now = refl
  take_data-strategy panic f name d now = refl

  conclude-strategy :
      (f : State s blake3 lru) (name : Name) (answer : FaceAnswer) (now : ℕ)
      → (conclude s blake3 lru f name answer now).1.strategy ≡ f.strategy
  unfolding conclude close_with settle notify_waiters purge
  conclude-strategy f name (answered (some d)) now =
      take_data-strategy (verify_data s blake3 f.key_store d) f name d now
  conclude-strategy f name (answered none) now = refl
  conclude-strategy f name (failed e) now = refl

  ask_face-strategy :
      (face : Option Face) (f : State s blake3 lru) (i : Interest) (out : ℕ) (w : World)
      → (ask_face s blake3 lru face f i out w).1.strategy ≡ f.strategy
  unfolding ask_face settle
  ask_face-strategy none f i out w = refl
  ask_face-strategy (some face) f i out w = conclude-strategy f i.name (w.answers out i) w.later

  act-strategy :
      (decision : StrategyDecision) (hit : Option Data) (f : State s blake3 lru) (i : Interest)
      (in_face : ℕ) (w : World)
      → (act s blake3 lru decision hit f i in_face w).1.strategy ≡ f.strategy
  unfolding act forward_and_wait multicast_and_wait make_pending send_out
  act-strategy serve_from_cache hit f i in_face w = refl
  act-strategy suppress_aggregate hit f i in_face w = refl
  act-strategy (forward_to out) hit f i in_face w = ask_face-strategy (get out f.faces) _ i out w
  act-strategy (multicast ids) hit f i in_face w =
      conclude-strategy _ i.name (answered (race_of w (known f.faces ids) i)) w.later
  act-strategy no_route hit f i in_face w = refl

  pub express-strategy :
      (f : State s blake3 lru) (i : Interest) (in_face : ℕ) (w : World)
      → (express s blake3 lru f i in_face w).1.strategy ≡ f.strategy
  unfolding express admit
  express-strategy f i in_face w = elim (Bool-cases (check_loop f.pit in_face i.nonce)) [
    | inl loop ↦ rw loop
    | inr fresh ↦ rw fresh (act-strategy _ _ _ i in_face w)
  ]

  -- What received data leaves behind.
  pub matched-same :
      (matched : Option (List ℕ)) (f : State s blake3 lru) (name : Name) (d : Data)
      → ((notify_matched s blake3 lru matched f name d).pit ≡ f.pit)
        × ((notify_matched s blake3 lru matched f name d).strategy ≡ f.strategy)
  unfolding notify_matched notify_waiters
  matched-same none f name d = (refl, refl)
  matched-same (some faces) f name d = (refl, refl)

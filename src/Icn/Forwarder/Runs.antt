-- ===== src/Icn/Forwarder/Runs.antt =====
-- crates/icn/src/forwarder.rs: runs of calls, one after the other, as the exclusive access of each
-- call orders them.
use rsticulum.Prelude.{
  ℕ, ◌≡◌, ◌≢◌, ◌⊎◌, sym, inl, inr, some, List, [], ◌∷◌, Bytes, Result, ok, err, panic, All,
}
use mathlib.Core.Path.{subst}
use rsticulum.Transport.Signer.{Signer}
use rsticulum.Icn.Name.{Name}
use rsticulum.Icn.Pit.{Pit, satisfy, name_keys}
use rsticulum.Icn.Pit as PitModule
use rsticulum.Icn.Interest.{Interest}
use rsticulum.Icn.Data.{Data}
use rsticulum.Icn.Strategy.{BestRoute, decide}
use rsticulum.Icn.ContentStore.{Lru, IsLru}
use rsticulum.Icn.Forwarder.{
  ForwardError, InterestResult, Face, with_strategy, register_face, unregister_face, add_route,
  register_keys, settle, purge, cache, verify_data,
}
use rsticulum.Icn.Forwarder.Pipeline.{
  World, Progress, finished, waiting, State, express, receive_data, take_received,
}
use rsticulum.Icn.Forwarder.Settled.{IsSettled, AllDone-remove, satisfy-IsSettled, purge-IsSettled}
use rsticulum.Icn.Forwarder.Completion.{
  WaitsOnlyIfPending, decide-WaitsOnlyIfPending, express-Ends, express-strategy, matched-same,
}
use rsticulum.Icn.Forwarder.Verified.{IsVerified, HandsOut, express-Safe, receive_data-IsVerified}

pub data Call (K : Type 0) : Type 0 where
  registers_face : Face → Call K
  unregisters_face : ℕ → Call K
  adds_route : Name → ℕ → ℕ → Call K
  registers_keys : Bytes → K → Call K
  expresses : Interest → ℕ → World → Call K
  receives : Data → ℕ → Call K

-- After a call: the forwarder is free for the next one, or the call waits and keeps it, or it
-- panicked.
pub data Outcome (F : Type 0) : Type 0 where
  free : F → Outcome F
  stuck : ℕ → Outcome F
  panicked : Outcome F

module _ {F : Type 0} where
  unfoldable pub after : Progress × F → Outcome F
  after (finished panic, f) = panicked
  after (finished (ok d), f) = free f
  after (finished (err e), f) = free f
  after (waiting channel, f) = stuck channel

  unfoldable pub after_receipt : Result ForwardError (Unit {0}) × F → Outcome F
  after_receipt (panic, f) = panicked
  after_receipt (ok u, f) = free f
  after_receipt (err e, f) = free f

  -- What holds of the forwarder if it is free.
  abbrev pub IfFree : (F → Type 0) → Outcome F → Type 0
  IfFree P (free f) = P f
  IfFree P (stuck channel) = Unit
  IfFree P panicked = Unit

  -- It is not stuck, and what holds of the forwarder if it is free.
  abbrev pub NotStuck : (F → Type 0) → Outcome F → Type 0
  NotStuck P (free f) = P f
  NotStuck P (stuck channel) = ⊥
  NotStuck P panicked = Unit

module _ (s : Signer) (blake3 : Bytes → Bytes) (lru : Lru) where
  unfoldable pub step : State s blake3 lru → Call s.Keys → Outcome (State s blake3 lru)
  unfolding after after_receipt
  step f (registers_face face) = free (register_face f face)
  step f (unregisters_face id) = free (unregister_face f id)
  step f (adds_route prefix face cost) = free (add_route f prefix face cost)
  step f (registers_keys hash keys) = free (register_keys f hash keys)
  step f (expresses i in_face w) = after (express s blake3 lru f i in_face w)
  step f (receives d now) = after_receipt (receive_data s blake3 lru f d now)

  unfoldable pub run : State s blake3 lru → List (Call s.Keys) → Outcome (State s blake3 lru)
  unfolding step
  run f [] = free f
  run f (c ∷ cs) = elim (step f c) [
    | free g ↦ run g cs
    | stuck channel ↦ stuck channel
    | panicked ↦ panicked
  ]

  -- Nothing is pending, and the strategy waits only for what is.
  pub record IsIdle (f : State s blake3 lru) : Type 0 where
    pub lawful : WaitsOnlyIfPending f.strategy
    pub settled : IsSettled f.pit

  take_received-IsIdle :
      (result : Result ForwardError (Unit {0})) (f : State s blake3 lru) (d : Data) (now : ℕ)
      → IsIdle f
      → IsIdle (take_received s blake3 lru result f d now).1
  unfolding take_received purge cache settle
  take_received-IsIdle (ok _) f d now v =
      let m = matched-same s blake3 lru (satisfy f.pit d.name).0 (settle f d.name) d.name d in
      record {
        lawful = subst WaitsOnlyIfPending (sym m.1) v.lawful;
        settled = purge-IsSettled _ now (
            subst IsSettled (sym m.0)
              (satisfy-IsSettled f.pit d.name (AllDone-remove d.name f.pit.entries v.settled)));
      }
  take_received-IsIdle (err e) f d now v = v
  take_received-IsIdle panic f d now v = v

  after-NotStuck :
      (out : Progress × State s blake3 lru) (r : InterestResult)
      → out.0 ≡ finished r
      → WaitsOnlyIfPending out.1.strategy
      → (r ≡ panic) ⊎ IsSettled out.1.pit
      → NotStuck IsIdle (after out)
  unfolding after
  after-NotStuck (finished (ok d), f) r e lawful (inr h) = record { lawful = lawful; settled = h }
  after-NotStuck (finished (ok d), f) r e lawful (inl p) = cc
  after-NotStuck (finished (err x), f) r e lawful (inr h) = record { lawful = lawful; settled = h }
  after-NotStuck (finished (err x), f) r e lawful (inl p) = cc
  after-NotStuck (finished panic, f) r e lawful h = tt
  after-NotStuck (waiting c, f) r e lawful h = cc

  receipt-NotStuck :
      (out : Result ForwardError (Unit {0}) × State s blake3 lru)
      → IsIdle out.1
      → NotStuck IsIdle (after_receipt out)
  unfolding after_receipt
  receipt-NotStuck (ok u, f) v = v
  receipt-NotStuck (err e, f) v = v
  receipt-NotStuck (panic, f) v = tt

  step-NotStuck : (f : State s blake3 lru) (c : Call s.Keys) → IsIdle f → NotStuck IsIdle (step f c)
  unfolding step register_face unregister_face add_route register_keys receive_data
  step-NotStuck f (registers_face face) v = record { lawful = v.lawful; settled = v.settled }
  step-NotStuck f (unregisters_face id) v = record { lawful = v.lawful; settled = v.settled }
  step-NotStuck f (adds_route prefix face cost) v = record {
    lawful = v.lawful;
    settled = v.settled;
  }
  step-NotStuck f (registers_keys hash keys) v = record { lawful = v.lawful; settled = v.settled }
  step-NotStuck f (expresses i in_face w) v =
      let (r, returned, rest) = express-Ends s blake3 lru f i in_face w v.lawful v.settled in
      after-NotStuck (express s blake3 lru f i in_face w) r returned
        (subst WaitsOnlyIfPending (sym (express-strategy s blake3 lru f i in_face w)) v.lawful) rest
  step-NotStuck f (receives d now) v =
      receipt-NotStuck (receive_data s blake3 lru f d now)
        (take_received-IsIdle (verify_data s blake3 f.key_store d) f d now v)

  next-NotStuck :
      (o : Outcome (State s blake3 lru)) (cs : List (Call s.Keys))
      → ((f : State s blake3 lru) → IsIdle f → NotStuck IsIdle (run f cs))
      → NotStuck IsIdle o
      → NotStuck IsIdle
          (elim o [ free g ↦ run g cs | stuck channel ↦ stuck channel | panicked ↦ panicked ])
  next-NotStuck (free g) cs ih h = ih g h
  next-NotStuck (stuck channel) cs ih h = absurd h
  next-NotStuck panicked cs ih h = tt

  run-NotStuck :
      (f : State s blake3 lru) (cs : List (Call s.Keys)) → IsIdle f → NotStuck IsIdle (run f cs)
  unfolding run
  run-NotStuck f [] v = v
  run-NotStuck f (c ∷ cs) v =
      next-NotStuck (step f c) cs (λ g h. run-NotStuck g cs h) (step-NotStuck f c v)

  NotStuck-ne-stuck :
      (o : Outcome (State s blake3 lru)) (channel : ℕ) → NotStuck IsIdle o → o ≢ stuck channel
  NotStuck-ne-stuck (free g) channel h e = cc
  NotStuck-ne-stuck (stuck c) channel h e = absurd h
  NotStuck-ne-stuck panicked channel h e = cc

  new-IsIdle : (b : BestRoute) → IsIdle (with_strategy (decide b))
  unfolding with_strategy PitModule.new
  new-IsIdle b = record { lawful = decide-WaitsOnlyIfPending b; settled = tt }

  -- Whatever calls are made one after another on a new forwarder with the best-route strategy, none
  -- of them waits for another interest, so none is stuck; and after a run without a panic no
  -- interest is pending.
  pub run-ne-stuck :
      (b : BestRoute) (cs : List (Call s.Keys))
      → ((channel : ℕ) → run (with_strategy (decide b)) cs ≢ stuck channel)
        × ((f : State s blake3 lru) → run (with_strategy (decide b)) cs ≡ free f → IsSettled f.pit)
  run-ne-stuck b cs =
      let h = run-NotStuck (with_strategy (decide b)) cs (new-IsIdle b) in
      (λ channel. NotStuck-ne-stuck _ channel h, λ f e. (subst (NotStuck IsIdle) e h).settled)

  -- A call that does not change the keys.
  abbrev pub LeavesKeys : Call s.Keys → Type 0
  LeavesKeys (registers_keys hash keys) = ⊥
  LeavesKeys _ = Unit

  module _ (keys : List (Bytes × s.Keys)) (laws : IsLru lru) where
    abbrev Fine : Outcome (State s blake3 lru) → Type 0
    Fine = IfFree (IsVerified s blake3 lru keys)

    after-Fine :
        (out : Progress × State s blake3 lru)
        → IsVerified s blake3 lru keys out.1
        → Fine (after out)
    unfolding after
    after-Fine (finished (ok d), f) v = v
    after-Fine (finished (err e), f) v = v
    after-Fine (finished panic, f) v = tt
    after-Fine (waiting c, f) v = tt

    receipt-Fine :
        (out : Result ForwardError (Unit {0}) × State s blake3 lru)
        → IsVerified s blake3 lru keys out.1
        → Fine (after_receipt out)
    unfolding after_receipt
    receipt-Fine (ok u, f) v = v
    receipt-Fine (err e, f) v = v
    receipt-Fine (panic, f) v = tt

    step-Fine :
        (f : State s blake3 lru) (c : Call s.Keys)
        → LeavesKeys c
        → IsVerified s blake3 lru keys f
        → Fine (step f c)
    unfolding step register_face unregister_face add_route
    step-Fine f (registers_face face) l v = record { its_keys = v.its_keys; checked = v.checked }
    step-Fine f (unregisters_face id) l v = record { its_keys = v.its_keys; checked = v.checked }
    step-Fine f (adds_route prefix face cost) l v = record {
      its_keys = v.its_keys;
      checked = v.checked;
    }
    step-Fine f (registers_keys hash k) l v = absurd l
    step-Fine f (expresses i in_face w) l v =
        after-Fine _ (express-Safe s blake3 lru keys laws f i in_face w v).1
    step-Fine f (receives d now) l v =
        receipt-Fine _ (receive_data-IsVerified s blake3 lru keys laws f d now v)

    next-Fine :
        (o : Outcome (State s blake3 lru)) (cs : List (Call s.Keys))
        → ((f : State s blake3 lru) → IsVerified s blake3 lru keys f → Fine (run f cs))
        → Fine o
        → Fine (elim o [ free g ↦ run g cs | stuck channel ↦ stuck channel | panicked ↦ panicked ])
    next-Fine (free g) cs ih h = ih g h
    next-Fine (stuck channel) cs ih h = tt
    next-Fine panicked cs ih h = tt

    run-Fine :
        (f : State s blake3 lru) (cs : List (Call s.Keys))
        → All LeavesKeys cs
        → IsVerified s blake3 lru keys f
        → Fine (run f cs)
    unfolding run
    run-Fine f [] l v = v
    run-Fine f (c ∷ cs) l v =
        next-Fine (step f c) cs (λ g h. run-Fine g cs l.1 h) (step-Fine f c l.0 v)

    -- From a forwarder whose cache holds only what verifies under its keys, after any run of calls
    -- that register no keys, that does not panic, and after which an interest is answered with data:
    -- the cache still holds only what verifies, and that data, from the cache or from a face,
    -- verifies.
    pub run-IsVerified :
        (f g : State s blake3 lru) (cs : List (Call s.Keys)) (i : Interest) (in_face : ℕ)
        (w : World) (d : Data)
        → IsVerified s blake3 lru keys f
        → All LeavesKeys cs
        → run f cs ≡ free g
        → (express s blake3 lru g i in_face w).0 ≡ finished (ok (some d))
        → IsVerified s blake3 lru keys g × (verify_data s blake3 keys d ≡ ok tt)
    run-IsVerified f g cs i in_face w d v l e handed =
        let h : IsVerified s blake3 lru keys g = subst Fine e (run-Fine f cs l v) in
        (
          h,
          subst (HandsOut s blake3 lru keys) handed
              (express-Safe s blake3 lru keys laws g i in_face w h).0,
        )

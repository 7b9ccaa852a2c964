-- ===== src/Icn/Forwarder/Pipeline.antt =====
-- crates/icn/src/forwarder.rs: express, forward_and_wait, multicast_and_wait and receive_data.
use rsticulum.Prelude.{
  ℕ, ◌*◌, max, Option, none, some, List, [], ◌∷◌, Bytes, if◌then◌else◌, Result, ok, err, panic, get,
  number_keys,
}
use rsticulum.Transport.Signer.{Signer}
use rsticulum.Icn.Name.{Name}
use rsticulum.Icn.Fib.{Route, lookup}
use rsticulum.Icn.Pit.{
  name_keys, find, check_loop, record_nonce, insert_or_aggregate, set_out_face, satisfy,
}
use rsticulum.Icn.Interest.{Interest}
use rsticulum.Icn.Data.{Data}
use rsticulum.Icn.Strategy.{
  StrategyDecision, forward_to, multicast, suppress_aggregate, serve_from_cache, no_route, second,
}
use rsticulum.Icn.ContentStore.{ContentStore, Lru, get_exact, get_prefix}
use rsticulum.Icn.Forwarder.{
  ForwardError, loop_detected, face_not_found, verification_failed, face_failed, InterestResult,
  Face, Forwarder, register, settle, notify_waiters, purge, cache, verify_data,
}

-- What `express_interest` of a face returns.
pub data FaceAnswer : Type 0 where
  answered : Option Data → FaceAnswer
  failed : Bytes → FaceAnswer

-- The answer of each face, and of the race between several, which a timeout ends; the times of the
-- call and of the answer.
pub record World : Type 0 where
  pub answers : ℕ → Interest → FaceAnswer
  pub race : List ℕ → Interest → Option Data
  pub now : ℕ
  pub later : ℕ

-- A call returns, or waits on a channel.
pub data Progress : Type 0 where
  finished : InterestResult → Progress
  waiting : ℕ → Progress

-- `unwrap_or_default`
abbrev pub routes_of : Option (List Route) → List Route
routes_of none = []
routes_of (some rs) = rs

abbrev pub tolerance : Option Face → ℕ
tolerance none = 4 * second
tolerance (some face) = face.disruption_tolerance

-- The faces that are there.
unfoldable pub known : List (ℕ × Face) → List ℕ → List ℕ
known faces [] = []
known faces (id ∷ ids) = elim (get id faces) [
  | none ↦ known faces ids
  | some face ↦ id ∷ known faces ids
]

abbrev pub race_of : World → List ℕ → Interest → Option Data
race_of w [] i = none
race_of w (id ∷ ids) i = w.race (id ∷ ids) i

unfoldable pub served : Option Data → Progress
served none = finished panic
served (some d) = finished (ok (some d))

module _ (s : Signer) (blake3 : Bytes → Bytes) (lru : Lru) where
  abbrev pub State : Type 0
  State = Forwarder lru s.Keys

  -- Satisfy the entry, notify who waits, purge.
  unfoldable pub close_with : State → Name → InterestResult → ℕ → Progress × State
  close_with f name result now =
      (finished result, purge (notify_waiters (settle f name) name result) now)

  -- A data packet that came back for a name, once it was verified or not.
  unfoldable pub take_data :
      Result ForwardError (Unit {0}) → State → Name → Data → ℕ → Progress × State
  unfolding close_with
  take_data (ok _) f name d now = close_with (cache f d.name d now) name (ok (some d)) now
  take_data (err e) f name d now = (finished (err (verification_failed e)), settle f name)
  take_data panic f name d now = (finished panic, f)

  unfoldable pub conclude : State → Name → FaceAnswer → ℕ → Progress × State
  unfolding take_data
  conclude f name (answered (some d)) now =
      take_data (verify_data s blake3 f.key_store d) f name d now
  conclude f name (answered none) now = close_with f name (ok none) now
  conclude f name (failed e) now = close_with f name (err (face_failed e)) now

  unfoldable pub ask_face : Option Face → State → Interest → ℕ → World → Progress × State
  unfolding conclude
  ask_face none f i out w = (finished (err face_not_found), settle f i.name)
  ask_face (some face) f i out w = conclude f i.name (w.answers out i) w.later

  unfoldable pub make_pending : State → Interest → ℕ → ℕ → ℕ → State
  make_pending f i in_face timeout now = record f {
    pit = (insert_or_aggregate f.pit i.name in_face i timeout now).1;
  }

  unfoldable pub send_out : State → Name → ℕ → State
  send_out f name out = record f { pit = set_out_face f.pit name out }

  unfoldable pub forward_and_wait : State → Interest → ℕ → ℕ → World → Progress × State
  unfolding ask_face make_pending send_out
  forward_and_wait f i in_face out w =
      let timeout = max i.lifetime (tolerance (get out f.faces)) in
      ask_face (get out f.faces) (send_out (make_pending f i in_face timeout w.now) i.name out) i
        out w

  unfoldable pub multicast_and_wait : State → Interest → ℕ → List ℕ → World → Progress × State
  unfolding conclude make_pending
  multicast_and_wait f i in_face ids w =
      conclude (make_pending f i in_face i.lifetime w.now) i.name
        (answered (race_of w (known f.faces ids) i)) w.later

  unfoldable pub act :
      StrategyDecision → Option Data → State → Interest → ℕ → World → Progress × State
  unfolding served forward_and_wait multicast_and_wait
  act serve_from_cache hit f i in_face w = (served hit, f)
  act suppress_aggregate hit f i in_face w =
      let (channel, notifier) = register f.notifier i.name in
      (waiting channel, record f { notifier = notifier })
  act (forward_to out) hit f i in_face w = forward_and_wait f i in_face out w
  act (multicast ids) hit f i in_face w = multicast_and_wait f i in_face ids w
  act no_route hit f i in_face w = (finished (ok none), f)

  unfoldable pub look_up : State → Interest → Option Data × ContentStore lru
  look_up f i = if i.can_be_prefix then get_prefix f.cs i.name else get_exact f.cs i.name

  -- After the loop check.
  unfoldable pub admit : State → Interest → ℕ → World → Progress × State
  unfolding act look_up
  admit f i in_face w =
      let (hit, cs) = look_up f i in
      let decision = f.strategy i (routes_of (lookup f.fib i.name)) (find f.pit i.name) hit w.now in
      act decision hit (record f { cs = cs }) i in_face w

  unfoldable pub express : State → Interest → ℕ → World → Progress × State
  unfolding admit
  express f i in_face w =
      if check_loop f.pit in_face i.nonce
      then (finished (err loop_detected), f)
      else admit (record f { pit = record_nonce f.pit in_face i.nonce w.now }) i in_face w

  -- If something was pending, who waits is notified.
  unfoldable pub notify_matched : Option (List ℕ) → State → Name → Data → State
  notify_matched none f name d = f
  notify_matched (some in_faces) f name d = notify_waiters f name (ok (some d))

  unfoldable pub take_received :
      Result ForwardError (Unit {0}) → State → Data → ℕ → Result ForwardError (Unit {0}) × State
  unfolding notify_matched
  take_received (ok _) f d now =
      let matched = (satisfy f.pit d.name).0 in
      (ok tt, purge (cache (notify_matched matched (settle f d.name) d.name d) d.name d now) now)
  take_received (err e) f d now = (err e, f)
  take_received panic f d now = (panic, f)

  unfoldable pub receive_data : State → Data → ℕ → Result ForwardError (Unit {0}) × State
  unfolding take_received
  receive_data f d now = take_received (verify_data s blake3 f.key_store d) f d now

-- ===== src/Icn/Forwarder/Verified.antt =====
-- crates/icn/src/forwarder.rs: what is cached and handed out was verified.
use rsticulum.Prelude.{
  ℕ, ◌≡◌, ◌∙◌, refl, sym, inl, inr, Option, none, some, List, Bytes, Result, ok, err, panic, get,
  number_keys, All, Bool-cases,
}
use mathlib.Core.Path.{subst}
use rsticulum.Transport.Signer.{Signer}
use rsticulum.Icn.Name.{Name}
use rsticulum.Icn.Pit.{record_nonce, check_loop, satisfy, name_keys}
use rsticulum.Icn.Interest.{Interest}
use rsticulum.Icn.Data.{Data}
use rsticulum.Icn.Strategy.{
  StrategyDecision, forward_to, multicast, suppress_aggregate, serve_from_cache, no_route,
}
use rsticulum.Icn.ContentStore.{CachedData, Lru, IsLru, ContentStore, stored}
use rsticulum.Icn.ContentStore.Keeps.{
  Keeps, Held, insert_data-Keeps, get_exact-Keeps, get_exact-Held, get_prefix-Keeps,
  get_prefix-Held,
}
use rsticulum.Icn.Forwarder.{
  ForwardError, InterestResult, Face, register, settle, notify_waiters, purge, cache, verify_data,
}
use rsticulum.Icn.Forwarder.Pipeline.{
  FaceAnswer, answered, failed, World, Progress, finished, waiting, State, served, close_with,
  take_data, conclude, ask_face, make_pending, send_out, forward_and_wait, multicast_and_wait, act,
  look_up, admit, express, notify_matched, take_received, receive_data, race_of, known,
}

module _ (s : Signer) (blake3 : Bytes → Bytes) (lru : Lru) (keys : List (Bytes × s.Keys)) where
  -- A data packet that verifies under the registered keys.
  abbrev pub Checked : CachedData → Type 0
  Checked c = verify_data s blake3 keys c.packet ≡ ok tt

  abbrev pub AllChecked : ContentStore lru → Type 0
  AllChecked cs = All (Keeps Checked) (stored cs)

  -- The keys are these, and all that is cached verifies.
  pub record IsVerified (f : State s blake3 lru) : Type 0 where
    pub its_keys : f.key_store ≡ keys
    pub checked : AllChecked f.cs

  -- What a call hands out verifies.
  abbrev pub HandsOut : Progress → Type 0
  HandsOut (finished (ok (some d))) = verify_data s blake3 keys d ≡ ok tt
  HandsOut (finished _) = Unit
  HandsOut (waiting _) = Unit

  abbrev Safe : Progress × State s blake3 lru → Type 0
  Safe out = HandsOut out.0 × IsVerified out.1

  module _ (laws : IsLru lru) where
    settle-IsVerified :
        (f : State s blake3 lru) (name : Name) → IsVerified f → IsVerified (settle f name)
    unfolding settle
    settle-IsVerified f name v = record { its_keys = v.its_keys; checked = v.checked }

    close-IsVerified :
        (f : State s blake3 lru) (name : Name) (result : InterestResult) (now : ℕ)
        → IsVerified f
        → IsVerified (close_with s blake3 lru f name result now).1
    unfolding close_with settle notify_waiters purge
    close-IsVerified f name result now v = record { its_keys = v.its_keys; checked = v.checked }

    cache-IsVerified :
        (f : State s blake3 lru) (name : Name) (d : Data) (now : ℕ)
        → verify_data s blake3 f.key_store d ≡ ok tt
        → IsVerified f
        → IsVerified (cache f name d now)
    unfolding cache
    cache-IsVerified f name d now e v = record {
      its_keys = v.its_keys;
      checked = insert_data-Keeps Checked lru laws f.cs v.checked name d now (rw v.its_keys at e);
    }

    take_data-Safe :
        (result : Result ForwardError (Unit {0})) (f : State s blake3 lru) (name : Name) (d : Data)
        (now : ℕ)
        → verify_data s blake3 f.key_store d ≡ result
        → IsVerified f
        → Safe (take_data s blake3 lru result f name d now)
    unfolding take_data
    take_data-Safe (ok tt) f name d now e v = (
      unfold close_with in rw v.its_keys at e,
      close-IsVerified (cache f d.name d now) name (ok (some d)) now
          (cache-IsVerified f d.name d now e v),
    )
    take_data-Safe (err x) f name d now e v = (tt, settle-IsVerified f name v)
    take_data-Safe panic f name d now e v = (tt, v)

    conclude-Safe :
        (f : State s blake3 lru) (name : Name) (answer : FaceAnswer) (now : ℕ)
        → IsVerified f
        → Safe (conclude s blake3 lru f name answer now)
    unfolding conclude
    conclude-Safe f name (answered (some d)) now v =
        take_data-Safe (verify_data s blake3 f.key_store d) f name d now refl v
    conclude-Safe f name (answered none) now v =
        (unfold close_with in tt, close-IsVerified f name (ok none) now v)
    conclude-Safe f name (failed x) now v =
        (unfold close_with in tt, close-IsVerified f name _ now v)

    ask_face-Safe :
        (face : Option Face) (f : State s blake3 lru) (i : Interest) (out : ℕ) (w : World)
        → IsVerified f
        → Safe (ask_face s blake3 lru face f i out w)
    unfolding ask_face
    ask_face-Safe none f i out w v = (tt, settle-IsVerified f i.name v)
    ask_face-Safe (some face) f i out w v = conclude-Safe f i.name (w.answers out i) w.later v

    served-HandsOut : (hit : Option Data) → Held Checked hit → HandsOut (served hit)
    unfolding served
    served-HandsOut none h = tt
    served-HandsOut (some d) (inl nothing) = cc
    served-HandsOut (some d) (inr (c, same, checked)) = let e : d ≡ c.packet = cc in rw e checked

    act-Safe :
        (decision : StrategyDecision) (hit : Option Data) (f : State s blake3 lru) (i : Interest)
        (in_face : ℕ) (w : World)
        → Held Checked hit
        → IsVerified f
        → Safe (act s blake3 lru decision hit f i in_face w)
    unfolding act forward_and_wait multicast_and_wait make_pending send_out register
    act-Safe serve_from_cache hit f i in_face w held v = (served-HandsOut hit held, v)
    act-Safe suppress_aggregate hit f i in_face w held v =
        (tt, record { its_keys = v.its_keys; checked = v.checked })
    act-Safe (forward_to out) hit f i in_face w held v =
        ask_face-Safe (get out f.faces) _ i out w
          (record { its_keys = v.its_keys; checked = v.checked })
    act-Safe (multicast ids) hit f i in_face w held v =
        conclude-Safe _ i.name (answered (race_of w (known f.faces ids) i)) w.later
          (record { its_keys = v.its_keys; checked = v.checked })
    act-Safe no_route hit f i in_face w held v = (tt, v)

    look_up-Held :
        (f : State s blake3 lru) (i : Interest)
        → IsVerified f
        → Held Checked (look_up s blake3 lru f i).0 × AllChecked (look_up s blake3 lru f i).1
    unfolding look_up
    look_up-Held f i v = elim (Bool-cases i.can_be_prefix) [
      | inl prefix ↦ rw prefix (
        get_prefix-Held Checked lru laws f.cs v.checked i.name,
        get_prefix-Keeps Checked lru laws f.cs v.checked i.name,
      )
      | inr exact ↦ rw exact (
        get_exact-Held Checked lru laws f.cs v.checked i.name,
        get_exact-Keeps Checked lru laws f.cs v.checked i.name,
      )
    ]

    -- What a call hands out, from the cache or from a face, verifies under the registered keys, and
    -- the cache holds only what verifies after it.
    pub express-Safe :
        (f : State s blake3 lru) (i : Interest) (in_face : ℕ) (w : World)
        → IsVerified f
        → HandsOut (express s blake3 lru f i in_face w).0
          × IsVerified (express s blake3 lru f i in_face w).1
    unfolding express admit record_nonce
    express-Safe f i in_face w v = elim (Bool-cases (check_loop f.pit in_face i.nonce)) [
      | inl loop ↦ rw loop (tt, v)
      | inr fresh ↦
          let g : State s blake3 lru = record f {
            pit = record_nonce f.pit in_face i.nonce w.now;
          } in
          let found = look_up-Held g i (record { its_keys = v.its_keys; checked = v.checked }) in
          rw fresh (
            act-Safe _ _ _ i in_face w found.0
              (record { its_keys = v.its_keys; checked = found.1 }))
    ]

    matched-IsVerified :
        (matched : Option (List ℕ)) (f : State s blake3 lru) (name : Name) (d : Data)
        → IsVerified f
        → IsVerified (notify_matched s blake3 lru matched f name d)
    unfolding notify_matched notify_waiters
    matched-IsVerified none f name d v = v
    matched-IsVerified (some faces) f name d v = record {
      its_keys = v.its_keys;
      checked = v.checked;
    }

    take_received-IsVerified :
        (result : Result ForwardError (Unit {0})) (f : State s blake3 lru) (d : Data) (now : ℕ)
        → verify_data s blake3 f.key_store d ≡ result
        → IsVerified f
        → IsVerified (take_received s blake3 lru result f d now).1
    unfolding take_received purge
    take_received-IsVerified (ok tt) f d now e v =
        let m =
          matched-IsVerified (satisfy f.pit d.name).0 (settle f d.name) d.name d
            (settle-IsVerified f d.name v) in
        let c =
          cache-IsVerified
            (notify_matched s blake3 lru (satisfy f.pit d.name).0 (settle f d.name) d.name d) d.name
            d now (subst (λ ks. verify_data s blake3 ks d ≡ ok tt) (v.its_keys ∙ sym m.its_keys) e)
            m in
        record { its_keys = c.its_keys; checked = c.checked }
    take_received-IsVerified (err x) f d now e v = v
    take_received-IsVerified panic f d now e v = v

    pub receive_data-IsVerified :
        (f : State s blake3 lru) (d : Data) (now : ℕ)
        → IsVerified f
        → IsVerified (receive_data s blake3 lru f d now).1
    unfolding receive_data
    receive_data-IsVerified f d now v =
        take_received-IsVerified (verify_data s blake3 f.key_store d) f d now refl v

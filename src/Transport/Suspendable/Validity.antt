-- ===== src/Transport/Suspendable/Validity.antt =====
-- crates/transport/src/suspendable.rs: what holds in each state of a link, and that each call keeps it.
use rsticulum.Prelude.{
  ℕ, ◌≡◌, ◌≢◌, refl, sym, Bool, true, false, not, Option, none, some, List, [], ◌∷◌, Bytes,
  if◌then◌else◌, Result, ok, err, panic, leb, Bool-cases, inl, inr, ◌+◌, ◌^◌,
}
use mathlib.Core.Path.{subst}
use rsticulum.Identity.RnsAddress.{RnsAddress}
use rsticulum.Packet.{Packet}
use rsticulum.Transport.Error.{TransportError}
use rsticulum.Transport.Signer.{Signer}
use rsticulum.Transport.Link.{LinkConfig}
use rsticulum.Transport.Suspendable.{
  SuspendableState, closed, handshaking, active, suspended, is_active, Sessions, Disk, Link,
  derive_transport_id, with_config_and_storage, establish_in, complete_handshake_in, activate_if,
  check_proof, suspend_in, suspended_if, resume_count, handle_disconnect_in, resume_in,
  handshaking_if, load, close,
}
use rsticulum.Transport.Suspendable.Replay.{send_each-same}
use rsticulum.Transport.Suspendable.Messages.{
  send_in, send_each, replay_held, deliver, keep_opened, recv_from,
}

module _ (s : Signer) (t : Sessions s) where
  -- What holds in each state: an active or suspended link has the key of its peer, and a closed one
  -- has no key and holds no message. The transport id is that of the two addresses.
  abbrev pub HasKey : Link s t → Type 0
  HasKey l = l.derived_key ≡ some (t.from_static l.local l.remote_encryption_key)

  abbrev pub InState : SuspendableState → Link s t → Type 0
  InState closed l = (l.derived_key ≡ none) × (l.inbound ≡ []) × (l.held_outbound ≡ [])
  InState handshaking l = Unit
  InState active l = HasKey l
  InState suspended l = HasKey l

  pub record IsValid (l : Link s t) : Type 0 where
    pub of_state : InState l.state l
    pub its_transport : l.transport_id ≡ derive_transport_id s t l.local l.remote_rns

  pub new-IsValid :
      (local : s.Keys) (remote : RnsAddress) (identity_key encryption_key : Bytes)
      (config : LinkConfig) (has_storage : Bool)
      → IsValid
          (with_config_and_storage s t local remote identity_key encryption_key config has_storage)
  unfolding with_config_and_storage
  new-IsValid local remote identity_key encryption_key config has_storage = record {
    of_state = (refl, refl, refl);
    its_transport = refl;
  }

  pub establish-IsValid :
      (state : SuspendableState) (l : Link s t)
      → l.state ≡ state
      → IsValid l
      → IsValid (establish_in s t state l).1
  unfolding establish_in
  establish-IsValid closed l e v = record { of_state = tt; its_transport = v.its_transport }
  establish-IsValid handshaking l e v = record { of_state = tt; its_transport = v.its_transport }
  establish-IsValid active l e v = v
  establish-IsValid suspended l e v = record { of_state = tt; its_transport = v.its_transport }

  activate-IsValid :
      (checked : Result TransportError (Unit {0})) (l : Link s t)
      → IsValid l
      → IsValid (activate_if s t checked l).1
  unfolding activate_if
  activate-IsValid (ok _) l v = record { of_state = refl; its_transport = v.its_transport }
  activate-IsValid (err e) l v = v
  activate-IsValid panic l v = v

  pub complete-IsValid :
      (state : SuspendableState) (l : Link s t) (bs : Bytes)
      → IsValid l
      → IsValid (complete_handshake_in s t state l bs).1
  unfolding complete_handshake_in
  complete-IsValid closed l bs v = v
  complete-IsValid handshaking l bs v = activate-IsValid (check_proof s t l bs) l v
  complete-IsValid active l bs v = v
  complete-IsValid suspended l bs v = v

  suspended_if-IsValid :
      (written : Result TransportError Disk) (l : Link s t) (disk : Disk)
      → HasKey l
      → IsValid l
      → IsValid (suspended_if s t written l disk).1
  unfolding suspended_if
  suspended_if-IsValid (ok d) l disk key v = record {
    of_state = key;
    its_transport = v.its_transport;
  }
  suspended_if-IsValid (err e) l disk key v = v
  suspended_if-IsValid panic l disk key v = v

  pub suspend-IsValid :
      (state : SuspendableState) (l : Link s t) (disk : Disk) (now : ℕ)
      → l.state ≡ state
      → IsValid l
      → IsValid (suspend_in s t state l disk now).1
  unfolding suspend_in
  suspend-IsValid closed l disk now e v = v
  suspend-IsValid handshaking l disk now e v = v
  suspend-IsValid active l disk now e v =
      let key = subst (λ st. InState st l) e v.of_state in
      elim (Bool-cases (leb (2 ^ 32) (resume_count s t l disk + 1))) [
        | inl over ↦ rw over v
        | inr within ↦ rw within (suspended_if-IsValid _ l disk key v)
      ]
  suspend-IsValid suspended l disk now e v = v

  pub disconnect-IsValid :
      (state : SuspendableState) (l : Link s t) (disk : Disk) (now : ℕ)
      → IsValid l
      → IsValid (handle_disconnect_in s t state l disk now).1
  unfolding handle_disconnect_in
  disconnect-IsValid closed l disk now v = v
  disconnect-IsValid handshaking l disk now v = suspend-IsValid l.state l disk now refl v
  disconnect-IsValid active l disk now v = suspend-IsValid l.state l disk now refl v
  disconnect-IsValid suspended l disk now v = v

  handshaking_if-IsValid :
      (loaded : Result TransportError (Link s t)) (l : Link s t)
      → IsValid l
      → IsValid (handshaking_if s t loaded l).1
  unfolding handshaking_if
  handshaking_if-IsValid (ok m) l v = record { of_state = tt; its_transport = refl }
  handshaking_if-IsValid (err e) l v = v
  handshaking_if-IsValid panic l v = v

  pub resume-IsValid :
      (state : SuspendableState) (l : Link s t) (disk : Disk)
      → IsValid l
      → IsValid (resume_in s t state l disk).1
  unfolding resume_in
  resume-IsValid closed l disk v = v
  resume-IsValid handshaking l disk v = v
  resume-IsValid active l disk v = v
  resume-IsValid suspended l disk v =
      handshaking_if-IsValid (if l.has_storage then load s t disk.file disk.readable l else ok l) l
        v

  -- A link whose messages changed, in a state that does not speak of them.
  held-IsValid :
      (state : SuspendableState) (l : Link s t) (held : List Bytes)
      → l.state ≡ state
      → state ≢ closed
      → IsValid l
      → IsValid (record l { held_outbound = held })
  held-IsValid closed l held e open_state v = absurd (open_state refl)
  held-IsValid handshaking l held e open_state v = record {
    of_state = rw e tt;
    its_transport = v.its_transport;
  }
  held-IsValid active l held e open_state v = record {
    of_state = rw e (rw e at v.of_state);
    its_transport = v.its_transport;
  }
  held-IsValid suspended l held e open_state v = record {
    of_state = rw e (rw e at v.of_state);
    its_transport = v.its_transport;
  }

  inbound-IsValid :
      (state : SuspendableState) (l : Link s t) (inbound : List Bytes)
      → l.state ≡ state
      → state ≢ closed
      → IsValid l
      → IsValid (record l { inbound = inbound })
  inbound-IsValid closed l inbound e open_state v = absurd (open_state refl)
  inbound-IsValid handshaking l inbound e open_state v = record {
    of_state = rw e tt;
    its_transport = v.its_transport;
  }
  inbound-IsValid active l inbound e open_state v = record {
    of_state = rw e (rw e at v.of_state);
    its_transport = v.its_transport;
  }
  inbound-IsValid suspended l inbound e open_state v = record {
    of_state = rw e (rw e at v.of_state);
    its_transport = v.its_transport;
  }

  pub send-IsValid :
      (state : SuspendableState) (l : Link s t) (text : Bytes)
      → l.state ≡ state
      → IsValid l
      → IsValid (send_in s state l text).1
  unfolding send_in
  send-IsValid closed l text e v = v
  send-IsValid handshaking l text e v = held-IsValid handshaking l _ e (λ h. cc) v
  send-IsValid active l text e v = v
  send-IsValid suspended l text e v = held-IsValid suspended l _ e (λ h. cc) v

  active_of_test : (state : SuspendableState) → is_active state ≡ true → state ≡ active
  active_of_test active e = refl
  active_of_test closed e = cc
  active_of_test handshaking e = cc
  active_of_test suspended e = cc

  -- A call that refuses by a test, and leaves the link as it is then.
  unless-IsValid :
      {A : Type 0} (test : Bool) (l : Link s t) (a : A) (out : A × Link s t)
      → IsValid l
      → (test ≡ true → IsValid out.1)
      → IsValid (if not test then (a, l) else out).1
  unless-IsValid true l a out v then_valid = then_valid refl
  unless-IsValid false l a out v then_valid = v

  pub replay-IsValid : (l : Link s t) → IsValid l → IsValid (replay_held s l).1
  unfolding replay_held
  replay-IsValid l v =
      let emptied : Link s t = record l { held_outbound = [] } in
      unless-IsValid (is_active l.state) l _ (send_each s emptied l.held_outbound) v λ test.
        let e = active_of_test l.state test in
        subst IsValid (sym (send_each-same s emptied l.held_outbound e))
          (held-IsValid active l [] e (λ h. cc) v)

  keep-IsValid :
      (opened : Option Bytes) (l : Link s t)
      → l.state ≡ active
      → IsValid l
      → IsValid (keep_opened s opened l).1
  unfolding keep_opened
  keep-IsValid none l e v = v
  keep-IsValid (some text) l e v = inbound-IsValid active l _ e (λ h. cc) v

  pub deliver-IsValid :
      (l : Link s t) (packet : Packet) → IsValid l → IsValid (deliver s l packet).1
  unfolding deliver
  deliver-IsValid l packet v = unless-IsValid (is_active l.state) l _ _ v λ test.
      unless-IsValid _ l _ _ v λ same.
        keep-IsValid (s.decrypt_from l.local packet.payload) l (active_of_test l.state test) v

  pub recv-IsValid :
      (inbound : List Bytes) (state : SuspendableState) (l : Link s t)
      → l.inbound ≡ inbound
      → l.state ≡ state
      → IsValid l
      → IsValid (recv_from s inbound l).1
  unfolding recv_from
  recv-IsValid [] state l i e v = v
  recv-IsValid (text ∷ rest) closed l i e v =
      let nothing : l.inbound ≡ [] = (subst (λ st. InState st l) e v.of_state).1 in cc
  recv-IsValid (text ∷ rest) handshaking l i e v = inbound-IsValid handshaking l rest e (λ h. cc) v
  recv-IsValid (text ∷ rest) active l i e v = inbound-IsValid active l rest e (λ h. cc) v
  recv-IsValid (text ∷ rest) suspended l i e v = inbound-IsValid suspended l rest e (λ h. cc) v

  pub close-IsValid : (l : Link s t) (disk : Disk) → IsValid l → IsValid (close s t l disk).1
  unfolding close
  close-IsValid l disk v = record { of_state = (refl, refl, refl); its_transport = v.its_transport }

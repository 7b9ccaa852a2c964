-- ===== src/Transport/Suspendable/Losses.antt =====
-- crates/transport/src/suspendable.rs: what becomes of the messages that were held while a link was away.
use rsticulum.Prelude.{
  ℕ, ◌<◌, ◌≡◌, ◌∙◌, refl, sym, ap, Bool, true, false, Option, some, List, [], ◌∷◌, ◌++◌, Bytes,
  length, if◌then◌else◌, Result, ok, err, map_err, ◌>>=◌, All, leb, leb_of_lt, ◌+◌, ◌^◌,
}
use mathlib.Core.List.{append_assoc, append-nil}
use rsticulum.Packet.{Packet}
use rsticulum.Transport.Error.{
  TransportError, invalid_chunk_size, proof_error, other, session_write, signature_verification,
}
use rsticulum.Transport.Proof as ProofModule
use rsticulum.Transport.Signer.{Signer}
use rsticulum.Transport.Suspendable.{
  SuspendableState, handshaking, active, suspended, SuspendedSession, Sessions, Disk, Link,
  derive_transport_id, establish_in, establish, complete_handshake_in, complete_handshake,
  activate_if, check_proof, verify_proof_external, suspend_in, suspend, suspended_if, session_of,
  write_session, resume_in, resume, handshaking_if, load, restore_from, resume_count,
}
use rsticulum.Transport.Suspendable.Messages.{send_in, send, seal, send_each, replay_held}
use rsticulum.Transport.Suspendable.Replay.{
  Carries, IsPaired, deliver_all, deliver_all-replay_held, replay_held-active, send_each-stops,
}

module _ (s : Signer) (t : Sessions s) where
  -- `send` of each text, whatever it answers.
  unfoldable pub send_all : Link s t → List Bytes → Link s t
  send_all l [] = l
  send_all l (text ∷ texts) = send_all (send s l text).1 texts

  send_all-suspended :
      (l : Link s t) (texts : List Bytes)
      → send_all (record l { state = suspended }) texts
        ≡ record l { state = suspended; held_outbound = l.held_outbound ++ texts }
  unfolding send_all send_in
  send_all-suspended l [] =
      ap (λ (held : List Bytes). record l { state = suspended; held_outbound = held })
        (sym (append-nil l.held_outbound))
  send_all-suspended l (text ∷ texts) =
      send_all-suspended (record l { held_outbound = l.held_outbound ++ text ∷ [] }) texts
      ∙ ap (λ (held : List Bytes). record l { state = suspended; held_outbound = held })
          (append_assoc l.held_outbound (text ∷ []) texts)

  -- A link without a file: suspended, given texts, resumed, and established again by a proof.
  abbrev pub away : Link s t → Disk → ℕ → List Bytes → Link s t
  away l disk now texts = send_all (suspend s t l disk now).1 texts

  abbrev pub back : Link s t → Disk → Bytes → Link s t
  back l disk proof_bytes =
      (complete_handshake s t (establish s t (resume s t l disk).1).1 proof_bytes).1

  suspend_within :
      (l : Link s t) (disk : Disk) (now : ℕ)
      → l.state ≡ active
      → leb (2 ^ 32) (resume_count s t l disk + 1) ≡ false
      → suspend s t l disk now
        ≡ suspended_if s t
            (if l.has_storage
              then write_session s t (t.serialize (session_of s t l disk now)) disk
              else ok disk)
            l
            disk
  unfolding suspend_in
  suspend_within l disk now e within =
      ap (λ (state : SuspendableState). suspend_in s t state l disk now) e ∙ rw within

  resume_count-unstored :
      (l : Link s t) (disk : Disk)
      → l.has_storage ≡ false
      → leb (2 ^ 32) (resume_count s t l disk + 1) ≡ false
  unfolding resume_count
  resume_count-unstored l disk no_file = rw no_file

  suspend-unstored :
      (l : Link s t) (disk : Disk) (now : ℕ)
      → l.state ≡ active
      → l.has_storage ≡ false
      → (suspend s t l disk now).1 ≡ record l { state = suspended }
  unfolding suspended_if
  suspend-unstored l disk now e no_file =
      ap (λ (w : Result TransportError (Unit {0}) × Link s t × Disk). w.1)
        (suspend_within l disk now e (resume_count-unstored l disk no_file))
      ∙ ap
          (λ (stored : Bool).
            (suspended_if s t
              (if stored
                then write_session s t (t.serialize (session_of s t l disk now)) disk
                else ok disk)
              l disk).1)
          no_file

  away_lem :
      (l : Link s t) (disk : Disk) (now : ℕ) (texts : List Bytes)
      → l.state ≡ active
      → l.has_storage ≡ false
      → away l disk now texts
        ≡ record l { state = suspended; held_outbound = l.held_outbound ++ texts }
  away_lem l disk now texts e no_file =
      ap (λ (m : Link s t). send_all m texts) (suspend-unstored l disk now e no_file)
      ∙ send_all-suspended l texts

  -- A link that waits for the peer's proof with the messages it holds.
  abbrev waiting : Link s t → List Bytes → Link s t
  waiting l held = record l {
    state = handshaking;
    held_outbound = held;
    transport_id = derive_transport_id s t l.local l.remote_rns;
  }

  resume-unstored :
      (l : Link s t) (disk : Disk) (held : List Bytes)
      → l.has_storage ≡ false
      → (resume s t (record l { state = suspended; held_outbound = held }) disk).1 ≡ waiting l held
  unfolding resume_in
  resume-unstored l disk held no_file =
      let gone : Link s t = record l { state = suspended; held_outbound = held } in
      ap
        (λ (stored : Bool).
          (handshaking_if s t (if stored then load s t disk.file disk.readable gone else ok gone)
            gone).1)
        no_file

  check_proof-waiting :
      (l : Link s t) (held : List Bytes) (bs : Bytes)
      → l.transport_id ≡ derive_transport_id s t l.local l.remote_rns
      → check_proof s t (waiting l held) bs ≡ check_proof s t l bs
  unfolding check_proof
  check_proof-waiting l held bs tid =
      ap
        (λ (id : Bytes). do
          p ← map_err (λ _. proof_error) (ProofModule.from_bytes bs)
          map_err (λ _. signature_verification)
              (verify_proof_external s t l.remote_identity_key id p))
        (sym tid)

  complete-waiting :
      (l : Link s t) (held : List Bytes) (bs : Bytes)
      → check_proof s t (waiting l held) bs ≡ ok tt
      → (complete_handshake s t (establish s t (waiting l held)).1 bs).1 ≡ record (waiting l held) {
        derived_key = some (t.from_static l.local l.remote_encryption_key);
        state = active;
      }
  unfolding establish_in complete_handshake_in
  complete-waiting l held bs checked =
      ap (λ (r : Result TransportError (Unit {0})). (activate_if s t r (waiting l held)).1) checked

  -- The messages of a link without a file: those held before and those sent while it was away are
  -- held in order when it is active again.
  pub back-away :
      (l : Link s t) (disk disk' : Disk) (now : ℕ) (texts : List Bytes) (proof_bytes : Bytes)
      → l.state ≡ active
      → l.has_storage ≡ false
      → l.transport_id ≡ derive_transport_id s t l.local l.remote_rns
      → check_proof s t l proof_bytes ≡ ok tt
      → back (away l disk now texts) disk' proof_bytes ≡ record l {
        derived_key = some (t.from_static l.local l.remote_encryption_key);
        held_outbound = l.held_outbound ++ texts;
        transport_id = derive_transport_id s t l.local l.remote_rns;
        state = active;
      }
  back-away l disk disk' now texts proof_bytes e no_file tid checked =
      let held = l.held_outbound ++ texts in
      ap (λ (m : Link s t). back m disk' proof_bytes) (away_lem l disk now texts e no_file)
      ∙ ap (λ (m : Link s t). (complete_handshake s t (establish s t m).1 proof_bytes).1)
          (resume-unstored l disk' held no_file)
      ∙ complete-waiting l held proof_bytes (check_proof-waiting l held proof_bytes tid ∙ checked)

  -- Without a file, a link that comes back with a proof of its peer sends what it held before and
  -- while it was away, and the peer receives it in order.
  pub replay_held-back :
      (l m : Link s t) (disk disk' : Disk) (now : ℕ) (texts : List Bytes) (proof_bytes : Bytes)
      → IsPaired s l m
      → l.has_storage ≡ false
      → l.transport_id ≡ derive_transport_id s t l.local l.remote_rns
      → check_proof s t l proof_bytes ≡ ok tt
      → All (Carries s l m) (l.held_outbound ++ texts)
      → (ps : List Packet) × ((replay_held s (back (away l disk now texts) disk' proof_bytes)).0
          ≡ ok ps)
        × ((deliver_all s m ps).inbound ≡ m.inbound ++ (l.held_outbound ++ texts))
  unfolding seal
  replay_held-back l m disk disk' now texts proof_bytes v no_file tid checked carried =
      let again : Link s t = record l {
        derived_key = some (t.from_static l.local l.remote_encryption_key);
        held_outbound = l.held_outbound ++ texts;
        transport_id = derive_transport_id s t l.local l.remote_rns;
        state = active;
      } in
      let (ps, sent, got) =
        deliver_all-replay_held s again m
          (record { sends = refl; takes = v.takes; one_transport = v.one_transport ∙ tid })
          carried in
      (
        ps,
        ap (λ (k : Link s t). (replay_held s k).0)
              (back-away l disk disk' now texts proof_bytes v.sends no_file tid checked)
            ∙ ap (λ out. out.0) sent,
        got,
      )

  suspend-stored :
      (l : Link s t) (disk : Disk) (now : ℕ) (bs : Bytes)
      → l.state ≡ active
      → l.has_storage ≡ true
      → disk.writable ≡ true
      → resume_count s t l disk + 1 < 2 ^ 32
      → t.serialize (session_of s t l disk now) ≡ some bs
      → suspend s t l disk now
        ≡ (ok tt, record l { state = suspended }, record disk { file = some bs })
  unfolding suspended_if write_session
  suspend-stored l disk now bs e stored writable few written =
      suspend_within l disk now e (leb_of_lt (2 ^ 32) (resume_count s t l disk + 1) few)
      ∙ ap
          (λ (b : Bool).
            suspended_if s t
              (if b
                then write_session s t (t.serialize (session_of s t l disk now)) disk
                else ok disk)
              l disk)
          stored
      ∙ ap (λ (o : Option Bytes). suspended_if s t (write_session s t o disk) l disk) written
      ∙ ap
          (λ (b : Bool).
            suspended_if s t
              (if b then ok (record disk { file = some bs }) else err (other session_write)) l disk)
          writable

  resume-stored :
      (l : Link s t) (disk : Disk) (held : List Bytes) (bs : Bytes) (session : SuspendedSession)
      → l.has_storage ≡ true
      → disk.readable ≡ true
      → t.deserialize bs ≡ some session
      → let out =
          resume s t
            (record l { state = suspended; held_outbound = held })
            (record disk { file = some bs }) in
        (out.0 ≡ ok tt) × (out.1.held_outbound ≡ session.held_messages)
  unfolding resume_in
  resume-stored l disk held bs session stored readable read =
      let gone : Link s t = record l { state = suspended; held_outbound = held } in
      let whole =
        ap
          (λ (b : Bool).
            handshaking_if s t (if b then load s t (some bs) disk.readable gone else ok gone) gone)
          stored
        ∙ ap (λ (b : Bool). handshaking_if s t (load s t (some bs) b gone) gone) readable
        ∙ ap (λ (o : Option SuspendedSession). handshaking_if s t (restore_from s t o gone) gone)
            read in
      (ap (λ out. out.0) whole, ap (λ out. out.1.held_outbound) whole)

  -- With a file whose count of resumptions has not run out, a resumed link holds what it held when it was suspended: what was sent while it was
  -- away is gone.
  pub held-resume :
      (l : Link s t) (disk : Disk) (now : ℕ) (texts : List Bytes) (bs : Bytes)
      → l.state ≡ active
      → l.has_storage ≡ true
      → disk.writable ≡ true
      → disk.readable ≡ true
      → resume_count s t l disk + 1 < 2 ^ 32
      → t.serialize (session_of s t l disk now) ≡ some bs
      → t.deserialize bs ≡ some (session_of s t l disk now)
      → let went = suspend s t l disk now in
        ((send_all went.1 texts).held_outbound ≡ l.held_outbound ++ texts)
        × ((resume s t (send_all went.1 texts) went.2).0 ≡ ok tt)
        × ((resume s t (send_all went.1 texts) went.2).1.held_outbound ≡ l.held_outbound)
  held-resume l disk now texts bs e stored writable readable few written read =
      let went = suspend-stored l disk now bs e stored writable few written in
      let gone =
        ap (λ (w : Result TransportError (Unit {0}) × Link s t × Disk). send_all w.1 texts) went
        ∙ send_all-suspended l texts in
      let resumed =
        ap
          (λ (w : Result TransportError (Unit {0}) × Link s t × Disk).
            resume s t (send_all w.1 texts) w.2)
          went
        ∙ ap (λ (m : Link s t). resume s t m (record disk { file = some bs }))
            (send_all-suspended l texts) in
      let out =
        resume-stored l disk (l.held_outbound ++ texts) bs (session_of s t l disk now) stored
          readable read in
      (
        ap (λ (m : Link s t). m.held_outbound) gone,
        ap (λ (r : Result TransportError (Unit {0}) × Link s t). r.0) resumed ∙ out.0,
        ap (λ (r : Result TransportError (Unit {0}) × Link s t). r.1.held_outbound) resumed
            ∙ out.1
            ∙ unfold session_of in refl,
      )

  -- If a held message does not fit once it is sealed, the replay fails with its size, the messages
  -- before it are dropped as packets, and no message is held any more.
  pub replay_held-drops :
      (l m : Link s t) (front rest : List Bytes) (text p : Bytes)
      → l.state ≡ active
      → l.held_outbound ≡ front ++ text ∷ rest
      → All (Carries s l m) front
      → seal s l text ≡ some p
      → l.config.mtu < length p
      → replay_held s l ≡ (err (invalid_chunk_size (length p)), record l { held_outbound = [] })
  unfolding seal
  replay_held-drops l m front rest text p e held carried sealed too_long =
      let emptied : Link s t = record l { held_outbound = [] } in
      replay_held-active s l e
      ∙ ap (λ (texts : List Bytes). send_each s emptied texts) held
      ∙ send_each-stops s emptied m front rest text p e carried sealed too_long

-- ===== src/Transport/Suspendable/Replay.antt =====
-- crates/transport/src/suspendable.rs: what was held is sent again, and what the peer makes of it.
use rsticulum.Prelude.{
  ◌≤◌, ◌<◌, ◌≡◌, ◌∙◌, refl, sym, ap, ap₂, Bool, not, Option, some, List, [], ◌∷◌, ◌++◌, Bytes,
  length, ltb_of_le, lt→ltb, if◌then◌else◌, same_iff, Result, ok, err, panic, ok-injective, All,
}
use mathlib.Core.List.{append_assoc, append-nil}
use rsticulum.Packet.{Packet}
use rsticulum.Transport.Error.{TransportError, link_not_established, invalid_chunk_size}
use rsticulum.Transport.Signer.{Signer}
use rsticulum.Transport.Suspendable.{active, SuspendableLink, is_active}
use rsticulum.Transport.Suspendable.Messages.{
  send_in, send, send_sealed, seal, send_each, after_send, add_packet, replay_held, deliver,
  data_packet_of,
}

pub pair_path {ℓ κ} :
    {A : Type ℓ} {B : Type κ} {a : A} {b : B} (p : A × B) → p.0 ≡ a → p.1 ≡ b → p ≡ (a, b)
pair_path p h k = ap₂ (λ x y. (x, y)) h k

module _ (s : Signer) where
  abbrev Link : Type 0
  Link = SuspendableLink s.Keys

  send-active :
      (l : Link) (text : Bytes)
      → l.state ≡ active
      → send s l text ≡ (send_sealed s l (seal s l text), l)
  unfolding send_in
  send-active l text e = rw (e, send_in)

  send_each-step :
      (l : Link) (text : Bytes) (texts : List Bytes)
      → l.state ≡ active
      → send_each s l (text ∷ texts)
        ≡ after_send s (send_sealed s l (seal s l text), l) (send_each s l texts)
  unfolding send_each
  send_each-step l text texts e =
      ap
        (λ (out : Result TransportError (Option Packet) × Link).
          after_send s out (send_each s out.1 texts))
        (send-active l text e)

  after_send-same :
      (result : Result TransportError (Option Packet)) (l : Link)
      (rest : Result TransportError (List Packet) × Link)
      → rest.1 ≡ l
      → (after_send s (result, l) rest).1 ≡ l
  unfolding after_send add_packet
  after_send-same (ok sent) l (ok ps, m) h = h
  after_send-same (ok sent) l (err x, m) h = h
  after_send-same (ok sent) l (panic, m) h = h
  after_send-same (err x) l rest h = refl
  after_send-same panic l rest h = refl

  -- An active link is left as it was by the loop.
  pub send_each-same :
      (l : Link) (texts : List Bytes) → l.state ≡ active → (send_each s l texts).1 ≡ l
  send_each-same l [] e = unfold send_each in refl
  send_each-same l (text ∷ texts) e =
      ap (λ (out : Result TransportError (List Packet) × Link). out.1)
        (send_each-step l text texts e)
      ∙ after_send-same (send_sealed s l (seal s l text)) l (send_each s l texts)
          (send_each-same l texts e)

  -- The text is sealed within the MTU, and the peer opens it.
  abbrev pub Carries : Link → Link → Bytes → Type 0
  Carries l m text =
      (p : Bytes) × (seal s l text ≡ some p)
      × (length p ≤ l.config.mtu)
      × (s.decrypt_from m.local p ≡ some text)

  -- The peer takes the packets one by one.
  unfoldable pub deliver_all : Link → List Packet → Link
  deliver_all l [] = l
  deliver_all l (p ∷ ps) = deliver_all (deliver s l p).1 ps

  -- Both ends are active, over one transport.
  pub record IsPaired (l m : Link) : Type 0 where
    pub sends : l.state ≡ active
    pub takes : m.state ≡ active
    pub one_transport : m.transport_id ≡ l.transport_id

  send_sealed-fits :
      (l : Link) (text p : Bytes)
      → seal s l text ≡ some p
      → length p ≤ l.config.mtu
      → send_sealed s l (seal s l text) ≡ ok (some (data_packet_of s l p))
  unfolding send_sealed
  send_sealed-fits l text p sealed fits =
      rw (sealed, send_sealed, ltb_of_le l.config.mtu (length p) fits)

  send_sealed-long :
      (l : Link) (text p : Bytes)
      → seal s l text ≡ some p
      → l.config.mtu < length p
      → send_sealed s l (seal s l text) ≡ err (invalid_chunk_size (length p))
  unfolding send_sealed
  send_sealed-long l text p sealed long =
      rw (sealed, send_sealed, lt→ltb l.config.mtu (length p) long)

  deliver-carried :
      (l m : Link) (text p : Bytes)
      → IsPaired l m
      → s.decrypt_from m.local p ≡ some text
      → (deliver s m (data_packet_of s l p)).1 ≡ record m { inbound = m.inbound ++ text ∷ [] }
  unfolding deliver data_packet_of
  deliver-carried l m text p v opens =
      rw (v.takes, v.one_transport, (same_iff l.transport_id l.transport_id).1 refl, opens)

  -- The packets of the loop, and what they come to at the peer.
  Arrives : Link → Link → List Bytes → List Bytes → Type 0
  Arrives l m before texts =
      (ps : List Packet) × ((send_each s l texts).0 ≡ ok ps)
      × ((deliver_all m ps).inbound ≡ before ++ texts)

  after_send-ok :
      (l : Link) (p : Packet) (ps : List Packet) (rest : Result TransportError (List Packet) × Link)
      → rest.0 ≡ ok ps
      → (after_send s (ok (some p), l) rest).0 ≡ ok (p ∷ ps)
  unfolding after_send add_packet
  after_send-ok l p ps (ok qs, m) h = ap (λ (r : List Packet). ok (p ∷ r)) (ok-injective h)
  after_send-ok l p ps (err e, m) h = cc
  after_send-ok l p ps (panic, m) h = cc

  Arrives-step :
      (l m : Link) (text : Bytes) (texts : List Bytes)
      → IsPaired l m
      → Carries l m text
      → Arrives l (record m { inbound = m.inbound ++ text ∷ [] }) (m.inbound ++ text ∷ []) texts
      → Arrives l m m.inbound (text ∷ texts)
  unfolding Arrives deliver_all
  Arrives-step l m text texts v (p, sealed, fits, opens) (ps, sent, got) = (
    data_packet_of s l p ∷ ps,
    ap (λ (out : Result TransportError (List Packet) × Link). out.0)
          (send_each-step l text texts v.sends)
        ∙ ap
            (λ (r : Result TransportError (Option Packet)).
              (after_send s (r, l) (send_each s l texts)).0)
            (send_sealed-fits l text p sealed fits)
        ∙ after_send-ok l (data_packet_of s l p) ps (send_each s l texts) sent,
    ap (λ (m' : Link). (deliver_all m' ps).inbound) (deliver-carried l m text p v opens)
        ∙ got
        ∙ append_assoc m.inbound (text ∷ []) texts,
  )

  Arrives-all :
      (l m : Link) (texts : List Bytes)
      → IsPaired l m
      → All (Carries l m) texts
      → Arrives l m m.inbound texts
  unfolding Arrives deliver_all send_each
  Arrives-all l m [] v h = ([], refl, sym (append-nil m.inbound))
  Arrives-all l m (text ∷ texts) v h = Arrives-step l m text texts v h.0 (
      Arrives-all l (record m { inbound = m.inbound ++ text ∷ [] }) texts
        (record { sends = v.sends; takes = v.takes; one_transport = v.one_transport }) h.1)

  -- A text that does not fit ends the loop with an error.
  pub send_each-stops :
      (l m : Link) (front rest : List Bytes) (text p : Bytes)
      → l.state ≡ active
      → All (Carries l m) front
      → seal s l text ≡ some p
      → l.config.mtu < length p
      → send_each s l (front ++ text ∷ rest) ≡ (err (invalid_chunk_size (length p)), l)
  unfolding after_send add_packet
  send_each-stops l m [] rest text p e h sealed long =
      send_each-step l text rest e
      ∙ ap (λ (r : Result TransportError (Option Packet)). after_send s (r, l) (send_each s l rest))
          (send_sealed-long l text p sealed long)
  send_each-stops l m (x ∷ front) rest text p e (c, cs) sealed long =
      send_each-step l x (front ++ text ∷ rest) e
      ∙ ap₂
          (λ (r : Result TransportError (Option Packet))
              (out : Result TransportError (List Packet) × Link).
            after_send s (r, l) out)
          (send_sealed-fits l x c.0 c.1 c.2)
          (send_each-stops l m front rest text p e cs sealed long)

  pub replay_held-active :
      (l : Link)
      → l.state ≡ active
      → replay_held s l ≡ send_each s (record l { held_outbound = [] }) l.held_outbound
  unfolding replay_held
  replay_held-active l e =
      ap
        (λ (b : Bool).
          if not b
          then (err link_not_established, l)
          else send_each s (record l { held_outbound = [] }) l.held_outbound)
        (ap is_active e)

  -- What an active link held is sent, and is what its peer receives, in order; then nothing is held.
  pub deliver_all-replay_held :
      (l m : Link)
      → IsPaired l m
      → All (Carries l m) l.held_outbound
      → (ps : List Packet) × (replay_held s l ≡ (ok ps, record l { held_outbound = [] }))
        × ((deliver_all m ps).inbound ≡ m.inbound ++ l.held_outbound)
  unfolding Arrives seal
  deliver_all-replay_held l m v h =
      let emptied : Link = record l { held_outbound = [] } in
      let (ps, sent, got) =
        Arrives-all emptied m l.held_outbound
          (record { sends = v.sends; takes = v.takes; one_transport = v.one_transport }) h in
      (
        ps,
        replay_held-active l v.sends
            ∙ pair_path (send_each s emptied l.held_outbound) sent
                (send_each-same emptied l.held_outbound v.sends),
        got,
      )

-- ===== src/Transport/Link/Delivery.antt =====
-- What goes in at one end of a link comes out at the other: `send`, `deliver` and `recv`.
use mathlib.Core.List.{append-nil, append_assoc}
use rsticulum.Prelude.{
  All, ℕ, zero, suc, ◌+◌, ◌*◌, ◌/◌, ◌≤◌, ◌≡◌, refl, sym, ◌∙◌, ap, some, List, [], ◌∷◌, ◌++◌, Bytes,
  length, ltb, ltb_of_le, if◌then◌else◌, same_iff, Result, ok, err,
}
use rsticulum.Interface.Framing.{emit}
use rsticulum.Packet.{Packet}
use rsticulum.Crypto.Cipher.{Cipher, IsCipher}
use rsticulum.Transport.Error.{TransportError, invalid_chunk_size}
use rsticulum.Transport.Signer.{Signer}
use rsticulum.Transport.LinkData.{
  sealed, encrypt_link_data-sealed, decrypt_link_data-sealed, length-sealed,
}
use rsticulum.Transport.Link.{Link, established}
use rsticulum.Transport.Link.Messages.{send, deliver, recv, data_packet_of}

-- Two ends of one established link that agree on the shared key.
pub record IsPaired {K : Type 0} (key : Bytes) (a b : Link K) : Type 0 where
  pub sender_established : a.state ≡ established
  pub receiver_established : b.state ≡ established
  pub sender_key : a.shared_key ≡ some key
  pub receiver_key : b.shared_key ≡ some key
  pub same_link : a.link_id ≡ b.link_id
  pub same_path : a.transport_id ≡ b.transport_id

-- The size of a text of `n` bytes under the shared key: whole blocks, at least one byte of padding,
-- and the MAC.
abbrev pub sealed_size : ℕ → ℕ
sealed_size n = (n / 16 + 1) * 16 + 32

module _ (c : Cipher) (laws : IsCipher c) (s : Signer) where
  abbrev pub packet_for : Link s.Keys → Bytes → Bytes → Packet
  packet_for l key text = data_packet_of c s l (sealed c laws text key l.link_id)

  -- Under a shared key an established link sends a text exactly if its sealed size is within the
  -- MTU; it then keeps the packet in its outbound list. Otherwise it returns the sealed size as an
  -- error and is left as it was.
  pub send_lem :
      (l : Link s.Keys) (key text : Bytes) (now : ℕ)
      → l.state ≡ established
      → l.shared_key ≡ some key
      → send c s l text now ≡ (
          if ltb l.config.mtu (sealed_size (length text))
          then (err (invalid_chunk_size (sealed_size (length text))), l)
          else (
            ok (packet_for l key text),
            record l { outbound = l.outbound ++ packet_for l key text ∷ []; last_outbound = now },
          ))
  unfolding send
  send_lem l key text now h k = rw (
    h,
    k,
    encrypt_link_data-sealed c laws {E = TransportError} text key l.link_id,
    length-sealed c laws text key l.link_id,
  )

  -- The sender behind an accepted text.
  abbrev pub sent : Link s.Keys → Bytes → Bytes → ℕ → Link s.Keys
  sent l key text now = record l {
    outbound = l.outbound ++ packet_for l key text ∷ [];
    last_outbound = now;
  }

  -- The receiver behind a text: it is the last of the inbound ones.
  abbrev pub received : {K : Type 0} → Link K → Bytes → ℕ → Link K
  received l text now = record l { inbound = l.inbound ++ text ∷ []; last_inbound = now }

  -- Of two ends that agree on the shared key, what one sends within its MTU the other receives: the
  -- text is added, unchanged, behind the inbound ones, and nothing else changes there but the time
  -- of the last arrival.
  pub deliver-send :
      (a b : Link s.Keys) (key text : Bytes) (sent_at now : ℕ)
      → IsPaired key a b
      → sealed_size (length text) ≤ a.config.mtu
      → (send c s a text sent_at ≡ (ok (packet_for a key text), sent a key text sent_at))
        × (deliver c s b (packet_for a key text) now ≡ (ok tt, received b text now))
  unfolding deliver data_packet_of
  deliver-send a b key text sent_at now p fits = (
    send_lem a key text sent_at p.sender_established p.sender_key
        ∙ rw (ltb_of_le a.config.mtu (sealed_size (length text)) fits),
    rw (
      p.receiver_established,
      p.receiver_key,
      (same_iff a.transport_id b.transport_id).1 p.same_path,
      ← p.same_link,
      decrypt_link_data-sealed c laws text key a.link_id,
    ),
  )

  -- The sender sends the texts one by one; each packet that comes out is delivered at once.
  pass : Result TransportError Packet × Link s.Keys → Link s.Keys → ℕ → Link s.Keys × Link s.Keys
  pass (ok packet, a) b now = (a, (deliver c s b packet now).1)
  pass (_, a) b now = (a, b)

  pub exchange : Link s.Keys → Link s.Keys → List Bytes → ℕ → Link s.Keys × Link s.Keys
  exchange a b [] now = (a, b)
  exchange a b (text ∷ texts) now =
      let (a', b') = pass (send c s a text now) b now in exchange a' b' texts now

  -- `n` calls of `recv`: what they return.
  pub drain : {K : Type 0} → ℕ → Link K → List Bytes
  drain zero l = []
  drain (suc n) l = let (text, l') = recv l in emit text (drain n l')

  pass-send :
      (a b : Link s.Keys) (key text : Bytes) (now : ℕ)
      → IsPaired key a b
      → sealed_size (length text) ≤ a.config.mtu
      → pass (send c s a text now) b now ≡ (sent a key text now, received b text now)
  unfolding pass
  pass-send a b key text now p fits =
      let (sends, delivers) = deliver-send a b key text now now p fits in rw (sends, delivers)

  IsPaired-pass :
      (a b : Link s.Keys) (key text : Bytes) (now : ℕ)
      → IsPaired key a b
      → IsPaired key (sent a key text now) (received b text now)
  IsPaired-pass a b key text now p = record {
    sender_established = p.sender_established;
    receiver_established = p.receiver_established;
    sender_key = p.sender_key;
    receiver_key = p.receiver_key;
    same_link = p.same_link;
    same_path = p.same_path;
  }

  exchange-inbound :
      (a b : Link s.Keys) (key : Bytes) (texts : List Bytes) (now : ℕ)
      → IsPaired key a b
      → All (λ text. sealed_size (length text) ≤ a.config.mtu) texts
      → (exchange a b texts now).1.inbound ≡ b.inbound ++ texts
  unfolding exchange
  exchange-inbound a b key [] now p fits = sym (append-nil b.inbound)
  exchange-inbound a b key (text ∷ texts) now p fits =
      ap (λ (ends : Link s.Keys × Link s.Keys). (exchange ends.0 ends.1 texts now).1.inbound)
        (pass-send a b key text now p fits.0)
      ∙ exchange-inbound (sent a key text now) (received b text now) key texts now
          (IsPaired-pass a b key text now p) fits.1
      ∙ append_assoc b.inbound (text ∷ []) texts

  drain-inbound :
      {K : Type 0} (l : Link K) (texts : List Bytes)
      → l.inbound ≡ texts
      → drain (length texts) l ≡ texts
  unfolding drain recv
  drain-inbound l [] h = refl
  drain-inbound l (text ∷ texts) h =
      rw h (ap (◌∷◌ text) (drain-inbound (record l { inbound = texts }) texts refl))

  -- Of two established ends of one link that agree on the shared key, the receiver, with nothing inbound at first, gets
  -- from as many calls of `recv` exactly the texts that were sent, in the order in which they were
  -- sent, if each fits the MTU once it is sealed.
  pub drain-exchange :
      (a b : Link s.Keys) (key : Bytes) (texts : List Bytes) (now : ℕ)
      → IsPaired key a b
      → b.inbound ≡ []
      → All (λ text. sealed_size (length text) ≤ a.config.mtu) texts
      → drain (length texts) (exchange a b texts now).1 ≡ texts
  drain-exchange a b key texts now p e fits =
      drain-inbound (exchange a b texts now).1 texts
        (exchange-inbound a b key texts now p fits ∙ rw e)

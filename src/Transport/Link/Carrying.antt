-- ===== src/Transport/Link/Carrying.antt =====
-- crates/transport/src/link.rs: a text over a link that is encrypted with a shared key, or that has
-- no key at all and sends in the clear.
use rsticulum.Prelude.{
  ℕ, ◌≤◌, ◌≡◌, arith, Option, none, some, [], ◌∷◌, ◌++◌, Bytes, length, ltb_of_le, same_iff, ok,
}
use rsticulum.Packet.{Packet}
use rsticulum.Crypto.Cipher.{Cipher, IsCipher}
use rsticulum.Transport.Signer.{Signer}
use rsticulum.Transport.Link.{Link, established}
use rsticulum.Transport.Link.Messages.{send, deliver, data_packet_of}
use rsticulum.Transport.Link.Delivery.{IsPaired, sealed_size, packet_for, received, deliver-send}

-- The bytes of a text of `n` bytes in a packet.
abbrev pub wire_size : Option Bytes → ℕ → ℕ
wire_size none n = n
wire_size (some key) n = sealed_size n

pub wire_size_lem : (key : Option Bytes) (n : ℕ) → n ≤ wire_size key n
wire_size_lem none n = omega arith
wire_size_lem (some key) n = omega arith

pub wire_size_mono : (key : Option Bytes) (m n : ℕ) → m ≤ n → wire_size key m ≤ wire_size key n
wire_size_mono none m n h = h
wire_size_mono (some key) m n h = omega arith

-- What the two ends have of a key: both the shared one, or neither of them any.
abbrev pub SameKey : {K : Type 0} → Option Bytes → Link K → Link K → Type 0
SameKey none a b =
    (a.shared_key ≡ none)
    × (b.shared_key ≡ none)
    × (a.remote_encryption_key ≡ none)
    × (b.remote_encryption_key ≡ none)
SameKey (some key) a b = (a.shared_key ≡ some key) × (b.shared_key ≡ some key)

-- Two ends of one established link.
pub record IsJoined {K : Type 0} (key : Option Bytes) (a b : Link K) : Type 0 where
  pub sender_established : a.state ≡ established
  pub receiver_established : b.state ≡ established
  pub same_key : SameKey key a b
  pub same_link : a.link_id ≡ b.link_id
  pub same_path : a.transport_id ≡ b.transport_id

module _ (c : Cipher) (laws : IsCipher c) (s : Signer) where
  -- A packet that the sender keeps in its outbound list, and that brings the receiver the text.
  pub record Carries (a b : Link s.Keys) (text : Bytes) (sent_at now : ℕ) : Type 0 where
    pub packet : Packet
    pub sends :
        send c s a text sent_at
        ≡ (ok packet, record a { outbound = a.outbound ++ packet ∷ []; last_outbound = sent_at })
    pub delivers : deliver c s b packet now ≡ (ok tt, received c laws s b text now)

  pub carries :
      (key : Option Bytes) (a b : Link s.Keys) (text : Bytes) (sent_at now : ℕ)
      → IsJoined key a b
      → wire_size key (length text) ≤ a.config.mtu
      → Carries a b text sent_at now
  unfolding send deliver data_packet_of
  carries (some key) a b text sent_at now j fits =
      let p : IsPaired key a b = record {
        sender_established = j.sender_established;
        receiver_established = j.receiver_established;
        sender_key = j.same_key.0;
        receiver_key = j.same_key.1;
        same_link = j.same_link;
        same_path = j.same_path;
      } in
      let both = deliver-send c laws s a b key text sent_at now p fits in
      record { packet = packet_for c laws s a key text; sends = both.0; delivers = both.1 }
  carries none a b text sent_at now j fits = record {
    packet = data_packet_of c s a text;
    sends = rw (
      j.sender_established,
      j.same_key.0,
      j.same_key.2,
      ltb_of_le a.config.mtu (length text) fits,
    );
    delivers = rw (
      j.receiver_established,
      j.same_key.1,
      j.same_key.3,
      (same_iff a.transport_id b.transport_id).1 j.same_path,
    );
  }

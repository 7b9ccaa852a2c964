-- ===== src/Channel.antt =====
-- crates/channel/src/lib.rs: reliable messages in order over a link. The registered handlers are
-- the message types that have one; a call of a handler is entered in `handled`, since its effect is
-- the application's.
pub mod Envelope
mod Window
pub mod Ordering
pub mod Sending
mod Tests
use rsticulum.Prelude.{
  ℕ, zero, suc, ◌+◌, ◌-◌, ◌%◌, ◌^◌, ◌<◌, ◌≡◌, refl, Bool, true, false, ◌&&◌, ◌||◌, Option, none,
  some, List, [], ◌∷◌, ◌++◌, Bytes, length, ltb, ◌==◌, if◌then◌else◌, Result, ok, err, panic,
  map_err, ◌>>=◌, get, insert, remove, number_keys,
}
use rsticulum.Packet.{Packet}
use rsticulum.Crypto.Cipher.{Cipher}
use rsticulum.Transport.Error.{TransportError, Reason, envelope, other}
use rsticulum.Transport.Signer.{Signer}
use rsticulum.Transport.Link.{Link}
use rsticulum.Transport.Link.Messages as Messages
use rsticulum.Channel.Envelope.{
  ChannelEnvelope, SystemMessageType, smt_channel_data, code_of, pack, unpack,
}

pub data ChannelError : Type 0 where
  link_not_ready : ChannelError
  message_too_large : ℕ → ℕ → ChannelError
  transport : TransportError → ChannelError

pub record Channel (K : Type 0) : Type 0 where
  pub link : Link K
  pub outgoing_seq : ℕ
  pub incoming_seq : ℕ
  pub reorder_buffer : List (ℕ × Bytes)
  pub ready : List Bytes
  pub handlers : List ℕ
  pub handled : List (ℕ × Bytes)

-- `wrapping_add(1)` on a `u32`
abbrev pub next_seq : ℕ → ℕ
next_seq n = (n + 1) % 2 ^ 32

abbrev pub has_handler : List ℕ → ℕ → Bool
has_handler [] t = false
has_handler (h ∷ hs) t = h == t || has_handler hs t

-- `.map_err(…)?` on the envelope
abbrev read_envelope : Bytes → Result ChannelError ChannelEnvelope
read_envelope bs = map_err (λ _. transport (other envelope)) (unpack bs)

module _ {K : Type 0} where
  unfoldable pub new : Link K → Channel K
  new link = record {
    link = link;
    outgoing_seq = 0;
    incoming_seq = 0;
    reorder_buffer = [];
    ready = [];
    handlers = [];
    handled = [];
  }

  unfoldable pub register_handler : Channel K → SystemMessageType → Channel K
  register_handler ch t = record ch { handlers = code_of t ∷ ch.handlers }

  -- `mtu as usize - 6`, with overflow checks.
  unfoldable pub mdu : Channel K → Result ChannelError ℕ
  mdu ch = if ltb ch.link.config.mtu 6 then panic else ok (ch.link.config.mtu - 6)

  -- `while let Some(payload) = self.reorder_buffer.remove(&self.incoming_seq)`; every round takes
  -- an entry out, so the number of entries is fuel enough.
  unfoldable pub drain_buffer : ℕ → Channel K → Channel K
  drain_buffer zero ch = ch
  drain_buffer (suc fuel) ch = elim (get ch.incoming_seq ch.reorder_buffer) [
    | none ↦ ch
    | some payload ↦ drain_buffer fuel (record ch {
      incoming_seq = next_seq ch.incoming_seq;
      reorder_buffer = remove ch.incoming_seq ch.reorder_buffer;
      ready = ch.ready ++ payload ∷ [];
    })
  ]

  -- A message in order: into the ready queue, and what was waiting for it after it.
  unfoldable pub accept_next : Channel K → Bytes → Channel K
  unfolding drain_buffer
  accept_next ch payload =
      let ch' = record ch {
        incoming_seq = next_seq ch.incoming_seq;
        ready = ch.ready ++ payload ∷ [];
      } in
      drain_buffer (length ch'.reorder_buffer) ch'

  -- A message without a handler: in order, ahead within the window, or dropped.
  unfoldable pub accept : Channel K → ℕ → Bytes → Channel K
  unfolding accept_next
  accept ch seq payload =
      if seq == ch.incoming_seq
      then accept_next ch payload
      else if ltb ch.incoming_seq seq && ltb ((seq + 2 ^ 32 - ch.incoming_seq) % 2 ^ 32) 1000
      then record ch { reorder_buffer = insert seq payload ch.reorder_buffer }
      else ch

  unfoldable pub handle : Channel K → ChannelEnvelope → Channel K
  unfolding accept
  handle ch e =
      if has_handler ch.handlers e.message_type
      then record ch { handled = ch.handled ++ (e.message_type, e.payload) ∷ [] }
      else accept ch e.sequence_number e.payload

  -- `while let Some(data) = self.link.recv()`, over the texts that the link has inbound: each is
  -- taken from the link before it is read, and a bad envelope ends the loop.
  unfoldable pub drain_link : List Bytes → Channel K → Result ChannelError (Unit {0}) × Channel K
  unfolding handle
  drain_link [] ch = (ok tt, ch)
  drain_link (text ∷ rest) ch =
      let taken = record ch { link = record ch.link { inbound = rest } } in
      elim (read_envelope text) [
        | ok e ↦ drain_link rest (handle taken e)
        | err x ↦ (err x, taken)
        | panic ↦ (panic, taken)
      ]

  unfoldable pub recv_from : List Bytes → Channel K → Option Bytes × Channel K
  recv_from [] ch = (none, ch)
  recv_from (x ∷ rest) ch = (some x, record ch { ready = rest })

  abbrev pub recv : Channel K → Option Bytes × Channel K
  recv ch = recv_from ch.ready ch

module _ (c : Cipher) (s : Signer) where
  -- What the link returned, once the sequence number has been used.
  unfoldable pub sent_by :
      Result TransportError Packet × Link s.Keys
      → Channel s.Keys
      → Result ChannelError Packet × Channel s.Keys
  sent_by (r, link) ch = (map_err transport r, record ch { link = link })

  unfoldable pub send_typed :
      Channel s.Keys → SystemMessageType → Bytes → ℕ → Result ChannelError Packet × Channel s.Keys
  unfolding mdu sent_by
  send_typed ch t payload now = elim (mdu ch) [
    | ok limit ↦
        if ltb limit (length payload)
        then (err (message_too_large (length payload) limit), ch)
        else sent_by
            (Messages.send c s ch.link
              (pack (record {
                message_type = code_of t;
                sequence_number = ch.outgoing_seq;
                payload = payload;
              }))
              now)
            (record ch { outgoing_seq = next_seq ch.outgoing_seq })
    | err e ↦ (err e, ch)
    | panic ↦ (panic, ch)
  ]

  unfoldable pub send : Channel s.Keys → Bytes → ℕ → Result ChannelError Packet × Channel s.Keys
  unfolding send_typed
  send ch = send_typed ch smt_channel_data

  unfoldable pub deliver_link :
      Result TransportError (Unit {0}) × Link s.Keys
      → Channel s.Keys
      → Result ChannelError (Unit {0}) × Channel s.Keys
  unfolding drain_link
  deliver_link (ok _, link) ch = drain_link link.inbound (record ch { link = link })
  deliver_link (err e, link) ch = (err (transport e), record ch { link = link })
  deliver_link (panic, link) ch = (panic, record ch { link = link })

  unfoldable pub deliver :
      Channel s.Keys → Packet → ℕ → Result ChannelError (Unit {0}) × Channel s.Keys
  unfolding deliver_link
  deliver ch packet now = deliver_link (Messages.deliver c s ch.link packet now) ch

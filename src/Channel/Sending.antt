-- ===== src/Channel/Sending.antt =====
-- A message on its way from one channel to its peer, and what stops the ones behind it.
use mathlib.Core.Path.{subst}
use rsticulum.Prelude.{
  ℕ, ◌+◌, ◌-◌, ◌^◌, ◌<◌, ◌≤◌, ◌≡◌, ◌≢◌, refl, sym, ap, ◌∙◌, arith, true, false, some, List, [], ◌∷◌,
  ◌++◌, Bytes, length, number_keys, All, ltb_of_le, lt→ltb, ==_self, Result, ok, err,
}
use rsticulum.Packet.{Packet}
use rsticulum.Crypto.Cipher.{Cipher, IsCipher}
use rsticulum.Transport.Error.{invalid_chunk_size}
use rsticulum.Transport.Signer.{Signer}
use rsticulum.Transport.Link.{Link, established}
use rsticulum.Transport.Link.Messages as Messages
use rsticulum.Transport.Link.Delivery.{
  IsPaired, sealed_size, packet_for, sent, received, send_lem, deliver-send,
}
use rsticulum.Channel.Envelope.{
  ChannelEnvelope, SystemMessageType, code_of, smt_channel_data, pack, unpack-pack, length-pack,
}
use rsticulum.Channel.{
  Channel, ChannelError, transport, next_seq, has_handler, mdu, accept, handle, drain_link, send,
  send_typed, deliver, deliver_link, sent_by, accept_next, drain_buffer,
}

module _ {K : Type 0} where
  -- The envelope of the next message.
  abbrev pub next_envelope : Channel K → SystemMessageType → Bytes → ChannelEnvelope
  next_envelope ch t payload = record {
    message_type = code_of t;
    sequence_number = ch.outgoing_seq;
    payload = payload;
  }

  unfoldable pub accept_each : Channel K → List (ℕ × Bytes) → Channel K
  accept_each ch [] = ch
  accept_each ch ((seq, payload) ∷ rest) = accept_each (accept ch seq payload) rest

  accept_other :
      (ch : Channel K) (seq : ℕ) (payload : Bytes)
      → seq ≢ ch.incoming_seq
      → ((accept ch seq payload).incoming_seq ≡ ch.incoming_seq)
        × ((accept ch seq payload).ready ≡ ch.ready)
  unfolding accept
  accept_other ch seq payload other = ground arith

  -- While the next message of a channel is missing, nothing that arrives becomes ready, however
  -- much it is.
  pub accept_each-stalled :
      (ch : Channel K) (messages : List (ℕ × Bytes))
      → All (λ (m : ℕ × Bytes). m.0 ≢ ch.incoming_seq) messages
      → ((accept_each ch messages).incoming_seq ≡ ch.incoming_seq)
        × ((accept_each ch messages).ready ≡ ch.ready)
  unfolding accept_each
  accept_each-stalled ch [] others = (refl, refl)
  accept_each-stalled ch ((seq, payload) ∷ rest) (other, others) =
      let now = accept_other ch seq payload other in
      let later =
        accept_each-stalled (accept ch seq payload) rest
          (subst (λ n. All (λ (m : ℕ × Bytes). m.0 ≢ n) rest) (sym now.0) others) in
      (later.0 ∙ now.0, later.1 ∙ now.1)

  -- A message that goes to a handler uses up its number at the sender and none at the receiver:
  -- if it was the next one, nothing behind it becomes ready, since its number never comes again.
  pub handle-stalled :
      (ch : Channel K) (e : ChannelEnvelope) (messages : List (ℕ × Bytes))
      → has_handler ch.handlers e.message_type ≡ true
      → e.sequence_number ≡ ch.incoming_seq
      → All (λ (m : ℕ × Bytes). m.0 ≢ e.sequence_number) messages
      → ((accept_each (handle ch e) messages).incoming_seq ≡ e.sequence_number)
        × ((accept_each (handle ch e) messages).ready ≡ ch.ready)
  unfolding handle
  handle-stalled ch e messages handler next others =
      let d =
        accept_each-stalled (record ch { handled = ch.handled ++ (e.message_type, e.payload) ∷ [] })
          messages (subst (λ n. All (λ (m : ℕ × Bytes). m.0 ≢ n) messages) next others) in
      rw handler (d.0 ∙ sym next, d.1)

  -- An envelope in order, on a channel with nothing waiting.
  handle_next :
      (ch : Channel K) (payload : Bytes) (seq : ℕ)
      → seq ≡ ch.incoming_seq
      → ch.reorder_buffer ≡ []
      → has_handler ch.handlers 0 ≡ false
      → handle ch (record { message_type = 0; sequence_number = seq; payload = payload })
        ≡ record ch { incoming_seq = next_seq seq; ready = ch.ready ++ payload ∷ [] }
  unfolding handle accept accept_next drain_buffer
  handle_next ch payload seq e settled no_handler =
      rw (no_handler, e, ==_self ch.incoming_seq, settled)

module _ (c : Cipher) (laws : IsCipher c) (s : Signer) where
  -- A message within the channel's MDU whose sealed envelope exceeds the link's MTU is refused by
  -- the link, but its sequence number is used up all the same.
  pub send_typed-skips :
      (ch : Channel s.Keys) (key payload : Bytes) (t : SystemMessageType) (now : ℕ)
      → ch.link.state ≡ established
      → ch.link.shared_key ≡ some key
      → 6 + length payload ≤ ch.link.config.mtu
      → ch.link.config.mtu < sealed_size (6 + length payload)
      → send_typed c s ch t payload now ≡ (
        err (transport (invalid_chunk_size (sealed_size (6 + length payload)))),
        record ch { outgoing_seq = next_seq ch.outgoing_seq },
      )
  unfolding send_typed mdu sent_by
  send_typed-skips ch key payload t now h k within beyond =
      let e = next_envelope ch t payload in
      rw (
        send_typed,
        ltb_of_le ch.link.config.mtu 6 (omega arith),
        ltb_of_le (ch.link.config.mtu - 6) (length payload) (omega arith),
        send_lem c laws s ch.link key (pack e) now h k,
        length-pack e,
        lt→ltb ch.link.config.mtu (sealed_size (6 + length payload)) beyond,
      )

  pub send_typed_through :
      (ch : Channel s.Keys) (t : SystemMessageType) (payload : Bytes) (now : ℕ) {packet : Packet}
      {link : Link s.Keys}
      → 6 + length payload ≤ ch.link.config.mtu
      → Messages.send c s ch.link (pack (next_envelope ch t payload)) now ≡ (ok packet, link)
      → send_typed c s ch t payload now
        ≡ (ok packet, record ch { link = link; outgoing_seq = next_seq ch.outgoing_seq })
  unfolding send_typed mdu sent_by
  send_typed_through ch t payload now within e = rw (
    send_typed,
    ltb_of_le ch.link.config.mtu 6 (omega arith),
    ltb_of_le (ch.link.config.mtu - 6) (length payload) (omega arith),
    e,
  )

  ok_with : Channel s.Keys → Result ChannelError (Unit {0}) × Channel s.Keys
  ok_with ch = (ok tt, ch)

  deliver_one :
      (ch : Channel s.Keys) (seq : ℕ) (payload : Bytes) (now : ℕ)
      → seq < 2 ^ 32
      → seq ≡ ch.incoming_seq
      → ch.link.inbound ≡ []
      → ch.reorder_buffer ≡ []
      → has_handler ch.handlers 0 ≡ false
      → deliver_link c s
          (
            ok tt,
            received c laws s ch.link
                (pack (record { message_type = 0; sequence_number = seq; payload = payload }))
                now,
          )
          ch
        ≡ (
          ok tt,
          record ch {
            link = record ch.link { last_inbound = now };
            incoming_seq = next_seq seq;
            ready = ch.ready ++ payload ∷ [];
          },
        )
  unfolding deliver_link drain_link ok_with
  deliver_one ch seq payload now in_range agree empty settled no_handler =
      let e : ChannelEnvelope = record {
        message_type = 0;
        sequence_number = seq;
        payload = payload;
      } in
      rw
        (
          empty,
          drain_link,
          unpack-pack e
              (record { message_type_bound = omega arith; sequence_number_bound = in_range }),
        )
        (ap (λ (r : Channel s.Keys). ok_with r)
          (handle_next (record ch { link = record ch.link { inbound = []; last_inbound = now } })
            payload seq agree settled no_handler))

  -- A message goes through: the two channels agree on the next number, before it and after it.
  pub deliver-send_channel :
      (a b : Channel s.Keys) (key payload : Bytes) (sent_at now : ℕ)
      → IsPaired key a.link b.link
      → a.outgoing_seq ≡ b.incoming_seq
      → a.outgoing_seq < 2 ^ 32
      → b.link.inbound ≡ []
      → b.reorder_buffer ≡ []
      → has_handler b.handlers (code_of smt_channel_data) ≡ false
      → sealed_size (6 + length payload) ≤ a.link.config.mtu
      → (send c s a payload sent_at ≡ (
        ok (packet_for c laws s a.link key (pack (next_envelope a smt_channel_data payload))),
        record a {
          link = sent c laws s a.link key (pack (next_envelope a smt_channel_data payload)) sent_at;
          outgoing_seq = next_seq a.outgoing_seq;
        },
      ))
        × (deliver c s b
              (packet_for c laws s a.link key (pack (next_envelope a smt_channel_data payload)))
              now
            ≡ (
              ok tt,
              record b {
                link = record b.link { last_inbound = now };
                incoming_seq = next_seq a.outgoing_seq;
                ready = b.ready ++ payload ∷ [];
              },
            ))
  unfolding deliver deliver_link send
  deliver-send_channel a b key payload sent_at now p agree in_range empty settled no_handler fits =
      let e = next_envelope a smt_channel_data payload in
      let l =
        deliver-send c laws s a.link b.link key (pack e) sent_at now p (rw (length-pack e) fits) in
      (
        send_typed_through a smt_channel_data payload sent_at (omega arith) l.0,
        ap (λ r. deliver_link c s r b) l.1
            ∙ deliver_one b a.outgoing_seq payload now in_range agree empty settled no_handler,
      )

-- ===== src/Buffer/Crossing.antt =====
-- One call of `write`, over the channels and the link to the handler of the peer's reader.
use rsticulum.Prelude.{
  ℕ, ◌+◌, ◌^◌, ◌<◌, ◌≤◌, ◌≡◌, refl, ap, ◌∙◌, arith, true, Option, none, some, List, [], ◌∷◌, ◌++◌,
  Bytes, length, ok,
}
use rsticulum.Packet.{Packet}
use rsticulum.Crypto.Cipher.{Cipher, IsCipher}
use rsticulum.Transport.Signer.{Signer}
use rsticulum.Transport.Link.{Link}
use rsticulum.Transport.Link.Messages as Messages
use rsticulum.Transport.Link.Delivery.{received}
use rsticulum.Transport.Link.Carrying.{
  wire_size, wire_size_lem, wire_size_mono, SameKey, IsJoined, carries,
}
use rsticulum.Channel.Envelope.{ChannelEnvelope, code_of, smt_stream_data, unpack-pack, length-pack}
use rsticulum.Channel.Envelope as Envelope
use rsticulum.Channel.{Channel, next_seq, has_handler, handle, drain_link, deliver, deliver_link}
use rsticulum.Channel.Sending.{next_envelope, send_typed_through}
use rsticulum.Buffer.Message.{pack}
use rsticulum.Buffer.{RawChannelWriter, chunk_of, data_message, sent_chunk, write}

-- The envelope of a chunk.
abbrev chunk_envelope : {K : Type 0} → RawChannelWriter K → Bytes → ChannelEnvelope
chunk_envelope w chunk =
    next_envelope w.channel smt_stream_data (pack (data_message w.stream_id chunk))

length-chunk_envelope :
    {K : Type 0} (w : RawChannelWriter K) (chunk : Bytes)
    → length (Envelope.pack (chunk_envelope w chunk)) ≡ 8 + length chunk
unfolding pack
length-chunk_envelope w chunk = length-pack (chunk_envelope w chunk) ∙ omega arith

-- A writer and the channel of its peer, on one link that takes chunks of up to `room` bytes.
pub record IsReady {K : Type 0} (key : Option Bytes) (room : ℕ) (w : RawChannelWriter K)
    (b : Channel K) : Type 0 where
  pub joined : IsJoined key w.channel.link b.link
  pub stream_id_bound : w.stream_id < 2 ^ 14
  pub sequence_bound : w.channel.outgoing_seq < 2 ^ 32
  pub settled : b.link.inbound ≡ []
  pub listening : has_handler b.handlers (code_of smt_stream_data) ≡ true
  pub some_bytes : 0 < w.max_data_len
  pub fits : wire_size key (8 + room) ≤ w.channel.link.config.mtu

-- The writer after a packet, and the channel of its peer after the chunk in it.
abbrev pub written : {K : Type 0} → RawChannelWriter K → Packet → ℕ → RawChannelWriter K
written w packet now = record w {
  channel = record w.channel {
    link = record w.channel.link {
      outbound = w.channel.link.outbound ++ packet ∷ [];
      last_outbound = now;
    };
    outgoing_seq = next_seq w.channel.outgoing_seq;
  };
}

abbrev pub heard : {K : Type 0} → Channel K → ℕ → Bytes → ℕ → Channel K
heard b stream_id chunk now = record b {
  link = record b.link { inbound = []; last_inbound = now };
  handled = b.handled ++ (0xFF00, pack (data_message stream_id chunk)) ∷ [];
}

IsJoined-heard :
    {K : Type 0} (key : Option Bytes) (a b : Link K) (packets : List Packet) (texts : List Bytes)
    (sent_at now : ℕ)
    → IsJoined key a b
    → IsJoined key
        (record a { outbound = packets; last_outbound = sent_at })
        (record b { inbound = texts; last_inbound = now })
IsJoined-heard key a b packets texts sent_at now j = record {
  sender_established = j.sender_established;
  receiver_established = j.receiver_established;
  same_key = same_keys key j.same_key;
  same_link = j.same_link;
  same_path = j.same_path;
}
  where
    same_keys :
        (key : Option Bytes)
        → SameKey key a b
        → SameKey key
            (record a { outbound = packets; last_outbound = sent_at })
            (record b { inbound = texts; last_inbound = now })
    same_keys none same = same
    same_keys (some key) same = same

pub IsReady-heard :
    {K : Type 0} (key : Option Bytes) (room : ℕ) (w : RawChannelWriter K) (b : Channel K)
    (packet : Packet) (chunk : Bytes) (sent_at now : ℕ)
    → IsReady key room w b
    → IsReady key room (written w packet sent_at) (heard b w.stream_id chunk now)
IsReady-heard key room w b packet chunk sent_at now h = record {
  joined =
      IsJoined-heard key w.channel.link b.link (w.channel.link.outbound ++ packet ∷ []) [] sent_at
        now h.joined;
  stream_id_bound = h.stream_id_bound;
  sequence_bound = omega arith;
  settled = refl;
  listening = h.listening;
  some_bytes = h.some_bytes;
  fits = h.fits;
}

module _ (c : Cipher) (laws : IsCipher c) (s : Signer) where
  -- The packet of one chunk.
  pub record Passes (w : RawChannelWriter s.Keys) (b : Channel s.Keys) (first : ℕ) (rest : Bytes)
      (sent_at now : ℕ) : Type 0 where
    pub packet : Packet
    pub writes :
        write c s w (first ∷ rest) sent_at
        ≡ (ok (length (chunk_of w.max_data_len (first ∷ rest))), written w packet sent_at)
    pub delivers :
        deliver c s b packet now
        ≡ (ok tt, heard b w.stream_id (chunk_of w.max_data_len (first ∷ rest)) now)

  write_through :
      (w : RawChannelWriter s.Keys) (first : ℕ) (rest : Bytes) (now : ℕ) {packet : Packet}
      {link : Link s.Keys}
      → 8 + length (chunk_of w.max_data_len (first ∷ rest)) ≤ w.channel.link.config.mtu
      → Messages.send c s w.channel.link
          (Envelope.pack (chunk_envelope w (chunk_of w.max_data_len (first ∷ rest))))
          now
        ≡ (ok packet, link)
      → write c s w (first ∷ rest) now ≡ (
        ok (length (chunk_of w.max_data_len (first ∷ rest))),
        record w {
          channel = record w.channel {
            link = link;
            outgoing_seq = next_seq w.channel.outgoing_seq;
          };
        },
      )
  unfolding write sent_chunk pack
  write_through w first rest now within e =
      let chunk = chunk_of w.max_data_len (first ∷ rest) in
      ap (λ r. sent_chunk c s (length chunk) r w)
        (send_typed_through c laws s w.channel smt_stream_data
          (pack (data_message w.stream_id chunk)) now (omega arith) e)

  deliver_through :
      (b : Channel s.Keys) (stream_id seq : ℕ) (chunk : Bytes) (now : ℕ)
      → seq < 2 ^ 32
      → b.link.inbound ≡ []
      → has_handler b.handlers (code_of smt_stream_data) ≡ true
      → deliver_link c s
          (
            ok tt,
            received c laws s b.link
                (Envelope.pack (record {
                  message_type = 0xFF00;
                  sequence_number = seq;
                  payload = pack (data_message stream_id chunk);
                }))
                now,
          )
          b
        ≡ (ok tt, heard b stream_id chunk now)
  unfolding deliver_link drain_link handle
  deliver_through b stream_id seq chunk now in_range empty listening =
      let e : ChannelEnvelope = record {
        message_type = 0xFF00;
        sequence_number = seq;
        payload = pack (data_message stream_id chunk);
      } in
      rw (
        empty,
        drain_link,
        unpack-pack e
            (record { message_type_bound = omega arith; sequence_number_bound = in_range }),
        listening,
      )

  pub passes :
      (key : Option Bytes) (room : ℕ) (w : RawChannelWriter s.Keys) (b : Channel s.Keys) (first : ℕ)
      (rest : Bytes) (sent_at now : ℕ)
      → IsReady key room w b
      → length (chunk_of w.max_data_len (first ∷ rest)) ≤ room
      → Passes w b first rest sent_at now
  unfolding deliver deliver_link
  passes key room w b first rest sent_at now h short =
      let chunk = chunk_of w.max_data_len (first ∷ rest) in
      let text = Envelope.pack (chunk_envelope w chunk) in
      let size = wire_size_mono key (8 + length chunk) (8 + room) (omega arith) in
      let crossing =
        carries c laws s key w.channel.link b.link text sent_at now h.joined
          (rw (length-chunk_envelope w chunk) (omega (arith, size, h.fits))) in
      record {
        packet = crossing.packet;
        writes =
            write_through w first rest sent_at
              (omega (arith, size, h.fits, wire_size_lem key (8 + length chunk))) crossing.sends;
        delivers =
            ap (λ r. deliver_link c s r b) crossing.delivers
            ∙ deliver_through b w.stream_id w.channel.outgoing_seq chunk now h.sequence_bound
                h.settled h.listening;
      }

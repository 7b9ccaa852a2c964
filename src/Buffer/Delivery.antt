-- ===== src/Buffer/Delivery.antt =====
-- A stream from the calls of `write` of one peer, over its channel and link, to those of `read` of
-- the other.
use mathlib.Core.List.{append_assoc, append-nil}
use mathlib.Core.Path.{subst}
use rsticulum.Prelude.{
  ℕ, zero, suc, ◌+◌, ◌-◌, ◌^◌, ◌<◌, ◌≤◌, ◌≡◌, refl, sym, ap, ◌∙◌, arith, min, Option, List, [], ◌∷◌,
  ◌++◌, Bytes, length, drop, length-append, ltb_of_le, ok, ok-injective,
}
use rsticulum.Packet.{Packet}
use rsticulum.Crypto.Cipher.{Cipher, IsCipher}
use rsticulum.Transport.Signer.{Signer}
use rsticulum.Transport.Link.Carrying.{wire_size, IsJoined}
use rsticulum.Channel.{Channel, register_handler, mdu}
use rsticulum.Buffer.Message.{pack}
use rsticulum.Buffer.{
  RawChannelReader, RawChannelWriter, new_reader, new_writer, on_message, chunk_of, data_message,
  write,
}
use rsticulum.Buffer.Streaming.{
  on_message-data, chunk-rest, length-chunk_of, rest-shorter, read_all, read_all-conserves,
}
use rsticulum.Buffer.Runs.{added, after_ok, hear, write_all, deliver_all}
use rsticulum.Buffer.Crossing.{IsReady, IsReady-heard, written, heard, Passes, passes}

module _ (c : Cipher) (laws : IsCipher c) (s : Signer) where
  -- What the calls of `write` come to for both ends.
  record Sends (w : RawChannelWriter s.Keys) (b : Channel s.Keys) (calls : ℕ) (bs : Bytes)
      (sent_at now : ℕ) : Type 0 where
    packets : List Packet
    log : List (ℕ × Bytes)
    end_of_writing : Channel s.Keys
    end_of_delivery : Channel s.Keys
    writes_all :
        write_all c s calls w bs sent_at ≡ (ok (length bs), record w { channel = end_of_writing })
    sends_all : end_of_writing.link.outbound ≡ w.channel.link.outbound ++ packets
    delivers_all : deliver_all c s b packets now ≡ (ok tt, end_of_delivery)
    handles_all : end_of_delivery.handled ≡ b.handled ++ log
    hears_all :
        (r : RawChannelReader)
        → r.stream_id ≡ w.stream_id
        → hear r log ≡ record r { buffer = r.buffer ++ bs }

  write_all_nothing :
      (w : RawChannelWriter s.Keys) (calls sent_at : ℕ)
      → write_all c s calls w [] sent_at ≡ (ok 0, w)
  unfolding write_all write added after_ok
  write_all_nothing w zero sent_at = refl
  write_all_nothing w (suc calls) sent_at = rw (write_all_nothing w calls sent_at)

  empty_run :
      (w : RawChannelWriter s.Keys) (b : Channel s.Keys) (calls sent_at now : ℕ)
      → Sends w b calls [] sent_at now
  unfolding deliver_all hear
  empty_run w b calls sent_at now = record {
    packets = [];
    log = [];
    end_of_writing = w.channel;
    end_of_delivery = b;
    writes_all = write_all_nothing w calls sent_at;
    sends_all = sym (append-nil w.channel.link.outbound);
    delivers_all = refl;
    handles_all = sym (append-nil b.handled);
    hears_all = λ r same. ap (λ bs. record r { buffer = bs }) (sym (append-nil r.buffer));
  }

  hear_first :
      (r : RawChannelReader) (stream_id : ℕ) (chunk : Bytes) (rest : List (ℕ × Bytes))
      → stream_id < 2 ^ 14
      → r.stream_id ≡ stream_id
      → hear r ((0xFF00, pack (data_message stream_id chunk)) ∷ rest)
        ≡ hear (record r { buffer = r.buffer ++ chunk }) rest
  unfolding hear
  hear_first r stream_id chunk rest bounded same =
      ap (λ r'. hear r' rest)
        (ap (λ n. on_message r (pack (data_message n chunk))) (sym same)
          ∙ on_message-data r chunk (omega arith))

  longer_run :
      (w : RawChannelWriter s.Keys) (b : Channel s.Keys) (calls first : ℕ) (rest : Bytes)
      (sent_at now : ℕ)
      → w.stream_id < 2 ^ 14
      → (step : Passes c laws s w b first rest sent_at now)
      → Sends
          (written w step.packet sent_at)
          (heard b w.stream_id (chunk_of w.max_data_len (first ∷ rest)) now)
          calls
          (drop (length (chunk_of w.max_data_len (first ∷ rest))) (first ∷ rest))
          sent_at
          now
      → Sends w b (suc calls) (first ∷ rest) sent_at now
  unfolding write_all deliver_all
  longer_run w b calls first rest sent_at now bounded step later =
      let chunk = chunk_of w.max_data_len (first ∷ rest) in
      let left = drop (length chunk) (first ∷ rest) in
      let whole = chunk-rest w.max_data_len (first ∷ rest) in
      let entry : ℕ × Bytes = (0xFF00, pack (data_message w.stream_id chunk)) in
      record {
        packets = step.packet ∷ later.packets;
        log = entry ∷ later.log;
        end_of_writing = later.end_of_writing;
        end_of_delivery = later.end_of_delivery;
        writes_all =
            ap (after_ok (λ n w'. added n (write_all c s calls w' (drop n (first ∷ rest)) sent_at)))
              step.writes
            ∙ ap (added (length chunk)) later.writes_all
            ∙ ap (λ n. (ok n, record w { channel = later.end_of_writing }))
                (sym (length-append chunk left) ∙ ap length whole);
        sends_all =
            later.sends_all ∙ append_assoc w.channel.link.outbound (step.packet ∷ []) later.packets;
        delivers_all =
            ap (after_ok (λ _ b'. deliver_all c s b' later.packets now)) step.delivers
            ∙ later.delivers_all;
        handles_all = later.handles_all ∙ append_assoc b.handled (entry ∷ []) later.log;
        hears_all = λ r same.
            hear_first r w.stream_id chunk later.log bounded same
            ∙ later.hears_all (record r { buffer = r.buffer ++ chunk }) same
            ∙ ap (λ bs. record r { buffer = bs })
                (append_assoc r.buffer chunk left ∙ ap (λ (t : Bytes). r.buffer ++ t) whole);
      }

  sends :
      (key : Option Bytes) (room : ℕ) (w : RawChannelWriter s.Keys) (b : Channel s.Keys) (calls : ℕ)
      (bs : Bytes) (sent_at now : ℕ)
      → IsReady key room w b
      → min w.max_data_len (length bs) ≤ room
      → length bs ≤ calls
      → Sends w b calls bs sent_at now
  sends key room w b calls [] sent_at now h short enough = empty_run w b calls sent_at now
  sends key room w b zero (first ∷ rest) sent_at now h short enough = absurd (omega arith)
  sends key room w b (suc calls) (first ∷ rest) sent_at now h short enough =
      let most = w.max_data_len in
      let chunk = chunk_of most (first ∷ rest) in
      let less = rest-shorter most first rest h.some_bytes in
      let step =
        passes c laws s key room w b first rest sent_at now h
          (omega (arith, length-chunk_of most (first ∷ rest))) in
      longer_run w b calls first rest sent_at now h.stream_id_bound step (
        sends key room (written w step.packet sent_at) (heard b w.stream_id chunk now) calls
          (drop (length chunk) (first ∷ rest)) sent_at now
          (IsReady-heard key room w b step.packet chunk sent_at now h) (omega arith) (omega arith))

  new_writer-ok :
      (a : Channel s.Keys) (stream_id : ℕ) (w : RawChannelWriter s.Keys)
      → 8 < a.link.config.mtu
      → new_writer a stream_id ≡ ok w
      → w ≡ record { stream_id = stream_id; channel = a; max_data_len = a.link.config.mtu - 8 }
  unfolding new_writer mdu
  new_writer-ok a stream_id w h e = ok-injective (
      sym e
      ∙ rw (new_writer, ltb_of_le a.link.config.mtu 6 (omega arith))
          (ap (λ n. ok (record { stream_id = stream_id; channel = a; max_data_len = n }))
            (omega arith)))

  -- What is written in as many calls as it has bytes, by a writer made on a channel whose link has
  -- sent nothing yet, is written whole; every packet of that link can be delivered to the channel at
  -- the other end of the link; a reader made on that channel, whose handler then hears what the
  -- channel handled, has exactly the data in its buffer; and calls of `read` of any sizes return it
  -- from its front on. The conditions: both ends have the same key or none, the stream's number has
  -- 14 bits and the sender's next sequence number 32, the link has room for a byte, and the largest
  -- chunk that is sent fits its MTU, sealed if there is a key (so with a key the data must be
  -- shorter than a full chunk, which leaves no room for the seal). The peer's channel has handled
  -- nothing before and its link has nothing inbound. Delivery is to the channel that the reader was
  -- made on; the code keeps it private in the reader and offers no call that delivers to it.
  pub read_all-write_all :
      (key : Option Bytes) (a b : Channel s.Keys) (stream_id : ℕ) (w : RawChannelWriter s.Keys)
      (bs : Bytes) (sent_at now : ℕ) (sizes : List ℕ)
      → new_writer a stream_id ≡ ok w
      → IsJoined key a.link b.link
      → stream_id < 2 ^ 14
      → a.outgoing_seq < 2 ^ 32
      → 8 < a.link.config.mtu
      → wire_size key (8 + min w.max_data_len (length bs)) ≤ a.link.config.mtu
      → a.link.outbound ≡ []
      → b.link.inbound ≡ []
      → b.handled ≡ []
      → let (r, listener) = new_reader b stream_id in
        let (result, w') = write_all c s (length bs) w bs sent_at in
        let (outcome, listener') = deliver_all c s listener w'.channel.link.outbound now in
        let r' = hear r listener'.handled in
        (result ≡ ok (length bs))
        × (outcome ≡ ok tt)
        × (r' ≡ record r { buffer = bs })
        × ((read_all r' sizes).0 ++ (read_all r' sizes).1.buffer ≡ bs)
  unfolding new_reader register_handler
  read_all-write_all key a b stream_id w bs sent_at now sizes made joined bounded in_range roomy
        fits unsent settled unhandled =
      let (r, listener) = new_reader b stream_id in
      let same = new_writer-ok a stream_id w roomy made in
      let ready : IsReady key (min w.max_data_len (length bs)) w listener =
        subst (λ v. IsReady key (min w.max_data_len (length bs)) v listener) (sym same)
          (record {
            joined = joined;
            stream_id_bound = bounded;
            sequence_bound = in_range;
            settled = settled;
            listening = refl;
            some_bytes = omega arith;
            fits = fits;
          }) in
      let run =
        sends key (min w.max_data_len (length bs)) w listener (length bs) bs sent_at now ready
          (omega arith) (omega arith) in
      let packets : (write_all c s (length bs) w bs sent_at).1.channel.link.outbound ≡ run.packets =
        ap (λ x. x.1.channel.link.outbound) run.writes_all
        ∙ run.sends_all
        ∙ ap (λ (sent : List Packet). sent ++ run.packets)
            (ap (λ v. v.channel.link.outbound) same ∙ unsent) in
      let delivery = ap (λ ps. deliver_all c s listener ps now) packets ∙ run.delivers_all in
      let log =
        ap (λ x. x.1.handled) delivery
        ∙ run.handles_all
        ∙ ap (λ (old : List (ℕ × Bytes)). old ++ run.log) unhandled in
      let buffered = ap (hear r) log ∙ run.hears_all r (sym (ap (λ v. v.stream_id) same)) in
      (
        ap (λ x. x.0) run.writes_all,
        ap (λ x. x.0) delivery,
        buffered,
        read_all-conserves _ sizes ∙ ap (λ x. x.buffer) buffered,
      )

-- ===== src/Buffer.antt =====
-- crates/buffer/src/lib.rs: streams of bytes over a channel. The reader's shared cells are its
-- fields; waking its waiters has no effect on them.
pub mod Message
pub mod Streaming
mod Runs
mod Crossing
pub mod Delivery
mod Tests
use rsticulum.Prelude.{
  ℕ, ◌-◌, ◌%◌, min, Bool, true, false, Option, none, some, [], ◌∷◌, ◌++◌, Bytes, length, take, drop,
  ltb, ◌==◌, if◌then◌else◌, Result, ok, err, panic,
}
use rsticulum.Crypto.Cipher.{Cipher}
use rsticulum.Packet.{Packet}
use rsticulum.Transport.Signer.{Signer}
use rsticulum.Channel.Envelope.{smt_stream_data}
use rsticulum.Channel.{Channel, ChannelError, register_handler, mdu, send_typed}
use rsticulum.Buffer.Message.{
  StreamDataMessage, BufferError, channel_error, pack, unpack, max_data_len_of,
}

pub record RawChannelReader : Type 0 where
  pub stream_id : ℕ
  pub buffer : Bytes
  pub eof : Bool

unfoldable pub new_reader : {K : Type 0} → Channel K → ℕ → RawChannelReader × Channel K
new_reader channel stream_id = (
  record { stream_id = stream_id; buffer = []; eof = false },
  register_handler channel smt_stream_data,
)

-- The registered handler, on a parsed message.
unfoldable pub take_message :
    RawChannelReader → Result BufferError StreamDataMessage → RawChannelReader
take_message r (ok msg) =
    if msg.stream_id == r.stream_id
    then record r { eof = (if msg.eof then true else r.eof); buffer = r.buffer ++ msg.payload }
    else r
take_message r (err e) = r
take_message r panic = r

unfoldable pub on_message : RawChannelReader → Bytes → RawChannelReader
unfolding take_message
on_message r bs = take_message r (unpack bs)

-- What a round of the loop of `read` comes to: bytes, the end of the stream, or waiting.
pub data ReadResult : Type 0 where
  bytes : Bytes → ReadResult
  end_of_stream wait : ReadResult

unfoldable pub read : RawChannelReader → ℕ → ReadResult × RawChannelReader
read r size =
    let available = length r.buffer in
    if ltb 0 available
    then (
      bytes (take (min available size) r.buffer),
      record r { buffer = drop (min available size) r.buffer },
    )
    else if r.eof
    then (end_of_stream, r)
    else (wait, r)

pub record RawChannelWriter (K : Type 0) : Type 0 where
  pub stream_id : ℕ
  pub channel : Channel K
  pub max_data_len : ℕ

unfoldable pub new_writer : {K : Type 0} → Channel K → ℕ → Result ChannelError (RawChannelWriter K)
new_writer channel stream_id = elim (mdu channel) [
  | ok n ↦
      ok (record { stream_id = stream_id; channel = channel; max_data_len = max_data_len_of n })
  | err e ↦ err e
  | panic ↦ panic
]

-- The part of the data that one call sends.
abbrev pub chunk_of : ℕ → Bytes → Bytes
chunk_of most bs = if ltb most (length bs) then take most bs else bs

abbrev pub data_message : ℕ → Bytes → StreamDataMessage
data_message stream_id chunk = record {
  stream_id = stream_id;
  payload = chunk;
  eof = false;
  compressed = false;
}

abbrev pub eof_message : ℕ → StreamDataMessage
eof_message stream_id = record {
  stream_id = stream_id;
  payload = [];
  eof = true;
  compressed = false;
}

module _ (c : Cipher) (s : Signer) where
  unfoldable pub sent_chunk :
      {A : Type 0}
      → A
      → Result ChannelError Packet × Channel s.Keys
      → RawChannelWriter s.Keys
      → Result BufferError A × RawChannelWriter s.Keys
  sent_chunk a (ok packet, channel) w = (ok a, record w { channel = channel })
  sent_chunk a (err e, channel) w = (err (channel_error e), record w { channel = channel })
  sent_chunk a (panic, channel) w = (panic, record w { channel = channel })

  unfoldable pub write :
      RawChannelWriter s.Keys → Bytes → ℕ → Result BufferError ℕ × RawChannelWriter s.Keys
  unfolding sent_chunk
  write w [] now = (ok 0, w)
  write w (b ∷ bs) now =
      let chunk = chunk_of w.max_data_len (b ∷ bs) in
      sent_chunk (length chunk)
        (send_typed c s w.channel smt_stream_data (pack (data_message w.stream_id chunk)) now) w

  unfoldable pub close :
      RawChannelWriter s.Keys → ℕ → Result BufferError (Unit {0}) × RawChannelWriter s.Keys
  unfolding sent_chunk
  close w now =
      sent_chunk tt (send_typed c s w.channel smt_stream_data (pack (eof_message w.stream_id)) now)
        w

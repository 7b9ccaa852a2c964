-- ===== src/Channel/Tests.antt =====
-- The theorems on channels at concrete envelopes and channels.
use rsticulum.Prelude.{
  ℕ, zero, suc, ◌<◌, ◌≡◌, refl, arith, true, [], ◌∷◌, ◌++◌, Bytes, replicate, ok,
}
use rsticulum.Identity.RnsAddress.{RnsAddress}
use rsticulum.Crypto.Cipher as CipherModule
use rsticulum.Transport.Signer as SignerModule
use rsticulum.Transport.Link as LinkModule
use rsticulum.Transport.Link.{Link, established, set_shared_key, set_state, with_config}
use rsticulum.Transport.Link.Agreement.{derive_transport_id_comm}
use rsticulum.Transport.Link.Delivery.{IsPaired, packet_for, sent}
use rsticulum.Channel.Envelope.{ChannelEnvelope, InRange, smt_channel_data, smt_stream_data, pack}
use rsticulum.Channel.{Channel, new, register_handler, next_seq, send, deliver}
use rsticulum.Channel.Window.{texts_below, is_in}
use rsticulum.Channel.Ordering.{accept_all, accept_all_complete}
use rsticulum.Channel.Sending.{next_envelope, deliver-send_channel}

abbrev greeting : ChannelEnvelope
greeting = record { message_type = 0; sequence_number = 4294967295; payload = b'h' ∷ b'i' ∷ [] }

greeting-InRange : InRange greeting
greeting-InRange = record { message_type_bound = omega arith; sequence_number_bound = omega arith }

abbrev wire : Bytes
wire = 0 ∷ 0 ∷ 0 ∷ 0 ∷ 1 ∷ 2 ∷ 7 ∷ []

abbrev read : ChannelEnvelope
read = record { message_type = 0; sequence_number = 258; payload = 7 ∷ [] }

abbrev alice : RnsAddress
alice = record { bytes = replicate 16 7 }

abbrev bob : RnsAddress
bob = record { bytes = replicate 16 9 }

abbrev link_from : Bytes → RnsAddress → RnsAddress → Link Bytes
link_from keys near far =
    set_shared_key (set_state (LinkModule.new near keys far 5) established) (replicate 64 4)

abbrev ours : Channel Bytes
ours = new (link_from (1 ∷ []) alice bob)

abbrev theirs : Channel Bytes
theirs = new (link_from (2 ∷ []) bob alice)

abbrev text : ℕ → Bytes
text n = n ∷ []

all_arrive : (n : ℕ) → n < 2 → is_in n (1 ∷ 1 ∷ 0 ∷ []) ≡ true
all_arrive zero h = refl
all_arrive (suc zero) h = refl
all_arrive (suc (suc n)) h = absurd (omega arith)

accept_all_complete_example : (accept_all text ours (1 ∷ 1 ∷ 0 ∷ [])).ready ≡ texts_below text 2
accept_all_complete_example =
    accept_all_complete text 2 (link_from (1 ∷ []) alice bob) (1 ∷ 1 ∷ 0 ∷ []) (omega arith)
      (omega arith) all_arrive

abbrev streaming : Channel Bytes
streaming = register_handler ours smt_stream_data

abbrev chunk : ChannelEnvelope
chunk = record { message_type = 0xFF00; sequence_number = 0; payload = 9 ∷ [] }

ours_theirs-IsPaired : IsPaired (replicate 64 4) ours.link theirs.link
unfolding new LinkModule.new with_config set_shared_key set_state
ours_theirs-IsPaired = record {
  sender_established = refl;
  receiver_established = refl;
  sender_key = refl;
  receiver_key = refl;
  same_link = refl;
  same_path = derive_transport_id_comm alice bob;
}

abbrev packed : Bytes
packed = pack (next_envelope ours smt_channel_data (5 ∷ []))

deliver-send_channel_example :
    (send CipherModule.toy SignerModule.toy ours (5 ∷ []) 8 ≡ (
      ok (
          packet_for CipherModule.toy CipherModule.toy-IsCipher SignerModule.toy ours.link
            (replicate 64 4)
            packed),
      record ours {
        link =
            sent CipherModule.toy CipherModule.toy-IsCipher SignerModule.toy ours.link
              (replicate 64 4)
              packed
              8;
        outgoing_seq = next_seq ours.outgoing_seq;
      },
    ))
    × (deliver CipherModule.toy SignerModule.toy theirs
          (packet_for CipherModule.toy CipherModule.toy-IsCipher SignerModule.toy ours.link
            (replicate 64 4)
            packed)
          9
        ≡ (
          ok tt,
          record theirs {
            link = record theirs.link { last_inbound = 9 };
            incoming_seq = next_seq ours.outgoing_seq;
            ready = theirs.ready ++ (5 ∷ []) ∷ [];
          },
        ))
unfolding new LinkModule.new with_config set_shared_key set_state
deliver-send_channel_example =
    deliver-send_channel CipherModule.toy CipherModule.toy-IsCipher SignerModule.toy ours theirs
      (replicate 64 4) (5 ∷ []) 8 9 ours_theirs-IsPaired refl (omega arith) refl refl refl
      (omega arith)

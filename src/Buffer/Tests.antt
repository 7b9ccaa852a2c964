-- ===== src/Buffer/Tests.antt =====
-- The theorems on streams at concrete channels: two ends of a link in the clear, whose MTU leaves
-- four bytes to a chunk.
use rsticulum.Prelude.{◌≡◌, refl, ◌++◌, arith, none, [], ◌∷◌, Bytes, length, replicate, ok}
use rsticulum.Identity.RnsAddress.{RnsAddress}
use rsticulum.Crypto.Cipher.{toy, toy-IsCipher}
use rsticulum.Transport.Signer as SignerModule
use rsticulum.Transport.Link.{Link, established, set_state, with_config}
use rsticulum.Transport.Link.Agreement.{derive_transport_id_comm}
use rsticulum.Transport.Link.Carrying.{IsJoined}
use rsticulum.Channel.{Channel, new, mdu}
use rsticulum.Buffer.{RawChannelWriter, new_reader, new_writer}
use rsticulum.Buffer.Streaming.{read_all}
use rsticulum.Buffer.Runs.{hear, write_all, deliver_all}
use rsticulum.Buffer.Delivery.{read_all-write_all}

abbrev alice : RnsAddress
alice = record { bytes = replicate 16 7 }

abbrev bob : RnsAddress
bob = record { bytes = replicate 16 9 }

abbrev link_from : Bytes → RnsAddress → RnsAddress → Link Bytes
link_from keys near far =
    set_state
      (with_config near keys far
        (record { mtu = 12; max_retries = 3; handshake_timeout_ms = 30000 }) 5)
      established

abbrev ours : Channel Bytes
ours = new (link_from (1 ∷ []) alice bob)

abbrev theirs : Channel Bytes
theirs = new (link_from (2 ∷ []) bob alice)

abbrev writer : RawChannelWriter Bytes
writer = record { stream_id = 42; channel = ours; max_data_len = 4 }

ours_theirs-IsJoined : IsJoined none ours.link theirs.link
unfolding new with_config set_state
ours_theirs-IsJoined = record {
  sender_established = refl;
  receiver_established = refl;
  same_key = (refl, refl, refl, refl);
  same_link = refl;
  same_path = derive_transport_id_comm alice bob;
}

writer_made : new_writer ours 42 ≡ ok writer
unfolding new_writer mdu new with_config set_state
writer_made = refl

abbrev text : Bytes
text = 1 ∷ 2 ∷ 3 ∷ 4 ∷ 5 ∷ 6 ∷ 7 ∷ 8 ∷ 9 ∷ []

read_all-write_all_example :
    let (r, listener) = new_reader theirs 42 in
    let (result, w') = write_all toy SignerModule.toy (length text) writer text 8 in
    let (outcome, listener') =
      deliver_all toy SignerModule.toy listener w'.channel.link.outbound 9 in
    let r' = hear r listener'.handled in
    (result ≡ ok (length text))
    × (outcome ≡ ok tt)
    × (r' ≡ record r { buffer = text })
    × ((read_all r' (3 ∷ 5 ∷ [])).0 ++ (read_all r' (3 ∷ 5 ∷ [])).1.buffer ≡ text)
unfolding new with_config set_state
read_all-write_all_example =
    read_all-write_all toy toy-IsCipher SignerModule.toy none ours theirs 42 writer text 8 9
      (3 ∷ 5 ∷ []) writer_made ours_theirs-IsJoined (omega arith) (omega arith) (omega arith)
      (omega arith) refl refl refl

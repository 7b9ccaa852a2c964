-- ===== src/Buffer/Runs.antt =====
-- crates/buffer/src/lib.rs: runs of calls, at the two ends of a stream.
use rsticulum.Prelude.{
  ℕ, zero, suc, ◌+◌, List, [], ◌∷◌, Bytes, drop, ◌==◌, if◌then◌else◌, Result, ok, err, panic,
}
use rsticulum.Packet.{Packet}
use rsticulum.Crypto.Cipher.{Cipher}
use rsticulum.Transport.Signer.{Signer}
use rsticulum.Channel.Envelope.{code_of, smt_stream_data}
use rsticulum.Channel.{Channel, ChannelError, deliver}
use rsticulum.Buffer.Message.{BufferError}
use rsticulum.Buffer.{RawChannelReader, RawChannelWriter, on_message, write}

-- The number of bytes of an earlier call, added to what the later ones return.
unfoldable pub added : {W : Type 0} → ℕ → Result BufferError ℕ × W → Result BufferError ℕ × W
added n (ok m, w) = (ok (n + m), w)
added n (err e, w) = (err e, w)
added n (panic, w) = (panic, w)

-- What is done after a call that returned a value.
unfoldable pub after_ok :
    {E A B S : Type 0} → (A → S → Result E B × S) → Result E A × S → Result E B × S
after_ok more (ok a, x) = more a x
after_ok more (err e, x) = (err e, x)
after_ok more (panic, x) = (panic, x)

-- The reader's handler on what its channel handled.
unfoldable pub hear : RawChannelReader → List (ℕ × Bytes) → RawChannelReader
hear r [] = r
hear r ((t, payload) ∷ rest) =
    hear (if t == code_of smt_stream_data then on_message r payload else r) rest

module _ (c : Cipher) (s : Signer) where
  -- Calls of `write`, each with what the number that the one before it returned leaves of the data;
  -- `calls` is their number. It returns how much they wrote.
  unfoldable pub write_all :
      ℕ → RawChannelWriter s.Keys → Bytes → ℕ → Result BufferError ℕ × RawChannelWriter s.Keys
  unfolding added after_ok
  write_all zero w bs now = (ok 0, w)
  write_all (suc calls) w bs now =
      after_ok (λ n w'. added n (write_all calls w' (drop n bs) now)) (write c s w bs now)

  -- Calls of `deliver` with the packets, up to the first that fails.
  unfoldable pub deliver_all :
      Channel s.Keys → List Packet → ℕ → Result ChannelError (Unit {0}) × Channel s.Keys
  unfolding after_ok
  deliver_all ch [] now = (ok tt, ch)
  deliver_all ch (packet ∷ packets) now =
      after_ok (λ _ ch'. deliver_all ch' packets now) (deliver c s ch packet now)

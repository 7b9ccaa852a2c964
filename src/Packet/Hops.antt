-- ===== src/Packet/Hops.antt =====
-- The hop count of a packet: `decrement_ttl` and `is_expired`, and the constructors.
use rsticulum.Prelude.{ℕ, zero, suc, ◌≡◌, refl, ap, ◌∙◌, arith, length, Bytes, leb, ok}
use rsticulum.Identity.RnsAddress.{RnsAddress, IsAddress}
use rsticulum.Packet.{
  Packet, hash_length, is_expired, decrement_ttl, new_data, new_announce, new_link_request,
  new_proof, new_transport, to_bytes, from_bytes, destination,
}
use rsticulum.Packet.Codec.{from_bytes-to_bytes}

-- `n` nodes forward the packet.
abbrev pub forwarded : ℕ → Packet → Packet
forwarded zero p = p
forwarded (suc n) p = forwarded n (decrement_ttl p)

-- A packet has expired after `n` forwards exactly if its hop count is at most `n`, and forwarding
-- changes no other field: a packet with `h` hops left is alive at exactly `h` nodes.
pub is_expired-forwarded :
    (n : ℕ) (p : Packet)
    → (is_expired (forwarded n p) ≡ leb p.hops n) × (record (forwarded n p) { hops = p.hops } ≡ p)
unfolding is_expired decrement_ttl
is_expired-forwarded zero p = (ground arith, refl)
is_expired-forwarded (suc n) p =
    let (later, rest) = is_expired-forwarded n (decrement_ttl p) in
    (later ∙ ground arith, ap (λ (q : Packet). record q { hops = p.hops }) rest)

-- Every constructor makes a packet that the parser reads back as it is and that names the
-- destination it was made for.
abbrev pub ReadsBack : RnsAddress → Packet → Type 0
ReadsBack a p = (from_bytes (to_bytes p) ≡ ok p) × (destination p ≡ ok a)

pub constructors_read_back :
    (a : RnsAddress) (tid : Bytes) (context : ℕ) (payload : Bytes)
    → IsAddress a
    → length tid ≡ hash_length
    → ReadsBack a (new_data a payload)
      × ReadsBack a (new_announce a payload)
      × ReadsBack a (new_link_request a payload)
      × ReadsBack a (new_proof a context payload)
      × ReadsBack a (new_transport a tid payload)
unfolding new_data new_announce new_link_request new_proof new_transport destination
constructors_read_back a tid context payload h k = (
  (from_bytes-to_bytes _ (ground arith), ground arith),
  (from_bytes-to_bytes _ (ground arith), ground arith),
  (from_bytes-to_bytes _ (ground arith), ground arith),
  (from_bytes-to_bytes _ (ground arith), ground arith),
  (from_bytes-to_bytes _ (ground arith), ground arith),
)

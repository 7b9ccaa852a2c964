-- ===== src/Mesh/Udp/Takeover.antt =====
-- crates/mesh/src/udp.rs: what an announce does to the addresses of the peers.
use rsticulum.Prelude.{
  ℕ, ◌≤◌, ◌≡◌, refl, ◌∙◌, ap, arith, true, none, some, Bytes, ◌++◌, length, take, length-append,
  take-append, leb_of_le, if◌then◌else◌, ok, slice_lem, get-insert, inl, inr, Bool-cases,
}
use rsticulum.Identity.RnsAddress.{RnsAddress, IdentityError, IsAddress, from_key}
use rsticulum.Packet.{new_announce, to_bytes}
use rsticulum.Packet.Codec.{IsValid, from_bytes-to_bytes}
use rsticulum.Mesh.{same_address, address_keys}
use rsticulum.Mesh.Udp.{
  UdpMedium, send, send_to, recv, attribute, identify, register, add_peer, peer_at,
}

new_announce-IsValid :
    (dest : RnsAddress) (payload : Bytes) → IsAddress dest → IsValid (new_announce dest payload)
unfolding new_announce
new_announce-IsValid dest payload h = record {
  header_type_fits = omega arith;
  context_flag_fits = omega arith;
  transport_type_fits = omega arith;
  destination_type_fits = omega arith;
  packet_type_fits = omega arith;
  destination_length = h;
  transport = λ e. absurd (omega (arith, e));
}

module _ (sha256 : Bytes → Bytes) where
  abbrev pub address_of : Bytes → RnsAddress
  address_of key = record { bytes = take 16 (sha256 key) }

  from_key_lem :
      (key : Bytes) → 16 ≤ length (sha256 key) → from_key sha256 key ≡ ok (address_of key)
  unfolding from_key
  from_key_lem key long =
      rw (slice_lem {E = IdentityError} (sha256 key) 0 16 (omega arith) long) refl

  -- Of an announce with a whole public key in front.
  recv-announce :
      (m : UdpMedium) (dest : RnsAddress) (key rest : Bytes) (from : ℕ)
      → IsAddress dest
      → length key ≡ 64
      → 16 ≤ length (sha256 key)
      → peer_at from m.peer_addrs ≡ none
      → let buf = to_bytes (new_announce dest (key ++ rest)) in
        recv sha256 m (some (from, buf))
        ≡ (ok (some (address_of key, buf)), add_peer m (address_of key) from)
  unfolding recv attribute identify register
  recv-announce m dest key rest from h whole long unknown =
      let buf = to_bytes (new_announce dest (key ++ rest)) in
      let wide : 64 ≤ length (key ++ rest) = omega (arith, whole, length-append key rest) in
      let taken : from_key sha256 (take 64 (key ++ rest)) ≡ ok (address_of key) =
        ap (from_key sha256) (take-append key rest 64 whole) ∙ from_key_lem key long in
      rw
        (
          unknown,
          from_bytes-to_bytes (new_announce dest (key ++ rest))
              (new_announce-IsValid dest (key ++ rest) h),
        )
        (unfold new_announce in rw (leb_of_le 64 (length (key ++ rest)) wide, taken) refl)

  -- An announce with a whole public key in front, that comes from a socket address of no peer, gives
  -- the address of that key the socket address: from then on what is sent to it goes there, whatever
  -- the address was registered with before, and what is sent to other addresses goes where it did.
  pub send-recv_announce :
      (m : UdpMedium) (dest : RnsAddress) (key rest : Bytes) (from : ℕ) (to : RnsAddress)
      (frame : Bytes)
      → IsAddress dest
      → length key ≡ 64
      → 16 ≤ length (sha256 key)
      → peer_at from m.peer_addrs ≡ none
      → send true
          (recv sha256 m (some (from, to_bytes (new_announce dest (key ++ rest))))).1
          to
          frame
        ≡ (if same_address (address_of key) to then ok (from, frame) else send true m to frame)
  unfolding add_peer send_to
  send-recv_announce m dest key rest from to frame h whole long unknown =
      rw
        (
          recv-announce m dest key rest from h whole long unknown,
          get-insert to (address_of key) from m.peer_addrs,
        )
        (elim (Bool-cases (same_address (address_of key) to)) [
          | inl same ↦ rw same
          | inr other ↦ rw other
        ])

-- ===== src/Transport/PacketTransport/Reassembly.antt =====
-- crates/transport/src/packet_transport.rs: the fragments of one message, received in any order.
use rsticulum.Prelude.{
  ℕ, ◌+◌, ◌^◌, ◌<◌, ◌≡◌, refl, sym, ap, ◌∙◌, arith, Bool, true, false, ◌||◌, Option, none, some,
  List, [], ◌∷◌, Bytes, length, get_elem?, ◌==◌, ==_iff, Result, ok, get, insert, remove,
  get-insert, number_keys, Option-cases, Bool-cases, inl, inr, All,
}
use mathlib.Core.Path.{subst}
use rsticulum.Identity.RnsAddress.{RnsAddress}
use rsticulum.Packet.{Packet}
use rsticulum.Transport.Error.{TransportError}
use rsticulum.Transport.Resource.{is_received}
use rsticulum.Transport.Resource.Presence.{
  AllPresent, Agrees, present_below, present_below-empty, present_below-full, full_of_count,
  length-insert_new, present_below-insert, present_below_same, length-insert_again,
}
use rsticulum.Transport.Resource.Chunks.{joined}
use rsticulum.Transport.PacketTransport.{
  PacketTransport, ReassemblyBuffer, buffer_for, fragment_packet, number_fragments, recv_packet,
  gather, check_complete, close,
}
use rsticulum.Transport.PacketTransport.Arrivals.{
  arrived, arrive, arrive_each, elem_below, elem-number_fragments,
}
use rsticulum.Transport.PacketTransport.Fragments.{recv_packet-fragment_packet, assemble-full}

module _ (destination : RnsAddress) (id : ℕ) (cs : List Bytes) (small_id : id < 2 ^ 64)
    (few : length cs < 2 ^ 16) where
  abbrev n : ℕ
  n = length cs

  abbrev sent : List Packet
  sent = number_fragments destination id n 0 cs

  abbrev held : PacketTransport → ReassemblyBuffer
  held t = buffer_for n (get id t.reassembly)

  -- The buffer of the message has exactly the fragments that were seen.
  record Gathers (b : ReassemblyBuffer) (seen : ℕ → Bool) : Type 0 where
    its_total : b.total ≡ n
    agrees : Agrees cs b.fragments
    counted : length b.fragments ≡ present_below n b.fragments
    presence : (j : ℕ) → is_received (get j b.fragments) ≡ seen j

  abbrev grown : ReassemblyBuffer → ℕ → Bytes → ReassemblyBuffer
  grown b i c = record b { fragments = insert i c b.fragments; data_len = b.data_len + length c }

  grown-counted :
      (b : ReassemblyBuffer) (seen : ℕ → Bool) (i : ℕ) (c : Bytes)
      → Gathers b seen
      → i < n
      → length (insert i c b.fragments) ≡ present_below n (insert i c b.fragments)
  grown-counted b seen i c v below =
      let m = b.fragments in
      elim (Option-cases (get i m)) [
        | inl absent ↦ omega (
          arith,
          length-insert_new i c m absent,
          present_below-insert n i c m below absent,
          v.counted,
        )
        | inr (old, there) ↦ omega (
          arith,
          length-insert_again n i old c m below there v.counted,
          present_below_same n (insert i c m) m
              (λ j. ground (arith, get-insert j i c m, ==_iff i j)),
          v.counted,
        )
      ]

  grown-Gathers :
      (b : ReassemblyBuffer) (seen : ℕ → Bool) (i : ℕ) (c : Bytes)
      → Gathers b seen
      → i < n
      → get_elem? cs i ≡ some c
      → Gathers (grown b i c) (λ j. i == j || seen j)
  grown-Gathers b seen i c v below here = record {
    its_total = v.its_total;
    agrees = λ j x h. ground (arith, get-insert j i c b.fragments, ==_iff i j, v.agrees j x);
    counted = grown-counted b seen i c v below;
    presence = λ j. ground (arith, get-insert j i c b.fragments, v.presence j);
  }

  module _ (t : PacketTransport) (seen : ℕ → Bool) (v : Gathers (held t) seen) (i : ℕ) (c : Bytes)
      (below : i < n) (here : get_elem? cs i ≡ some c) where
    abbrev next : ReassemblyBuffer
    next = grown (held t) i c

    recv_fragment : recv_packet t (fragment_packet destination id n i c) ≡ check_complete t id next
    unfolding gather
    recv_fragment =
        let test : ((held t).total == n) ≡ true = (==_iff (held t).total n).1 v.its_total in
        recv_packet-fragment_packet t destination id i n c small_id (omega (arith, few, below)) few
        ∙ rw test

    -- While a fragment is missing nothing is returned and the buffer grows.
    recv_more :
        (j : ℕ)
        → j < n
        → (i == j || seen j) ≡ false
        → recv_packet t (fragment_packet destination id n i c)
          ≡ (ok none, record t { reassembly = insert id next t.reassembly })
    unfolding check_complete
    recv_more j inside missing =
        let v' = grown-Gathers (held t) seen i c v below here in
        let test : (length next.fragments == next.total) ≡ false =
          elim (Bool-cases (length next.fragments == next.total)) [
            | inl whole ↦
                let count = (==_iff (length next.fragments) next.total).0 whole in
                let there =
                  full_of_count n next.fragments (omega (arith, v'.counted, v'.its_total, count)) j
                    inside in
                absurd (cc (there, v'.presence j, missing))
            | inr part ↦ part
          ] in
        recv_fragment ∙ rw test

    -- The last missing fragment returns the message, and the buffer is gone.
    recv_last :
        ((j : ℕ) → j < n → (i == j || seen j) ≡ true)
        → recv_packet t (fragment_packet destination id n i c)
          ≡ (ok (some (joined cs)), record t { reassembly = remove id t.reassembly })
    unfolding check_complete close
    recv_last full =
        let v' = grown-Gathers (held t) seen i c v below here in
        let all : AllPresent n next.fragments = λ j inside. v'.presence j ∙ full j inside in
        let test : (length next.fragments == next.total) ≡ true =
          ground (arith, v'.its_total, v'.counted, present_below-full n next.fragments all) in
        recv_fragment
        ∙ rw (
          test,
          v'.its_total,
          assemble-full cs n 0 next.fragments (omega arith) v'.agrees (λ j _ inside. all j inside),
        )

  held_inserted :
      (t : PacketTransport) (b : ReassemblyBuffer)
      → held (record t { reassembly = insert id b t.reassembly }) ≡ b
  held_inserted t b =
      let found : get id (insert id b t.reassembly) ≡ some b =
        ground (arith, get-insert id id b t.reassembly) in
      ap (buffer_for n) found

  elem-sent :
      (i : ℕ) (c : Bytes)
      → get_elem? cs i ≡ some c
      → get_elem? sent i ≡ some (fragment_packet destination id n i c)
  elem-sent i c here =
      let at : 0 + i ≡ i = omega arith in
      elem-number_fragments destination id n 0 cs i c here
      ∙ ap (λ (k : ℕ). some (fragment_packet destination id n k c)) at

  renamed-Gathers :
      (b : ReassemblyBuffer) (seen seen' : ℕ → Bool)
      → ((j : ℕ) → seen j ≡ seen' j)
      → Gathers b seen
      → Gathers b seen'
  renamed-Gathers b seen seen' same v = record {
    its_total = v.its_total;
    agrees = v.agrees;
    counted = v.counted;
    presence = λ j. v.presence j ∙ same j;
  }

  -- A run of fragments that leaves one out only fills the buffer.
  run-Gathers :
      (t : PacketTransport) (seen : ℕ → Bool) (is : List ℕ) (last : ℕ)
      → Gathers (held t) seen
      → All (λ (i : ℕ). i < n) is
      → last < n
      → (arrived last is || seen last) ≡ false
      → Gathers (held (arrive_each t sent is)) (λ j. arrived j is || seen j)
  unfolding arrive_each
  run-Gathers t seen [] last v inside below missing = v
  run-Gathers t seen (i ∷ is) last v (first, inside) below missing =
      let (c, here) = elem_below cs i first in
      let next' : PacketTransport = record t {
        reassembly = insert id (grown (held t) i c) t.reassembly;
      } in
      let now : (i == last || seen last) ≡ false = ground (arith, missing) in
      let step : arrive t (get_elem? sent i) ≡ next' =
        ap (arrive t) (elem-sent i c here)
        ∙ ap (λ (r : Result TransportError (Option Bytes) × PacketTransport). r.1)
            (recv_more t seen v i c first here last below now) in
      let v' : Gathers (held next') (λ j. i == j || seen j) =
        subst (λ (b : ReassemblyBuffer). Gathers b (λ j. i == j || seen j))
          (sym (held_inserted t (grown (held t) i c)))
          (grown-Gathers (held t) seen i c v first here) in
      let later : (arrived last is || (i == last || seen last)) ≡ false = ground (arith, missing) in
      subst
        (λ (u : PacketTransport).
          Gathers (held (arrive_each u sent is)) (λ j. (i == j || arrived j is) || seen j))
        (sym step)
        (renamed-Gathers _ _ _ (λ j. ground arith)
          (run-Gathers next' (λ j. i == j || seen j) is last v' inside below later))

  fresh-Gathers : (t : PacketTransport) → get id t.reassembly ≡ none → Gathers (held t) (λ j. false)
  unfolding get
  fresh-Gathers t unknown =
      subst (λ (o : Option ReassemblyBuffer). Gathers (buffer_for n o) (λ j. false)) (sym unknown)
        (record {
          its_total = refl;
          agrees = λ j x h. cc;
          counted = present_below-empty Bytes n;
          presence = λ j. refl;
        })

  -- The last fragment returns the chunks in order.
  pub recv_packet-last :
      (t : PacketTransport) (front : List ℕ) (last : ℕ) (packet : Packet)
      → get id t.reassembly ≡ none
      → All (λ (i : ℕ). i < n) front
      → last < n
      → get_elem? sent last ≡ some packet
      → arrived last front ≡ false
      → ((i : ℕ) → i < n → (last == i || arrived i front) ≡ true)
      → (recv_packet (arrive_each t sent front) packet).0 ≡ ok (some (joined cs))
  recv_packet-last t front last packet unknown inside below it absent all =
      let mid = arrive_each t sent front in
      let v =
        run-Gathers t (λ j. false) front last (fresh-Gathers t unknown) inside below
          (ground (arith, absent)) in
      let (c, here) = elem_below cs last below in
      let same : fragment_packet destination id n last c ≡ packet =
        cc (elem-sent last c here, it) in
      ap (λ (p : Packet). (recv_packet mid p).0) (sym same)
      ∙ ap (λ (r : Result TransportError (Option Bytes) × PacketTransport). r.0)
          (recv_last mid (λ j. arrived j front || false) v last c below here
            (λ j inside'. ground (arith, all j inside')))

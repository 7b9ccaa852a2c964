-- ===== src/Channel/Ordering.antt =====
-- Messages come out of a channel in the order of their sequence numbers, whatever the order in
-- which they arrive.
use rsticulum.Prelude.{
  ℕ, ◌^◌, ◌<◌, ◌≤◌, ◌≡◌, refl, ap, ◌∙◌, arith, true, List, [], ◌∷◌, Bytes, get, number_keys, All,
  inl, inr, ◌⊎◌,
}
use rsticulum.Transport.Link.{Link}
use rsticulum.Channel.{Channel, new, accept}
use rsticulum.Channel.Window.{texts_below, is_in, Settled, Settled-accept, Settled-reached}

seen_after : List ℕ → List ℕ → List ℕ
seen_after [] seen = seen
seen_after (seq ∷ seqs) seen = seen_after seqs (seq ∷ seen)

is_in-seen_after :
    (n : ℕ) (seqs seen : List ℕ)
    → (is_in n seqs ≡ true) ⊎ (is_in n seen ≡ true)
    → is_in n (seen_after seqs seen) ≡ true
unfolding seen_after
is_in-seen_after n [] seen h = elim h [ inl a ↦ cc | inr b ↦ b ]
is_in-seen_after n (seq ∷ seqs) seen h = is_in-seen_after n seqs (seq ∷ seen) (ground arith)

module _ (text : ℕ → Bytes) where
  -- The messages that arrive, by their sequence numbers.
  unfoldable pub accept_all : {K : Type 0} → Channel K → List ℕ → Channel K
  accept_all ch [] = ch
  accept_all ch (seq ∷ seqs) = accept_all (accept ch seq (text seq)) seqs

  module _ {K : Type 0} (total : ℕ) (small : total < 2 ^ 32) where
    Settled-accept_all :
        (seen seqs : List ℕ) (ch : Channel K)
        → total ≤ 1000
        → All (λ n. n < total) seqs
        → Settled text total small seen ch
        → Settled text total small (seen_after seqs seen) (accept_all ch seqs)
    unfolding accept_all seen_after
    Settled-accept_all seen [] ch window below v = v
    Settled-accept_all seen (seq ∷ seqs) ch window below v =
        Settled-accept_all (seq ∷ seen) seqs (accept ch seq (text seq)) window below.1
          (Settled-accept text total small seen ch seq window below.0 v)

    Settled-new : (link : Link K) → Settled text total small [] (new link)
    unfolding Settled new get
    Settled-new link = (
      record { bound = omega arith; in_order = refl; buffered = λ n p h. cc; waiting = λ n h. cc },
      refl,
    )

  -- Messages of one run of at most 1000 numbers, that arrive at a new channel in any order, any
  -- number of times and with any of them missing, are ready exactly as the run begins: the ready
  -- queue holds the texts of the first messages, in order and once each.
  pub ready-accept_all :
      {K : Type 0} (total : ℕ) (link : Link K) (seqs : List ℕ)
      → total ≤ 1000
      → All (λ n. n < total) seqs
      → ((accept_all (new link) seqs).ready
          ≡ texts_below text (accept_all (new link) seqs).incoming_seq)
        × ((accept_all (new link) seqs).incoming_seq ≤ total)
  unfolding Settled
  ready-accept_all total link seqs window below =
      let small : total < 2 ^ 32 = omega arith in
      let v =
        (Settled-accept_all total small [] seqs (new link) window below
          (Settled-new total small link)).0 in
      (v.in_order, v.bound)

  -- Once every message of the run has arrived, in whatever order, all are ready, in order.
  pub accept_all_complete :
      {K : Type 0} (total : ℕ) (link : Link K) (seqs : List ℕ)
      → total ≤ 1000
      → All (λ n. n < total) seqs
      → ((n : ℕ) → n < total → is_in n seqs ≡ true)
      → (accept_all (new link) seqs).ready ≡ texts_below text total
  unfolding Settled
  accept_all_complete total link seqs window below all =
      let small : total < 2 ^ 32 = omega arith in
      let v =
        Settled-accept_all total small [] seqs (new link) window below
          (Settled-new total small link) in
      v.0.in_order
      ∙ ap (texts_below text) (
          Settled-reached text total small (seen_after seqs []) (accept_all (new link) seqs) v
            (λ n lt. is_in-seen_after n seqs [] (inl (all n lt))))

-- ===== src/Channel/Window.antt =====
-- The reorder buffer of a channel: what holds between two messages of a run, numbered from 0, and
-- that each message keeps it.
use mathlib.Core.Path.{subst}
use rsticulum.Prelude.{
  ltb→lt, lt→ltb, ==_ne, ℕ, zero, suc, ◌+◌, ◌-◌, ◌%◌, ◌^◌, ◌<◌, ◌≤◌, ◌≡◌, refl, sym, ◌∙◌, arith,
  Bool, true, false, ◌||◌, none, some, List, [], ◌∷◌, ◌++◌, Bytes, length, ltb, ◌==◌, ==_iff, get,
  insert, remove, number_keys, get-remove, get-insert, length-remove-some, inl, inr, ◌⊎◌,
  Bool-cases, Option-cases,
}
use rsticulum.Channel.{Channel, next_seq, drain_buffer, accept_next, accept}

abbrev pub is_in : ℕ → List ℕ → Bool
is_in n [] = false
is_in n (x ∷ xs) = x == n || is_in n xs

next_seq_lem : (total : ℕ) → total < 2 ^ 32 → (n : ℕ) → n < total → next_seq n ≡ suc n
next_seq_lem total small n h = omega arith

get_short : (k : ℕ) (m : List (ℕ × Bytes)) → length m ≤ 0 → get k m ≡ none
unfolding get
get_short k [] h = refl
get_short k (x ∷ m) h = absurd (omega arith)

module _ {K : Type 0} (ch : Channel K) where
  drain_none :
      (fuel : ℕ) → get ch.incoming_seq ch.reorder_buffer ≡ none → drain_buffer (suc fuel) ch ≡ ch
  unfolding drain_buffer
  drain_none fuel e = rw (drain_buffer, e)

  drain_some :
      (fuel : ℕ) (payload : Bytes)
      → get ch.incoming_seq ch.reorder_buffer ≡ some payload
      → drain_buffer (suc fuel) ch
        ≡ drain_buffer fuel (record ch {
          incoming_seq = next_seq ch.incoming_seq;
          reorder_buffer = remove ch.incoming_seq ch.reorder_buffer;
          ready = ch.ready ++ payload ∷ [];
        })
  unfolding drain_buffer
  drain_some fuel payload e = rw (drain_buffer, e)

  -- The three branches of `accept`.
  accept_now :
      (seq : ℕ) (payload : Bytes)
      → seq ≡ ch.incoming_seq
      → accept ch seq payload ≡ accept_next ch payload
  unfolding accept
  accept_now seq payload e = ground (arith, ==_iff seq ch.incoming_seq)

  accept_ahead :
      (seq : ℕ) (payload : Bytes)
      → seq < ch.incoming_seq + 1000
      → ch.incoming_seq < seq
      → accept ch seq payload ≡ record ch { reorder_buffer = insert seq payload ch.reorder_buffer }
  unfolding accept
  accept_ahead seq payload near ahead = rw (
    ==_ne seq ch.incoming_seq (λ e. absurd (omega arith)),
    lt→ltb ch.incoming_seq seq ahead,
    lt→ltb ((seq + 2 ^ 32 - ch.incoming_seq) % 2 ^ 32) 1000 (omega arith),
  )

  accept_behind : (seq : ℕ) (payload : Bytes) → seq < ch.incoming_seq → accept ch seq payload ≡ ch
  unfolding accept
  accept_behind seq payload behind = ground arith

module _ (text : ℕ → Bytes) where
  -- The texts of the messages 0 to n - 1.
  abbrev pub texts_below : ℕ → List Bytes
  texts_below zero = []
  texts_below (suc n) = texts_below n ++ text n ∷ []

  module _ {K : Type 0} (total : ℕ) where
    -- What is ready is what comes first, in order; what is buffered belongs to its number; and
    -- every number that was seen was passed or is waiting.
    pub record Inv (seen : List ℕ) (ch : Channel K) : Type 0 where
      pub bound : ch.incoming_seq ≤ total
      pub in_order : ch.ready ≡ texts_below ch.incoming_seq
      pub buffered :
          (n : ℕ) (payload : Bytes)
          → get n ch.reorder_buffer ≡ some payload
          → (payload ≡ text n) × (n < total)
      pub waiting :
          (n : ℕ)
          → is_in n seen ≡ true
          → (n < ch.incoming_seq) ⊎ ((payload : Bytes) × (get n ch.reorder_buffer ≡ some payload))

    module _ (small : total < 2 ^ 32) where
      -- The step of the drain loop.
      Inv-drain_step :
          (seen : List ℕ) (ch : Channel K) (payload : Bytes)
          → Inv seen ch
          → get ch.incoming_seq ch.reorder_buffer ≡ some payload
          → Inv seen (record ch {
            incoming_seq = next_seq ch.incoming_seq;
            reorder_buffer = remove ch.incoming_seq ch.reorder_buffer;
            ready = ch.ready ++ payload ∷ [];
          })
      Inv-drain_step seen ch payload v e =
          let (same_text, below) = v.buffered ch.incoming_seq payload e in
          let next = next_seq_lem total small ch.incoming_seq below in
          record {
            bound = omega (arith, next);
            in_order = rw (next, v.in_order, same_text);
            buffered = λ n p h.
                ground (arith, get-remove n ch.incoming_seq ch.reorder_buffer, v.buffered n p);
            waiting = λ n h. ground (
              arith,
              next,
              get-remove n ch.incoming_seq ch.reorder_buffer,
              ==_iff ch.incoming_seq n,
              v.waiting n h,
            );
          }

      -- The invariant between two calls: the next number is not waiting.
      unfoldable pub Settled : List ℕ → Channel K → Type 0
      Settled seen ch = Inv seen ch × (get ch.incoming_seq ch.reorder_buffer ≡ none)

      -- The loop ends with the next number not waiting, if there is a round for each entry.
      Settled-drain_buffer :
          (fuel : ℕ) (seen : List ℕ) (ch : Channel K)
          → length ch.reorder_buffer ≤ fuel
          → Inv seen ch
          → Settled seen (drain_buffer fuel ch)
      unfolding drain_buffer Settled
      Settled-drain_buffer zero seen ch enough v =
          (v, get_short ch.incoming_seq ch.reorder_buffer enough)
      Settled-drain_buffer (suc fuel) seen ch enough v =
          elim (Option-cases (get ch.incoming_seq ch.reorder_buffer)) [
            | inl gone ↦ subst (Settled seen) (sym (drain_none ch fuel gone)) (v, gone)
            | inr (payload, found) ↦ subst (Settled seen) (sym (drain_some ch fuel payload found)) (
                Settled-drain_buffer fuel seen
                  (record ch {
                    incoming_seq = next_seq ch.incoming_seq;
                    reorder_buffer = remove ch.incoming_seq ch.reorder_buffer;
                    ready = ch.ready ++ payload ∷ [];
                  })
                  (omega
                    (arith, length-remove-some ch.incoming_seq payload ch.reorder_buffer found))
                  (Inv-drain_step seen ch payload v found))
          ]

      Inv-next :
          (seen : List ℕ) (ch : Channel K)
          → ch.incoming_seq < total
          → Settled seen ch
          → Inv (ch.incoming_seq ∷ seen) (record ch {
            incoming_seq = next_seq ch.incoming_seq;
            ready = ch.ready ++ text ch.incoming_seq ∷ [];
          })
      unfolding Settled
      Inv-next seen ch below (v, settled) =
          let next = next_seq_lem total small ch.incoming_seq below in
          record {
            bound = omega (arith, next);
            in_order = rw (next, v.in_order);
            buffered = λ n p h. v.buffered n p h;
            waiting = λ n h. ground (arith, next, ==_iff ch.incoming_seq n, v.waiting n);
          }

      Settled-next :
          (seen : List ℕ) (ch : Channel K)
          → ch.incoming_seq < total
          → Settled seen ch
          → Settled (ch.incoming_seq ∷ seen) (accept_next ch (text ch.incoming_seq))
      unfolding accept_next
      Settled-next seen ch below v =
          Settled-drain_buffer (length ch.reorder_buffer) (ch.incoming_seq ∷ seen) _ (omega arith)
            (Inv-next seen ch below v)

      Inv-ahead :
          (seen : List ℕ) (ch : Channel K) (seq : ℕ)
          → seq < total
          → ch.incoming_seq < seq
          → Settled seen ch
          → Settled
              (seq ∷ seen)
              (record ch { reorder_buffer = insert seq (text seq) ch.reorder_buffer })
      unfolding Settled
      Inv-ahead seen ch seq below ahead (v, settled) = (
        record {
          bound = v.bound;
          in_order = v.in_order;
          buffered = λ n p h.
              ground (
                arith,
                get-insert n seq (text seq) ch.reorder_buffer,
                ==_iff seq n,
                v.buffered n p,
              );
          waiting = λ n h. elim (Bool-cases (seq == n)) [
            | inl here ↦ inr (text seq, get-insert n seq (text seq) ch.reorder_buffer ∙ rw here)
            | inr there ↦ elim (v.waiting n (ground arith)) [
              | inl passed ↦ inl passed
              | inr (p, found) ↦
                  inr (p, get-insert n seq (text seq) ch.reorder_buffer ∙ rw (there, found))
            ]
          ];
        },
        ground (
          arith,
          get-insert ch.incoming_seq seq (text seq) ch.reorder_buffer,
          ==_iff seq ch.incoming_seq,
        ),
      )

      Inv-behind :
          (seen : List ℕ) (ch : Channel K) (seq : ℕ)
          → seq < ch.incoming_seq
          → Settled seen ch
          → Settled (seq ∷ seen) ch
      unfolding Settled
      Inv-behind seen ch seq behind (v, settled) = (
        record {
          bound = v.bound;
          in_order = v.in_order;
          buffered = v.buffered;
          waiting = λ n h. ground (arith, ==_iff seq n, v.waiting n);
        },
        settled,
      )

      -- A message of the run keeps the invariant and settles the channel again.
      pub Settled-accept :
          (seen : List ℕ) (ch : Channel K) (seq : ℕ)
          → total ≤ 1000
          → seq < total
          → Settled seen ch
          → Settled (seq ∷ seen) (accept ch seq (text seq))
      Settled-accept seen ch seq window below v = elim (Bool-cases (seq == ch.incoming_seq)) [
        | inl now ↦
            let e = (==_iff seq ch.incoming_seq).0 now in
            subst (Settled (seq ∷ seen)) (sym (accept_now ch seq (text seq) e)) (
              subst (λ n. Settled (n ∷ seen) (accept_next ch (text n))) (sym e)
                (Settled-next seen ch (omega arith) v))
        | inr other ↦ elim (Bool-cases (ltb ch.incoming_seq seq)) [
          | inl ahead ↦
              subst (Settled (seq ∷ seen))
                (sym (accept_ahead ch seq (text seq) (omega arith) (ltb→lt _ _ ahead)))
                (Inv-ahead seen ch seq below (ltb→lt _ _ ahead) v)
          | inr behind ↦
              let earlier : seq < ch.incoming_seq = ground arith in
              subst (Settled (seq ∷ seen)) (sym (accept_behind ch seq (text seq) earlier))
                (Inv-behind seen ch seq earlier v)
        ]
      ]

      -- If every number of the run was seen, the channel has passed the whole run.
      pub Settled-reached :
          (seen : List ℕ) (ch : Channel K)
          → Settled seen ch
          → ((n : ℕ) → n < total → is_in n seen ≡ true)
          → ch.incoming_seq ≡ total
      unfolding Settled
      Settled-reached seen ch (v, settled) all = elim (Bool-cases (ltb ch.incoming_seq total)) [
        | inl short ↦ elim (v.waiting ch.incoming_seq (all ch.incoming_seq (ltb→lt _ _ short))) [
          | inl passed ↦ absurd (omega arith)
          | inr (p, found) ↦ cc
        ]
        | inr done ↦ ground (arith, v.bound)
      ]

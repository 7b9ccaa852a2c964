-- ===== src/Icn/Pit/Loops.antt =====
-- The loop detection of the table of pending interests.
use rsticulum.Prelude.{ℕ, ◌+◌, ◌≡◌, arith, ◌||◌, Bytes, get-insert}
use rsticulum.Icn.Pit.{Pit, same_seen, seen_keys, check_loop, record_nonce}

module _ {Interest : Type 0} where
  -- Once a nonce is recorded for a face, the check reports it for that face and nonce, and for any
  -- other face or nonce reports what it reported before. In particular a nonce that comes back over
  -- another face is not reported.
  pub check_loop-record_nonce :
      (pit : Pit Interest) (face : ℕ) (nonce : Bytes) (now g : ℕ) (m : Bytes)
      → check_loop (record_nonce pit face nonce now) g m
        ≡ (same_seen (face, nonce) (g, m) || check_loop pit g m)
  unfolding check_loop record_nonce
  check_loop-record_nonce pit face nonce now g m =
      rw (get-insert (g, m) (face, nonce) (now + pit.nonce_ttl) pit.nonce_tracker) (ground arith)

-- ===== src/Icn/Tests.antt =====
-- The theorems on names, routes and pending interests at concrete tables.
use rsticulum.Prelude.{
  ◌*◌, number_keys, ap, length, get, ℕ, ◌≡◌, ◌⊎◌, refl, arith, true, false, none, some, List, [],
  ◌∷◌, Bytes, All, replicate, ok,
}
use rsticulum.Icn.Name.{Name, starts_with}
use rsticulum.Icn.Fib.{Fib, FibEntry, insert_route, remove_face, remove_prefix, lookup}
use rsticulum.Icn.Fib.Lookup.{IsLongest, lookup-IsLongest}
use rsticulum.Icn.Fib.Routes.{
  cost_in, related, operations-IsValid, cost_in-insert_route, cost_in-remove_face,
}
use rsticulum.Icn.Fib.Routes as Routes
use rsticulum.Icn.Pit.{contains, satisfy, new}
use rsticulum.Icn.Pit.Aggregation.{Arrival, Distinct, faces, express_all, satisfy-express_all}
use rsticulum.Icn.Fib.{Route}
use rsticulum.Icn.Varint.{write_varint, write_groups}
use rsticulum.Icn.Selector.{InterestSelector}
use rsticulum.Icn.Interest as InterestModule
use rsticulum.Icn.Interest.{Interest, millis_u32, ns_per_ms}
use rsticulum.Icn.Interest.Codec as InterestCodec
use rsticulum.Icn.Interest.Codec.{from_bytes-to_bytes_interest, from_bytes-overflow}
use rsticulum.Icn.Strategy.{BestRoute, with_backoff, is_in_backoff, decide, forward_to, no_route}
use rsticulum.Icn.Strategy.Decision.{IsRoute, NoneCheaper, decide-cheapest}

abbrev home : Name
home = record { components = replicate 32 1 ∷ []; content_hash = none }

abbrev page : Name
page = record {
  components = replicate 32 1 ∷ (b'a' ∷ []) ∷ [];
  content_hash = some (replicate 32 6);
}

abbrev table : Fib
table =
    record { prefix = home; faces = record { face = 4; cost = 10 } ∷ [] }
    ∷ record { prefix = page; faces = record { face = 5; cost = 20 } ∷ [] }
    ∷ []

table-IsValid : Routes.IsValid table
table-IsValid = (
  ((tt, tt), (tt, tt)),
  ((λ e. omega (arith, ap (λ (n : Name). length n.components) e)), tt),
  (((tt, tt), (tt, tt)), tt, tt),
)

lookup-IsLongest_example :
    ((e : FibEntry) × IsLongest page table e × (lookup table page ≡ some e.faces))
    ⊎ (All (λ (x : FibEntry). starts_with page x.prefix ≡ false) table × (lookup table page ≡ none))
lookup-IsLongest_example = lookup-IsLongest table page

operations-IsValid_example :
    Routes.IsValid (insert_route table page 4 3)
    × Routes.IsValid (remove_face table page 4)
    × Routes.IsValid (remove_prefix table page)
operations-IsValid_example = operations-IsValid table page 4 3 table-IsValid

abbrev from_face : ℕ → Arrival Bytes
from_face f = record { face = f; interest = []; timeout = 4000; now = 0 }

satisfy-express_all_example :
    (fs : List ℕ) × ((satisfy
        (express_all (new {Interest = Bytes}) page (from_face 1 ∷ from_face 2 ∷ from_face 1 ∷ []))
        page).0
      ≡ some fs)
    × Distinct fs
    × ((f : ℕ) → contains fs f ≡ contains (faces (from_face 1 ∷ from_face 2 ∷ from_face 1 ∷ [])) f)
unfolding new get
satisfy-express_all_example =
    satisfy-express_all (new {Interest = Bytes}) page (from_face 1) (from_face 2 ∷ from_face 1 ∷ [])
      refl

abbrev wish : InterestSelector
wish = record { min_sequence = some 7; exclude_hashes = replicate 32 9 ∷ []; must_be_fresh = true }

abbrev asked : Interest
asked = record {
  name = page;
  nonce = replicate 8 5;
  lifetime = 4000000001;
  can_be_prefix = true;
  selector = some wish;
}

asked-IsValid : InterestCodec.IsValid asked
asked-IsValid = record {
  name_valid = record {
    nonempty = omega arith;
    few = omega arith;
    short = omega arith;
    hash_fits = refl;
  };
  nonce_length = refl;
  selector_fits = record { sequence_fits = omega arith; few = omega arith; whole = (refl, tt) };
}

from_bytes-to_bytes_interest_example :
    InterestModule.from_bytes (InterestModule.to_bytes asked)
    ≡ ok (record asked { lifetime = millis_u32 asked.lifetime * ns_per_ms })
from_bytes-to_bytes_interest_example = from_bytes-to_bytes_interest asked asked-IsValid

largest_length : length (write_varint 18446744073709551615) ≡ 10
unfolding write_varint write_groups
largest_length = refl

abbrev fresh_route : BestRoute
fresh_route = with_backoff 1000 30000

abbrev routes : List Route
routes = record { face = 4; cost = 1 } ∷ record { face = 5; cost = 2 } ∷ []

decide-cheapest_example :
    ((r : Route) × IsRoute r routes
      × (decide fresh_route asked routes none none 3 ≡ forward_to r.face)
      × (is_in_backoff fresh_route r.face 3 ≡ false)
      × NoneCheaper fresh_route 3 r.cost routes)
    ⊎ ((decide fresh_route asked routes none none 3 ≡ no_route)
        × All (λ (r : Route). is_in_backoff fresh_route r.face 3 ≡ true) routes)
decide-cheapest_example =
    decide-cheapest fresh_route asked routes none none 3 (((omega arith), tt), (tt, tt)) refl refl

-- ===== src/Mesh.antt =====
-- crates/mesh/src/routing.rs and path_request.rs: the routes to destinations and their discovery.
-- The qualities are numbers of the type `f64`: a parameter, with its comparisons. The clock is an
-- argument; the hash map is an association list.
pub mod Routes
pub mod Replies
pub mod Udp
mod Tests
use native.Mathlib.Decide.{ℕ_discrete}
use mathlib.Core.List.{reverse}
use rsticulum.Prelude.{
  ℕ, zero, suc, ◌+◌, ◌-◌, ◌%◌, ◌≡◌, ◌↔◌, arith, Bool, true, false, ◌&&◌, ◌||◌, Option, none, some,
  List, [], ◌∷◌, ◌++◌, Bytes, length, get_elem?, replicate, ltb, leb, ◌==◌, same, same_iff,
  if◌then◌else◌, Result, ok, err, panic, ◌>>=◌, Keyed, get, insert,
}
use rsticulum.Identity.RnsAddress.{RnsAddress, IdentityError, RnsAddress-discrete}
use rsticulum.Identity.RnsAddress as AddressModule

-- `f64`: `>`, `==`, `min`, and the quality 1.0.
pub record Qualities : Type 1 where
  pub Quality : Type 0
  pub gt : Quality → Quality → Bool
  pub eq : Quality → Quality → Bool
  pub least : Quality → Quality → Quality
  pub perfect : Quality

abbrev pub same_address : RnsAddress → RnsAddress → Bool
same_address a b = elim (RnsAddress-discrete a b) [ yes _ ↦ true | no _ ↦ false ]

pub same_address_iff : (a b : RnsAddress) → (same_address a b ≡ true) ↔ (a ≡ b)
same_address_iff a b = ground arith

instance abbrev pub address_keys : Keyed RnsAddress
address_keys = record { eq = same_address; eq_iff = same_address_iff }

pub record RouteEntry (Quality : Type 0) : Type 0 where
  pub destination : RnsAddress
  pub next_hop : RnsAddress
  pub path_quality : Quality
  pub hop_count : ℕ
  pub last_refresh : ℕ

pub record MeshRouter (Quality : Type 0) : Type 0 where
  pub routes : List (RnsAddress × RouteEntry Quality)
  pub local_addr : RnsAddress
  pub route_timeout : ℕ

pub record PathRequest : Type 0 where
  pub destination_hash : Bytes
  pub max_hops : ℕ
  pub request_id : Bytes
  pub path : List RnsAddress

pub record PathReply (Quality : Type 0) : Type 0 where
  pub request_id : Bytes
  pub destination_hash : Bytes
  pub route : List RnsAddress
  pub quality : Quality
  pub hop_count : ℕ

abbrev pub is_on : List RnsAddress → RnsAddress → Bool
is_on [] a = false
is_on (x ∷ xs) a = same_address x a || is_on xs a

unfoldable pub is_expired : PathRequest → Bool
is_expired r = leb r.max_hops (length r.path)

unfoldable pub add_hop : PathRequest → RnsAddress → PathRequest
add_hop r addr = if is_on r.path addr then r else record r { path = r.path ++ addr ∷ [] }

-- `iter().position(|a| *a == local_addr)`
unfoldable pub position : RnsAddress → List RnsAddress → Option ℕ
position a [] = none
position a (x ∷ xs) = elim (same_address x a) [
  | true ↦ some 0
  | false ↦ elim (position a xs) [ none ↦ none | some n ↦ some (n + 1) ]
]

module _ (q : Qualities) where
  unfoldable pub new : RnsAddress → MeshRouter q.Quality
  new local_addr = record { routes = []; local_addr = local_addr; route_timeout = 300000 }

  abbrev pub better : q.Quality → ℕ → RouteEntry q.Quality → Bool
  better quality hop_count e =
      q.gt quality e.path_quality || q.eq quality e.path_quality && ltb hop_count e.hop_count

  -- `entry(dest).or_insert_with(…)`
  abbrev pub entry_or_new :
      Option (RouteEntry q.Quality)
      → RnsAddress
      → RnsAddress
      → q.Quality
      → ℕ
      → ℕ
      → RouteEntry q.Quality
  entry_or_new (some e) dest next_hop quality hop_count now = e
  entry_or_new none dest next_hop quality hop_count now = record {
    destination = dest;
    next_hop = next_hop;
    path_quality = quality;
    hop_count = hop_count;
    last_refresh = now;
  }

  abbrev pub improved : RouteEntry q.Quality → RnsAddress → q.Quality → ℕ → ℕ → RouteEntry q.Quality
  improved e next_hop quality hop_count now =
      if better quality hop_count e
      then record e {
        next_hop = next_hop;
        path_quality = quality;
        hop_count = hop_count;
        last_refresh = now;
      }
      else e

  unfoldable pub update_route :
      MeshRouter q.Quality → RnsAddress → RnsAddress → q.Quality → ℕ → ℕ → MeshRouter q.Quality
  update_route r dest next_hop quality hop_count now = record r {
    routes =
        insert dest
          (improved (entry_or_new (get dest r.routes) dest next_hop quality hop_count now) next_hop
            quality hop_count now)
          r.routes;
  }

  abbrev pub route_to : MeshRouter q.Quality → RnsAddress → Option (RouteEntry q.Quality)
  route_to r dest = get dest r.routes

  unfoldable pub retain_fresh :
      ℕ → ℕ → List (RnsAddress × RouteEntry q.Quality) → List (RnsAddress × RouteEntry q.Quality)
  retain_fresh timeout now [] = []
  retain_fresh timeout now ((a, e) ∷ es) =
      let rest = retain_fresh timeout now es in
      if ltb (now - e.last_refresh) timeout then (a, e) ∷ rest else rest

  unfoldable pub prune_stale : MeshRouter q.Quality → ℕ → MeshRouter q.Quality
  unfolding retain_fresh
  prune_stale r now = record r { routes = retain_fresh r.route_timeout now r.routes }

  -- `reply.destination().ok()?`, then the rest.
  unfoldable pub at_position :
      PathReply q.Quality
      → MeshRouter q.Quality
      → RnsAddress
      → ℕ
      → Option ℕ
      → Result IdentityError (Option RnsAddress × MeshRouter q.Quality)
  at_position reply r dest now none = ok (none, r)
  at_position reply r dest now (some zero) = ok (get_elem? reply.route 1, r)
  at_position reply r dest now (some (suc n)) = elim (get_elem? reply.route n) [
    | none ↦ panic
    | some next_hop ↦
        if leb 256 (reply.hop_count + suc n % 256)
        then panic
        else ok (
          get_elem? reply.route (suc n + 1),
          update_route r dest next_hop reply.quality (reply.hop_count + suc n % 256) now,
        )
  ]

  unfoldable pub handle_path_reply :
      PathReply q.Quality
      → MeshRouter q.Quality
      → RnsAddress
      → ℕ
      → Result IdentityError (Option RnsAddress × MeshRouter q.Quality)
  unfolding at_position
  handle_path_reply reply r local_addr now =
      elim (AddressModule.from_bytes reply.destination_hash) [
        | ok dest ↦ at_position reply r dest now (position local_addr reply.route)
        | err e ↦ ok (none, r)
        | panic ↦ panic
      ]

  unfoldable pub reply_along :
      PathRequest → RnsAddress → RnsAddress → q.Quality → ℕ → PathReply q.Quality
  reply_along request local_addr dest quality hop_count = record {
    request_id = request.request_id;
    destination_hash = dest.bytes;
    route = reverse (request.path ++ local_addr ∷ []);
    quality = quality;
    hop_count = hop_count;
  }

  unfoldable pub reply_by_route :
      PathRequest
      → RnsAddress
      → RnsAddress
      → Option (RouteEntry q.Quality)
      → Option (PathReply q.Quality)
  unfolding reply_along
  reply_by_route request local_addr dest none = none
  reply_by_route request local_addr dest (some e) =
      some (reply_along request local_addr dest e.path_quality e.hop_count)

  unfoldable pub handle_path_request :
      PathRequest → MeshRouter q.Quality → RnsAddress → Option (PathReply q.Quality)
  unfolding reply_by_route
  handle_path_request request r local_addr =
      elim (AddressModule.from_bytes request.destination_hash) [
        | ok dest ↦
            if same_address dest local_addr
            then some (reply_along request local_addr dest q.perfect 0)
            else reply_by_route request local_addr dest (route_to r dest)
        | err e ↦ none
        | panic ↦ none
      ]

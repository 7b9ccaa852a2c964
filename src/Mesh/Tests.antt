-- ===== src/Mesh/Tests.antt =====
-- The theorems on the router at concrete routes.
use rsticulum.Prelude.{ℕ, ◌≡◌, refl, arith, none, [], ◌∷◌, replicate, min, ltb, ◌==◌, get}
use rsticulum.Identity.RnsAddress.{RnsAddress}
use rsticulum.Mesh.{
  Qualities, RouteEntry, MeshRouter, same_address_iff, update_route, route_to, prune_stale,
}
use rsticulum.Mesh.Routes.{prune_stale-update_route}

-- Qualities in percent.
abbrev percent : Qualities
percent = record { Quality = ℕ; gt = λ a b. ltb b a; eq = ◌==◌; least = min; perfect = 100 }

abbrev node : ℕ → RnsAddress
node n = record { bytes = replicate 16 n }

abbrev held : RouteEntry ℕ
held = record {
  destination = node 1;
  next_hop = node 2;
  path_quality = 90;
  hop_count = 1;
  last_refresh = 0;
}

abbrev router : MeshRouter ℕ
router = record { routes = (node 1, held) ∷ []; local_addr = node 0; route_timeout = 300000 }

prune_stale-update_route_example :
    route_to percent
      (prune_stale percent (update_route percent router (node 1) (node 2) 90 1 299999) 300000)
      (node 1)
    ≡ none
unfolding get
prune_stale-update_route_example =
    prune_stale-update_route percent router (node 1) (node 2) held 90 1 299999 300000
      (rw ((same_address_iff (node 1) (node 1)).1 refl)) refl (omega arith)

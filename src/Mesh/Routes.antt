-- ===== src/Mesh/Routes.antt =====
-- Which route the router keeps, and for how long.
use rsticulum.Prelude.{
  ℕ, ◌+◌, ◌-◌, ◌≤◌, ◌≡◌, refl, ◌∙◌, arith, false, none, some, List, [], ◌∷◌, ltb_of_le,
  if◌then◌else◌, get, insert, remove, get-insert, get-remove,
}
use rsticulum.Identity.RnsAddress.{RnsAddress}
use rsticulum.Mesh.{
  Qualities, RouteEntry, MeshRouter, same_address, same_address_iff, address_keys, better, improved,
  entry_or_new, update_route, route_to, retain_fresh, prune_stale,
}

module _ (q : Qualities) where
  -- An update changes the route to its destination only: an old route gives way exactly to one of
  -- higher quality, or of the same quality and fewer hops.
  pub route_to-update_route :
      (r : MeshRouter q.Quality) (dest hop other : RnsAddress) (quality : q.Quality) (hops now : ℕ)
      → route_to q (update_route q r dest hop quality hops now) other ≡ (
          if same_address dest other
          then some (
              improved q
                (entry_or_new q (route_to q r dest) dest hop quality hops now)
                hop
                quality
                hops
                now)
          else route_to q r other)
  unfolding update_route
  route_to-update_route r dest hop other quality hops now = get-insert other dest _ r.routes

  absent :
      (timeout now : ℕ) (a : RnsAddress) (es : List (RnsAddress × RouteEntry q.Quality))
      → get a es ≡ none
      → get a (retain_fresh q timeout now es) ≡ none
  unfolding get retain_fresh
  absent timeout now a [] h = refl
  absent timeout now a ((b, e) ∷ es) h = ground (arith, absent timeout now a es)

  -- An update that is no better than the route that is held does not refresh it: once the timeout
  -- has passed since the route was last improved, a pruning removes it, however often and however
  -- recently it was announced.
  pub prune_stale-update_route :
      (r : MeshRouter q.Quality) (dest hop : RnsAddress) (e : RouteEntry q.Quality)
      (quality : q.Quality) (hops now later : ℕ)
      → route_to q r dest ≡ some e
      → better q quality hops e ≡ false
      → e.last_refresh + r.route_timeout ≤ later
      → route_to q (prune_stale q (update_route q r dest hop quality hops now) later) dest ≡ none
  unfolding prune_stale update_route insert retain_fresh
  prune_stale-update_route r dest hop e quality hops now later found no_better old =
      rw (found, no_better, ltb_of_le (later - e.last_refresh) r.route_timeout (omega arith))
        (absent r.route_timeout later dest (remove dest r.routes)
          (get-remove dest dest r.routes ∙ rw ((same_address_iff dest dest).1 refl)))

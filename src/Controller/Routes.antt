-- ===== src/Controller/Routes.antt =====
-- effectiveRoutes: the routes that the lists call for at a time.
use rtbh_panel.Common.{
  Bool, false, not, ◌&&◌, ◌||◌, ◌≡◌, refl, Option, none, some, List, [], ◌∷◌, if◌then◌else◌, leb,
  arith,
}
use rtbh_panel.Common.Lists.{any, member}
use rtbh_panel.Common.Assoc.{lookup, insert, lookup-insert}
use rtbh_panel.Net.Addr.{Addr}
use rtbh_panel.Net.Addr
use rtbh_panel.Net.Prefix.{Prefix, addr, contains, discrete}
use rtbh_panel.Policy.{Time}
use rtbh_panel.Engine.Route.{Route, blackhole_community}

abbrev pub RouteMap : Type 0
RouteMap = List (Prefix × Route)

-- ok && !expiry.After(now)
abbrev pub expired_at : Time → Option Time → Bool
expired_at now none = false
expired_at now (some expiry) = leb expiry now

-- The loop over the whitelist, which stops at the first prefix that overlaps.
unfoldable pub suppressed : List Prefix → Prefix → Bool
suppressed whitelist prefix =
    any (λ allowed. contains prefix (addr allowed) || contains allowed (addr prefix)) whitelist

unfoldable pub route_for : Addr → Addr → Prefix → Route
route_for hop_v4 hop_v6 prefix = record {
  prefix = prefix;
  next_hop = if Addr.is6 (addr prefix) then hop_v6 else hop_v4;
  communities = blackhole_community ∷ [];
}

module _ (whitelist : List Prefix) (expirations : List (Prefix × Time)) (now : Time)
    (hop_v4 hop_v6 : Addr) where
  -- The body of the loop: the two `continue`s leave the map as it is.
  unfoldable pub add_route : RouteMap → Prefix → RouteMap
  add_route routes prefix =
      if expired_at now (lookup discrete prefix expirations)
      then routes
      else if suppressed whitelist prefix
      then routes
      else insert discrete prefix (route_for hop_v4 hop_v6 prefix) routes

  unfoldable pub add_routes : RouteMap → List Prefix → RouteMap
  add_routes routes [] = routes
  add_routes routes (prefix ∷ rest) = add_routes (add_route routes prefix) rest

  unfoldable pub effective_routes : List Prefix → RouteMap
  effective_routes blocklist = add_routes [] blocklist

  -- Whether a prefix of the blocklist is to be announced.
  abbrev pub announceable : Prefix → Bool
  announceable p =
      not (expired_at now (lookup discrete p expirations)) && not (suppressed whitelist p)

  lookup-add_routes :
      (p : Prefix) (routes : RouteMap) (l : List Prefix)
      → lookup discrete p (add_routes routes l) ≡ (
          if member discrete p l && announceable p
          then some (route_for hop_v4 hop_v6 p)
          else lookup discrete p routes)
  unfolding add_routes add_route member
  lookup-add_routes p routes [] = refl
  lookup-add_routes p routes (q ∷ l) = ground (
    arith,
    lookup-add_routes p (add_route routes q) l,
    lookup-insert discrete q p (route_for hop_v4 hop_v6 q) routes,
  )

  -- The effective routes hold exactly the blocklist prefixes that have not expired and are not
  -- suppressed by the whitelist, each with the blackhole route of its family.
  pub lookup-effective_routes :
      (p : Prefix) (blocklist : List Prefix)
      → lookup discrete p (effective_routes blocklist) ≡ (
          if member discrete p blocklist && announceable p
          then some (route_for hop_v4 hop_v6 p)
          else none)
  unfolding effective_routes lookup
  lookup-effective_routes p blocklist = lookup-add_routes p [] blocklist

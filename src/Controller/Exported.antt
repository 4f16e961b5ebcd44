-- ===== src/Controller/Exported.antt =====
-- Which of the routes that the lists call for the export policies of the peer group accept.
use rtbh_panel.Common.{true, ◌≡◌, refl, ap, some, List, [], ◌∷◌, arith, ◌∙◌, ℕ_discrete}
use rtbh_panel.Common.Lists.{member}
use rtbh_panel.Common.Assoc.{lookup}
use rtbh_panel.Net.Addr.{Addr}
use rtbh_panel.Net.Prefix.{Prefix, discrete}
use rtbh_panel.Policy.{Time}
use rtbh_panel.Engine.Route.{Route, BgpPath, route_path, blackhole_community}
use rtbh_panel.Engine.Export.{
  Evaluator, Documented, build_rtbh_export_policy, build_peer_group, path_communities,
}
use rtbh_panel.Engine.Exported.{passes_blackhole}
use rtbh_panel.Controller.Routes.{effective_routes, route_for, lookup-effective_routes}

effective_routes_communities :
    (wl : List Prefix) (ex : List (Prefix × Time)) (now : Time) (h4 h6 : Addr) (bl : List Prefix)
    (p : Prefix) (r : Route)
    → lookup discrete p (effective_routes wl ex now h4 h6 bl) ≡ some r
    → r.communities ≡ blackhole_community ∷ []
effective_routes_communities wl ex now h4 h6 bl p r h =
    let found = lookup-effective_routes wl ex now h4 h6 p bl in
    let communities : (route_for h4 h6 p).communities ≡ blackhole_community ∷ [] =
      unfold route_for in refl in
    ground (arith, found, communities)

-- Where GoBGP evaluates a list of policies as it documents, the export policies of the peer group
-- accept the path of every route that the lists call for.
pub effective_routes_exported :
    (ev : Evaluator) (doc : Documented ev) (wl : List Prefix) (ex : List (Prefix × Time))
    (now : Time) (h4 h6 : Addr) (bl : List Prefix) (p : Prefix) (r : Route) (path : BgpPath)
    → lookup discrete p (effective_routes wl ex now h4 h6 bl) ≡ some r
    → route_path r ≡ some path
    → ev.passes
        (build_rtbh_export_policy.0 ∷ [])
        build_peer_group.export_policy
        (path_communities path.attrs)
      ≡ true
unfolding member ℕ_discrete
effective_routes_exported ev doc wl ex now h4 h6 bl p r path h k =
    passes_blackhole ev doc r path k
    ∙ ap (member ℕ_discrete blackhole_community)
        (effective_routes_communities wl ex now h4 h6 bl p r h)

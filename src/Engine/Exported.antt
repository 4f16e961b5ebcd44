-- ===== src/Engine/Exported.antt =====
-- Which paths the export policies of the peer group accept.
use rtbh_panel.Common.{
  ℕ, ◌+◌, ◌*◌, ◌^◌, ◌≡◌, refl, some, List, [], ◌∷◌, arith, Bool-cases, inl, inr, ℕ_discrete, ◌∙◌,
  ap, sym,
}
use rtbh_panel.Common.Lists.{member}
use rtbh_panel.Engine.Route.{Route, BgpPath, route_path, blackhole_community}
use rtbh_panel.Engine.Export.{
  Evaluator, Documented, build_rtbh_export_policy, build_peer_group, path_communities,
  path_communities-route_path, any_of, rtbh_set, rtbh_policy, rtbh_statement,
  rtbh_community_set_name, reject, export,
}

module _ (ev : Evaluator) (doc : Documented ev) where
  set_holds :
      (l : List ℕ)
      → ev.holds (build_rtbh_export_policy.0 ∷ []) (any_of rtbh_community_set_name) l
        ≡ member ℕ_discrete blackhole_community l
  unfolding build_rtbh_export_policy
  set_holds l =
      let found = doc.matching rtbh_set [] l in
      let value : 65535 * 2 ^ 16 + 666 ≡ blackhole_community = refl in
      ground (arith, found, doc.halves, value)

  export_passes :
      (l : List ℕ)
      → ev.passes (build_rtbh_export_policy.0 ∷ []) build_peer_group.export_policy l
        ≡ member ℕ_discrete blackhole_community l
  unfolding build_peer_group build_rtbh_export_policy
  export_passes l =
      let holds = set_holds l in
      elim (Bool-cases (member ℕ_discrete blackhole_community l)) [
        | inl there ↦
            doc.statement_holds (rtbh_set ∷ []) (some export) rtbh_policy.name rtbh_statement [] []
              reject l (holds ∙ there)
            ∙ sym there
        | inr missing ↦
            doc.statement_fails (rtbh_set ∷ []) (some export) rtbh_policy.name rtbh_statement [] []
              reject l (holds ∙ missing)
            ∙ (doc.policy_ends (rtbh_set ∷ []) (some export) rtbh_policy.name [] reject l
                ∙ (doc.no_policy (rtbh_set ∷ []) (some export) reject l ∙ sym missing))
      ]

  -- Where GoBGP evaluates a list of policies as it documents: the export policies that the engine
  -- builds for its peer group, with the defined set that it registers for them, accept the path that
  -- the engine makes of a route exactly if the route has the community BLACKHOLE. Of the peers to
  -- which GoBGP applies the policies of a group nothing is said.
  pub passes_blackhole :
      (r : Route) (path : BgpPath)
      → route_path r ≡ some path
      → ev.passes
          (build_rtbh_export_policy.0 ∷ [])
          build_peer_group.export_policy
          (path_communities path.attrs)
        ≡ member ℕ_discrete blackhole_community r.communities
  passes_blackhole r path h =
      export_passes (path_communities path.attrs)
      ∙ ap (member ℕ_discrete blackhole_community) (path_communities-route_path r path h)

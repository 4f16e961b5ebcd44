-- ===== src/Server/Engine.antt =====
-- The engine as the controller's runtime.Engine: over a GoBGP server that keeps a table, Announce and
-- Withdraw are what the controller expects of them.
use rtbh_panel.Common.{Bool, true, false, ◌≡◌, some, arith, Option-cases, inl, inr, ite}
use rtbh_panel.Net.Prefix.{Prefix, discrete}
use rtbh_panel.Engine.Route.{Route, BgpPath, route_path}
use rtbh_panel.Engine.Lifecycle.{Gobgp, Engine, announce, withdraw}
use rtbh_panel.Controller.Interface.{RouteEngine, Laws}

abbrev pub route_engine : {B : Type 0} → Gobgp B → RouteEngine (Engine B)
route_engine g = record { announce = announce g; withdraw = withdraw g }

-- GoBGP's table: AddPath and DeletePath without an error change whether the path's prefix is
-- advertised, and nothing else; with an error they change nothing.
pub record Tabled {B : Type 0} (g : Gobgp B) : Type 0 where
  pub advertised : B → Prefix → Bool
  pub added :
      (path : BgpPath) (b : B) (p : Prefix)
      → (g.add_path path b).0 ≡ true
      → advertised (g.add_path path b).1 p ≡ ite (discrete path.nlri p) true (advertised b p)
  pub not_added :
      (path : BgpPath) (b : B) (p : Prefix)
      → (g.add_path path b).0 ≡ false
      → advertised (g.add_path path b).1 p ≡ advertised b p
  pub deleted :
      (path : BgpPath) (b : B) (p : Prefix)
      → (g.delete_path path b).0 ≡ true
      → advertised (g.delete_path path b).1 p ≡ ite (discrete path.nlri p) false (advertised b p)
  pub not_deleted :
      (path : BgpPath) (b : B) (p : Prefix)
      → (g.delete_path path b).0 ≡ false
      → advertised (g.delete_path path b).1 p ≡ advertised b p

route_path-prefix : (r : Route) (path : BgpPath) → route_path r ≡ some path → path.nlri ≡ r.prefix
unfolding route_path
route_path-prefix r path h = ground arith

module _ {B : Type 0} (g : Gobgp B) where
  -- Announcing and withdrawing neither start nor stop the engine.
  pub announce-running : (r : Route) (e : Engine B) → (announce g r e).1.running ≡ e.running
  unfolding announce
  announce-running r e = elim (Option-cases (route_path r)) [
    | inl n ↦ ground arith
    | inr (path, n) ↦ ground arith
  ]

  pub withdraw-running : (r : Route) (e : Engine B) → (withdraw g r e).1.running ≡ e.running
  unfolding withdraw
  withdraw-running r e = elim (Option-cases (route_path r)) [
    | inl n ↦ ground arith
    | inr (path, n) ↦ ground arith
  ]

module _ {B : Type 0} (g : Gobgp B) (t : Tabled g) where
  pub announced :
      (r : Route) (e : Engine B) (p : Prefix)
      → (announce g r e).0 ≡ true
      → t.advertised (announce g r e).1.bgp p
        ≡ ite (discrete r.prefix p) true (t.advertised e.bgp p)
  unfolding announce
  announced r e p h = elim (Option-cases (route_path r)) [
    | inl n ↦ absurd (ground arith)
    | inr (path, n) ↦
        let same = route_path-prefix r path n in
        let told = t.added path e.bgp p in ground (arith, same, told)
  ]

  pub not_announced :
      (r : Route) (e : Engine B) (p : Prefix)
      → (announce g r e).0 ≡ false
      → t.advertised (announce g r e).1.bgp p ≡ t.advertised e.bgp p
  unfolding announce
  not_announced r e p h = elim (Option-cases (route_path r)) [
    | inl n ↦ ground arith
    | inr (path, n) ↦ let told = t.not_added path e.bgp p in ground (arith, told)
  ]

  pub withdrawn :
      (r : Route) (e : Engine B) (p : Prefix)
      → (withdraw g r e).0 ≡ true
      → t.advertised (withdraw g r e).1.bgp p
        ≡ ite (discrete r.prefix p) false (t.advertised e.bgp p)
  unfolding withdraw
  withdrawn r e p h = elim (Option-cases (route_path r)) [
    | inl n ↦ absurd (ground arith)
    | inr (path, n) ↦
        let same = route_path-prefix r path n in
        let told = t.deleted (record path { withdrawal = true }) e.bgp p in
        ground (arith, same, told)
  ]

  pub not_withdrawn :
      (r : Route) (e : Engine B) (p : Prefix)
      → (withdraw g r e).0 ≡ false
      → t.advertised (withdraw g r e).1.bgp p ≡ t.advertised e.bgp p
  unfolding withdraw
  not_withdrawn r e p h = elim (Option-cases (route_path r)) [
    | inl n ↦ ground arith
    | inr (path, n) ↦
        let told = t.not_deleted (record path { withdrawal = true }) e.bgp p in ground (arith, told)
  ]

  -- What the controller expects of an engine, filled for this one.
  abbrev pub engine_laws : Laws (route_engine g)
  engine_laws = record {
    advertised = λ e p. t.advertised e.bgp p;
    announced = announced;
    not_announced = not_announced;
    withdrawn = withdrawn;
    not_withdrawn = not_withdrawn;
  }

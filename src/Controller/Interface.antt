-- ===== src/Controller/Interface.antt =====
-- The part of runtime.Engine that the controller calls, and what it expects of the calls.
use rtbh_panel.Common.{Bool, true, false, ◌≡◌, ite}
use rtbh_panel.Net.Prefix.{Prefix, discrete}
use rtbh_panel.Engine.Route.{Route}

-- Each call says whether it returned no error.
pub record RouteEngine (E : Type 0) : Type 0 where
  pub announce : Route → E → Bool × E
  pub withdraw : Route → E → Bool × E

-- A call without an error changes whether the route's prefix is advertised, and nothing else. A call
-- with an error changes nothing.
pub record Laws {E : Type 0} (g : RouteEngine E) : Type 0 where
  pub advertised : E → Prefix → Bool
  pub announced :
      (r : Route) (e : E) (p : Prefix)
      → (g.announce r e).0 ≡ true
      → advertised (g.announce r e).1 p ≡ ite (discrete r.prefix p) true (advertised e p)
  pub not_announced :
      (r : Route) (e : E) (p : Prefix)
      → (g.announce r e).0 ≡ false
      → advertised (g.announce r e).1 p ≡ advertised e p
  pub withdrawn :
      (r : Route) (e : E) (p : Prefix)
      → (g.withdraw r e).0 ≡ true
      → advertised (g.withdraw r e).1 p ≡ ite (discrete r.prefix p) false (advertised e p)
  pub not_withdrawn :
      (r : Route) (e : E) (p : Prefix)
      → (g.withdraw r e).0 ≡ false
      → advertised (g.withdraw r e).1 p ≡ advertised e p

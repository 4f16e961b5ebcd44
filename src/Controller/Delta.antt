-- ===== src/Controller/Delta.antt =====
-- applyDelta: the engine is brought from the active routes to the desired ones, or rolled back.
pub mod Rollback
use rtbh_panel.Common.{
  Bool, true, false, Option, none, some, List, [], ◌∷◌, ◌++◌, if◌then◌else◌, is_some,
}
use rtbh_panel.Common.Assoc.{lookup}
use rtbh_panel.Net.Prefix.{Prefix, discrete}
use rtbh_panel.Engine.Route.{Route}
use rtbh_panel.Controller.Routes.{RouteMap}
use rtbh_panel.Controller.Interface.{RouteEngine}

pub data Failure : Type 0 where
  withdraw_failed announce_failed : Prefix → Failure

-- Where a loop has come to: the prefix whose call failed, if one did, and the routes that it has
-- withdrawn or announced.
pub record Progress (E : Type 0) : Type 0 where
  pub failed : Option Prefix
  pub routes : List Route
  pub engine : E

-- What applyDelta returns: its error, c.active and the engine afterwards.
pub record Outcome (E : Type 0) : Type 0 where
  pub error : Option Failure
  pub active : RouteMap
  pub engine : E

module _ {E : Type 0} (g : RouteEngine E) where
  -- One call of a loop: on an error the loop returns.
  abbrev pub advance :
      Prefix → List Route → Route → Bool × E → (List Route → E → Progress E) → Progress E
  advance p done r (true, e) continue = continue (done ++ r ∷ []) e
  advance p done r (false, e) continue = record { failed = some p; routes = done; engine = e }

  unfoldable pub withdraw_stale : RouteMap → RouteMap → List Route → E → Progress E
  withdraw_stale desired [] done e = record { failed = none; routes = done; engine = e }
  withdraw_stale desired ((p, r) ∷ active) done e = elim (is_some (lookup discrete p desired)) [
    | true ↦ withdraw_stale desired active done e
    | false ↦ advance p done r (g.withdraw r e) (withdraw_stale desired active)
  ]

  unfoldable pub announce_new : RouteMap → RouteMap → List Route → E → Progress E
  announce_new active [] done e = record { failed = none; routes = done; engine = e }
  announce_new active ((p, r) ∷ desired) done e = elim (is_some (lookup discrete p active)) [
    | true ↦ announce_new active desired done e
    | false ↦ advance p done r (g.announce r e) (announce_new active desired)
  ]

  -- `_ = c.engine.Announce(removed)` and `_ = c.engine.Withdraw(added)`: errors are dropped.
  unfoldable pub announce_all : List Route → E → E
  announce_all [] e = e
  announce_all (r ∷ rs) e = announce_all rs (g.announce r e).1

  unfoldable pub withdraw_all : List Route → E → E
  withdraw_all [] e = e
  withdraw_all (r ∷ rs) e = withdraw_all rs (g.withdraw r e).1

  abbrev pub after_announcing :
      RouteMap → RouteMap → List Route → Option Prefix → Progress E → Outcome E
  after_announcing active desired withdrawn none w = record {
    error = none;
    active = desired;
    engine = w.engine;
  }
  after_announcing active desired withdrawn (some p) w = record {
    error = some (announce_failed p);
    active = active;
    engine = announce_all withdrawn (withdraw_all w.routes w.engine);
  }

  abbrev pub after_withdrawing : RouteMap → RouteMap → Option Prefix → Progress E → Outcome E
  after_withdrawing active desired (some p) w = record {
    error = some (withdraw_failed p);
    active = active;
    engine = announce_all w.routes w.engine;
  }
  after_withdrawing active desired none w =
      let n = announce_new active desired [] w.engine in
      after_announcing active desired w.routes n.failed n

  unfoldable pub apply_delta : RouteMap → RouteMap → E → Outcome E
  apply_delta desired active e =
      let w = withdraw_stale desired active [] e in after_withdrawing active desired w.failed w

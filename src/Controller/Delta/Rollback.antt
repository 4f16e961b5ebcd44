-- ===== src/Controller/Delta/Rollback.antt =====
-- applyDelta ends with exactly the desired prefixes advertised, or with those of before.
use rtbh_panel.Common.{
  Bool, true, false, not, ◌&&◌, ◌||◌, ◌≡◌, ◌≢◌, refl, none, List, [], ◌∷◌, ◌++◌, map, ite, is_some,
  arith, Bool-cases, inl, inr,
}
use rtbh_panel.Common.Lists.{All, All-append_one, member}
use rtbh_panel.Common.Assoc.{lookup}
use rtbh_panel.Net.Prefix.{Prefix, discrete}
use rtbh_panel.Engine.Route.{Route}
use rtbh_panel.Controller.Routes.{RouteMap}
use rtbh_panel.Controller.Interface.{RouteEngine, Laws}
use rtbh_panel.Controller.Delta.{
  Progress, advance, withdraw_stale, announce_new, announce_all, withdraw_all, apply_delta,
}

-- The entries of a route map stand under their own prefixes.
abbrev pub Keyed : RouteMap → Type 0
Keyed = All (λ e. e.1.prefix ≡ e.0)

abbrev pub listed : Prefix → List Route → Bool
listed p rs = member discrete p (map (λ r. r.prefix) rs)

listed-append_one :
    (p : Prefix) (rs : List Route) (r : Route)
    → listed p (rs ++ r ∷ []) ≡ ite (discrete r.prefix p) true (listed p rs)
unfolding member
listed-append_one p [] r = refl
listed-append_one p (x ∷ rs) r = ground (arith, listed-append_one p rs r)

abbrev pub has : RouteMap → Prefix → Bool
has m p = is_some (lookup discrete p m)

-- A loop that goes on, or stops, after one call.
advance_All :
    {E : Type 0} (g : RouteEngine E) (P : Route → Type 0) (p : Prefix) (done : List Route)
    (r : Route) (x : Bool × E) (continue : List Route → E → Progress E)
    → All P done
    → P r
    → ((more : List Route) (s : E) → All P more → All P (continue more s).routes)
    → All P (advance g p done r x continue).routes
advance_All g P p done r (true, s) continue d h k =
    k (done ++ r ∷ []) s (All-append_one P done r d h)
advance_All g P p done r (false, s) continue d h k = d

module _ {E : Type 0} (g : RouteEngine E) (laws : Laws g) where
  open laws use {advertised, announced, not_announced, withdrawn, not_withdrawn}

  announce_all_advertised :
      (rs : List Route) (e : E) (p : Prefix)
      → All (λ r. (s : E) → (g.announce r s).0 ≡ true) rs
      → advertised (announce_all g rs e) p ≡ advertised e p || listed p rs
  unfolding announce_all member
  announce_all_advertised [] e p h = ground arith
  announce_all_advertised (r ∷ rs) e p h =
      ground (arith, announce_all_advertised rs (g.announce r e).1 p h.1, announced r e p (h.0 e))

  withdraw_all_advertised :
      (rs : List Route) (e : E) (p : Prefix)
      → All (λ r. (s : E) → (g.withdraw r s).0 ≡ true) rs
      → advertised (withdraw_all g rs e) p ≡ advertised e p && not (listed p rs)
  unfolding withdraw_all member
  withdraw_all_advertised [] e p h = ground arith
  withdraw_all_advertised (r ∷ rs) e p h =
      ground (arith, withdraw_all_advertised rs (g.withdraw r e).1 p h.1, withdrawn r e p (h.0 e))

  -- What the loop over the active routes has done when it ends, early or not.
  withdraw_stale_advertised :
      (desired active : RouteMap) (done : List Route) (start e : E) (p : Prefix)
      → Keyed active
      → advertised e p ≡ advertised start p && not (listed p done)
      → advertised (withdraw_stale g desired active done e).engine p
        ≡ advertised start p && not (listed p (withdraw_stale g desired active done e).routes)
  unfolding withdraw_stale
  withdraw_stale_advertised desired [] done start e p k h = h
  withdraw_stale_advertised desired ((q, r) ∷ active) done start e p k h = ground (
    arith,
    withdraw_stale_advertised desired active done start e p k.1 h,
    withdraw_stale_advertised desired active (done ++ r ∷ []) start (g.withdraw r e).1 p k.1,
    listed-append_one p done r,
    withdrawn r e p,
    not_withdrawn r e p,
  )

  -- The routes that it has withdrawn if it ends without an error.
  listed-withdraw_stale :
      (desired active : RouteMap) (done : List Route) (e : E) (p : Prefix)
      → Keyed active
      → (withdraw_stale g desired active done e).failed ≡ none
      → listed p (withdraw_stale g desired active done e).routes
        ≡ listed p done || (has active p && not (has desired p))
  unfolding withdraw_stale lookup
  listed-withdraw_stale desired [] done e p k h = ground arith
  listed-withdraw_stale desired ((q, r) ∷ active) done e p k h = ground (
    arith,
    listed-withdraw_stale desired active done e p k.1,
    listed-withdraw_stale desired active (done ++ r ∷ []) (g.withdraw r e).1 p k.1,
    listed-append_one p done r,
    k.0,
  )

  -- Every route that it has withdrawn, early end or not, was active and is not desired.
  withdraw_stale_stale :
      (desired active : RouteMap) (done : List Route) (e : E) (p : Prefix)
      → Keyed active
      → listed p (withdraw_stale g desired active done e).routes ≡ true
      → (listed p done || (has active p && not (has desired p))) ≡ true
  unfolding withdraw_stale lookup
  withdraw_stale_stale desired [] done e p k h = ground arith
  withdraw_stale_stale desired ((q, r) ∷ active) done e p k h = ground (
    arith,
    withdraw_stale_stale desired active done e p k.1,
    withdraw_stale_stale desired active (done ++ r ∷ []) (g.withdraw r e).1 p k.1,
    listed-append_one p done r,
    k.0,
  )

  -- The same for the loop over the desired routes.
  announce_new_advertised :
      (active desired : RouteMap) (done : List Route) (start e : E) (p : Prefix)
      → Keyed desired
      → advertised e p ≡ advertised start p || listed p done
      → advertised (announce_new g active desired done e).engine p
        ≡ advertised start p || listed p (announce_new g active desired done e).routes
  unfolding announce_new
  announce_new_advertised active [] done start e p k h = h
  announce_new_advertised active ((q, r) ∷ desired) done start e p k h = ground (
    arith,
    announce_new_advertised active desired done start e p k.1 h,
    announce_new_advertised active desired (done ++ r ∷ []) start (g.announce r e).1 p k.1,
    listed-append_one p done r,
    announced r e p,
    not_announced r e p,
  )

  listed-announce_new :
      (active desired : RouteMap) (done : List Route) (e : E) (p : Prefix)
      → Keyed desired
      → (announce_new g active desired done e).failed ≡ none
      → listed p (announce_new g active desired done e).routes
        ≡ listed p done || (has desired p && not (has active p))
  unfolding announce_new lookup
  listed-announce_new active [] done e p k h = ground arith
  listed-announce_new active ((q, r) ∷ desired) done e p k h = ground (
    arith,
    listed-announce_new active desired done e p k.1,
    listed-announce_new active desired (done ++ r ∷ []) (g.announce r e).1 p k.1,
    listed-append_one p done r,
    k.0,
  )

  announce_new_new :
      (active desired : RouteMap) (done : List Route) (e : E) (p : Prefix)
      → Keyed desired
      → listed p (announce_new g active desired done e).routes ≡ true
      → (listed p done || (has desired p && not (has active p))) ≡ true
  unfolding announce_new lookup
  announce_new_new active [] done e p k h = ground arith
  announce_new_new active ((q, r) ∷ desired) done e p k h = ground (
    arith,
    announce_new_new active desired done e p k.1,
    announce_new_new active desired (done ++ r ∷ []) (g.announce r e).1 p k.1,
    listed-append_one p done r,
    k.0,
  )

  -- The routes of a loop are those of the map that it ranges over.
  withdraw_stale_All :
      (P : Route → Type 0) (desired active : RouteMap) (done : List Route) (e : E)
      → All (λ x. P x.1) active
      → All P done
      → All P (withdraw_stale g desired active done e).routes
  unfolding withdraw_stale
  withdraw_stale_All P desired [] done e h d = d
  withdraw_stale_All P desired ((q, r) ∷ active) done e h d =
      elim (Bool-cases (is_some (lookup discrete q desired))) [
        | inl k ↦ rw (k, withdraw_stale) (withdraw_stale_All P desired active done e h.1 d)
        | inr k ↦
            rw (k, withdraw_stale)
              (advance_All g P q done r (g.withdraw r e) (withdraw_stale g desired active) d h.0
                λ more s m. withdraw_stale_All P desired active more s h.1 m)
      ]

  announce_new_All :
      (P : Route → Type 0) (active desired : RouteMap) (done : List Route) (e : E)
      → All (λ x. P x.1) desired
      → All P done
      → All P (announce_new g active desired done e).routes
  unfolding announce_new
  announce_new_All P active [] done e h d = d
  announce_new_All P active ((q, r) ∷ desired) done e h d =
      elim (Bool-cases (is_some (lookup discrete q active))) [
        | inl k ↦ rw (k, announce_new) (announce_new_All P active desired done e h.1 d)
        | inr k ↦
            rw (k, announce_new)
              (advance_All g P q done r (g.announce r e) (announce_new g active desired) d h.0
                λ more s m. announce_new_All P active desired more s h.1 m)
      ]

  -- If applyDelta reports no error, the active routes are the desired ones and exactly their
  -- prefixes are advertised. The engine keeps its laws, the routes of both maps stand under their
  -- own prefixes, and before the call exactly the prefixes of the active routes were advertised.
  pub apply_delta_advertised :
      (desired active : RouteMap) (e : E)
      → Keyed active
      → Keyed desired
      → ((p : Prefix) → advertised e p ≡ has active p)
      → (apply_delta g desired active e).error ≡ none
      → ((apply_delta g desired active e).active ≡ desired)
        × ((p : Prefix) → advertised (apply_delta g desired active e).engine p ≡ has desired p)
  unfolding apply_delta member
  apply_delta_advertised desired active e ka kd sync h =
      let w = withdraw_stale g desired active [] e in
      let n = announce_new g active desired [] w.engine in
      (
        ground arith,
        λ p. ground (
          arith,
          sync p,
          withdraw_stale_advertised desired active [] e e p ka,
          listed-withdraw_stale desired active [] e p ka,
          announce_new_advertised active desired [] w.engine w.engine p kd,
          listed-announce_new active desired [] w.engine p kd,
        ),
      )

  -- If applyDelta reports an error, the active routes are as before, and exactly their prefixes
  -- are advertised again. The conditions are those of apply_delta_advertised, and that the calls
  -- of the roll-back succeed: announcing what was active, withdrawing what was desired.
  pub apply_delta_rolled_back :
      (desired active : RouteMap) (e : E)
      → Keyed active
      → Keyed desired
      → ((p : Prefix) → advertised e p ≡ has active p)
      → All (λ x. (s : E) → (g.announce x.1 s).0 ≡ true) active
      → All (λ x. (s : E) → (g.withdraw x.1 s).0 ≡ true) desired
      → (apply_delta g desired active e).error ≢ none
      → ((apply_delta g desired active e).active ≡ active)
        × ((p : Prefix) → advertised (apply_delta g desired active e).engine p ≡ has active p)
  unfolding apply_delta member
  apply_delta_rolled_back desired active e ka kd sync ra rd h =
      let w = withdraw_stale g desired active [] e in
      let n = announce_new g active desired [] w.engine in
      let w_ok =
        withdraw_stale_All (λ r. (s : E) → (g.announce r s).0 ≡ true) desired active [] e ra tt in
      let n_ok =
        announce_new_All (λ r. (s : E) → (g.withdraw r s).0 ≡ true) active desired [] w.engine rd
          tt in
      (
        ground arith,
        λ p. ground (
          arith,
          sync p,
          withdraw_stale_advertised desired active [] e e p ka,
          withdraw_stale_stale desired active [] e p ka,
          announce_new_advertised active desired [] w.engine w.engine p kd,
          announce_new_new active desired [] w.engine p kd,
          withdraw_all_advertised n.routes n.engine p n_ok,
          announce_all_advertised w.routes w.engine p w_ok,
          announce_all_advertised w.routes (withdraw_all g n.routes n.engine) p w_ok,
        ),
      )

-- ===== src/Engine/Running.antt =====
-- The engine's flag `running`, and whether its GoBGP server runs.
use rtbh_panel.Common.{
  String, Bool, true, false, ◌≡◌, refl, List, [], ◌∷◌, map, arith, Option-cases, inl, inr,
}
use rtbh_panel.Common.Lists.{All}
use rtbh_panel.Net.Prefix.{Prefix}
use rtbh_panel.Engine.Route.{Route, BgpPath, route_path}
use rtbh_panel.Engine.Settings.{Config}
use rtbh_panel.Engine.Export.{DefinedSet, Policy, PeerGroup}
use rtbh_panel.Engine.Peers.{
  PeerEvent, SessionPolicy, IsBounded, permits, update, established, not_established,
  on_peer_update-IsBounded,
}
use rtbh_panel.Engine.Peers
use rtbh_panel.Engine.Lifecycle.{
  Gobgp, Engine, in_turn, set_up, start, stop, announce, withdraw, on_peer_update,
}

-- What the engine relies on: a server runs from a start without an error until it is stopped, and no
-- other call starts or stops it.
pub record Serving {B : Type 0} (g : Gobgp B) : Type 0 where
  pub alive : B → Bool
  pub started : (c : Config) (b : B) → (g.start_bgp c b).0 ≡ true → alive (g.start_bgp c b).1 ≡ true
  pub not_started :
      (c : Config) (b : B) → (g.start_bgp c b).0 ≡ false → alive (g.start_bgp c b).1 ≡ alive b
  pub stopped : (b : B) → alive (g.stop_bgp b).1 ≡ false
  pub defining : (s : DefinedSet) (b : B) → alive (g.add_defined_set s b).1 ≡ alive b
  pub policing : (p : Policy) (b : B) → alive (g.add_policy p b).1 ≡ alive b
  pub grouping : (p : PeerGroup) (b : B) → alive (g.add_peer_group p b).1 ≡ alive b
  pub neighbouring : (p : Prefix) (b : B) → alive (g.add_dynamic_neighbor p b).1 ≡ alive b
  pub watching : (b : B) → alive (g.watch_event b).1 ≡ alive b
  pub adding : (p : BgpPath) (b : B) → alive (g.add_path p b).1 ≡ alive b
  pub deleting : (p : BgpPath) (b : B) → alive (g.delete_path p b).1 ≡ alive b
  pub resetting : (address : String) (b : B) → alive (g.reset_peer address b).1 ≡ alive b

pub data Call : Type 0 where
  starts stops : Call
  announces withdraws : Route → Call
  peer_updates : PeerEvent → Call

-- What each of the calls leaves alone, all of them do.
pub in_turn_kept :
    {B X : Type 0} (f : B → X) (calls : List (B → Bool × B)) (b : B)
    → All (λ call. (b : B) → f (call b).1 ≡ f b) calls
    → f (in_turn calls b).1 ≡ f b
unfolding in_turn
in_turn_kept f [] b k = refl
in_turn_kept f (call ∷ calls) b k =
    let rest = in_turn_kept f calls (call b).1 k.1 in
    let first = k.0 b in ground (arith, rest, first)

pub neighbours_kept :
    {B X : Type 0} (g : Gobgp B) (f : B → X) (ranges : List Prefix)
    → ((p : Prefix) (b : B) → f (g.add_dynamic_neighbor p b).1 ≡ f b)
    → All (λ call. (b : B) → f (call b).1 ≡ f b) (map g.add_dynamic_neighbor ranges)
neighbours_kept g f [] k = tt
neighbours_kept g f (p ∷ ranges) k = (k p, neighbours_kept g f ranges k)

module _ {B : Type 0} (g : Gobgp B) where
  unfoldable pub step : Call → Engine B → Engine B
  step starts e = (start g e).1
  step stops e = (stop g e).1
  step (announces r) e = (announce g r e).1
  step (withdraws r) e = (withdraw g r e).1
  step (peer_updates event) e = on_peer_update g event e

  unfoldable pub run : List Call → Engine B → Engine B
  run [] e = e
  run (c ∷ calls) e = run calls (step c e)

  module _ (laws : Serving g) where
    set_up-alive : (c : Config) (b : B) → laws.alive (in_turn (set_up g c) b).1 ≡ laws.alive b
    set_up-alive c b = in_turn_kept laws.alive (set_up g c) b (
      laws.defining _,
      (
        laws.policing _,
        (laws.grouping _, neighbours_kept g laws.alive c.listen_ranges laws.neighbouring),
      ),
    )

    pub step-running :
        (c : Call) (e : Engine B)
        → e.running ≡ laws.alive e.bgp
        → (step c e).running ≡ laws.alive (step c e).bgp
    unfolding step start stop announce withdraw on_peer_update
    step-running starts e h =
        let set = set_up-alive e.config (g.start_bgp e.config e.bgp).1 in
        let yes_started = laws.started e.config e.bgp in
        let not_started = laws.not_started e.config e.bgp in
        let prepared = (in_turn (set_up g e.config) (g.start_bgp e.config e.bgp).1).1 in
        let watched = laws.watching prepared in
        let stopped = laws.stopped prepared in
        let unwatched = laws.stopped (g.watch_event prepared).1 in
        ground (arith, set, yes_started, not_started, watched, stopped, unwatched)
    step-running stops e h = let s = laws.stopped e.bgp in ground (arith, s)
    step-running (announces r) e h = elim (Option-cases (route_path r)) [
      | inl n ↦ ground arith
      | inr (path, n) ↦ let kept = laws.adding path e.bgp in ground (arith, kept)
    ]
    step-running (withdraws r) e h = elim (Option-cases (route_path r)) [
      | inl n ↦ ground arith
      | inr (path, n) ↦
          let kept = laws.deleting (record path { withdrawal = true }) e.bgp in ground (arith, kept)
    ]
    step-running (peer_updates event) e h =
        elim (Option-cases (Peers.on_peer_update e.policy event).1) [
          | inl n ↦ ground arith
          | inr (address, n) ↦ let kept = laws.resetting address e.bgp in ground (arith, kept)
        ]

    -- Over a server that runs from a start without an error until it is stopped: if the flag
    -- running says whether the server runs, it still does after any calls of Start, Stop, Announce
    -- and Withdraw and any peer updates, whichever of the calls to the server fail.
    pub run-running :
        (calls : List Call) (e : Engine B)
        → e.running ≡ laws.alive e.bgp
        → (run calls e).running ≡ laws.alive (run calls e).bgp
    unfolding run
    run-running [] e h = h
    run-running (c ∷ calls) e h = run-running calls (step c e) (step-running c e h)

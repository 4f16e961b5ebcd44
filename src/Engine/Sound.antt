-- ===== src/Engine/Sound.antt =====
-- What an engine that New made keeps: its flag `running`, and the limits on its sessions.
use rtbh_panel.Common.{
  ℕ, ◌≤◌, ◌⊎◌, sym, subst, some, String, true, false, ◌≡◌, refl, List, [], ◌∷◌, arith, Option-cases,
  inl, inr,
}
use rtbh_panel.Common.Lists.{length}
use rtbh_panel.Engine.Settings.{Config, Error, validate}
use rtbh_panel.Engine.Peers.{
  PeerEvent, SessionPolicy, IsBounded, permits, update, established, not_established,
  on_peer_update-IsBounded,
}
use rtbh_panel.Common.Assoc.{lookup}
use rtbh_panel.Common.Texts.{string_discrete}
use rtbh_panel.Common.Results.{Attempt, ok, ok_injective}
use rtbh_panel.Engine.Peers
use rtbh_panel.Engine.Lifecycle.{
  Gobgp, Engine, new, start, stop, announce, withdraw, on_peer_update,
}
use rtbh_panel.Engine.Running.{
  Serving, Call, starts, stops, announces, withdraws, peer_updates, step, run, step-running,
}

module _ {B : Type 0} (g : Gobgp B) (laws : Serving g) where
  -- What an engine made with a configuration keeps.
  pub record IsSound (c : Config) (e : Engine B) : Type 0 where
    pub flag : e.running ≡ laws.alive e.bgp
    pub bounded : IsBounded e.policy
    pub limit : e.policy.max ≡ c.max_sessions
    pub allowed : e.policy.allowed ≡ c.allowed_asns

  update_bounds :
      (p : SessionPolicy) (event : PeerEvent)
      → ((Peers.on_peer_update p event).0.max ≡ p.max)
        × ((Peers.on_peer_update p event).0.allowed ≡ p.allowed)
  unfolding Peers.on_peer_update Peers.admit_peer Peers.release_peer
  update_bounds p (update established a n) =
      elim (Option-cases (lookup string_discrete a p.peers)) [
        | inl h ↦ (ground arith, ground arith)
        | inr (m, h) ↦ (ground arith, ground arith)
      ]
  update_bounds p (update not_established a n) = (refl, refl)

  reset-policy :
      (event : PeerEvent) (e : Engine B)
      → (on_peer_update g event e).policy ≡ (Peers.on_peer_update e.policy event).0
  unfolding on_peer_update
  reset-policy event e = elim (Option-cases (Peers.on_peer_update e.policy event).1) [
    | inl n ↦ ground arith
    | inr (address, n) ↦ ground arith
  ]

  step-policy :
      (c : Call) (e : Engine B)
      → ((step g c e).policy ≡ e.policy)
        ⊎ ((event : PeerEvent) × ((step g c e).policy ≡ (Peers.on_peer_update e.policy event).0))
  unfolding step start stop announce withdraw
  step-policy starts e = inl (ground arith)
  step-policy stops e = inl (ground arith)
  step-policy (announces r) e = inl (ground arith)
  step-policy (withdraws r) e = inl (ground arith)
  step-policy (peer_updates event) e = inr (event, reset-policy event e)

  step-IsSound : (c : Config) (call : Call) (e : Engine B) → IsSound c e → IsSound c (step g call e)
  step-IsSound c call e s = elim (step-policy call e) [
    | inl same ↦ record {
      flag = step-running g laws call e s.flag;
      bounded = subst IsBounded (sym same) s.bounded;
      limit = ground (arith, same, s.limit);
      allowed = ground (arith, same, s.allowed);
    }
    | inr (event, same) ↦ record {
      flag = step-running g laws call e s.flag;
      bounded = subst IsBounded (sym same) (on_peer_update-IsBounded e.policy event s.bounded);
      limit = ground (arith, same, s.limit, update_bounds e.policy event);
      allowed = ground (arith, same, s.allowed, update_bounds e.policy event);
    }
  ]

  run-IsSound :
      (c : Config) (calls : List Call) (e : Engine B) → IsSound c e → IsSound c (run g calls e)
  unfolding run
  run-IsSound c [] e s = s
  run-IsSound c (call ∷ calls) e s = run-IsSound c calls (step g call e) (step-IsSound c call e s)

  new-IsSound :
      (c : Config) (b : B) (e : Engine B) → new c b ≡ ok e → laws.alive b ≡ false → IsSound c e
  unfolding new Peers.new Peers.run
  new-IsSound c b e h dead = elim (Option-cases (validate c)) [
    | inr (f, n) ↦ absurd (ground arith)
    | inl n ↦
        let made : ◌≡◌ {A = Attempt Error (Engine B)}
            (ok (record {
              config = c;
              bgp = b;
              policy = Peers.new c.allowed_asns c.max_sessions;
              running = false;
              watch_cancel = false;
            }))
            (ok e) =
          ground arith in
        subst (IsSound c) (ok_injective made) (record {
          flag = sym dead;
          bounded = Peers.run-new c.allowed_asns c.max_sessions [];
          limit = refl;
          allowed = refl;
        })
  ]

  -- Over a server that runs from a start without an error until it is stopped: after any calls of
  -- Start, Stop, Announce and Withdraw and any peer updates, in any order and whichever of the
  -- calls to the server fail, an engine made by New over a server that does not run has its flag
  -- running say whether the server runs, and its session table has at most the configured number
  -- of sessions, each with a number that the configuration permits.
  pub run-new :
      (c : Config) (b : B) (e : Engine B) (calls : List Call)
      → new c b ≡ ok e
      → laws.alive b ≡ false
      → ((run g calls e).running ≡ laws.alive (run g calls e).bgp)
        × (length (run g calls e).policy.peers ≤ c.max_sessions)
        × ((address : String) (asn : ℕ)
            → lookup string_discrete address (run g calls e).policy.peers ≡ some asn
            → permits c.allowed_asns asn ≡ true)
  run-new c b e calls h dead =
      let s = run-IsSound c calls e (new-IsSound c b e h dead) in
      (
        s.flag,
        subst (λ n. length (run g calls e).policy.peers ≤ n) s.limit s.bounded.few,
        λ a n k. subst (λ l. permits l n ≡ true) s.allowed (s.bounded.permitted a n k),
      )

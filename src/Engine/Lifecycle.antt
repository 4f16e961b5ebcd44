-- ===== src/Engine/Lifecycle.antt =====
-- New, Start, Stop, Announce, Withdraw, Status and onPeerUpdate over a GoBGP server, which is a parameter.
use rtbh_panel.Common.{
  ℕ, suc, String, Bool, true, false, not, Option, none, some, List, [], ◌∷◌, ◌++◌, map,
  if◌then◌else◌,
}
use rtbh_panel.Net.Prefix.{Prefix}
use rtbh_panel.Engine.Route.{Route, BgpPath, route_path}
use rtbh_panel.Net.Addr.{Addr, no_addr}
use rtbh_panel.Engine.Export.{
  DefinedSet, Policy, PeerGroup, build_rtbh_export_policy, build_peer_group,
}
use rtbh_panel.Engine.Settings
use rtbh_panel.Engine.Settings.{Config, Port}
use rtbh_panel.Engine.Peers.{SessionPolicy, PeerEvent, State, established, not_established}
use rtbh_panel.Engine.Peers
use rtbh_panel.Common.Results.{Attempt, ok, err}

-- What ListPeer tells of a peer: of its state, whether it is ESTABLISHED, and the state's name.
pub record PeerState : Type 0 where
  pub neighbor_address : String
  pub peer_asn : ℕ
  pub session_state : State
  pub state_name : String

-- The calls of the server's interface that the engine makes. Each says whether it returned no error.
pub record Gobgp (B : Type 0) : Type 0 where
  pub start_bgp : Config → B → Bool × B
  pub add_defined_set : DefinedSet → B → Bool × B
  pub add_policy : Policy → B → Bool × B
  pub add_peer_group : PeerGroup → B → Bool × B
  pub add_dynamic_neighbor : Prefix → B → Bool × B
  pub watch_event : B → Bool × B
  pub stop_bgp : B → Bool × B
  pub add_path : BgpPath → B → Bool × B
  pub delete_path : BgpPath → B → Bool × B
  pub reset_peer : String → B → Bool × B
  pub list_peer : B → Bool × List PeerState

-- `watch_cancel` says whether watchCancel is set.
pub record Engine (B : Type 0) : Type 0 where
  pub config : Config
  pub bgp : B
  pub policy : SessionPolicy
  pub running : Bool
  pub watch_cancel : Bool

-- New, with the server that NewBgpServer returns.
unfoldable pub new : {B : Type 0} → Config → B → Attempt Settings.Error (Engine B)
new c b = elim (Settings.validate c) [
  | some e ↦ err e
  | none ↦ ok (record {
    config = c;
    bgp = b;
    policy = Peers.new c.allowed_asns c.max_sessions;
    running = false;
    watch_cancel = false;
  })
]

pub record Peer : Type 0 where
  pub address : Addr
  pub asn : ℕ
  pub state : String

pub record Status : Type 0 where
  pub running : Bool
  pub local_asn : ℕ
  pub router_id : Addr
  pub listen_port : Port
  pub listen_ranges : List Prefix
  pub sessions : ℕ
  pub peers : List Peer

module _ {B : Type 0} where
  -- Calls that return at the first error.
  unfoldable pub in_turn : List (B → Bool × B) → B → Bool × B
  in_turn [] b = (true, b)
  in_turn (call ∷ calls) b =
      let (done, c) = call b in elim done [ true ↦ in_turn calls c | false ↦ (false, c) ]

  module _ (g : Gobgp B) where
    -- What Start asks of a server that has started: the policy set and policy, the peer group, and a
    -- dynamic neighbour for each listen range.
    abbrev pub set_up : Config → List (B → Bool × B)
    set_up c =
        g.add_defined_set build_rtbh_export_policy.0
        ∷ g.add_policy build_rtbh_export_policy.1
        ∷ g.add_peer_group build_peer_group
        ∷ map g.add_dynamic_neighbor c.listen_ranges

    -- The deferred stop of Start: the server was started, and the engine does not run.
    abbrev abandon : B → Engine B → Bool × Engine B
    abandon b e = (false, record e { bgp = (g.stop_bgp b).1 })

    -- The context of the watch stays in the engine when WatchEvent fails.
    abbrev watched : Engine B → Bool × B → Bool × Engine B
    watched e (true, b) = (true, record e { bgp = b; running = true; watch_cancel = true })
    watched e (false, b) = abandon b (record e { watch_cancel = true })

    abbrev after_set_up : Engine B → Bool × B → Bool × Engine B
    after_set_up e (true, b) = watched e (g.watch_event b)
    after_set_up e (false, b) = abandon b e

    abbrev after_start : Engine B → Bool × B → Bool × Engine B
    after_start e (true, b) = after_set_up e (in_turn (set_up e.config) b)
    after_start e (false, b) = (false, record e { bgp = b })

    unfoldable pub start : Engine B → Bool × Engine B
    start e = if e.running then (false, e) else after_start e (g.start_bgp e.config e.bgp)

    unfoldable pub stop : Engine B → Bool × Engine B
    stop e =
        if not e.running
        then (true, e)
        else (let (done, b) = g.stop_bgp e.bgp in
            (done, record e { bgp = b; running = false; watch_cancel = false }))

    -- onPeerUpdate: an error of ResetPeer is dropped.
    abbrev reset : Engine B → SessionPolicy × Option String → Engine B
    reset e (p, none) = record e { policy = p }
    reset e (p, some address) = record e { policy = p; bgp = (g.reset_peer address e.bgp).1 }

    unfoldable pub on_peer_update : PeerEvent → Engine B → Engine B
    on_peer_update event e = reset e (Peers.on_peer_update e.policy event)

    abbrev count : State → ℕ → ℕ
    count established n = suc n
    count not_established n = n

    -- The callback of ListPeer. An address that does not parse is the zero Addr.
    unfoldable pub list_peers : (String → Option Addr) → List PeerState → Status → Status
    list_peers parse_addr [] status = status
    list_peers parse_addr (p ∷ ps) status = list_peers parse_addr ps (record status {
      peers =
          status.peers
          ++ record {
            address = elim (parse_addr p.neighbor_address) [ none ↦ no_addr | some a ↦ a ];
            asn = p.peer_asn;
            state = p.state_name;
          }
            ∷ [];
      sessions = count p.session_state status.sessions;
    })

    -- Status: whether it returned no error, and the status, which holds the peers listed so far.
    unfoldable pub status : (String → Option Addr) → Engine B → Bool × Status
    status parse_addr e =
        let empty : Status = record {
          running = e.running;
          local_asn = e.config.local_asn;
          router_id = e.config.router_id;
          listen_port = e.config.listen_port;
          listen_ranges = e.config.listen_ranges;
          sessions = 0;
          peers = [];
        } in
        if not e.running
        then (true, empty)
        else (let (done, l) = g.list_peer e.bgp in (done, list_peers parse_addr l empty))

    abbrev with_path : (BgpPath → B → Bool × B) → Engine B → Option BgpPath → Bool × Engine B
    with_path call e none = (false, e)
    with_path call e (some path) = let (done, b) = call path e.bgp in (done, record e { bgp = b })

    unfoldable pub announce : Route → Engine B → Bool × Engine B
    announce r e = if not e.running then (false, e) else with_path g.add_path e (route_path r)

    unfoldable pub withdraw : Route → Engine B → Bool × Engine B
    withdraw r e =
        if not e.running
        then (false, e)
        else with_path (λ path. g.delete_path (record path { withdrawal = true })) e (route_path r)

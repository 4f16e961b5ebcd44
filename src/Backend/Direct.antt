-- ===== src/Backend/Direct.antt =====
-- What dashboardBackend does without a controller, the peers that it shows, and NewConfiguredAdapter.
use rtbh_panel.Common.{
  ℕ, String, Bool, true, false, not, ◌&&◌, ◌||◌, Option, none, some, List, [], ◌∷◌, ◌++◌, map,
  if◌then◌else◌, str_eq,
}
use rtbh_panel.Common.Results.{Attempt, ok, err}
use rtbh_panel.Net.Addr.{Addr}
use rtbh_panel.Policy.{Mutation}
use rtbh_panel.PolicyStore.State
use rtbh_panel.PolicyStore.State.{new}
use rtbh_panel.PolicyStore.Disk.{System}
use rtbh_panel.PolicyStore.Mutate.{Stored}
use rtbh_panel.Adapter
use rtbh_panel.Adapter.{PolicyChange, StoreAdapter, DryRunAdapter}
use rtbh_panel.Engine.Lifecycle
use rtbh_panel.Engine.Lifecycle.{Status}
use rtbh_panel.Config.Settings.{Config}

-- The adapter of an agent.
pub data ConfiguredAdapter : Type 0 where
  dry_run : DryRunAdapter → ConfiguredAdapter
  storing : StoreAdapter → ConfiguredAdapter

-- strings.HasSuffix and policystore.Open
pub record Files : Type 0 where
  pub has_suffix : String → String → Bool
  pub open_policies : String → Attempt State.Error Stored

abbrev target_file : Config → String
target_file c = if str_eq c.policy_file "" then c.db_dsn else c.policy_file

abbrev opened : Attempt State.Error Stored → Attempt State.Error ConfiguredAdapter
opened (err e) = err e
opened (ok s) = ok (storing (record { store = some s; dry_run = false }))

-- NewConfiguredAdapter
unfoldable pub new_configured_adapter : Files → Config → Attempt State.Error ConfiguredAdapter
new_configured_adapter files c =
    if c.dry_run
    then ok (dry_run (record { observed = 0 }))
    else if files.has_suffix (target_file c) ".db"
        || (files.has_suffix (target_file c) ".sqlite" || not (str_eq c.db_driver ""))
    then ok (
        storing (record { store = some (record { store = new ""; file = none }); dry_run = false }))
    else opened (files.open_policies (target_file c))

-- MutatePolicy of a backend without a controller: its store, and what it has published.
pub record Plain : Type 0 where
  pub store : Option Stored
  pub dry_run : Bool
  pub publishes : Bool
  pub published : List Mutation

pub data Failure : Type 0 where
  dry_run_rejected : Failure
  adapter : Adapter.Failure → Failure

-- The expiry of the mutation is not passed on.
abbrev dashboard_change : Mutation → PolicyChange
dashboard_change m = record {
  id = "dashboard";
  idempotency_key = "dashboard";
  operation = m.action;
  list = m.list;
  prefix = m.prefix;
  expires_at = none;
}

abbrev published_after :
    Mutation → Option Adapter.Failure × StoreAdapter → Plain → Option Failure × Plain
published_after m (some e, a) b = (some (adapter e), record b { store = a.store })
published_after m (none, a) b = (
  none,
  if not b.dry_run && b.publishes
      then record b { store = a.store; published = b.published ++ m ∷ [] }
      else record b { store = a.store },
)

unfoldable pub mutate_plain : System → Mutation → Plain → Option Failure × Plain
mutate_plain sys m b =
    if b.dry_run
    then (some dry_run_rejected, b)
    else published_after m
        (Adapter.apply sys (dashboard_change m) (record { store = b.store; dry_run = b.dry_run })) b

-- dashboard.Peer
pub record Peer : Type 0 where
  pub address : String
  pub asn : ℕ
  pub state : String

abbrev shown_peer : (Addr → String) → Lifecycle.Peer → Peer
shown_peer print p = record { address = print p.address; asn = p.asn; state = p.state }

-- EstablishedPeers, of what Status returns: none is the error. It shows the peers in every state.
unfoldable pub established_peers : (Addr → String) → Bool × Status → Option (List Peer)
established_peers print (false, s) = none
established_peers print (true, s) = some (map (shown_peer print) s.peers)

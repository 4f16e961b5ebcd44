-- ===== src/Tests/Command.antt =====
-- The server's command, the requests that come to a handler, and the removal of expired prefixes.
use rtbh_panel.Common.{
  ◌≡◌, refl, true, false, not, ◌&&◌, Option, none, some, [], ◌∷◌, arith, if◌then◌else◌, ℕ_discrete,
}
use rtbh_panel.Common.Lists.{distinct, member, any}
use rtbh_panel.Common.Assoc.{lookup}
use rtbh_panel.Net.Prefix.{Prefix, discrete, masked}
use rtbh_panel.PolicyStore.Mutate.{Stored}
use rtbh_panel.PolicyStore.Invariant.{IsValid}
use rtbh_panel.Common.Lists.{index, delete_at}
use rtbh_panel.Common.Assoc
use rtbh_panel.Common.Assoc.{insert}
use rtbh_panel.Net.Prefix.{contains}
use rtbh_panel.Adapter.{canonical, mutate_store}
use rtbh_panel.PolicyStore.Disk.{persist, to_disk}
use rtbh_panel.PolicyStore.Mutate.{assign, commit, edit, finish, mutate}
use rtbh_panel.Controller.Apply.{apply_locked, propose, deliver, persist_policy, routes}
use rtbh_panel.Controller.Delta.{
  apply_delta, withdraw_stale, announce_new, announce_all, withdraw_all,
}
use rtbh_panel.Controller.Routes.{
  expired_at, effective_routes, add_routes, add_route, suppressed, route_for,
}
use rtbh_panel.Controller.Service.{apply_expired, remove_expired}
use rtbh_panel.Controller.Expired.{apply_expired_remaining}
use rtbh_panel.Server.Run.{Service}
use rtbh_panel.Server.Run.Stopped.{IsStopped}
use rtbh_panel.Command.{World, run_server, prepare}
use rtbh_panel.Config.Load.{load_config, read_flags, parse_next_hop, validate_mode}
use rtbh_panel.Config.Environment.{
  apply_environment, parse_prefixes, parse_ranges, parse_asns, parse_numbers, split_csv,
  join_prefixes, join_asns,
}
use rtbh_panel.Config.Checks.{validate_common, validate_server, validate_local_address}
use rtbh_panel.Server.Create.{new_server}
use rtbh_panel.Engine.Lifecycle.{new}
use rtbh_panel.Engine.Settings
use rtbh_panel.Feed.Open.{open_manager}
use rtbh_panel.Agent.Cursor.{load_cursor}
use rtbh_panel.Command.Ended.{run_server-IsStopped}
use rtbh_panel.Dashboard.Routing.{
  get, get_config, serve, serve-IsRouted, dispatch, find_pattern, is_api, IsRouted, patterns,
}
use rtbh_panel.Tests.Samples.{ten, docs, system, table, no_sql, controller_of}
use rtbh_panel.Tests.Setup.{library, host, no_flags}
use rtbh_panel.Tests.Running.{service, Daemon, daemon, serving, outside}

serve-IsRouted_example :
    (true ≡ true) × (some true ≡ some true) × IsRouted patterns get "/api/v1/config" get_config
unfolding serve dispatch find_pattern is_api
serve-IsRouted_example = serve-IsRouted true (some true) get "/api/v1/config" get_config refl

-- 10.0.0.0/24 has expired, 192.0.2.0/24 has not.
abbrev expiring : Stored
expiring = record {
  store = record {
    path = "";
    blocklist = ten ∷ docs ∷ [];
    whitelist = [];
    expirations = (ten, 3) ∷ (docs, 9) ∷ [];
    audit = [];
  };
  file = none;
}

expiring-IsValid : IsValid expiring.store
unfolding distinct member lookup masked discrete ℕ_discrete
expiring-IsValid = record {
  blocked_distinct = refl;
  allowed_distinct = refl;
  blocked_stored =
      (record { canonical = refl; valid = refl }, (record { canonical = refl; valid = refl }, tt));
  allowed_stored = tt;
  expiring_distinct = refl;
  expiring_blocked = λ p t h. elim (discrete ten p) [ yes e ↦ ground arith | no n ↦ ground arith ];
}

expiring_runs : (apply_expired table no_sql system (controller_of expiring)).0 ≡ none
unfolding apply_expired masked discrete ℕ_discrete remove_expired apply_locked canonical propose
    index deliver apply_delta withdraw_stale announce_new effective_routes add_routes delete_at
    add_route lookup suppressed any insert mutate_store Assoc.delete persist_policy routes
    announce_all withdraw_all route_for contains persist to_disk assign commit edit finish mutate
expiring_runs = refl

apply_expired_remaining_example :
    IsValid (apply_expired table no_sql system (controller_of expiring)).1.stored.store
    × ((x : Prefix)
        → (member discrete x
              (apply_expired table no_sql system (controller_of expiring)).1.stored.store.blocklist
            ≡ member discrete x expiring.store.blocklist
              && not (expired_at 5 (lookup discrete x expiring.store.expirations)))
          × (lookup discrete x
                (apply_expired table no_sql system
                  (controller_of expiring)).1.stored.store.expirations
              ≡ (if expired_at 5 (lookup discrete x expiring.store.expirations)
                  then none
                  else lookup discrete x expiring.store.expirations)))
unfolding masked discrete ℕ_discrete
apply_expired_remaining_example =
    apply_expired_remaining table no_sql system (controller_of expiring) expiring-IsValid
      ((refl, refl), ((refl, refl), tt)) expiring_runs

-- A server in the default configuration, whose life ends at once.
abbrev world : World Daemon Unit
world = record {
  library = library;
  getenv = λ name. "";
  parse = no_flags;
  host = host;
  bgp = (false, λ p. false);
  database = tt;
  file = none;
  outside = outside;
  work = [];
}

-- What the command leaves of its server.
abbrev left : Option (Service Daemon Unit) → Service Daemon Unit → Service Daemon Unit
left none s = s
left (some s) t = s

abbrev after : Service Daemon Unit
after = left (run_server daemon no_sql world).1 service

world_runs : (run_server daemon no_sql world).1 ≡ some after
unfolding run_server prepare load_config apply_environment read_flags parse_next_hop parse_prefixes
    parse_ranges parse_asns parse_numbers split_csv join_prefixes join_asns validate_mode
    validate_common validate_server validate_local_address masked discrete any ℕ_discrete new_server
    new Settings.validate open_manager load_cursor
world_runs = refl

run_server-IsStopped_example : IsStopped daemon no_sql serving after
run_server-IsStopped_example =
    run_server-IsStopped daemon no_sql serving world after refl world_runs

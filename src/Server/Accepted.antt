-- ===== src/Server/Accepted.antt =====
-- What the checks of NewServer ensure of the parts that it creates.
use rtbh_panel.Common.{
  ◌+◌, ◌<◌, ◌^◌, ◌≡◌, ◌≢◌, true, false, none, List, [], ◌∷◌, arith, inl, inr, Option-cases,
  Bool-cases,
}
use rtbh_panel.Common.Lists.{All}
use rtbh_panel.Common.Results.{ok, err, Attempt-cases}
use rtbh_panel.Net.Prefix
use rtbh_panel.Net.Prefix.{Prefix, masked}
use rtbh_panel.Engine.Settings
use rtbh_panel.Engine.Settings.{Port, bad_port, validate, validate-IsUsable}
use rtbh_panel.Config.Settings.{Config, Library}
use rtbh_panel.Config.Checks.{validate_common, validate_server}
use rtbh_panel.Config.Sound.{validate_server-IsServable, limits}
use rtbh_panel.Rpc.Message.{Frame}
use rtbh_panel.Rpc.Session.{new_session}
use rtbh_panel.Server.Create.{Host, Created, create_engine, engine_config, new_server, open_session}

valid_ranges :
    (l : List Prefix)
    → All (λ p. (Prefix.is_valid p ≡ true) × (masked p ≡ p)) l
    → All (λ p. Prefix.is_valid p ≡ true) l
valid_ranges [] h = tt
valid_ranges (p ∷ l) h = (h.0.0, valid_ranges l h.1)

validate-engine_config :
    (lib : Library) (c : Config) (listen_port : Port)
    → validate_server lib c ≡ ok tt
    → bad_port listen_port ≡ false
    → validate (engine_config c listen_port) ≡ none
validate-engine_config lib c listen_port checked listening =
    let servable = validate_server-IsServable lib c checked in
    (validate-IsUsable (engine_config c listen_port)).1 (record {
      asn = servable.numbered;
      router = servable.router;
      listening = listening;
      ranged = servable.ranged;
      ranges = valid_ranges c.listen_ranges servable.ranges;
      sessions = servable.sessions;
      numbered = servable.asns;
    })

new_server_limits :
    (lib : Library) (host : Host) (c : Config) (s : Created)
    → new_server lib host c ≡ ok s
    → (0 < s.config.sync_max_message_bytes) × (0 < s.config.sync_max_in_flight)
unfolding new_server
new_server_limits lib host c s h = elim (Attempt-cases (validate_common lib c)) [
  | inl (e, failed) ↦ absurd (ground arith)
  | inr (done, common) ↦
      let bounds = limits lib c common in (ground (arith, bounds), ground (arith, bounds))
]

-- NewServer never fails for a configuration that the engine does not take: its own checks are at
-- least as strict as those of the engine.
pub new_server_engine :
    (lib : Library) (host : Host) (c : Config) (e : Settings.Error)
    → new_server lib host c ≢ err (create_engine e)
unfolding new_server
new_server_engine lib host c e h = elim (Attempt-cases (validate_server lib c)) [
  | inl (cause, failed) ↦ ground arith
  | inr (done, checked) ↦ elim (Option-cases (lib.split_host_port c.bgp_listen_address)) [
    | inl n ↦ ground arith
    | inr (address, split) ↦ elim (Option-cases (host.parse_int32 address.1)) [
      | inl n ↦ ground arith
      | inr (listen_port, parsed) ↦ elim (Bool-cases (bad_port listen_port)) [
        | inl bad ↦ ground arith
        | inr listening ↦
            let valid = validate-engine_config lib c listen_port checked listening in
            ground (arith, valid)
      ]
    ]
  ]
]

-- A server that NewServer returns can open a session on every connection, up to the last cursor.
pub open_session_accepted :
    (lib : Library) (host : Host) (c : Config) (s : Created) (incoming : List Frame)
    → new_server lib host c ≡ ok s
    → s.cursor + 1 < 2 ^ 64
    → (open_session incoming s.config s.cursor).0 ≡ none
unfolding new_server open_session new_session
open_session_accepted lib host c s incoming h below =
    let bounds = new_server_limits lib host c s h in ground (arith, bounds)

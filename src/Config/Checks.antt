-- ===== src/Config/Checks.antt =====
-- validateCommon, validateServer and validateAgent.
use rtbh_panel.Common.{
  String, Bool, true, false, not, ◌&&◌, ◌||◌, ◌==◌, ltb, none, some, List, [], ◌∷◌, if◌then◌else◌,
  str_eq, is_some, ite,
}
use rtbh_panel.Common.Lists.{any}
use rtbh_panel.Common.Results.{ok, err, ◌>>◌, check}
use rtbh_panel.Net.Addr.{is4}
use rtbh_panel.Net.Prefix
use rtbh_panel.Net.Prefix.{Prefix, masked, discrete}
use rtbh_panel.Config.Settings.{
  Config, Library, Checked, bad_limits, no_policy_file, bad_counts, no_ipv4_or_range,
  range_not_canonical, zero_asn, bad_timeout, bad_address, not_loopback, bad_reconnect,
}

abbrev is_empty {ℓ} : {A : Type ℓ} → List A → Bool
is_empty [] = true
is_empty (_ ∷ _) = false

abbrev pub is_canonical : Prefix → Bool
is_canonical p = Prefix.is_valid p && ite (discrete p (masked p)) true false

module _ (lib : Library) where
  unfoldable pub validate_common : Config → Checked (Unit {0})
  validate_common c = do
    check (not ((c.sync_max_message_bytes == 0) || (c.sync_max_in_flight == 0))) bad_limits
    check
        (not (
          not c.dry_run
          && (str_eq (lib.trim_space c.policy_file) "" && str_eq (lib.trim_space c.db_dsn) "")))
        no_policy_file
    ok tt

  abbrev local_host : String → Checked (Unit {0})
  local_host host = if str_eq host "localhost" then ok tt else elim (lib.parse_addr host) [
    | none ↦ err not_loopback
    | some ip ↦ check (lib.is_loopback ip) not_loopback
  ]

  unfoldable pub validate_local_address : String → Checked (Unit {0})
  validate_local_address address = elim (lib.split_host_port address) [
    | none ↦ err bad_address
    | some (host, port) ↦ local_host host
  ]

  abbrev has_port : String → Bool
  has_port address = is_some (lib.split_host_port address)

  -- The three listen addresses stand in a map, so which one of several bad ones is named is open.
  unfoldable pub validate_server : Config → Checked (Unit {0})
  validate_server c = do
    check (not ((c.local_asn == 0) || (c.max_sessions == 0))) bad_counts
    check (not (not (is4 c.router_id) || is_empty c.listen_ranges)) no_ipv4_or_range
    check (not (any (λ p. not (is_canonical p)) c.listen_ranges)) range_not_canonical
    check (not (any (λ asn. asn == 0) c.allowed_asns)) zero_asn
    check (not (c.shutdown_timeout == 0)) bad_timeout
    check
        (has_port c.bgp_listen_address
          && (has_port c.http_listen_address && has_port c.sync_listen_address))
        bad_address
    if c.insecure_listen
        then ok tt
        else (validate_local_address c.http_listen_address
            >> validate_local_address c.sync_listen_address)

  unfoldable pub validate_agent : Config → Checked (Unit {0})
  validate_agent c = do
    check (not ((c.reconnect_min == 0) || ltb c.reconnect_max c.reconnect_min)) bad_reconnect
    check (has_port c.sync_server_address) bad_address
    if c.insecure_listen then ok tt else validate_local_address c.sync_server_address

  unfoldable pub validate : Config → Checked (Unit {0})
  validate c = validate_common c >> (validate_server c >> validate_agent c)

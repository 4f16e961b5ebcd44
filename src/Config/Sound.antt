-- ===== src/Config/Sound.antt =====
-- What holds of a configuration that was loaded.
use rtbh_panel.Common.{
  ℕ, ◌<◌, ◌≡◌, ◌≢◌, ◌⊎◌, inl, inr, refl, sym, ap, ◌∙◌, String, true, false, not, some, List, [],
  ◌∷◌, arith, Bool-cases, str_eq, Option-cases, ◌==◌,
}
use rtbh_panel.Common.Lists.{All, any}
use rtbh_panel.Common.Results.{ok, >>=-eq-ok, check, require, ok_injective}
use rtbh_panel.Net.Addr.{Addr, is4}
use rtbh_panel.Net.Prefix
use rtbh_panel.Net.Prefix.{Prefix, masked, discrete}
use rtbh_panel.Config.Settings.{Config, Library, default_config, bad_flags, unexpected_arguments}
use rtbh_panel.Config.Environment.{apply_environment}
use rtbh_panel.Config.Checks.{
  is_canonical, validate_common, validate_server, validate_local_address,
}
use rtbh_panel.Config.Load.{
  ConfigMode, config_all, config_server, config_agent, Flags, ParseFlags, default_flags, read_flags,
  parse_next_hop, validate_mode, load_config,
}

-- An address that only this host can reach: a loopback address or localhost, with a port.
abbrev pub IsLocal : Library → String → Type 0
IsLocal lib address =
    (host : String) × (port : String) × (lib.split_host_port address ≡ some (host, port))
    × ((str_eq host "localhost" ≡ true)
        ⊎ ((ip : Addr) × (lib.parse_addr host ≡ some ip) × (lib.is_loopback ip ≡ true)))

-- What the server relies on.
pub record IsServable (lib : Library) (c : Config) : Type 0 where
  pub numbered : c.local_asn ≢ 0
  pub sessions : 0 < c.max_sessions
  pub router : is4 c.router_id ≡ true
  pub ranged : c.listen_ranges ≢ []
  pub ranges : All (λ p. (Prefix.is_valid p ≡ true) × (masked p ≡ p)) c.listen_ranges
  pub asns : All (λ asn. asn ≢ 0) c.allowed_asns
  pub timeout : 0 < c.shutdown_timeout
  pub http : (c.insecure_listen ≡ true) ⊎ IsLocal lib c.http_listen_address
  pub sync : (c.insecure_listen ≡ true) ⊎ IsLocal lib c.sync_listen_address

validate_local_address-IsLocal :
    (lib : Library) (address : String)
    → validate_local_address lib address ≡ ok tt
    → IsLocal lib address
unfolding validate_local_address
validate_local_address-IsLocal lib address h = elim (Option-cases (lib.split_host_port address)) [
  | inl n ↦ absurd (ground arith)
  | inr ((host, port), s) ↦ elim (Bool-cases (str_eq host "localhost")) [
    | inl l ↦ (host, port, s, inl l)
    | inr l ↦ elim (Option-cases (lib.parse_addr host)) [
      | inl n ↦ absurd (ground arith)
      | inr (ip, p) ↦ (host, port, s, inr (ip, p, ground arith))
    ]
  ]
]

canonical_ranges :
    (l : List Prefix)
    → any (λ p. not (is_canonical p)) l ≡ false
    → All (λ p. (Prefix.is_valid p ≡ true) × (masked p ≡ p)) l
unfolding any
canonical_ranges [] h = tt
canonical_ranges (p ∷ l) h = ((ground arith, ground arith), canonical_ranges l (ground arith))

nonzero_asns : (l : List ℕ) → any (λ asn. asn == 0) l ≡ false → All (λ asn. asn ≢ 0) l
unfolding any
nonzero_asns [] h = tt
nonzero_asns (n ∷ l) h = (ground arith, nonzero_asns l (ground arith))

pub validate_server-IsServable :
    (lib : Library) (c : Config) → validate_server lib c ≡ ok tt → IsServable lib c
unfolding validate_server
validate_server-IsServable lib c h = record {
  numbered = ground arith;
  sessions = ground arith;
  router = ground arith;
  ranged = ground arith;
  ranges = canonical_ranges c.listen_ranges (ground arith);
  asns = nonzero_asns c.allowed_asns (ground arith);
  timeout = ground arith;
  http = elim (Bool-cases c.insecure_listen) [
    | inl i ↦ inl i
    | inr i ↦ inr (validate_local_address-IsLocal lib c.http_listen_address (ground arith))
  ];
  sync = elim (Bool-cases c.insecure_listen) [
    | inl i ↦ inl i
    | inr i ↦ inr (validate_local_address-IsLocal lib c.sync_listen_address (ground arith))
  ];
}

read_flags_next_hops :
    (lib : Library) (f : Flags) (c : Config)
    → read_flags lib f ≡ ok c
    → is4 c.router_id ≡ true
    → (is4 c.rtbh_next_hop_v4 ≡ true) × (is4 c.rtbh_next_hop_v6 ≡ false)
unfolding read_flags parse_next_hop
read_flags_next_hops lib f c h r = (ground arith, ground arith)

-- The flags that a loaded configuration was read from, and the checks that it has passed.
loaded :
    (lib : Library) (getenv : String → String) (parse : ParseFlags) (mode : ConfigMode) (c : Config)
    → load_config lib getenv parse mode ≡ ok c
    → (f : Flags) × (read_flags lib f ≡ ok c) × (validate_mode lib mode c ≡ ok tt)
unfolding load_config
loaded lib getenv parse mode c h =
    let (e, _, h1) = >>=-eq-ok (apply_environment lib getenv default_config) _ h in
    let (f, _, h2) = >>=-eq-ok (require bad_flags (parse mode (default_flags lib e))) _ h1 in
    let (_, _, h3) = >>=-eq-ok (check (not f.1) unexpected_arguments) _ h2 in
    let (d, r, h4) = >>=-eq-ok (read_flags lib f.0) _ h3 in
    let (_, v, h5) = >>=-eq-ok (validate_mode lib mode d) _ h4 in
    let same : d ≡ c = ok_injective h5 in
    (f.0, r ∙ ap ok same, ap (validate_mode lib mode) (sym same) ∙ v)

checked :
    (lib : Library) (mode : ConfigMode) (c : Config)
    → mode ≢ config_agent
    → validate_mode lib mode c ≡ ok tt
    → (validate_common lib c ≡ ok tt) × (validate_server lib c ≡ ok tt)
unfolding validate_mode
checked lib config_agent c n h = absurd (n refl)
checked lib config_all c n h =
    let (_, common, h1) = >>=-eq-ok (validate_common lib c) _ h in
    let (_, server, h2) = >>=-eq-ok (validate_server lib c) _ h1 in (common, server)
checked lib config_server c n h =
    let (_, common, h1) = >>=-eq-ok (validate_common lib c) _ h in
    let (_, server, h2) = >>=-eq-ok (validate_server lib c) _ h1 in (common, server)

pub limits :
    (lib : Library) (c : Config)
    → validate_common lib c ≡ ok tt
    → (0 < c.sync_max_message_bytes) × (0 < c.sync_max_in_flight)
unfolding validate_common
limits lib c h = (ground arith, ground arith)

-- A configuration that LoadServerConfig or LoadConfig returns, whatever the environment and the
-- flags, is one that the server can run with: the numbers are positive, the router ID and the next
-- hops are of the right family, the listen ranges are canonical and there is one, the limits of the
-- transport are positive, and without the flag for insecure listening the dashboard and the transport
-- listen on loopback addresses only. The address that BGP listens on need not be a loopback
-- address.
pub load_config-IsServable :
    (lib : Library) (getenv : String → String) (parse : ParseFlags) (mode : ConfigMode) (c : Config)
    → mode ≢ config_agent
    → load_config lib getenv parse mode ≡ ok c
    → IsServable lib c
      × (is4 c.rtbh_next_hop_v4 ≡ true)
      × (is4 c.rtbh_next_hop_v6 ≡ false)
      × (0 < c.sync_max_message_bytes)
      × (0 < c.sync_max_in_flight)
load_config-IsServable lib getenv parse mode c n h =
    let (f, r, v) = loaded lib getenv parse mode c h in
    let (common, server) = checked lib mode c n v in
    let s = validate_server-IsServable lib c server in
    let (v4, v6) = read_flags_next_hops lib f c r s.router in
    let (bytes, flight) = limits lib c common in (s, v4, v6, bytes, flight)

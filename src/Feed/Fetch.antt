-- ===== src/Feed/Fetch.antt =====
-- Fetch, ValidatePublicURL and publicHTTPClient of internal/feed/feed.go: which addresses the fetching
-- of a feed connects to. URL parsing, name resolution and HTTP are parameters.
use rtbh_panel.Common.{
  ℕ, ◌+◌, String, Bool, true, false, not, ◌||◌, ◌≡◌, Option, none, some, List, [], ◌∷◌,
  if◌then◌else◌, str_eq, leb, ◌==◌,
}
use rtbh_panel.Common.Lists.{All, member}
use rtbh_panel.Common.Results.{Attempt, ok, err, ◌>>=◌, check, require}
use rtbh_panel.Net.Addr.{Addr}
use rtbh_panel.Net.Prefix.{Prefix, discrete, masked}
use rtbh_panel.Feed.Parse.{Line, parse_list, expand_ip_v4_to_slash32}
use rtbh_panel.Feed.Public.{AddrClasses, all_public, resolves_public}

pub data FetchError : Type 0 where
  bad_url unresolved not_public bad_request download_failed bad_source open_failed read_failed :
      FetchError
  bad_status : ℕ → FetchError

pub data DialError : Type 0 where
  bad_destination unresolved_host not_public_host dial_failed : DialError

pub record Url : Type 0 where
  pub scheme : String
  pub hostname : String
  pub has_user : Bool

-- strings.TrimSpace, url.Parse, net.SplitHostPort, and LookupNetIP. What a name resolves to may
-- change from one lookup to the next: the first argument is the moment.
pub record Net : Type 0 where
  pub classes : AddrClasses
  pub trim_space : String → String
  pub parse_url : String → Option Url
  pub split_host_port : String → Option (String × String)
  pub lookup_net_ip : ℕ → String → Option (List Addr)
  pub dials : Addr → String → Bool

-- A response: its status and the lines of its body, which may fail to be read.
pub record Response : Type 0 where
  pub status_code : ℕ
  pub lines : List Line
  pub read_error : Bool

abbrev pub is_http : Url → Bool
is_http u = str_eq u.scheme "http" || str_eq u.scheme "https"

abbrev pub bad_format : Option Url → Bool
bad_format none = true
bad_format (some u) = not (is_http u) || (str_eq u.hostname "" || u.has_user)

-- validateURLFormat
unfoldable pub validate_url_format : Net → String → Attempt FetchError String
validate_url_format net raw =
    let normalized = net.trim_space raw in
    if bad_format (net.parse_url normalized) then err bad_url else ok normalized

abbrev hostname_of : Option Url → String
hostname_of none = ""
hostname_of (some u) = u.hostname

abbrev checked_hosts : Net → Option (List Addr) → Attempt FetchError (Unit {0})
checked_hosts net none = err unresolved
checked_hosts net (some addresses) = check (resolves_public net.classes addresses) not_public

-- ValidatePublicURL
unfoldable pub validate_public_url : Net → ℕ → String → Attempt FetchError (Unit {0})
validate_public_url net moment raw = do
  normalized ← validate_url_format net raw
  checked_hosts net (net.lookup_net_ip moment (hostname_of (net.parse_url normalized)))

abbrev pub dial_first : Net → String → List Addr → Attempt DialError Addr
dial_first net port [] = err not_public_host
dial_first net port (a ∷ rest) =
    if not (all_public net.classes (a ∷ rest))
    then err not_public_host
    else if net.dials a port
    then ok a
    else err dial_failed

abbrev pub dial_host : Net → ℕ → String × String → Attempt DialError Addr
dial_host net moment (host, port) = do
  addresses ← require unresolved_host (net.lookup_net_ip moment host)
  dial_first net port addresses

-- DialContext of the transport of publicHTTPClient: the address that it connects to.
unfoldable pub dial_context : Net → ℕ → String → Attempt DialError Addr
dial_context net moment address = do
  split ← require bad_destination (net.split_host_port address)
  dial_host net moment split

-- CheckRedirect of publicHTTPClient; `via` is how many requests were made.
unfoldable pub check_redirect : Net → ℕ → ℕ → String → Bool
check_redirect net moment via target =
    if leb 10 via
    then false
    else elim (validate_public_url net moment target) [ err _ ↦ false | ok _ ↦ true ]

-- http.Client.Do for a client that asks `redirects` before it follows a redirect and connects by
-- `dial` alone: the response, the targets of the redirects that it followed, and the addresses that it
-- connected to.
pub record Exchange : Type 0 where
  pub response : Option Response
  pub followed : List String
  pub connected : List Addr

abbrev pub Client : Type 0
Client = (ℕ → String → Attempt DialError Addr) → (ℕ → ℕ → String → Bool) → String → Exchange

-- The redirects after `via` requests: each one was asked for at some moment.
abbrev pub IsAsked : (ℕ → ℕ → String → Bool) → ℕ → List String → Type 0
IsAsked redirects via [] = Unit
IsAsked redirects via (target ∷ rest) =
    ((moment : ℕ) × (redirects moment via target ≡ true)) × IsAsked redirects (via + 1) rest

-- net/http's documentation: the transport makes its connections by DialContext, and CheckRedirect is
-- called before a redirect is followed, with the requests made so far.
pub record Documented (client : Client) : Type 0 where
  pub dialled :
      (dial : ℕ → String → Attempt DialError Addr) (redirects : ℕ → ℕ → String → Bool)
      (source : String)
      → All
          (λ a. (moment : ℕ) × (address : String) × (dial moment address ≡ ok a))
          (client dial redirects source).connected
  pub asked :
      (dial : ℕ → String → Attempt DialError Addr) (redirects : ℕ → ℕ → String → Bool)
      (source : String)
      → IsAsked redirects 1 (client dial redirects source).followed

module _ (net : Net) (client : Client) where
  -- client.Do with publicHTTPClient
  unfoldable pub public_do : String → Exchange
  public_do source = client (dial_context net) (check_redirect net) source

  abbrev pub parsed_body : Bool → Option Response → Attempt FetchError (List Prefix)
  parsed_body expand none = err download_failed
  parsed_body expand (some r) =
      if not (r.status_code == 200)
      then err (bad_status r.status_code)
      else require read_failed (parse_list r.read_error expand r.lines)

  -- What a Fetch returns, and the exchange that it makes, if it makes one.
  pub record Fetched : Type 0 where
    pub result : Attempt FetchError (List Prefix)
    pub exchange : Option Exchange

  abbrev pub offline : Attempt FetchError (List Prefix) → Fetched
  offline r = record { result = r; exchange = none }

  abbrev pub download : Bool → Bool → ℕ → String → Attempt FetchError (Unit {0}) → Fetched
  download makes_request expand moment source (err e) = offline (err e)
  download makes_request expand moment source (ok _) =
      if not makes_request then offline (err bad_request) else record {
        result = parsed_body expand (public_do source).response;
        exchange = some (public_do source);
      }

  abbrev pub from_file : Bool → Option (List Line × Bool) → Fetched
  from_file expand none = offline (err open_failed)
  from_file expand (some (lines, read_error)) =
      offline (require read_failed (parse_list read_error expand lines))

  abbrev pub fetch_from :
      (String → Option (List Line × Bool)) → Bool → Bool → ℕ → String → Option Url → Fetched
  fetch_from files makes_request expand moment source none = offline (err bad_source)
  fetch_from files makes_request expand moment source (some u) =
      if is_http u
      then download makes_request expand moment source (validate_public_url net moment source)
      else if not (str_eq u.scheme "")
      then offline (err bad_source)
      else from_file expand (files source)

  -- Fetch; `files` opens a file, `makes_request` whether http.NewRequestWithContext returns no error.
  unfoldable pub fetch : (String → Option (List Line × Bool)) → Bool → Bool → ℕ → String → Fetched
  fetch files makes_request expand moment raw =
      let source = net.trim_space raw in
      if str_eq source ""
      then offline (ok [])
      else fetch_from files makes_request expand moment source (net.parse_url source)

-- ExpandIPv4Slash24 and SlicesContains
unfoldable pub expand_ip_v4_slash24 : Prefix → List Prefix
expand_ip_v4_slash24 p = expand_ip_v4_to_slash32 p

unfoldable pub slices_contains : List Prefix → Prefix → Bool
slices_contains l p = member discrete (masked p) l

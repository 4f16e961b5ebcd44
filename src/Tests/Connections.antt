-- ===== src/Tests/Connections.antt =====
-- The connections of the agents, and the fetching and syncing of feeds.
use rtbh_panel.Common.{ℕ, ◌≡◌, ◌≢◌, ◌⊎◌, refl, String, true, false, none, some, List, [], ◌∷◌, ◌++◌}
use rtbh_panel.Common.Lists.{All, member}
use rtbh_panel.Common.Texts.{string_discrete}
use rtbh_panel.Common.Results.{Attempt, ok, err}
use rtbh_panel.Net.Addr.{Addr, ip4}
use rtbh_panel.Common.Lists.{member, distinct}
use rtbh_panel.Common.Assoc.{lookup}
use rtbh_panel.Policy.{blocklist, add, Mutation}
use rtbh_panel.Agent.Cursor.{missing}
use rtbh_panel.Config.Settings.{default_config}
use rtbh_panel.Server.Connections.{
  Accepting, returned, listening, Reach, here, next, accepts_first, publishes, spawn, publishing,
}
use rtbh_panel.Server.Connections.Serial.{IsSingle, reach_serial}
use rtbh_panel.Feed.Parse.{bare}
use rtbh_panel.Feed.Fetch.{Net, Client, Documented, DialError, fetch}
use rtbh_panel.Feed.Fetched.{IsPublicFetch, fetch_public}
use rtbh_panel.Feed.Manager.{FeedSource, Manager, Sync}
use rtbh_panel.Feed.Rounds
use rtbh_panel.Feed.Rounds.{synced_at, round_synced}
use rtbh_panel.Tests.Samples.{docs, system}
use rtbh_panel.Tests.Serving.{environment, ack_frames}

abbrev mutation : Mutation
mutation = record { action = add; list = blocklist; prefix = "10.0.0.0/24"; expires_at = none }

-- A connection, a change, and a round of its handler.
abbrev first : Accepting
first = spawn environment default_config ack_frames (listening 0 missing)

abbrev with_change : Accepting
with_change = publishing environment default_config mutation first

reached : Reach environment default_config (listening 0 missing) with_change
reached = next (next here (accepts_first ack_frames refl refl refl)) (publishes mutation refl)

reach_serial_example :
    IsSingle environment default_config with_change
    × ((with_change.phase ≢ returned) ⊎ (with_change.handlers ≡ []))
    × (with_change.published ≡ with_change.committed ++ with_change.queue.pending)
reach_serial_example = reach_serial environment default_config 0 missing with_change reached

-- A net in which 192.88.100.1 alone is found, and the client connects once.
abbrev net : Net
net = record {
  classes = record {
    is_global_unicast = λ a. true;
    is_private = λ a. false;
    is_loopback = λ a. false;
    is_link_local_unicast = λ a. false;
  };
  trim_space = λ t. t;
  parse_url = λ t. some (record { scheme = "https"; hostname = "feeds.example"; has_user = false });
  split_host_port = λ t. some (t, "443");
  lookup_net_ip = λ moment host. some (ip4 0x08080808 ∷ []);
  dials = λ a p. true;
}

abbrev reached_by : Attempt DialError Addr → List Addr
reached_by (ok a) = a ∷ []
reached_by (err e) = []

abbrev client : Client
client = λ dial redirects source. record {
  response =
      some (record { status_code = 200; lines = bare (some (ip4 7)) ∷ []; read_error = false });
  followed = [];
  connected = reached_by (dial 1 "feeds.example");
}

reached_by-dialled :
    (dial : ℕ → String → Attempt DialError Addr) (r : Attempt DialError Addr)
    → dial 1 "feeds.example" ≡ r
    → All (λ a. (moment : ℕ) × (address : String) × (dial moment address ≡ ok a)) (reached_by r)
reached_by-dialled dial (ok a) h = ((1, "feeds.example", h), tt)
reached_by-dialled dial (err e) h = tt

abbrev documented : Documented client
documented = record {
  dialled = λ dial redirects source. reached_by-dialled dial (dial 1 "feeds.example") refl;
  asked = λ dial redirects source. tt;
}

fetch_public_example :
    IsPublicFetch net client documented 0 "https://feeds.example/list"
      (fetch net client (λ path. none) true false 0 "https://feeds.example/list")
fetch_public_example =
    fetch_public net client documented (λ path. none) true false 0 "https://feeds.example/list"

abbrev source : FeedSource
source = record {
  id = "feed-1";
  name = "Feed";
  list = blocklist;
  url = "https://example.com/list";
  interval = some 900;
  enabled = true;
  last_sync = 7;
  prefix_count = 0;
  last_error = "";
  expand_subnets = false;
  prefixes = [];
}

abbrev manager : Manager
manager = record { has_path = false; file = none; sources = ("feed-1", source) ∷ []; woken = false }

abbrev sync : String → Sync
sync id = record {
  now = 1000;
  fetched = some (docs ∷ []);
  fetch_error = "";
  print = system.print;
  handler_error = none;
  writes_first = true;
  writes_second = true;
}

round_synced_example : synced_at "feed-1" (Rounds.round 999 sync manager).1 ≡ some 1000
unfolding lookup member distinct string_discrete
round_synced_example = round_synced 999 sync manager "feed-1" refl

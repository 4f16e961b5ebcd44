-- ===== src/Tests/Edges.antt =====
-- The engine, the feeds and the dashboard.
use rtbh_panel.Common.{
  ℕ_discrete, ℕ, suc, ◌<◌, ◌≡◌, ◌⊎◌, inr, refl, true, false, none, some, [], ◌∷◌, arith, is_some,
}
use rtbh_panel.Common.Lists.{length, any}
use rtbh_panel.Common.Assoc.{lookup}
use rtbh_panel.Common.Texts.{string_discrete}
use rtbh_panel.Net.Addr.{ip4}
use rtbh_panel.Net.Prefix.{p4, contains, masked, discrete}
use rtbh_panel.Policy.{Time, blocklist, add, remove}
use rtbh_panel.Adapter.{canonical}
use rtbh_panel.Feed.Parse.{expand_ip_v4_to_slash32}
use rtbh_panel.Feed.Expand.{expand_ip_v4_to_slash32_covers}
use rtbh_panel.Feed.Manager.{FeedSource, Manager, Sync, sync_feed, delete}
use rtbh_panel.Feed.Diff.{sync_feed_after_delete}
use rtbh_panel.Dashboard.{mutate_policy, Backend, Texts, handle_mutate, serve_http}
use rtbh_panel.Dashboard.Guards.{serve_http_unchanged, handle_mutate_accepted}
use rtbh_panel.Tests.Samples.{docs, system}

expand_ip_v4_to_slash32_covers_example :
    (length (expand_ip_v4_to_slash32 (p4 0x0a000007 30)) ≡ 4)
    × (any (λ h. contains h (ip4 0x0a000006)) (expand_ip_v4_to_slash32 (p4 0x0a000007 30))
        ≡ contains (p4 0x0a000007 30) (ip4 0x0a000006))
expand_ip_v4_to_slash32_covers_example =
    expand_ip_v4_to_slash32_covers 0x0a000007 30 0x0a000006 (ground arith) (ground arith)
      (ground arith)

abbrev source : FeedSource
source = record {
  id = "feed-1";
  name = "Feed";
  list = blocklist;
  url = "https://example.com/list";
  interval = some 900;
  enabled = true;
  last_sync = 0;
  prefix_count = 1;
  last_error = "";
  expand_subnets = false;
  prefixes = "10.0.0.0/24" ∷ [];
}

abbrev manager : Manager
manager = record { has_path = false; file = none; sources = ("feed-1", source) ∷ []; woken = false }

abbrev sync : Sync
sync = record {
  now = 5;
  fetched = some (docs ∷ []);
  fetch_error = "";
  print = system.print;
  handler_error = none;
  writes_first = true;
  writes_second = true;
}

sync_feed_after_delete_example :
    (is_some (lookup string_discrete "feed-1" (delete true "feed-1" manager).1.sources) ≡ false)
    × (is_some (
          lookup string_discrete "feed-1"
            (sync_feed sync "feed-1" manager (delete true "feed-1" manager).1).manager.sources)
        ≡ true)
unfolding lookup string_discrete
sync_feed_after_delete_example = sync_feed_after_delete sync "feed-1" manager true refl

-- A backend that counts the calls.
abbrev backend : Backend ℕ
backend = record { update_config = λ c n. (true, suc n); mutate = λ m n. (true, suc n) }

abbrev texts : Texts
texts = record { is_blank = λ t. false; parse_addr = λ t. none }

serve_http_unchanged_example :
    (serve_http backend system texts true
      (mutate_policy blocklist add "10.0.0.0/24" false none)
      3).1
    ≡ 3
serve_http_unchanged_example =
    serve_http_unchanged backend system texts true
      (mutate_policy blocklist add "10.0.0.0/24" false none) 3 (inr (refl, refl))

handle_mutate_accepted_example :
    (is_some (canonical system "10.0.0.0/24") ≡ true)
    × ((add ≡ add) ⊎ (add ≡ remove))
    × ((t : Time) → some 9 ≡ some t → (blocklist ≡ blocklist) × (add ≡ add) × (5 < t))
unfolding handle_mutate canonical masked discrete ℕ_discrete
handle_mutate_accepted_example =
    handle_mutate_accepted backend system texts blocklist add "10.0.0.0/24" true (some 9) 3 refl

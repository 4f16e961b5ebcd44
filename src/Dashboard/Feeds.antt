-- ===== src/Dashboard/Feeds.antt =====
-- The requests of internal/dashboard/http.go for feeds, and the page of policies that a request asks
-- for.
use rtbh_panel.Common.{
  ℕ, String, Bool, true, false, not, ◌==◌, ◌≡◌, refl, some, List, if◌then◌else◌, str_eq, arith, ◌⊎◌,
  inl, inr, Bool-cases, Option-cases, [], ◌∷◌,
}
use rtbh_panel.Net.Addr.{Addr}
use rtbh_panel.Policy.{PolicyList, valid_list}
use rtbh_panel.Feed.Public.{is_public_ip, all_public, resolves_public}
use rtbh_panel.Feed.Fetch.{Net, Url, is_http, bad_format, validate_url_format, validate_public_url}
use rtbh_panel.Common.Lists.{All}
use rtbh_panel.Common.Results.{ok, err}
use text.Mathlib.TextEquality.{eq_iff}
use rtbh_panel.Backend.Feeds.{SourceFeed}

-- ValidatePublicURL at the moment of a request.
abbrev pub is_public : Net → ℕ → String → Bool
is_public net moment url = elim (validate_public_url net moment url) [ err _ ↦ false | ok _ ↦ true ]

-- A URL that may be given for a feed: an HTTP or HTTPS URL with a host and without userinfo, whose
-- host resolves at the moment, to one address at least, and to public ones alone.
pub record IsPublicUrl (net : Net) (moment : ℕ) (raw : String) : Type 0 where
  pub url : Url
  pub parsed : net.parse_url (net.trim_space raw) ≡ some url
  pub scheme : (url.scheme ≡ "http") ⊎ (url.scheme ≡ "https")
  pub host : str_eq url.hostname "" ≡ false
  pub no_user : url.has_user ≡ false
  pub address : Addr
  pub others : List Addr
  pub resolved : net.lookup_net_ip moment url.hostname ≡ some (address ∷ others)
  pub public : All (λ a. is_public_ip net.classes a ≡ true) (address ∷ others)

all_public-All :
    (net : Net) (l : List Addr)
    → all_public net.classes l ≡ true
    → All (λ a. is_public_ip net.classes a ≡ true) l
unfolding all_public
all_public-All net [] h = tt
all_public-All net (a ∷ l) h = (ground arith, all_public-All net l (ground arith))

http_scheme : (u : Url) → is_http u ≡ true → (u.scheme ≡ "http") ⊎ (u.scheme ≡ "https")
http_scheme u h = elim (Bool-cases (str_eq u.scheme "http")) [
  | inl plain ↦ inl ((eq_iff u.scheme "http").0 plain)
  | inr not_plain ↦ inr ((eq_iff u.scheme "https").0 (ground arith))
]

is_public-IsPublicUrl :
    (net : Net) (moment : ℕ) (raw : String)
    → is_public net moment raw ≡ true
    → IsPublicUrl net moment raw
unfolding validate_public_url validate_url_format resolves_public
is_public-IsPublicUrl net moment raw h = elim (Option-cases (net.parse_url (net.trim_space raw))) [
  | inl n ↦ absurd (ground arith)
  | inr (u, parsed) ↦ elim (Bool-cases (bad_format (some u))) [
    | inl bad ↦ absurd (ground arith)
    | inr good ↦ elim (Option-cases (net.lookup_net_ip moment u.hostname)) [
      | inl lost ↦ absurd (ground arith)
      | inr ([], found) ↦ absurd (ground arith)
      | inr (a ∷ l, found) ↦ record {
        url = u;
        parsed = parsed;
        scheme = http_scheme u (ground arith);
        host = ground arith;
        no_user = ground arith;
        address = a;
        others = l;
        resolved = found;
        public = all_public-All net (a ∷ l) (ground arith);
      }
    ]
  ]
]

-- FeedImporter and FeedManagerBackend, which the dashboard's backend implements. Each call says if it
-- returned no error.
pub record FeedBackend (B : Type 0) : Type 0 where
  pub import_feed : PolicyList → String → Bool → Bool → B → Bool × B
  pub save_feed : SourceFeed → B → Bool × B
  pub delete_feed : String → B → Bool × B
  pub sync_feed : String → B → Bool × B

-- A body that does not decode is `undecodable`.
pub data FeedRequest : Type 0 where
  imports : PolicyList → String → Bool → Bool → FeedRequest
  saves : SourceFeed → FeedRequest
  deletes : String → FeedRequest
  syncs : String → FeedRequest
  undecodable : FeedRequest

-- The answer where an error of the backend has the given status.
abbrev answered : {B : Type 0} → ℕ → Bool × B → ℕ × B
answered status (true, b) = (200, b)
answered status (false, b) = (status, b)

module _ {B : Type 0} (backend : FeedBackend B) (net : Net) (moment : ℕ) where
  -- importFeed
  unfoldable pub handle_import : PolicyList → String → Bool → Bool → B → ℕ × B
  handle_import list source expand applying b =
      if not (valid_list list)
      then (400, b)
      else if str_eq (net.trim_space source) ""
      then (400, b)
      else if not (is_public net moment source)
      then (400, b)
      else answered 500 (backend.import_feed list source expand applying b)

  -- saveFeed
  unfoldable pub handle_save : SourceFeed → B → ℕ × B
  handle_save feed b =
      if not (is_public net moment feed.url)
      then (400, b)
      else answered 400 (backend.save_feed feed b)

  -- deleteFeed
  unfoldable pub handle_delete : String → B → ℕ × B
  handle_delete id b = if str_eq id "" then (400, b) else answered 500 (backend.delete_feed id b)

  -- syncFeed
  unfoldable pub handle_sync_feed : String → B → ℕ × B
  handle_sync_feed id b = if str_eq id "" then (400, b) else answered 500 (backend.sync_feed id b)

  unfoldable pub serve_feeds : Bool → FeedRequest → B → ℕ × B
  serve_feeds authorized request b = if not authorized then (401, b) else elim request [
    | imports list source expand applying ↦ handle_import list source expand applying b
    | saves feed ↦ handle_save feed b
    | deletes id ↦ handle_delete id b
    | syncs id ↦ handle_sync_feed id b
    | undecodable ↦ (400, b)
  ]

  -- The checks of a request.
  abbrev pub IsAllowed : FeedRequest → Type 0
  IsAllowed (imports list source expand applying) =
      (valid_list list ≡ true) × IsPublicUrl net moment source
  IsAllowed (saves feed) = IsPublicUrl net moment feed.url
  IsAllowed (deletes id) = str_eq id "" ≡ false
  IsAllowed (syncs id) = str_eq id "" ≡ false
  IsAllowed undecodable = ⊥

  -- A request for feeds leaves the backend as it is, unless it is authorized and its checks hold: the
  -- URL of a feed that is imported or saved is an HTTP or HTTPS URL with a host and without userinfo,
  -- whose host resolves to public addresses alone, and to one at least; an import is into one of the
  -- two lists; and a feed that is deleted or synchronized has an id.
  pub serve_feeds-IsAllowed :
      (authorized : Bool) (request : FeedRequest) (b : B)
      → ((serve_feeds authorized request b).1 ≡ b) ⊎ ((authorized ≡ true) × IsAllowed request)
  unfolding serve_feeds handle_import handle_save handle_delete handle_sync_feed
  serve_feeds-IsAllowed false request b = inl refl
  serve_feeds-IsAllowed true (imports list source expand applying) b =
      elim (Bool-cases (valid_list list)) [
        | inr bad ↦ inl (ground arith)
        | inl known ↦ elim (Bool-cases (str_eq (net.trim_space source) "")) [
          | inl blank ↦ inl (ground arith)
          | inr shown ↦ elim (Bool-cases (is_public net moment source)) [
            | inr private ↦ inl (ground arith)
            | inl reachable ↦ inr (refl, (known, is_public-IsPublicUrl net moment source reachable))
          ]
        ]
      ]
  serve_feeds-IsAllowed true (saves feed) b = elim (Bool-cases (is_public net moment feed.url)) [
    | inr private ↦ inl (ground arith)
    | inl reachable ↦ inr (refl, is_public-IsPublicUrl net moment feed.url reachable)
  ]
  serve_feeds-IsAllowed true (deletes id) b = elim (Bool-cases (str_eq id "")) [
    | inl empty ↦ inl (ground arith)
    | inr given ↦ inr (refl, given)
  ]
  serve_feeds-IsAllowed true (syncs id) b = elim (Bool-cases (str_eq id "")) [
    | inl empty ↦ inl (ground arith)
    | inr given ↦ inr (refl, given)
  ]
  serve_feeds-IsAllowed true undecodable b = inl refl

-- The list, page and limit that getPolicies asks the backend for, of the texts of the query.
-- `atoi` is the number that strconv.Atoi returns, with an error or without; one below 0 is 0.
pub record Query : Type 0 where
  pub list : String
  pub search : String
  pub page : ℕ
  pub limit : ℕ

abbrev at_least_one : ℕ → ℕ → ℕ
at_least_one default n = if n == 0 then default else n

unfoldable pub policies_query : (String → ℕ) → String → String → String → String → Query
policies_query atoi list search page limit = record {
  list = if str_eq list "" then "blocklist" else list;
  search = search;
  page = at_least_one 1 (atoi page);
  limit = at_least_one 25 (atoi limit);
}

-- ===== src/Dashboard/Routing.antt =====
-- NewHandler, ServeHTTP and the requests of internal/dashboard/http.go that only read: which handler a
-- request comes to, the static files, and the decoding of a body. net/http's ServeMux prefers an exact
-- pattern, then the longest subtree; a GET pattern takes HEAD as well. It redirects a path that path.Clean
-- changes before it looks for a handler; paths here are clean ones.
use rtbh_panel.Common.{
  ℕ, String, Bool, true, false, not, ◌&&◌, ◌||◌, ◌≡◌, refl, ◌∙◌, ap, Option, none, some, List, [],
  ◌∷◌, ◌++◌, if◌then◌else◌, str_eq, arith, Bool-cases, Option-cases, inl, inr, ◌⊎◌,
}
use Prim.Native.String.{slice, ◌++◌ as append}
use text.Mathlib.TextEquality.{eq_iff}
use rtbh_panel.Common.Results.{Attempt, ok, err}

pub data Method : Type 0 where
  get head put post : Method
  other : String → Method

-- The handlers.
pub data Endpoint : Type 0 where
  get_config put_config get_peers block whitelist import_feed get_feeds save_feed delete_feed
        sync_feed bulk_delete_policies get_policies :
      Endpoint

pub record Pattern : Type 0 where
  pub method : Method
  pub path : String
  pub endpoint : Endpoint

-- The patterns for one prefix.
abbrev pub patterns_for : String → List Pattern
patterns_for prefix =
    record { method = get; path = append prefix "/config"; endpoint = get_config }
    ∷ record { method = put; path = append prefix "/config"; endpoint = put_config }
    ∷ record { method = get; path = append prefix "/peers"; endpoint = get_peers }
    ∷ record { method = post; path = append prefix "/block"; endpoint = block }
    ∷ record { method = post; path = append prefix "/whitelist"; endpoint = whitelist }
    ∷ record { method = post; path = append prefix "/feed"; endpoint = import_feed }
    ∷ record { method = get; path = append prefix "/feeds"; endpoint = get_feeds }
    ∷ record { method = post; path = append prefix "/feeds"; endpoint = save_feed }
    ∷ record { method = post; path = append prefix "/feeds/delete"; endpoint = delete_feed }
    ∷ record { method = post; path = append prefix "/feeds/sync"; endpoint = sync_feed }
    ∷ record {
      method = post;
      path = append prefix "/policies/bulk-delete";
      endpoint = bulk_delete_policies;
    }
    ∷ record { method = get; path = append prefix "/policies"; endpoint = get_policies }
    ∷ []

abbrev pub patterns : List Pattern
patterns = patterns_for "/api" ++ patterns_for "/api/v1"

-- strings.HasPrefix(r.URL.Path, "/api/")
unfoldable pub is_api : String → Bool
is_api path = str_eq (slice path 0 5) "/api/"

abbrev matches_method : Method → Method → Bool
matches_method get get = true
matches_method get head = true
matches_method put put = true
matches_method post post = true
matches_method _ _ = false

-- The first pattern that matches the method and the path. No two patterns have the same of both.
unfoldable pub find_pattern : List Pattern → Method → String → Option Endpoint
find_pattern [] m path = none
find_pattern (p ∷ rest) m path =
    if str_eq path p.path && matches_method p.method m
    then some p.endpoint
    else find_pattern rest m path

-- Where a request ends: the answer 401, a handler, the 404 of "GET /api/", the static files of
-- "GET /", or the 405 of the mux.
pub data Destination : Type 0 where
  unauthorized not_found static not_allowed : Destination
  handled : Endpoint → Destination

-- h.mux.ServeHTTP
unfoldable pub dispatch : Method → String → Destination
dispatch m path = elim (find_pattern patterns m path) [
  | some e ↦ handled e
  | none ↦
      if not (matches_method get m) then not_allowed else if is_api path then not_found else static
]

abbrev pub allows : Option Bool → Bool
allows none = false
allows (some b) = b

-- ServeHTTP; `authorize` is none for an Authorizer that is nil.
unfoldable pub serve : Bool → Option Bool → Method → String → Destination
serve has_backend authorize m path =
    if not has_backend || (is_api path && not (allows authorize))
    then unauthorized
    else dispatch m path

-- Every pattern's path begins with /api/.
abbrev are_api : List Pattern → Bool
are_api [] = true
are_api (p ∷ rest) = is_api p.path && are_api rest

patterns_api : are_api patterns ≡ true
unfolding is_api
patterns_api = refl

find_pattern_api :
    (l : List Pattern) (m : Method) (path : String) (e : Endpoint)
    → are_api l ≡ true
    → find_pattern l m path ≡ some e
    → is_api path ≡ true
unfolding find_pattern
find_pattern_api [] m path e k h = absurd (ground arith)
find_pattern_api (p ∷ rest) m path e k h = elim (Bool-cases (str_eq path p.path)) [
  | inl same ↦
      ap is_api ((eq_iff path p.path).0 same)
      ∙ (let first : is_api p.path ≡ true = ground arith in first)
  | inr differs ↦ find_pattern_api rest m path e (ground arith) (ground arith)
]

-- One of the patterns has the path, takes the method and names the handler.
pub IsRouted : List Pattern → Method → String → Endpoint → Type 0
IsRouted [] m path e = ⊥
IsRouted (p ∷ rest) m path e =
    ((path ≡ p.path) × (matches_method p.method m ≡ true) × (p.endpoint ≡ e))
    ⊎ IsRouted rest m path e

find_pattern-IsRouted :
    (l : List Pattern) (m : Method) (path : String) (e : Endpoint)
    → find_pattern l m path ≡ some e
    → IsRouted l m path e
unfolding find_pattern IsRouted
find_pattern-IsRouted [] m path e h = absurd (ground arith)
find_pattern-IsRouted (p ∷ rest) m path e h =
    elim (Bool-cases (str_eq path p.path && matches_method p.method m)) [
      | inl same ↦
          let same_path : str_eq path p.path ≡ true = ground arith in
          inl ((eq_iff path p.path).0 same_path, ground arith, ground arith)
      | inr differs ↦ inr (find_pattern-IsRouted rest m path e (ground arith))
    ]

-- A request comes to a handler of the interface only if there is a backend, the request is
-- authorized, and one of the patterns that NewHandler registers has its path, takes its method and
-- names the handler.
pub serve-IsRouted :
    (has_backend : Bool) (authorize : Option Bool) (m : Method) (path : String) (e : Endpoint)
    → serve has_backend authorize m path ≡ handled e
    → (has_backend ≡ true) × (authorize ≡ some true) × IsRouted patterns m path e
unfolding serve dispatch
serve-IsRouted has_backend authorize m path e h =
    elim (Option-cases (find_pattern patterns m path)) [
      | inl n ↦ absurd (ground arith)
      | inr (f, n) ↦
          let api = find_pattern_api patterns m path f patterns_api n in
          elim (Option-cases authorize) [
            | inl a ↦ absurd (ground arith)
            | inr (b, a) ↦
                let found : find_pattern patterns m path ≡ some e = ground arith in
                (ground arith, ground arith, find_pattern-IsRouted patterns m path e found)
          ]
    ]

-- index: the page without static files, or the file of a path that path.Clean and TrimPrefix have
-- made a name of.
pub data Served : Type 0 where
  plain_page missing : Served
  file : String → Served

pub record Static : Type 0 where
  pub exists : String → Bool
  pub ext : String → String

abbrev index_name : String → String
index_name name = if str_eq name "." || str_eq name "" then "index.html" else name

unfoldable pub index : Option Static → String → Served
index none name = plain_page
index (some files) name =
    if files.exists (index_name name)
    then file (index_name name)
    else if not (str_eq (files.ext (index_name name)) "")
    then missing
    else file "index.html"

-- What json.Decoder gives of a body of at most 1 MB: the value, and whether the text ends after it.
pub record Body (A : Type 0) : Type 0 where
  pub value : Option A
  pub ends : Bool

pub data BodyError : Type 0 where
  invalid_json not_one_value : BodyError

-- decodeJSON
unfoldable pub decode_json : {A : Type 0} → Body A → Attempt BodyError A
decode_json b = elim b.value [
  | none ↦ err invalid_json
  | some a ↦ if b.ends then ok a else err not_one_value
]

-- The status of a read of the backend: getConfig and getPeers.
unfoldable pub read_status : {A : Type 0} → Option A → ℕ
read_status none = 500
read_status (some a) = 200

-- getFeeds: a backend without feeds, or one that returns nil, shows the empty list; an error shows
-- none.
unfoldable pub show_feeds : {A : Type 0} → Bool → Option (Option (List A)) → ℕ × Option (List A)
show_feeds false feeds = (200, some [])
show_feeds true none = (500, none)
show_feeds true (some none) = (200, some [])
show_feeds true (some (some l)) = (200, some l)

-- ===== src/Backend/Listing.antt =====
-- ListPolicies of dashboardBackend: a page of the policies.
use rtbh_panel.Common.{
  ℕ, ◌+◌, ◌-◌, ◌*◌, ◌%◌, ◌^◌, String, Bool, ◌||◌, leb, ltb, Option, none, some, List, map,
  if◌then◌else◌, str_eq,
}
use rtbh_panel.Common.Lists.{length, filter, take, drop}
use rtbh_panel.Common.Results.{ok, ◌>>=◌}
use rtbh_panel.PolicyStore.State.{Store}
use rtbh_panel.Net.Prefix.{Prefix}
use rtbh_panel.Feed.Manager.{Manager}
use rtbh_panel.Feed.Open.{prefix_source}
use rtbh_panel.Sql.Tables.{Database}
use rtbh_panel.Sql.Sync.{Driver, Attempted}
use rtbh_panel.Sql.Policies
use rtbh_panel.Sql.Policies.{Queries, list_policies_paginated, at_least_one}

pub record PolicyItem : Type 0 where
  pub prefix : String
  pub list : String
  pub source : String

-- PaginatedPolicies
pub record Page : Type 0 where
  pub page : ℕ
  pub limit : ℕ
  pub total : ℕ
  pub total_pages : ℕ
  pub items : List PolicyItem

-- What a listing asks of Go's library: the text of a prefix, strings.TrimSpace, strings.ToLower,
-- strings.Contains, and the quotient of two ints by way of float64 and math.Ceil.
pub record Library : Type 0 where
  pub print : Prefix → String
  pub trim_space : String → String
  pub to_lower : String → String
  pub contains : String → String → Bool
  pub ceil_div : ℕ → ℕ → ℕ

abbrev page_item : Policies.PolicyItem → PolicyItem
page_item it = record { prefix = it.prefix; list = it.list; source = it.source }

abbrev sql_page : Library → ℕ → ℕ → List Policies.PolicyItem × ℕ → Page
sql_page lib page limit (items, total) = record {
  page = page;
  limit = limit;
  total = total;
  total_pages = if ltb 0 limit then lib.ceil_div total limit else 0;
  items = map page_item items;
}

-- The branch with an SQL store. A page or a limit below 1 is 0.
unfoldable pub list_sql :
    Library → Driver → Queries → String → String → ℕ → ℕ → Database → Attempted Page
list_sql lib driver q list search page limit db =
    list_policies_paginated driver q list search page limit db >>= λ found.
    ok (sql_page lib page limit found)

-- An int64 is written as its residue modulo 2 ^ 64.
abbrev is_negative : ℕ → Bool
is_negative n = leb (2 ^ 63) n

-- if start > total { start = total }
abbrev pub clamp : ℕ → ℕ → ℕ
clamp total n = if is_negative n then n else if ltb total n then total else n

-- filtered[start:end], for an end up to the length; `none` is a panic.
unfoldable pub slice {ℓ} : {A : Type ℓ} → ℕ → ℕ → List A → Option (List A)
slice start end l =
    if is_negative start || (is_negative end || ltb end start)
    then none
    else some (take (end - start) (drop start l))

abbrev pub page_start : ℕ → ℕ → ℕ
page_start page limit = ((page - 1) * limit) % 2 ^ 64

abbrev pub page_end : ℕ → ℕ → ℕ
page_end page limit = (page_start page limit + limit) % 2 ^ 64

abbrev matches : Library → String → String → Bool
matches lib query text = str_eq query "" || lib.contains (lib.to_lower text) query

-- The policies that a listing selects: targetList is the whitelist only for its name.
unfoldable pub selected : Library → String → String → Store → List String
selected lib list search s =
    let all = map lib.print (if str_eq list "whitelist" then s.whitelist else s.blocklist) in
    filter (matches lib (lib.to_lower (lib.trim_space search))) all

abbrev source_name : Option String → String
source_name none = "Manual"
source_name (some name) = name

abbrev source_of : Option Manager → String → String
source_of none p = "Manual"
source_of (some m) p = source_name (prefix_source p m.sources)

abbrev pub item_of : Option Manager → String → String → PolicyItem
item_of feeds list p = record { prefix = p; list = list; source = source_of feeds p }

abbrev page_of : Library → Option Manager → String → ℕ → ℕ → ℕ → List String → Page
page_of lib feeds list page limit total shown = record {
  page = page;
  limit = limit;
  total = total;
  total_pages = lib.ceil_div total limit;
  items = map (item_of feeds list) shown;
}

abbrev pub shown_page :
    Library → Option Manager → String → ℕ → ℕ → ℕ → Option (List String) → Option Page
shown_page lib feeds list page limit total none = none
shown_page lib feeds list page limit total (some shown) =
    some (page_of lib feeds list page limit total shown)

-- From the bounds of the page on; `none` is a panic.
unfoldable pub show_page : Library → Option Manager → String → List String → ℕ → ℕ → Option Page
show_page lib feeds list filtered page limit =
    let total = length filtered in
    shown_page lib feeds list page limit total
      (slice (clamp total (page_start page limit)) (clamp total (page_end page limit)) filtered)

-- The branch in memory.
unfoldable pub list_memory :
    Library → Option Manager → String → String → ℕ → ℕ → Store → Option Page
list_memory lib feeds list search page limit s =
    show_page lib feeds list (selected lib list search s) (at_least_one 1 page)
      (at_least_one 25 limit)

-- ===== src/Feed/Open.antt =====
-- OpenManager, and the reads of the manager: List, Get and PrefixSource.
use rtbh_panel.Common.{
  String, Bool, true, false, Option, none, some, List, [], ◌∷◌, map, if◌then◌else◌, str_eq,
}
use rtbh_panel.Common.Lists.{member}
use rtbh_panel.Common.Assoc.{lookup, insert}
use rtbh_panel.Common.Texts.{string_discrete}
use rtbh_panel.Feed.Manager.{FeedSource, Sources, Manager}

-- What reading the file of the manager gives.
pub data File : Type 0 where
  missing unreadable malformed : File
  content : List FeedSource → File

abbrev pub new_manager : Bool → Option Sources → Sources → Manager
new_manager has_path file sources = record {
  has_path = has_path;
  file = file;
  sources = sources;
  woken = false;
}

-- m.sources[s.ID] = s, for each source in turn
unfoldable pub with_sources : List FeedSource → Sources → Sources
with_sources [] sources = sources
with_sources (s ∷ rest) sources = with_sources rest (insert string_discrete s.id s sources)

-- OpenManager; `none` is an error.
unfoldable pub open_manager : String → File → Option Manager
open_manager path file = if str_eq path "" then some (new_manager false none []) else elim file [
  | missing ↦ some (new_manager true none [])
  | unreadable ↦ none
  | malformed ↦ none
  | content list ↦ some (new_manager true (some (with_sources list [])) (with_sources list []))
]

-- List; the order of the map is any.
abbrev pub list : Manager → List FeedSource
list m = map (λ entry. entry.1) m.sources

abbrev pub get : String → Manager → Option FeedSource
get id m = lookup string_discrete id m.sources

-- PrefixSource, over the sources in the order of the list.
unfoldable pub prefix_source : String → Sources → Option String
prefix_source prefix [] = none
prefix_source prefix ((id, s) ∷ rest) =
    let later = prefix_source prefix rest in
    if member string_discrete prefix s.prefixes then some s.name else later

-- ===== src/Dashboard.antt =====
-- The requests of internal/dashboard/http.go that change the configuration or the policies: their
-- authorization, their checks, and the calls of the backend.
pub mod Guards
pub mod Feeds
pub mod Routing
use rtbh_panel.Common.{
  ℕ, suc, zero, ◌+◌, ◌<◌, String, Bool, true, false, not, ◌&&◌, ◌||◌, ◌==◌, ◌≡◌, refl, Option, none,
  some, List, [], ◌∷◌, if◌then◌else◌, ltb, leb, str_eq, is_some, arith, ◌⊎◌, inl, inr, Option-cases,
  Bool-cases,
}
use rtbh_panel.Common.Lists.{any}
use rtbh_panel.Net.Addr.{Addr, is4}
use rtbh_panel.Policy.{
  Time, PolicyList, blocklist, whitelist, other, Action, add, remove, replace, delete, unknown,
  Mutation, valid_list,
}
use rtbh_panel.PolicyStore.Disk.{System}
use rtbh_panel.Adapter.{canonical}

-- The fields of the dashboard's Config that validate reads. Negative counts of sessions are 0.
pub record Config : Type 0 where
  pub local_asn : ℕ
  pub router_id : String
  pub listen_ranges : List String
  pub peer_group : String
  pub allowed_asns : List ℕ
  pub max_sessions : ℕ
  pub default_policy : String

pub data Invalid : Type 0 where
  numbers_required router_id_not_ipv4 group_ranges_policy_required range_not_canonical zero_asn :
      Invalid

-- Whether strings.TrimSpace leaves nothing of a text, and netip.ParseAddr.
pub record Texts : Type 0 where
  pub is_blank : String → Bool
  pub parse_addr : String → Option Addr

abbrev is_ipv4 : Option Addr → Bool
is_ipv4 none = false
is_ipv4 (some a) = is4 a

abbrev is_empty : List String → Bool
is_empty [] = true
is_empty _ = false

-- Config.validate
unfoldable pub validate : System → Texts → Config → Option Invalid
validate sys texts c =
    if (c.local_asn == 0) || (c.max_sessions == 0)
    then some numbers_required
    else if not (is_ipv4 (texts.parse_addr c.router_id))
    then some router_id_not_ipv4
    else if texts.is_blank c.peer_group
        || (not (str_eq c.default_policy "reject") || is_empty c.listen_ranges)
    then some group_ranges_policy_required
    else if any (λ raw. not (is_some (canonical sys raw))) c.listen_ranges
    then some range_not_canonical
    else if any (λ asn. asn == 0) c.allowed_asns
    then some zero_asn
    else none

-- A body that does not decode is none of these requests. The requests for feeds stand in Feeds, and
-- those that only read are left out.
pub data Request : Type 0 where
  mutate_policy : PolicyList → Action → String → Bool → Option Time → Request
  put_config : Bool → Config → Request
  bulk_delete : PolicyList → List String → Bool → Request
  undecodable : Request

-- The dashboard's Backend, as far as these requests call it. Each call says if it returned no error.
pub record Backend (B : Type 0) : Type 0 where
  pub update_config : Config → B → Bool × B
  pub mutate : Mutation → B → Bool × B

-- BearerTokenAuthorizer, of the parts of the Authorization header around its first blank: whether the
-- scheme is Bearer, and the token. Equal SHA-256 sums are taken to mean equal tokens.
abbrev pub bearer_token_authorizer : String → Option (Bool × String) → (String → Bool) → Bool
bearer_token_authorizer token header has_blank = str_eq token "" || elim header [
  | none ↦ false
  | some (is_bearer, provided) ↦
      is_bearer && (not (str_eq provided "") && (not (has_blank provided) && str_eq provided token))
]

abbrev accepted_action : Action → Bool
accepted_action add = true
accepted_action remove = true
accepted_action _ = false

abbrev is_add : Action → Bool
is_add add = true
is_add _ = false

abbrev is_blocklist : PolicyList → Bool
is_blocklist blocklist = true
is_blocklist _ = false

abbrev future_add : Time → PolicyList → Action → Option Time → Bool
future_add now list action none = true
future_add now list action (some t) = is_blocklist list && (is_add action && ltb now t)

abbrev answered : {B : Type 0} → Bool × B → ℕ × B
answered (true, b) = (200, b)
answered (false, b) = (500, b)

module _ {B : Type 0} (backend : Backend B) (sys : System) (texts : Texts) where
  -- mutate: the status of the answer, and the backend
  unfoldable pub handle_mutate : PolicyList → Action → String → Bool → Option Time → B → ℕ × B
  handle_mutate list action prefix apply expires b =
      if not (is_some (canonical sys prefix)) || not (accepted_action action)
      then (400, b)
      else if not (future_add sys.now list action expires)
      then (400, b)
      else if apply
      then answered (
          backend.mutate
            (record { action = action; list = list; prefix = prefix; expires_at = expires }) b)
      else (200, b)

  -- putConfig
  unfoldable pub handle_put_config : Bool → Config → B → ℕ × B
  handle_put_config apply config b =
      if is_some (validate sys texts config)
      then (400, b)
      else if apply
      then answered (backend.update_config config b)
      else (200, b)

  -- The loop of bulkDeletePolicies, which counts the calls without an error.
  unfoldable pub delete_each : PolicyList → List String → ℕ → B → ℕ × B
  delete_each list [] deleted b = (deleted, b)
  delete_each list (p ∷ ps) deleted b =
      let (ok, next) =
        backend.mutate (record { action = remove; list = list; prefix = p; expires_at = none }) b in
      delete_each list ps (if ok then suc deleted else deleted) next

  -- bulkDeletePolicies does not read req.Apply.
  unfoldable pub handle_bulk_delete : PolicyList → List String → Bool → B → ℕ × B
  handle_bulk_delete list prefixes apply b =
      if not (valid_list list) then (400, b) else (200, (delete_each list prefixes 0 b).1)

  abbrev dispatch : Request → B → ℕ × B
  dispatch (mutate_policy list action prefix apply expires) b =
      handle_mutate list action prefix apply expires b
  dispatch (put_config apply config) b = handle_put_config apply config b
  dispatch (bulk_delete list prefixes apply) b = handle_bulk_delete list prefixes apply b
  dispatch undecodable b = (400, b)

  -- ServeHTTP
  unfoldable pub serve_http : Bool → Request → B → ℕ × B
  serve_http authorized request b = if not authorized then (401, b) else dispatch request b

-- Whether the request asks to apply. The request to delete in bulk asks for it in a field as well.
abbrev pub asks_to_apply : Request → Bool
asks_to_apply (mutate_policy _ _ _ apply _) = apply
asks_to_apply (put_config apply _) = apply
asks_to_apply (bulk_delete _ _ apply) = apply
asks_to_apply undecodable = false

abbrev pub is_bulk_delete : Request → Bool
is_bulk_delete (bulk_delete _ _ _) = true
is_bulk_delete _ = false

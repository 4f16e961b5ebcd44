-- ===== src/Sql/Policies.antt =====
-- The rows of policies: reading them page by page, adding and removing them, counting them, and the
-- audit log.
use rtbh_panel.Common.{
  ℕ, ◌-◌, ◌*◌, ◌%◌, ◌^◌, String, Bool, not, ◌&&◌, ◌||◌, ◌==◌, leb, Option, none, some, List, [],
  ◌∷◌, ◌++◌, map, if◌then◌else◌, str_eq,
}
use rtbh_panel.Common.Lists.{length, filter, take, drop}
use rtbh_panel.Common.Results.{ok, ◌>>=◌, ◌>>◌}
use rtbh_panel.Net.Prefix.{Prefix}
use rtbh_panel.Policy.{Time}
use rtbh_panel.Sql.Tables.{
  PolicyRow, AuditRow, Database, same, has_key, policies_key, upsert_policy, list_prefixes,
}
use rtbh_panel.Sql.Sync.{
  Driver, Attempted, execute, execute_on, follow, transaction, idle, read_back, queries, prepares,
  removes_batch,
}
use rtbh_panel.Sql.Feeds.{text_of, change_tables}

pub record PolicyItem : Type 0 where
  pub prefix : String
  pub list : String
  pub source : String
  pub feed_id : String
  pub expires_at : Option Time
  pub created_at : Time

-- What a query asks of the database and of Go's library: strings.TrimSpace, the pattern of a search,
-- LIKE, ORDER BY created_at DESC, a negative OFFSET, the format RFC 3339, and netip.ParsePrefix.
pub record Queries : Type 0 where
  pub trim_space : String → String
  pub pattern : String → String
  pub like : String → String → Bool
  pub newest_first : List PolicyRow → List PolicyRow
  pub below_zero : List PolicyRow → Attempted (List PolicyRow)
  pub format_time : Time → String
  pub parse_time : String → Option Time
  pub parse_prefix : String → Option Prefix

abbrev pub scan_expiry : Queries → Option String → Option Time
scan_expiry q none = none
scan_expiry q (some text) = q.parse_time text

abbrev pub scan_policy : Queries → PolicyRow → PolicyItem
scan_policy q row = record {
  prefix = row.prefix;
  list = row.list;
  source = row.source;
  feed_id = text_of row.feed_id;
  expires_at = scan_expiry q row.expires_at;
  created_at = row.created_at;
}

-- The condition of the two queries.
abbrev pub is_listed : Queries → String → String → PolicyRow → Bool
is_listed q list search row =
    same row.list list
    && (str_eq search ""
        || (q.like row.prefix (q.pattern search) || q.like row.source (q.pattern search)))

-- LIMIT and OFFSET; an offset from 2 ^ 63 on is a negative int.
abbrev pub window : Queries → ℕ → ℕ → List PolicyRow → Attempted (List PolicyRow)
window q limit offset rows =
    if leb (2 ^ 63) offset then q.below_zero rows else ok (take limit (drop offset rows))

abbrev pub at_least_one : ℕ → ℕ → ℕ
at_least_one default n = if n == 0 then default else n

-- ListPoliciesPaginated: the items of the page, and the count of all. A page or a limit below 1 is 0.
unfoldable pub list_policies_paginated :
    Driver → Queries → String → String → ℕ → ℕ → Database → Attempted (List PolicyItem × ℕ)
list_policies_paginated driver q list search page limit db = do
  let lines = at_least_one 25 limit
  let offset = ((at_least_one 1 page - 1) * lines) % 2 ^ 64
  let found = filter (is_listed q list (q.trim_space search)) db.policies
  execute driver queries
  rows ← window q lines offset (q.newest_first found)
  ok (map (scan_policy q) rows, length found)

abbrev pub upserted : PolicyRow → Database → Database
upserted row tables = record tables {
  policies =
      upsert_policy policies_key
        (λ old. record old {
          source = row.source;
          feed_id = row.feed_id;
          expires_at = row.expires_at;
        })
        row tables.policies;
}

abbrev pub expiry_text : Queries → Option Time → Option String
expiry_text q none = none
expiry_text q (some t) = some (q.format_time t)

-- The arguments of the statement of AddPolicy.
abbrev pub policy_values :
    Driver → Queries → String → String → String → String → Option Time → PolicyRow
policy_values driver q prefix list source feed_id expires_at = record {
  prefix = prefix;
  list = list;
  source = source;
  feed_id = some feed_id;
  expires_at = expiry_text q expires_at;
  created_at = driver.now;
}

unfoldable pub add_policy :
    Driver
    → Queries
    → String
    → String
    → String
    → String
    → Option Time
    → Database
    → Attempted (Unit {0}) × Database
add_policy driver q prefix list source feed_id expires_at db =
    change_tables driver (upserted (policy_values driver q prefix list source feed_id expires_at))
      db

-- DELETE FROM policies WHERE prefix = ? AND list = ?
unfoldable pub without_key : String → String → List PolicyRow → List PolicyRow
without_key prefix list rows = filter (λ row. not (has_key prefix list row)) rows

abbrev pub deleted : String → String → Database → Database
deleted prefix list tables = record tables { policies = without_key prefix list tables.policies }

unfoldable pub remove_policy : Driver → String → String → Database → Attempted (Unit {0}) × Database
remove_policy driver prefix list db = change_tables driver (deleted prefix list) db

-- The loop of BulkRemovePolicies.
unfoldable pub remove_each :
    Driver → String → List String → Database → Attempted (Unit {0}) × Database
remove_each driver list [] tables = (ok tt, tables)
remove_each driver list (p ∷ ps) tables =
    follow (λ _ t. remove_each driver list ps t)
      (execute_on driver (removes_batch (p ∷ [])) (deleted p list) tables)

-- The statements of BulkRemovePolicies, on the tables of its transaction.
abbrev bulk_statements : Driver → String → List String → Database → Attempted (Unit {0}) × Database
bulk_statements driver list prefixes tables =
    follow (λ _ t. remove_each driver list prefixes t) (execute_on driver prepares (λ t. t) tables)

unfoldable pub bulk_remove_policies :
    Driver → String → List String → Database → Attempted (Unit {0}) × Database
bulk_remove_policies driver list [] db = (ok tt, db)
bulk_remove_policies driver list (p ∷ ps) db =
    read_back (transaction driver (bulk_statements driver list (p ∷ ps)) (idle db))

abbrev parsed_prefixes : Queries → List String → List Prefix
parsed_prefixes q [] = []
parsed_prefixes q (p ∷ ps) = elim (q.parse_prefix p) [
  | none ↦ parsed_prefixes q ps
  | some prefix ↦ prefix ∷ parsed_prefixes q ps
]

unfoldable pub all_prefixes : Driver → Queries → String → Database → Attempted (List Prefix)
all_prefixes driver q list db =
    execute driver queries >> ok (parsed_prefixes q (list_prefixes list db.policies))

-- A query of GetCounts that fails leaves its count at 0.
abbrev count_of : Driver → String → Database → ℕ
count_of driver list db =
    if driver.works queries then length (filter (λ row. same row.list list) db.policies) else 0

unfoldable pub get_counts : Driver → Database → ℕ × ℕ
get_counts driver db = (count_of driver "blocklist" db, count_of driver "whitelist" db)

unfoldable pub record_audit :
    Driver → ℕ → String → String → String → Database → Attempted (Unit {0}) × Database
record_audit driver now_ms operation list prefix db =
    let event : AuditRow = record {
      timestamp_ms = now_ms;
      operation = operation;
      list = list;
      prefix = prefix;
    } in
    change_tables driver (λ tables. record tables { audit_logs = tables.audit_logs ++ event ∷ [] })
      db

pub record AuditEvent : Type 0 where
  pub time_ms : ℕ
  pub operation : String
  pub list : String
  pub prefix : Prefix

abbrev audit_events_of : Queries → List AuditRow → List AuditEvent
audit_events_of q [] = []
audit_events_of q (row ∷ rows) = elim (q.parse_prefix row.prefix) [
  | none ↦ audit_events_of q rows
  | some p ↦
      record { time_ms = row.timestamp_ms; operation = row.operation; list = row.list; prefix = p }
      ∷ audit_events_of q rows
]

-- AuditEvents; `latest_first` is ORDER BY timestamp_ms DESC.
unfoldable pub audit_events :
    Driver → Queries → (List AuditRow → List AuditRow) → ℕ → Database → Attempted (List AuditEvent)
audit_events driver q latest_first limit db =
    execute driver queries
    >> ok (audit_events_of q (take (at_least_one 50 limit) (latest_first db.audit_logs)))

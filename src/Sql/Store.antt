-- ===== src/Sql/Store.antt =====
-- The SQL store as the policy controller calls it.
use rtbh_panel.Common.{ℕ, String, Bool, true, false, List, [], str_eq, if◌then◌else◌}
use rtbh_panel.Common.Results.{ok, err}
use rtbh_panel.Net.Prefix.{Prefix}
use rtbh_panel.Policy.{
  PolicyList, blocklist, whitelist, other, Action, add, remove, replace, delete, unknown,
}
use rtbh_panel.Controller.Apply.{SqlStore}
use rtbh_panel.Sql.Tables.{Database}
use rtbh_panel.Sql.Sync.{Driver, Attempted}
use rtbh_panel.Sql.Policies.{Queries, add_policy, remove_policy, record_audit, all_prefixes}

abbrev pub list_name : PolicyList → String
list_name blocklist = "blocklist"
list_name whitelist = "whitelist"
list_name (other name) = name

-- The list of a name, which the callers compare with the two known ones.
abbrev pub list_of : String → PolicyList
list_of name =
    if str_eq name "blocklist"
    then blocklist
    else if str_eq name "whitelist"
    then whitelist
    else other name

abbrev pub action_name : Action → String
action_name add = "add"
action_name remove = "remove"
action_name replace = "replace"
action_name delete = "delete"
action_name (unknown name) = name

abbrev worked : Attempted (Unit {0}) × Database → Bool × Database
worked (err _, db) = (false, db)
worked (ok _, db) = (true, db)

-- The prefixes of a query whose error is dropped.
abbrev found : Attempted (List Prefix) → List Prefix
found (err _) = []
found (ok prefixes) = prefixes

-- The calls of policyController, with the clock of RecordAudit in milliseconds.
abbrev pub sql_store : Driver → Queries → ℕ → SqlStore Database
sql_store driver q now_ms = record {
  add_policy =
      λ m db. worked (add_policy driver q m.prefix (list_name m.list) "Manual" "" m.expires_at db);
  remove_policy = λ m db. worked (remove_policy driver m.prefix (list_name m.list) db);
  record_audit =
      λ m db. (record_audit driver now_ms (action_name m.action) (list_name m.list) m.prefix db).1;
  all_prefixes = λ list db. found (all_prefixes driver q (list_name list) db);
}

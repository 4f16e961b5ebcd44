-- ===== src/Sql/Open.antt =====
-- Open, initSchema and Close of internal/sqlstore/store.go.
use rtbh_panel.Common.{
  ℕ, String, Bool, true, false, not, ◌||◌, Option, none, some, List, [], ◌∷◌, ◌++◌, if◌then◌else◌,
  str_eq,
}
use rtbh_panel.Common.Results.{Attempt, ok, err}

-- The statements of Open: the pragmas of SQLite, and the schema.
pub data Query : Type 0 where
  pragmas create_feeds create_policies index_list index_feed create_audit_logs : Query

pub data OpenError : Type 0 where
  open_failed pragma_failed schema_failed : OpenError

-- An sql.DB: its driver, its limits of open and idle connections (0 is the default), the statements
-- that it has run, and whether it is closed.
pub record Handle : Type 0 where
  pub driver : String
  pub max_open : ℕ
  pub max_idle : ℕ
  pub ran : List Query
  pub closed : Bool

-- strings.ToLower of strings.TrimSpace, sql.Open, filepath.Dir, and which statements fail.
pub record Host : Type 0 where
  pub to_lower_trimmed : String → String
  pub opens : String → String → Bool
  pub has_file_prefix : String → Bool
  pub dir : String → String
  pub runs : Query → Bool

unfoldable pub normalized_driver : Host → String → String
normalized_driver host driver =
    let name = host.to_lower_trimmed driver in
    if str_eq name "sqlite3" || str_eq name ""
    then "sqlite"
    else if str_eq name "postgresql"
    then "postgres"
    else if str_eq name "mariadb"
    then "mysql"
    else name

-- The directory that Open makes for the file of SQLite, whose error is dropped.
unfoldable pub made_directory : Host → String → String → Option String
made_directory host driver dsn =
    if not (str_eq driver "sqlite") || (str_eq dsn ":memory:" || host.has_file_prefix dsn)
    then none
    else if str_eq (host.dir dsn) "" || str_eq (host.dir dsn) "."
    then none
    else some (host.dir dsn)

abbrev pub run_query : Host → Query → Handle → Bool × Handle
run_query host query h = (host.runs query, record h { ran = h.ran ++ query ∷ [] })

unfoldable pub close : Handle → Handle
close h = record h { closed = true }

-- The loop of initSchema, which returns at the first error.
unfoldable pub run_queries : Host → List Query → Handle → Bool × Handle
run_queries host [] h = (true, h)
run_queries host (query ∷ queries) h =
    let (works, next) = run_query host query h in
    let rest = run_queries host queries next in if works then rest else (false, next)

abbrev pub schema : List Query
schema = create_feeds ∷ create_policies ∷ index_list ∷ index_feed ∷ create_audit_logs ∷ []

-- initSchema
unfoldable pub init_schema : Host → Handle → Bool × Handle
init_schema host h = run_queries host schema h

abbrev pub with_schema : Host → Bool × Handle → Attempt OpenError Handle × Handle
with_schema host (true, h) = (ok h, h)
with_schema host (false, h) = (err schema_failed, close h)

abbrev pub limited : Host → Handle → Attempt OpenError Handle × Handle
limited host h =
    let (works, next) = run_query host pragmas (record h { max_open = 1 }) in
    if works then with_schema host (init_schema host next) else (err pragma_failed, close next)

-- Open: the directory that it makes, the store, and the handle as Open leaves it.
unfoldable pub open_sql :
    Host → String → String → Option String × Attempt OpenError Handle × Option Handle
open_sql host driver dsn =
    let name = normalized_driver host driver in
    let made = made_directory host name dsn in
    let fresh : Handle = record {
      driver = name;
      max_open = 0;
      max_idle = 0;
      ran = [];
      closed = false;
    } in
    if not (host.opens name dsn)
    then (made, err open_failed, none)
    else (let (result, h) =
          (if str_eq name "sqlite"
            then limited host fresh
            else with_schema host
                (init_schema host (record fresh { max_open = 25; max_idle = 5 }))) in
        (made, result, some h))

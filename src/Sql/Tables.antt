-- ===== src/Sql/Tables.antt =====
-- The tables of initSchema, and the effect of the statements that change them.
use rtbh_panel.Common.{
  ℕ, String, Bool, true, false, ◌&&◌, Option, none, some, List, [], ◌∷◌, map, if◌then◌else◌, ite,
}
use rtbh_panel.Common.Lists.{filter}
use rtbh_panel.Common.Texts.{string_discrete}
use rtbh_panel.Policy.{Time}

-- A row of `feeds`; NULL is none.
pub record FeedRow : Type 0 where
  pub id : String
  pub name : String
  pub list : String
  pub url : String
  pub interval_sec : ℕ
  pub enabled : ℕ
  pub last_sync : Option String
  pub prefix_count : ℕ
  pub last_error : Option String
  pub expand_subnets : ℕ

-- A row of `policies`, whose primary key is the prefix and the list.
pub record PolicyRow : Type 0 where
  pub prefix : String
  pub list : String
  pub source : String
  pub feed_id : Option String
  pub expires_at : Option String
  pub created_at : Time

pub record AuditRow : Type 0 where
  pub timestamp_ms : ℕ
  pub operation : String
  pub list : String
  pub prefix : String

pub record Database : Type 0 where
  pub feeds : List FeedRow
  pub policies : List PolicyRow
  pub audit_logs : List AuditRow

abbrev pub same : String → String → Bool
same a b = ite (string_discrete a b) true false

-- WHERE prefix = ? AND list = ?
abbrev pub has_key : String → String → PolicyRow → Bool
has_key prefix list row = same row.prefix prefix && same row.list list

-- WHERE feed_id = ?, which NULL does not satisfy
abbrev pub is_of_feed : String → PolicyRow → Bool
is_of_feed id row = elim row.feed_id [ none ↦ false | some feed ↦ same feed id ]

-- The columns of a key of `policies`, and the key that the schema declares:
-- PRIMARY KEY (prefix, list).
pub data Column : Type 0 where
  prefix_column list_column : Column

abbrev pub value_of : Column → PolicyRow → String
value_of prefix_column row = row.prefix
value_of list_column row = row.list

abbrev pub policies_key : List Column
policies_key = prefix_column ∷ list_column ∷ []

-- The two rows have the same values in the columns.
abbrev pub agree : List Column → PolicyRow → PolicyRow → Bool
agree [] r row = true
agree (c ∷ cs) r row = same (value_of c r) (value_of c row) && agree cs r row

-- INSERT INTO policies ... ON CONFLICT(key) DO UPDATE SET ..., which updates a row that agrees with
-- the new one in the columns of the key, and otherwise inserts the new one.
unfoldable pub upsert_policy :
    List Column → (PolicyRow → PolicyRow) → PolicyRow → List PolicyRow → List PolicyRow
upsert_policy key update row [] = row ∷ []
upsert_policy key update row (r ∷ rs) =
    let rest = upsert_policy key update row rs in
    if agree key r row then update r ∷ rs else r ∷ rest

-- INSERT INTO feeds ... ON CONFLICT(id) DO UPDATE SET ...
unfoldable pub upsert_feed : (FeedRow → FeedRow) → FeedRow → List FeedRow → List FeedRow
upsert_feed update row [] = row ∷ []
upsert_feed update row (r ∷ rs) =
    let rest = upsert_feed update row rs in if same r.id row.id then update r ∷ rs else r ∷ rest

-- UPDATE feeds SET ... WHERE id = ?
unfoldable pub update_feeds : (FeedRow → FeedRow) → String → List FeedRow → List FeedRow
update_feeds update id [] = []
update_feeds update id (r ∷ rs) = (if same r.id id then update r else r) ∷ update_feeds update id rs

-- SELECT prefix FROM policies WHERE feed_id = ?
unfoldable pub feed_prefixes : String → List PolicyRow → List String
feed_prefixes id rows = map (λ row. row.prefix) (filter (is_of_feed id) rows)

-- SELECT prefix FROM policies WHERE list = ?
unfoldable pub list_prefixes : String → List PolicyRow → List String
list_prefixes list rows = map (λ row. row.prefix) (filter (λ row. same row.list list) rows)

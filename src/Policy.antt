-- ===== src/Policy.antt =====
-- The values that the parts of the program exchange: policy lists, actions and mutations
-- (internal/policystore/store.go, internal/dashboard/http.go, internal/agentrpc/session.go).
-- A Go string that the code only compares with constants is a data type with those constants and
-- `other` for every other string. A time is the count of nanoseconds since Go's zero time.
use rtbh_panel.Common.{ℕ, String, Bool, true, false, Option, ◌==◌}

abbrev pub Time : Type 0
Time = ℕ

abbrev pub is_zero_time : Time → Bool
is_zero_time t = t == 0

-- policystore.List, and the list names of mutations and policy changes
pub data PolicyList : Type 0 where
  blocklist whitelist : PolicyList
  other : String → PolicyList

abbrev pub valid_list : PolicyList → Bool
valid_list blocklist = true
valid_list whitelist = true
valid_list (other _) = false

-- policystore.Operation, and the actions of mutations and policy changes
pub data Action : Type 0 where
  add remove replace delete : Action
  unknown : String → Action

-- dashboard.PolicyMutation
pub record Mutation : Type 0 where
  pub action : Action
  pub list : PolicyList
  pub prefix : String
  pub expires_at : Option Time

-- ===== src/PolicyStore/State.antt =====
-- The store's types, and what reads them.
use rtbh_panel.Common.{String, Bool, false, not, Option, List, [], if◌then◌else◌}
pub use rtbh_panel.Common.Results.{ok, err, ◌>>=◌, ◌>>◌, check, >>=-eq-ok}
use rtbh_panel.Common.Results.{Attempt}
use rtbh_panel.Common.Lists.{any}
use rtbh_panel.Common.Assoc.{lookup}
use rtbh_panel.Net.Addr.{Addr, is_valid}
use rtbh_panel.Net.Prefix.{Prefix, contains, masked, discrete}
use rtbh_panel.Policy.{Time, PolicyList, blocklist, whitelist, other, Action}

pub record AuditEvent : Type 0 where
  pub time : Time
  pub operation : Action
  pub list : PolicyList
  pub prefix : Prefix

pub record Store : Type 0 where
  pub path : String
  pub blocklist : List Prefix
  pub whitelist : List Prefix
  pub expirations : List (Prefix × Time)
  pub audit : List AuditEvent

pub data Error : Type 0 where
  invalid_list invalid_prefix invalid_operation expiry_requires_blocklist zero_expiry : Error
  encode create chmod write sync close rename open_parent sync_parent : Error
  duplicate_prefix invalid_expiration_key duplicate_expiration orphan_expiration invalid_audit :
      Error
  empty_path read decode : Error

-- What a method of the store returns.
abbrev pub Result : Type 0 → Type 0
Result A = Attempt Error A

-- New has the empty path; Open starts from the same store with its own path.
unfoldable pub new : String → Store
new path = record { path = path; blocklist = []; whitelist = []; expirations = []; audit = [] }

-- the free function `contains`
unfoldable pub covers : List Prefix → Addr → Bool
covers prefixes addr = any (λ prefix. contains prefix addr) prefixes

unfoldable pub blocked : Store → Addr → Bool
blocked s addr =
    if not (is_valid addr)
    then false
    else if covers s.whitelist addr
    then false
    else covers s.blocklist addr

unfoldable pub prefixes : Store → PolicyList → Result (List Prefix)
prefixes s blocklist = ok s.blocklist
prefixes s whitelist = ok s.whitelist
prefixes s (other _) = err invalid_list

unfoldable pub expiry : Store → Prefix → Option Time
expiry s prefix = lookup discrete (masked prefix) s.expirations

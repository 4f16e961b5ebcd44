-- ===== src/PolicyStore/Load.antt =====
-- Open, and the validation of a decoded file.
use rtbh_panel.Common.{
  String, Bool, true, false, not, ◌&&◌, none, some, List, [], ◌∷◌, ◌++◌, if◌then◌else◌, str_eq,
  is_some,
}
use rtbh_panel.Common.Lists.{member}
use rtbh_panel.Common.Assoc.{lookup, insert}
use rtbh_panel.Net.Prefix.{Prefix, is_valid, masked, discrete}
use rtbh_panel.Policy.{Time, is_zero_time, valid_list, Action, add, remove}
use rtbh_panel.PolicyStore.State.{
  AuditEvent, Store, Result, ok, err, ◌>>=◌, ◌>>◌, check, invalid_prefix, zero_expiry,
  duplicate_prefix, invalid_expiration_key, duplicate_expiration, orphan_expiration, invalid_audit,
  empty_path, read, decode, new,
}
use rtbh_panel.PolicyStore.Disk.{DiskState, System}

-- The loop of validatePrefixes; `validated` is what it has built.
unfoldable pub validate_prefixes : List Prefix → List Prefix → Result (List Prefix)
validate_prefixes validated [] = ok validated
validate_prefixes validated (prefix ∷ rest) =
    let p = masked prefix in
    let go = validate_prefixes (validated ++ p ∷ []) rest in
    if not (is_valid prefix)
    then err invalid_prefix
    else if member discrete p validated
    then err duplicate_prefix
    else go

-- The loop of validateExpirations over the map's entries, in any order.
module _ (sys : System) (blocklist : List Prefix) where
  unfoldable pub validate_expiration :
      List (Prefix × Time) → String → Time → Result (List (Prefix × Time))
  validate_expiration validated key expiry = elim (sys.parse key) [
    | none ↦ err invalid_expiration_key
    | some prefix ↦
        (let p = masked prefix in
          if is_zero_time expiry
          then err zero_expiry
          else if is_some (lookup discrete p validated)
          then err duplicate_expiration
          else if not (member discrete p blocklist)
          then err orphan_expiration
          else ok (insert discrete p expiry validated))
  ]

  unfoldable pub validate_expirations :
      List (Prefix × Time) → List (String × Time) → Result (List (Prefix × Time))
  validate_expirations validated [] = ok validated
  validate_expirations validated ((key, expiry) ∷ rest) =
      validate_expiration validated key expiry >>= λ next. validate_expirations next rest

abbrev pub audited_operation : Action → Bool
audited_operation add = true
audited_operation remove = true
audited_operation _ = false

unfoldable pub valid_event : AuditEvent → Bool
valid_event e =
    not (is_zero_time e.time)
    && valid_list e.list
    && audited_operation e.operation
    && is_valid e.prefix

unfoldable pub validate_audit : List AuditEvent → Result (List AuditEvent)
validate_audit [] = ok []
validate_audit (e ∷ rest) = do
  check (valid_event e) invalid_audit
  validated ← validate_audit rest
  ok (record e { prefix = masked e.prefix } ∷ validated)

-- validateState, with the store that Open builds of the result
unfoldable pub validate_state : System → String → DiskState → Result Store
validate_state sys path state = do
  blocklist ← validate_prefixes [] state.blocklist
  whitelist ← validate_prefixes [] state.whitelist
  expirations ← validate_expirations sys blocklist [] state.expirations
  audit ← validate_audit state.audit
  ok (record {
    path = path;
    blocklist = blocklist;
    whitelist = whitelist;
    expirations = expirations;
    audit = audit;
  })

-- What reading the file gives.
pub data File : Type 0 where
  missing unreadable malformed : File
  content : DiskState → File

-- Open, for a path that filepath.Clean leaves as it is
unfoldable pub open_store : System → String → File → Result Store
open_store sys path file = if str_eq path "" then err empty_path else elim file [
  | missing ↦ ok (new path)
  | unreadable ↦ err read
  | malformed ↦ err decode
  | content state ↦ validate_state sys path state
]

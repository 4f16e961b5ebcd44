-- ===== src/PolicyStore/Mutate.antt =====
-- Add, Remove and AddUntil. A method works on clones and assigns them last, so a draft of the new
-- store is made here, written, and put in place.
use rtbh_panel.Common.{
  Bool, true, false, not, Option, none, some, List, [], ◌∷◌, ◌++◌, ◌==◌, if◌then◌else◌, str_eq,
}
use rtbh_panel.Common.Lists.{index, delete_at}
use rtbh_panel.Common.Assoc.{lookup, insert}
use rtbh_panel.Common.Assoc
use rtbh_panel.Net.Prefix.{Prefix, is_valid, masked, discrete}
use rtbh_panel.Policy.{Time, PolicyList, blocklist, Action, add, remove, is_zero_time, valid_list}
use rtbh_panel.PolicyStore.State.{
  AuditEvent, Store, Error, Result, ok, err, invalid_list, invalid_prefix, invalid_operation,
  expiry_requires_blocklist, zero_expiry,
}
use rtbh_panel.PolicyStore.Disk.{DiskState, System, to_disk, persist}

-- A store with the file at its path.
pub record Stored : Type 0 where
  pub store : Store
  pub file : Option DiskState

abbrev pub target : PolicyList → Store → List Prefix
target blocklist s = s.blocklist
target _ s = s.whitelist

abbrev pub set_target : PolicyList → List Prefix → Store → Store
set_target blocklist l s = record s { blocklist = l }
set_target _ l s = record s { whitelist = l }

-- if list == Blocklist { delete(expirations, prefix) }
abbrev pub forget_expiry : PolicyList → Prefix → Store → Store
forget_expiry blocklist p s = record s { expirations = Assoc.delete discrete p s.expirations }
forget_expiry _ p s = s

-- The switch of `mutate`. `ok none` is the return without a change.
unfoldable pub edit : Action → PolicyList → Prefix → Store → Result (Option Store)
edit add list p s = elim (index discrete p (target list s)) [
  | some _ ↦ ok none
  | none ↦ ok (some (set_target list (target list s ++ p ∷ []) s))
]
edit remove list p s = elim (index discrete p (target list s)) [
  | none ↦ ok none
  | some i ↦ ok (some (forget_expiry list p (set_target list (delete_at (target list s) i) s)))
]
edit _ list p s = err invalid_operation

-- The assignments at the end of both methods, unless the write failed.
unfoldable pub assign : Store → Stored → Option Error × Option DiskState → Result Bool × Stored
assign next s (none, file) = (ok true, record { store = next; file = file })
assign next s (some e, file) = (err e, record s { file = file })

-- The end of both methods: append to the audit log, write the file, and assign.
unfoldable pub commit :
    System → Action → PolicyList → Prefix → Store → Stored → Result Bool × Stored
commit sys operation list p draft s =
    let event : AuditEvent = record {
      time = sys.now;
      operation = operation;
      list = list;
      prefix = p;
    } in
    let next = record draft { audit = s.store.audit ++ event ∷ [] } in
    if str_eq s.store.path ""
    then assign next s (none, s.file)
    else assign next s (persist sys (to_disk sys next) s.file)

unfoldable pub finish :
    System → Action → PolicyList → Prefix → Result (Option Store) → Stored → Result Bool × Stored
finish sys operation list p (err e) s = (err e, s)
finish sys operation list p (ok none) s = (ok false, s)
finish sys operation list p (ok (some draft)) s = commit sys operation list p draft s

unfoldable pub mutate : System → Action → PolicyList → Prefix → Stored → Result Bool × Stored
mutate sys operation list prefix s =
    if not (valid_list list)
    then (err invalid_list, s)
    else if not (is_valid prefix)
    then (err invalid_prefix, s)
    else (let p = masked prefix in finish sys operation list p (edit operation list p s.store) s)

-- Whether the prefix has this expiry already: no change then.
abbrev pub same_expiry : Option Time → Time → Bool
same_expiry none t = false
same_expiry (some u) t = u == t

-- The choice of AddUntil: `none` where it returns without a change.
unfoldable pub edit_until : Prefix → Time → Store → Option Store
edit_until p t s =
    let set = record s { expirations = insert discrete p t s.expirations } in
    elim (index discrete p s.blocklist) [
      | none ↦ some (record set { blocklist = s.blocklist ++ p ∷ [] })
      | some _ ↦ if same_expiry (lookup discrete p s.expirations) t then none else some set
    ]

unfoldable pub add_until : System → PolicyList → Prefix → Time → Stored → Result Bool × Stored
add_until sys blocklist cidr expiry s =
    if not (is_valid cidr)
    then (err invalid_prefix, s)
    else if is_zero_time expiry
    then (err zero_expiry, s)
    else (let p = masked cidr in finish sys add blocklist p (ok (edit_until p expiry s.store)) s)
add_until sys _ cidr expiry s = (err expiry_requires_blocklist, s)

-- ===== src/PolicyStore/Disk.antt =====
-- diskState and persist: the file is replaced by a rename, in steps that can each fail.
use rtbh_panel.Common.{String, Bool, Option, none, some, List, [], ◌∷◌, if◌then◌else◌}
use rtbh_panel.Net.Prefix.{Prefix}
use rtbh_panel.Policy.{Time}
use rtbh_panel.PolicyStore.State.{
  AuditEvent, Store, Error, encode, create, chmod, write, sync, close, rename, open_parent,
  sync_parent,
}

-- The decoded content of the file. Its JSON text is not modelled.
pub record DiskState : Type 0 where
  pub blocklist : List Prefix
  pub whitelist : List Prefix
  pub audit : List AuditEvent
  pub expirations : List (String × Time)

-- What the store asks of its surroundings: the clock, which step of a write fails, and the text of
-- prefixes (netip.ParsePrefix and Prefix.String).
pub record System : Type 0 where
  pub now : Time
  pub fails : Error → Bool
  pub parse : String → Option Prefix
  pub print : Prefix → String

-- prefixToTimeMap
unfoldable pub prefix_to_time_map : System → List (Prefix × Time) → List (String × Time)
prefix_to_time_map sys [] = []
prefix_to_time_map sys ((p, t) ∷ m) = (sys.print p, t) ∷ prefix_to_time_map sys m

unfoldable pub to_disk : System → Store → DiskState
to_disk sys s = record {
  blocklist = s.blocklist;
  whitelist = s.whitelist;
  audit = s.audit;
  expirations = prefix_to_time_map sys s.expirations;
}

-- The error if a step fails, and the file afterwards. The temporary file is removed on each path.
unfoldable pub persist : System → DiskState → Option DiskState → Option Error × Option DiskState
persist sys state file =
    if sys.fails encode
    then (some encode, file)
    else if sys.fails create
    then (some create, file)
    else if sys.fails chmod
    then (some chmod, file)
    else if sys.fails write
    then (some write, file)
    else if sys.fails sync
    then (some sync, file)
    else if sys.fails close
    then (some close, file)
    else if sys.fails rename
    then (some rename, file)
    else if sys.fails open_parent
    then (some open_parent, some state)
    else if sys.fails sync_parent
    then (some sync_parent, some state)
    else (none, some state)

-- ===== src/PolicyStore/Recovery.antt =====
-- A store is recovered from the file that it wrote, and a file that is accepted gives a valid store.
use rtbh_panel.Common.{
  String, true, false, ◌≡◌, ◌≢◌, refl, sym, ap, ◌∙◌, Option, none, some, List, [], ◌∷◌, ◌++◌, arith,
  str_eq,
}
use mathlib.Core.List.{append_assoc, append-nil}
use rtbh_panel.Common.Lists.{All, member, distinct, distinct_middle, All_of_member}
use rtbh_panel.Common.Assoc.{keys, lookup, insert_absent, lookup_absent, member-keys}
use rtbh_panel.Net.Prefix.{Prefix, masked, discrete}
use rtbh_panel.Policy.{Time, PolicyList, Action}
use rtbh_panel.PolicyStore.State.{AuditEvent, Store, Result, ok, err}
use rtbh_panel.PolicyStore.Disk.{System, DiskState, persist, to_disk, prefix_to_time_map}
use rtbh_panel.PolicyStore.Load.{
  validate_prefixes, validate_expiration, validate_expirations, validate_audit, validate_state,
  open_store, File, content, missing,
}
use rtbh_panel.PolicyStore.Invariant.{IsValid, IsStored, mutate_cases, mutate-IsValid}
use rtbh_panel.PolicyStore.Replay.{IsLogged, IsRecorded, mutate-IsRecorded}
use rtbh_panel.PolicyStore.Mutate.{Stored, mutate, edit, finish, commit, assign}
use rtbh_panel.PolicyStore.Effects.{edit_path}

-- No prefix of the second list stands in the first, and none stands there twice.
abbrev Fresh : List Prefix → List Prefix → Type 0
Fresh done [] = Unit
Fresh done (p ∷ ps) = (member discrete p done ≡ false) × Fresh (done ++ p ∷ []) ps

validate_prefixes_stored :
    (done ps : List Prefix)
    → All IsStored ps
    → Fresh done ps
    → validate_prefixes done ps ≡ ok (done ++ ps)
unfolding validate_prefixes
validate_prefixes_stored done [] h f = rw (append-nil done)
validate_prefixes_stored done (p ∷ ps) h f =
    ground
      (arith, validate_prefixes_stored (done ++ p ∷ []) ps h.1 f.1, append_assoc done (p ∷ []) ps)

distinct→Fresh : (done ps : List Prefix) → distinct discrete (done ++ ps) ≡ true → Fresh done ps
distinct→Fresh done [] d = tt
distinct→Fresh done (p ∷ ps) d = (
  distinct_middle discrete p done ps d,
  distinct→Fresh (done ++ p ∷ []) ps (rw (append_assoc done (p ∷ []) ps) d),
)

-- What a stored expiry needs to be read back.
abbrev Readable : System → List Prefix → Prefix × Time → Type 0
Readable sys blocklist e =
    (sys.parse (sys.print e.0) ≡ some e.0)
    × (masked e.0 ≡ e.0)
    × (member discrete e.0 blocklist ≡ true)
    × (e.1 ≢ 0)

keys-append_one :
    (m : List (Prefix × Time)) (p : Prefix) (t : Time) (rest : List Prefix)
    → keys (m ++ (p, t) ∷ []) ++ rest ≡ keys m ++ p ∷ rest
keys-append_one [] p t rest = refl
keys-append_one ((q, u) ∷ m) p t rest = ap (◌∷◌ q) (keys-append_one m p t rest)

validate_expirations-Readable :
    (sys : System) (blocklist : List Prefix) (done m : List (Prefix × Time))
    → All (Readable sys blocklist) m
    → distinct discrete (keys done ++ keys m) ≡ true
    → validate_expirations sys blocklist done (prefix_to_time_map sys m) ≡ ok (done ++ m)
unfolding validate_expirations prefix_to_time_map
validate_expirations-Readable sys bl done [] h d = rw (append-nil done)
validate_expirations-Readable sys bl done ((p, t) ∷ m) h d =
    let absent =
      lookup_absent discrete p done (distinct_middle discrete p (keys done) (keys m) d) in
    let step : validate_expiration sys bl done (sys.print p) t ≡ ok (done ++ (p, t) ∷ []) =
      unfold validate_expiration in ground (arith, insert_absent discrete p t done) in
    rw step (
      validate_expirations-Readable sys bl (done ++ (p, t) ∷ []) m h.1
        (rw (keys-append_one done p t (keys m)) d)
      ∙ ap ok (append_assoc done ((p, t) ∷ []) m))

validate_audit_logged : (log : List AuditEvent) → All IsLogged log → validate_audit log ≡ ok log
unfolding validate_audit
validate_audit_logged [] h = refl
validate_audit_logged (e ∷ log) h = ground (arith, validate_audit_logged log h.1)

-- Every expiry of a valid store can be read back, if the text of its prefix can.
expirations-Readable :
    (sys : System) (s : Store) (m : List (Prefix × Time))
    → IsValid s
    → ((p : Prefix) (t : Time)
        → lookup discrete p m ≡ some t
        → lookup discrete p s.expirations ≡ some t)
    → distinct discrete (keys m) ≡ true
    → All (λ e. sys.parse (sys.print e.0) ≡ some e.0) m
    → All (Readable sys s.blocklist) m
unfolding lookup distinct
expirations-Readable sys s [] v h d r = tt
expirations-Readable sys s ((p, t) ∷ m) v h d r =
    let found = v.expiring_blocked p t (h p t (ground arith)) in
    (
      (
        r.0,
        (All_of_member discrete IsStored p s.blocklist v.blocked_stored found.0).canonical,
        found.0,
        found.1,
      ),
      expirations-Readable sys s m v (λ q u e. h q u (ground (arith, member-keys discrete q m)))
          (ground arith) r.1,
    )

-- Opening the file that a valid store wrote gives that store again.
pub open_store-to_disk :
    (sys : System) (s : Store)
    → IsValid s
    → All IsLogged s.audit
    → All (λ e. sys.parse (sys.print e.0) ≡ some e.0) s.expirations
    → str_eq s.path "" ≡ false
    → open_store sys s.path (content (to_disk sys s)) ≡ ok s
unfolding open_store validate_state to_disk
open_store-to_disk sys s v l r n =
    let blocked =
      validate_prefixes_stored [] s.blocklist v.blocked_stored
        (distinct→Fresh [] s.blocklist v.blocked_distinct) in
    let allowed =
      validate_prefixes_stored [] s.whitelist v.allowed_stored
        (distinct→Fresh [] s.whitelist v.allowed_distinct) in
    let readable = expirations-Readable sys s s.expirations v (λ p t h. h) v.expiring_distinct r in
    rw (
      n,
      blocked,
      allowed,
      validate_expirations-Readable sys s.blocklist [] s.expirations readable v.expiring_distinct,
      validate_audit_logged s.audit l,
    )

-- What a reader finds at the path.
abbrev pub file_of : Option DiskState → File
file_of none = missing
file_of (some state) = content state

-- After a change the file holds the store.
finish_written :
    (sys : System) (op : Action) (list : PolicyList) (p : Prefix) (r : Result (Option Store))
    (s : Stored)
    → str_eq s.store.path "" ≡ false
    → (finish sys op list p r s).0 ≡ ok true
    → (finish sys op list p r s).1.file ≡ some (to_disk sys (finish sys op list p r s).1.store)
unfolding finish commit assign persist
finish_written sys op list p (err e) s n h = absurd (ground arith)
finish_written sys op list p (ok none) s n h = absurd (ground arith)
finish_written sys op list p (ok (some d)) s n h = ground arith

mutate_written :
    (sys : System) (op : Action) (list : PolicyList) (p : Prefix) (s : Stored)
    → str_eq s.store.path "" ≡ false
    → (mutate sys op list p s).0 ≡ ok true
    → (mutate sys op list p s).1.file ≡ some (to_disk sys (mutate sys op list p s).1.store)
unfolding mutate
mutate_written sys op list p s n h =
    ground (arith, finish_written sys op list (masked p) (edit op list (masked p) s.store) s)

path-mutate :
    (sys : System) (op : Action) (list : PolicyList) (p : Prefix) (s : Stored)
    → (mutate sys op list p s).1.store.path ≡ s.store.path
path-mutate sys op list p s =
    mutate_cases (λ t. t.path ≡ s.store.path) s refl sys op list p
      λ d l f h. edit_path op list (masked p) s.store d h

-- After Add or Remove has changed a valid store with a path, whose audit log replays to its lists,
-- Open reads exactly the new store from the file, if the clock was past the zero time and the
-- texts of the expiring prefixes parse back to them.
pub open_store-mutate :
    (sys : System) (op : Action) (list : PolicyList) (p : Prefix) (s : Stored)
    → IsValid s.store
    → IsRecorded s.store
    → sys.now ≢ 0
    → str_eq s.store.path "" ≡ false
    → (mutate sys op list p s).0 ≡ ok true
    → All (λ e. sys.parse (sys.print e.0) ≡ some e.0) (mutate sys op list p s).1.store.expirations
    → open_store sys s.store.path (file_of (mutate sys op list p s).1.file)
      ≡ ok (mutate sys op list p s).1.store
open_store-mutate sys op list p s v l t n h r =
    let same = path-mutate sys op list p s in
    rw (mutate_written sys op list p s n h) (
      ap (λ (x : String). open_store sys x (content (to_disk sys (mutate sys op list p s).1.store)))
        (sym same)
      ∙ open_store-to_disk sys _ (mutate-IsValid sys op list p s v)
          (mutate-IsRecorded sys op list p s t l).logged r (rw same n))

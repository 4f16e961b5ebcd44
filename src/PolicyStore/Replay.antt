-- ===== src/PolicyStore/Replay.antt =====
-- The audit log: its events are well formed, and replaying them gives the lists.
use rtbh_panel.Common.{
  String, true, ◌≡◌, ◌≢◌, refl, sym, ap, ◌∙◌, Option, none, some, List, [], ◌∷◌, ◌++◌, arith, inl,
  inr, ◌⊎◌,
}
use mathlib.Core.List.{foldl, foldl-append}
use rtbh_panel.Common.Lists.{All, All-append_one, index, delete_at}
use rtbh_panel.Net.Prefix.{Prefix, is_valid, masked, discrete}
use rtbh_panel.Net.Overlap.{masked-masked, is_valid-masked}
use rtbh_panel.Policy.{
  Time, valid_list, PolicyList, blocklist, whitelist, other, Action, add, remove, replace, delete,
  unknown,
}
use rtbh_panel.PolicyStore.State.{AuditEvent, Store, ok, new}
use rtbh_panel.PolicyStore.Disk.{System, DiskState}
use rtbh_panel.PolicyStore.Mutate.{Stored, edit, edit_until, mutate, add_until}
use rtbh_panel.PolicyStore.Load.{valid_event}
use rtbh_panel.PolicyStore.Invariant.{
  IsValid, new-IsValid, mutate-IsValid, add_until-IsValid, mutate_cases, add_until_cases, audited,
  event_of,
}

pub record IsLogged (e : AuditEvent) : Type 0 where
  pub valid : valid_event e ≡ true
  pub canonical : masked e.prefix ≡ e.prefix

pub record Lists : Type 0 where
  pub denied : List Prefix
  pub allowed : List Prefix

-- What an event of the log says was done to its list.
unfoldable pub change : Action → Prefix → List Prefix → List Prefix
change add p xs = elim (index discrete p xs) [ none ↦ xs ++ p ∷ [] | some _ ↦ xs ]
change remove p xs = elim (index discrete p xs) [ none ↦ xs | some i ↦ delete_at xs i ]
change _ p xs = xs

abbrev apply_to : PolicyList → Action → Prefix → Lists → Lists
apply_to blocklist op p l = record l { denied = change op p l.denied }
apply_to _ op p l = record l { allowed = change op p l.allowed }

abbrev apply : Lists → AuditEvent → Lists
apply l e = apply_to e.list e.operation e.prefix l

pub replay : List AuditEvent → Lists
replay = foldl apply (record { denied = []; allowed = [] })

abbrev lists : Store → Lists
lists s = record { denied = s.blocklist; allowed = s.whitelist }

pub record IsRecorded (s : Store) : Type 0 where
  pub logged : All IsLogged s.audit
  pub replayed : replay s.audit ≡ lists s

pub new-IsRecorded : (path : String) → IsRecorded (new path)
unfolding new replay
new-IsRecorded path = record { logged = tt; replayed = refl }

replay-append_one :
    (log : List AuditEvent) (e : AuditEvent) → replay (log ++ e ∷ []) ≡ apply (replay log) e
unfolding replay
replay-append_one log e = rw foldl-append

-- The edits of the store are those that the log will show.
edit_change :
    (op : Action) (list : PolicyList) (p : Prefix) (s d : Store)
    → edit op list p s ≡ ok (some d)
    → lists d ≡ apply_to list op p (lists s)
unfolding edit change
edit_change add blocklist p s d h = ground arith
edit_change add whitelist p s d h = ground arith
edit_change add (other _) p s d h = ground arith
edit_change remove blocklist p s d h = ground arith
edit_change remove whitelist p s d h = ground arith
edit_change remove (other _) p s d h = ground arith
edit_change replace list p s d h = absurd (ground arith)
edit_change delete list p s d h = absurd (ground arith)
edit_change (unknown _) list p s d h = absurd (ground arith)

edit_until_change :
    (p : Prefix) (t : Time) (s d : Store)
    → edit_until p t s ≡ some d
    → lists d ≡ apply_to blocklist add p (lists s)
unfolding edit_until change
edit_until_change p t s d h = ground arith

edit_operation :
    (op : Action) (list : PolicyList) (p : Prefix) (s d : Store)
    → edit op list p s ≡ ok (some d)
    → (op ≡ add) ⊎ (op ≡ remove)
unfolding edit
edit_operation add list p s d h = inl refl
edit_operation remove list p s d h = inr refl
edit_operation replace list p s d h = absurd (ground arith)
edit_operation delete list p s d h = absurd (ground arith)
edit_operation (unknown _) list p s d h = absurd (ground arith)

audited-IsRecorded :
    (sys : System) (op : Action) (list : PolicyList) (p : Prefix) (s : Stored) (d : Store)
    → IsRecorded s.store
    → IsLogged (event_of sys op list p)
    → lists d ≡ apply_to list op p (lists s.store)
    → IsRecorded (audited sys op list p s d)
audited-IsRecorded sys op list p s d v e h = record {
  logged = All-append_one IsLogged s.store.audit (event_of sys op list p) v.logged e;
  replayed =
      replay-append_one s.store.audit (event_of sys op list p)
      ∙ ap (apply_to list op p) v.replayed
      ∙ sym h;
}

event-IsLogged :
    (sys : System) (op : Action) (list : PolicyList) (p : Prefix)
    → sys.now ≢ 0
    → (op ≡ add) ⊎ (op ≡ remove)
    → valid_list list ≡ true
    → is_valid p ≡ true
    → IsLogged (event_of sys op list (masked p))
unfolding valid_event
event-IsLogged sys op list p n o l f = record {
  valid = ground (arith, is_valid-masked p f);
  canonical = masked-masked p;
}

pub mutate-IsRecorded :
    (sys : System) (op : Action) (list : PolicyList) (p : Prefix) (s : Stored)
    → sys.now ≢ 0
    → IsRecorded s.store
    → IsRecorded (mutate sys op list p s).1.store
mutate-IsRecorded sys op list p s n v = mutate_cases IsRecorded s v sys op list p λ d l f h.
    audited-IsRecorded sys op list (masked p) s d v
      (event-IsLogged sys op list p n (edit_operation op list (masked p) s.store d h) l f)
      (edit_change op list (masked p) s.store d h)

pub add_until-IsRecorded :
    (sys : System) (list : PolicyList) (p : Prefix) (t : Time) (s : Stored)
    → sys.now ≢ 0
    → IsRecorded s.store
    → IsRecorded (add_until sys list p t s).1.store
add_until-IsRecorded sys list p t s n v = add_until_cases IsRecorded s v sys list p t λ d f _ h.
    audited-IsRecorded sys add blocklist (masked p) s d v
      (event-IsLogged sys add blocklist p n (inl refl) refl f)
      (edit_until_change (masked p) t s.store d h)

pub data Call : Type 0 where
  adds removes : PolicyList → Prefix → Call
  adds_until : PolicyList → Prefix → Time → Call

-- One call of the store's interface, in the surroundings of that moment.
unfoldable pub step : System → Call → Stored → Stored
step sys (adds list p) s = (mutate sys add list p s).1
step sys (removes list p) s = (mutate sys remove list p s).1
step sys (adds_until list p t) s = (add_until sys list p t s).1

unfoldable pub run : List (System × Call) → Stored → Stored
run [] s = s
run ((sys, c) ∷ calls) s = run calls (step sys c s)

abbrev pub Sound : Store → Type 0
Sound s = IsValid s × IsRecorded s

step-Sound :
    (sys : System) (c : Call) (s : Stored)
    → sys.now ≢ 0
    → Sound s.store
    → Sound (step sys c s).store
unfolding step
step-Sound sys (adds list p) s n v =
    (mutate-IsValid sys add list p s v.0, mutate-IsRecorded sys add list p s n v.1)
step-Sound sys (removes list p) s n v =
    (mutate-IsValid sys remove list p s v.0, mutate-IsRecorded sys remove list p s n v.1)
step-Sound sys (adds_until list p t) s n v =
    (add_until-IsValid sys list p t s v.0, add_until-IsRecorded sys list p t s n v.1)

pub run-Sound :
    (calls : List (System × Call)) (s : Stored)
    → All (λ c. c.0.now ≢ 0) calls
    → Sound s.store
    → Sound (run calls s).store
unfolding run
run-Sound [] s n v = v
run-Sound ((sys, c) ∷ calls) s n v = run-Sound calls (step sys c s) n.1 (step-Sound sys c s n.0 v)

-- After any calls on a new store, successful or not, the store is valid, its audit events are well
-- formed, and replaying them from two empty lists gives exactly its blocklist and whitelist. The
-- clock of each call reads after Go's zero time.
pub run-replay :
    (path : String) (file : Option DiskState) (calls : List (System × Call))
    → All (λ c. c.0.now ≢ 0) calls
    → IsValid (run calls (record { store = new path; file = file })).store
      × IsRecorded (run calls (record { store = new path; file = file })).store
run-replay path file calls n =
    run-Sound calls (record { store = new path; file = file }) n
      (new-IsValid path, new-IsRecorded path)

-- ===== src/PolicyStore/Invariant.antt =====
-- What holds of a store between two calls, and that each call keeps it.
use rtbh_panel.Common.{
  ℕ, String, true, ◌≡◌, ◌≢◌, refl, Option, none, some, List, [], ◌∷◌, ◌++◌, arith, Bool-cases,
  Option-cases, inl, inr, str_eq,
}
use rtbh_panel.Common.Lists.{
  All, All-append_one, All-delete_at, index, delete_at, member, distinct, index-eq-none→member,
  index-eq-some→member, member-append, member-delete_at_ne, distinct-delete_at, distinct-append_one,
}
use rtbh_panel.Common.Assoc.{
  keys, lookup, insert, lookup-insert, lookup-delete, distinct-keys-insert, distinct-keys-delete,
}
use rtbh_panel.Common.Assoc
use rtbh_panel.Net.Prefix.{Prefix, is_valid, masked, discrete}
use rtbh_panel.Net.Overlap.{masked-masked, is_valid-masked}
use rtbh_panel.Policy.{
  Time, valid_list, is_zero_time, PolicyList, blocklist, whitelist, other, Action, add, remove,
  replace, delete, unknown,
}
use rtbh_panel.PolicyStore.State.{AuditEvent, Error, Store, Result, ok, err, new}
use rtbh_panel.PolicyStore.Disk.{System, DiskState}
use rtbh_panel.PolicyStore.Mutate.{
  Stored, edit, edit_until, finish, assign, commit, mutate, add_until,
}

pub record IsStored (p : Prefix) : Type 0 where
  pub canonical : masked p ≡ p
  pub valid : is_valid p ≡ true

pub record IsValid (s : Store) : Type 0 where
  pub blocked_distinct : distinct discrete s.blocklist ≡ true
  pub allowed_distinct : distinct discrete s.whitelist ≡ true
  pub blocked_stored : All IsStored s.blocklist
  pub allowed_stored : All IsStored s.whitelist
  pub expiring_distinct : distinct discrete (keys s.expirations) ≡ true
  pub expiring_blocked :
      (p : Prefix) (t : Time)
      → lookup discrete p s.expirations ≡ some t
      → (member discrete p s.blocklist ≡ true) × (t ≢ 0)

pub masked-IsStored : (p : Prefix) → is_valid p ≡ true → IsStored (masked p)
masked-IsStored p h = record { canonical = masked-masked p; valid = is_valid-masked p h }

pub new-IsValid : (path : String) → IsValid (new path)
unfolding new distinct lookup
new-IsValid path = record {
  blocked_distinct = refl;
  allowed_distinct = refl;
  blocked_stored = tt;
  allowed_stored = tt;
  expiring_distinct = refl;
  expiring_blocked = λ p t h. cc;
}

member_one : (p : Prefix) (l : List Prefix) → member discrete p (l ++ p ∷ []) ≡ true
unfolding member
member_one p [] = ground arith
member_one p (q ∷ l) = ground (arith, member_one p l)

module _ (p : Prefix) (stored : IsStored p) (s : Store) (v : IsValid s) where
  -- A prefix that is not listed is appended.
  append_blocked :
      index discrete p s.blocklist ≡ none → IsValid (record s { blocklist = s.blocklist ++ p ∷ [] })
  append_blocked h = record {
    blocked_distinct =
        distinct-append_one discrete p s.blocklist v.blocked_distinct
          (index-eq-none→member discrete p s.blocklist h);
    allowed_distinct = v.allowed_distinct;
    blocked_stored = All-append_one IsStored s.blocklist p v.blocked_stored stored;
    allowed_stored = v.allowed_stored;
    expiring_distinct = v.expiring_distinct;
    expiring_blocked = λ q t e. (
      rw (member-append discrete q s.blocklist (p ∷ [])) (ground (arith, v.expiring_blocked q t e)),
      (v.expiring_blocked q t e).1,
    );
  }

  append_allowed :
      index discrete p s.whitelist ≡ none → IsValid (record s { whitelist = s.whitelist ++ p ∷ [] })
  append_allowed h = record {
    blocked_distinct = v.blocked_distinct;
    allowed_distinct =
        distinct-append_one discrete p s.whitelist v.allowed_distinct
          (index-eq-none→member discrete p s.whitelist h);
    blocked_stored = v.blocked_stored;
    allowed_stored = All-append_one IsStored s.whitelist p v.allowed_stored stored;
    expiring_distinct = v.expiring_distinct;
    expiring_blocked = v.expiring_blocked;
  }

  remove_blocked :
      (i : ℕ)
      → index discrete p s.blocklist ≡ some i
      → IsValid (record s {
        blocklist = delete_at s.blocklist i;
        expirations = Assoc.delete discrete p s.expirations;
      })
  remove_blocked i h = record {
    blocked_distinct = distinct-delete_at discrete s.blocklist i v.blocked_distinct;
    allowed_distinct = v.allowed_distinct;
    blocked_stored = All-delete_at IsStored s.blocklist i v.blocked_stored;
    allowed_stored = v.allowed_stored;
    expiring_distinct = distinct-keys-delete discrete p s.expirations v.expiring_distinct;
    expiring_blocked = λ q t e. ground (
      arith,
      lookup-delete discrete p q s.expirations,
      v.expiring_blocked q t,
      member-delete_at_ne discrete p q s.blocklist i h,
    );
  }

  remove_allowed : (i : ℕ) → IsValid (record s { whitelist = delete_at s.whitelist i })
  remove_allowed i = record {
    blocked_distinct = v.blocked_distinct;
    allowed_distinct = distinct-delete_at discrete s.whitelist i v.allowed_distinct;
    blocked_stored = v.blocked_stored;
    allowed_stored = All-delete_at IsStored s.whitelist i v.allowed_stored;
    expiring_distinct = v.expiring_distinct;
    expiring_blocked = v.expiring_blocked;
  }

  set_expiry :
      (t : Time)
      → t ≢ 0
      → member discrete p s.blocklist ≡ true
      → IsValid (record s { expirations = insert discrete p t s.expirations })
  set_expiry t n m = record {
    blocked_distinct = v.blocked_distinct;
    allowed_distinct = v.allowed_distinct;
    blocked_stored = v.blocked_stored;
    allowed_stored = v.allowed_stored;
    expiring_distinct = distinct-keys-insert discrete p t s.expirations v.expiring_distinct;
    expiring_blocked =
        λ q u e. ground (arith, lookup-insert discrete p q t s.expirations, v.expiring_blocked q u);
  }

edit-IsValid :
    (op : Action) (list : PolicyList) (p : Prefix) (s d : Store)
    → IsStored p
    → IsValid s
    → edit op list p s ≡ ok (some d)
    → IsValid d
unfolding edit
edit-IsValid add blocklist p s d stored v h = ground (arith, append_blocked p stored s v)
edit-IsValid add whitelist p s d stored v h = ground (arith, append_allowed p stored s v)
edit-IsValid add (other _) p s d stored v h = ground (arith, append_allowed p stored s v)
edit-IsValid remove blocklist p s d stored v h =
    elim (Option-cases (index discrete p s.blocklist)) [
      | inl e ↦ absurd (ground arith)
      | inr (i, e) ↦ ground (arith, remove_blocked p stored s v i)
    ]
edit-IsValid remove whitelist p s d stored v h =
    elim (Option-cases (index discrete p s.whitelist)) [
      | inl e ↦ absurd (ground arith)
      | inr (i, e) ↦ ground (arith, remove_allowed p stored s v i)
    ]
edit-IsValid remove (other _) p s d stored v h =
    elim (Option-cases (index discrete p s.whitelist)) [
      | inl e ↦ absurd (ground arith)
      | inr (i, e) ↦ ground (arith, remove_allowed p stored s v i)
    ]
edit-IsValid replace list p s d stored v h = absurd (ground arith)
edit-IsValid delete list p s d stored v h = absurd (ground arith)
edit-IsValid (unknown _) list p s d stored v h = absurd (ground arith)

edit_until-IsValid :
    (p : Prefix) (t : Time) (s d : Store)
    → IsStored p
    → t ≢ 0
    → IsValid s
    → edit_until p t s ≡ some d
    → IsValid d
unfolding edit_until
edit_until-IsValid p t s d stored n v h = elim (Option-cases (index discrete p s.blocklist)) [
  | inl e ↦
      let appended = append_blocked p stored s v e in
      let listed = member-append discrete p s.blocklist (p ∷ []) in
      ground (
        arith,
        set_expiry p stored (record s { blocklist = s.blocklist ++ p ∷ [] }) appended t n,
        listed,
        member_one p (s.blocklist),
      )
  | inr (i, e) ↦
      ground (arith, set_expiry p stored s v t n, index-eq-some→member discrete p s.blocklist i)
]

abbrev pub event_of : System → Action → PolicyList → Prefix → AuditEvent
event_of sys op list p = record { time = sys.now; operation = op; list = list; prefix = p }

-- The store that a draft becomes.
abbrev pub audited : System → Action → PolicyList → Prefix → Stored → Store → Store
audited sys op list p s d = record d { audit = s.store.audit ++ event_of sys op list p ∷ [] }

module _ (P : Store → Type 0) (s : Stored) (old : P s.store) where
  assign_cases :
      (next : Store) (w : Option Error × Option DiskState) → P next → P (assign next s w).1.store
  unfolding assign
  assign_cases next (none, file) n = n
  assign_cases next (some e, file) n = old

  -- A step that puts a draft in place keeps what the store and every draft have.
  pub finish_cases :
      (sys : System) (op : Action) (list : PolicyList) (p : Prefix) (r : Result (Option Store))
      → ((d : Store) → r ≡ ok (some d) → P (audited sys op list p s d))
      → P (finish sys op list p r s).1.store
  unfolding finish commit
  finish_cases sys op list p (err e) new = old
  finish_cases sys op list p (ok none) new = old
  finish_cases sys op list p (ok (some d)) new = elim (Bool-cases (str_eq s.store.path "")) [
    | inl e ↦ rw (e, commit) (assign_cases _ _ (new d refl))
    | inr e ↦ rw (e, commit) (assign_cases _ _ (new d refl))
  ]

  -- Add and Remove.
  pub mutate_cases :
      (sys : System) (op : Action) (list : PolicyList) (p : Prefix)
      → ((d : Store)
          → valid_list list ≡ true
          → is_valid p ≡ true
          → edit op list (masked p) s.store ≡ ok (some d)
          → P (audited sys op list (masked p) s d))
      → P (mutate sys op list p s).1.store
  unfolding mutate
  mutate_cases sys op list p new = elim (Bool-cases (valid_list list)) [
    | inr e ↦ rw (e, mutate) old
    | inl e ↦ elim (Bool-cases (is_valid p)) [
      | inr f ↦ rw (e, f, mutate) old
      | inl f ↦ rw (e, f, mutate) (finish_cases sys op list (masked p) _ λ d h. new d e f h)
    ]
  ]

  -- AddUntil.
  pub add_until_cases :
      (sys : System) (list : PolicyList) (p : Prefix) (t : Time)
      → ((d : Store)
          → is_valid p ≡ true
          → t ≢ 0
          → edit_until (masked p) t s.store ≡ some d
          → P (audited sys add blocklist (masked p) s d))
      → P (add_until sys list p t s).1.store
  unfolding add_until
  add_until_cases sys blocklist p t new = elim (Bool-cases (is_valid p)) [
    | inr e ↦ rw (e, add_until) old
    | inl e ↦ elim (Bool-cases (is_zero_time t)) [
      | inl f ↦ rw (e, f, add_until) old
      | inr f ↦
          rw (e, f, add_until)
            (finish_cases sys add blocklist (masked p) _
              λ d h. new d e (ground arith) (ground arith))
    ]
  ]
  add_until_cases sys whitelist p t new = old
  add_until_cases sys (other _) p t new = old

audit-IsValid :
    (d : Store) (events : List AuditEvent) → IsValid d → IsValid (record d { audit = events })
audit-IsValid d events v = record {
  blocked_distinct = v.blocked_distinct;
  allowed_distinct = v.allowed_distinct;
  blocked_stored = v.blocked_stored;
  allowed_stored = v.allowed_stored;
  expiring_distinct = v.expiring_distinct;
  expiring_blocked = v.expiring_blocked;
}

-- On a valid store Add and Remove, successful, without effect or failing, leave a valid store: the
-- lists have no duplicates and only masked prefixes, and only blocked prefixes have an expiry.
pub mutate-IsValid :
    (sys : System) (op : Action) (list : PolicyList) (p : Prefix) (s : Stored)
    → IsValid s.store
    → IsValid (mutate sys op list p s).1.store
mutate-IsValid sys op list p s v = mutate_cases IsValid s v sys op list p λ d l f h.
    audit-IsValid d _ (edit-IsValid op list (masked p) s.store d (masked-IsStored p f) v h)

-- On a valid store AddUntil, successful, without effect or failing, leaves a valid store.
pub add_until-IsValid :
    (sys : System) (list : PolicyList) (p : Prefix) (t : Time) (s : Stored)
    → IsValid s.store
    → IsValid (add_until sys list p t s).1.store
add_until-IsValid sys list p t s v = add_until_cases IsValid s v sys list p t λ d f n h.
    audit-IsValid d _ (edit_until-IsValid (masked p) t s.store d (masked-IsStored p f) n v h)

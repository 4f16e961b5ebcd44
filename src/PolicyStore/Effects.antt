-- ===== src/PolicyStore/Effects.antt =====
-- What the results of the store's methods say about the store afterwards.
use rtbh_panel.Common.{
  ℕ, Bool, true, false, not, ◌&&◌, ◌||◌, ◌≡◌, ◌≢◌, refl, Option, none, some, List, [], ◌∷◌, ◌++◌,
  arith, Bool-cases, Option-cases, inl, inr, ite,
}
use rtbh_panel.Common.Lists.{
  index, delete_at, member, distinct, any, index-eq-none→member, index-eq-some→member,
  member-delete_at_ne, member-delete_at_self,
}
use rtbh_panel.Net.Addr.{Addr}
use rtbh_panel.Net.Addr
use rtbh_panel.Net.Prefix.{Prefix, is_valid, masked, discrete, contains}
use rtbh_panel.Net.Overlap.{contains-masked}
use rtbh_panel.Policy.{
  valid_list, PolicyList, blocklist, whitelist, other, Action, add, remove, replace, delete,
  unknown,
}
use rtbh_panel.PolicyStore.State.{Store, Result, ok, err, blocked, covers}
use rtbh_panel.PolicyStore.Disk.{System}
use rtbh_panel.PolicyStore.Mutate.{Stored, edit, finish, assign, commit, mutate, target}
use rtbh_panel.PolicyStore.Invariant.{IsValid, audited}

-- The store after a step that returned no error.
abbrev pub placed : System → Action → PolicyList → Prefix → Stored → Option Store → Store
placed sys op list p s none = s.store
placed sys op list p s (some d) = audited sys op list p s d

-- What one call means for the listing of a prefix q.
abbrev pub expected : Action → Prefix → Prefix → Bool → Bool
expected add p q old = ite (discrete p q) true old
expected remove p q old = ite (discrete p q) false old
expected _ p q old = old

module _ (sys : System) (op : Action) (list : PolicyList) (p : Prefix) (s : Stored) where
  pub finish_ok :
      (r : Result (Option Store)) (b : Bool)
      → (finish sys op list p r s).0 ≡ ok b
      → (o : Option Store) × (r ≡ ok o)
        × ((finish sys op list p r s).1.store ≡ placed sys op list p s o)
  unfolding finish commit assign
  finish_ok (err e) b h = absurd (ground arith)
  finish_ok (ok none) b h = (none, refl, refl)
  finish_ok (ok (some d)) b h = (some d, refl, ground arith)

  pub finish_unchanged :
      (r : Result (Option Store))
      → (finish sys op list p r s).0 ≢ ok true
      → (finish sys op list p r s).1.store ≡ s.store
  unfolding finish commit assign
  finish_unchanged (err e) h = refl
  finish_unchanged (ok none) h = refl
  finish_unchanged (ok (some d)) h = ground arith

module _ (sys : System) (op : Action) (list : PolicyList) (p : Prefix) (s : Stored) where
  pub mutate_ok :
      (b : Bool)
      → (mutate sys op list p s).0 ≡ ok b
      → (o : Option Store) × (edit op list (masked p) s.store ≡ ok o)
        × ((mutate sys op list p s).1.store ≡ placed sys op list (masked p) s o)
  unfolding mutate
  mutate_ok b h = elim (Bool-cases (valid_list list)) [
    | inr e ↦ absurd (ground arith)
    | inl e ↦ elim (Bool-cases (is_valid p)) [
      | inr f ↦ absurd (ground arith)
      | inl f ↦ rw (e, f, mutate) (finish_ok sys op list (masked p) s _ b (ground arith))
    ]
  ]

  -- A call of Add or Remove that does not return true, with an error or without, leaves the store
  -- in memory as it was.
  pub mutate_unchanged :
      (mutate sys op list p s).0 ≢ ok true → (mutate sys op list p s).1.store ≡ s.store
  unfolding mutate
  mutate_unchanged h =
      ground (arith, finish_unchanged sys op list (masked p) s (edit op list (masked p) s.store))

-- The two edits of a list, as `edit` makes them.
append_listed :
    (p q : Prefix) (xs : List Prefix)
    → member discrete q (xs ++ p ∷ []) ≡ ite (discrete p q) true (member discrete q xs)
unfolding member
append_listed p q [] = refl
append_listed p q (x ∷ xs) = ground (arith, append_listed p q xs)

present_listed :
    (p q : Prefix) (xs : List Prefix) (i : ℕ)
    → index discrete p xs ≡ some i
    → member discrete q xs ≡ ite (discrete p q) true (member discrete q xs)
present_listed p q xs i e = ground (arith, index-eq-some→member discrete p xs i)

pub absent_listed :
    (p q : Prefix) (xs : List Prefix)
    → index discrete p xs ≡ none
    → member discrete q xs ≡ ite (discrete p q) false (member discrete q xs)
absent_listed p q xs e = ground (arith, index-eq-none→member discrete p xs)

pub delete_listed :
    (p q : Prefix) (xs : List Prefix) (i : ℕ)
    → distinct discrete xs ≡ true
    → index discrete p xs ≡ some i
    → member discrete q (delete_at xs i) ≡ ite (discrete p q) false (member discrete q xs)
delete_listed p q xs i d e =
    ground (arith, member-delete_at_self discrete p xs i, member-delete_at_ne discrete p q xs i)

pub edit_path :
    (op : Action) (list : PolicyList) (p : Prefix) (s d : Store)
    → edit op list p s ≡ ok (some d)
    → d.path ≡ s.path
unfolding edit
edit_path add blocklist p s d h = ground arith
edit_path add whitelist p s d h = ground arith
edit_path add (other _) p s d h = ground arith
edit_path remove blocklist p s d h = ground arith
edit_path remove whitelist p s d h = ground arith
edit_path remove (other _) p s d h = ground arith
edit_path replace list p s d h = absurd (ground arith)
edit_path delete list p s d h = absurd (ground arith)
edit_path (unknown _) list p s d h = absurd (ground arith)

module _ (sys : System) (p q : Prefix) (s : Stored) where
  add_effect :
      (list : PolicyList) (o : Option Store)
      → edit add list p s.store ≡ ok o
      → member discrete q (target list (placed sys add list p s o))
        ≡ expected add p q (member discrete q (target list s.store))
  unfolding edit
  add_effect blocklist o e = elim (Option-cases (index discrete p s.store.blocklist)) [
    | inl n ↦ ground (arith, append_listed p q s.store.blocklist)
    | inr (i, n) ↦ ground (arith, present_listed p q s.store.blocklist i)
  ]
  add_effect whitelist o e = elim (Option-cases (index discrete p s.store.whitelist)) [
    | inl n ↦ ground (arith, append_listed p q s.store.whitelist)
    | inr (i, n) ↦ ground (arith, present_listed p q s.store.whitelist i)
  ]
  add_effect (other name) o e = elim (Option-cases (index discrete p s.store.whitelist)) [
    | inl n ↦ ground (arith, append_listed p q s.store.whitelist)
    | inr (i, n) ↦ ground (arith, present_listed p q s.store.whitelist i)
  ]

  remove_effect :
      (list : PolicyList) (o : Option Store)
      → distinct discrete (target list s.store) ≡ true
      → edit remove list p s.store ≡ ok o
      → member discrete q (target list (placed sys remove list p s o))
        ≡ expected remove p q (member discrete q (target list s.store))
  unfolding edit
  remove_effect blocklist o d e = elim (Option-cases (index discrete p s.store.blocklist)) [
    | inl n ↦ ground (arith, absent_listed p q s.store.blocklist)
    | inr (i, n) ↦ ground (arith, delete_listed p q s.store.blocklist i)
  ]
  remove_effect whitelist o d e = elim (Option-cases (index discrete p s.store.whitelist)) [
    | inl n ↦ ground (arith, absent_listed p q s.store.whitelist)
    | inr (i, n) ↦ ground (arith, delete_listed p q s.store.whitelist i)
  ]
  remove_effect (other name) o d e = elim (Option-cases (index discrete p s.store.whitelist)) [
    | inl n ↦ ground (arith, absent_listed p q s.store.whitelist)
    | inr (i, n) ↦ ground (arith, delete_listed p q s.store.whitelist i)
  ]

edit_effect :
    (sys : System) (op : Action) (list : PolicyList) (p q : Prefix) (s : Stored) (o : Option Store)
    → IsValid s.store
    → edit op list p s.store ≡ ok o
    → member discrete q (target list (placed sys op list p s o))
      ≡ expected op p q (member discrete q (target list s.store))
unfolding edit
edit_effect sys add list p q s o v e = add_effect sys p q s list o e
edit_effect sys remove blocklist p q s o v e =
    remove_effect sys p q s blocklist o v.blocked_distinct e
edit_effect sys remove whitelist p q s o v e =
    remove_effect sys p q s whitelist o v.allowed_distinct e
edit_effect sys remove (other n) p q s o v e =
    remove_effect sys p q s (other n) o v.allowed_distinct e
edit_effect sys replace list p q s o v e = absurd (ground arith)
edit_effect sys delete list p q s o v e = absurd (ground arith)
edit_effect sys (unknown n) list p q s o v e = absurd (ground arith)

-- After Add or Remove on a valid store returns without an error, exactly the masked prefix has
-- changed its listing: it is listed after Add, and not listed after Remove.
pub mutate_effect :
    (sys : System) (op : Action) (list : PolicyList) (p q : Prefix) (s : Stored) (b : Bool)
    → IsValid s.store
    → (mutate sys op list p s).0 ≡ ok b
    → member discrete q (target list (mutate sys op list p s).1.store)
      ≡ expected op (masked p) q (member discrete q (target list s.store))
mutate_effect sys op list p q s b v h =
    let (o, e, f) = mutate_ok sys op list p s b h in
    rw f (edit_effect sys op list (masked p) q s o v e)

covers-append_one :
    (xs : List Prefix) (p : Prefix) (a : Addr)
    → covers (xs ++ p ∷ []) a ≡ covers xs a || contains p a
unfolding covers any
covers-append_one [] p a = ground arith
covers-append_one (x ∷ xs) p a = ground (arith, covers-append_one xs p a)

member→covers :
    (xs : List Prefix) (p : Prefix) (a : Addr)
    → member discrete p xs ≡ true
    → contains p a ≡ true
    → covers xs a ≡ true
unfolding covers any member
member→covers [] p a h c = cc
member→covers (x ∷ xs) p a h c = ground (arith, member→covers xs p a)

-- No address lies in a prefix of another kind, or in none.
not-contains_invalid : (p : Prefix) (a : Addr) → Addr.is_valid a ≡ false → contains p a ≡ false
unfolding contains
not-contains_invalid p a h = ground arith

module _ (sys : System) (p p' : Prefix) (a : Addr) (s : Stored) (o : Option Store)
    (m : contains p a ≡ contains p' a) where
  allow_effect :
      edit add whitelist p s.store ≡ ok o
      → blocked (placed sys add whitelist p s o) a ≡ blocked s.store a && not (contains p' a)
  unfolding edit blocked
  allow_effect e = elim (Option-cases (index discrete p s.store.whitelist)) [
    | inl n ↦ ground (arith, covers-append_one s.store.whitelist p a)
    | inr (i, n) ↦ ground (
      arith,
      index-eq-some→member discrete p s.store.whitelist i,
      member→covers s.store.whitelist p a,
    )
  ]

  deny_effect :
      edit add blocklist p s.store ≡ ok o
      → blocked (placed sys add blocklist p s o) a
        ≡ blocked s.store a || (contains p' a && not (covers s.store.whitelist a))
  unfolding edit blocked
  deny_effect e = elim (Option-cases (index discrete p s.store.blocklist)) [
    | inl n ↦ ground (arith, covers-append_one s.store.blocklist p a, not-contains_invalid p a)
    | inr (i, n) ↦ ground (
      arith,
      index-eq-some→member discrete p s.store.blocklist i,
      member→covers s.store.blocklist p a,
      not-contains_invalid p a,
    )
  ]

-- When Add to the whitelist returns no error, exactly the addresses of the prefix are no longer
-- blocked.
pub blocked-mutate_add_whitelist :
    (sys : System) (p : Prefix) (a : Addr) (s : Stored) (b : Bool)
    → (mutate sys add whitelist p s).0 ≡ ok b
    → blocked (mutate sys add whitelist p s).1.store a ≡ blocked s.store a && not (contains p a)
blocked-mutate_add_whitelist sys p a s b h =
    let (o, e, f) = mutate_ok sys add whitelist p s b h in
    rw f (allow_effect sys (masked p) p a s o (contains-masked p a) e)

-- When Add to the blocklist returns no error, exactly the addresses of the prefix that no
-- whitelist prefix holds are blocked as well.
pub blocked-mutate_add_blocklist :
    (sys : System) (p : Prefix) (a : Addr) (s : Stored) (b : Bool)
    → (mutate sys add blocklist p s).0 ≡ ok b
    → blocked (mutate sys add blocklist p s).1.store a
      ≡ blocked s.store a || (contains p a && not (covers s.store.whitelist a))
blocked-mutate_add_blocklist sys p a s b h =
    let (o, e, f) = mutate_ok sys add blocklist p s b h in
    rw f (deny_effect sys (masked p) p a s o (contains-masked p a) e)

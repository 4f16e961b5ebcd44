-- ===== src/Controller/Written.antt =====
-- A write that succeeds leaves a store with the proposed lists.
use rtbh_panel.Common.{true, ◌≡◌, subst, Option, none, some, List, arith, Option-cases, inl, inr}
use rtbh_panel.Common.Lists.{index, member, member-delete_at_self}
use rtbh_panel.Common.Assoc.{lookup, lookup-delete}
use rtbh_panel.Net.Addr.{Addr}
use rtbh_panel.Net.Prefix.{Prefix, masked, discrete}
use rtbh_panel.Policy.{
  Time, PolicyList, blocklist, whitelist, other, Action, add, remove, replace, delete, unknown,
  Mutation, valid_list,
}
use rtbh_panel.PolicyStore.State.{Store, ok}
use rtbh_panel.PolicyStore.Disk.{System}
use rtbh_panel.PolicyStore.Mutate.{Stored, edit, mutate}
use rtbh_panel.PolicyStore.Invariant.{IsValid}
use rtbh_panel.PolicyStore.Effects.{placed, mutate_ok}
use rtbh_panel.Adapter.{
  canonical, canonical-masked, mutate_store, report, report-stored, report_ok, store_action,
}
use rtbh_panel.Controller.Interface.{RouteEngine}
use rtbh_panel.Controller.Routes.{effective_routes, lookup-effective_routes}
use rtbh_panel.Controller.Delta.Rollback.{has}
use rtbh_panel.Controller.Apply.{SqlStore, changed, propose, persist_policy}

-- A store with the proposed lists, and the expiries of before for the prefixes that it blocks.
pub record Holds (bl wl : List Prefix) (ex : List (Prefix × Time)) (s : Store) : Type 0 where
  pub denied : s.blocklist ≡ bl
  pub allowed : s.whitelist ≡ wl
  pub expiring :
      (q : Prefix)
      → member discrete q bl ≡ true
      → lookup discrete q s.expirations ≡ lookup discrete q ex

module _ (sys : System) (p : Prefix) (st : Stored) (v : IsValid st.store) (bl wl : List Prefix)
    (o : Option Store) where
  abbrev s : Store
  s = st.store

  add-Holds :
      (list : PolicyList)
      → propose add list p none s ≡ changed bl wl
      → edit add list p s ≡ ok o
      → valid_list list ≡ true
      → Holds bl wl s.expirations (placed sys add list p st o)
  unfolding propose edit
  add-Holds blocklist h e l = elim (Option-cases (index discrete p s.blocklist)) [
    | inl n ↦ record {
      denied = ground arith;
      allowed = ground arith;
      expiring = λ q m. ground arith;
    }
    | inr (i, n) ↦ absurd (ground arith)
  ]
  add-Holds whitelist h e l = elim (Option-cases (index discrete p s.whitelist)) [
    | inl n ↦ record {
      denied = ground arith;
      allowed = ground arith;
      expiring = λ q m. ground arith;
    }
    | inr (i, n) ↦ absurd (ground arith)
  ]
  add-Holds (other _) h e l = absurd (ground arith)

  remove-Holds :
      (list : PolicyList)
      → propose remove list p none s ≡ changed bl wl
      → edit remove list p s ≡ ok o
      → valid_list list ≡ true
      → Holds bl wl s.expirations (placed sys remove list p st o)
  unfolding propose edit
  remove-Holds blocklist h e l = elim (Option-cases (index discrete p s.blocklist)) [
    | inl n ↦ absurd (ground arith)
    | inr (i, n) ↦ record {
      denied = ground arith;
      allowed = ground arith;
      expiring = λ q m. ground (
        arith,
        lookup-delete discrete p q s.expirations,
        member-delete_at_self discrete p s.blocklist i v.blocked_distinct n,
      );
    }
  ]
  remove-Holds whitelist h e l = elim (Option-cases (index discrete p s.whitelist)) [
    | inl n ↦ absurd (ground arith)
    | inr (i, n) ↦ record {
      denied = ground arith;
      allowed = ground arith;
      expiring = λ q m. ground arith;
    }
  ]
  remove-Holds (other _) h e l = absurd (ground arith)

-- The store's edit for an action, where it has one.
edit-Holds :
    (sys : System) (p : Prefix) (st : Stored) (v : IsValid st.store) (bl wl : List Prefix)
    (o : Option Store) (action op : Action) (list : PolicyList)
    → store_action action ≡ some op
    → propose action list p none st.store ≡ changed bl wl
    → edit op list p st.store ≡ ok o
    → valid_list list ≡ true
    → Holds bl wl st.store.expirations (placed sys op list p st o)
edit-Holds sys p st v bl wl o add op list a h e l =
    let same : add ≡ op = ground arith in
    subst
      (λ (op : Action).
        edit op list p st.store ≡ ok o
        → Holds bl wl st.store.expirations (placed sys op list p st o))
      same (λ k. add-Holds sys p st v bl wl o list h k l) e
edit-Holds sys p st v bl wl o replace op list a h e l =
    let same : add ≡ op = ground arith in
    subst
      (λ (op : Action).
        edit op list p st.store ≡ ok o
        → Holds bl wl st.store.expirations (placed sys op list p st o))
      same (λ k. add-Holds sys p st v bl wl o list (unfold propose in h) k l) e
edit-Holds sys p st v bl wl o remove op list a h e l =
    let same : remove ≡ op = ground arith in
    subst
      (λ (op : Action).
        edit op list p st.store ≡ ok o
        → Holds bl wl st.store.expirations (placed sys op list p st o))
      same (λ k. remove-Holds sys p st v bl wl o list h k l) e
edit-Holds sys p st v bl wl o delete op list a h e l =
    let same : remove ≡ op = ground arith in
    subst
      (λ (op : Action).
        edit op list p st.store ≡ ok o
        → Holds bl wl st.store.expirations (placed sys op list p st o))
      same (λ k. remove-Holds sys p st v bl wl o list (unfold propose in h) k l) e
edit-Holds sys p st v bl wl o (unknown _) op list a h e l = absurd (ground arith)

-- The write of an action that the store has.
mutate-Holds :
    (sys : System) (p : Prefix) (st : Stored) (bl wl : List Prefix) (action op : Action)
    (list : PolicyList)
    → IsValid st.store
    → masked p ≡ p
    → store_action action ≡ some op
    → propose action list p none st.store ≡ changed bl wl
    → valid_list list ≡ true
    → (report (mutate sys op list p st)).0 ≡ none
    → Holds bl wl st.store.expirations (report (mutate sys op list p st)).1.store
mutate-Holds sys p st bl wl action op list v c a h l r =
    let (b, good) = report_ok (mutate sys op list p st) r in
    let (o, e, f) = mutate_ok sys op list p st b good in
    rw (report-stored (mutate sys op list p st), f)
      (rw c (edit-Holds sys p st v bl wl o action op list a h (rw c at e) l))

-- A write without an expiry that succeeds leaves a store with the proposed lists.
pub persist_policy-Holds :
    {E D : Type 0} (g : RouteEngine E) (q : SqlStore D) (sys : System) (m : Mutation) (p : Prefix)
    (st : Stored) (bl wl : List Prefix)
    → IsValid st.store
    → m.expires_at ≡ none
    → canonical sys m.prefix ≡ some p
    → valid_list m.list ≡ true
    → propose m.action m.list p none st.store ≡ changed bl wl
    → (persist_policy g q sys m p st).0 ≡ none
    → Holds bl wl st.store.expirations (persist_policy g q sys m p st).1.store
unfolding persist_policy mutate_store
persist_policy-Holds g q sys m p st bl wl v x c l h r =
    elim (Option-cases (store_action m.action)) [
      | inl n ↦ absurd (ground arith)
      | inr (op, a) ↦
          rw (x, c, l, a, mutate_store)
            (mutate-Holds sys p st bl wl m.action op m.list v (canonical-masked sys m.prefix p c) a
              h l (ground arith))
    ]

-- Equal lists, and equal expiries of what is blocked, call for the same prefixes.
pub effective_routes-Holds :
    (now : Time) (h4 h6 : Addr) (bl wl : List Prefix) (ex : List (Prefix × Time)) (t : Store)
    (x : Prefix)
    → Holds bl wl ex t
    → has (effective_routes wl ex now h4 h6 bl) x
      ≡ has (effective_routes t.whitelist t.expirations now h4 h6 t.blocklist) x
effective_routes-Holds now h4 h6 bl wl ex t x h = ground (
  arith,
  lookup-effective_routes wl ex now h4 h6 x bl,
  lookup-effective_routes t.whitelist t.expirations now h4 h6 x t.blocklist,
  h.denied,
  h.allowed,
  h.expiring x,
)

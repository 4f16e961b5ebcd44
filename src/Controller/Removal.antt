-- ===== src/Controller/Removal.antt =====
-- What the removal of one prefix from the blocklist leaves in the policy file's store.
use rtbh_panel.Common.{
  false, ◌≡◌, refl, sym, subst, ◌∙◌, ap, ite, Option, none, some, arith, Option-cases, inl, inr,
}
use rtbh_panel.Common.Lists.{index, member}
use rtbh_panel.Common.Assoc.{lookup, lookup-delete}
use rtbh_panel.Net.Prefix.{Prefix, discrete, masked}
use rtbh_panel.Policy.{blocklist, remove, Mutation}
use rtbh_panel.PolicyStore.State.{Store, ok}
use rtbh_panel.PolicyStore.Disk.{System}
use rtbh_panel.PolicyStore.Mutate.{Stored, edit, mutate}
use rtbh_panel.PolicyStore.Invariant.{IsValid, mutate-IsValid}
use rtbh_panel.PolicyStore.Effects.{placed, mutate_ok, absent_listed, delete_listed}
use rtbh_panel.Adapter.{Failure, canonical, mutate_store, report, report-stored, report_ok}
use rtbh_panel.Controller.Interface.{RouteEngine}
use rtbh_panel.Controller.Delta.{apply_delta}
use rtbh_panel.Controller.Routes.{RouteMap, effective_routes}
use rtbh_panel.Controller.Apply.{
  SqlStore, Controller, Proposal, changed, unchanged, unsupported, propose, routes, deliver,
  persist_policy, carry_out, apply_locked,
}

-- Of a blocked prefix that is removed, neither the listing nor the expiry is left.
remove_placed :
    (sys : System) (p q : Prefix) (s : Stored) (o : Option Store)
    → IsValid s.store
    → edit remove blocklist p s.store ≡ ok o
    → (member discrete q (placed sys remove blocklist p s o).blocklist
        ≡ ite (discrete p q) false (member discrete q s.store.blocklist))
      × (lookup discrete q (placed sys remove blocklist p s o).expirations
          ≡ ite (discrete p q) none (lookup discrete q s.store.expirations))
unfolding edit
remove_placed sys p q s o v e = elim (Option-cases (index discrete p s.store.blocklist)) [
  | inl n ↦ elim (Option-cases (lookup discrete p s.store.expirations)) [
    | inl k ↦ (ground (arith, absent_listed p q s.store.blocklist n), ground arith)
    | inr (t, k) ↦
        absurd (ground (arith, v.expiring_blocked p t k, absent_listed p p s.store.blocklist n))
  ]
  | inr (i, n) ↦ (
    ground (arith, delete_listed p q s.store.blocklist i v.blocked_distinct n),
    ground (arith, lookup-delete discrete p q s.store.expirations),
  )
]

module _ {E D : Type 0} (g : RouteEngine E) (q : SqlStore D) where
  -- What is left of a controller after the removal of a prefix.
  pub record Removed (p : Prefix) (c next : Controller E D) : Type 0 where
    pub valid : IsValid next.stored.store
    pub listed :
        (x : Prefix)
        → member discrete x next.stored.store.blocklist
          ≡ ite (discrete p x) false (member discrete x c.stored.store.blocklist)
    pub expiring :
        (x : Prefix)
        → lookup discrete x next.stored.store.expirations
          ≡ ite (discrete p x) none (lookup discrete x c.stored.store.expirations)

  abbrev pub removal : System → Prefix → Mutation
  removal sys p = record {
    action = remove;
    list = blocklist;
    prefix = sys.print p;
    expires_at = none;
  }

  persist_policy_removed :
      (sys : System) (p : Prefix) (s : Stored)
      → IsValid s.store
      → masked p ≡ p
      → canonical sys (sys.print p) ≡ some p
      → (persist_policy g q sys (removal sys p) p s).0 ≡ none
      → (o : Option Store) × (edit remove blocklist p s.store ≡ ok o)
        × ((persist_policy g q sys (removal sys p) p s).1.store ≡ placed sys remove blocklist p s o)
        × IsValid (persist_policy g q sys (removal sys p) p s).1.store
  unfolding persist_policy mutate_store
  persist_policy_removed sys p s v m k h =
      let step : persist_policy g q sys (removal sys p) p s
          ≡ report (mutate sys remove blocklist p s) =
        ground arith in
      let (b, good) = report_ok (mutate sys remove blocklist p s) (ground arith) in
      let (o, e, f) = mutate_ok sys remove blocklist p s b good in
      let kept : (report (mutate sys remove blocklist p s)).1.store
          ≡ placed sys remove blocklist p s o =
        ap (λ (t : Stored). t.store) (report-stored (mutate sys remove blocklist p s))
        ∙ (f ∙ ap (λ p. placed sys remove blocklist p s o) m) in
      (
        o,
        rw m at e,
        ap (λ (x : Option Failure × Stored). x.1.store) step ∙ kept,
        subst (λ (x : Option Failure × Stored). IsValid x.1.store) (sym step)
            (subst (λ (t : Stored). IsValid t.store)
              (sym (report-stored (mutate sys remove blocklist p s)))
              (mutate-IsValid sys remove blocklist p s v)),
      )

  -- A list without the prefix is left as it is.
  unchanged-Removed :
      (sys : System) (p : Prefix) (c : Controller E D)
      → IsValid c.stored.store
      → index discrete p c.stored.store.blocklist ≡ none
      → Removed p c c
  unchanged-Removed sys p c v n =
      let e : edit remove blocklist p c.stored.store ≡ ok none = unfold edit in ground arith in
      record {
        valid = v;
        listed = λ x. (remove_placed sys p x c.stored none v e).0;
        expiring = λ x. (remove_placed sys p x c.stored none v e).1;
      }

  carry_out-Removed :
      (sys : System) (p : Prefix) (before : RouteMap) (pr : Proposal) (c : Controller E D)
      → IsValid c.stored.store
      → masked p ≡ p
      → canonical sys (sys.print p) ≡ some p
      → propose remove blocklist p none c.stored.store ≡ pr
      → (carry_out g q sys (removal sys p) p before pr c).0 ≡ none
      → Removed p c (carry_out g q sys (removal sys p) p before pr c).1
  unfolding deliver
  carry_out-Removed sys p before unsupported c v m k e h = absurd (ground arith)
  carry_out-Removed sys p before unchanged c v m k e h =
      unchanged-Removed sys p c v (unfold propose in ground arith)
  carry_out-Removed sys p before (changed bl wl) c v m k e h =
      let desired =
        effective_routes wl c.stored.store.expirations sys.now c.next_hop_v4 c.next_hop_v6 bl in
      let sound : (apply_delta g desired c.active c.engine).error ≡ none = ground arith in
      let written : (persist_policy g q sys (removal sys p) p c.stored).0 ≡ none = ground arith in
      let (o, edited, stored, valid) = persist_policy_removed sys p c.stored v m k written in
      let step : (carry_out g q sys (removal sys p) p before (changed bl wl) c).1.stored.store
          ≡ (persist_policy g q sys (removal sys p) p c.stored).1.store =
        ground arith in
      record {
        valid = subst IsValid (sym step) valid;
        listed = λ x.
            ap (λ (t : Store). member discrete x t.blocklist) (step ∙ stored)
            ∙ (remove_placed sys p x c.stored o v edited).0;
        expiring = λ x.
            ap (λ (t : Store). lookup discrete x t.expirations) (step ∙ stored)
            ∙ (remove_placed sys p x c.stored o v edited).1;
      }

  pub apply_locked-Removed :
      (sys : System) (p : Prefix) (c : Controller E D)
      → IsValid c.stored.store
      → masked p ≡ p
      → sys.parse (sys.print p) ≡ some p
      → (apply_locked g q sys sys.now (removal sys p) c).0 ≡ none
      → Removed p c (apply_locked g q sys sys.now (removal sys p) c).1
  unfolding apply_locked
  apply_locked-Removed sys p c v m k h =
      let text : canonical sys (sys.print p) ≡ some p = unfold canonical in ground arith in
      rw (text, apply_locked)
        (carry_out-Removed sys p (routes g q sys.now c) _ c v m text refl
          (rw (text, apply_locked) at h))

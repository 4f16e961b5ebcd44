-- ===== src/Controller/Apply.antt =====
-- policyController: Apply, applyLocked, Reconcile and the expiry of prefixes.
use rtbh_panel.Common.{Bool, true, not, Option, none, some, List, [], ◌∷◌, ◌++◌, if◌then◌else◌}
use rtbh_panel.Common.Lists.{index, delete_at}
use rtbh_panel.Net.Addr.{Addr}
use rtbh_panel.Net.Prefix.{Prefix, discrete}
use rtbh_panel.Policy.{
  Time, PolicyList, blocklist, whitelist, Action, add, remove, replace, delete, unknown, Mutation,
  valid_list,
}
use rtbh_panel.PolicyStore.State.{Store, expiry}
use rtbh_panel.PolicyStore.Disk.{System}
use rtbh_panel.PolicyStore.Mutate.{Stored, add_until, same_expiry}
use rtbh_panel.Adapter
use rtbh_panel.Adapter.{canonical, mutate_store, report}
use rtbh_panel.Controller.Interface.{RouteEngine}
use rtbh_panel.Controller.Routes.{RouteMap, effective_routes}
use rtbh_panel.Controller.Delta
use rtbh_panel.Controller.Delta.{Outcome, apply_delta}

-- The calls of the SQL store. Each says whether it returned no error.
pub record SqlStore (D : Type 0) : Type 0 where
  pub add_policy : Mutation → D → Bool × D
  pub remove_policy : Mutation → D → Bool × D
  pub record_audit : Mutation → D → D
  pub all_prefixes : PolicyList → D → List Prefix

pub record Controller (E D : Type 0) : Type 0 where
  pub stored : Stored
  pub sql : Option D
  pub engine : E
  pub dry_run : Bool
  pub next_hop_v4 : Addr
  pub next_hop_v6 : Addr
  pub publishes : Bool
  pub published : List Mutation
  pub active : RouteMap
  pub wake : Bool

pub data Failure : Type 0 where
  dry_run_rejected canonical_prefix_required unsupported_list unsupported_action sql_failed :
      Failure
  delta : Delta.Failure → Failure
  store : Adapter.Failure → Failure

-- What the switch of applyLocked proposes for the two lists.
pub data Proposal : Type 0 where
  unsupported unchanged : Proposal
  changed : List Prefix → List Prefix → Proposal

abbrev pub with_target : PolicyList → List Prefix → Store → Proposal
with_target whitelist l s = changed s.blocklist l
with_target _ l s = changed l s.whitelist

-- `target` is the whitelist only if the list is the whitelist.
abbrev pub proposed_target : PolicyList → Store → List Prefix
proposed_target whitelist s = s.whitelist
proposed_target _ s = s.blocklist

-- index >= 0: the expiry may still change.
abbrev propose_expiry : PolicyList → Prefix → Option Time → Store → Proposal
propose_expiry list p none s = unchanged
propose_expiry list p (some t) s =
    if same_expiry (expiry s p) t then unchanged else changed s.blocklist s.whitelist

abbrev propose_add : PolicyList → Prefix → Option Time → Store → Proposal
propose_add list p expires s = elim (index discrete p (proposed_target list s)) [
  | none ↦ with_target list (proposed_target list s ++ p ∷ []) s
  | some _ ↦ propose_expiry list p expires s
]

abbrev propose_remove : PolicyList → Prefix → Store → Proposal
propose_remove list p s = elim (index discrete p (proposed_target list s)) [
  | none ↦ unchanged
  | some i ↦ with_target list (delete_at (proposed_target list s) i) s
]

unfoldable pub propose : Action → PolicyList → Prefix → Option Time → Store → Proposal
propose add list p expires s = propose_add list p expires s
propose replace list p expires s = propose_add list p expires s
propose remove list p expires s = propose_remove list p s
propose delete list p expires s = propose_remove list p s
propose (unknown _) list p expires s = unsupported

module _ {E D : Type 0} (g : RouteEngine E) (q : SqlStore D) where
  -- routes
  unfoldable pub routes : Time → Controller E D → RouteMap
  routes now c = elim c.sql [
    | some d ↦
        effective_routes (q.all_prefixes whitelist d) [] now c.next_hop_v4 c.next_hop_v6
          (q.all_prefixes blocklist d)
    | none ↦
        effective_routes c.stored.store.whitelist c.stored.store.expirations now c.next_hop_v4
          c.next_hop_v6 c.stored.store.blocklist
  ]

  -- c.applyDelta(desired)
  unfoldable pub deliver : RouteMap → Controller E D → Option Delta.Failure × Controller E D
  deliver desired c =
      let out = apply_delta g desired c.active c.engine in
      (out.error, record c { engine = out.engine; active = out.active })

  -- if c.publish != nil { c.publish(mutation) }
  abbrev pub publish : Mutation → Controller E D → Controller E D
  publish m c = if c.publishes then record c { published = c.published ++ m ∷ [] } else c

  -- The write to the store: an expiry always goes to the blocklist.
  unfoldable pub persist_policy :
      System → Mutation → Prefix → Stored → Option Adapter.Failure × Stored
  persist_policy sys m p s = elim m.expires_at [
    | some t ↦ report (add_until sys blocklist p t s)
    | none ↦ mutate_store sys m.action m.list m.prefix s
  ]

  -- After the routes are delivered: write, and take the routes back if that fails.
  abbrev pub conclude :
      Mutation
      → RouteMap
      → Controller E D
      → Option Adapter.Failure × Stored
      → Option Failure × Controller E D
  conclude m before c (some e, s) = (some (store e), (deliver before (record c { stored = s })).1)
  conclude m before c (none, s) =
      (none, record (publish m (record c { stored = s })) { wake = true })

  abbrev pub after_delivery :
      System
      → Mutation
      → Prefix
      → RouteMap
      → Option Delta.Failure × Controller E D
      → Option Failure × Controller E D
  after_delivery sys m p before (some f, c) = (some (delta f), c)
  after_delivery sys m p before (none, c) = conclude m before c (persist_policy sys m p c.stored)

  abbrev pub carry_out :
      System
      → Mutation
      → Prefix
      → RouteMap
      → Proposal
      → Controller E D
      → Option Failure × Controller E D
  carry_out sys m p before unsupported c = (some unsupported_action, c)
  carry_out sys m p before unchanged c = (none, c)
  carry_out sys m p before (changed bl wl) c =
      let proposed =
        effective_routes wl c.stored.store.expirations sys.now c.next_hop_v4 c.next_hop_v6 bl in
      after_delivery sys m p before (deliver proposed c)

  -- applyLocked. It reads the clock at `earlier` for the routes to fall back to, and then at sys.now.
  unfoldable pub apply_locked :
      System → Time → Mutation → Controller E D → Option Failure × Controller E D
  apply_locked sys earlier m c = elim (canonical sys m.prefix) [
    | none ↦ (some canonical_prefix_required, c)
    | some p ↦
        if not (valid_list m.list)
        then (some unsupported_list, c)
        else carry_out sys m p (routes earlier c)
            (propose m.action m.list p m.expires_at c.stored.store) c
  ]

-- ===== src/Controller/InStep.antt =====
-- After a mutation the engine advertises what the new store calls for.
use rtbh_panel.Common.{
  true, ◌≡◌, refl, none, some, List, [], ◌∷◌, arith, Bool-cases, Option-cases, inl, inr, ◌⊎◌,
}
use rtbh_panel.Common.Assoc.{insert}
use rtbh_panel.Net.Addr.{Addr}
use rtbh_panel.Net.Prefix.{Prefix, discrete}
use rtbh_panel.Policy.{Time, Mutation, valid_list}
use rtbh_panel.PolicyStore.Disk.{System}
use rtbh_panel.PolicyStore.Invariant.{IsValid}
use rtbh_panel.Adapter.{canonical}
use rtbh_panel.Engine.Route.{Route}
use rtbh_panel.Controller.Interface.{RouteEngine, Laws}
use rtbh_panel.Controller.Routes.{RouteMap, route_for, add_route, add_routes, effective_routes}
use rtbh_panel.Controller.Delta.{apply_delta}
use rtbh_panel.Controller.Delta.Rollback.{Keyed, has, apply_delta_advertised}
use rtbh_panel.Controller.Apply.{
  SqlStore, Controller, Proposal, changed, unchanged, unsupported, propose, routes, deliver,
  persist_policy, carry_out, apply_locked,
}
use rtbh_panel.Controller.Written.{persist_policy-Holds, effective_routes-Holds}

pub insert-Keyed :
    (p : Prefix) (r : Route) (m : RouteMap) → r.prefix ≡ p → Keyed m → Keyed (insert discrete p r m)
unfolding insert
insert-Keyed p r [] h k = (h, tt)
insert-Keyed p r ((x, y) ∷ m) h k = elim (discrete x p) [
  | yes e ↦ ground arith
  | no n ↦ ground (arith, insert-Keyed p r m h k.1)
]

add_routes-Keyed :
    (wl : List Prefix) (ex : List (Prefix × Time)) (now : Time) (h4 h6 : Addr) (m : RouteMap)
    (bl : List Prefix)
    → Keyed m
    → Keyed (add_routes wl ex now h4 h6 m bl)
unfolding add_routes add_route
add_routes-Keyed wl ex now h4 h6 m [] k = k
add_routes-Keyed wl ex now h4 h6 m (p ∷ bl) k =
    add_routes-Keyed wl ex now h4 h6 (add_route wl ex now h4 h6 m p) bl
      (ground (arith, insert-Keyed p (route_for h4 h6 p) m (unfold route_for in refl) k))

-- The entries of the effective routes stand under their own prefixes.
pub effective_routes-Keyed :
    (wl : List Prefix) (ex : List (Prefix × Time)) (now : Time) (h4 h6 : Addr) (bl : List Prefix)
    → Keyed (effective_routes wl ex now h4 h6 bl)
effective_routes-Keyed wl ex now h4 h6 bl =
    unfold effective_routes in add_routes-Keyed wl ex now h4 h6 [] bl tt

module _ {E D : Type 0} (g : RouteEngine E) (q : SqlStore D) (laws : Laws g) where
  -- What the controller keeps: its store is valid, and the engine advertises its active routes.
  pub record IsInStep (c : Controller E D) : Type 0 where
    pub valid : IsValid c.stored.store
    pub keyed : Keyed c.active
    pub advertising : (p : Prefix) → laws.advertised c.engine p ≡ has c.active p

  abbrev Advertises : System → Controller E D → Type 0
  Advertises sys c = (p : Prefix) → laws.advertised c.engine p ≡ has (routes g q sys.now c) p

  changed_in_step :
      (sys : System) (m : Mutation) (p : Prefix) (before : RouteMap) (bl wl : List Prefix)
      (c : Controller E D)
      → IsInStep c
      → c.sql ≡ none
      → m.expires_at ≡ none
      → canonical sys m.prefix ≡ some p
      → valid_list m.list ≡ true
      → propose m.action m.list p none c.stored.store ≡ changed bl wl
      → (carry_out g q sys m p before (changed bl wl) c).0 ≡ none
      → Advertises sys (carry_out g q sys m p before (changed bl wl) c).1
  unfolding deliver routes
  changed_in_step sys m p before bl wl c i n x k l h r =
      let ex = c.stored.store.expirations in
      let desired = effective_routes wl ex sys.now c.next_hop_v4 c.next_hop_v6 bl in
      let sound : (apply_delta g desired c.active c.engine).error ≡ none = ground arith in
      let written : (persist_policy g q sys m p c.stored).0 ≡ none = ground arith in
      let (_, told) =
        apply_delta_advertised g laws desired c.active c.engine i.keyed
          (effective_routes-Keyed wl ex sys.now c.next_hop_v4 c.next_hop_v6 bl) i.advertising
          sound in
      let holds = persist_policy-Holds g q sys m p c.stored bl wl i.valid x k l h written in
      λ t. ground (
        arith,
        told t,
        effective_routes-Holds sys.now c.next_hop_v4 c.next_hop_v6 bl wl ex
            (persist_policy g q sys m p c.stored).1.store t holds,
      )

  carry_out_in_step :
      (sys : System) (m : Mutation) (p : Prefix) (before : RouteMap) (pr : Proposal)
      (c : Controller E D)
      → IsInStep c
      → c.sql ≡ none
      → m.expires_at ≡ none
      → canonical sys m.prefix ≡ some p
      → valid_list m.list ≡ true
      → propose m.action m.list p m.expires_at c.stored.store ≡ pr
      → (carry_out g q sys m p before pr c).0 ≡ none
      → ((carry_out g q sys m p before pr c).1 ≡ c)
        ⊎ Advertises sys (carry_out g q sys m p before pr c).1
  carry_out_in_step sys m p before unsupported c i n x k l h r = absurd (ground arith)
  carry_out_in_step sys m p before unchanged c i n x k l h r = inl refl
  carry_out_in_step sys m p before (changed bl wl) c i n x k l h r =
      inr (changed_in_step sys m p before bl wl c i n x k l (rw x at h) r)

  -- An applyLocked on the policy file, with no expiry in the mutation, that reports no error has
  -- changed nothing, or the engine advertises exactly the prefixes that the new store calls for at
  -- that time. Before, the store is valid, and the engine, which keeps its laws, advertises
  -- exactly the active routes.
  pub apply_locked_in_step :
      (sys : System) (earlier : Time) (m : Mutation) (c : Controller E D)
      → IsInStep c
      → c.sql ≡ none
      → m.expires_at ≡ none
      → (apply_locked g q sys earlier m c).0 ≡ none
      → ((apply_locked g q sys earlier m c).1 ≡ c)
        ⊎ ((p : Prefix)
            → laws.advertised (apply_locked g q sys earlier m c).1.engine p
              ≡ has (routes g q sys.now (apply_locked g q sys earlier m c).1) p)
  unfolding apply_locked
  apply_locked_in_step sys earlier m c i n x r = elim (Option-cases (canonical sys m.prefix)) [
    | inl k ↦ absurd (ground arith)
    | inr (p, k) ↦ elim (Bool-cases (valid_list m.list)) [
      | inr l ↦ absurd (ground arith)
      | inl l ↦
          rw (k, l, apply_locked)
            (carry_out_in_step sys m p (routes g q earlier c) _ c i n x k l refl (ground arith))
    ]
  ]

-- ===== src/Tests/Routes.antt =====
-- The routes and the controller.
use rtbh_panel.Common.{ℕ_discrete, ◌≡◌, refl, Bool, true, false, none, [], ◌∷◌, ite, arith, ◌⊎◌}
use rtbh_panel.Common.Lists.{index, delete_at, member, any}
use rtbh_panel.Common.Assoc.{lookup, insert}
use rtbh_panel.Net.Addr.{ip4}
use rtbh_panel.Net.Prefix.{Prefix, discrete, contains, masked}
use rtbh_panel.Policy.{blocklist, Mutation, remove}
use rtbh_panel.PolicyStore.Mutate.{mutate, finish, commit, assign, edit}
use rtbh_panel.Adapter.{canonical, mutate_store}
use rtbh_panel.Engine.Route.{Route}
use rtbh_panel.Controller.Routes.{
  route_for, effective_routes, add_routes, add_route, suppressed, lookup-effective_routes,
}
use rtbh_panel.Controller.Safety.{no_whitelisted_address}
use rtbh_panel.Controller.Delta.{apply_delta, withdraw_stale, announce_new}
use rtbh_panel.Controller.Delta.Rollback.{apply_delta_advertised, apply_delta_rolled_back, has}
use rtbh_panel.Controller.Interface.{RouteEngine, Laws}
use rtbh_panel.Controller.InStep.{IsInStep, apply_locked_in_step}
use rtbh_panel.Controller.Apply.{routes, apply_locked, propose, persist_policy, deliver}
use rtbh_panel.Controller.Service.{apply_batch}
use rtbh_panel.Controller.Batch.{apply_batch-IsInStep, apply_batch_ignores_whitelist}
use rtbh_panel.Tests.Samples.{
  ten, half, docs, system, two_lists, two_lists-IsValid, next_hop, Table, table, table_laws, no_sql,
  controller_of,
}

no_whitelisted_address_example : contains ten (ip4 0xc0000205) ≡ false
unfolding lookup effective_routes add_routes add_route suppressed any contains insert member
    discrete ℕ_discrete
no_whitelisted_address_example =
    no_whitelisted_address (ten ∷ []) (docs ∷ []) [] 5 next_hop next_hop ten docs
      (route_for next_hop next_hop ten) (ip4 0xc0000205) (ground arith, ground arith)
      (ground arith, ground arith) refl refl refl

lookup-effective_routes_example :
    lookup discrete half (effective_routes (ten ∷ []) [] 5 next_hop next_hop (half ∷ [])) ≡ none
unfolding lookup suppressed any contains member discrete ℕ_discrete
lookup-effective_routes_example =
    lookup-effective_routes (ten ∷ []) [] 5 next_hop next_hop half (half ∷ [])

controller-IsInStep : IsInStep table no_sql table_laws (controller_of two_lists)
unfolding lookup
controller-IsInStep = record { valid = two_lists-IsValid; keyed = tt; advertising = λ p. refl }

apply_delta_advertised_example :
    ((apply_delta table ((ten, route_for next_hop next_hop ten) ∷ []) [] (λ p. false)).active
      ≡ (ten, route_for next_hop next_hop ten) ∷ [])
    × ((p : Prefix)
        → (apply_delta table ((ten, route_for next_hop next_hop ten) ∷ []) [] (λ p. false)).engine p
          ≡ has ((ten, route_for next_hop next_hop ten) ∷ []) p)
unfolding apply_delta withdraw_stale announce_new lookup route_for
apply_delta_advertised_example =
    apply_delta_advertised table table_laws ((ten, route_for next_hop next_hop ten) ∷ []) []
      (λ p. false) tt (refl, tt) (λ p. refl) refl

-- An engine that takes every withdrawal, and the announcement of every prefix but 192.0.2.0/24.
abbrev picky_announce : Route → Table → {P : Type 0} → Dec P → Bool × Table
picky_announce r e (yes _) = (false, e)
picky_announce r e (no _) = (true, λ p. ite (discrete r.prefix p) true (e p))

abbrev picky : RouteEngine Table
picky = record {
  announce = λ r e. picky_announce r e (discrete r.prefix docs);
  withdraw = λ r e. (true, λ p. ite (discrete r.prefix p) false (e p));
}

picky_announced :
    (r : Route) (e : Table) (p : Prefix) {P : Type 0} (d : Dec P)
    → (picky_announce r e d).0 ≡ true
    → (picky_announce r e d).1 p ≡ ite (discrete r.prefix p) true (e p)
picky_announced r e p (yes _) h = absurd (ground arith)
picky_announced r e p (no _) h = refl

picky_failed :
    (r : Route) (e : Table) (p : Prefix) {P : Type 0} (d : Dec P)
    → (picky_announce r e d).0 ≡ false
    → (picky_announce r e d).1 p ≡ e p
picky_failed r e p (yes _) h = refl
picky_failed r e p (no _) h = absurd (ground arith)

abbrev picky_laws : Laws picky
picky_laws = record {
  advertised = λ e p. e p;
  announced = λ r e p h. picky_announced r e p (discrete r.prefix docs) h;
  not_announced = λ r e p h. picky_failed r e p (discrete r.prefix docs) h;
  withdrawn = λ r e p h. refl;
  not_withdrawn = λ r e p h. absurd (ground arith);
}

apply_batch-IsInStep_example :
    IsInStep table no_sql table_laws
      (apply_batch table no_sql system blocklist
        ("10.0.0.0/24" ∷ [])
        ("192.0.2.0/24" ∷ [])
        (controller_of two_lists)).1
apply_batch-IsInStep_example =
    apply_batch-IsInStep table no_sql table_laws system blocklist ("10.0.0.0/24" ∷ [])
      ("192.0.2.0/24" ∷ []) (controller_of two_lists) controller-IsInStep (λ r e. refl)

apply_batch_ignores_whitelist_example :
    ((apply_batch table no_sql system blocklist
          ("192.0.2.0/24" ∷ [])
          []
          (controller_of two_lists)).1.engine
        docs
      ≡ true)
    × (has
          (routes table no_sql 5
            (apply_batch table no_sql system blocklist
              ("192.0.2.0/24" ∷ [])
              []
              (controller_of two_lists)).1)
          docs
        ≡ false)
unfolding suppressed any contains discrete ℕ_discrete
apply_batch_ignores_whitelist_example =
    apply_batch_ignores_whitelist table no_sql table_laws system "192.0.2.0/24" docs
      (controller_of two_lists) controller-IsInStep refl refl refl refl (λ r e. refl)

abbrev unblock_ten : Mutation
unblock_ten = record {
  action = remove;
  list = blocklist;
  prefix = "10.0.0.0/24";
  expires_at = none;
}

apply_locked_in_step_example :
    ((apply_locked table no_sql system 4 unblock_ten (controller_of two_lists)).1
      ≡ controller_of two_lists)
    ⊎ ((p : Prefix)
        → (apply_locked table no_sql system 4 unblock_ten (controller_of two_lists)).1.engine p
          ≡ has
              (routes table no_sql 5
                (apply_locked table no_sql system 4 unblock_ten (controller_of two_lists)).1)
              p)
unfolding apply_locked canonical discrete masked ℕ_discrete propose index deliver apply_delta
    withdraw_stale announce_new effective_routes add_routes delete_at persist_policy mutate_store
    mutate finish commit assign edit lookup
apply_locked_in_step_example =
    apply_locked_in_step table no_sql table_laws system 4 unblock_ten (controller_of two_lists)
      controller-IsInStep refl refl refl

apply_delta_rolled_back_example :
    ((apply_delta picky
        ((ten, route_for next_hop next_hop ten) ∷ (docs, route_for next_hop next_hop docs) ∷ [])
        []
        (λ p. false)).active
      ≡ [])
    × ((p : Prefix)
        → (apply_delta picky
              ((ten, route_for next_hop next_hop ten)
                ∷ (docs, route_for next_hop next_hop docs)
                ∷ [])
              []
              (λ p. false)).engine
            p
          ≡ has [] p)
unfolding apply_delta withdraw_stale announce_new lookup route_for discrete ℕ_discrete
apply_delta_rolled_back_example =
    apply_delta_rolled_back picky picky_laws
      ((ten, route_for next_hop next_hop ten) ∷ (docs, route_for next_hop next_hop docs) ∷ []) []
      (λ p. false) tt (refl, (refl, tt)) (λ p. refl) tt (λ s. refl, (λ s. refl, tt))
      (λ h. absurd (ground arith))

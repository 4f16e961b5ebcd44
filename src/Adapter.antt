-- ===== src/Adapter.antt =====
-- The policy adapters of internal/runtime/adapter.go and internal/runtime/backend.go: how a policy
-- change reaches a store.
use rtbh_panel.Common.{
  refl, ℕ, ◌+◌, ◌%◌, ◌^◌, String, Bool, not, Option, none, some, ite, if◌then◌else◌, ◌≡◌, arith,
}
use rtbh_panel.Net.Prefix.{Prefix, masked, discrete}
use rtbh_panel.Policy.{
  Time, PolicyList, blocklist, Action, add, remove, replace, delete, unknown, valid_list,
}
use rtbh_panel.PolicyStore.State.{Error, Result, ok, err}
use rtbh_panel.PolicyStore.Disk.{System}
use rtbh_panel.PolicyStore.Mutate.{Stored, mutate, add_until}

pub data Failure : Type 0 where
  canonical_prefix_required unsupported_list unsupported_action store_required : Failure
  store_failed : Error → Failure

-- netip.ParsePrefix, and err != nil || prefix != prefix.Masked()
unfoldable pub canonical : System → String → Option Prefix
canonical sys text = elim (sys.parse text) [
  | none ↦ none
  | some p ↦ ite (discrete p (masked p)) (some p) none
]

-- The stores' method for an action, by the switch that ends in "unsupported action".
abbrev pub store_action : Action → Option Action
store_action add = some add
store_action replace = some add
store_action remove = some remove
store_action delete = some remove
store_action (unknown _) = none

abbrev pub report : Result Bool × Stored → Option Failure × Stored
report (ok b, s) = (none, s)
report (err e, s) = (some (store_failed e), s)

unfoldable pub mutate_store :
    System → Action → PolicyList → String → Stored → Option Failure × Stored
mutate_store sys action list text s = elim (canonical sys text) [
  | none ↦ (some canonical_prefix_required, s)
  | some p ↦
      if not (valid_list list) then (some unsupported_list, s) else elim (store_action action) [
        | none ↦ (some unsupported_action, s)
        | some op ↦ report (mutate sys op list p s)
      ]
]

-- agentrpc.PolicyChange
pub record PolicyChange : Type 0 where
  pub id : String
  pub idempotency_key : String
  pub operation : Action
  pub list : PolicyList
  pub prefix : String
  pub expires_at : Option Time

-- policyStoreAdapter; no store is a nil pointer
pub record StoreAdapter : Type 0 where
  pub store : Option Stored
  pub dry_run : Bool

abbrev apply_to_store : System → PolicyChange → Stored → Option Failure × Stored
apply_to_store sys change s = elim change.expires_at [
  | none ↦ mutate_store sys change.operation change.list change.prefix s
  | some expiry ↦ elim (canonical sys change.prefix) [
    | none ↦ (some canonical_prefix_required, s)
    | some p ↦ report (add_until sys blocklist p expiry s)
  ]
]

unfoldable pub apply : System → PolicyChange → StoreAdapter → Option Failure × StoreAdapter
apply sys change a = elim a.store [
  | none ↦ (some store_required, a)
  | some s ↦
      if a.dry_run
      then (none, a)
      else (let (failed, t) = apply_to_store sys change s in (failed, record a { store = some t }))
]

-- DryRunAdapter; `observed` is an atomic uint64
pub record DryRunAdapter : Type 0 where
  pub observed : ℕ

unfoldable pub observe : PolicyChange → DryRunAdapter → DryRunAdapter
observe change a = record { observed = (a.observed + 1) % 2 ^ 64 }

pub canonical-masked :
    (sys : System) (text : String) (p : Prefix) → canonical sys text ≡ some p → masked p ≡ p
unfolding canonical
canonical-masked sys text p h = ground arith

pub report-stored : (x : Result Bool × Stored) → (report x).1 ≡ x.1
report-stored (ok b, s) = refl
report-stored (err e, s) = refl

pub report_ok : (x : Result Bool × Stored) → (report x).0 ≡ none → (b : Bool) × (x.0 ≡ ok b)
report_ok (ok b, s) h = (b, refl)
report_ok (err e, s) h = absurd (ground arith)

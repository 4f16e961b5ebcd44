-- ===== src/Dashboard/Guards.antt =====
-- When a request to the dashboard reaches the backend.
use rtbh_panel.Common.{◌<◌, String, Bool, true, false, ◌≡◌, refl, Option, some, is_some, arith, ◌⊎◌}
use rtbh_panel.Policy.{Time, PolicyList, blocklist, Action, add, remove}
use rtbh_panel.PolicyStore.Disk.{System}
use rtbh_panel.Adapter.{canonical}
use rtbh_panel.Dashboard.{
  Request, mutate_policy, put_config, bulk_delete, undecodable, Backend, Texts, handle_mutate,
  handle_put_config, serve_http, asks_to_apply, is_bulk_delete,
}

module _ {B : Type 0} (backend : Backend B) (sys : System) (texts : Texts) where
  -- Of the requests to mutate a policy, to change the configuration, and to delete policies in bulk:
  -- without authorization each leaves the backend as it is, and so do the first two without a request
  -- to apply.
  pub serve_http_unchanged :
      (authorized : Bool) (request : Request) (b : B)
      → (authorized ≡ false) ⊎ ((asks_to_apply request ≡ false) × (is_bulk_delete request ≡ false))
      → (serve_http backend sys texts authorized request b).1 ≡ b
  unfolding serve_http handle_mutate handle_put_config
  serve_http_unchanged false request b h = refl
  serve_http_unchanged true (mutate_policy list action prefix apply expires) b h = ground arith
  serve_http_unchanged true (put_config apply config) b h = ground arith
  serve_http_unchanged true (bulk_delete list prefixes apply) b h = absurd (ground arith)
  serve_http_unchanged true undecodable b h = refl

  -- A request to mutate that is answered with 200 has a canonical prefix, adds or removes, and if it
  -- has an expiry then it adds to the blocklist and expires in the future.
  pub handle_mutate_accepted :
      (list : PolicyList) (action : Action) (cidr : String) (apply : Bool) (expires : Option Time)
      (b : B)
      → (handle_mutate backend sys texts list action cidr apply expires b).0 ≡ 200
      → (is_some (canonical sys cidr) ≡ true)
        × ((action ≡ add) ⊎ (action ≡ remove))
        × ((t : Time) → expires ≡ some t → (list ≡ blocklist) × (action ≡ add) × (sys.now < t))
  unfolding handle_mutate
  handle_mutate_accepted list action cidr apply expires b h =
      (ground arith, ground arith, λ t e. (ground arith, ground arith, ground arith))

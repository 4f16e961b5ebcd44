-- ===== src/Command/Ended.antt =====
-- What the server's command leaves behind.
use rtbh_panel.Common.{false, ◌≡◌, none, some, arith, inl, inr, Option-cases, subst, ap, sym, ◌∙◌}
use rtbh_panel.Common.Results.{ok, Attempt-cases, ok_injective, >>=-eq-ok}
use rtbh_panel.Config.Settings.{Config}
use rtbh_panel.Engine.Lifecycle.{Gobgp, Engine, new}
use rtbh_panel.Engine.Running
use rtbh_panel.Engine.Peers
use rtbh_panel.Engine.Settings
use rtbh_panel.Config.Load.{config_server, load_config}
use rtbh_panel.Server.Create.{Created, new_server}
use rtbh_panel.Controller.Apply.{SqlStore}
use rtbh_panel.Server.Run
use rtbh_panel.Server.Run.{Service}
use rtbh_panel.Server.Run.Stopped.{IsStopped, run-IsStopped}
use rtbh_panel.Command.{
  World, RunError, prepare, run_server, service_of, new_policy_controller, loaded_by, created_by,
  with_engine,
}

new_made :
    {B : Type 0} (c : Settings.Config) (b : B) (e : Engine B)
    → Settings.validate c ≡ none
    → new c b ≡ ok e
    → record {
      config = c;
      bgp = b;
      policy = Peers.new c.allowed_asns c.max_sessions;
      running = false;
      watch_cancel = false;
    }
      ≡ e
unfolding new
new_made c b e n h = ok_injective {E = Settings.Error} (ground arith)

new_idle :
    {B : Type 0} (c : Settings.Config) (b : B) (e : Engine B)
    → new c b ≡ ok e
    → (e.running ≡ false) × (e.bgp ≡ b)
unfolding new
new_idle {B = B} c b e h = elim (Option-cases (Settings.validate c)) [
  | inr (f, n) ↦ absurd (ground arith)
  | inl n ↦
      let made = new_made c b e n h in
      (ap (λ (e : Engine B). e.running) (sym made), ap (λ (e : Engine B). e.bgp) (sym made))
]

module _ {B D : Type 0} (g : Gobgp B) (q : SqlStore D) (laws : Running.Serving g) where
  service_of-IsStopped :
      (world : World B D) (created : Created) (e : Engine B)
      → laws.alive world.bgp ≡ false
      → new created.engine world.bgp ≡ ok e
      → IsStopped g q laws (service_of world created e)
  unfolding service_of new_policy_controller
  service_of-IsStopped world created e dead h =
      let (idle, same) = new_idle created.engine world.bgp e h in
      record {
        idle = idle;
        dead = ap laws.alive same ∙ dead;
        no_http = λ x. absurd (ground arith);
        no_sync = λ x. absurd (ground arith);
      }

  with_engine_ok :
      (world : World B D) (created : Created) (both : Created × Engine B)
      → with_engine world created ≡ ok both
      → (e : Engine B) × (new created.engine world.bgp ≡ ok e) × (both ≡ (created, e))
  with_engine_ok world created both h = elim (Attempt-cases (new created.engine world.bgp)) [
    | inl (f, n) ↦ absurd (ground arith)
    | inr (e, n) ↦ (e, n, sym (ok_injective {E = RunError} (ground arith)))
  ]

  prepare-IsStopped :
      (world : World B D) (config : Config) (s : Service B D)
      → laws.alive world.bgp ≡ false
      → prepare world ≡ ok (config, s)
      → IsStopped g q laws s
  unfolding prepare
  prepare-IsStopped world config s dead h =
      let (loaded, a, h1) =
        >>=-eq-ok (loaded_by (load_config world.library world.getenv world.parse config_server)) _
          h in
      let (created, b, h2) =
        >>=-eq-ok (created_by (new_server world.library world.host loaded)) _ h1 in
      let (both, c, h3) = >>=-eq-ok (with_engine world created) _ h2 in
      let (engine, d, made) = with_engine_ok world created both c in
      let final : service_of world created engine ≡ s =
        ap (λ (x : Created × Engine B). service_of world x.0 x.1) (sym made)
        ∙ ap (λ (x : Config × Service B D). x.1) (ok_injective h3) in
      subst (IsStopped g q laws) final (service_of-IsStopped world created engine dead d)

  -- Whatever the server's command has left of its server, it is stopped: from any arguments,
  -- environment and surroundings, over a GoBGP server that runs from a start without an error until
  -- it is stopped, neither the engine nor its GoBGP server runs after the command, and no listener
  -- is open.
  pub run_server-IsStopped :
      (world : World B D) (s : Service B D)
      → laws.alive world.bgp ≡ false
      → (run_server g q world).1 ≡ some s
      → IsStopped g q laws s
  unfolding run_server
  run_server-IsStopped world s dead h = elim (Attempt-cases (prepare world)) [
    | inl (e, n) ↦ absurd (ground arith)
    | inr ((config, service), n) ↦
        let ended : (Run.run g q world.outside config world.work service).1 ≡ s = ground arith in
        subst (IsStopped g q laws) ended (
          run-IsStopped g q laws world.outside config world.work service
            (prepare-IsStopped world config service dead n))
  ]

-- ===== src/Agent/Termination.antt =====
-- The loops of the agent end: each Receive takes a frame.
use rtbh_panel.Common.{
  ℕ, zero, suc, ◌<◌, ◌≤◌, ◌≡◌, ◌≢◌, refl, ap, Option, none, some, List, [], ◌∷◌, arith, inl, inr,
}
use rtbh_panel.Common.Lists.{length}
use rtbh_panel.PolicyStore.Disk.{System}
use rtbh_panel.Rpc.Message.{Message, Frame}
use rtbh_panel.Rpc.Session.{
  Session, Wire, Round, returns, fails, continues, Received, received, failed, on_message,
  receive_from, receive, write, ack,
}
use rtbh_panel.Rpc.Bounds.{on_frame_cases}
use rtbh_panel.Agent.Consume.{
  Stop, out_of_fuel, Agent, Environment, take, after_take, after_receive, consume,
}

module _ (sys : System) (wire : Wire) where
  round_incoming :
      (m x : Message) (s t : Session) (r : Round) (rest : List Frame)
      → on_message sys wire m s ≡ r
      → s.incoming ≡ rest
      → ((u : Session)
          → receive_from sys wire rest u ≡ received x t
          → length t.incoming ≤ length rest)
      → (elim r as (λ _. Received) [
        | returns m t ↦ received m t
        | fails e t ↦ failed e t
        | continues t ↦ receive_from sys wire rest t
      ])
        ≡ received x t
      → length t.incoming ≤ length rest
  unfolding on_message write
  round_incoming m x s t (returns y u) rest h q next e =
      let same : t.incoming ≡ rest = ground arith in
      omega (arith, ap (λ (l : List Frame). length l) same)
  round_incoming m x s t (fails f u) rest h q next e = absurd (ground arith)
  round_incoming m x s t (continues u) rest h q next e = next u e

  receive_from_le :
      (frames : List Frame) (x : Message) (s t : Session)
      → receive_from sys wire frames s ≡ received x t
      → suc (length t.incoming) ≤ length frames
  unfolding receive_from
  receive_from_le [] x s t h = absurd (ground arith)
  receive_from_le (f ∷ rest) x s t h =
      elim (on_frame_cases sys wire f (record s { incoming = rest })) [
        | inl (e, q) ↦ absurd (ground arith)
        | inr (m, p, q) ↦ omega (
          arith,
          round_incoming m x (record s { incoming = rest }) t
              (on_message sys wire m (record s { incoming = rest })) rest refl refl
              (λ u k. (let shorter = receive_from_le rest x u t k in omega arith))
              (rw (q, receive_from) at h),
        )
      ]

module _ {A : Type 0} (env : Environment A) where
  take_incoming :
      (m : Message) (a : Agent A) → (take env m a).1.session.incoming ≡ a.session.incoming
  unfolding take ack write
  take_incoming m a = ground arith

  take_stops : (m : Message) (a : Agent A) → (take env m a).0 ≢ some out_of_fuel
  unfolding take ack write
  take_stops m a h = absurd (ground arith)

  round_ends :
      (t : Option Stop × Agent A) (next : Agent A → Stop × Agent A)
      → t.0 ≢ some out_of_fuel
      → (next t.1).0 ≢ out_of_fuel
      → (after_take env next t).0 ≢ out_of_fuel
  round_ends (some e, a) next one rest = λ h. one (ap some h)
  round_ends (none, a) next one rest = rest

  received_ends :
      (fuel : ℕ) (a : Agent A) (x : Received)
      → receive_from env.system env.wire a.session.incoming a.session ≡ x
      → length a.session.incoming ≤ fuel
      → ((b : Agent A) → length b.session.incoming < fuel → (consume env fuel b).0 ≢ out_of_fuel)
      → (after_receive env (consume env fuel) a x).0 ≢ out_of_fuel
  received_ends fuel a (failed e s) f l next = λ h. absurd (ground arith)
  received_ends fuel a (received m s) f l next =
      let after : Agent A = record a { session = s } in
      let shorter = receive_from_le env.system env.wire a.session.incoming m a.session s f in
      let kept = ap (λ (l : List Frame). length l) (take_incoming m after) in
      round_ends (take env m after) (consume env fuel) (take_stops m after)
        (next (take env m after).1 (omega arith))

  -- With more fuel than frames that arrive, consume returns for a reason of the code's own.
  pub consume_ends :
      (fuel : ℕ) (a : Agent A)
      → length a.session.incoming < fuel
      → (consume env fuel a).0 ≢ out_of_fuel
  unfolding consume receive
  consume_ends zero a l = absurd (omega arith)
  consume_ends (suc fuel) a l =
      received_ends fuel a (receive_from env.system env.wire a.session.incoming a.session) refl
        (omega arith) (λ b k. consume_ends fuel b k)

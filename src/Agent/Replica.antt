-- ===== src/Agent/Replica.antt =====
-- What an agent has applied when consume returns.
use rtbh_panel.Common.{
  ℕ, zero, suc, ◌+◌, ◌-◌, ◌<◌, ◌≤◌, ◌^◌, ◌≡◌, ◌≢◌, refl, sym, ap, subst, ◌∙◌, Bool, true, false,
  Option, none, some, inl, inr, ◌⊎◌, arith, Option-cases,
}
use rtbh_panel.Common.Lists.{length}
use rtbh_panel.Adapter.{PolicyChange}
use rtbh_panel.Rpc.Message.{Message, MessageType, policy_type, ack_type, other_type}
use rtbh_panel.Rpc.Session.{Received, received, failed, receive, receive_from, ack, write}
use rtbh_panel.Rpc.Receipt.{AllConsistent, Receipt, receive_from-Receipt}
use rtbh_panel.Agent.Consume.{
  Stop, receive_failed, ack_failed, Agent, Environment, take, consume, after_take, after_receive,
}

-- Whether consume stopped between two policies, for an error of the transport.
abbrev pub between_policies : Stop → Bool
between_policies (receive_failed _) = true
between_policies (ack_failed _) = true
between_policies _ = false

abbrev none_or_between : Option Stop → Bool
none_or_between none = true
none_or_between (some e) = between_policies e

module _ {A : Type 0} (env : Environment A) (stream : ℕ → PolicyChange) where
  -- The first n policies of the stream after a cursor, applied in order.
  unfoldable pub replay : ℕ → ℕ → A → A
  replay zero cursor x = x
  replay (suc n) cursor x = replay n (cursor + 1) (env.apply (stream (cursor + 1)) x).1

  take_other :
      (m : Message) (a : Agent A)
      → (m.kind ≢ policy_type) ⊎ (m.policy ≡ none)
      → take env m a ≡ (none, a)
  unfolding take
  take_other m a (inl n) = ground arith
  take_other m a (inr e) = ground arith

  module _ (m : Message) (c : PolicyChange) (a : Agent A) where
    take_policy_message :
        m.kind ≡ policy_type
        → m.policy ≡ some c
        → env.dry_run ≡ false
        → m.sequence ≡ a.session.applied_cursor + 1
        → m.sequence < 2 ^ 64
        → none_or_between (take env m a).0 ≡ true
        → ((take env m a).1.cursor ≡ a.session.applied_cursor + 1)
          × ((take env m a).1.session.applied_cursor ≡ a.session.applied_cursor + 1)
          × ((take env m a).1.session.incoming ≡ a.session.incoming)
          × ((take env m a).1.adapter ≡ (env.apply c a.adapter).1)
    unfolding take ack write
    take_policy_message k p d q b h = (ground arith, ground arith, ground arith, ground arith)

  replay_add : (m n c : ℕ) (x : A) → replay (m + n) c x ≡ replay n (c + m) (replay m c x)
  unfolding replay
  replay_add zero n c x =
      let left : 0 + n ≡ n = omega arith in
      let right : c ≡ c + 0 = omega arith in
      ap (λ k. replay k c x) left ∙ ap (λ k. replay n k x) right
  replay_add (suc m) n c x =
      let left : suc m + n ≡ suc (m + n) = omega arith in
      ap (λ k. replay k c x) left
      ∙ replay_add m n (c + 1) (env.apply (stream (c + 1)) x).1
      ∙ ap (λ k. replay n k (replay m (c + 1) (env.apply (stream (c + 1)) x).1)) (omega arith)

  -- Between two states the agent has applied the policies between the two cursors.
  pub record Replicated (a b : Agent A) : Type 0 where
    pub cursor_le : a.cursor ≤ b.cursor
    pub applied : b.adapter ≡ replay (b.cursor - a.cursor) a.cursor a.adapter

  Replicated-trans : (a b c : Agent A) → Replicated a b → Replicated b c → Replicated a c
  Replicated-trans a b c h k =
      let l = h.cursor_le in
      let r = k.cursor_le in
      record {
        cursor_le = omega arith;
        applied =
            k.applied
            ∙ (ap (replay (c.cursor - b.cursor) b.cursor) h.applied
                ∙ (ap
                      (λ n.
                        replay (c.cursor - b.cursor) n
                          (replay (b.cursor - a.cursor) a.cursor a.adapter))
                      (omega arith)
                    ∙ (sym (
                          replay_add (b.cursor - a.cursor) (c.cursor - b.cursor) a.cursor a.adapter)
                        ∙ ap (λ n. replay n a.cursor a.adapter) (omega arith))));
      }

  gap : (n : ℕ) (a b : Agent A) → b.cursor ≡ a.cursor + n → n ≡ b.cursor - a.cursor
  gap n a b e = omega arith

  Replicated-still : (a b : Agent A) → b.cursor ≡ a.cursor → b.adapter ≡ a.adapter → Replicated a b
  unfolding replay
  Replicated-still a b e q = record {
    cursor_le = omega arith;
    applied = q ∙ ap (λ n. replay n a.cursor a.adapter) (gap 0 a b (omega arith));
  }

  Replicated-one :
      (a b : Agent A)
      → b.cursor ≡ a.cursor + 1
      → b.adapter ≡ (env.apply (stream (a.cursor + 1)) a.adapter).1
      → Replicated a b
  unfolding replay
  Replicated-one a b e q = record {
    cursor_le = omega arith;
    applied = q ∙ ap (λ n. replay n a.cursor a.adapter) (gap 1 a b (omega arith));
  }

  -- A round that does not stop inside a policy.
  take_replicates :
      (n : ℕ) (m : Message) (a : Agent A)
      → env.dry_run ≡ false
      → a.cursor < 2 ^ 64
      → Receipt env.system stream n a.cursor m a.session
      → none_or_between (take env m a).0 ≡ true
      → Replicated a (take env m a).1
        × ((take env m a).1.session.applied_cursor ≡ (take env m a).1.cursor)
        × ((take env m a).1.cursor < 2 ^ 64)
        × ((take env m a).1.session.incoming ≡ a.session.incoming)
  take_replicates n m a d b r h = elim (Option-cases m.policy) [
    | inl none_given ↦ quiet (take_other m a (inr none_given))
    | inr (c, p) ↦ busy c p m.kind refl
  ]
    where
      quiet :
          take env m a ≡ (none, a)
          → Replicated a (take env m a).1
            × ((take env m a).1.session.applied_cursor ≡ (take env m a).1.cursor)
            × ((take env m a).1.cursor < 2 ^ 64)
            × ((take env m a).1.session.incoming ≡ a.session.incoming)
      quiet e = rw e (Replicated-still a a refl refl, r.cursor_kept, b, refl)

      busy :
          (c : PolicyChange)
          → m.policy ≡ some c
          → (k : MessageType) → m.kind ≡ k
          → Replicated a (take env m a).1
            × ((take env m a).1.session.applied_cursor ≡ (take env m a).1.cursor)
            × ((take env m a).1.cursor < 2 ^ 64)
            × ((take env m a).1.session.incoming ≡ a.session.incoming)
      busy c p ack_type k = quiet (take_other m a (inl (λ e. absurd (ground arith))))
      busy c p (other_type _) k = quiet (take_other m a (inl (λ e. absurd (ground arith))))
      busy c p policy_type k =
          let (q, l, same, _) = r.in_order c k p in
          let kept = r.cursor_kept in
          let (u, v, w, x) = take_policy_message m c a k p d (ground arith) l h in
          (
            Replicated-one a (take env m a).1 (ground arith)
                (x ∙ ap (λ c. (env.apply c a.adapter).1) same),
            ground arith,
            ground arith,
            w,
          )

  -- The states that a round starts from.
  record IsReady (a : Agent A) : Type 0 where
    agree : a.session.applied_cursor ≡ a.cursor
    bounded : a.cursor < 2 ^ 64
    consistent : AllConsistent stream a.session.incoming

  round_replicates :
      (a : Agent A) (t : Option Stop × Agent A) (next : Agent A → Stop × Agent A)
      → (none_or_between t.0 ≡ true → Replicated a t.1 × IsReady t.1)
      → ((b : Agent A) → IsReady b → between_policies (next b).0 ≡ true → Replicated b (next b).1)
      → between_policies (after_take env next t).0 ≡ true
      → Replicated a (after_take env next t).1
  round_replicates a (some e, b) next one rest h = (one h).0
  round_replicates a (none, b) next one rest h =
      let (first, ready) = one refl in Replicated-trans a b (next b).1 first (rest b ready h)

  received_replicates :
      (a : Agent A) (x : Received) (next : Agent A → Stop × Agent A)
      → env.dry_run ≡ false
      → IsReady a
      → receive_from env.system env.wire a.session.incoming a.session ≡ x
      → ((b : Agent A) → IsReady b → between_policies (next b).0 ≡ true → Replicated b (next b).1)
      → between_policies (after_receive env next a x).0 ≡ true
      → Replicated a (after_receive env next a x).1
  received_replicates a (failed e s) next d i f rest h =
      Replicated-still a (record a { session = s }) refl refl
  received_replicates a (received m s) next d i f rest h =
      let low = i.bounded in
      let agree = i.agree in
      let receipt =
        receive_from-Receipt env.system env.wire stream a.session.incoming m a.session s
          (ground arith) i.consistent f in
      let after : Agent A = record a { session = s } in
      round_replicates a (take env m after) next
        (λ g.
          (let (first, same, below, frames) =
              take_replicates (length a.session.incoming) m after d low
                (subst (λ n. Receipt env.system stream (length a.session.incoming) n m s) agree
                  receipt)
                g in
            (
              record { cursor_le = first.cursor_le; applied = first.applied },
              record {
                agree = same;
                bounded = below;
                consistent = subst (AllConsistent stream) (sym frames) receipt.consistent;
              },
            )))
        rest h

  consume_ready :
      (fuel : ℕ) (a : Agent A)
      → env.dry_run ≡ false
      → IsReady a
      → between_policies (consume env fuel a).0 ≡ true
      → Replicated a (consume env fuel a).1
  unfolding consume receive
  consume_ready zero a d i h = absurd (ground arith)
  consume_ready (suc fuel) a d i h =
      received_replicates a (receive_from env.system env.wire a.session.incoming a.session)
        (consume env fuel) d i refl (λ b j. consume_ready fuel b d j) h

  -- Every policy frame carries the policy of its sequence number. When consume, not in dry-run,
  -- returns for an error of the transport, the adapter has applied exactly the policies between
  -- the old and the new cursor, each once and in order. Frames may be repeated, lost or out of
  -- order. At the start the session and the variable have the same cursor, below 2^64.
  pub consume_replicates :
      (fuel : ℕ) (a : Agent A)
      → env.dry_run ≡ false
      → a.session.applied_cursor ≡ a.cursor
      → a.cursor < 2 ^ 64
      → AllConsistent stream a.session.incoming
      → between_policies (consume env fuel a).0 ≡ true
      → Replicated a (consume env fuel a).1
  consume_replicates fuel a d q b k h =
      consume_ready fuel a d (record { agree = q; bounded = b; consistent = k }) h

-- ===== src/Server/Exchange.antt =====
-- A server and an agent over a connection: what one sends is what the other receives.
use rtbh_panel.Common.{
  ℕ, suc, ◌+◌, ◌<◌, ◌≤◌, ◌^◌, ◌≡◌, refl, sym, ap, ◌∙◌, subst, false, true, none, some, List, [],
  ◌∷◌, ◌++◌, map,
}
use rtbh_panel.Common.Lists.{length}
use rtbh_panel.PolicyStore.Disk.{System}
use rtbh_panel.Adapter.{PolicyChange}
use rtbh_panel.Rpc.Message.{
  Message, Frame, policy_message, ack_message, read_frame, validate_policy,
}
use rtbh_panel.Rpc.Session.{Wire}
use rtbh_panel.Agent.Cursor
use rtbh_panel.Agent.Consume
use rtbh_panel.Agent.Consume.{Agent, consume}
use rtbh_panel.Agent.Delivered.{acks, apply_all, IsDelivered, IsNext, consume_delivered}
use rtbh_panel.Server.Sync.{Environment, SyncState, handle_sync}
use rtbh_panel.Server.Drained.{messages, IsAnswered, IsReady, handle_sync_drained}

-- The changes pass the checks of a session, and their messages, numbered from n on, and the
-- acknowledgements of these fit into the limit.
abbrev pub IsSendable : System → Wire → ℕ → ℕ → List PolicyChange → Type 0
IsSendable system wire limit n [] = Unit
IsSendable system wire limit n (c ∷ cs) =
    (validate_policy system c ≡ none)
    × (wire.size (policy_message n c) ≤ limit)
    × (wire.size (ack_message n) ≤ limit)
    × IsSendable system wire limit (suc n) cs

-- The frame of a message, which is read back where the message fits into the limit.
pub record Transport (wire : Wire) (limit : ℕ) : Type 0 where
  pub frame : Message → Frame
  pub reads : (m : Message) → wire.size m ≤ limit → (read_frame limit (frame m)).1 ≡ some m

-- A server and an agent with the same checks, message sizes and limit, over a connection that takes
-- every message. The agent applies, its adapter accepts, and no step of saving a cursor fails.
pub record Peers {A : Type 0} (server : Environment) (agent : Consume.Environment A) : Type 0 where
  pub system : agent.system ≡ server.system
  pub wire : agent.wire ≡ server.wire
  pub accepts : (before : List Message) (m : Message) → server.wire.accepts before m ≡ true
  pub accepted : (before : List Message) (m : Message) → agent.wire.accepts before m ≡ true
  pub applying : agent.dry_run ≡ false
  pub applies : (c : PolicyChange) (a : A) → (agent.apply c a).0 ≡ true
  pub server_saves : (step : Cursor.Failure) → server.save_fails step ≡ false
  pub agent_saves : (step : Cursor.Failure) → agent.save_fails step ≡ false

module _ {A : Type 0} (server : Environment) (agent : Consume.Environment A)
    (peers : Peers server agent) (limit : ℕ) (transport : Transport server.wire limit) where
  acks-IsAnswered :
      (l : List PolicyChange) (n : ℕ)
      → IsSendable server.system server.wire limit n l
      → IsAnswered server limit n l (map transport.frame (acks n l))
  unfolding acks
  acks-IsAnswered [] n h = tt
  acks-IsAnswered (c ∷ cs) n (valid, fits, small, rest) =
      (valid, fits, transport.reads (ack_message n) small, acks-IsAnswered cs (suc n) rest)

  messages-IsDelivered :
      (l : List PolicyChange) (n : ℕ)
      → IsSendable server.system server.wire limit n l
      → IsDelivered agent limit n l (map transport.frame (messages n l))
  unfolding messages
  messages-IsDelivered [] n h = refl
  messages-IsDelivered (c ∷ cs) n (valid, fits, small, rest) = (
    ap (λ system. validate_policy system c) peers.system ∙ valid,
    subst (λ wire. wire.size (ack_message n) ≤ limit) (sym peers.wire) small,
    transport.reads (policy_message n c) fits,
    messages-IsDelivered cs (suc n) rest,
  )

  -- Between a server and an agent that go on with the same number, the frames of the policies that
  -- the server sends for its pending changes, and the frames of the agent's acknowledgements, are a
  -- run of the two: each side receives what the other one sends. In this run the queue is emptied,
  -- and the agent's adapter has applied exactly the pending changes, each once and in their order.
  -- The conditions: the agent is not in dry-run and its adapter accepts every change, the connections
  -- take every message, no step of saving a cursor fails, the changes pass the checks of a session and
  -- their messages and acknowledgements fit into the limit, which both sides share, neither side has
  -- sent anything before, and the numbers stay below 2 ^ 64.
  pub exchange_delivered :
      (l : List PolicyChange) (s : SyncState) (a : Agent A) (n : ℕ)
      → IsReady s n
      → IsNext a n
      → n + length l < 2 ^ 64
      → s.queue.pending ≡ l
      → IsSendable server.system server.wire limit n l
      → s.session.config.max_message_bytes ≡ limit
      → a.session.config.max_message_bytes ≡ limit
      → s.session.sent ≡ []
      → a.session.sent ≡ []
      → s.session.incoming ≡ map transport.frame (acks n l)
      → a.session.incoming ≡ map transport.frame (messages n l)
      → (a.session.incoming
          ≡ map transport.frame (handle_sync server (suc (length l)) s).1.session.sent)
        × (s.session.incoming
            ≡ map transport.frame (consume agent (suc (length l)) a).1.session.sent)
        × ((handle_sync server (suc (length l)) s).1.queue.pending ≡ [])
        × ((consume agent (suc (length l)) a).1.adapter ≡ apply_all agent l a.adapter)
  exchange_delivered l s a n ready next below queued sendable limited bounded fresh new answers
        policies =
      let answered : IsAnswered server s.session.config.max_message_bytes n l
          (map transport.frame (acks n l)) =
        subst (λ k. IsAnswered server k n l (map transport.frame (acks n l))) (sym limited)
          (acks-IsAnswered l n sendable) in
      let delivered : IsDelivered agent a.session.config.max_message_bytes n l
          (map transport.frame (messages n l)) =
        subst (λ k. IsDelivered agent k n l (map transport.frame (messages n l))) (sym bounded)
          (messages-IsDelivered l n sendable) in
      let (waits, empty, sent) =
        handle_sync_drained server peers.accepts peers.server_saves l
          (map transport.frame (acks n l)) s n ready below queued answers answered in
      let (stops, applied, acked) =
        consume_delivered agent peers.applying peers.applies peers.accepted peers.agent_saves l
          (map transport.frame (messages n l)) a n next below policies delivered in
      (
        policies
            ∙ ap (map transport.frame) (sym (sent ∙ ap (λ before. before ++ messages n l) fresh)),
        answers ∙ ap (map transport.frame) (sym (acked ∙ ap (λ before. before ++ acks n l) new)),
        empty,
        applied,
      )

-- ===== src/Agent/Delivered.antt =====
-- The policies that arrive in their order are applied and acknowledged.
use rtbh_panel.Common.{
  ℕ, suc, ◌+◌, ◌<◌, ◌≤◌, ◌^◌, ◌≡◌, refl, sym, ap, ◌∙◌, true, false, none, some, List, [], ◌∷◌, ◌++◌,
  arith,
}
use mathlib.Core.List.{append-nil, append_assoc}
use rtbh_panel.Common.Lists.{length}
use rtbh_panel.Adapter.{PolicyChange}
use rtbh_panel.Rpc.Message.{
  Message, Frame, policy_message, ack_message, read_frame, validate_policy, no_header,
}
use rtbh_panel.Rpc.Session.{
  Session, received, receive, receive_from, on_frame, on_message, write, ack,
}
use rtbh_panel.Agent.Cursor
use rtbh_panel.Agent.Cursor.{CursorFile, load_cursor, save_cursor, save_cursor_advanced}
use rtbh_panel.Agent.Consume.{
  Agent, Environment, receive_failed, take, consume, after_receive, after_take,
}

-- The acknowledgements of a list of changes, numbered from n on.
unfoldable pub acks : ℕ → List PolicyChange → List Message
acks n [] = []
acks n (c ∷ cs) = ack_message n ∷ acks (suc n) cs

-- The adapter after a list of changes.
unfoldable pub apply_all : {A : Type 0} → Environment A → List PolicyChange → A → A
apply_all env [] a = a
apply_all env (c ∷ cs) a = apply_all env cs (env.apply c a).1

-- The frames hold the changes, numbered from n on, which pass the checks of a session, and their
-- acknowledgements fit into a message.
abbrev pub IsDelivered :
    {A : Type 0} → Environment A → ℕ → ℕ → List PolicyChange → List Frame → Type 0
IsDelivered env limit n [] frames = frames ≡ []
IsDelivered env limit n (c ∷ cs) [] = ⊥
IsDelivered env limit n (c ∷ cs) (f ∷ fs) =
    (validate_policy env.system c ≡ none)
    × (env.wire.size (ack_message n) ≤ limit)
    × ((read_frame limit f).1 ≡ some (policy_message n c))
    × IsDelivered env limit (suc n) cs fs

-- The session and the cursor file expect number n next.
pub record IsNext {A : Type 0} (a : Agent A) (n : ℕ) : Type 0 where
  pub numbered : suc a.session.applied_cursor ≡ n
  pub readable : (load_cursor a.file).0 ≡ none
  pub advancing : (load_cursor a.file).1 < n

module _ {A : Type 0} (env : Environment A) (applying : env.dry_run ≡ false)
    (applies : (c : PolicyChange) (a : A) → (env.apply c a).0 ≡ true)
    (accepts : (before : List Message) (m : Message) → env.wire.accepts before m ≡ true)
    (saves : (step : Cursor.Failure) → env.save_fails step ≡ false) where
  receive_next :
      (n : ℕ) (c : PolicyChange) (f : Frame) (fs : List Frame) (s : Session)
      → s.incoming ≡ f ∷ fs
      → suc s.applied_cursor ≡ n
      → n + 1 < 2 ^ 64
      → validate_policy env.system c ≡ none
      → (read_frame s.config.max_message_bytes f).1 ≡ some (policy_message n c)
      → receive env.system env.wire s ≡ received (policy_message n c) (record s { incoming = fs })
  unfolding receive receive_from on_frame on_message
  receive_next n c f fs s arrived next below valid read = ground (arith)

  take_next :
      (n : ℕ) (c : PolicyChange) (a : Agent A)
      → IsNext a n
      → n + 1 < 2 ^ 64
      → env.wire.size (ack_message n) ≤ a.session.config.max_message_bytes
      → take env (policy_message n c) a ≡ (
        none,
        record a {
          session = record a.session {
            applied_cursor = n;
            sent = a.session.sent ++ ack_message n ∷ [];
          };
          cursor = n;
          file = (save_cursor env.save_fails n a.file).1;
          adapter = (env.apply c a.adapter).1;
        },
      )
  unfolding take ack write
  take_next n c a next below fits =
      let saved = save_cursor_advanced env.save_fails saves n a.file next.readable next.advancing in
      let taken = accepts a.session.sent (ack_message n) in
      let applied = applies c a.adapter in
      let numbered = next.numbered in ground (arith, saved, taken, applied, numbered, applying)

  -- The agent after a policy.
  abbrev after_policy : ℕ → PolicyChange → List Frame → Agent A → Agent A
  after_policy n c fs a = record a {
    session = record a.session {
      incoming = fs;
      applied_cursor = n;
      sent = a.session.sent ++ ack_message n ∷ [];
    };
    cursor = n;
    file = (save_cursor env.save_fails n a.file).1;
    adapter = (env.apply c a.adapter).1;
  }

  consume_next :
      (k n : ℕ) (c : PolicyChange) (f : Frame) (fs : List Frame) (a : Agent A)
      → IsNext a n
      → n + 1 < 2 ^ 64
      → a.session.incoming ≡ f ∷ fs
      → validate_policy env.system c ≡ none
      → env.wire.size (ack_message n) ≤ a.session.config.max_message_bytes
      → (read_frame a.session.config.max_message_bytes f).1 ≡ some (policy_message n c)
      → consume env (suc k) a ≡ consume env k (after_policy n c fs a)
  unfolding consume
  consume_next k n c f fs a next below arrived valid fits read =
      let arrives = receive_next n c f fs a.session arrived next.numbered below valid read in
      let given : Agent A = record a { session = record a.session { incoming = fs } } in
      let ready : IsNext given n = record {
        numbered = next.numbered;
        readable = next.readable;
        advancing = next.advancing;
      } in
      ap (after_receive env (consume env k) a) arrives
      ∙ ap (after_take env (consume env k)) (take_next n c given ready below fits)

  -- Policies that arrive in the order of their numbers, from the next one on, are all applied to the
  -- adapter, each once and in this order, and acknowledged; then the agent waits for a frame. The
  -- adapter accepts each, the connection takes every message, and no step of saving a cursor fails.
  pub consume_delivered :
      (l : List PolicyChange) (frames : List Frame) (a : Agent A) (n : ℕ)
      → IsNext a n
      → n + length l < 2 ^ 64
      → a.session.incoming ≡ frames
      → IsDelivered env a.session.config.max_message_bytes n l frames
      → ((consume env (suc (length l)) a).0 ≡ receive_failed no_header)
        × ((consume env (suc (length l)) a).1.adapter ≡ apply_all env l a.adapter)
        × ((consume env (suc (length l)) a).1.session.sent ≡ a.session.sent ++ acks n l)
  unfolding apply_all acks
  consume_delivered [] frames a n next below arrived delivered =
      let none_left : a.session.incoming ≡ [] = arrived ∙ delivered in
      let stops : consume env 1 a
          ≡ (receive_failed no_header, record a { session = record a.session { incoming = [] } }) =
        unfold consume in unfold receive in unfold receive_from in ground (arith, none_left) in
      rw stops (refl, refl, sym (append-nil a.session.sent))
  consume_delivered (c ∷ cs) [] a n next below arrived delivered = absurd delivered
  consume_delivered (c ∷ cs) (f ∷ fs) a n next below arrived (valid, fits, read, rest) =
      let first : n + 1 < 2 ^ 64 = omega (arith, below) in
      let step = consume_next (suc (length cs)) n c f fs a next first arrived valid fits read in
      let b = after_policy n c fs a in
      let saved = save_cursor_advanced env.save_fails saves n a.file next.readable next.advancing in
      let ready : IsNext b (suc n) = record {
        numbered = refl;
        readable = saved.1;
        advancing = omega (arith, saved.2);
      } in
      let further : suc n + length cs < 2 ^ 64 = omega (arith, below) in
      let (stops, applied, sent) = consume_delivered cs fs b (suc n) ready further refl rest in
      rw step
        (stops, applied, sent ∙ append_assoc a.session.sent (ack_message n ∷ []) (acks (suc n) cs))

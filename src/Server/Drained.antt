-- ===== src/Server/Drained.antt =====
-- A queue that an agent acknowledges is sent and emptied.
use rtbh_panel.Common.{
  ℕ, suc, ◌+◌, ◌<◌, ◌≤◌, ◌^◌, ◌≡◌, refl, sym, ap, ◌∙◌, subst, true, false, Option, none, some, List,
  [], ◌∷◌, ◌++◌, arith,
}
use mathlib.Core.List.{append-nil, append_assoc}
use text.Mathlib.TextEquality.{eq_iff}
use rtbh_panel.Common.Lists.{length, filter, member}
use rtbh_panel.Adapter.{PolicyChange}
use rtbh_panel.Queue.{next, commit}
use rtbh_panel.Rpc.Message.{
  Message, Frame, policy_message, ack_message, read_frame, validate_policy,
}
use rtbh_panel.Rpc.Session.{
  Session, received, send_policy, receive, receive_from, on_frame, on_message, write,
}
use rtbh_panel.Agent.Cursor
use rtbh_panel.Agent.Cursor.{CursorFile, load_cursor, save_cursor, save_cursor_advanced}
use rtbh_panel.Server.Sync.{Stop, waiting, SyncState, Environment, serve_one, handle_sync}

-- The messages that carry a list of changes, numbered from n on.
unfoldable pub messages : ℕ → List PolicyChange → List Message
messages n [] = []
messages n (c ∷ cs) = policy_message n c ∷ messages (suc n) cs

-- An agent acknowledges each of the changes, which are numbered from n on: the changes are ones that
-- a session sends, and the frames that arrive are their acknowledgements in turn.
abbrev pub IsAnswered : Environment → ℕ → ℕ → List PolicyChange → List Frame → Type 0
IsAnswered env limit n [] frames = Unit
IsAnswered env limit n (c ∷ cs) [] = ⊥
IsAnswered env limit n (c ∷ cs) (f ∷ fs) =
    (validate_policy env.system c ≡ none)
    × (env.wire.size (policy_message n c) ≤ limit)
    × ((read_frame limit f).1 ≡ some (ack_message n))
    × IsAnswered env limit (suc n) cs fs

-- The session and the cursor file go on with number n.
pub record IsReady (s : SyncState) (n : ℕ) : Type 0 where
  pub numbered : s.session.next_sequence ≡ n
  pub idle : s.session.pending ≡ []
  pub slots : 0 < s.session.config.max_in_flight
  pub behind : s.session.peer_cursor < n
  pub readable : (load_cursor s.file).0 ≡ none
  pub advancing : (load_cursor s.file).1 < n

-- What a round leaves that took the first change from the queue, sent it as number n, and is ready for
-- the next one.
record Round (s : SyncState) (n : ℕ) (c : PolicyChange) (cs : List PolicyChange) (fs : List Frame)
    (out : Option Stop × SyncState) : Type 0 where
  goes_on : out.0 ≡ none
  left : out.1.queue.pending ≡ cs
  arriving : out.1.session.incoming ≡ fs
  sent : out.1.session.sent ≡ s.session.sent ++ policy_message n c ∷ []
  unchanged : out.1.session.config ≡ s.session.config
  ready : IsReady out.1 (suc n)

module _ (env : Environment)
    (accepts : (before : List Message) (m : Message) → env.wire.accepts before m ≡ true)
    (saves : (step : Cursor.Failure) → env.save_fails step ≡ false) where
  send_policy_sent :
      (c : PolicyChange) (s : Session)
      → validate_policy env.system c ≡ none
      → env.wire.size (policy_message s.next_sequence c) ≤ s.config.max_message_bytes
      → 0 < s.config.max_in_flight
      → s.pending ≡ []
      → s.next_sequence + 1 < 2 ^ 64
      → send_policy env.system env.wire c s ≡ (
        none,
        record s {
          next_sequence = suc s.next_sequence;
          pending = s.next_sequence ∷ [];
          sent = s.sent ++ policy_message s.next_sequence c ∷ [];
        },
      )
  unfolding send_policy write member
  send_policy_sent c s valid small slots idle below =
      let taken = accepts s.sent (policy_message s.next_sequence c) in ground (arith, taken)

  receive_acknowledged :
      (n : ℕ) (f : Frame) (fs : List Frame) (s : Session)
      → s.incoming ≡ f ∷ fs
      → s.pending ≡ n ∷ []
      → s.peer_cursor < n
      → (read_frame s.config.max_message_bytes f).1 ≡ some (ack_message n)
      → receive env.system env.wire s
        ≡ received (ack_message n) (record s { incoming = fs; peer_cursor = n; pending = [] })
  unfolding receive receive_from on_frame on_message filter
  receive_acknowledged n f fs s arrived sent behind read = ground (arith)

  serve_one_answered :
      (s : SyncState) (n : ℕ) (c : PolicyChange) (cs : List PolicyChange) (f : Frame)
      (fs : List Frame)
      → IsReady s n
      → n + 1 < 2 ^ 64
      → s.queue.pending ≡ c ∷ cs
      → s.session.incoming ≡ f ∷ fs
      → IsAnswered env s.session.config.max_message_bytes n (c ∷ cs) (f ∷ fs)
      → Round s n c cs fs (serve_one env s)
  unfolding serve_one next commit
  serve_one_answered s n c cs f fs ready below queued arrived (valid, small, read, rest) =
      let at_n = ready.numbered in
      let fits : env.wire.size (policy_message s.session.next_sequence c)
          ≤ s.session.config.max_message_bytes =
        rw at_n small in
      let numbered : s.session.next_sequence + 1 < 2 ^ 64 = rw at_n below in
      let sent = send_policy_sent c s.session valid fits ready.slots ready.idle numbered in
      let after : Session = record s.session {
        next_sequence = suc s.session.next_sequence;
        pending = s.session.next_sequence ∷ [];
        sent = s.session.sent ++ policy_message s.session.next_sequence c ∷ [];
      } in
      let taken =
        receive_acknowledged n f fs after arrived (ap (λ k. k ∷ []) at_n) ready.behind read in
      let saved =
        save_cursor_advanced env.save_fails saves n s.file ready.readable ready.advancing in
      let same = (eq_iff c.idempotency_key c.idempotency_key).1 refl in
      let file = (save_cursor env.save_fails n s.file).1 in
      let target : SyncState = record s {
        session = record after { incoming = fs; peer_cursor = n; pending = [] };
        queue = record s.queue { pending = cs };
        cursor = n;
        file = file;
      } in
      let step : serve_one env s ≡ (none, target) = ground (arith, sent, taken, saved, same) in
      subst (Round s n c cs fs) (sym step) (record {
        goes_on = refl;
        left = refl;
        arriving = refl;
        sent = ap (λ k. s.session.sent ++ policy_message k c ∷ []) at_n;
        unchanged = refl;
        ready = record {
          numbered = ap suc at_n;
          idle = refl;
          slots = ready.slots;
          behind = omega arith;
          readable = saved.1;
          advancing = omega (arith, saved.2);
        };
      })

  -- A session that goes on with number n, and that the agent answers, sends the pending changes in
  -- their order, numbered from n on, and empties the queue: after a round for each change it waits for
  -- the next one. The connection takes every message, no step of saving a cursor fails, and the
  -- numbers stay below 2 ^ 64.
  pub handle_sync_drained :
      (l : List PolicyChange) (frames : List Frame) (s : SyncState) (n : ℕ)
      → IsReady s n
      → n + length l < 2 ^ 64
      → s.queue.pending ≡ l
      → s.session.incoming ≡ frames
      → IsAnswered env s.session.config.max_message_bytes n l frames
      → ((handle_sync env (suc (length l)) s).0 ≡ some waiting)
        × ((handle_sync env (suc (length l)) s).1.queue.pending ≡ [])
        × ((handle_sync env (suc (length l)) s).1.session.sent ≡ s.session.sent ++ messages n l)
  unfolding handle_sync messages
  handle_sync_drained [] frames s n ready below queued arrived answered =
      let stops : serve_one env s ≡ (some waiting, s) =
        unfold serve_one in unfold next in rw queued refl in
      let done : handle_sync env 1 s ≡ (some waiting, s) = ground (arith, stops) in
      rw done (refl, queued, sym (append-nil s.session.sent))
  handle_sync_drained (c ∷ cs) [] s n ready below queued arrived answered = absurd answered
  handle_sync_drained (c ∷ cs) (f ∷ fs) s n ready below queued arrived answered =
      let first : n + 1 < 2 ^ 64 = omega (arith, below) in
      let round = serve_one_answered s n c cs f fs ready first queued arrived answered in
      let t = (serve_one env s).1 in
      let further : suc n + length cs < 2 ^ 64 = omega (arith, below) in
      let later : IsAnswered env t.session.config.max_message_bytes (suc n) cs fs =
        rw round.unchanged answered.3 in
      let (stops, empty, sent) =
        handle_sync_drained cs fs t (suc n) round.ready further round.left round.arriving later in
      let all : t.session.sent ++ messages (suc n) cs ≡ s.session.sent ++ messages n (c ∷ cs) =
        ap (λ before. before ++ messages (suc n) cs) round.sent
        ∙ append_assoc s.session.sent (policy_message n c ∷ []) (messages (suc n) cs) in
      let goes_on = round.goes_on in rw (handle_sync, goes_on) (stops, empty, sent ∙ all)

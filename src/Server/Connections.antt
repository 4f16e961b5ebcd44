-- ===== src/Server/Connections.antt =====
-- acceptSync: a new connection replaces the active one, whose handler it waits for. The steps of the
-- accept loop, of the handlers, and of those who publish, in any order.
pub mod Round
pub mod Serial
use rtbh_panel.Common.{
  ℕ, ◌+◌, ◌≡◌, ◌≢◌, Bool, true, false, Option, none, some, List, [], ◌∷◌, ◌++◌, is_some,
}
use rtbh_panel.Common.Lists.{All}
use rtbh_panel.Policy.{Mutation}
use rtbh_panel.Adapter.{PolicyChange}
use rtbh_panel.Queue.{PolicyQueue, new_policy_queue, publish, change_of}
use rtbh_panel.Config.Settings.{Config}
use rtbh_panel.Rpc.Message
use rtbh_panel.Rpc.Message.{Frame}
use rtbh_panel.Rpc.Session.{Session}
use rtbh_panel.Agent.Cursor.{CursorFile}
use rtbh_panel.Server.Create.{open_session}
use rtbh_panel.Server.Sync.{Environment, SyncState, Stop, waiting, serve_one}

-- An error of Accept, and what acceptSync returns for it.
pub data AcceptError : Type 0 where
  net_closed other_error : AcceptError

unfoldable pub accept_result : Bool → AcceptError → Option AcceptError
accept_result true e = none
accept_result false net_closed = none
accept_result false other_error = some other_error

-- Where the loop is: in Accept; in closeActive for a new connection, of which the frames are those
-- that it will receive; in the deferred closeActive; or it has returned.
pub data Phase : Type 0 where
  accepting leaving returned : Phase
  replacing : List Frame → Phase

-- A goroutine in handleSync. The number stands for its channel `done`.
pub record Handler : Type 0 where
  pub number : ℕ
  pub session : Session

-- The locals of acceptSync, the handlers that have not returned, and what they share. `published`
-- and `committed` are the changes published, and those whose handler went on after commit, so far.
pub record Accepting : Type 0 where
  pub phase : Phase
  pub active : Option ℕ
  pub cancelled : Bool
  pub result : Option AcceptError
  pub handlers : List Handler
  pub next_number : ℕ
  pub queue : PolicyQueue
  pub cursor : ℕ
  pub file : CursorFile
  pub published : List PolicyChange
  pub committed : List PolicyChange

-- handleSync returns at once if it gets no session.
abbrev pub with_session : Option Message.Failure × Option Session → Accepting → Accepting
with_session (some e, session) s = s
with_session (none, none) s = s
with_session (none, some session) s = record s {
  handlers = s.handlers ++ record { number = s.next_number; session = session } ∷ [];
}

abbrev pub committed_first : List PolicyChange → List PolicyChange
committed_first [] = []
committed_first (change ∷ _) = change ∷ []

abbrev pub shared : SyncState → Accepting → Accepting
shared u s = record s { queue = u.queue; cursor = u.cursor; file = u.file }

abbrev pub view : Handler → Accepting → SyncState
view h s = record { session = h.session; queue = s.queue; cursor = s.cursor; file = s.file }

-- <-activeDone passes when the handler of that number has returned.
abbrev pub IsDone : ℕ → List Handler → Type 0
IsDone n = All (λ h. h.number ≢ n)

module _ (env : Environment) (config : Config) where
  -- The new active connection, and its goroutine.
  unfoldable pub spawn : List Frame → Accepting → Accepting
  spawn incoming s =
      let t =
        with_session (open_session incoming config s.cursor)
          (record s { phase = accepting; active = some s.next_number; cancelled = false }) in
      record t { next_number = s.next_number + 1 }

  -- A round of a handler between others: it goes on after it has committed the first pending
  -- change, it waits for a change, or it returns.
  abbrev pub after_round :
      List Handler → Handler → List Handler → Option Stop × SyncState → Accepting → Accepting
  after_round before h after (none, u) s = record (shared u s) {
    handlers = before ++ record h { session = u.session } ∷ after;
    committed = s.committed ++ committed_first s.queue.pending;
  }
  after_round before h after (some waiting, u) s = s
  after_round before h after (some _, u) s = record (shared u s) { handlers = before ++ after }

  unfoldable pub round : List Handler → Handler → List Handler → Accepting → Accepting
  round before h after s = after_round before h after (serve_one env (view h s)) s

  unfoldable pub publishing : Mutation → Accepting → Accepting
  publishing m s =
      let queue = publish env.dashboard_id m s.queue in
      record s {
        queue = queue;
        published = s.published ++ change_of env.dashboard_id queue.next_id m ∷ [];
      }

  pub data Step (s t : Accepting) : Type 0 where
    accepts_first :
        (incoming : List Frame)
        → s.phase ≡ accepting
        → s.active ≡ none
        → t ≡ spawn incoming s
        → Step s t
    accepts_next :
        (incoming : List Frame) (n : ℕ)
        → s.phase ≡ accepting
        → s.active ≡ some n
        → t ≡ record s { phase = replacing incoming; cancelled = true }
        → Step s t
    replaces :
        (incoming : List Frame) (n : ℕ)
        → s.phase ≡ replacing incoming
        → s.active ≡ some n
        → IsDone n s.handlers
        → t ≡ spawn incoming s
        → Step s t
    accept_fails :
        (ctx_done : Bool) (e : AcceptError)
        → s.phase ≡ accepting
        → t ≡ record s {
          phase = leaving;
          cancelled = is_some s.active;
          result = accept_result ctx_done e;
        }
        → Step s t
    returns_idle :
        s.phase ≡ leaving → s.active ≡ none → t ≡ record s { phase = returned } → Step s t
    returns :
        (n : ℕ)
        → s.phase ≡ leaving
        → s.active ≡ some n
        → IsDone n s.handlers
        → t ≡ record s { phase = returned; active = none; cancelled = false }
        → Step s t
    serves :
        (before : List Handler) (h : Handler) (after : List Handler)
        → s.handlers ≡ before ++ h ∷ after
        → t ≡ round before h after s
        → Step s t
    gives_up :
        (before : List Handler) (h : Handler) (after : List Handler)
        → s.handlers ≡ before ++ h ∷ after
        → t ≡ record s { handlers = before ++ after }
        → Step s t
    publishes : (m : Mutation) → t ≡ publishing m s → Step s t

  pub data Reach (s : Accepting) : Accepting → Type 0 where
    here : Reach s s
    next : {t u : Accepting} → Reach s t → Step t u → Reach s u

-- acceptSync at its start, with the cursor of the server and its file.
abbrev pub listening : ℕ → CursorFile → Accepting
listening cursor file = record {
  phase = accepting;
  active = none;
  cancelled = false;
  result = none;
  handlers = [];
  next_number = 0;
  queue = new_policy_queue;
  cursor = cursor;
  file = file;
  published = [];
  committed = [];
}
